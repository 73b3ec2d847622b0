-- ===== src/Admission/Distinct.antt =====
-- No replay tag stands twice in a table, whatever rows are deleted and whatever free tags are set.
use metaserver_worker.Common.{
  ℕ, ◌≡◌, ◌⊎◌, inl, inr, refl, ap, subst, Bool, true, false, ◌||◌, Option, none, some, List, [],
  ◌∷◌, ◌++◌, any, keep, Text, text_eq, arith, Bool-cases, ||_left, ||_right, text_eq_comm, &&_right,
  ==_iff,
}
use metaserver_worker.Admission.Schema.{has_repeat, all_tags, listed}
use metaserver_worker.Admission.Store.{is_unclaimed, holds, set_tags, has_tag, Table, has_id}
use metaserver_worker.Admission.{AdmissionRow}
use metaserver_worker.Admission.Register.{in_use}
use metaserver_worker.Admission.Calls.{IsKeyed}
use metaserver_worker.Admission.AtOnce.{set_tags-absent}

without_repeat :
    (a b : Option Text) (rest less : List Text)
    → ((t : Text)
        → (a ≡ some t) ⊎ (b ≡ some t)
        → any (text_eq t) rest ≡ false
        → any (text_eq t) less ≡ false)
    → has_repeat less ≡ false
    → has_repeat (listed a ++ (listed b ++ rest)) ≡ false
    → has_repeat (listed a ++ (listed b ++ less)) ≡ false
unfolding has_repeat
without_repeat none none rest less f h k = h
without_repeat none (some t) rest less f h k = ground (arith, f t (inr refl))
without_repeat (some t) none rest less f h k = ground (arith, f t (inl refl))
without_repeat (some t) (some u) rest less f h k = ground (arith, f t (inl refl), f u (inr refl))

has_repeat_tail :
    (a b : Option Text) (rest : List Text)
    → has_repeat (listed a ++ (listed b ++ rest)) ≡ false
    → has_repeat rest ≡ false
unfolding has_repeat
has_repeat_tail none none rest h = h
has_repeat_tail none (some t) rest h = ||_right _ _ h
has_repeat_tail (some t) none rest h = ||_right _ _ h
has_repeat_tail (some t) (some u) rest h = ||_right _ _ (||_right _ _ h)

absent_less :
    (a b : Option Text) (rest less : List Text) (t : Text)
    → (any (text_eq t) rest ≡ false → any (text_eq t) less ≡ false)
    → any (text_eq t) (listed a ++ (listed b ++ rest)) ≡ false
    → any (text_eq t) (listed a ++ (listed b ++ less)) ≡ false
absent_less none none rest less t f h = f h
absent_less none (some u) rest less t f h = ground (arith, f)
absent_less (some u) none rest less t f h = ground (arith, f)
absent_less (some u) (some v) rest less t f h = ground (arith, f)

absent_tail :
    (a b : Option Text) (rest : List Text) (t : Text)
    → any (text_eq t) (listed a ++ (listed b ++ rest)) ≡ false
    → any (text_eq t) rest ≡ false
absent_tail none none rest t h = h
absent_tail none (some u) rest t h = ||_right _ _ h
absent_tail (some u) none rest t h = ||_right _ _ h
absent_tail (some u) (some v) rest t h = ||_right _ _ (||_right _ _ h)

all_tags-keep_absent :
    (f : AdmissionRow → Bool) (table : Table) (t : Text)
    → any (text_eq t) (all_tags table) ≡ false
    → any (text_eq t) (all_tags (keep f table)) ≡ false
unfolding all_tags keep
all_tags-keep_absent f [] t h = h
all_tags-keep_absent f (row ∷ rows) t h = elim (Bool-cases (f row)) [
  | inl kept ↦ rw kept (
      absent_less row.current row.previous (all_tags rows) (all_tags (keep f rows)) t
        (all_tags-keep_absent f rows t) h)
  | inr gone ↦
      rw gone
        (all_tags-keep_absent f rows t (absent_tail row.current row.previous (all_tags rows) t h))
]

pub has_repeat-keep :
    (f : AdmissionRow → Bool) (table : Table)
    → has_repeat (all_tags table) ≡ false
    → has_repeat (all_tags (keep f table)) ≡ false
unfolding all_tags keep
has_repeat-keep f [] h = h
has_repeat-keep f (row ∷ rows) h =
    let rest =
      has_repeat-keep f rows (has_repeat_tail row.current row.previous (all_tags rows) h) in
    elim (Bool-cases (f row)) [
      | inl kept ↦ rw kept (
          without_repeat row.current row.previous (all_tags rows) (all_tags (keep f rows))
            (λ t held. all_tags-keep_absent f rows t) rest h)
      | inr gone ↦ rw gone rest
    ]

free_of :
    (a b : Option Text) (rest : List Text) (t : Text)
    → (holds t a || holds t b) ≡ false
    → any (text_eq t) rest ≡ false
    → any (text_eq t) (listed a ++ (listed b ++ rest)) ≡ false
free_of none none rest t h k = k
free_of none (some u) rest t h k = ground (arith, text_eq_comm t u)
free_of (some u) none rest t h k = ground (arith, text_eq_comm t u)
free_of (some u) (some v) rest t h k = ground (arith, text_eq_comm t u, text_eq_comm t v)

not_in_use-all_tags :
    (t : Text) (table : Table) → in_use table t ≡ false → any (text_eq t) (all_tags table) ≡ false
unfolding all_tags has_tag
not_in_use-all_tags t [] h = refl
not_in_use-all_tags t (row ∷ rows) h =
    free_of row.current row.previous (all_tags rows) t (||_left _ _ h)
      (not_in_use-all_tags t rows (||_right _ _ h))

all_tags-set_tags_absent :
    (id : ℕ) (c p t : Text) (table : Table)
    → text_eq t c ≡ false
    → text_eq t p ≡ false
    → any (text_eq t) (all_tags table) ≡ false
    → any (text_eq t) (all_tags (set_tags id c p table)) ≡ false
unfolding all_tags set_tags
all_tags-set_tags_absent id c p t [] d e h = h
all_tags-set_tags_absent id c p t (row ∷ rows) d e h =
    let rest =
      all_tags-set_tags_absent id c p t rows d e
        (absent_tail row.current row.previous (all_tags rows) t h) in
    elim (Bool-cases (is_unclaimed id row)) [
      | inl free ↦ rw (free, d, e) rest
      | inr held ↦ rw held (
          absent_less row.current row.previous (all_tags rows) (all_tags (set_tags id c p rows)) t
            (λ k. rest) h)
    ]

tag_differs :
    (t u : Text) (a b : Option Text)
    → (a ≡ some t) ⊎ (b ≡ some t)
    → (holds u a || holds u b) ≡ false
    → text_eq t u ≡ false
tag_differs t u a b (inl here) h = subst (λ o. holds u o ≡ false) here (||_left _ _ h)
tag_differs t u a b (inr here) h = subst (λ o. holds u o ≡ false) here (||_right _ _ h)

pair_apart :
    (c p : Text) (rest : List Text)
    → text_eq c p ≡ false
    → any (text_eq c) rest ≡ false
    → any (text_eq p) rest ≡ false
    → has_repeat rest ≡ false
    → has_repeat (c ∷ p ∷ rest) ≡ false
unfolding has_repeat
pair_apart c p rest d hc hp h = rw (d, hc, hp) h

-- The row that the tags are set on.
claimed_first :
    (id : ℕ) (c p : Text) (row : AdmissionRow) (rows : Table)
    → is_unclaimed id row ≡ true
    → any (has_id row.id) rows ≡ false
    → set_tags id c p rows ≡ rows
unfolding is_unclaimed
claimed_first id c p row rows free alone =
    set_tags-absent id c p rows
      (ground (arith, ap (λ i. any (has_id i) rows) ((==_iff row.id id).0 (ground arith))))

pub has_repeat-set_tags :
    (id : ℕ) (c p : Text) (table : Table)
    → IsKeyed table
    → text_eq c p ≡ false
    → in_use table c ≡ false
    → in_use table p ≡ false
    → has_repeat (all_tags table) ≡ false
    → has_repeat (all_tags (set_tags id c p table)) ≡ false
unfolding all_tags set_tags has_tag
has_repeat-set_tags id c p [] keyed d hc hp h = h
has_repeat-set_tags id c p (row ∷ rows) keyed d hc hp h =
    let tail = has_repeat_tail row.current row.previous (all_tags rows) h in
    elim (Bool-cases (is_unclaimed id row)) [
      | inl free ↦
          rw (free, claimed_first id c p row rows free (ground arith))
            (pair_apart c p (all_tags rows) d (not_in_use-all_tags c rows (||_right _ _ hc))
              (not_in_use-all_tags p rows (||_right _ _ hp)) tail)
      | inr held ↦ rw held (
          without_repeat row.current row.previous (all_tags rows) (all_tags (set_tags id c p rows))
            (λ t here k.
              all_tags-set_tags_absent id c p t rows
                (tag_differs t c row.current row.previous here (||_left _ _ hc))
                (tag_differs t p row.current row.previous here (||_left _ _ hp)) k)
            (has_repeat-set_tags id c p rows (&&_right _ _ keyed) d (||_right _ _ hc)
              (||_right _ _ hp) tail)
            h)
    ]
