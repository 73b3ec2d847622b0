-- ===== src/Admission/Deleted.antt =====
-- How many rows a deletion by identifiers deletes.
use metaserver_worker.Common.{
  ℕ, zero, suc, ◌+◌, ◌≡◌, inl, inr, refl, ap, subst, ◌∙◌, Bool, true, false, not, [], ◌∷◌, ◌==◌,
  length, every, any, keep, take, arith, Bool-cases, &&_left, ==_iff, &&_right,
}
use metaserver_worker.Admission.Store.{
  insert_older, Table, without, prune_batch, by_age, has_id, is_expired,
}
use metaserver_worker.Admission.{AdmissionRow, replay_prune_batch_size}
use metaserver_worker.Admission.Rows.{
  every-take, any-keep, any-take-false, All-pure, any-by_age, any-insert_older,
}
use metaserver_worker.Admission.Calls.{IsKeyed}
use metaserver_worker.Admission.Retained.{IsKeyed-keep}

drop_id : ℕ → Table → Table
drop_id id table = keep (λ row. not (row.id == id)) table

drop_id-absent : (id : ℕ) (table : Table) → any (has_id id) table ≡ false → drop_id id table ≡ table
unfolding drop_id keep
drop_id-absent id [] h = refl
drop_id-absent id (row ∷ rows) h = elim (Bool-cases (row.id == id)) [
  | inl same ↦ absurd (ground arith)
  | inr other ↦ rw other (ap (λ rest. row ∷ rest) (drop_id-absent id rows (ground arith)))
]

length-drop_id :
    (id : ℕ) (table : Table)
    → IsKeyed table
    → any (has_id id) table ≡ true
    → length (drop_id id table) + 1 ≡ length table
unfolding drop_id keep
length-drop_id id [] keyed h = absurd (ground arith)
length-drop_id id (row ∷ rows) keyed h = elim (Bool-cases (row.id == id)) [
  | inl same ↦
      let alone : any (has_id id) rows ≡ false =
        subst (λ i. any (has_id i) rows ≡ false) ((==_iff row.id id).0 same) (ground arith) in
      rw same (omega (arith, ap length (drop_id-absent id rows alone)))
  | inr other ↦ rw other (omega (arith, length-drop_id id rows (&&_right _ _ keyed) (ground arith)))
]

without-cons :
    (gone : AdmissionRow) (others table : Table)
    → without (gone ∷ others) table ≡ without others (drop_id gone.id table)
unfolding without drop_id keep
without-cons gone others [] = refl
without-cons gone others (row ∷ rows) = elim (Bool-cases (row.id == gone.id)) [
  | inl same ↦ ground (arith, without-cons gone others rows)
  | inr other ↦ ground (arith, without-cons gone others rows)
]

without-none : (table : Table) → without [] table ≡ table
unfolding without keep
without-none [] = refl
without-none (row ∷ rows) = ap (λ rest. row ∷ rest) (without-none rows)

-- The row's identifier is one of the table's.
abbrev pub is_stored : Table → AdmissionRow → Bool
is_stored table row = any (has_id row.id) table

is_stored-drop_id :
    (id : ℕ) (table : Table) (row : AdmissionRow)
    → (row.id == id) ≡ false
    → is_stored table row ≡ true
    → is_stored (drop_id id table) row ≡ true
unfolding drop_id
is_stored-drop_id id table row other h =
    any-keep (has_id row.id) (λ r. not (r.id == id)) table
      (All-pure (λ r. has_id row.id r ≡ true → not (r.id == id) ≡ true) table
        (λ r same. ground arith))
      h

every-drop_id :
    (id : ℕ) (table gone : Table)
    → any (has_id id) gone ≡ false
    → every (is_stored table) gone ≡ true
    → every (is_stored (drop_id id table)) gone ≡ true
every-drop_id id table [] absent h = refl
every-drop_id id table (row ∷ rows) absent h =
    ground (arith, is_stored-drop_id id table row, every-drop_id id table rows)

drop_id-IsKeyed : (id : ℕ) (table : Table) → IsKeyed table → IsKeyed (drop_id id table)
unfolding drop_id
drop_id-IsKeyed id table keyed = IsKeyed-keep (λ row. not (row.id == id)) table keyed

-- Deleting the stored rows of distinct identifiers deletes as many rows.
pub length-without :
    (gone table : Table)
    → IsKeyed gone
    → IsKeyed table
    → every (is_stored table) gone ≡ true
    → length (without gone table) + length gone ≡ length table
length-without [] table apart keyed h = omega (arith, ap length (without-none table))
length-without (row ∷ rows) table apart keyed h =
    let dropped = drop_id row.id table in
    let rest : length (without rows dropped) + length rows ≡ length dropped =
      length-without rows dropped (&&_right _ _ apart) (drop_id-IsKeyed row.id table keyed)
        (every-drop_id row.id table rows (ground arith) (&&_right _ _ h)) in
    omega (
      arith,
      ap length (without-cons row rows table),
      rest,
      length-drop_id row.id table keyed (&&_left _ _ h),
    )

take-IsKeyed : (n : ℕ) (table : Table) → IsKeyed table → IsKeyed (take n table)
take-IsKeyed zero table keyed = refl
take-IsKeyed (suc n) [] keyed = refl
take-IsKeyed (suc n) (row ∷ rows) keyed =
    ground (arith, take-IsKeyed n rows, any-take-false (has_id row.id) n rows)

insert_older-IsKeyed :
    (row : AdmissionRow) (rows : Table)
    → any (has_id row.id) rows ≡ false
    → IsKeyed rows
    → IsKeyed (insert_older row rows)
unfolding insert_older
insert_older-IsKeyed row [] absent keyed = refl
insert_older-IsKeyed row (other ∷ rows) absent keyed =
    ground (arith, insert_older-IsKeyed row rows, any-insert_older (has_id other.id) row rows)

by_age-IsKeyed : (rows : Table) → IsKeyed rows → IsKeyed (by_age rows)
unfolding by_age
by_age-IsKeyed [] keyed = refl
by_age-IsKeyed (row ∷ rows) keyed =
    insert_older-IsKeyed row (by_age rows) (any-by_age (has_id row.id) rows ∙ ground arith)
      (by_age-IsKeyed rows (&&_right _ _ keyed))

every-insert_older :
    (p : AdmissionRow → Bool) (row : AdmissionRow) (rows : Table)
    → p row ≡ true
    → every p rows ≡ true
    → every p (insert_older row rows) ≡ true
unfolding insert_older
every-insert_older p row [] h hs = ground arith
every-insert_older p row (other ∷ rows) h hs = ground (arith, every-insert_older p row rows)

every-by_age :
    (p : AdmissionRow → Bool) (rows : Table) → every p rows ≡ true → every p (by_age rows) ≡ true
unfolding by_age
every-by_age p [] h = refl
every-by_age p (row ∷ rows) h =
    every-insert_older p row (by_age rows) (&&_left _ _ h) (every-by_age p rows (&&_right _ _ h))

every-keep :
    (p f : AdmissionRow → Bool) (rows : Table) → every p rows ≡ true → every p (keep f rows) ≡ true
unfolding keep
every-keep p f [] h = refl
every-keep p f (row ∷ rows) h = ground (arith, every-keep p f rows)

is_stored-cons :
    (first : AdmissionRow) (table rows : Table)
    → every (is_stored table) rows ≡ true
    → every (is_stored (first ∷ table)) rows ≡ true
is_stored-cons first table [] h = refl
is_stored-cons first table (row ∷ rows) h = ground (arith, is_stored-cons first table rows)

every-is_stored : (table : Table) → every (is_stored table) table ≡ true
every-is_stored [] = refl
every-is_stored (row ∷ rows) = ground (arith, is_stored-cons row rows rows (every-is_stored rows))

pub prune_batch-IsKeyed :
    (now : ℕ) (table : Table) → IsKeyed table → IsKeyed (prune_batch now table)
unfolding prune_batch
prune_batch-IsKeyed now table keyed =
    let expired = keep (is_expired now) table in
    take-IsKeyed replay_prune_batch_size (by_age expired)
      (by_age-IsKeyed expired (IsKeyed-keep (is_expired now) table keyed))

pub prune_batch-stored :
    (now : ℕ) (table : Table) → every (is_stored table) (prune_batch now table) ≡ true
unfolding prune_batch
prune_batch-stored now table = every-take (is_stored table) replay_prune_batch_size _ (
    every-by_age (is_stored table) _
      (every-keep (is_stored table) (is_expired now) table (every-is_stored table)))
