-- ===== src/Room/Rules/Memory.antt =====
-- The bounded memory of recent identifiers, the outcomes of closes and the order of active controls.
use metaserver_worker.Attachments.{ServerAttachment}
use metaserver_worker.Contract.{Close, Outcome, client_disconnected, completed}
use metaserver_worker.Room.Rules.{
  evict, close_outcomes, first_outcome, remember_bounded, newer_server,
  rendezvous_close_for_outcome, rendezvous_outcome_for_close,
}
use metaserver_worker.Common.{
  ℕ, ◌-◌, ◌≤◌, ◌<◌, ◌≡◌, Bool, true, false, some, List, [], ◌∷◌, ◌++◌, arith, Text, text_eq, any,
  length, leb, if◌then◌else◌, Bool-cases, &&_left, &&_right, ==_iff, ◌==◌, ◌&&◌, subst, ◌∙◌,
  some-injective, text_lt_trans, text_lt_connex, refl, ap, sym, text_eq_iff, inl, inr, ◌↔◌, ◌⊎◌,
  suc, text_lt, dec_lt, ◌≢◌, not, text_lt_asymm,
}

evict-size : (maximum : ℕ) (vs : List Text) → length (evict maximum vs) ≤ maximum - 1
unfolding evict
evict-size maximum [] = omega arith
evict-size maximum (v ∷ vs) = ground (arith, evict-size maximum vs)

evict-suffix : (maximum : ℕ) (vs : List Text) → (gone : List Text) × (vs ≡ gone ++ evict maximum vs)
unfolding evict
evict-suffix maximum [] = ([], refl)
evict-suffix maximum (v ∷ vs) =
    let (gone, split) = evict-suffix maximum vs in
    elim (Bool-cases (leb maximum (length (v ∷ vs)))) [
      | inl full ↦ rw full (v ∷ gone, ap (λ rest. v ∷ rest) split)
      | inr room ↦ rw room ([], refl)
    ]

evict-small : (maximum : ℕ) (vs : List Text) → length vs < maximum → evict maximum vs ≡ vs
unfolding evict
evict-small maximum [] h = refl
evict-small maximum (v ∷ vs) h = ground arith

append-nil : (vs : List Text) → vs ++ [] ≡ vs
append-nil [] = refl
append-nil (v ∷ vs) = ap (λ rest. v ∷ rest) (append-nil vs)

any-append : (p : Text → Bool) (xs ys : List Text) → any p ys ≡ true → any p (xs ++ ys) ≡ true
any-append p [] ys h = h
any-append p (x ∷ xs) ys h = ground (arith, any-append p xs ys h)

full : (v : Text) (vs : List Text) → leb (length (v ∷ vs)) (length (v ∷ vs)) ≡ true
full v vs = ground arith

evict-full :
    (vs : List Text) → 1 ≤ length vs → (oldest : Text) × (vs ≡ oldest ∷ evict (length vs) vs)
unfolding evict
evict-full [] h = absurd (omega arith)
evict-full (v ∷ vs) h = (
  v,
  rw (full v vs) (ap (λ rest. v ∷ rest) (sym (evict-small (suc (length vs)) vs (omega arith)))),
)

-- What is remembered after a value is added to at most `maximum` values, and that is at least one:
-- the same where it is known; else all of them and the value behind them where there is room, and
-- all but the first of them and the value behind them where there is none.
pub remember_bounded_keeps :
    (vs : List Text) (v : Text) (maximum : ℕ)
    → 1 ≤ maximum
    → length vs ≤ maximum
    → ((any (text_eq v) vs ≡ true) × (remember_bounded vs v maximum ≡ vs))
      ⊎ (((any (text_eq v) vs ≡ false)
            × (length vs < maximum)
            × (remember_bounded vs v maximum ≡ vs ++ (v ∷ [])))
          ⊎ ((any (text_eq v) vs ≡ false)
              × (length vs ≡ maximum)
              × ((oldest : Text) × (kept : List Text) × (vs ≡ oldest ∷ kept)
                  × (remember_bounded vs v maximum ≡ kept ++ (v ∷ [])))))
unfolding remember_bounded
remember_bounded_keeps vs v maximum one small = elim (Bool-cases (any (text_eq v) vs)) [
  | inl known ↦ inl (known, rw known refl)
  | inr new ↦ elim (dec_lt (length vs) maximum) [
    | yes room ↦ inr (inl (new, room, rw (new, evict-small maximum vs room) refl))
    | no full ↦
        let whole : length vs ≡ maximum = omega arith in
        let (oldest, split) = evict-full vs (omega arith) in
        inr (
          inr (
            new,
            whole,
            (
              oldest,
              evict maximum vs,
              subst (λ m. vs ≡ oldest ∷ evict m vs) whole split,
              rw new refl,
            ),
          ))
  ]
]

same_close : (c d : Close) → c.code ≡ d.code → c.reason ≡ d.reason → c ≡ d
same_close c d h k = λ i. record { code = h i; reason = k i }

first_outcome-close :
    (c : Close) (os : List Outcome) (o : Outcome)
    → first_outcome c os ≡ some o
    → rendezvous_close_for_outcome o ≡ c
unfolding first_outcome
first_outcome-close c [] o h = ground arith
first_outcome-close c (o' ∷ os) o h =
    let d = rendezvous_close_for_outcome o' in
    elim (Bool-cases ((d.code == c.code) && text_eq d.reason c.reason)) [
      | inl equal ↦
          let found =
            some-injective o' o
              (subst (λ b. (if b then some o' else first_outcome c os) ≡ some o) equal h) in
          ap rendezvous_close_for_outcome (sym found)
          ∙ same_close d c ((==_iff d.code c.code).0 (&&_left _ _ equal))
              ((text_eq_iff d.reason c.reason).0 (&&_right _ _ equal))
      | inr other ↦
          first_outcome-close c os o
            (subst (λ b. (if b then some o' else first_outcome c os) ≡ some o) other h)
    ]

abbrev pub as_remembered : Outcome → Outcome
as_remembered client_disconnected = completed
as_remembered o = o

outcome_of_own_close :
    (o : Outcome)
    → rendezvous_outcome_for_close (rendezvous_close_for_outcome o) ≡ some (as_remembered o)
unfolding rendezvous_outcome_for_close rendezvous_close_for_outcome text_eq
outcome_of_own_close completed = refl
outcome_of_own_close _ = refl

-- The outcome that a close is read back as has that close, and the close of every outcome is read
-- back as the outcome, except that a client's own goodbye reads as completion.
pub outcome_for_close_iff :
    (c : Close) (o : Outcome)
    → ((rendezvous_outcome_for_close c ≡ some o) → rendezvous_close_for_outcome o ≡ c)
      × (rendezvous_outcome_for_close (rendezvous_close_for_outcome o) ≡ some (as_remembered o))
unfolding rendezvous_outcome_for_close
outcome_for_close_iff c o = (first_outcome-close c close_outcomes o, outcome_of_own_close o)

abbrev IsLater : ServerAttachment → ServerAttachment → Type 0
IsLater a b =
    (b.opened_at < a.opened_at)
    ⊎ ((a.opened_at ≡ b.opened_at) × (text_lt b.control_id a.control_id ≡ true))

newer-IsLater : (a b : ServerAttachment) → newer_server a b ≡ true → IsLater a b
unfolding newer_server
newer-IsLater a b h = elim (Bool-cases (a.opened_at == b.opened_at)) [
  | inl same ↦ inr (ground arith, ground arith)
  | inr other ↦ inl (ground arith)
]

IsLater-newer : (a b : ServerAttachment) → IsLater a b → newer_server a b ≡ true
unfolding newer_server
IsLater-newer a b (inl later) = ground arith
IsLater-newer a b (inr (same, after)) = ground arith

newer_either :
    (a b : ServerAttachment)
    → (a.control_id ≢ b.control_id)
    → newer_server a b ≡ not (newer_server b a)
unfolding newer_server
newer_either a b other = elim (Bool-cases (text_lt b.control_id a.control_id)) [
  | inl after ↦ ground (arith, text_lt_asymm b.control_id a.control_id)
  | inr no_later ↦ elim (Bool-cases (text_lt a.control_id b.control_id)) [
    | inl before ↦ ground arith
    | inr no_sooner ↦ absurd (other (text_lt_connex a.control_id b.control_id no_sooner no_later))
  ]
]

-- A control comes before another exactly where it was opened later, or at the same time under an
-- identifier that is greater in the order of code units; this order is transitive, and of two
-- controls of different identifiers exactly one comes before the other.
pub newer_server_order :
    (a b c : ServerAttachment)
    → ((newer_server a b ≡ true) ↔ (
        (b.opened_at < a.opened_at)
        ⊎ ((a.opened_at ≡ b.opened_at) × (text_lt b.control_id a.control_id ≡ true))))
      × ((newer_server a b ≡ true) → (newer_server b c ≡ true) → newer_server a c ≡ true)
      × ((a.control_id ≢ b.control_id) → newer_server a b ≡ not (newer_server b a))
unfolding newer_server
newer_server_order a b c = (
  (newer-IsLater a b, IsLater-newer a b),
  λ h k. ground (arith, text_lt_trans c.control_id b.control_id a.control_id),
  newer_either a b,
)
