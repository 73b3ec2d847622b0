-- ===== src/Admission/Expiry.antt =====
-- Which admissions expire, and when the next one does.
use metaserver_worker.Common.{
  ℕ, ◌+◌, ◌≤◌, ◌<◌, ◌≡◌, inl, inr, refl, sym, ◌∙◌, Bool, true, false, Option, none, some, [], ◌∷◌,
  leb, every, any, All, arith, Bool-cases, &&_left, &&_right,
}
use metaserver_worker.Admission.Store.{
  Table, earliest_retained_expiry_ms, older, by_age, insert_older, first_expiry, is_expired,
}
use metaserver_worker.Admission.{AdmissionRow, rolling_window_ms, max_accepted_at_ms}
use metaserver_worker.Admission.Rows.{any-by_age, All-map}
use metaserver_worker.Common.Results.{ok}

abbrev IsAged : Table → Type 0
IsAged [] = Unit
IsAged (row ∷ rows) =
    All (λ (other : AdmissionRow). row.accepted_at_ms ≤ other.accepted_at_ms) rows × IsAged rows

older_le : (a b : AdmissionRow) → older a b ≡ true → a.accepted_at_ms ≤ b.accepted_at_ms
unfolding older
older_le a b h = ground arith

younger_le : (a b : AdmissionRow) → older a b ≡ false → b.accepted_at_ms ≤ a.accepted_at_ms
unfolding older
younger_le a b h = ground arith

All-insert_older :
    (n : ℕ) (row : AdmissionRow) (rows : Table)
    → n ≤ row.accepted_at_ms
    → All (λ (other : AdmissionRow). n ≤ other.accepted_at_ms) rows
    → All (λ (other : AdmissionRow). n ≤ other.accepted_at_ms) (insert_older row rows)
unfolding insert_older
All-insert_older n row [] h k = (h, tt)
All-insert_older n row (other ∷ rows) h k = elim (Bool-cases (older other row)) [
  | inl first ↦ rw first (k.0, All-insert_older n row rows h k.1)
  | inr last ↦ rw last (h, k)
]

IsAged-insert_older :
    (row : AdmissionRow) (rows : Table) → IsAged rows → IsAged (insert_older row rows)
unfolding insert_older
IsAged-insert_older row [] h = (tt, tt)
IsAged-insert_older row (other ∷ rows) h = elim (Bool-cases (older other row)) [
  | inl first ↦ rw first (
    All-insert_older other.accepted_at_ms row rows (older_le other row first) h.0,
    IsAged-insert_older row rows h.1,
  )
  | inr last ↦
      let le = younger_le other row last in
      rw last (
        (
          le,
          All-map (λ (r : AdmissionRow). other.accepted_at_ms ≤ r.accepted_at_ms)
              (λ (r : AdmissionRow). row.accepted_at_ms ≤ r.accepted_at_ms) rows
              (λ r k. omega (arith, le, k)) h.0,
        ),
        h,
      )
]

by_age-IsAged : (table : Table) → IsAged (by_age table)
unfolding by_age
by_age-IsAged [] = tt
by_age-IsAged (row ∷ rows) = IsAged-insert_older row (by_age rows) (by_age-IsAged rows)

none_expired :
    (now n : ℕ) (rows : Table)
    → now < n + rolling_window_ms
    → All (λ (r : AdmissionRow). n ≤ r.accepted_at_ms) rows
    → any (is_expired now) rows ≡ false
unfolding is_expired
none_expired now n [] early h = refl
none_expired now n (row ∷ rows) early h = ground (arith, none_expired now n rows early h.1, h.0)

expired_first :
    (now : ℕ) (row : AdmissionRow) (rows : Table)
    → IsAged (row ∷ rows)
    → any (is_expired now) (row ∷ rows) ≡ leb (row.accepted_at_ms + rolling_window_ms) now
unfolding is_expired
expired_first now row rows h =
    elim (Bool-cases (leb (row.accepted_at_ms + rolling_window_ms) now)) [
      | inl due ↦ rw due refl
      | inr early ↦ rw (early, none_expired now row.accepted_at_ms rows (ground arith) h.0) refl
    ]

-- An expiry, if there is one, has come.
abbrev pub is_due : Option ℕ → ℕ → Bool
is_due none now = false
is_due (some at) now = leb at now

abbrev pub in_range : AdmissionRow → Bool
in_range row = leb row.accepted_at_ms max_accepted_at_ms

every-insert_older :
    (row : AdmissionRow) (rows : Table)
    → in_range row ≡ true
    → every in_range rows ≡ true
    → every in_range (insert_older row rows) ≡ true
unfolding insert_older
every-insert_older row [] h k = rw h refl
every-insert_older row (other ∷ rows) h k = ground (arith, every-insert_older row rows)

every-by_age : (table : Table) → every in_range table ≡ true → every in_range (by_age table) ≡ true
unfolding by_age
every-by_age [] h = refl
every-by_age (row ∷ rows) h =
    every-insert_older row (by_age rows) (&&_left _ _ h) (every-by_age rows (&&_right _ _ h))

first_expiry_exact :
    (aged : Table)
    → IsAged aged
    → every in_range aged ≡ true
    → (at : Option ℕ) × (first_expiry aged ≡ ok at)
      × ((now : ℕ) → any (is_expired now) aged ≡ is_due at now)
unfolding first_expiry
first_expiry_exact [] h k = (none, refl, λ now. refl)
first_expiry_exact (row ∷ rows) h k = (
  some (row.accepted_at_ms + rolling_window_ms),
  rw (&&_left (in_range row) (every in_range rows) k) refl,
  λ now. expired_first now row rows h,
)

-- Of admissions with times in range, earliestRetainedExpiryMs answers, and its answer is exact:
-- at every time, some admission has expired exactly when the Answered time has come, and none
-- ever does when it answers null.
pub earliest_retained_expiry_exact :
    (table : Table)
    → every in_range table ≡ true
    → (at : Option ℕ) × (earliest_retained_expiry_ms table ≡ ok at)
      × ((now : ℕ) → any (is_expired now) table ≡ is_due at now)
unfolding earliest_retained_expiry_ms
earliest_retained_expiry_exact table h =
    let (at, answers, exact) =
      first_expiry_exact (by_age table) (by_age-IsAged table) (every-by_age table h) in
    (at, answers, λ now. sym (any-by_age (is_expired now) table) ∙ exact now)
