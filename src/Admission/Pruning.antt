-- ===== src/Admission/Pruning.antt =====
-- What one batch of deletions leaves.
use metaserver_worker.Common.{
  ℕ, zero, suc, ◌≤◌, ◌<◌, ◌≡◌, refl, ap, ◌∙◌, Bool, true, false, not, List, [], ◌∷◌, length, any,
  keep, take, All, arith, ◌+◌, ◌⊎◌, dec_lt, inr, inl,
}
use metaserver_worker.Admission.{AdmissionRow, replay_prune_batch_size}
use metaserver_worker.Admission.Store.{
  Table, prune_before, prune, is_expired, has_id, assert_now, prune_batch, without, by_age,
}
use metaserver_worker.Admission.Rows.{All-map, any-by_age, length-take_le}
use metaserver_worker.Admission.Calls.{IsKeyed}
use metaserver_worker.Admission.Retained.{IsSpared, not_deleted, keyed-spares}
use metaserver_worker.Admission.Deleted.{length-without, prune_batch-IsKeyed, prune_batch-stored}
use metaserver_worker.Common.Results.{ok}

take_all {ℓ} : {A : Type ℓ} (n : ℕ) (xs : List A) → length (take n xs) < n → take n xs ≡ xs
take_all zero xs h = elim h [ ]
take_all (suc n) [] h = refl
take_all (suc n) (x ∷ xs) h = ap (λ ys. x ∷ ys) (take_all n xs (omega (arith, h)))

expired_has_id :
    (now : ℕ) (row : AdmissionRow) (table : Table)
    → is_expired now row ≡ true
    → any (has_id row.id) (keep (is_expired now) (row ∷ table)) ≡ true
unfolding keep
expired_has_id now row table h = ground arith

abbrev IsFound : ℕ → Table → AdmissionRow → Type 0
IsFound now table row =
    is_expired now row ≡ true → any (has_id row.id) (keep (is_expired now) table) ≡ true

IsFound-cons :
    (now : ℕ) (first row : AdmissionRow) (rows : Table)
    → IsFound now rows row
    → IsFound now (first ∷ rows) row
unfolding keep
IsFound-cons now first row rows h due = ground (arith, h due)

IsFound-All : (now : ℕ) (table : Table) → All (IsFound now table) table
IsFound-All now [] = tt
IsFound-All now (row ∷ rows) = (
  expired_has_id now row rows,
  All-map (IsFound now rows) (IsFound now (row ∷ rows)) rows (λ r. IsFound-cons now row r rows)
      (IsFound-All now rows),
)

keep_twice {ℓ} :
    {A : Type ℓ} (f g : A → Bool) (xs : List A)
    → All (λ x. f x ≡ true → g x ≡ true) xs
    → keep f (keep g xs) ≡ keep f xs
unfolding keep
keep_twice f g [] h = refl
keep_twice f g (x ∷ xs) h = ground (arith, keep_twice f g xs h.1, h.0)

keep_against {ℓ} :
    {A : Type ℓ} (f g : A → Bool) (xs : List A)
    → All (λ x. f x ≡ true → g x ≡ false) xs
    → any f (keep g xs) ≡ false
unfolding keep
keep_against f g [] h = refl
keep_against f g (x ∷ xs) h = ground (arith, keep_against f g xs h.1, h.0)

abbrev pub is_live : ℕ → AdmissionRow → Bool
is_live now row = not (is_expired now row)

module _ (now : ℕ) (table : Table) where
  live_left :
      IsKeyed table → keep (is_live now) (prune_before now table).table ≡ keep (is_live now) table
  unfolding prune_before without
  live_left keyed =
      keep_twice (is_live now) (λ row. not (any (has_id row.id) (prune_batch now table))) table
        (All-map (IsSpared now table)
          (λ row. is_live now row ≡ true → not (any (has_id row.id) (prune_batch now table)) ≡ true)
          table (λ row spared live. ap not (not_deleted now table row (spared (ground arith))))
          (keyed-spares now table keyed))

  whole_batch :
      (row : AdmissionRow)
      → (prune_before now table).deleted < replay_prune_batch_size
      → any (has_id row.id) (keep (is_expired now) table) ≡ true
      → any (has_id row.id) (prune_batch now table) ≡ true
  unfolding prune_before prune_batch
  whole_batch row few h =
      rw (take_all replay_prune_batch_size (by_age (keep (is_expired now) table)) few)
        (any-by_age (has_id row.id) (keep (is_expired now) table) ∙ h)

  none_left :
      (prune_before now table).deleted < replay_prune_batch_size
      → any (is_expired now) (prune_before now table).table ≡ false
  unfolding prune_before without
  none_left few =
      keep_against (is_expired now) (λ row. not (any (has_id row.id) (prune_batch now table))) table
        (All-map (IsFound now table)
          (λ row.
            is_expired now row ≡ true → not (any (has_id row.id) (prune_batch now table)) ≡ false)
          table (λ row found due. ap not (whole_batch row few (found due))) (IsFound-All now table))

  deleted-le : (prune_before now table).deleted ≤ replay_prune_batch_size
  unfolding prune_before prune_batch
  deleted-le = length-take_le replay_prune_batch_size (by_age (keep (is_expired now) table))

  deleted_exactly :
      IsKeyed table
      → length (prune_before now table).table + (prune_before now table).deleted ≡ length table
  unfolding prune_before
  deleted_exactly keyed =
      length-without (prune_batch now table) table (prune_batch-IsKeyed now table keyed) keyed
        (prune_batch-stored now table)

  pruned :
      (n : ℕ) (left : Table)
      → prune now table ≡ ok (n, left)
      → ((prune_before now table).deleted ≡ n) × ((prune_before now table).table ≡ left)
  unfolding prune assert_now
  pruned n left h = ground arith

  -- A prune that returns `n` has deleted `n` rows, at most a batch: a whole batch, or every expired
  -- admission. It deletes no admission that has not expired, and those keep their order. Stored
  -- identifiers are distinct.
  pub prune_exact :
      (n : ℕ) (left : Table)
      → IsKeyed table
      → prune now table ≡ ok (n, left)
      → (n ≤ 256)
        × (length left + n ≡ length table)
        × ((n ≡ 256) ⊎ (any (is_expired now) left ≡ false))
        × (keep (is_live now) left ≡ keep (is_live now) table)
  prune_exact n left keyed h =
      let (count, rest) = pruned n left h in
      let within : n ≤ replay_prune_batch_size = omega (arith, count, deleted-le) in
      (
        within,
        rw (← rest, ← count) (deleted_exactly keyed),
        elim (dec_lt n replay_prune_batch_size) [
          | yes few ↦ inr (rw (← rest) (none_left (omega (arith, count, few))))
          | no whole ↦ inl (omega arith)
        ],
        rw (← rest) (live_left keyed),
      )
