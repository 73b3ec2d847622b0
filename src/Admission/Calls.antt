-- ===== src/Admission/Calls.antt =====
-- Histories of calls on one room's store, and that the identifiers of its rows stay distinct.
use metaserver_worker.Common.{
  ℕ, ◌+◌, ◌<◌, ◌≡◌, inl, inr, refl, Bool, true, not, ◌&&◌, List, [], ◌∷◌, ltb, leb, every, any,
  Text, arith, Bool-cases, lt→ltb, &&_right, &&_left, ltb→lt,
}
use metaserver_worker.Admission.Store.{
  Table, prune_before, has_id, claim_admitted, prune, consume, consume_and_claim, settle_claim,
  admit, assert_now, claim_replay_tags, release,
}
use metaserver_worker.Admission.{
  StoreError, ConsumeResult, ClaimResult, max_accepted_at_ms, accepted, claimed,
  maintenance_backlog, missing, storage_capacity, already_claimed,
}
use metaserver_worker.Common.Results.{Result, ok, err, ◌>>=◌}

-- A call of each method that writes.
pub data Call : Type 0 where
  consume_call : ℕ → Call
  consume_and_claim_call : ℕ → Text → Text → Call
  claim_call : ℕ → Text → Text → Call
  release_call : ℕ → Call
  prune_call : ℕ → Call

-- The call is not made with a time at the horizon or behind it.
abbrev pub is_before : ℕ → Call → Bool
is_before horizon (consume_call now) = ltb now horizon
is_before horizon (consume_and_claim_call now c p) = ltb now horizon
is_before horizon (claim_call id c p) = true
is_before horizon (release_call id) = true
is_before horizon (prune_call now) = ltb now horizon

-- A transaction that throws leaves the table as it was.
abbrev pub committed {ℓ} : {A : Type ℓ} → Result StoreError (A × Table) → Table → Table
committed (ok (answer, table)) before = table
committed (err e) before = before

abbrev pub distinct_ids : Table → Bool
distinct_ids [] = true
distinct_ids (row ∷ rows) = not (any (has_id row.id) rows) && distinct_ids rows

-- SQLite's primary key.
abbrev pub IsKeyed : Table → Type 0
IsKeyed table = distinct_ids table ≡ true

module _ (fresh_id : Table → ℕ) (maximum_retained : ℕ) where
  unfoldable pub after : Call → Table → Table
  after (consume_call now) table = committed (consume fresh_id maximum_retained now table) table
  after (consume_and_claim_call now c p) table =
      committed (consume_and_claim fresh_id maximum_retained now c p table) table
  after (claim_call id c p) table = committed (claim_replay_tags id c p table) table
  after (release_call id) table = committed (release id table) table
  after (prune_call now) table = committed (prune now table) table

  unfoldable pub play : List Call → Table → Table
  play [] table = table
  play (call ∷ calls) table = play calls (after call table)

-- What holds of the table that a computation answers with, if it answers.
abbrev pub Leaves {ℓ} : {A : Type ℓ} → (Table → Type 0) → Result StoreError (A × Table) → Type 0
Leaves P (ok (answer, table)) = P table
Leaves P (err e) = Unit

pub committed-Leaves {ℓ} :
    {A : Type ℓ} (P : Table → Type 0) (r : Result StoreError (A × Table)) (before : Table)
    → P before
    → Leaves P r
    → P (committed r before)
committed-Leaves P (ok (answer, table)) before h k = k
committed-Leaves P (err e) before h k = h

bind-Leaves {ℓ κ} :
    {A : Type ℓ} {B : Type κ} {P : Table → Type 0} (r : Result StoreError (A × Table))
    (f : A × Table → Result StoreError (B × Table))
    → Leaves P r
    → ((a : A) (t : Table) → P t → Leaves P (f (a, t)))
    → Leaves P (r >>= f)
bind-Leaves (ok (a, t)) f h k = k a t h
bind-Leaves (err e) f h k = tt

-- A property of tables that pruning, claiming, releasing and admitting keep.
pub record IsKept (P : Table → Type 0) (fresh_id : Table → ℕ) (maximum_retained horizon : ℕ)
    : Type 0 where
  pub pruned :
      (now : ℕ) (table : Table) → now < horizon → P table → P (prune_before now table).table
  pub admitted :
      (now : ℕ) (table : Table) → P table → Leaves P (admit fresh_id maximum_retained now table)
  pub claiming :
      (id : ℕ) (c p : Text) (table : Table) → P table → Leaves P (claim_replay_tags id c p table)
  pub released : (id : ℕ) (table : Table) → P table → Leaves P (release id table)

module _ (P : Table → Type 0) (fresh_id : Table → ℕ) (maximum_retained horizon : ℕ)
    (kept : IsKept P fresh_id maximum_retained horizon) where
  consume-Leaves :
      (now : ℕ) (table : Table)
      → now < horizon
      → P table
      → Leaves P (consume fresh_id maximum_retained now table)
  unfolding consume assert_now
  consume-Leaves now table early h =
      let after_prune = kept.pruned now table early h in
      elim (Bool-cases (leb now max_accepted_at_ms)) [
        | inr bad ↦ rw bad tt
        | inl good ↦ elim (Bool-cases (prune_before now table).backlog) [
          | inl late ↦ rw (good, late) after_prune
          | inr clean ↦
              rw (good, clean) (kept.admitted now (prune_before now table).table after_prune)
        ]
      ]

  settle_claim-Leaves :
      (id : ℕ) (claim : ClaimResult) (table : Table)
      → P table
      → Leaves P (settle_claim id (claim, table))
  unfolding settle_claim
  settle_claim-Leaves id claimed table h = h
  settle_claim-Leaves id ClaimResult.replay table h =
      bind-Leaves (release id table) (λ q. ok (ConsumeResult.replay, q.1))
        (kept.released id table h) (λ gone t k. k)
  settle_claim-Leaves id missing table h = tt
  settle_claim-Leaves id already_claimed table h = tt

  claim_admitted-Leaves :
      (c p : Text) (answer : ConsumeResult) (table : Table)
      → P table
      → Leaves P (claim_admitted c p (answer, table))
  unfolding claim_admitted
  claim_admitted-Leaves c p (accepted id) table h =
      bind-Leaves (claim_replay_tags id c p table) (settle_claim id) (kept.claiming id c p table h)
        (λ answer t k. settle_claim-Leaves id answer t k)
  claim_admitted-Leaves c p maintenance_backlog table h = h
  claim_admitted-Leaves c p storage_capacity table h = h
  claim_admitted-Leaves c p ConsumeResult.replay table h = h

  consume_and_claim-Leaves :
      (now : ℕ) (c p : Text) (table : Table)
      → now < horizon
      → P table
      → Leaves P (consume_and_claim fresh_id maximum_retained now c p table)
  unfolding consume_and_claim
  consume_and_claim-Leaves now c p table early h =
      bind-Leaves (consume fresh_id maximum_retained now table) (claim_admitted c p)
        (consume-Leaves now table early h) (λ answer t k. claim_admitted-Leaves c p answer t k)

  pub after-keeps :
      (call : Call) (table : Table)
      → is_before horizon call ≡ true
      → P table
      → P (after fresh_id maximum_retained call table)
  unfolding after prune assert_now
  after-keeps (consume_call now) table early h =
      committed-Leaves P _ table h (consume-Leaves now table (ltb→lt now horizon early) h)
  after-keeps (consume_and_claim_call now c p) table early h =
      committed-Leaves P _ table h
        (consume_and_claim-Leaves now c p table (ltb→lt now horizon early) h)
  after-keeps (claim_call id c p) table early h =
      committed-Leaves P _ table h (kept.claiming id c p table h)
  after-keeps (release_call id) table early h =
      committed-Leaves P _ table h (kept.released id table h)
  after-keeps (prune_call now) table early h = elim (Bool-cases (leb now max_accepted_at_ms)) [
    | inl good ↦ rw good (kept.pruned now table (ltb→lt now horizon early) h)
    | inr bad ↦ rw bad h
  ]

  -- The property holds after every history of calls before the horizon.
  pub play-keeps :
      (calls : List Call) (table : Table)
      → every (is_before horizon) calls ≡ true
      → P table
      → P (play fresh_id maximum_retained calls table)
  unfolding play
  play-keeps [] table early h = h
  play-keeps (call ∷ calls) table early h =
      play-keeps calls (after fresh_id maximum_retained call table) (&&_right _ _ early)
        (after-keeps call table (&&_left _ _ early) h)

abbrev just_behind : Call → ℕ
just_behind (consume_call now) = now + 1
just_behind (consume_and_claim_call now c p) = now + 1
just_behind (claim_call id c p) = 0
just_behind (release_call id) = 0
just_behind (prune_call now) = now + 1

is_before-just_behind : (call : Call) → is_before (just_behind call) call ≡ true
is_before-just_behind (consume_call now) = lt→ltb now (now + 1) (omega arith)
is_before-just_behind (consume_and_claim_call now c p) = lt→ltb now (now + 1) (omega arith)
is_before-just_behind (claim_call id c p) = refl
is_before-just_behind (release_call id) = refl
is_before-just_behind (prune_call now) = lt→ltb now (now + 1) (omega arith)

-- What is kept at every time holds after every history.
pub play-keeps_always :
    (P : Table → Type 0) (fresh_id : Table → ℕ) (maximum_retained : ℕ)
    (kept : (horizon : ℕ) → IsKept P fresh_id maximum_retained horizon) (calls : List Call)
    (table : Table)
    → P table
    → P (play fresh_id maximum_retained calls table)
unfolding play
play-keeps_always P fresh_id maximum_retained kept [] table h = h
play-keeps_always P fresh_id maximum_retained kept (call ∷ calls) table h =
    play-keeps_always P fresh_id maximum_retained kept calls
      (after fresh_id maximum_retained call table)
      (after-keeps P fresh_id maximum_retained (just_behind call) (kept (just_behind call)) call
        table (is_before-just_behind call) h)
