-- ===== src/Admission/Store.antt =====
-- RendezvousAdmissionStore over the rows of rendezvous_admissions.
use metaserver_worker.Admission.{
  AdmissionRow, StoreError, range_error, corrupt_schema, ConsumeResult, accepted,
  maintenance_backlog, storage_capacity, ClaimResult, claimed, missing, already_claimed,
  rolling_window_ms, max_replay_admissions, replay_prune_batch_size, max_accepted_at_ms,
}
use metaserver_worker.Admission.Tags.{is_replay_tag_pair}
use metaserver_worker.Common.{
  ℕ, ◌+◌, Bool, false, not, ◌&&◌, ◌||◌, Option, none, some, is_none, List, [], ◌∷◌, ltb, leb, ◌==◌,
  if◌then◌else◌, length, keep, any, take, Text, text_eq, max_safe_integer, is_some,
}
use metaserver_worker.Common.Results.{Result, ok, err, ◌>>=◌, ◌>>◌, require}

abbrev pub Table : Type 0
Table = List AdmissionRow

unfoldable pub is_admission_id : ℕ → Bool
is_admission_id id = leb id max_safe_integer && leb 1 id

unfoldable pub assert_now : ℕ → Result StoreError (Unit {0})
assert_now now = require (leb now max_accepted_at_ms) range_error

-- `accepted_at_ms <= nowMs - RENDEZVOUS_ROLLING_WINDOW_MS`
unfoldable pub is_expired : ℕ → AdmissionRow → Bool
is_expired now row = leb (row.accepted_at_ms + rolling_window_ms) now

-- `ORDER BY accepted_at_ms, id`
unfoldable pub older : AdmissionRow → AdmissionRow → Bool
older a b =
    if a.accepted_at_ms == b.accepted_at_ms
    then ltb a.id b.id
    else ltb a.accepted_at_ms b.accepted_at_ms

unfoldable pub insert_older : AdmissionRow → Table → Table
unfolding older
insert_older row [] = row ∷ []
insert_older row (other ∷ rows) =
    let rest = insert_older row rows in if older other row then other ∷ rest else row ∷ other ∷ rows

unfoldable pub by_age : Table → Table
unfolding insert_older
by_age [] = []
by_age (row ∷ rows) = insert_older row (by_age rows)

-- The rows that one batch deletes.
unfoldable pub prune_batch : ℕ → Table → Table
unfolding by_age is_expired
prune_batch now table = take replay_prune_batch_size (by_age (keep (is_expired now) table))

abbrev pub has_id : ℕ → AdmissionRow → Bool
has_id id row = row.id == id

unfoldable pub without : Table → Table → Table
without gone table = keep (λ row. not (any (has_id row.id) gone)) table

pub record Pruned : Type 0 where
  pub table : Table
  pub backlog : Bool
  pub deleted : ℕ

unfoldable pub prune_before : ℕ → Table → Pruned
unfolding prune_batch without
prune_before now table =
    let gone = prune_batch now table in
    let rest = without gone table in
    record { table = rest; backlog = any (is_expired now) rest; deleted = length gone }

-- `WHERE id = ? AND both tags IS NULL`
unfoldable pub is_unclaimed : ℕ → AdmissionRow → Bool
is_unclaimed id row = row.id == id && is_none row.current && is_none row.previous

abbrev pub with_tags : Text → Text → AdmissionRow → AdmissionRow
with_tags c p row = record row { current = some c; previous = some p }

unfoldable pub set_tags : ℕ → Text → Text → Table → Table
unfolding is_unclaimed
set_tags id c p [] = []
set_tags id c p (row ∷ rows) =
    let rest = set_tags id c p rows in
    (if is_unclaimed id row then with_tags c p row else row) ∷ rest

abbrev pub holds : Text → Option Text → Bool
holds tag none = false
holds tag (some t) = text_eq t tag

-- `current IN (?, ?) OR previous IN (?, ?)`
unfoldable pub has_tag : Text → AdmissionRow → Bool
has_tag tag row = holds tag row.current || holds tag row.previous

unfoldable pub collides : Text → Text → Table → Bool
unfolding has_tag
collides c p table = any (λ row. has_tag c row || has_tag p row) table

-- assertStoredRow
unfoldable pub is_stored_row : AdmissionRow → Bool
is_stored_row row =
    is_admission_id row.id && leb row.accepted_at_ms max_accepted_at_ms && elim row.current [
      | none ↦ is_none row.previous
      | some c ↦ elim row.previous [ none ↦ false | some p ↦ is_replay_tag_pair c p ]
    ]

abbrev pub Answer : Type 0 → Type 0
Answer A = Result StoreError (A × Table)

unfoldable pub release : ℕ → Table → Answer Bool
release id table = do
  require (is_admission_id id) range_error
  ok (any (is_unclaimed id) table, keep (λ row. not (is_unclaimed id row)) table)

unfoldable pub prune : ℕ → Table → Answer ℕ
unfolding prune_before
prune now table = do
  assert_now now
  let pruned = prune_before now table
  ok (pruned.deleted, pruned.table)

-- claimReplayTags, once it has read the rows of the identifier.
unfoldable pub claim_found : Table → ℕ → Text → Text → Table → Answer ClaimResult
unfolding set_tags collides is_stored_row
claim_found [] id c p table = ok (missing, table)
claim_found (row ∷ []) id c p table =
    if not (is_stored_row row)
    then err corrupt_schema
    else if is_some row.current
    then ok (already_claimed, table)
    else if collides c p table
    then ok (ClaimResult.replay, table)
    else ok (claimed, set_tags id c p table)
claim_found (_ ∷ _ ∷ _) id c p table = err corrupt_schema

unfoldable pub claim_replay_tags : ℕ → Text → Text → Table → Answer ClaimResult
unfolding claim_found
claim_replay_tags id c p table = do
  require (is_admission_id id) range_error
  require (is_replay_tag_pair c p) range_error
  claim_found (keep (has_id id) table) id c p table

-- When the first of the rows by age expires.
unfoldable pub first_expiry : Table → Result StoreError (Option ℕ)
first_expiry [] = ok none
first_expiry (row ∷ rows) =
    if leb row.accepted_at_ms max_accepted_at_ms
    then ok (some (row.accepted_at_ms + rolling_window_ms))
    else err corrupt_schema

unfoldable pub earliest_retained_expiry_ms : Table → Result StoreError (Option ℕ)
unfolding by_age first_expiry
earliest_retained_expiry_ms table = first_expiry (by_age table)

-- The part of consumeAndClaim behind the claim.
unfoldable pub settle_claim : ℕ → ClaimResult × Table → Answer ConsumeResult
unfolding release
settle_claim id (claimed, table) = ok (accepted id, table)
settle_claim id (ClaimResult.replay, table) = do
  (_, released) ← release id table
  ok (ConsumeResult.replay, released)
settle_claim id (_, table) = err corrupt_schema

unfoldable pub claim_admitted : Text → Text → ConsumeResult × Table → Answer ConsumeResult
unfolding settle_claim claim_replay_tags
claim_admitted c p (accepted id, table) = do
  claim ← claim_replay_tags id c p table
  settle_claim id claim
claim_admitted c p (other, table) = ok (other, table)

module _ (fresh_id : Table → ℕ) (maximum_retained : ℕ) where
  abbrev pub new_row : ℕ → Table → AdmissionRow
  new_row now table = record {
    id = fresh_id table;
    accepted_at_ms = now;
    current = none;
    previous = none;
  }

  -- What consume does to a table that has been pruned.
  unfoldable pub admit : ℕ → Table → Answer ConsumeResult
  admit now table =
      if ltb max_replay_admissions (length table)
      then err corrupt_schema
      else if leb maximum_retained (length table)
      then ok (storage_capacity, table)
      else if is_admission_id (fresh_id table)
      then ok (accepted (fresh_id table), new_row now table ∷ table)
      else err corrupt_schema

  unfoldable pub consume : ℕ → Table → Answer ConsumeResult
  unfolding admit prune_before
  consume now table = do
    assert_now now
    let pruned = prune_before now table
    if pruned.backlog then ok (maintenance_backlog, pruned.table) else admit now pruned.table

  unfoldable pub consume_and_claim : ℕ → Text → Text → Table → Answer ConsumeResult
  unfolding consume claim_admitted
  consume_and_claim now c p table = do admission ← consume now table; claim_admitted c p admission
