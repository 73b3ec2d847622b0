-- ===== src/Admission/AtOnce.antt =====
-- consumeAndClaim reserves a row, claims its tags and releases it on a replay. It amounts to one
-- check of the tags before a row is written.
use metaserver_worker.Common.{
  ℕ, ◌≡◌, inl, inr, refl, true, false, not, none, [], ◌∷◌, ltb, leb, if◌then◌else◌, length, any,
  keep, Text, arith, Bool-cases,
}
use metaserver_worker.Admission.Store.{
  is_unclaimed, set_tags, Table, Answer, has_id, is_admission_id, assert_now, prune_before,
  collides, claim_replay_tags, claim_found, claim_admitted, with_tags, release, is_stored_row,
  settle_claim, has_tag, new_row, consume_and_claim, admit, consume,
}
use metaserver_worker.Admission.{
  ConsumeResult, max_replay_admissions, max_accepted_at_ms, AdmissionRow, corrupt_schema,
  ClaimResult, storage_capacity, maintenance_backlog, claimed, range_error, accepted,
}
use metaserver_worker.Admission.Rows.{keep-none}
use metaserver_worker.Admission.Tags.{is_replay_tag_pair}
use metaserver_worker.Common.Results.{ok, err, ◌>>=◌, ◌>>◌}

pub set_tags-absent :
    (id : ℕ) (c p : Text) (table : Table)
    → any (has_id id) table ≡ false
    → set_tags id c p table ≡ table
unfolding set_tags is_unclaimed
set_tags-absent id c p [] h = refl
set_tags-absent id c p (row ∷ rows) h = ground (arith, set_tags-absent id c p rows)

release-absent :
    (id : ℕ) (table : Table)
    → any (has_id id) table ≡ false
    → keep (λ row. not (is_unclaimed id row)) table ≡ table
unfolding keep is_unclaimed
release-absent id [] h = refl
release-absent id (row ∷ rows) h = ground (arith, release-absent id rows)

-- A new row is written with its tags, or not at all.
unfoldable pub insert_claimed : (Table → ℕ) → ℕ → ℕ → Text → Text → Table → Answer ConsumeResult
insert_claimed fresh_id maximum_retained now c p table =
    if ltb max_replay_admissions (length table)
    then err corrupt_schema
    else if leb maximum_retained (length table)
    then ok (storage_capacity, table)
    else if not (is_admission_id (fresh_id table))
    then err corrupt_schema
    else if not (is_replay_tag_pair c p)
    then err range_error
    else if collides c p table
    then ok (ConsumeResult.replay, table)
    else ok (
      accepted (fresh_id table),
      with_tags c p (new_row fresh_id maximum_retained now table) ∷ table,
    )

unfoldable pub consume_at_once : (Table → ℕ) → ℕ → ℕ → Text → Text → Table → Answer ConsumeResult
unfolding insert_claimed
consume_at_once fresh_id maximum_retained now c p table = do
  assert_now now
  let pruned = prune_before now table
  if pruned.backlog
      then ok (maintenance_backlog, pruned.table)
      else insert_claimed fresh_id maximum_retained now c p pruned.table

module _ (id now : ℕ) (c p : Text) (table : Table) (fresh : any (has_id id) table ≡ false)
    (good : is_admission_id id ≡ true) (early : leb now max_accepted_at_ms ≡ true) where
  abbrev reserved : AdmissionRow
  reserved = record { id = id; accepted_at_ms = now; current = none; previous = none }

  found_reserved : keep (has_id id) (reserved ∷ table) ≡ reserved ∷ []
  unfolding keep
  found_reserved = ground (arith, keep-none (has_id id) table)

  reserved-is_stored_row : is_stored_row reserved ≡ true
  unfolding is_stored_row
  reserved-is_stored_row = rw (good, early) refl

  set_tags-reserved : set_tags id c p (reserved ∷ table) ≡ with_tags c p reserved ∷ table
  unfolding set_tags is_unclaimed
  set_tags-reserved = ground (arith, set_tags-absent id c p table)

  collides-reserved : collides c p (reserved ∷ table) ≡ collides c p table
  unfolding collides has_tag
  collides-reserved = refl

  claim_found-reserved : claim_found (reserved ∷ []) id c p (reserved ∷ table) ≡ (
      if collides c p table
      then ok (ClaimResult.replay, reserved ∷ table)
      else ok (claimed, with_tags c p reserved ∷ table))
  unfolding claim_found
  claim_found-reserved =
      rw (reserved-is_stored_row, claim_found, collides-reserved, set_tags-reserved) refl

  claim-reserved : claim_replay_tags id c p (reserved ∷ table) ≡ (
      if not (is_replay_tag_pair c p)
      then err range_error
      else if collides c p table
      then ok (ClaimResult.replay, reserved ∷ table)
      else ok (claimed, with_tags c p reserved ∷ table))
  unfolding claim_replay_tags
  claim-reserved = elim (Bool-cases (is_replay_tag_pair c p)) [
    | inl pair ↦ rw (good, pair, found_reserved) claim_found-reserved
    | inr bad ↦ rw (good, bad) refl
  ]

  release-reserved : release id (reserved ∷ table) ≡ ok (true, table)
  unfolding release keep is_unclaimed
  release-reserved = rw good (ground (arith, release-absent id table))

  claim_admitted-reserved : claim_admitted c p (accepted id, reserved ∷ table) ≡ (
      if not (is_replay_tag_pair c p)
      then err range_error
      else if collides c p table
      then ok (ConsumeResult.replay, table)
      else ok (accepted id, with_tags c p reserved ∷ table))
  unfolding claim_admitted settle_claim
  claim_admitted-reserved = elim (Bool-cases (is_replay_tag_pair c p)) [
    | inr bad ↦ rw (claim-reserved, claim_admitted, bad) refl
    | inl pair ↦ elim (Bool-cases (collides c p table)) [
      | inl taken ↦ rw (claim-reserved, claim_admitted, pair, taken, release-reserved) refl
      | inr free ↦ rw (claim-reserved, claim_admitted, pair, free) refl
    ]
  ]

-- SQLite does not give a new row the identifier of a stored one.
abbrev pub IsFresh : (Table → ℕ) → Type 0
IsFresh fresh_id = (table : Table) → any (has_id (fresh_id table)) table ≡ false

module _ (fresh_id : Table → ℕ) (maximum_retained : ℕ) where
  admit-insert_claimed :
      (now : ℕ) (c p : Text) (table : Table)
      → leb now max_accepted_at_ms ≡ true
      → any (has_id (fresh_id table)) table ≡ false
      → (admit fresh_id maximum_retained now table >>= claim_admitted c p)
        ≡ insert_claimed fresh_id maximum_retained now c p table
  unfolding admit insert_claimed
  admit-insert_claimed now c p table early fresh =
      elim (Bool-cases (ltb max_replay_admissions (length table))) [
        | inl over ↦ rw over refl
        | inr within ↦ elim (Bool-cases (leb maximum_retained (length table))) [
          | inl full ↦ rw (within, full) (unfold claim_admitted in refl)
          | inr room ↦ elim (Bool-cases (is_admission_id (fresh_id table))) [
            | inr bad ↦ rw (within, room, bad) refl
            | inl good ↦
                rw (within, room, good)
                  (claim_admitted-reserved (fresh_id table) now c p table fresh good early)
          ]
        ]
      ]

  -- Reserving a row, claiming its tags and releasing it on a replay has, on every table and on
  -- every branch, the answer and the table of one check of the tags before a row is written.
  -- SQLite gives a new row an identifier that no stored row has.
  pub consume_and_claim-consume_at_once :
      (fresh : IsFresh fresh_id) (now : ℕ) (c p : Text) (table : Table)
      → consume_and_claim fresh_id maximum_retained now c p table
        ≡ consume_at_once fresh_id maximum_retained now c p table
  unfolding consume_and_claim consume consume_at_once assert_now
  consume_and_claim-consume_at_once fresh now c p table =
      elim (Bool-cases (leb now max_accepted_at_ms)) [
        | inr bad ↦ rw bad refl
        | inl early ↦ elim (Bool-cases (prune_before now table).backlog) [
          | inl late ↦ rw (early, late) (unfold claim_admitted in refl)
          | inr clean ↦
              rw (early, clean)
                (admit-insert_claimed now c p (prune_before now table).table early
                  (fresh (prune_before now table).table))
        ]
      ]
