-- ===== src/Admission/Outcomes.antt =====
-- What each method of the store leaves when it returns: the table it had, or the one that it wrote.
use metaserver_worker.Common.{
  ℕ, inl, inr, not, [], ◌∷◌, ltb, leb, length, keep, Text, Bool-cases, is_some, ◌≡◌, true, false,
}
use metaserver_worker.Admission.Store.{
  Table, release, claim_replay_tags, set_tags, admit, is_unclaimed, new_row, has_id,
  is_admission_id, claim_found, is_stored_row, collides,
}
use metaserver_worker.Admission.Calls.{Leaves}
use metaserver_worker.Admission.{max_replay_admissions}
use metaserver_worker.Admission.Tags.{is_replay_tag_pair}

claim_found-Leaves :
    (P : Table → Type 0) (found : Table) (id : ℕ) (c p : Text) (table : Table)
    → P table
    → (collides c p table ≡ false → P (set_tags id c p table))
    → Leaves P (claim_found found id c p table)
unfolding claim_found
claim_found-Leaves P [] id c p table h k = h
claim_found-Leaves P (row ∷ []) id c p table h k = elim (Bool-cases (is_stored_row row)) [
  | inr bad ↦ rw bad tt
  | inl good ↦ elim (Bool-cases (is_some row.current)) [
    | inl old ↦ rw (good, old) h
    | inr new ↦ elim (Bool-cases (collides c p table)) [
      | inl taken ↦ rw (good, new, taken) h
      | inr free ↦ rw (good, new, free) (k free)
    ]
  ]
]
claim_found-Leaves P (a ∷ b ∷ rows) id c p table h k = tt

pub claim_replay_tags-Leaves :
    (P : Table → Type 0) (id : ℕ) (c p : Text) (table : Table)
    → P table
    → (is_replay_tag_pair c p ≡ true → collides c p table ≡ false → P (set_tags id c p table))
    → Leaves P (claim_replay_tags id c p table)
unfolding claim_replay_tags
claim_replay_tags-Leaves P id c p table h k = elim (Bool-cases (is_admission_id id)) [
  | inr bad ↦ rw bad tt
  | inl good ↦ elim (Bool-cases (is_replay_tag_pair c p)) [
    | inr bad ↦ rw (good, bad) tt
    | inl pair ↦
        rw (good, pair) (claim_found-Leaves P (keep (has_id id) table) id c p table h (k pair))
  ]
]

pub release-Leaves :
    (P : Table → Type 0) (id : ℕ) (table : Table)
    → P (keep (λ row. not (is_unclaimed id row)) table)
    → Leaves P (release id table)
unfolding release
release-Leaves P id table h = elim (Bool-cases (is_admission_id id)) [
  | inl good ↦ rw good h
  | inr bad ↦ rw bad tt
]

module _ (fresh_id : Table → ℕ) (maximum_retained : ℕ) where
  pub admit-Leaves :
      (P : Table → Type 0) (now : ℕ) (table : Table)
      → P table
      → (leb maximum_retained (length table) ≡ false
          → P (new_row fresh_id maximum_retained now table ∷ table))
      → Leaves P (admit fresh_id maximum_retained now table)
  unfolding admit
  admit-Leaves P now table h k = elim (Bool-cases (ltb max_replay_admissions (length table))) [
    | inl over ↦ rw over tt
    | inr within ↦ elim (Bool-cases (leb maximum_retained (length table))) [
      | inl full ↦ rw (within, full) h
      | inr room ↦ elim (Bool-cases (is_admission_id (fresh_id table))) [
        | inl good ↦ rw (within, room, good) (k room)
        | inr bad ↦ rw (within, room, bad) tt
      ]
    ]
  ]
