-- ===== src/Admission/Register.antt =====
-- What a room's admissions amount to: the register of the replay tags in use.
use metaserver_worker.Common.{
  ℕ, ◌≡◌, inl, inr, refl, sym, subst, ◌∙◌, Bool, true, false, ◌||◌, [], ◌∷◌, ltb, leb, length, any,
  Text, text_eq, arith, Bool-cases, ||_left, ||_right,
}
use metaserver_worker.Admission.Store.{
  Table, collides, has_tag, assert_now, prune_before, consume_and_claim, is_admission_id,
}
use metaserver_worker.Admission.AtOnce.{
  insert_claimed, consume_at_once, IsFresh, consume_and_claim-consume_at_once,
}
use metaserver_worker.Admission.{
  StoreError, ConsumeResult, accepted, maintenance_backlog, max_replay_admissions, storage_capacity,
  max_accepted_at_ms,
}
use metaserver_worker.Admission.Tags.{is_replay_tag_pair}
use metaserver_worker.Common.Results.{Result, ok, err}

abbrev pub Register : Type 0
Register = Text → Bool

abbrev pub in_use : Table → Register
in_use table tag = any (has_tag tag) table

abbrev pub enter : Text → Text → Register → Register
enter c p register tag = (text_eq c tag || text_eq p tag) || register tag

-- What a caller of consumeAndClaim may see of the register: a pair is granted when neither tag is
-- in use, and then both are; a replay is Answered when one is; no other answer changes it.
pub data Serves (c p : Text) : Register → ConsumeResult → Register → Type 0 where
  granted :
      {r : Register} {id : ℕ} → r c ≡ false → r p ≡ false → Serves c p r (accepted id) (enter c p r)
  replayed : {r : Register} → (r c || r p) ≡ true → Serves c p r ConsumeResult.replay r
  late : {r : Register} → Serves c p r maintenance_backlog r
  full : {r : Register} → Serves c p r storage_capacity r

pub collides-in_use :
    (c p : Text) (table : Table) → collides c p table ≡ (in_use table c || in_use table p)
unfolding collides
collides-in_use c p [] = refl
collides-in_use c p (row ∷ rows) = ground (arith, collides-in_use c p rows)

-- The branches of the check that can return.
abbrev Answered : Text → Text → Register → Result StoreError (ConsumeResult × Table) → Type 0
Answered c p r (ok (answer, table)) = Serves c p r answer (in_use table)
Answered c p r (err e) = Unit

insert_claimed-Serves :
    (fresh_id : Table → ℕ) (maximum_retained now : ℕ) (c p : Text) (table : Table)
    → Answered c p (in_use table) (insert_claimed fresh_id maximum_retained now c p table)
unfolding insert_claimed has_tag
insert_claimed-Serves fresh_id maximum_retained now c p table =
    elim (Bool-cases (ltb max_replay_admissions (length table))) [
      | inl over ↦ rw over tt
      | inr within ↦ elim (Bool-cases (leb maximum_retained (length table))) [
        | inl at_capacity ↦ rw (within, at_capacity) full
        | inr room ↦ elim (Bool-cases (is_admission_id (fresh_id table))) [
          | inr bad ↦ rw (within, room, bad) tt
          | inl good ↦ elim (Bool-cases (is_replay_tag_pair c p)) [
            | inr bad ↦ rw (within, room, good, bad) tt
            | inl pair ↦ elim (Bool-cases (collides c p table)) [
              | inl taken ↦
                  rw (within, room, good, pair, taken)
                    (replayed (sym (collides-in_use c p table) ∙ taken))
              | inr free ↦
                  let neither = sym (collides-in_use c p table) ∙ free in
                  rw (within, room, good, pair, free)
                    (granted (||_left _ _ neither) (||_right _ _ neither))
            ]
          ]
        ]
      ]
    ]

consume_at_once-Serves :
    (fresh_id : Table → ℕ) (maximum_retained now : ℕ) (c p : Text) (table : Table)
    → Answered c p
        (in_use (prune_before now table).table)
        (consume_at_once fresh_id maximum_retained now c p table)
unfolding consume_at_once assert_now
consume_at_once-Serves fresh_id maximum_retained now c p table =
    elim (Bool-cases (leb now max_accepted_at_ms)) [
      | inr bad ↦ rw bad tt
      | inl early ↦ elim (Bool-cases (prune_before now table).backlog) [
        | inl behind ↦ rw (early, behind) late
        | inr clean ↦
            rw (early, clean)
              (insert_claimed-Serves fresh_id maximum_retained now c p
                (prune_before now table).table)
      ]
    ]

-- Whatever consumeAndClaim answers, on the register of the tags that pruning leaves it does what
-- a register of used tags does: it grants a pair only of unused tags, and enters both; it
-- answers a replay only of a used tag; and every answer but a grant leaves the register as it
-- is. SQLite gives a new row an identifier that no stored row has.
pub consume_and_claim-Serves :
    (fresh_id : Table → ℕ) (maximum_retained now : ℕ) (c p : Text) (answer : ConsumeResult)
    (table left : Table)
    → IsFresh fresh_id
    → consume_and_claim fresh_id maximum_retained now c p table ≡ ok (answer, left)
    → Serves c p (in_use (prune_before now table).table) answer (in_use left)
consume_and_claim-Serves fresh_id maximum_retained now c p answer table left fresh returned =
    subst (Answered c p (in_use (prune_before now table).table))
      (sym (consume_and_claim-consume_at_once fresh_id maximum_retained fresh now c p table)
        ∙ returned)
      (consume_at_once-Serves fresh_id maximum_retained now c p table)
