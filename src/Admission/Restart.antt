-- ===== src/Admission/Restart.antt =====
-- What a room checks at its start holds again after every history of calls.
use metaserver_worker.Common.{
  ℕ, ◌≤◌, ◌≡◌, ◌⊎◌, inl, inr, refl, sym, ◌∙◌, Bool, true, false, List, [], ◌∷◌, leb, length, keep,
  Text, arith, length-keep-le, ||_left, ||_right, subst, ap,
}
use metaserver_worker.Admission.Store.{Table, set_tags, collides, prune_before, without, new_row}
use metaserver_worker.Admission.{AdmissionRow, max_replay_admissions}
use metaserver_worker.Admission.Schema.{
  assert_stored_rows, all_tags, has_repeat, assert_migration_history, assert_known_versions,
  assert_in_sequence, migrate, initialize, Database,
}
use metaserver_worker.Admission.Tags.{is_replay_tag_pair}
use metaserver_worker.Admission.Retained.{IsKeyed-keep, IsKeyed-set_tags}
use metaserver_worker.Admission.AtOnce.{IsFresh}
use metaserver_worker.Admission.Calls.{IsKeyed, IsKept, Call, play, play-keeps_always}
use metaserver_worker.Admission.Distinct.{has_repeat-keep, has_repeat-set_tags}
use metaserver_worker.Admission.Outcomes.{admit-Leaves, claim_replay_tags-Leaves, release-Leaves}
use metaserver_worker.Admission.Register.{collides-in_use}
use metaserver_worker.Common.Results.{ok}

-- What SQLite's keys and assertStoredRows require of a table.
abbrev pub IsLedger : Table → Type 0
IsLedger table =
    IsKeyed table × (length table ≤ max_replay_admissions) × (has_repeat (all_tags table) ≡ false)

assert_stored_rows-IsLedger :
    (quick_check : Bool) (table : Table)
    → IsKeyed table
    → assert_stored_rows quick_check table ≡ ok tt
    → IsLedger table
unfolding assert_stored_rows
assert_stored_rows-IsLedger quick_check table keyed h = (keyed, ground arith, ground arith)

IsLedger-assert_stored_rows :
    (table : Table) → IsLedger table → assert_stored_rows true table ≡ ok tt
unfolding assert_stored_rows
IsLedger-assert_stored_rows table h = ground arith

length-set_tags :
    (id : ℕ) (c p : Text) (table : Table) → length (set_tags id c p table) ≡ length table
unfolding set_tags
length-set_tags id c p [] = refl
length-set_tags id c p (row ∷ rows) = omega (arith, length-set_tags id c p rows)

IsLedger-keep : (f : AdmissionRow → Bool) (table : Table) → IsLedger table → IsLedger (keep f table)
IsLedger-keep f table (keyed, within, apart) = (
  IsKeyed-keep f table keyed,
  omega (arith, length-keep-le f table),
  has_repeat-keep f table apart,
)

IsLedger-set_tags :
    (id : ℕ) (c p : Text) (table : Table)
    → IsLedger table
    → is_replay_tag_pair c p ≡ true
    → collides c p table ≡ false
    → IsLedger (set_tags id c p table)
unfolding is_replay_tag_pair
IsLedger-set_tags id c p table (keyed, within, apart) pair free =
    let neither = sym (collides-in_use c p table) ∙ free in
    (
      IsKeyed-set_tags id c p table keyed,
      omega (arith, length-set_tags id c p table),
      has_repeat-set_tags id c p table keyed (ground arith) (||_left _ _ neither)
          (||_right _ _ neither) apart,
    )

module _ (fresh_id : Table → ℕ) (maximum_retained : ℕ) (fresh : IsFresh fresh_id)
    (capacity : maximum_retained ≤ max_replay_admissions) where
  IsLedger-new_row :
      (now : ℕ) (table : Table)
      → IsLedger table
      → leb maximum_retained (length table) ≡ false
      → IsLedger (new_row fresh_id maximum_retained now table ∷ table)
  unfolding all_tags
  IsLedger-new_row now table (keyed, within, apart) room =
      (rw (fresh table) keyed, ground arith, apart)

  IsLedger-IsKept : (horizon : ℕ) → IsKept IsLedger fresh_id maximum_retained horizon
  unfolding prune_before without
  IsLedger-IsKept horizon = record {
    pruned = λ now table early h. IsLedger-keep _ table h;
    admitted = λ now table h.
        admit-Leaves fresh_id maximum_retained IsLedger now table h (IsLedger-new_row now table h);
    claiming = λ id c p table h.
        claim_replay_tags-Leaves IsLedger id c p table h (IsLedger-set_tags id c p table h);
    released = λ id table h. release-Leaves IsLedger id table (IsLedger-keep _ table h);
  }

history-cases :
    (versions : List ℕ)
    → assert_migration_history versions ≡ ok tt
    → (versions ≡ []) ⊎ (versions ≡ 1 ∷ [])
unfolding assert_migration_history assert_known_versions assert_in_sequence
history-cases [] h = inl refl
history-cases (v ∷ []) h = inr (ground arith)
history-cases (v ∷ w ∷ vs) h = ground arith

migrated :
    (db : Database)
    → assert_migration_history db.versions ≡ ok tt
    → IsKeyed db.admissions
    → ((migrate db).versions ≡ 1 ∷ []) × IsKeyed (migrate db).admissions
unfolding migrate
migrated db history keyed = elim (history-cases db.versions history) [
  | inl none_applied ↦ rw none_applied (refl, refl)
  | inr applied ↦ rw applied (refl, keyed)
]

initialized :
    (quick_check : Bool) (db opened : Database)
    → initialize quick_check db ≡ ok opened
    → (assert_migration_history db.versions ≡ ok tt)
      × (assert_stored_rows quick_check (migrate db).admissions ≡ ok tt)
      × (opened ≡ migrate db)
unfolding initialize
initialized quick_check db opened h = ground arith

reopened :
    (db : Database)
    → db.versions ≡ 1 ∷ []
    → assert_stored_rows true db.admissions ≡ ok tt
    → initialize true db ≡ ok db
unfolding initialize migrate assert_migration_history assert_known_versions assert_in_sequence
reopened db applied stored = rw (applied, stored) refl

-- A database that initialize has accepted is accepted again, unchanged, after every history of
-- calls of the store's methods, and the identifiers of its rows are still distinct, as SQLite's key
-- demands of them. The store's ceiling is within the limit, SQLite's quick check answers ok at the
-- second start, stored identifiers are distinct at the first, and a new row has an unused one.
pub initialize-play :
    (fresh_id : Table → ℕ) (maximum_retained : ℕ) (quick_check : Bool) (calls : List Call)
    (db opened : Database)
    → IsFresh fresh_id
    → maximum_retained ≤ max_replay_admissions
    → IsKeyed db.admissions
    → initialize quick_check db ≡ ok opened
    → (initialize true
          (record opened { admissions = play fresh_id maximum_retained calls opened.admissions })
        ≡ ok
            (record opened { admissions = play fresh_id maximum_retained calls opened.admissions }))
      × IsKeyed (play fresh_id maximum_retained calls opened.admissions)
initialize-play fresh_id maximum_retained quick_check calls db opened fresh capacity keyed accepts =
    let (history, stored, same) = initialized quick_check db opened accepts in
    let (versions, keyed') = migrated db history keyed in
    let ledger = assert_stored_rows-IsLedger quick_check (migrate db).admissions keyed' stored in
    let ledger' = subst (λ d. IsLedger d.admissions) (sym same) ledger in
    let played =
      play-keeps_always IsLedger fresh_id maximum_retained
        (IsLedger-IsKept fresh_id maximum_retained fresh capacity) calls opened.admissions
        ledger' in
    (
      reopened _ (ap (λ d. d.versions) same ∙ versions) (IsLedger-assert_stored_rows _ played),
      played.0,
    )
