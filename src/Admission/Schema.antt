-- ===== src/Admission/Schema.antt =====
-- What initialize checks before a room uses its admissions.
use metaserver_worker.Admission.{
  StoreError, corrupt_schema, unsupported_schema, max_replay_admissions,
}
use metaserver_worker.Admission.Store.{Table}
use metaserver_worker.Common.{
  ℕ, ◌+◌, Bool, false, not, ◌&&◌, ◌||◌, Option, none, some, List, [], ◌∷◌, ◌++◌, leb, ◌==◌,
  if◌then◌else◌, length, any, Text, text_eq, max_safe_integer,
}
use metaserver_worker.Common.Results.{Result, ok, ◌>>◌, require}

abbrev pub current_schema_version : ℕ
current_schema_version = 1

-- The first row that is no version, or is a later one, decides.
unfoldable pub assert_known_versions : List ℕ → Result StoreError (Unit {0})
assert_known_versions [] = ok tt
assert_known_versions (v ∷ vs) = do
  require (leb v max_safe_integer && leb 1 v) corrupt_schema
  require (leb v current_schema_version) unsupported_schema
  assert_known_versions vs

unfoldable pub assert_in_sequence : ℕ → List ℕ → Result StoreError (Unit {0})
assert_in_sequence index [] = ok tt
assert_in_sequence index (v ∷ vs) = do
  require (v == index + 1) corrupt_schema
  assert_in_sequence (index + 1) vs

unfoldable pub assert_migration_history : List ℕ → Result StoreError (Unit {0})
unfolding assert_known_versions assert_in_sequence
assert_migration_history versions = do assert_known_versions versions; assert_in_sequence 0 versions

abbrev pub listed : Option Text → List Text
listed none = []
listed (some t) = t ∷ []

-- The tags of both columns.
unfoldable pub all_tags : Table → List Text
all_tags [] = []
all_tags (row ∷ rows) = listed row.current ++ (listed row.previous ++ all_tags rows)

-- `GROUP BY replay_tag HAVING COUNT(*) > 1`
unfoldable pub has_repeat : List Text → Bool
has_repeat [] = false
has_repeat (t ∷ ts) = any (text_eq t) ts || has_repeat ts

-- assertStoredRows; whether SQLite's quick check answers "ok" is an argument.
unfoldable pub assert_stored_rows : Bool → Table → Result StoreError (Unit {0})
unfolding all_tags has_repeat
assert_stored_rows quick_check table = do
  require (leb (length table) max_replay_admissions) corrupt_schema
  require quick_check corrupt_schema
  require (not (has_repeat (all_tags table))) corrupt_schema

-- A room's database: the applied versions, and the admissions once version 1 has been applied.
pub record Database : Type 0 where
  pub versions : List ℕ
  pub admissions : Table

unfoldable pub migrate : Database → Database
migrate db = if length db.versions == 0 then record { versions = 1 ∷ []; admissions = [] } else db

unfoldable pub initialize : Bool → Database → Result StoreError Database
unfolding assert_migration_history migrate assert_stored_rows
initialize quick_check db = do
  assert_migration_history db.versions
  assert_stored_rows quick_check (migrate db).admissions
  ok (migrate db)
