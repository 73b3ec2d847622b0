-- ===== src/AccessBudget.antt =====
-- The request budgets of src/access-budget.ts over the table access_request_budgets.
-- A table gives the row of each primary key.
pub mod Counting
pub mod Consumed
pub mod Tests
use metaserver_worker.Common.{
  ℕ, zero, suc, ◌+◌, ◌-◌, ◌*◌, ◌≤◌, ◌<◌, ◌≡◌, ◌≢◌, ◌⊎◌, inl, inr, refl, sym, ap, subst, ◌∙◌, Bool,
  true, false, not, ◌&&◌, ◌||◌, Option, none, some, List, [], ◌∷◌, ◌++◌, map, ltb, leb, ◌==◌,
  if◌then◌else◌, length, every, any, keep, find, take, replicate, All, Text, codes, text_eq, arith,
  Bool-cases, Option-cases, dec_lt, is_some, is_none, ◌↔◌, min, max, ◌/◌, ◌%◌, is_hex_digit,
}
use metaserver_worker.Http.{
  new_http_error, HttpError, rate_limited, request_control_unavailable, whole, undefined,
}
use metaserver_worker.Http.Requests.{unknown_failure, Failure, http_failure, retry_in, no_options}
use metaserver_worker.Common.Results.{Result, ok, err, ◌>>=◌, ◌>>◌, require}

pub data AccessProfile : Type 0 where
  classic game : AccessProfile

pub data AccessScope : Type 0 where
  routes resolve : AccessScope

-- The columns besides the primary key.
pub record AccessRow : Type 0 where
  pub window_start : ℕ
  pub expires_at : ℕ
  pub request_count : ℕ

abbrev pub AccessTable : Type 0
AccessTable = AccessProfile → Text → AccessScope → Option AccessRow

unfoldable pub duration_of : AccessScope → ℕ
duration_of routes = 3600
duration_of resolve = 60

unfoldable pub limit_of : AccessScope → ℕ
limit_of routes = 64
limit_of resolve = 60

-- `Math.floor(now / duration) * duration`
unfoldable pub start_of : AccessScope → ℕ → ℕ
start_of routes now = now / 3600 * 3600
start_of resolve now = now / 60 * 60

unfoldable pub same_profile : AccessProfile → AccessProfile → Bool
same_profile classic classic = true
same_profile game game = true
same_profile one other = false

unfoldable pub same_scope : AccessScope → AccessScope → Bool
same_scope routes routes = true
same_scope resolve resolve = true
same_scope one other = false

unfoldable pub drop_expired : Bool → ℕ → Option AccessRow → Option AccessRow
drop_expired chosen now none = none
drop_expired chosen now (some row) = if chosen && leb row.expires_at now then none else some row

-- The DELETE statement. It takes a bounded number of the expired rows and leaves open which: those
-- of the keys that are chosen.
unfoldable pub delete_expired :
    (AccessProfile → Text → AccessScope → Bool) → ℕ → AccessTable → AccessTable
unfolding drop_expired
delete_expired chosen now table p s c = drop_expired (chosen p s c) now (table p s c)

-- The row that the INSERT statement leaves under its key, where it changes one.
unfoldable pub upserted : ℕ → ℕ → ℕ → Option AccessRow → Option AccessRow
upserted limit start end none =
    some (record { window_start = start; expires_at = end; request_count = 1 })
upserted limit start end (some row) =
    if ltb row.window_start start || ((row.window_start == start) && ltb row.request_count limit)
    then some (record {
      window_start = start;
      expires_at = end;
      request_count = if row.window_start == start then row.request_count + 1 else 1;
    })
    else none

unfoldable pub store_row :
    AccessProfile → Text → AccessScope → Option AccessRow → AccessTable → AccessTable
unfolding same_profile same_scope
store_row p s c none table p' s' c' = table p' s' c'
store_row p s c (some row) table p' s' c' =
    if same_profile p p' && text_eq s s' && same_scope c c' then some row else table p' s' c'

-- What the platform makes of a batch: it commits, it reports a failure, or it rejects, as it does
-- where a trigger aborts a statement. A batch that does not commit is rolled back.
pub data BatchEnd : Type 0 where
  committed unsuccessful rejected : BatchEnd

pub record Spent : Type 0 where
  pub answer : Result Failure (Unit {0})
  pub table : AccessTable

-- The answer where the INSERT statement changed the given row.
unfoldable pub answer_of : AccessScope → ℕ → Option AccessRow → Result Failure (Unit {0})
unfolding start_of duration_of
answer_of c now none =
    err (http_failure rate_limited (retry_in ((start_of c now + duration_of c) - now)))
answer_of c now (some row) = ok tt

unfoldable pub consume_access_budget :
    BatchEnd
    → (AccessProfile → Text → AccessScope → Bool)
    → AccessTable
    → AccessProfile
    → Text
    → AccessScope
    → ℕ
    → Spent
unfolding delete_expired upserted store_row answer_of start_of duration_of limit_of
consume_access_budget rejected chosen rows p s c now = record {
  answer = err unknown_failure;
  table = rows;
}
consume_access_budget unsuccessful chosen rows p s c now = record {
  answer = err (http_failure request_control_unavailable no_options);
  table = rows;
}
consume_access_budget committed chosen rows p s c now =
    let kept = delete_expired chosen now rows in
    let start = start_of c now in
    let row = upserted (limit_of c) start (start + duration_of c) (kept p s c) in
    record { answer = answer_of c now row; table = store_row p s c row kept }
