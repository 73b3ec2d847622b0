-- ===== src/RateLimit/Budget.antt =====
-- consumeFixedWindowBudget of src/rate-limit.ts over the table request_budgets.
-- D1 runs a statement whole; it may throw before or after it commits, and other requests may
-- change the table between the two statements of one call.
pub mod Counting
pub mod Isolation
use metaserver_worker.Common.{
  ℕ, ◌+◌, ◌-◌, Bool, true, false, ◌&&◌, Option, none, some, List, [], ◌∷◌, ltb, ◌==◌, if◌then◌else◌,
  any, Text, codes, text_eq, is_hex,
}
use metaserver_worker.Common.Results.{Result, ok, err, ◌>>=◌, ◌>>◌, require}
use metaserver_worker.RateLimit.Errors.{
  Thrown, type_error, plain_error, Dependency, d1, request_budget_exceeded, new_exceeded,
  dependency_failure, clamp_retry_after,
}
use metaserver_worker.RateLimit.Window.{
  FixedWindow, require_integer_in_range, require_non_negative_integer, validate_window,
  bounded_retry_after,
}

abbrev pub maximum_budget : ℕ
maximum_budget = 1_000_000

abbrev pub request_budget_scopes : List Text
request_budget_scopes =
    codes "publish-server" ∷ codes "publish-game-server" ∷ codes "rendezvous-server" ∷ []

pub record BudgetRequest : Type 0 where
  pub actor_key : Text
  pub scope : Text
  pub limit : ℕ
  pub now : ℕ
  pub window : FixedWindow

pub record Admission : Type 0 where
  pub scope : Text
  pub count : ℕ
  pub limit : ℕ
  pub remaining : ℕ
  pub reset_at : ℕ

-- A row of request_budgets; the first three fields are its key.
pub record BudgetRow : Type 0 where
  pub actor_key : Text
  pub scope : Text
  pub window_start : ℕ
  pub request_count : ℕ
  pub expires_at : ℕ

-- What the platform does during one call.
pub record Platform : Type 0 where
  pub upsert_fault : Option (Thrown × Bool)
  pub between : List BudgetRow → List BudgetRow
  pub select_fault : Option Thrown

unfoldable pub require_authenticated_server_key : Text → Result Thrown (Unit {0})
require_authenticated_server_key key = require (is_hex 64 key) type_error

unfoldable pub require_budget_scope : Text → Result Thrown (Unit {0})
require_budget_scope scope =
    require (any (λ candidate. text_eq candidate scope) request_budget_scopes) type_error

unfoldable pub has_key : BudgetRequest → BudgetRow → Bool
has_key r row =
    text_eq row.actor_key r.actor_key
    && text_eq row.scope r.scope
    && (row.window_start == r.window.start_at)

pub fresh_row : BudgetRequest → BudgetRow
fresh_row r = record {
  actor_key = r.actor_key;
  scope = r.scope;
  window_start = r.window.start_at;
  request_count = 1;
  expires_at = r.window.end_at;
}

-- The conditional UPSERT: the table after it, and the rows that it returns.
pub upsert : BudgetRequest → List BudgetRow → List BudgetRow × List BudgetRow
upsert r [] = (fresh_row r ∷ [], fresh_row r ∷ [])
upsert r (row ∷ rows) =
    let rest = upsert r rows in
    let next = record row { request_count = row.request_count + 1 } in
    if has_key r row
    then (if (row.expires_at == r.window.end_at) && ltb row.request_count r.limit
        then (next ∷ rows, next ∷ [])
        else (row ∷ rows, []))
    else (row ∷ rest.0, rest.1)

-- The SELECT of the same key.
unfoldable pub select_row : BudgetRequest → List BudgetRow → Option BudgetRow
select_row r [] = none
select_row r (row ∷ rows) = if has_key r row then some row else select_row r rows

unfoldable pub validate_request : BudgetRequest → Result Thrown (Unit {0})
unfolding require_authenticated_server_key require_budget_scope
validate_request r = do
  require_authenticated_server_key r.actor_key
  require_budget_scope r.scope
  require_integer_in_range r.limit 1 maximum_budget
  require_non_negative_integer r.now
  validate_window r.window r.now

pub admission_of : BudgetRequest → BudgetRow → Admission
admission_of r row = record {
  scope = r.scope;
  count = row.request_count;
  limit = r.limit;
  remaining = r.limit - row.request_count;
  reset_at = row.expires_at;
}

-- After an UPSERT that returned no row.
pub refusal : BudgetRequest → Option BudgetRow → Thrown
refusal r none = plain_error (some (codes "Request budget window is divergent") ∷ [])
refusal r (some row) =
    if row.expires_at == r.window.end_at
    then (if ltb row.request_count r.limit
        then plain_error (some (codes "Request budget admission failed below its limit") ∷ [])
        else elim (bounded_retry_after r.window.end_at r.now) [
          | ok seconds ↦
              new_exceeded r.scope request_budget_exceeded seconds (some r.window.end_at)
                (some r.limit)
          | err e ↦ e
        ])
    else plain_error (some (codes "Request budget window is divergent") ∷ [])

pub refuse : Platform → BudgetRequest → List BudgetRow → Result Thrown Admission × List BudgetRow
refuse p r table = elim p.select_fault [
  | none ↦ (err (refusal r (select_row r table)), table)
  | some e ↦ (err (dependency_failure d1 e), table)
]

pub settle :
    Platform
    → BudgetRequest
    → List BudgetRow
    → List BudgetRow
    → Result Thrown Admission × List BudgetRow
settle p r table [] = refuse p r (p.between table)
settle p r table (row ∷ []) = (ok (admission_of r row), table)
settle p r table (_ ∷ _ ∷ _) =
    (err (plain_error (some (codes "Request budget admission returned multiple rows") ∷ [])), table)

-- The call, with the table before and after it.
pub consume_fixed_window_budget :
    Platform → BudgetRequest → List BudgetRow → Result Thrown Admission × List BudgetRow
consume_fixed_window_budget p r table = elim (validate_request r) [
  | err e ↦ (err e, table)
  | ok _ ↦ elim p.upsert_fault [
    | none ↦ settle p r (upsert r table).0 (upsert r table).1
    | some (e, committed) ↦
        (err (dependency_failure d1 e), if committed then (upsert r table).0 else table)
  ]
]

-- D1 answers, and no other request runs in between.
abbrev pub calm : Platform
calm = record { upsert_fault = none; between = λ table. table; select_fault = none }
