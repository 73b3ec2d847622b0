-- ===== src/RateLimit/Budget/Counting.antt =====
-- What the budgets count.
use metaserver_worker.Common.{
  ℕ, ◌+◌, ◌-◌, ◌≤◌, ◌<◌, ◌≡◌, ◌⊎◌, refl, true, ◌&&◌, Option, none, some, List, [], ◌∷◌, ltb, ◌==◌,
  if◌then◌else◌, text_eq_refl, min, zero, suc, arith, inl, inr, ◌∙◌, dec_lt, ap,
}
use metaserver_worker.Common.Results.{ok, err}
use metaserver_worker.RateLimit.Errors.{
  Thrown, request_budget_exceeded, exceeded, new_exceeded, clamp_retry_after,
}
use metaserver_worker.RateLimit.Window.{
  IsWindow, validate_window-IsWindow, bounded_retry_after_exact, require_integer_in_range,
}
use metaserver_worker.RateLimit.Budget.{
  BudgetRequest, BudgetRow, Admission, Platform, calm, has_key, upsert, select_row,
  validate_request, refusal, settle, refuse, consume_fixed_window_budget, admission_of, fresh_row,
}

-- The count of a request's key; an absent row counts nothing.
abbrev pub used : BudgetRequest → List BudgetRow → ℕ
used r table = elim (select_row r table) [ none ↦ 0 | some row ↦ row.request_count ]

-- A row of the key, if there is one, expires with the request's window.
abbrev pub Agrees : BudgetRequest → List BudgetRow → Type 0
Agrees r table =
    (select_row r table ≡ none)
    ⊎ ((row : BudgetRow) × (select_row r table ≡ some row) × (row.expires_at ≡ r.window.end_at))

validate_request-IsWindow :
    (r : BudgetRequest) → validate_request r ≡ ok tt → IsWindow r.window r.now
unfolding validate_request
validate_request-IsWindow r h = validate_window-IsWindow r.window r.now (ground arith)

pub fresh_row-has_key : (r : BudgetRequest) → has_key r (fresh_row r) ≡ true
unfolding has_key fresh_row
fresh_row-has_key r = ground (arith, text_eq_refl r.actor_key, text_eq_refl r.scope)

-- What one statement does to the row of its key: the row that it returns, if it writes one.
abbrev pub counted : BudgetRequest → Option BudgetRow → Option BudgetRow
counted r none = some (fresh_row r)
counted r (some row) =
    if (row.expires_at == r.window.end_at) && ltb row.request_count r.limit
    then some (record row { request_count = row.request_count + 1 })
    else none

abbrev listed : Option BudgetRow → List BudgetRow
listed none = []
listed (some row) = row ∷ []

abbrev or_else : Option BudgetRow → Option BudgetRow → Option BudgetRow
or_else none o = o
or_else (some row) o = some row

pub has_key-count :
    (r : BudgetRequest) (row : BudgetRow) (n : ℕ)
    → has_key r (record row { request_count = n }) ≡ has_key r row
unfolding has_key
has_key-count r row n = refl

upsert-returns :
    (r : BudgetRequest) (table : List BudgetRow)
    → (upsert r table).1 ≡ listed (counted r (select_row r table))
unfolding upsert select_row
upsert-returns r [] = refl
upsert-returns r (row ∷ rows) = ground (arith, upsert-returns r rows)

pub select_row-upsert :
    (r : BudgetRequest) (table : List BudgetRow)
    → select_row r (upsert r table).0
      ≡ or_else (counted r (select_row r table)) (select_row r table)
unfolding upsert select_row
select_row-upsert r [] = ground (arith, fresh_row-has_key r)
select_row-upsert r (row ∷ rows) =
    ground (arith, select_row-upsert r rows, has_key-count r row (row.request_count + 1))

-- The row of a key is not stored twice, so a statement returns at most one.
settle-refuse :
    (p : Platform) (r : BudgetRequest) (table rows : List BudgetRow)
    → rows ≡ []
    → settle p r table rows ≡ refuse p r (p.between table)
unfolding settle
settle-refuse p r table [] e = refl
settle-refuse p r table (x ∷ xs) e = cc

upsert_unchanged :
    (r : BudgetRequest) (table : List BudgetRow)
    → counted r (select_row r table) ≡ none
    → (upsert r table).0 ≡ table
unfolding upsert select_row
upsert_unchanged r [] h = cc
upsert_unchanged r (row ∷ rows) h = ground (arith, upsert_unchanged r rows)

counted_below :
    (r : BudgetRequest) (table : List BudgetRow)
    → Agrees r table
    → used r table < r.limit
    → (row : BudgetRow) × (counted r (select_row r table) ≡ some row)
      × (row.request_count ≡ used r table + 1)
      × (row.expires_at ≡ r.window.end_at)
unfolding fresh_row
counted_below r table (inl e) h = (fresh_row r, rw e, ground arith, refl)
counted_below r table (inr (row, e, same)) h =
    (record row { request_count = row.request_count + 1 }, ground arith, ground arith, same)

counted_full :
    (r : BudgetRequest) (table : List BudgetRow)
    → 1 ≤ r.limit
    → Agrees r table
    → r.limit ≤ used r table
    → (row : BudgetRow) × (counted r (select_row r table) ≡ none)
      × (select_row r table ≡ some row)
      × (row.expires_at ≡ r.window.end_at)
      × (r.limit ≤ row.request_count)
counted_full r table pos (inl e) h = absurd (ground arith)
counted_full r table pos (inr (row, e, agree)) h = (row, ground arith, e, agree, ground arith)

validate_request-limit : (r : BudgetRequest) → validate_request r ≡ ok tt → 1 ≤ r.limit
unfolding validate_request require_integer_in_range
validate_request-limit r h = ground arith

consume_calm :
    (r : BudgetRequest) (table : List BudgetRow)
    → validate_request r ≡ ok tt
    → consume_fixed_window_budget calm r table
      ≡ settle calm r (upsert r table).0 (listed (counted r (select_row r table)))
unfolding consume_fixed_window_budget
consume_calm r table valid = rw (valid, consume_fixed_window_budget) (rw (upsert-returns r table))

consume_calm_row :
    (r : BudgetRequest) (table : List BudgetRow) (row : BudgetRow)
    → validate_request r ≡ ok tt
    → counted r (select_row r table) ≡ some row
    → consume_fixed_window_budget calm r table ≡ (ok (admission_of r row), (upsert r table).0)
unfolding settle
consume_calm_row r table row valid e = consume_calm r table valid ∙ rw e

-- On a database that answers and serves no other request, a valid request below its limit is
-- admitted: it answers with the new count and what remains of the limit, the stored count of the
-- key grows by one, and the key's row expires with the request's window, as it did before if
-- there was one.
pub consume_admits :
    (r : BudgetRequest) (table : List BudgetRow)
    → validate_request r ≡ ok tt
    → Agrees r table
    → used r table < r.limit
    → ((consume_fixed_window_budget calm r table).0
        ≡ ok (record {
          scope = r.scope;
          count = used r table + 1;
          limit = r.limit;
          remaining = r.limit - (used r table + 1);
          reset_at = r.window.end_at;
        }))
      × (used r (consume_fixed_window_budget calm r table).1 ≡ used r table + 1)
      × Agrees r (consume_fixed_window_budget calm r table).1
unfolding admission_of
consume_admits r table valid agrees h =
    let (row, e, count, end) = counted_below r table agrees h in
    let stored : select_row r (upsert r table).0 ≡ some row = select_row-upsert r table ∙ rw e in
    rw (consume_calm_row r table row valid e)
      (ground arith, rw (stored, used) count, inr (row, stored, end))

-- On a database that answers and serves no other request, a valid request at its limit is refused
-- with the reason, the limit and the end of the window, the delay is exactly the time left in the
-- window, and the table is left as it was. The key's row, if there is one, expires with the
-- request's window.
pub consume_refuses :
    (r : BudgetRequest) (table : List BudgetRow)
    → validate_request r ≡ ok tt
    → Agrees r table
    → r.limit ≤ used r table
    → consume_fixed_window_budget calm r table ≡ (
      err (
          exceeded (record {
            scope = r.scope;
            reason = request_budget_exceeded;
            retry_after_seconds = r.window.end_at - r.now;
            reset_at = some r.window.end_at;
            limit = some r.limit;
          })),
      table,
    )
unfolding settle refuse refusal new_exceeded clamp_retry_after
consume_refuses r table valid agrees h =
    let (row, e, found, end, full) =
      counted_full r table (validate_request-limit r valid) agrees h in
    let window = validate_request-IsWindow r valid in
    let (exact, least, most) = bounded_retry_after_exact r.window r.now window in
    consume_calm r table valid ∙ rw (e, upsert_unchanged r table e, found, refusal) (ground arith)

-- `n` calls in a row, and how many of them are admitted.
pub admitted_calls : ℕ → BudgetRequest → List BudgetRow → ℕ
admitted_calls zero r table = 0
admitted_calls (suc n) r table =
    let (answer, after) = consume_fixed_window_budget calm r table in
    let rest = admitted_calls n r after in elim answer [ ok _ ↦ suc rest | err _ ↦ rest ]

admitted_calls_ok :
    (n : ℕ) (r : BudgetRequest) (table after : List BudgetRow) (a : Admission)
    → consume_fixed_window_budget calm r table ≡ (ok a, after)
    → admitted_calls (suc n) r table ≡ suc (admitted_calls n r after)
unfolding admitted_calls
admitted_calls_ok n r table after a e =
    rw (e, admitted_calls) (ap (λ q. suc (admitted_calls n r q.1)) e)

admitted_calls_err :
    (n : ℕ) (r : BudgetRequest) (table after : List BudgetRow) (t : Thrown)
    → consume_fixed_window_budget calm r table ≡ (err t, after)
    → admitted_calls (suc n) r table ≡ admitted_calls n r after
unfolding admitted_calls
admitted_calls_err n r table after t e = rw (e, admitted_calls) (ap (λ q. admitted_calls n r q.1) e)

-- Of any number of equal calls in a row, of a valid request, on a database that answers and
-- serves no other request, exactly as many are admitted as the limit has left. The key's row, if
-- there is one, is within the limit and expires with the request's window.
pub admitted_calls_exact :
    (n : ℕ) (r : BudgetRequest) (table : List BudgetRow)
    → validate_request r ≡ ok tt
    → Agrees r table
    → used r table ≤ r.limit
    → admitted_calls n r table ≡ min n (r.limit - used r table)
unfolding admitted_calls select_row
admitted_calls_exact zero r table valid agrees h = omega arith
admitted_calls_exact (suc n) r table valid agrees h = elim (dec_lt (used r table) r.limit) [
  | yes below ↦
      let (answer, count, agrees') = consume_admits r table valid agrees below in
      let after = (consume_fixed_window_budget calm r table).1 in
      omega (
        arith,
        admitted_calls_ok n r table after _ (λ i. (answer i, after)),
        admitted_calls_exact n r after valid agrees' (omega (arith, count)),
        count,
      )
  | no full ↦ omega (
    arith,
    admitted_calls_err n r table table _ (consume_refuses r table valid agrees (omega arith)),
    admitted_calls_exact n r table valid agrees h,
  )
]
