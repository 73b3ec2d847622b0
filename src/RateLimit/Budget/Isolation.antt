-- ===== src/RateLimit/Budget/Isolation.antt =====
-- What a call does to the table whatever D1 and other requests do.
use metaserver_worker.Common.{◌+◌, ◌≤◌, ◌≡◌, ◌⊎◌, refl, true, false, List, [], ◌∷◌, arith, inl}
use metaserver_worker.RateLimit.Budget.{
  BudgetRequest, BudgetRow, Platform, has_key, upsert, select_row, settle, refuse,
  consume_fixed_window_budget, fresh_row,
}
use metaserver_worker.RateLimit.Budget.Counting.{
  used, has_key-count, fresh_row-has_key, select_row-upsert,
}

-- Another key: it differs in the actor, the scope or the start of the window.
abbrev pub IsOther : BudgetRequest → BudgetRequest → Type 0
IsOther r q = (row : BudgetRow) → has_key r row ≡ true → has_key q row ≡ false

select_row-upsert_other :
    (r q : BudgetRequest) (table : List BudgetRow)
    → IsOther r q
    → select_row q (upsert r table).0 ≡ select_row q table
unfolding upsert select_row
select_row-upsert_other r q [] h = ground (arith, h (fresh_row r), fresh_row-has_key r)
select_row-upsert_other r q (row ∷ rows) h =
    ground (
      arith,
      select_row-upsert_other r q rows h,
      h row,
      has_key-count q row (row.request_count + 1),
    )

-- The tables that a call can leave, whatever the platform does.
settle_tables :
    (p : Platform) (r : BudgetRequest) (table rows : List BudgetRow)
    → ((settle p r table rows).1 ≡ table) ⊎ ((settle p r table rows).1 ≡ p.between table)
unfolding settle refuse
settle_tables p r table [] = ground arith
settle_tables p r table (row ∷ []) = inl refl
settle_tables p r table (row ∷ row' ∷ rows) = inl refl

consume_tables :
    (p : Platform) (r : BudgetRequest) (table : List BudgetRow)
    → ((consume_fixed_window_budget p r table).1 ≡ table)
      ⊎ ((consume_fixed_window_budget p r table).1 ≡ (upsert r table).0)
      ⊎ ((consume_fixed_window_budget p r table).1 ≡ p.between (upsert r table).0)
unfolding consume_fixed_window_budget
consume_tables p r table = ground (arith, settle_tables p r (upsert r table).0 (upsert r table).1)

used-upsert-le :
    (r : BudgetRequest) (table : List BudgetRow)
    → 1 ≤ r.limit
    → used r table ≤ r.limit
    → used r (upsert r table).0 ≤ r.limit
unfolding fresh_row
used-upsert-le r table pos h = ground (arith, select_row-upsert r table)

-- Whatever D1 and the other requests do during a call, the key's count stays within the limit,
-- which is at least one, if it was so before and the other requests keep it so.
pub consume-used-le :
    (p : Platform) (r : BudgetRequest) (table : List BudgetRow)
    → ((t : List BudgetRow) → used r t ≤ r.limit → used r (p.between t) ≤ r.limit)
    → 1 ≤ r.limit
    → used r table ≤ r.limit
    → used r (consume_fixed_window_budget p r table).1 ≤ r.limit
consume-used-le p r table others pos h = ground (
  arith,
  consume_tables p r table,
  used-upsert-le r table pos h,
  others (upsert r table).0 (used-upsert-le r table pos h),
)

-- A call leaves the row of every other key as it was, whatever D1 does, unless another request
-- changes it in between.
pub consume-select_row_other :
    (p : Platform) (r q : BudgetRequest) (table : List BudgetRow)
    → IsOther r q
    → ((t : List BudgetRow) → select_row q (p.between t) ≡ select_row q t)
    → select_row q (consume_fixed_window_budget p r table).1 ≡ select_row q table
consume-select_row_other p r q table other others = ground (
  arith,
  consume_tables p r table,
  select_row-upsert_other r q table other,
  others (upsert r table).0,
)
