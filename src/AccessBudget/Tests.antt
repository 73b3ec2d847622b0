-- ===== src/AccessBudget/Tests.antt =====
-- A server that has asked for routes, on which the theorems are tried.
use metaserver_worker.Common.{◌≡◌, refl, true, some, Text, codes, arith}
use metaserver_worker.AccessBudget.{
  AccessTable, routes, start_of, duration_of, resolve, same_profile, classic, consume_access_budget,
  game, committed,
}
use metaserver_worker.AccessBudget.Counting.{IsPast, count_in}
use metaserver_worker.AccessBudget.Consumed.{
  Settles, consume_access_budget-Settles, consume_access_budget-count_in_other,
}

abbrev asker : Text
asker = codes "a"

-- Every budget counts one request of the window that begins at 3600.
abbrev asked_once : AccessTable
asked_once p s routes = some (record { window_start = 3600; expires_at = 7200; request_count = 1 })
asked_once p s resolve = some (record { window_start = 3600; expires_at = 3660; request_count = 1 })

consume_access_budget-Settles_example :
    Settles routes 3700
      (count_in (start_of routes 3700) (asked_once classic asker routes))
      (consume_access_budget committed (λ p s c. true) asked_once classic asker routes 3700).answer
      (count_in (start_of routes 3700) (
        (consume_access_budget committed (λ p s c. true) asked_once classic asker routes 3700).table
          classic asker routes))
unfolding IsPast start_of duration_of
consume_access_budget-Settles_example =
    consume_access_budget-Settles (λ p s c. true) asked_once classic asker routes 3700
      (omega arith, refl)

consume_access_budget-count_in_other_example :
    count_in (start_of resolve 3700) (
      (consume_access_budget committed (λ p s c. true) asked_once classic asker routes 3700).table
        game asker resolve)
    ≡ count_in (start_of resolve 3700) (asked_once game asker resolve)
unfolding IsPast start_of duration_of same_profile
consume_access_budget-count_in_other_example =
    consume_access_budget-count_in_other committed (λ p s c. true) asked_once classic asker routes
      3700 game asker resolve refl (omega arith, refl)
