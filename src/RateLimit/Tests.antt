-- ===== src/RateLimit/Tests.antt =====
-- A server with a budget of three publications a day, on which the theorems are tried.
use metaserver_worker.RateLimit.Errors.{
  exceeded, request_budget_exceeded, seconds_per_day, range_error,
}
use metaserver_worker.RateLimit.Budget.{
  BudgetRequest, BudgetRow, calm, validate_request, consume_fixed_window_budget, select_row,
  has_key,
}
use metaserver_worker.Common.Results.{ok, err}
use metaserver_worker.RateLimit.Window.{
  utc_day_window, FixedWindow, bounded_retry_after, utc_day_window_total, validate_window,
  utc_day_window-validate_window, bounded_retry_after_within,
}
use metaserver_worker.RateLimit.Budget.Counting.{
  admitted_calls, used, consume_refuses, Agrees, admitted_calls_exact, consume_admits,
}
use metaserver_worker.RateLimit.Budget.Isolation.{
  consume-select_row_other, consume-used-le, IsOther,
}
use metaserver_worker.Admission.{range_error}
use metaserver_worker.Common.{
  ℕ, ◌+◌, ◌-◌, ◌*◌, ◌/◌, ◌≡◌, ◌≤◌, refl, some, List, [], ◌∷◌, Text, codes, replicate, arith, inr,
  min, is_hex, text_eq, text_eq_iff, &&_right, &&_left, ◌==◌, max_safe_integer, ◌⊎◌, ◌<◌,
}

abbrev actor : Text
actor = replicate 64 97

abbrev day : FixedWindow
day = record { start_at = 86_400; end_at = 172_800 }

abbrev publication : BudgetRequest
publication = record {
  actor_key = actor;
  scope = codes "publish-server";
  limit = 3;
  now = 90_000;
  window = day;
}

abbrev rendezvous : BudgetRequest
rendezvous = record publication { scope = codes "rendezvous-server" }

abbrev counted_to : ℕ → List BudgetRow
counted_to n =
    record {
      actor_key = actor;
      scope = codes "publish-server";
      window_start = 86_400;
      request_count = n;
      expires_at = 172_800;
    }
    ∷ []

publication-valid : validate_request publication ≡ ok tt
unfolding validate_request is_hex text_eq validate_window
publication-valid = refl

counted-Agrees : (n : ℕ) → Agrees publication (counted_to n)
unfolding select_row has_key text_eq
counted-Agrees n = inr (_, refl, refl)

counted-used : (n : ℕ) → used publication (counted_to n) ≡ n
unfolding select_row has_key text_eq
counted-used n = refl

consume_admits_example :
    ((consume_fixed_window_budget calm publication (counted_to 1)).0
      ≡ ok (record {
        scope = codes "publish-server";
        count = used publication (counted_to 1) + 1;
        limit = 3;
        remaining = 3 - (used publication (counted_to 1) + 1);
        reset_at = 172_800;
      }))
    × (used publication (consume_fixed_window_budget calm publication (counted_to 1)).1
        ≡ used publication (counted_to 1) + 1)
    × Agrees publication (consume_fixed_window_budget calm publication (counted_to 1)).1
consume_admits_example =
    consume_admits publication (counted_to 1) publication-valid (counted-Agrees 1)
      (rw (counted-used 1) (omega arith))

consume_refuses_example : consume_fixed_window_budget calm publication (counted_to 3) ≡ (
  err (
      exceeded (record {
        scope = codes "publish-server";
        reason = request_budget_exceeded;
        retry_after_seconds = 82_800;
        reset_at = some 172_800;
        limit = some 3;
      })),
  counted_to 3,
)
consume_refuses_example =
    consume_refuses publication (counted_to 3) publication-valid (counted-Agrees 3)
      (rw (counted-used 3) (omega arith))

admitted_calls_exact_example :
    admitted_calls 5 publication (counted_to 1) ≡ min 5 (3 - used publication (counted_to 1))
admitted_calls_exact_example =
    admitted_calls_exact 5 publication (counted_to 1) publication-valid (counted-Agrees 1)
      (rw (counted-used 1) (omega arith))

consume-used-le_example :
    used publication (consume_fixed_window_budget calm publication (counted_to 3)).1 ≤ 3
consume-used-le_example =
    consume-used-le calm publication (counted_to 3) (λ t h. h) (omega arith)
      (rw (counted-used 3) (omega arith))

scopes_differ : IsOther publication rendezvous
unfolding has_key text_eq
scopes_differ row h =
    let published =
      (text_eq_iff row.scope (codes "publish-server")).0
        (&&_right (text_eq row.actor_key actor) _ (&&_left _ (row.window_start == 86_400) h)) in
    rw published (ground arith)

consume-select_row_other_example :
    select_row rendezvous (consume_fixed_window_budget calm publication (counted_to 1)).1
    ≡ select_row rendezvous (counted_to 1)
consume-select_row_other_example =
    consume-select_row_other calm publication rendezvous (counted_to 1) scopes_differ (λ t. refl)

utc_day_window-validate_window_example :
    (day.start_at ≡ 90_000 / seconds_per_day * seconds_per_day)
    × (day.end_at ≡ day.start_at + seconds_per_day)
    × (validate_window day 90_000 ≡ ok tt)
unfolding utc_day_window
utc_day_window-validate_window_example = utc_day_window-validate_window 90_000 day refl

utc_day_window_total_example :
    ((86_400 + seconds_per_day ≤ max_safe_integer) × (utc_day_window 90_000 ≡ ok day))
    ⊎ ((max_safe_integer < 86_400 + seconds_per_day) × (utc_day_window 90_000 ≡ err range_error))
utc_day_window_total_example = utc_day_window_total 90_000

bounded_retry_after_within_example :
    ((delay : ℕ) × (bounded_retry_after 172_800 90_000 ≡ ok delay)
      × (172_800 ≤ max_safe_integer)
      × (90_000 ≤ max_safe_integer)
      × (((172_800 ≤ 90_001) × (delay ≡ 1))
          ⊎ (((176_400 ≤ 172_800) × (delay ≡ 86_400))
              ⊎ ((90_001 < 172_800) × (172_800 < 176_400) × (90_000 + delay ≡ 172_800)))))
    ⊎ (((max_safe_integer < 172_800) ⊎ (max_safe_integer < 90_000))
        × (bounded_retry_after 172_800 90_000 ≡ err range_error))
bounded_retry_after_within_example = bounded_retry_after_within 172_800 90_000
