-- ===== src/RateLimit/Window.antt =====
-- The fixed windows of src/rate-limit.ts and their checks.
use metaserver_worker.Common.{
  ℕ, ◌+◌, ◌-◌, ◌*◌, ◌/◌, ◌≡◌, ◌≤◌, ◌<◌, ◌&&◌, arith, leb, ltb, max_safe_integer, ◌⊎◌, dec_lt, inl,
  inr,
}
use metaserver_worker.Common.Results.{Result, ok, ◌>>◌, require, err}
use metaserver_worker.RateLimit.Errors.{
  Thrown, range_error, seconds_per_day, maximum_retry_after_seconds, clamp_retry_after,
}

pub record FixedWindow : Type 0 where
  pub start_at : ℕ
  pub end_at : ℕ

unfoldable pub require_integer_in_range : ℕ → ℕ → ℕ → Result Thrown (Unit {0})
require_integer_in_range value minimum maximum =
    require (leb value max_safe_integer && leb minimum value && leb value maximum) range_error

unfoldable pub require_non_negative_integer : ℕ → Result Thrown (Unit {0})
unfolding require_integer_in_range
require_non_negative_integer value = require_integer_in_range value 0 max_safe_integer

unfoldable pub utc_day_window : ℕ → Result Thrown FixedWindow
unfolding require_non_negative_integer
utc_day_window now = do
  require_non_negative_integer now
  let start = now / seconds_per_day * seconds_per_day
  require (leb start (max_safe_integer - seconds_per_day)) range_error
  ok (record { start_at = start; end_at = start + seconds_per_day })

unfoldable pub bounded_retry_after : ℕ → ℕ → Result Thrown ℕ
unfolding require_non_negative_integer clamp_retry_after
bounded_retry_after reset now = do
  require_non_negative_integer reset
  require_non_negative_integer now
  ok (clamp_retry_after (reset - now))

-- A window that ends before it starts has duration 0 here and a negative one there: both are
-- refused.
unfoldable pub validate_window : FixedWindow → ℕ → Result Thrown (Unit {0})
unfolding require_non_negative_integer
validate_window window now = do
  require_non_negative_integer window.start_at
  require_non_negative_integer window.end_at
  require_integer_in_range (window.end_at - window.start_at) 1 seconds_per_day
  require (leb window.start_at now && ltb now window.end_at) range_error

-- What `validateWindow` establishes.
pub record IsWindow (window : FixedWindow) (now : ℕ) : Type 0 where
  pub starts : window.start_at ≤ now
  pub ends : now < window.end_at
  pub short : window.end_at ≤ window.start_at + seconds_per_day
  pub safe : window.end_at ≤ max_safe_integer

pub validate_window-IsWindow :
    (window : FixedWindow) (now : ℕ) → validate_window window now ≡ ok tt → IsWindow window now
unfolding validate_window
validate_window-IsWindow window now h = ground arith

pub validate_window_of_IsWindow :
    (window : FixedWindow) (now : ℕ) → IsWindow window now → validate_window window now ≡ ok tt
unfolding validate_window
validate_window_of_IsWindow window now v = ground arith

-- Whenever utcDayWindow returns a window, it is the UTC day that holds the timestamp: it starts at
-- a multiple of a day, is one day long, and passes validateWindow at that timestamp.
pub utc_day_window-validate_window :
    (now : ℕ) (window : FixedWindow)
    → utc_day_window now ≡ ok window
    → (window.start_at ≡ now / seconds_per_day * seconds_per_day)
      × (window.end_at ≡ window.start_at + seconds_per_day)
      × (validate_window window now ≡ ok tt)
unfolding utc_day_window
utc_day_window-validate_window now window h =
    (ground arith, ground arith, validate_window_of_IsWindow window now (ground arith))

-- utcDayWindow returns the window of the timestamp's UTC day wherever that day ends within the safe
-- integers, and throws a RangeError wherever it does not.
pub utc_day_window_total :
    (now : ℕ)
    → ((now / seconds_per_day * seconds_per_day + seconds_per_day ≤ max_safe_integer)
        × (utc_day_window now
            ≡ ok (record {
              start_at = now / seconds_per_day * seconds_per_day;
              end_at = now / seconds_per_day * seconds_per_day + seconds_per_day;
            })))
      ⊎ ((max_safe_integer < now / seconds_per_day * seconds_per_day + seconds_per_day)
          × (utc_day_window now ≡ err range_error))
unfolding utc_day_window
utc_day_window_total now =
    elim (dec_lt max_safe_integer (now / seconds_per_day * seconds_per_day + seconds_per_day)) [
      | yes late ↦ inr (late, ground arith)
      | no early ↦ inl (omega arith, ground arith)
    ]

-- Inside a window the delay before a retry is exactly the time left, at least a second and at most
-- a day.
pub bounded_retry_after_exact :
    (window : FixedWindow) (now : ℕ)
    → IsWindow window now
    → (bounded_retry_after window.end_at now ≡ ok (window.end_at - now))
      × (1 ≤ window.end_at - now)
      × (window.end_at - now ≤ maximum_retry_after_seconds)
unfolding bounded_retry_after
bounded_retry_after_exact window now v = (ground arith, omega arith, omega arith)

clamped :
    (reset now : ℕ)
    → ((reset ≤ now + 1) × (clamp_retry_after (reset - now) ≡ 1))
      ⊎ (((now + 86_400 ≤ reset) × (clamp_retry_after (reset - now) ≡ 86_400))
          ⊎ ((now + 1 < reset)
              × (reset < now + 86_400)
              × (now + clamp_retry_after (reset - now) ≡ reset)))
unfolding clamp_retry_after
clamped reset now = elim (dec_lt (now + 1) reset) [
  | no soon ↦ inl (omega arith, omega arith)
  | yes later ↦ elim (dec_lt reset (now + 86_400)) [
    | yes within ↦ inr (inr (later, within, omega arith))
    | no far ↦ inr (inl (omega arith, omega arith))
  ]
]

-- For two safe integers the delay before a retry is a second where the reset is at most a second
-- ahead or has passed, a day where it is a day ahead or more, and between these the time left; for
-- any other pair it is a RangeError.
pub bounded_retry_after_within :
    (reset now : ℕ)
    → ((delay : ℕ) × (bounded_retry_after reset now ≡ ok delay)
        × (reset ≤ max_safe_integer)
        × (now ≤ max_safe_integer)
        × (((reset ≤ now + 1) × (delay ≡ 1))
            ⊎ (((now + 86_400 ≤ reset) × (delay ≡ 86_400))
                ⊎ ((now + 1 < reset) × (reset < now + 86_400) × (now + delay ≡ reset)))))
      ⊎ (((max_safe_integer < reset) ⊎ (max_safe_integer < now))
          × (bounded_retry_after reset now ≡ err range_error))
unfolding bounded_retry_after
bounded_retry_after_within reset now = elim (dec_lt max_safe_integer reset) [
  | yes far ↦ inr (inl far, ground arith)
  | no near ↦ elim (dec_lt max_safe_integer now) [
    | yes late ↦ inr (inr late, ground arith)
    | no early ↦
        inl (
          clamp_retry_after (reset - now),
          ground arith,
          omega arith,
          omega arith,
          clamped reset now,
        )
  ]
]
