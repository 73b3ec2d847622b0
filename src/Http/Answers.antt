-- ===== src/Http/Answers.antt =====
-- What every answer to a failed request is made of.
use metaserver_worker.Common.{
  ℕ, ◌≤◌, ◌≡◌, inl, inr, refl, sym, ap, subst, ◌∙◌, true, Option, none, some, List, [], ◌∷◌, ◌++◌,
  if◌then◌else◌, arith, Bool-cases, is_some,
}
use metaserver_worker.Http.{
  Header, AllowedMethod, HttpErrorCode, bounded_http_retry_after, HttpResponse, Amount, status_of,
  retry_after_header, retry_headers, HttpErrorOptions, allow_headers, HttpError,
  should_include_retry_after, whole, upgrade_headers, http_error_response, message_of,
  is_rate_limited, new_http_error, above, is_upgrade_required, undefined, not_finite, negative,
}

bounded_http_retry_after-bounds :
    (amount : Amount)
    → (1 ≤ bounded_http_retry_after amount) × (bounded_http_retry_after amount ≤ 86_400)
unfolding bounded_http_retry_after
bounded_http_retry_after-bounds undefined = (omega arith, omega arith)
bounded_http_retry_after-bounds not_finite = (omega arith, omega arith)
bounded_http_retry_after-bounds negative = (omega arith, omega arith)
bounded_http_retry_after-bounds (whole n) = (omega arith, omega arith)
bounded_http_retry_after-bounds (above n) = (omega arith, omega arith)

-- The delay that the headers name.
unfoldable pub named_delay : List Header → Option ℕ
named_delay [] = none
named_delay (retry_after_header seconds ∷ rest) = some seconds
named_delay (other ∷ rest) = named_delay rest

named_delay-allow_headers :
    (methods : List AllowedMethod) (rest : List Header)
    → named_delay (allow_headers methods ++ rest) ≡ named_delay rest
unfolding named_delay allow_headers
named_delay-allow_headers [] rest = refl
named_delay-allow_headers (m ∷ ms) rest = refl

named_delay-retry_headers :
    (delay : Option ℕ) (code : HttpErrorCode)
    → named_delay (retry_headers delay ++ upgrade_headers code) ≡ delay
unfolding named_delay retry_headers upgrade_headers
named_delay-retry_headers (some seconds) code = refl
named_delay-retry_headers none code = elim (Bool-cases (is_upgrade_required code)) [
  | inl h ↦ rw h refl
  | inr h ↦ rw h refl
]

-- A delay that is named is between a second and a day.
pub IsDelay : Option ℕ → Type 0
IsDelay none = Unit
IsDelay (some seconds) = (1 ≤ seconds) × (seconds ≤ 86_400)

-- A response that the code of its body decides, up to the reason, the delay and the methods: its
-- status and its message are the ones of the code, a reason stands in exactly the bodies of
-- `rate_limited`, with the delay of the headers, and a delay is named for exactly the codes that
-- include one.
pub record IsFixed (r : HttpResponse) : Type 0 where
  pub status : r.response_status ≡ status_of r.body.body_code
  pub message : r.body.body_message ≡ message_of r.body.body_code
  pub reason : is_some r.body.body_reason ≡ is_rate_limited r.body.body_code
  pub delay : is_some (named_delay r.headers) ≡ should_include_retry_after r.body.body_code
  pub bounded : IsDelay (named_delay r.headers)
  pub same_delay :
      is_rate_limited r.body.body_code ≡ true → r.body.body_retry_after ≡ named_delay r.headers

module _ (code : HttpErrorCode) (options : HttpErrorOptions) where
  abbrev made : HttpError
  made = new_http_error code options

  response-delay : named_delay (http_error_response made).headers ≡ (
      if should_include_retry_after code
      then some (bounded_http_retry_after options.option_retry_after)
      else none)
  unfolding named_delay http_error_response new_http_error should_include_retry_after
  response-delay =
      named_delay-allow_headers made.allow _ ∙ named_delay-retry_headers made.error_retry_after code

  response-reason : is_some (http_error_response made).body.body_reason ≡ is_rate_limited code
  unfolding http_error_response new_http_error should_include_retry_after
  response-reason = elim (Bool-cases (is_rate_limited code)) [
    | inl h ↦ rw h refl
    | inr h ↦ rw h refl
  ]

  response-same_delay :
      is_rate_limited code ≡ true
      → (http_error_response made).body.body_retry_after
        ≡ named_delay (http_error_response made).headers
  unfolding http_error_response new_http_error should_include_retry_after
  response-same_delay h = rw (response-delay, h) refl

  delay_named :
      is_some (
        if should_include_retry_after code
        then some (bounded_http_retry_after options.option_retry_after)
        else none)
      ≡ should_include_retry_after code
  delay_named = elim (Bool-cases (should_include_retry_after code)) [
    | inl h ↦ rw h refl
    | inr h ↦ rw h refl
  ]

  bounded_http_retry_after-IsDelay : IsDelay (
      if should_include_retry_after code
      then some (bounded_http_retry_after options.option_retry_after)
      else none)
  unfolding IsDelay
  bounded_http_retry_after-IsDelay = elim (Bool-cases (should_include_retry_after code)) [
    | inl h ↦ rw h (bounded_http_retry_after-bounds options.option_retry_after)
    | inr h ↦ rw h tt
  ]

  pub response-IsFixed : IsFixed (http_error_response made)
  unfolding http_error_response new_http_error
  response-IsFixed = record {
    status = refl;
    message = refl;
    reason = response-reason;
    delay = ap is_some response-delay ∙ delay_named;
    bounded = subst IsDelay (sym response-delay) bounded_http_retry_after-IsDelay;
    same_delay = response-same_delay;
  }
