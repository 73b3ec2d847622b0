-- ===== src/Http/Handled.antt =====
-- Every failure is answered by a fixed response, and what is logged is what is answered.
use metaserver_worker.Common.{
  ℕ, ◌≤◌, ◌≡◌, inl, inr, refl, true, false, [], ◌∷◌, length, All, arith, Bool-cases, some, Option,
  none,
}
use metaserver_worker.Http.Requests.{
  request_error_code, DiagnosticRoute, DiagnosticHandler, Handled, handle_request_error, LogLine,
  Failure, request_rejected, http_failure, is_quiet, budget_failure, unexpected_error,
  unavailable_failure, log_request_rejected, handled, no_options, request_failure,
  control_configuration_failure, tag_configuration_failure, unknown_failure,
  request_control_dependency, log_unexpected_error, UnexpectedErrorCode,
  request_control_configuration, source_tag_configuration, unhandled_exception, budget_options,
  retry_in,
}
use metaserver_worker.Http.{
  is_rate_limited, HttpResponse, HttpErrorCode, HttpErrorOptions, rate_limited, HttpError,
  request_control_unavailable, http_error_response, new_http_error, internal_error, status_of,
}
use metaserver_worker.RateLimit.Errors.{Dependency}
use metaserver_worker.Http.Answers.{IsFixed, response-IsFixed}

-- A line about the answer of a request: its route and its handler are the caller's, a rejection
-- has the code and the status of the response, and an unexpected error is a failure of the server.
pub Tells : DiagnosticRoute → DiagnosticHandler → HttpResponse → LogLine → Type 0
Tells route handler r (request_rejected at c s) =
    (at ≡ route) × (c ≡ r.body.body_code) × (s ≡ r.response_status)
Tells route handler r (unexpected_error by c d) = (by ≡ handler) × (500 ≤ r.response_status)

pub record IsAnswered (route : DiagnosticRoute) (handler : DiagnosticHandler) (h : Handled)
    : Type 0 where
  pub fixed : IsFixed h.response
  pub told : All (Tells route handler h.response) h.logged
  pub once : length h.logged ≤ 1
  pub heard : is_quiet h.response.body.body_code ≡ false → length h.logged ≡ 1
  pub unheard : is_rate_limited h.response.body.body_code ≡ true → length h.logged ≡ 0

not_limited : (status : ℕ) → is_rate_limited (request_error_code status) ≡ false
unfolding request_error_code is_rate_limited
not_limited status = ground arith

loud-limited : (code : HttpErrorCode) → is_quiet code ≡ false → is_rate_limited code ≡ false
unfolding is_quiet
loud-limited code h = ground arith

module _ (route : DiagnosticRoute) (handler : DiagnosticHandler) (code : HttpErrorCode)
    (options : HttpErrorOptions) where
  abbrev answer : HttpError
  answer = new_http_error code options

  no_line : is_quiet code ≡ true → IsAnswered route handler (handled [] answer)
  unfolding http_error_response new_http_error
  no_line quiet = record {
    fixed = response-IsFixed code options;
    told = tt;
    once = omega arith;
    heard = λ loud. absurd (ground arith);
    unheard = λ limited. refl;
  }

  one_line :
      (line : LogLine)
      → Tells route handler (http_error_response answer) line
      → is_rate_limited code ≡ false
      → IsAnswered route handler (handled (line ∷ []) answer)
  unfolding http_error_response new_http_error
  one_line line tells other = record {
    fixed = response-IsFixed code options;
    told = (tells, tt);
    once = omega arith;
    heard = λ loud. refl;
    unheard = λ limited. absurd (ground arith);
  }

  rejected_line :
      is_rate_limited code ≡ false
      → IsAnswered route handler (handled (log_request_rejected route answer) answer)
  unfolding log_request_rejected http_error_response new_http_error Tells
  rejected_line = one_line (request_rejected route code (status_of code)) (refl, refl, refl)

  unexpected_line :
      (unexpected : UnexpectedErrorCode) (dependency : Option Dependency)
      → 500 ≤ status_of code
      → is_rate_limited code ≡ false
      → IsAnswered route handler
          (handled (log_unexpected_error handler unexpected dependency) answer)
  unfolding log_unexpected_error http_error_response new_http_error Tells
  unexpected_line unexpected dependency fault =
      one_line (unexpected_error handler unexpected dependency) (refl, fault)

  http_failure-IsAnswered :
      IsAnswered route handler (handle_request_error (http_failure code options) route handler)
  unfolding handle_request_error
  http_failure-IsAnswered = elim (Bool-cases (is_quiet code)) [
    | inl quiet ↦ rw quiet (no_line quiet)
    | inr loud ↦ rw loud (rejected_line (loud-limited code loud))
  ]

-- However a request fails, the status and the message of the response are the ones of the code in
-- its body; a reason stands in the body exactly where that code is `rate_limited`, with the delay
-- that the headers name; a delay is named exactly for the codes that include one, and is between a
-- second and a day. At most one line is logged, it has the caller's route or handler and tells of
-- that response: exactly one where the code is not quiet, and none where it is `rate_limited`.
pub handle_request_error-IsAnswered :
    (failure : Failure) (route : DiagnosticRoute) (handler : DiagnosticHandler)
    → IsAnswered route handler (handle_request_error failure route handler)
unfolding handle_request_error
handle_request_error-IsAnswered (http_failure code options) route handler =
    http_failure-IsAnswered route handler code options
handle_request_error-IsAnswered (budget_failure e) route handler =
    no_line route handler rate_limited (budget_options e) refl
handle_request_error-IsAnswered (unavailable_failure d) route handler =
    unexpected_line route handler request_control_unavailable (retry_in 60)
      request_control_dependency (some d) (omega arith) refl
handle_request_error-IsAnswered control_configuration_failure route handler =
    unexpected_line route handler request_control_unavailable (retry_in 60)
      request_control_configuration none (omega arith) refl
handle_request_error-IsAnswered tag_configuration_failure route handler =
    unexpected_line route handler request_control_unavailable (retry_in 60) source_tag_configuration
      none (omega arith) refl
handle_request_error-IsAnswered unknown_failure route handler =
    unexpected_line route handler internal_error no_options unhandled_exception none (omega arith)
      refl
handle_request_error-IsAnswered (request_failure status) route handler =
    rejected_line route handler (request_error_code status) no_options (not_limited status)
