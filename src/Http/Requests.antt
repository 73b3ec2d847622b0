-- ===== src/Http/Requests.antt =====
-- How src/request-errors.ts answers every failure of a request, and what src/diagnostics.ts logs.
use metaserver_worker.Common.{
  ℕ, Bool, true, false, ◌||◌, Option, none, some, List, [], ◌∷◌, ◌==◌, if◌then◌else◌, codes,
  text_eq,
}
use metaserver_worker.Http.{
  new_http_error, HttpErrorCode, HttpResponse, HttpError, HttpErrorOptions, http_error_response,
  HttpRateLimitReason, bad_request, whole, request_control_unavailable, not_found, undefined,
  rate_limited, unauthorized, global_burst, publish_burst, forbidden, internal_error, publish_daily,
  conflict, payload_too_large, rendezvous_client_burst, rendezvous_server_burst,
  rendezvous_server_daily, is_rate_limited, is_service_disabled,
}
use metaserver_worker.RateLimit.Errors.{
  Exceeded, Dependency, LimitReason, burst_limit_exceeded, request_budget_exceeded,
}

pub data DiagnosticRoute : Type 0 where
  unclassified publish_classic publish_game rendezvous_client rendezvous_server : DiagnosticRoute

pub data DiagnosticHandler : Type 0 where
  fetch publisher rendezvous_edge coordinator scheduled rendezvous : DiagnosticHandler

pub data UnexpectedErrorCode : Type 0 where
  request_control_dependency request_control_configuration source_tag_configuration :
      UnexpectedErrorCode
  maintenance_failure rendezvous_control_disconnected rendezvous_control_error : UnexpectedErrorCode
  rendezvous_handler_failure unhandled_exception : UnexpectedErrorCode

-- The lines that reach the console.
pub data LogLine : Type 0 where
  request_rejected : DiagnosticRoute → HttpErrorCode → ℕ → LogLine
  unexpected_error : DiagnosticHandler → UnexpectedErrorCode → Option Dependency → LogLine

-- What is thrown while a request is handled: a `RequestError` has its status, an `HttpError` is
-- what its constructor makes of the code and the options.
pub data Failure : Type 0 where
  budget_failure : Exceeded → Failure
  http_failure : HttpErrorCode → HttpErrorOptions → Failure
  unavailable_failure : Dependency → Failure
  control_configuration_failure tag_configuration_failure unknown_failure : Failure
  request_failure : ℕ → Failure

pub record Handled : Type 0 where
  pub logged : List LogLine
  pub response : HttpResponse

abbrev pub no_options : HttpErrorOptions
no_options = record { option_allow = []; option_reason = none; option_retry_after = undefined }

abbrev pub retry_in : ℕ → HttpErrorOptions
retry_in seconds = record {
  option_allow = [];
  option_reason = none;
  option_retry_after = whole seconds;
}

unfoldable pub request_error_code : ℕ → HttpErrorCode
request_error_code status =
    if status == 400
    then bad_request
    else if status == 401
    then unauthorized
    else if status == 403
    then forbidden
    else if status == 404
    then not_found
    else if status == 409
    then conflict
    else if status == 413
    then payload_too_large
    else internal_error

-- `requestErrorToHttpError`
unfoldable pub request_error_to_http_error : ℕ → HttpError
unfolding request_error_code
request_error_to_http_error status = new_http_error (request_error_code status) no_options

unfoldable pub by_reason :
    LimitReason → HttpRateLimitReason → HttpRateLimitReason → HttpRateLimitReason
by_reason burst_limit_exceeded burst daily = burst
by_reason request_budget_exceeded burst daily = daily

-- `rateLimitReason`; a scope that is none of the cases gives `undefined`.
unfoldable pub rate_limit_reason_of : Exceeded → Option HttpRateLimitReason
unfolding by_reason
rate_limit_reason_of e =
    if text_eq e.scope (codes "global")
    then some global_burst
    else if text_eq e.scope (codes "publish-server")
        || text_eq e.scope (codes "publish-game-server")
    then some (by_reason e.reason publish_burst publish_daily)
    else if text_eq e.scope (codes "rendezvous-client")
    then some rendezvous_client_burst
    else if text_eq e.scope (codes "rendezvous-server")
    then some (by_reason e.reason rendezvous_server_burst rendezvous_server_daily)
    else none

unfoldable pub is_not_found : HttpErrorCode → Bool
is_not_found not_found = true
is_not_found code = false

-- The codes whose rejection is not logged.
unfoldable pub is_quiet : HttpErrorCode → Bool
unfolding is_not_found is_rate_limited is_service_disabled
is_quiet code = is_not_found code || is_rate_limited code || is_service_disabled code

unfoldable pub log_request_rejected : DiagnosticRoute → HttpError → List LogLine
log_request_rejected route e = request_rejected route e.code e.error_status ∷ []

unfoldable pub log_unexpected_error :
    DiagnosticHandler → UnexpectedErrorCode → Option Dependency → List LogLine
log_unexpected_error handler code dependency = unexpected_error handler code dependency ∷ []

abbrev pub control_unavailable : HttpError
control_unavailable = new_http_error request_control_unavailable (retry_in 60)

abbrev pub handled : List LogLine → HttpError → Handled
handled lines e = record { logged = lines; response = http_error_response e }

abbrev pub budget_options : Exceeded → HttpErrorOptions
budget_options e = record {
  option_allow = [];
  option_reason = rate_limit_reason_of e;
  option_retry_after = whole e.retry_after_seconds;
}

unfoldable pub handle_request_error : Failure → DiagnosticRoute → DiagnosticHandler → Handled
unfolding request_error_to_http_error rate_limit_reason_of is_quiet log_request_rejected
    log_unexpected_error new_http_error http_error_response
handle_request_error (budget_failure e) route handler =
    handled [] (new_http_error rate_limited (budget_options e))
handle_request_error (http_failure code options) route handler =
    let e = new_http_error code options in
    handled (if is_quiet e.code then [] else log_request_rejected route e) e
handle_request_error (unavailable_failure dependency) route handler =
    handled (log_unexpected_error handler request_control_dependency (some dependency))
      control_unavailable
handle_request_error control_configuration_failure route handler =
    handled (log_unexpected_error handler request_control_configuration none) control_unavailable
handle_request_error tag_configuration_failure route handler =
    handled (log_unexpected_error handler source_tag_configuration none) control_unavailable
handle_request_error (request_failure status) route handler =
    let e = request_error_to_http_error status in handled (log_request_rejected route e) e
handle_request_error unknown_failure route handler =
    handled (log_unexpected_error handler unhandled_exception none)
      (new_http_error internal_error no_options)
