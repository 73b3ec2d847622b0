-- ===== src/Http.antt =====
-- The public errors of src/http.ts and the responses that carry them.
pub mod Requests
pub mod Answers
pub mod Handled
pub mod Tests
use metaserver_worker.Common.Results.{Result, require}
use metaserver_worker.Common.{
  ℕ, ◌+◌, Bool, true, false, ◌&&◌, Option, none, some, List, [], ◌∷◌, ◌++◌, if◌then◌else◌, any,
  keep, Text, codes, is_some, min, max, ◌||◌, text_eq,
}

pub data HttpErrorCode : Type 0 where
  ambiguous_header bad_request body_required invalid_server_id invalid_target unexpected_body :
      HttpErrorCode
  unexpected_query unauthorized forbidden not_found method_not_allowed conflict : HttpErrorCode
  payload_too_large unsupported_media_type misdirected_request rate_limited : HttpErrorCode
  upgrade_required service_disabled request_control_unavailable internal_error : HttpErrorCode

pub data AllowedMethod : Type 0 where
  get_method head_method post_method : AllowedMethod

pub data HttpRateLimitReason : Type 0 where
  global_burst rendezvous_client_burst rendezvous_server_burst : HttpRateLimitReason
  rendezvous_server_daily publish_burst publish_daily http_budget_exceeded : HttpRateLimitReason

-- The statuses of `HTTP_ERROR_DEFINITIONS`.
unfoldable pub status_of : HttpErrorCode → ℕ
status_of ambiguous_header = 400
status_of bad_request = 400
status_of body_required = 400
status_of invalid_server_id = 400
status_of invalid_target = 400
status_of unexpected_body = 400
status_of unexpected_query = 400
status_of unauthorized = 401
status_of forbidden = 403
status_of not_found = 404
status_of method_not_allowed = 405
status_of conflict = 409
status_of payload_too_large = 413
status_of unsupported_media_type = 415
status_of misdirected_request = 421
status_of rate_limited = 429
status_of upgrade_required = 426
status_of service_disabled = 503
status_of request_control_unavailable = 503
status_of internal_error = 500

-- The messages of `HTTP_ERROR_DEFINITIONS`.
unfoldable pub message_of : HttpErrorCode → Text
message_of ambiguous_header = codes "A security-critical request header is ambiguous."
message_of bad_request = codes "The request is invalid."
message_of body_required = codes "A request body is required."
message_of invalid_server_id = codes "The server ID is invalid."
message_of invalid_target = codes "The request target is invalid."
message_of unexpected_body = codes "A request body is not allowed."
message_of unexpected_query = codes "The request query is invalid."
message_of unauthorized = codes "Authentication failed."
message_of forbidden = codes "The request is forbidden."
message_of not_found = codes "The requested resource does not exist."
message_of method_not_allowed = codes "The request method is not allowed."
message_of conflict = codes "The request conflicts with existing state."
message_of payload_too_large = codes "The request body is too large."
message_of unsupported_media_type = codes "The request content type is not supported."
message_of misdirected_request = codes "The request authority is not served here."
message_of rate_limited = codes "The request budget has been exhausted."
message_of upgrade_required = codes "A WebSocket upgrade is required."
message_of service_disabled = codes "This service is temporarily unavailable."
message_of request_control_unavailable = codes "Request admission is temporarily unavailable."
message_of internal_error = codes "An internal error occurred."

-- A number of JavaScript, as far as a delay reads it: `above n` lies strictly between `n` and `n + 1`.
pub data Amount : Type 0 where
  undefined not_finite negative : Amount
  whole above : ℕ → Amount

-- `boundedRetryAfter`
unfoldable pub bounded_http_retry_after : Amount → ℕ
bounded_http_retry_after undefined = 60
bounded_http_retry_after not_finite = 60
bounded_http_retry_after negative = min 86_400 1
bounded_http_retry_after (whole n) = min 86_400 (max 1 n)
bounded_http_retry_after (above n) = min 86_400 (max 1 (n + 1))

unfoldable pub is_rate_limited : HttpErrorCode → Bool
is_rate_limited rate_limited = true
is_rate_limited code = false

unfoldable pub is_service_disabled : HttpErrorCode → Bool
is_service_disabled service_disabled = true
is_service_disabled code = false

unfoldable pub is_control_unavailable : HttpErrorCode → Bool
is_control_unavailable request_control_unavailable = true
is_control_unavailable code = false

unfoldable pub is_upgrade_required : HttpErrorCode → Bool
is_upgrade_required upgrade_required = true
is_upgrade_required code = false

unfoldable pub should_include_retry_after : HttpErrorCode → Bool
unfolding is_rate_limited is_service_disabled is_control_unavailable
should_include_retry_after code =
    is_rate_limited code || is_service_disabled code || is_control_unavailable code

unfoldable pub same_method : AllowedMethod → AllowedMethod → Bool
same_method get_method get_method = true
same_method head_method head_method = true
same_method post_method post_method = true
same_method one other = false

-- `normalizeAllowedMethods`
unfoldable pub normalize_allowed_methods : List AllowedMethod → List AllowedMethod
unfolding same_method
normalize_allowed_methods methods =
    keep (λ method. any (same_method method) methods) (get_method ∷ head_method ∷ post_method ∷ [])

pub record HttpErrorOptions : Type 0 where
  pub option_allow : List AllowedMethod
  pub option_reason : Option HttpRateLimitReason
  pub option_retry_after : Amount

pub record HttpError : Type 0 where
  pub code : HttpErrorCode
  pub error_status : ℕ
  pub error_message : Text
  pub allow : List AllowedMethod
  pub rate_limit_reason : Option HttpRateLimitReason
  pub error_retry_after : Option ℕ

unfoldable pub or_budget_exceeded : Option HttpRateLimitReason → HttpRateLimitReason
or_budget_exceeded none = http_budget_exceeded
or_budget_exceeded (some reason) = reason

unfoldable pub allowed_methods : HttpErrorCode → List AllowedMethod → List AllowedMethod
unfolding normalize_allowed_methods
allowed_methods method_not_allowed methods = normalize_allowed_methods methods
allowed_methods code methods = []

-- The constructor of `HttpError`.
unfoldable pub new_http_error : HttpErrorCode → HttpErrorOptions → HttpError
unfolding status_of message_of allowed_methods is_rate_limited or_budget_exceeded
    should_include_retry_after bounded_http_retry_after
new_http_error c options = record {
  code = c;
  error_status = status_of c;
  error_message = message_of c;
  allow = allowed_methods c options.option_allow;
  rate_limit_reason =
      if is_rate_limited c then some (or_budget_exceeded options.option_reason) else none;
  error_retry_after =
      if should_include_retry_after c
      then some (bounded_http_retry_after options.option_retry_after)
      else none;
}

pub data Header : Type 0 where
  no_store json_content nosniff upgrade_websocket : Header
  allow_header : List AllowedMethod → Header
  retry_after_header : ℕ → Header

pub record HttpErrorBody : Type 0 where
  pub body_code : HttpErrorCode
  pub body_message : Text
  pub body_reason : Option HttpRateLimitReason
  pub body_retry_after : Option ℕ

pub record HttpResponse : Type 0 where
  pub response_status : ℕ
  pub headers : List Header
  pub body : HttpErrorBody

unfoldable pub allow_headers : List AllowedMethod → List Header
allow_headers [] = []
allow_headers (m ∷ ms) = allow_header (m ∷ ms) ∷ []

unfoldable pub retry_headers : Option ℕ → List Header
retry_headers none = []
retry_headers (some seconds) = retry_after_header seconds ∷ []

unfoldable pub upgrade_headers : HttpErrorCode → List Header
unfolding is_upgrade_required
upgrade_headers code = if is_upgrade_required code then upgrade_websocket ∷ [] else []

-- The body names a reason and a delay where the error has both.
unfoldable pub error_body : HttpError → HttpErrorBody
error_body e =
    let both = is_some e.rate_limit_reason && is_some e.error_retry_after in
    record {
      body_code = e.code;
      body_message = e.error_message;
      body_reason = if both then e.rate_limit_reason else none;
      body_retry_after = if both then e.error_retry_after else none;
    }

unfoldable pub http_error_response : HttpError → HttpResponse
unfolding allow_headers retry_headers upgrade_headers error_body
http_error_response e = record {
  response_status = e.error_status;
  headers =
      no_store
      ∷ json_content
      ∷ nosniff
      ∷ (allow_headers e.allow ++ (retry_headers e.error_retry_after ++ upgrade_headers e.code));
  body = error_body e;
}

unfoldable pub circuit_breaker_enabled : Option Text → Bool
circuit_breaker_enabled none = false
circuit_breaker_enabled (some value) = text_eq value (codes "enabled")

-- A call without a delay passes `whole 60`.
unfoldable pub enforce_circuit_breaker : Option Text → Amount → Result HttpError (Unit {0})
unfolding circuit_breaker_enabled new_http_error
enforce_circuit_breaker value seconds = require (circuit_breaker_enabled value) (
    new_http_error service_disabled
      (record { option_allow = []; option_reason = none; option_retry_after = seconds }))
