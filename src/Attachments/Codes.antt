-- ===== src/Attachments/Codes.antt =====
-- The numbers that stand for stages, authorizations and outcomes in a stored attachment.
use metaserver_worker.Contract.{Outcome}
use metaserver_worker.Js.{JsValue, is_number, is_bounded_integer, number_of}
use metaserver_worker.Attachments.{
  ClientStage, awaiting_candidate, candidate_exchange, AuthorizationState, not_required,
  awaiting_init,
}
use metaserver_worker.Common.{ℕ, Option, none, some, ◌==◌, if◌then◌else◌}

unfoldable pub encode_client_stage : ClientStage → ℕ
encode_client_stage awaiting_candidate = 0
encode_client_stage candidate_exchange = 1
encode_client_stage ClientStage.terminal = 2

unfoldable pub decode_client_stage : ℕ → ClientStage
decode_client_stage stage =
    if stage == 0
    then awaiting_candidate
    else if stage == 1
    then candidate_exchange
    else ClientStage.terminal

unfoldable pub encode_authorization_state : AuthorizationState → ℕ
encode_authorization_state not_required = 0
encode_authorization_state awaiting_init = 1
encode_authorization_state AuthorizationState.terminal = 6

unfoldable pub decode_authorization_state : JsValue → Option AuthorizationState
decode_authorization_state value =
    if is_number 0 value
    then some not_required
    else if is_number 1 value
    then some awaiting_init
    else if is_number 6 value
    then some AuthorizationState.terminal
    else none

-- The position in RENDEZVOUS_TERMINAL_OUTCOMES.
unfoldable pub encode_terminal_outcome : Outcome → ℕ
encode_terminal_outcome Outcome.completed = 0
encode_terminal_outcome Outcome.client_disconnected = 1
encode_terminal_outcome Outcome.session_expired = 2
encode_terminal_outcome Outcome.protocol_error = 3
encode_terminal_outcome Outcome.server_unavailable = 4
encode_terminal_outcome Outcome.server_replaced = 5
encode_terminal_outcome Outcome.authorization_failed = 6
encode_terminal_outcome Outcome.internal_error = 7

abbrev outcome_at : ℕ → Option Outcome
outcome_at n =
    if n == 0
    then some Outcome.completed
    else if n == 1
    then some Outcome.client_disconnected
    else if n == 2
    then some Outcome.session_expired
    else if n == 3
    then some Outcome.protocol_error
    else if n == 4
    then some Outcome.server_unavailable
    else if n == 5
    then some Outcome.server_replaced
    else if n == 6
    then some Outcome.authorization_failed
    else if n == 7
    then some Outcome.internal_error
    else none

unfoldable pub decode_terminal_outcome : JsValue → Option Outcome
decode_terminal_outcome value =
    if is_bounded_integer value 0 7 then outcome_at (number_of value) else none
