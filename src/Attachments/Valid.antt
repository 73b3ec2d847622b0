-- ===== src/Attachments/Valid.antt =====
-- What a room may keep on a socket: the attachments that its own reader accepts.
use metaserver_worker.Contract.{
  Outcome, max_server_candidates, max_rendezvous_session_signal_bytes, max_terminal_close_attempts,
  terminal_close_retry_horizon_ms,
}
use metaserver_worker.Js.{is_uuid}
use metaserver_worker.Attachments.{
  max_retained_tickets, max_session_ms, ClientStage, awaiting_candidate, candidate_exchange, active,
  AuthorizationState, not_required, ClientAttachment, TicketState, ServerAttachment,
}
use metaserver_worker.Attachments.ServerCodec.{all_distinct, digests, connections}
use metaserver_worker.Common.{
  ℕ, ◌+◌, ◌≤◌, ◌<◌, ◌≡◌, true, none, some, Text, is_hex, length, All, max_safe_integer, ◌≢◌, ◌↔◌,
}

abbrev pub IsHex64 : Text → Type 0
IsHex64 t = is_hex 64 t ≡ true

-- Either no part of a grant is kept, or all are, with an expiry inside the longest session.
pub data HasGrant (a : ClientAttachment) : Type 0 where
  no_grant :
      a.access_grant ≡ none
      → a.access_redemption ≡ none
      → a.access_client_nonce ≡ none
      → a.access_expires_at ≡ none
      → HasGrant a
  granted :
      {grant redemption nonce : Text} {expires : ℕ}
      → a.access_grant ≡ some grant
      → a.access_redemption ≡ some redemption
      → a.access_client_nonce ≡ some nonce
      → a.access_expires_at ≡ some expires
      → IsHex64 grant
      → IsHex64 redemption
      → IsHex64 nonce
      → expires ≤ max_safe_integer
      → a.opened_at < expires
      → expires ≤ a.opened_at + max_session_ms
      → HasGrant a

-- The stage decides which secrets, counters and outcome an attachment has.
pub data HasStage (a : ClientAttachment) : Type 0 where
  waiting :
      {hash : Text}
      → a.stage ≡ awaiting_candidate
      → a.authorization ≢ AuthorizationState.terminal
      → HasGrant a
      → a.bound_ticket_hash ≡ some hash
      → IsHex64 hash
      → a.ticket ≡ none
      → a.ticket_digest ≡ none
      → a.client_candidates ≡ 0
      → a.server_candidates ≡ 0
      → a.completion_count ≡ 0
      → a.terminal_outcome ≡ none
      → a.terminal_close_attempts ≡ 0
      → HasStage a
  exchanging :
      {hash ticket digest : Text}
      → a.stage ≡ candidate_exchange
      → a.authorization ≡ not_required
      → HasGrant a
      → a.bound_ticket_hash ≡ some hash
      → IsHex64 hash
      → a.ticket ≡ some ticket
      → IsHex64 ticket
      → a.ticket_digest ≡ some digest
      → IsHex64 digest
      → a.client_candidates ≡ 1
      → a.server_candidates ≤ max_server_candidates
      → a.completion_count ≡ 0
      → a.terminal_outcome ≡ none
      → a.terminal_close_attempts ≡ 0
      → HasStage a
  ended :
      {outcome : Outcome}
      → a.stage ≡ ClientStage.terminal
      → a.authorization ≡ AuthorizationState.terminal
      → a.access_grant ≡ none
      → a.access_redemption ≡ none
      → a.access_client_nonce ≡ none
      → a.access_expires_at ≡ none
      → a.bound_ticket_hash ≡ none
      → a.ticket ≡ none
      → a.ticket_digest ≡ none
      → a.client_candidates ≤ 1
      → a.server_candidates ≤ max_server_candidates
      → a.completion_count ≤ 1
      → a.terminal_outcome ≡ some outcome
      → a.terminal_close_attempts ≤ max_terminal_close_attempts
      → HasStage a

pub record IsClient (a : ClientAttachment) : Type 0 where
  pub control : is_uuid a.control_id ≡ true
  pub generated : IsHex64 a.generation
  pub connected : is_uuid a.connection_id ≡ true
  pub admitted : 1 ≤ a.admission_id
  pub admission_safe : a.admission_id ≤ max_safe_integer
  pub opened_before : a.opened_at < a.expires_at
  pub short : a.expires_at ≤ a.opened_at + max_session_ms
  pub safe : a.expires_at + terminal_close_retry_horizon_ms ≤ max_safe_integer
  pub no_client_authorization : a.client_authorization_frames ≡ 0
  pub no_server_authorization : a.server_authorization_frames ≡ 0
  pub bytes_bounded : a.signal_bytes ≤ max_rendezvous_session_signal_bytes
  pub forwarded_bounded :
      a.frames_forwarded ≤ a.client_candidates + a.server_candidates + a.completion_count
  pub bytes_iff :
      (a.signal_bytes ≡ 0) ↔ (a.client_candidates + a.server_candidates + a.completion_count ≡ 0)
  pub staged : HasStage a

pub record IsTicket (t : TicketState) : Type 0 where
  pub digest : IsHex64 t.ticket_digest
  pub connected : is_uuid t.client_connection_id ≡ true
  pub opened_before : t.opened_at < t.expires_at
  pub short : t.expires_at ≤ t.opened_at + max_session_ms
  pub safe : t.expires_at ≤ max_safe_integer
  pub candidates_bounded : t.server_candidates ≤ max_server_candidates
  pub completions_bounded : t.completion_count ≤ 1
  pub completed_last : t.stage ≡ active → t.completion_count ≡ 0
  pub no_client_authorization : t.client_authorization_frames ≡ 0
  pub no_server_authorization : t.server_authorization_frames ≡ 0
  pub bytes_positive : 1 ≤ t.signal_bytes
  pub bytes_bounded : t.signal_bytes ≤ max_rendezvous_session_signal_bytes

pub record IsServer (a : ServerAttachment) : Type 0 where
  pub control : is_uuid a.control_id ≡ true
  pub generated : IsHex64 a.generation
  pub opened_safe : a.opened_at ≤ max_safe_integer
  pub few : length a.tickets ≤ max_retained_tickets
  pub digests_distinct : all_distinct (digests a.tickets) ≡ true
  pub connections_distinct : all_distinct (connections a.tickets) ≡ true
  pub ticketed : All IsTicket a.tickets
