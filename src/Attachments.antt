-- ===== src/Attachments.antt =====
-- src/rendezvous-attachments.ts: what a room keeps on each hibernatable WebSocket.
pub mod Codes
pub mod Guards
pub mod Codec
pub mod ServerCodec
pub mod Valid
pub mod RoundTrip
pub mod ServerTrip
use metaserver_worker.Common.{ℕ, ◌*◌, Bool, Option, List, Text}
use metaserver_worker.Contract.{Outcome}

abbrev pub attachment_version : ℕ
attachment_version = 4

abbrev pub max_retained_tickets : ℕ
max_retained_tickets = 50

-- RENDEZVOUS_POLICY_MAXIMUMS.rendezvousClientSessionSeconds of src/config.ts is 15.
abbrev pub max_session_ms : ℕ
max_session_ms = 15 * 1_000

pub data ClientStage : Type 0 where
  awaiting_candidate candidate_exchange terminal : ClientStage

pub data TicketStage : Type 0 where
  active terminal : TicketStage

pub data AuthorizationState : Type 0 where
  not_required awaiting_init terminal : AuthorizationState

-- An absent optional field reads as null: the encoder writes `?? null`.
pub record ClientAttachment : Type 0 where
  pub control_id : Text
  pub generation : Text
  pub connection_id : Text
  pub admission_id : ℕ
  pub opened_at : ℕ
  pub expires_at : ℕ
  pub bound_ticket_hash : Option Text
  pub access_client_nonce : Option Text
  pub access_expires_at : Option ℕ
  pub access_grant : Option Text
  pub access_redemption : Option Text
  pub ticket : Option Text
  pub ticket_digest : Option Text
  pub stage : ClientStage
  pub authorization : AuthorizationState
  pub client_authorization_frames : ℕ
  pub server_authorization_frames : ℕ
  pub client_candidates : ℕ
  pub server_candidates : ℕ
  pub completion_count : ℕ
  pub signal_bytes : ℕ
  pub frames_forwarded : ℕ
  pub summary_emitted : Bool
  pub terminal_outcome : Option Outcome
  pub terminal_close_attempts : ℕ

-- The one authorization state of a ticket is "not_required".
pub record TicketState : Type 0 where
  pub ticket_digest : Text
  pub client_connection_id : Text
  pub opened_at : ℕ
  pub expires_at : ℕ
  pub stage : TicketStage
  pub client_authorization_frames : ℕ
  pub server_authorization_frames : ℕ
  pub server_candidates : ℕ
  pub completion_count : ℕ
  pub signal_bytes : ℕ

pub record ServerAttachment : Type 0 where
  pub current : Bool
  pub access_protocol : Bool
  pub control_id : Text
  pub generation : Text
  pub opened_at : ℕ
  pub tickets : List TicketState

pub data Attachment : Type 0 where
  client : ClientAttachment → Attachment
  server : ServerAttachment → Attachment
