-- ===== src/Contract.antt =====
-- src/rendezvous-contract.ts: the limits of a signaling session, the ways in which it ends, and the
-- signals that peers exchange.
pub mod Signals
pub mod Tests
use metaserver_worker.Common.{ℕ, ◌+◌, ◌*◌, List, [], ◌∷◌, Text, codes}

abbrev pub max_signal_bytes : ℕ
max_signal_bytes = 512

abbrev pub max_client_candidates : ℕ
max_client_candidates = 1

abbrev pub max_server_candidates : ℕ
max_server_candidates = 12

abbrev pub max_completions : ℕ
max_completions = 1

abbrev pub max_client_authorization_frames : ℕ
max_client_authorization_frames = 2

abbrev pub max_server_authorization_frames : ℕ
max_server_authorization_frames = 2

abbrev pub max_authorization_signal_bytes : ℕ
max_authorization_signal_bytes =
    max_signal_bytes * (max_client_authorization_frames + max_server_authorization_frames)

abbrev pub max_rendezvous_client_sockets : ℕ
max_rendezvous_client_sockets = 64

abbrev pub max_rendezvous_session_signal_bytes : ℕ
max_rendezvous_session_signal_bytes =
    max_authorization_signal_bytes
    + max_signal_bytes * (max_client_candidates + max_server_candidates + max_completions)

abbrev pub terminal_close_retry_offsets_ms : List ℕ
terminal_close_retry_offsets_ms = 0 ∷ 1_000 ∷ 3_000 ∷ 7_000 ∷ []

abbrev pub max_terminal_close_attempts : ℕ
max_terminal_close_attempts = 4

abbrev pub terminal_close_retry_horizon_ms : ℕ
terminal_close_retry_horizon_ms = 7_000

-- A close code with its reason.
pub record Close : Type 0 where
  pub code : ℕ
  pub reason : Text

abbrev pub normal_close : Close
normal_close = record { code = 1000; reason = codes "Rendezvous complete" }

abbrev pub protocol_error_close : Close
protocol_error_close = record { code = 4000; reason = codes "Invalid rendezvous message" }

abbrev pub session_expired_close : Close
session_expired_close = record { code = 4001; reason = codes "Rendezvous session expired" }

abbrev pub server_unavailable_close : Close
server_unavailable_close = record { code = 4002; reason = codes "Rendezvous server unavailable" }

abbrev pub internal_error_close : Close
internal_error_close = record { code = 4003; reason = codes "Rendezvous internal error" }

abbrev pub server_replaced_close : Close
server_replaced_close = record { code = 4004; reason = codes "Rendezvous server replaced" }

abbrev pub authorization_failed_close : Close
authorization_failed_close = record {
  code = 4005;
  reason = codes "Rendezvous authorization failed";
}

pub data Outcome : Type 0 where
  completed client_disconnected session_expired protocol_error : Outcome
  server_unavailable server_replaced authorization_failed internal_error : Outcome

pub data CandidateKind : Type 0 where
  lan ipv6 mapped srflx : CandidateKind

pub data Signal : Type 0 where
  client_candidate : (host : Text) (port : ℕ) (ticket : Text) → Signal
  server_candidate : (host : Text) (port : ℕ) (kind : CandidateKind) (ticket : Text) → Signal
  complete : (ticket : Text) → Signal

abbrev pub ticket_of : Signal → Text
ticket_of (client_candidate host port ticket) = ticket
ticket_of (server_candidate host port kind ticket) = ticket
ticket_of (complete ticket) = ticket
