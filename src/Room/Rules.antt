-- ===== src/Room/Rules.antt =====
-- The pure helpers at the end of src/rendezvous-room.ts.
pub mod Budget
pub mod Memory
use metaserver_worker.Attachments.{ClientAttachment, TicketState, ServerAttachment, ClientStage}
use metaserver_worker.Contract.{
  Close, Outcome, Signal, server_candidate, complete, client_candidate, max_server_candidates,
  max_completions, max_rendezvous_session_signal_bytes, max_terminal_close_attempts,
  terminal_close_retry_offsets_ms, normal_close, protocol_error_close, session_expired_close,
  server_unavailable_close, internal_error_close, server_replaced_close, authorization_failed_close,
}
use metaserver_worker.Common.{
  ℕ, ◌+◌, Bool, true, false, not, ◌&&◌, Option, none, some, List, [], ◌∷◌, ◌++◌, ltb, leb, ◌==◌,
  if◌then◌else◌, length, keep, any, Text, text_eq, text_lt, min, zero, suc, ◌||◌,
}

-- A server's signal on a ticket.
pub data ServerFrame : Type 0 where
  candidate completion : ServerFrame

-- applyServerFrameBudget: the ticket after it, where the frame fits.
unfoldable pub apply_server_frame_budget : TicketState → ServerFrame → ℕ → Option TicketState
apply_server_frame_budget ticket candidate bytes =
    if ltb max_rendezvous_session_signal_bytes (ticket.signal_bytes + bytes)
      || leb max_server_candidates ticket.server_candidates
    then none
    else some (record ticket {
      server_candidates = ticket.server_candidates + 1;
      signal_bytes = ticket.signal_bytes + bytes;
    })
apply_server_frame_budget ticket completion bytes =
    if ltb max_rendezvous_session_signal_bytes (ticket.signal_bytes + bytes)
      || leb max_completions ticket.completion_count
    then none
    else some (record ticket {
      completion_count = ticket.completion_count + 1;
      signal_bytes = ticket.signal_bytes + bytes;
    })

unfoldable pub copy_ticket_budget_to_client : ClientAttachment → TicketState → ClientAttachment
copy_ticket_budget_to_client client ticket = record client {
  client_authorization_frames = ticket.client_authorization_frames;
  server_authorization_frames = ticket.server_authorization_frames;
  server_candidates = ticket.server_candidates;
  completion_count = ticket.completion_count;
  signal_bytes = ticket.signal_bytes;
}

-- pruneTicketList: the list after it, and whether it changed.
unfoldable pub prune_ticket_list : ServerAttachment → ℕ → ServerAttachment × Bool
prune_ticket_list server now =
    let retained = keep (λ t. ltb now t.expires_at) server.tickets in
    if length retained == length server.tickets
    then (server, false)
    else (record server { tickets = retained }, true)

abbrev pub nth : List ℕ → ℕ → Option ℕ
nth [] i = none
nth (x ∷ xs) zero = some x
nth (x ∷ xs) (suc i) = nth xs i

unfoldable pub terminal_close_attempt_at : ClientAttachment → Option ℕ
terminal_close_attempt_at client =
    if leb max_terminal_close_attempts client.terminal_close_attempts
    then none
    else elim (nth terminal_close_retry_offsets_ms client.terminal_close_attempts) [
      | none ↦ none
      | some offset ↦ some (client.expires_at + offset)
    ]

unfoldable pub rendezvous_close_for_outcome : Outcome → Close
rendezvous_close_for_outcome Outcome.completed = normal_close
rendezvous_close_for_outcome Outcome.client_disconnected = normal_close
rendezvous_close_for_outcome Outcome.session_expired = session_expired_close
rendezvous_close_for_outcome Outcome.protocol_error = protocol_error_close
rendezvous_close_for_outcome Outcome.server_unavailable = server_unavailable_close
rendezvous_close_for_outcome Outcome.server_replaced = server_replaced_close
rendezvous_close_for_outcome Outcome.authorization_failed = authorization_failed_close
rendezvous_close_for_outcome Outcome.internal_error = internal_error_close

abbrev pub close_outcomes : List Outcome
close_outcomes =
    Outcome.completed ∷ Outcome.session_expired ∷ Outcome.protocol_error
    ∷ Outcome.server_unavailable ∷ Outcome.server_replaced ∷ Outcome.authorization_failed
    ∷ Outcome.internal_error ∷ []

unfoldable pub first_outcome : Close → List Outcome → Option Outcome
first_outcome close [] = none
first_outcome close (o ∷ os) =
    let own = rendezvous_close_for_outcome o in
    if (own.code == close.code) && text_eq own.reason close.reason
    then some o
    else first_outcome close os

unfoldable pub rendezvous_outcome_for_close : Close → Option Outcome
unfolding first_outcome rendezvous_close_for_outcome
rendezvous_outcome_for_close close = first_outcome close close_outcomes

-- `while (values.size >= maximum)`: the oldest stands first.
unfoldable pub evict : ℕ → List Text → List Text
evict maximum [] = []
evict maximum (v ∷ vs) =
    let rest = evict maximum vs in if leb maximum (length (v ∷ vs)) then rest else v ∷ vs

-- rememberBounded on an insertion-ordered set.
unfoldable pub remember_bounded : List Text → Text → ℕ → List Text
unfolding evict
remember_bounded values value maximum =
    if any (text_eq value) values then values else evict maximum values ++ (value ∷ [])

-- compareActiveServersNewestFirst: whether the left control is to come first.
unfoldable pub newer_server : ServerAttachment → ServerAttachment → Bool
newer_server left right =
    if left.opened_at == right.opened_at
    then text_lt right.control_id left.control_id
    else ltb right.opened_at left.opened_at

unfoldable pub earlier : Option ℕ → ℕ → ℕ
earlier none other = other
earlier (some current) other = min current other
