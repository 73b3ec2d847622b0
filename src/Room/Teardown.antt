-- ===== src/Room/Teardown.antt =====
-- How a room ends a client or a server: transitionClientTerminal, failClient, failServer and what
-- they call. A RendezvousTeardownIntegrityError is the answer false.
pub mod Steps
pub mod Summary
pub mod Persist
pub mod Closing
pub mod Cases
pub mod Retire
pub mod Once
use metaserver_worker.Attachments.{
  Attachment, client, server, ClientAttachment, ClientStage, AuthorizationState, ServerAttachment,
  TicketState, TicketStage, active,
}
use metaserver_worker.Contract.{Close, Outcome, internal_error_close, max_rendezvous_client_sockets}
use metaserver_worker.Room.State.{
  Room, Environment, SocketId, Metric, put, read_client_attachment, read_server_attachment,
  try_write_attachment, close_socket, difference,
}
use metaserver_worker.Room.Rules.{remember_bounded, rendezvous_close_for_outcome}
use metaserver_worker.Common.{
  ◌>>=◌, ℕ, ◌+◌, Bool, true, false, not, ◌&&◌, ◌||◌, Option, none, some, List, [], ◌∷◌, Text,
  text_eq, any, is_none, is_some, if◌then◌else◌, ◌*◌,
}

abbrev pub max_ephemeral_connection_ids : ℕ
max_ephemeral_connection_ids = (max_rendezvous_client_sockets + 1) * 2

abbrev pub is_terminal : ClientStage → Bool
is_terminal ClientStage.terminal = true
is_terminal _ = false

abbrev pub or_else {ℓ} : {A : Type ℓ} → Option A → A → A
or_else none b = b
or_else (some a) b = a

-- The first ticket that fits, marked; nothing where there is none or it is marked already.
unfoldable pub mark_first : (TicketState → Bool) → List TicketState → Option (List TicketState)
mark_first fits [] = none
mark_first fits (t ∷ ts) =
    let rest = mark_first fits ts in
    if fits t
    then elim t.stage [
      | active ↦ some (record t { stage = TicketStage.terminal } ∷ ts)
      | TicketStage.terminal ↦ none
    ]
    else elim rest [ none ↦ none | some marked ↦ some (t ∷ marked) ]

-- The server attachment with the client's ticket marked, where there is one to mark.
unfoldable pub marked_server : Room → ClientAttachment → Text → SocketId → Option ServerAttachment
unfolding mark_first
marked_server room a digest s = do
  own ← read_server_attachment room s
  tickets ←
      if text_eq own.control_id a.control_id && text_eq own.generation a.generation
      then mark_first
          (λ t. text_eq t.ticket_digest digest && text_eq t.client_connection_id a.connection_id)
          own.tickets
      else none
  some (record own { tickets = tickets })

unfoldable pub write_marked : Environment → Room → SocketId → Option ServerAttachment → Room
write_marked env room s none = room
write_marked env room s (some own) = (try_write_attachment env room s (server own)).0

-- One turn of the loop in markTicketTerminal.
unfoldable pub mark_ticket_on : Environment → ClientAttachment → Text → Room → SocketId → Room
unfolding write_marked marked_server
mark_ticket_on env a digest room s = write_marked env room s (marked_server room a digest s)

unfoldable pub mark_tickets_on : Environment → ClientAttachment → Text → List SocketId → Room → Room
unfolding mark_ticket_on
mark_tickets_on env a digest [] room = room
mark_tickets_on env a digest (s ∷ ss) room =
    mark_tickets_on env a digest ss (mark_ticket_on env a digest room s)

unfoldable pub mark_ticket_terminal : Environment → Room → ClientAttachment → Room
unfolding mark_tickets_on
mark_ticket_terminal env room a = elim a.ticket_digest [
  | none ↦ room
  | some digest ↦ mark_tickets_on env a digest room.server_sockets room
]

-- The fields that transitionClientTerminal sets.
unfoldable pub ended_client : ClientAttachment → Outcome → ClientAttachment
ended_client a outcome = record a {
  stage = ClientStage.terminal;
  authorization = AuthorizationState.terminal;
  ticket = none;
  ticket_digest = none;
  bound_ticket_hash = none;
  access_client_nonce = none;
  access_expires_at = none;
  access_grant = none;
  access_redemption = none;
  terminal_outcome = some outcome;
  terminal_close_attempts = 0;
}

unfoldable pub transition_client_terminal :
    Environment → Room → ClientAttachment → Outcome → Room × ClientAttachment
unfolding mark_ticket_terminal ended_client
transition_client_terminal env room a outcome =
    if is_terminal a.stage
    then (room, a)
    else (mark_ticket_terminal env room a, ended_client a outcome)

-- The metric row is handed to terminalMetricWriter, and its outcome to healthObservationWriter:
-- whether either of them throws changes nothing here.
unfoldable pub metric_of : Environment → Room → ClientAttachment → Outcome → Metric
metric_of env room a outcome = record {
  connection_id = a.connection_id;
  outcome = outcome;
  client_frames_accepted = a.client_authorization_frames + a.client_candidates;
  server_frames_matched = a.server_authorization_frames + a.server_candidates + a.completion_count;
  frames_forwarded = a.frames_forwarded;
  signal_bytes = a.signal_bytes;
  duration_ms = difference (env.clock room.calls) a.opened_at;
}

abbrev pub summarized : Room → ClientAttachment → Bool
summarized room a = a.summary_emitted || any (text_eq a.connection_id) room.finalized_connections

unfoldable pub emit_terminal_metric :
    Environment → Room → SocketId → ClientAttachment → Outcome → Room × Bool
unfolding metric_of
emit_terminal_metric env room s a outcome =
    let written = try_write_attachment env room s (client (record a { summary_emitted = true })) in
    let next = written.0 in
    if summarized room a
    then (room, true)
    else if written.1
    then (
      record next {
        finalized_connections =
            remember_bounded next.finalized_connections a.connection_id
              max_ephemeral_connection_ids;
        metrics = metric_of env next a outcome ∷ next.metrics;
      },
      true,
    )
    else (next, false)

unfoldable pub emit_own_metric : Environment → Room → SocketId → ClientAttachment → Room × Bool
unfolding emit_terminal_metric
emit_own_metric env room s ended = elim ended.terminal_outcome [
  | none ↦ (room, false)
  | some own ↦ emit_terminal_metric env room s ended own
]

-- The part of failClient that writes: the room after it, and whether an end of the client is kept.
unfoldable pub persist_end : Environment → Room → SocketId → ClientAttachment → Bool → Room × Bool
unfolding emit_own_metric
persist_end env room s ended already =
    let written =
      if already then (room, true) else try_write_attachment env room s (client ended) in
    let summary = emit_own_metric env written.0 s ended in (summary.0, written.1 || summary.1)

-- The part of failClient that follows: a pending outcome is forgotten once an end is kept.
unfoldable pub forget_and_close : Environment → SocketId → Room × Bool → Close → Room × Bool
forget_and_close env s kept close =
    let settled =
      if kept.1
      then record kept.0 { pending_client_outcome = put s none (kept.0).pending_client_outcome }
      else kept.0 in
    let closing = close_socket env settled s close in (closing.0, kept.1 || closing.1)

unfoldable pub fail_client :
    Environment → Room → SocketId → ClientAttachment → Outcome → Close → Room × Bool
unfolding transition_client_terminal persist_end forget_and_close
fail_client env room s a outcome close =
    let pending = room.pending_client_outcome s in
    let canonical = or_else a.terminal_outcome (or_else pending outcome) in
    let canonical_close =
      if is_none pending then close else rendezvous_close_for_outcome canonical in
    let noted = record room {
      pending_client_outcome = put s (some canonical) room.pending_client_outcome;
    } in
    let ending = transition_client_terminal env noted a canonical in
    let kept = persist_end env ending.0 s ending.1 (is_terminal a.stage && is_none pending) in
    forget_and_close env s kept canonical_close

unfoldable pub close_client : Environment → Room → SocketId → Outcome → Close → Room × Bool
unfolding fail_client
close_client env room s outcome close = elim (read_client_attachment room s) [
  | none ↦ close_socket env room s internal_error_close
  | some a ↦ fail_client env room s a outcome close
]

-- closeAllClients: whether every teardown completed.
unfoldable pub close_each : Environment → List SocketId → Room → Outcome → Close → Room × Bool
unfolding close_client
close_each env [] room outcome close = (room, true)
close_each env (s ∷ ss) room outcome close =
    let this = close_client env room s outcome close in
    let others = close_each env ss this.0 outcome close in (others.0, this.1 && others.1)

unfoldable pub close_all_clients : Environment → Room → Outcome → Close → Room × Bool
unfolding close_each
close_all_clients env room outcome close = close_each env room.client_sockets room outcome close

unfoldable pub fail_server :
    Environment → Room → SocketId → ServerAttachment → Outcome → Close → Room × Bool
unfolding close_all_clients
fail_server env room s a outcome close =
    let pending = room.pending_server_outcome s in
    let canonical = or_else pending outcome in
    let canonical_close =
      if is_none pending then close else rendezvous_close_for_outcome canonical in
    let noted = record room {
      pending_server_outcome = put s (some canonical) room.pending_server_outcome;
      inactive_controls =
          if a.current
          then remember_bounded room.inactive_controls a.control_id max_ephemeral_connection_ids
          else room.inactive_controls;
    } in
    let retired = record a { current = false } in
    let owns_clients = a.current || is_some pending in
    let written =
      if owns_clients then try_write_attachment env noted s (server retired) else (noted, true) in
    let clients =
      if owns_clients
      then close_all_clients env written.0 canonical canonical_close
      else (written.0, true) in
    let closing = close_socket env clients.0 s canonical_close in
    let settled = closing.0 in
    let done = written.1 || closing.1 in
    (
      if done
          then record settled { pending_server_outcome = put s none settled.pending_server_outcome }
          else settled,
      clients.1 && done,
    )
