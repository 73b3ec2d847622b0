-- ===== src/Room/Alarms.antt =====
-- What a room does when its alarm rings, and when it wants it to ring next: expireClients,
-- retryPendingServerTeardowns, failProtocolViolation, countActiveClients, scheduleNextAlarm.
pub mod Due
pub mod Awaited
pub mod Retries
pub mod Reasons
use metaserver_worker.Attachments.{
  Attachment, client, server, ClientAttachment, ServerAttachment, TicketState,
}
use metaserver_worker.Contract.{
  Outcome, internal_error_close, session_expired_close, protocol_error_close,
}
use metaserver_worker.Room.State.{
  Room, Environment, SocketId, put, read_attachment, read_client_attachment, read_server_attachment,
  try_write_attachment, close_socket,
}
use metaserver_worker.Room.Rules.{rendezvous_close_for_outcome, terminal_close_attempt_at, earlier}
use metaserver_worker.Room.Teardown.{is_terminal, fail_client, fail_server, close_all_clients}
use metaserver_worker.Common.{
  ℕ, ◌+◌, Bool, true, false, not, ◌&&◌, ◌||◌, Option, none, some, List, [], ◌∷◌, Text, text_eq, any,
  ltb, leb, max, if◌then◌else◌, ◌==◌,
}

-- One client past its expiry, with nothing pending.
unfoldable pub expire_client : Environment → Room → SocketId → ClientAttachment → ℕ → Room × Bool
expire_client env room s a now =
    let counted = record a { terminal_close_attempts = a.terminal_close_attempts + 1 } in
    let written = try_write_attachment env room s (client counted) in
    let closing = close_socket env written.0 s internal_error_close in
    if leb a.expires_at now
    then (if is_terminal a.stage
        then elim (terminal_close_attempt_at a) [
          | none ↦ (room, true)
          | some at ↦ if leb at now then (closing.0, written.1 || closing.1) else (room, true)
        ]
        else fail_client env room s a Outcome.session_expired session_expired_close)
    else (room, true)

-- One turn of the loop in expireClients; false where it raises an integrity error.
unfoldable pub expire_socket : Environment → Room → SocketId → ℕ → Room × Bool
unfolding expire_client
expire_socket env room s now = elim (read_client_attachment room s) [
  | none ↦ close_socket env room s internal_error_close
  | some a ↦ elim (room.pending_client_outcome s) [
    | some o ↦ fail_client env room s a o (rendezvous_close_for_outcome o)
    | none ↦ expire_client env room s a now
  ]
]

unfoldable pub expire_each : Environment → List SocketId → Room → ℕ → Room × Bool
unfolding expire_socket
expire_each env [] room now = (room, true)
expire_each env (s ∷ ss) room now =
    let this = expire_socket env room s now in
    let others = expire_each env ss this.0 now in (others.0, this.1 && others.1)

-- expireClients: every client is visited, also after an error.
unfoldable pub expire_clients : Environment → Room → ℕ → Room × Bool
unfolding expire_each
expire_clients env room now = expire_each env room.client_sockets room now

-- One server whose teardown is pending.
unfoldable pub retry_server : Environment → Room → SocketId → Outcome → Room × Bool
retry_server env room s o = elim (read_server_attachment room s) [
  | some a ↦ fail_server env room s a o (rendezvous_close_for_outcome o)
  | none ↦
      let closing = close_socket env room s internal_error_close in
      let next = closing.0 in
      (
        if closing.1
            then record next { pending_server_outcome = put s none next.pending_server_outcome }
            else next,
        closing.1,
      )
]

unfoldable pub retry_each : Environment → List SocketId → Room → Room × Bool
unfolding retry_server
retry_each env [] room = (room, true)
retry_each env (s ∷ ss) room = elim (room.pending_server_outcome s) [
  | none ↦ retry_each env ss room
  | some o ↦
      let this = retry_server env room s o in
      let others = retry_each env ss this.0 in (others.0, this.1 && others.1)
]

unfoldable pub retry_pending_server_teardowns : Environment → Room → Room × Bool
unfolding retry_each
retry_pending_server_teardowns env room = retry_each env room.server_sockets room

-- `getTags(socket).includes("server")` is whether the socket is one of the server sockets, and an
-- attachment is trusted only under the tag of its role.
unfoldable pub read_tagged_attachment : Room → SocketId → Option Attachment
read_tagged_attachment room s = elim (read_attachment room s) [
  | none ↦ none
  | some (client a) ↦ if any (λ t. s == t) room.client_sockets then some (client a) else none
  | some (server a) ↦ if any (λ t. s == t) room.server_sockets then some (server a) else none
]

unfoldable pub fail_protocol_violation : Environment → Room → SocketId → Room × Bool
unfolding read_tagged_attachment
fail_protocol_violation env room s = elim (read_tagged_attachment room s) [
  | some (server a) ↦ fail_server env room s a Outcome.protocol_error protocol_error_close
  | some (client a) ↦ fail_client env room s a Outcome.protocol_error protocol_error_close
  | none ↦
      let clients = close_all_clients env room Outcome.internal_error internal_error_close in
      if any (λ t. s == t) room.server_sockets
      then (if clients.1
          then ((close_socket env clients.0 s internal_error_close).0, true)
          else (clients.0, false))
      else ((close_socket env room s internal_error_close).0, true)
]

unfoldable pub is_active_client : Room → Text → Text → ℕ → SocketId → Bool
is_active_client room control generation now s =
    (room.socket s).open_now && elim (read_client_attachment room s) [
      | none ↦ false
      | some a ↦
          text_eq a.control_id control
          && text_eq a.generation generation
          && not (is_terminal a.stage)
          && ltb now a.expires_at
    ]

unfoldable pub count_active_clients : Room → List SocketId → Text → Text → ℕ → ℕ
unfolding is_active_client
count_active_clients room [] control generation now = 0
count_active_clients room (s ∷ ss) control generation now =
    let rest = count_active_clients room ss control generation now in
    if is_active_client room control generation now s then rest + 1 else rest

-- When an open client socket wants the alarm.
unfoldable pub client_due : Room → SocketId → Option ℕ
client_due room s =
    if (room.socket s).open_now
    then elim (read_client_attachment room s) [
      | none ↦ none
      | some a ↦ if is_terminal a.stage then terminal_close_attempt_at a else some a.expires_at
    ]
    else none

-- The tickets that an open current server wants the alarm for.
unfoldable pub server_tickets : Room → SocketId → List TicketState
server_tickets room s = elim (read_server_attachment room s) [
  | none ↦ []
  | some a ↦ if a.current && (room.socket s).open_now then a.tickets else []
]

unfoldable pub sooner : ℕ → Option ℕ → Option ℕ → Option ℕ
sooner now next none = next
sooner now next (some at) = some (earlier next (max (now + 1) at))

unfoldable pub soonest_client : Room → ℕ → List SocketId → Option ℕ → Option ℕ
unfolding sooner client_due
soonest_client room now [] next = next
soonest_client room now (s ∷ ss) next =
    soonest_client room now ss (sooner now next (client_due room s))

unfoldable pub soonest_ticket : ℕ → List TicketState → Option ℕ → Option ℕ
unfolding sooner
soonest_ticket now [] next = next
soonest_ticket now (t ∷ ts) next = soonest_ticket now ts (sooner now next (some t.expires_at))

unfoldable pub soonest_server : Room → ℕ → List SocketId → Option ℕ → Option ℕ
unfolding soonest_ticket server_tickets
soonest_server room now [] next = next
soonest_server room now (s ∷ ss) next =
    soonest_server room now ss (soonest_ticket now (server_tickets room s) next)

-- scheduleNextAlarm: the time that the alarm is set to, or none where it is deleted. The earliest
-- expiry that the admission store retains is an argument.
unfoldable pub schedule_next_alarm : Room → ℕ → Option ℕ → Option ℕ
unfolding soonest_client soonest_server
schedule_next_alarm room now admission =
    sooner now
      (soonest_server room now room.server_sockets
        (soonest_client room now room.client_sockets none))
      admission
