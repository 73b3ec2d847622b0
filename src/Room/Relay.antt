-- ===== src/Room/Relay.antt =====
-- A server's frame on a ticket: findTicketClient and handleServerMessage, in steps around its waits.
pub mod Addressee
pub mod Holder
pub mod Settled
pub mod Resumed
use metaserver_worker.Common.{
  ℕ, ◌+◌, Bool, true, false, not, ◌&&◌, Option, none, some, List, [], ◌∷◌, ltb, ◌==◌, if◌then◌else◌,
  find, Text, text_eq, is_some,
}
use metaserver_worker.Room.State.{
  Ended, Room, SocketId, Environment, send, read_client_attachment, returned, close_socket, relayed,
  unretired, read_server_attachment, then_on,
}
use metaserver_worker.Room.Rules.{
  prune_ticket_list, ServerFrame, completion, apply_server_frame_budget, candidate,
  copy_ticket_budget_to_client,
}
use metaserver_worker.Attachments.{
  ServerAttachment, TicketStage, TicketState, ClientAttachment, active,
}
use metaserver_worker.Room.Ownership.{reconcile_active_server, ActiveServer}
use metaserver_worker.Room.Messages.{
  refuse_server, write_client, refuse_client, same_text, now_in, is_exchanging, write_server,
}
use metaserver_worker.Contract.{
  Signal, Outcome, internal_error_close, authorization_failed_close, protocol_error_close,
  normal_close,
}
use metaserver_worker.Room.Teardown.{is_terminal}

pub record TicketClient : Type 0 where
  pub socket : SocketId
  pub attachment : ClientAttachment

abbrev pub is_open_ticket : TicketStage → Bool
is_open_ticket active = true
is_open_ticket TicketStage.terminal = false

-- The client holds the ticket on the server's control.
unfoldable pub holds_ticket : ServerAttachment → TicketState → Text → ℕ → ClientAttachment → Bool
holds_ticket server ticket raw now a =
    text_eq a.control_id server.control_id
    && text_eq a.generation server.generation
    && text_eq a.connection_id ticket.client_connection_id
    && not (is_terminal a.stage)
    && ltb now a.expires_at
    && same_text a.ticket_digest (some ticket.ticket_digest)
    && same_text a.ticket (some raw)

-- One turn of the loop in findTicketClient.
unfoldable pub ticket_client_on :
    Room → ServerAttachment → TicketState → Text → ℕ → SocketId → Option TicketClient
unfolding holds_ticket
ticket_client_on room server ticket raw now s =
    if (room.socket s).open_now
    then elim (read_client_attachment room s) [
      | none ↦ none
      | some a ↦
          if holds_ticket server ticket raw now a
          then some (record { socket = s; attachment = a })
          else none
    ]
    else none

unfoldable pub ticket_client_among :
    Room → ServerAttachment → TicketState → Text → ℕ → List SocketId → Option TicketClient
unfolding ticket_client_on
ticket_client_among room server ticket raw now [] = none
ticket_client_among room server ticket raw now (s ∷ ss) =
    let rest = ticket_client_among room server ticket raw now ss in
    elim (ticket_client_on room server ticket raw now s) [ none ↦ rest | some found ↦ some found ]

unfoldable pub find_ticket_client :
    Room → ServerAttachment → TicketState → Text → ℕ → Option TicketClient
unfolding ticket_client_among
find_ticket_client room server ticket raw now =
    if is_open_ticket ticket.stage && ltb now ticket.expires_at
    then ticket_client_among room server ticket raw now room.client_sockets
    else none

abbrev pub is_ticket : Text → TicketState → Bool
is_ticket digest t = text_eq t.ticket_digest digest

abbrev pub is_client_ticket : Text → Text → TicketState → Bool
is_client_ticket digest connection t =
    text_eq t.ticket_digest digest && text_eq t.client_connection_id connection

-- The source's ticket is an object of its list: a change of it changes the list.
unfoldable pub set_ticket : TicketState → List TicketState → List TicketState
set_ticket ticket [] = []
set_ticket ticket (t ∷ ts) =
    let rest = set_ticket ticket ts in
    if is_client_ticket ticket.ticket_digest ticket.client_connection_id t
    then ticket ∷ ts
    else t ∷ rest

abbrev pub with_ticket : ServerAttachment → TicketState → ServerAttachment
with_ticket server ticket = record server { tickets = set_ticket ticket server.tickets }

-- A frame that is ready: the server's attachment, its ticket, and the ticket's client.
pub record Delivery : Type 0 where
  pub server : ServerAttachment
  pub ticket : TicketState
  pub target : TicketClient

-- Where handleServerMessage stands after its first wait: it has ended, it delivers, or it waits
-- to learn whether the client's access is live.
pub data Turn : Type 0 where
  ends : Ended → Turn
  delivers rechecks : Room → Delivery → Turn

-- What follows a frame that was sent: a completed client is ended.
unfoldable pub count_frame : Environment → ServerFrame → SocketId → ClientAttachment → Room → Ended
count_frame env completion s a room = refuse_client env room s a Outcome.completed normal_close
count_frame env candidate s a room = write_client env s a room

-- The last steps of a delivery: the frame, and what the client's attachment counts.
unfoldable pub send_frame :
    Environment → ServerFrame → TicketClient → TicketState → Signal → Room → Ended
unfolding send count_frame
send_frame env kind target ticket signal room =
    let sending = send env room target.socket (relayed signal) in
    let billed = copy_ticket_budget_to_client target.attachment ticket in
    let counted = record billed { frames_forwarded = billed.frames_forwarded + 1 } in
    if sending.1
    then count_frame env kind target.socket counted sending.0
    else refuse_client env sending.0 target.socket billed Outcome.internal_error
        internal_error_close

-- What a delivered frame makes of its ticket.
abbrev pub used_ticket : ServerFrame → TicketState → TicketState
used_ticket completion ticket = record ticket { stage = TicketStage.terminal }
used_ticket candidate ticket = ticket

abbrev pub write_target : Environment → ServerFrame → TicketClient → TicketState → Room → Ended
write_target env completion target ticket room = (room, returned)
write_target env candidate target ticket room =
    write_client env target.socket (copy_ticket_budget_to_client target.attachment ticket) room

-- A frame within its ticket's budget, to a client in the exchange.
unfoldable pub deliver_billed :
    Environment → Room → SocketId → ServerFrame → Delivery → TicketState → Signal → Ended
unfolding send_frame set_ticket
deliver_billed env room s kind d billed signal =
    then_on (write_server env s (with_ticket d.server (used_ticket kind billed)) room) (λ room'.
      then_on (write_target env kind d.target billed room')
        (send_frame env kind d.target (used_ticket kind billed) signal))

-- The delivery of a frame, from the budget of its ticket on.
unfoldable pub deliver_frame :
    Environment → Room → SocketId → ServerFrame → Delivery → Signal → ℕ → Ended
unfolding deliver_billed set_ticket
deliver_frame env room s kind d signal bytes =
    elim (apply_server_frame_budget d.ticket kind bytes) [
      | none ↦ refuse_server env room s d.server Outcome.protocol_error protocol_error_close
      | some billed ↦
          if not (is_exchanging d.target.attachment.stage)
          then refuse_server env room s (with_ticket d.server billed) Outcome.protocol_error
              protocol_error_close
          else deliver_billed env room s kind d billed signal
    ]

-- A frame on a ticket that has no client left: it is counted, and the ticket is over.
unfoldable pub end_ticket :
    Environment → Room → SocketId → ServerFrame → ServerAttachment → TicketState → ℕ → Ended
unfolding set_ticket
end_ticket env room s kind server ticket bytes =
    elim (apply_server_frame_budget ticket kind bytes) [
      | none ↦ refuse_server env room s server Outcome.protocol_error protocol_error_close
      | some billed ↦
          write_server env s (with_ticket server (record billed { stage = TicketStage.terminal }))
            room
    ]

-- The socket still is the open, current server that the frame came from.
unfoldable pub is_sender :
    Room → SocketId → ServerAttachment → ServerAttachment → Option ActiveServer → Bool
is_sender room s before current none = false
is_sender room s before current (some owner) =
    (room.socket s).open_now
    && current.current
    && text_eq current.control_id before.control_id
    && text_eq current.generation before.generation
    && owner.socket == s
    && text_eq owner.attachment.control_id current.control_id
    && text_eq owner.attachment.generation current.generation

unfoldable pub find_delivery :
    Environment → Room → SocketId → ServerFrame → ServerAttachment → Text → Text → ℕ → Turn
unfolding find_ticket_client end_ticket
find_delivery env room s kind server raw digest bytes =
    elim (find (is_ticket digest) server.tickets) [
      | none ↦ ends (refuse_server env room s server Outcome.protocol_error protocol_error_close)
      | some ticket ↦ elim (find_ticket_client room server ticket raw (now_in env room)) [
        | none ↦ ends (end_ticket env room s kind server ticket bytes)
        | some target ↦
            let d : Delivery = record { server = server; ticket = ticket; target = target } in
            if is_some target.attachment.access_redemption then rechecks room d else delivers room d
      ]
    ]

-- handleServerMessage behind its first wait, of a frame on a ticket whose digest was computed.
-- The server's attachment is read before the owner is settled.
unfoldable pub receive_server_frame :
    Environment → Room → SocketId → ServerFrame → ServerAttachment → Text → Text → ℕ → Turn
unfolding is_sender find_delivery prune_ticket_list
receive_server_frame env room s kind before raw digest bytes =
    let reconciled = reconcile_active_server env room none in
    let next = reconciled.room in
    let dropped = ends ((close_socket env next s internal_error_close).0, returned) in
    if not reconciled.sound then ends (next, unretired) else elim (read_server_attachment room s) [
      | none ↦ dropped
      | some current ↦
          if is_sender next s before current reconciled.active
          then find_delivery env next s kind (prune_ticket_list current (now_in env next)).0 raw
              digest bytes
          else dropped
    ]

-- The client and the server are still those of the delivery, and the client's access is live.
unfoldable pub still_fits :
    Environment → Room → SocketId → Delivery → ClientAttachment → Option ActiveServer → Bool → Bool
still_fits env room s d latest none live = false
still_fits env room s d latest (some owner) live =
    live
    && not (is_terminal latest.stage)
    && ltb (now_in env room) latest.expires_at
    && text_eq latest.connection_id d.target.attachment.connection_id
    && same_text (some latest.generation) room.current_generation
    && (room.socket d.target.socket).open_now
    && owner.socket == s
    && text_eq owner.attachment.control_id d.server.control_id

-- The delivery on the attachments as they are behind the second wait.
unfoldable pub redeliver :
    Environment
    → Room
    → SocketId
    → ServerFrame
    → Delivery
    → ClientAttachment
    → ServerAttachment
    → Signal
    → ℕ
    → Ended
unfolding deliver_frame
redeliver env room s kind d latest server signal bytes =
    let revoked =
      refuse_client env room d.target.socket latest Outcome.authorization_failed
        authorization_failed_close in
    elim (find (is_client_ticket d.ticket.ticket_digest latest.connection_id) server.tickets) [
      | none ↦ revoked
      | some ticket ↦
          if is_open_ticket ticket.stage && ltb (now_in env room) ticket.expires_at
          then deliver_frame env room s kind
              (record {
                server = server;
                ticket = ticket;
                target = record { socket = d.target.socket; attachment = latest };
              })
              signal bytes
          else revoked
    ]

-- handleServerMessage behind its second wait.
unfoldable pub resume_server_frame :
    Environment → Room → SocketId → ServerFrame → Delivery → Signal → ℕ → Bool → Ended
unfolding still_fits redeliver
resume_server_frame env room s kind d signal bytes live =
    let reconciled = reconcile_active_server env room none in
    let next = reconciled.room in
    if not reconciled.sound
    then (next, unretired)
    else elim (read_client_attachment room d.target.socket) [
      | none ↦ (next, returned)
      | some latest ↦ elim reconciled.active [
        | none ↦
            refuse_client env next d.target.socket latest Outcome.authorization_failed
              authorization_failed_close
        | some owner ↦
            if still_fits env next s d latest (some owner) live
            then redeliver env next s kind d latest owner.attachment signal bytes
            else refuse_client env next d.target.socket latest Outcome.authorization_failed
                authorization_failed_close
      ]
    ]
