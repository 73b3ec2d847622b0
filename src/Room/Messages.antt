-- ===== src/Room/Messages.antt =====
-- The handlers of signaling messages. A handler that awaits is two functions, before and after the
-- wait, over the rooms of those moments; what the awaited call answered is an argument.
pub mod Conditions
pub mod Opening
pub mod Begin
use metaserver_worker.Common.{
  ℕ, zero, suc, ◌+◌, ◌-◌, ◌*◌, ◌≤◌, ◌<◌, ◌≡◌, ◌≢◌, ◌⊎◌, inl, inr, refl, sym, ap, subst, ◌∙◌, Bool,
  true, false, not, ◌&&◌, ◌||◌, Option, none, some, List, [], ◌∷◌, ◌++◌, map, ltb, leb, ◌==◌,
  if◌then◌else◌, length, every, any, keep, find, take, replicate, All, Text, codes, text_eq, arith,
  Bool-cases, Option-cases, dec_lt, is_some, is_none, ◌↔◌, min, max,
}
use metaserver_worker.Room.Rules.{prune_ticket_list}
use metaserver_worker.Room.State.{
  Environment, send, Room, SocketId, Ended, performed, relayed, try_write_attachment, settled,
  then_on, returned, unretired, read_client_attachment, close_socket, access_ready,
}
use metaserver_worker.Attachments.{
  ClientAttachment, TicketState, AuthorizationState, ClientStage, ServerAttachment, active,
  max_retained_tickets, client, server,
}
use metaserver_worker.Contract.{
  Signal, Outcome, max_client_candidates, session_expired_close, Close, client_candidate,
  protocol_error_close, internal_error_close, server_unavailable_close, authorization_failed_close,
  normal_close,
}
use metaserver_worker.Room.Ownership.{ActiveServer, reconcile_active_server}
use metaserver_worker.Room.Teardown.{fail_server, fail_client, or_else}
use metaserver_worker.Common.Results.{Result, ok, err, ◌>>=◌, ◌>>◌, require}

pub record Parsed : Type 0 where
  pub signal : Signal
  pub bytes : ℕ

abbrev pub now_in : Environment → Room → ℕ
now_in env room = env.clock room.calls

abbrev pub refuse_client :
    Environment → Room → SocketId → ClientAttachment → Outcome → Close → Ended
refuse_client env room s a outcome close = settled (fail_client env room s a outcome close)

abbrev pub refuse_server :
    Environment → Room → SocketId → ServerAttachment → Outcome → Close → Ended
refuse_server env room s a outcome close = settled (fail_server env room s a outcome close)

-- writeAttachment, which throws where the platform does.
abbrev pub write_client : Environment → SocketId → ClientAttachment → Room → Ended
write_client env s a room = performed (try_write_attachment env room s (client a))

abbrev pub write_server : Environment → SocketId → ServerAttachment → Room → Ended
write_server env s a room = performed (try_write_attachment env room s (server a))

abbrev pub same_text : Option Text → Option Text → Bool
same_text none none = true
same_text (some t) (some u) = text_eq t u
same_text _ _ = false

abbrev pub is_awaiting : ClientStage → Bool
is_awaiting ClientStage.awaiting_candidate = true
is_awaiting _ = false

abbrev pub is_exchanging : ClientStage → Bool
is_exchanging ClientStage.candidate_exchange = true
is_exchanging _ = false

abbrev pub is_unrestricted : AuthorizationState → Bool
is_unrestricted AuthorizationState.not_required = true
is_unrestricted _ = false

abbrev pub awaits_init : AuthorizationState → Bool
awaits_init AuthorizationState.awaiting_init = true
awaits_init _ = false

-- The active server is the one of the client's control and generation, which is the room's.
unfoldable pub serves : Room → Option ActiveServer → ClientAttachment → Bool
serves room none a = false
serves room (some found) a =
    text_eq found.attachment.control_id a.control_id
    && text_eq found.attachment.generation a.generation
    && same_text (some a.generation) room.current_generation

-- handleClientMessage; none where it goes on to beginClientTicket.
unfoldable pub handle_client_message :
    Environment → Room → SocketId → ClientAttachment → Parsed → Option Ended
handle_client_message env room s a parsed =
    if leb a.expires_at (now_in env room)
    then some (refuse_client env room s a Outcome.session_expired session_expired_close)
    else elim parsed.signal [
      | client_candidate host port ticket ↦
          if is_awaiting a.stage && is_unrestricted a.authorization
          then (if is_none a.access_grant || same_text (some ticket) a.access_grant
              then none
              else some (
                  refuse_client env room s a Outcome.authorization_failed
                    authorization_failed_close))
          else some (refuse_client env room s a Outcome.protocol_error protocol_error_close)
      | _ ↦ some (refuse_client env room s a Outcome.protocol_error protocol_error_close)
    ]

-- What beginClientTicket learned while it waited: the ticket's digest, its bound hash, and whether
-- the client's access was live.
pub record Learned : Type 0 where
  pub digest : Text
  pub bound_hash : Text
  pub access_live : Bool

-- The access conditions of beginClientTicket, of the attachment from before the wait and the
-- present one.
unfoldable pub is_authorized : ClientAttachment → ClientAttachment → Text → Learned → Bool
is_authorized before current ticket learned =
    same_text current.bound_ticket_hash (some learned.bound_hash)
    && (is_none before.access_redemption
        || learned.access_live
          && same_text current.access_redemption before.access_redemption
          && same_text current.access_grant (some ticket))

unfoldable pub opened_ticket : ClientAttachment → Text → ℕ → TicketState
opened_ticket a digest bytes = record {
  ticket_digest = digest;
  client_connection_id = a.connection_id;
  opened_at = a.opened_at;
  expires_at = a.expires_at;
  stage = active;
  client_authorization_frames = 0;
  server_authorization_frames = 0;
  server_candidates = 0;
  completion_count = 0;
  signal_bytes = bytes;
}

unfoldable pub exchanging_client : ClientAttachment → Text → Text → ℕ → ClientAttachment
exchanging_client a ticket digest bytes = record a {
  ticket = some ticket;
  ticket_digest = some digest;
  authorization = AuthorizationState.not_required;
  client_authorization_frames = 0;
  stage = ClientStage.candidate_exchange;
  client_candidates = max_client_candidates;
  signal_bytes = bytes;
}

-- The last steps of beginClientTicket: the frame to the server, and the count of it.
unfoldable pub relay_first :
    Environment → SocketId → ClientAttachment → ActiveServer → Signal → Room → Ended
unfolding send
relay_first env s opened owner signal room =
    let sending = send env room owner.socket (relayed signal) in
    let counted = record opened { frames_forwarded = opened.frames_forwarded + 1 } in
    let written = try_write_attachment env sending.0 s (client counted) in
    if sending.1
    then (if written.1
        then (written.0, returned)
        else refuse_client env written.0 s counted Outcome.internal_error internal_error_close)
    else refuse_server env sending.0 owner.socket owner.attachment Outcome.server_unavailable
        server_unavailable_close

-- Both attachments are written before the frame goes out.
unfoldable pub write_opened :
    Environment → SocketId → ClientAttachment → ActiveServer → Signal → Room → Ended
unfolding relay_first
write_opened env s opened owner signal room = then_on (write_client env s opened room) (λ room'.
    then_on (write_server env owner.socket owner.attachment room')
      (relay_first env s opened owner signal))

-- beginClientTicket, once the client and the server have been found fit.
unfoldable pub open_ticket :
    Environment → Room → SocketId → ClientAttachment → ActiveServer → Text → Parsed → Text → Ended
unfolding opened_ticket exchanging_client write_opened prune_ticket_list
open_ticket env room s current owner ticket parsed digest =
    let pruned = (prune_ticket_list owner.attachment (now_in env room)).0 in
    let opened = exchanging_client current ticket digest parsed.bytes in
    let with_ticket = record pruned {
      tickets = pruned.tickets ++ (opened_ticket current digest parsed.bytes ∷ []);
    } in
    if any (λ t. text_eq t.ticket_digest digest) pruned.tickets
      || leb max_retained_tickets (length pruned.tickets)
    then refuse_client env room s current Outcome.protocol_error protocol_error_close
    else write_opened env s opened (record { socket = owner.socket; attachment = with_ticket })
        parsed.signal room

-- The ticket is opened at the server that owns the room and serves the client.
unfoldable pub offer_ticket :
    Environment
    → Room
    → SocketId
    → ClientAttachment
    → Option ActiveServer
    → Text
    → Parsed
    → Text
    → Ended
unfolding open_ticket serves
offer_ticket env room s current none ticket parsed digest =
    refuse_client env room s current Outcome.server_unavailable server_unavailable_close
offer_ticket env room s current (some owner) ticket parsed digest =
    if serves room (some owner) current
    then open_ticket env room s current owner ticket parsed digest
    else refuse_client env room s current Outcome.server_unavailable server_unavailable_close

-- The checks of beginClientTicket on the attachment as it is after the wait.
unfoldable pub check_client :
    Environment
    → Room
    → SocketId
    → ClientAttachment
    → ClientAttachment
    → Option ActiveServer
    → Text
    → Parsed
    → Learned
    → Ended
unfolding offer_ticket is_authorized
check_client env room s before current owning ticket parsed learned =
    if not (is_authorized before current ticket learned)
    then refuse_client env room s current Outcome.authorization_failed authorization_failed_close
    else if not (room.socket s).open_now
    then refuse_client env room s current Outcome.client_disconnected normal_close
    else if not (text_eq current.connection_id before.connection_id)
    then refuse_client env room s current Outcome.internal_error internal_error_close
    else if not (is_awaiting current.stage && is_unrestricted current.authorization)
    then refuse_client env room s current Outcome.protocol_error protocol_error_close
    else if leb current.expires_at (now_in env room)
    then refuse_client env room s current Outcome.session_expired session_expired_close
    else offer_ticket env room s current owning ticket parsed learned.digest

-- beginClientTicket behind its wait. The client's attachment is read before the owner is settled.
unfoldable pub begin_client_ticket :
    Environment → Room → SocketId → ClientAttachment → Text → Parsed → Learned → Ended
unfolding check_client
begin_client_ticket env room s before ticket parsed learned =
    let reconciled = reconcile_active_server env room none in
    if not reconciled.sound
    then (reconciled.room, unretired)
    else elim (read_client_attachment room s) [
      | none ↦ ((close_socket env reconciled.room s internal_error_close).0, returned)
      | some current ↦
          check_client env reconciled.room s before current reconciled.active ticket parsed learned
    ]

-- A grant's first frame.
pub record AccessInit : Type 0 where
  pub grant : Text
  pub client_nonce : Text

-- acceptAccessInit before its wait; none where it goes on.
unfoldable pub check_access_init :
    Environment → Room → SocketId → ClientAttachment → AccessInit → Option Ended
check_access_init env room s a init =
    if awaits_init a.authorization
      && is_awaiting a.stage
      && ltb (now_in env room) a.expires_at
      && is_some a.access_redemption
      && same_text (some init.grant) a.access_grant
      && same_text (some init.client_nonce) a.access_client_nonce
    then none
    else some (refuse_client env room s a Outcome.authorization_failed authorization_failed_close)

-- The conditions of acceptAccessInit behind its wait.
unfoldable pub may_start :
    Environment
    → Room
    → SocketId
    → ClientAttachment
    → ClientAttachment
    → Option ActiveServer
    → AccessInit
    → Bool
    → Bool
unfolding serves
may_start env room s before current owning init live =
    live
    && awaits_init current.authorization
    && same_text current.access_grant (some init.grant)
    && same_text current.access_client_nonce (some init.client_nonce)
    && same_text current.access_redemption before.access_redemption
    && ltb (now_in env room) current.expires_at
    && text_eq current.connection_id before.connection_id
    && (room.socket s).open_now
    && serves room owning current

-- The session's length in seconds is a setting.
unfoldable pub started_client : ℕ → ClientAttachment → ClientAttachment
started_client session_seconds a = record a {
  authorization = AuthorizationState.not_required;
  expires_at = min (a.opened_at + session_seconds * 1_000) (or_else a.access_expires_at 0);
}

unfoldable pub accept_access_init :
    Environment → Room → SocketId → ClientAttachment → AccessInit → Bool → ℕ → Ended
unfolding may_start started_client send
accept_access_init env room s before init live session_seconds =
    let reconciled = reconcile_active_server env room none in
    let next = reconciled.room in
    if not reconciled.sound then (next, unretired) else elim (read_client_attachment room s) [
      | none ↦ ((close_socket env next s authorization_failed_close).0, returned)
      | some current ↦
          if may_start env next s before current reconciled.active init live
          then then_on (write_client env s (started_client session_seconds current) next)
              (λ room'. performed (send env room' s access_ready))
          else refuse_client env next s current Outcome.authorization_failed
              authorization_failed_close
    ]
