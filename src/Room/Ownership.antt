-- ===== src/Room/Ownership.antt =====
-- Which server control owns the room: currentOpenServers, reconcileActiveServer and the
-- retirements that it makes.
pub mod Unsent
use metaserver_worker.Common.{
  Bool, true, false, not, ◌&&◌, ◌||◌, Option, none, some, List, [], ◌∷◌, map, ◌==◌, if◌then◌else◌,
  keep, Text, text_eq,
}
use metaserver_worker.Room.State.{
  SocketId, Room, Environment, read_server_attachment, try_write_attachment, close_socket, put,
}
use metaserver_worker.Attachments.{ServerAttachment, Attachment}
use metaserver_worker.Room.Rules.{newer_server, remember_bounded}
use metaserver_worker.Contract.{Outcome, internal_error_close, Close, server_replaced_close}
use metaserver_worker.Room.Teardown.{close_all_clients, max_ephemeral_connection_ids}
use metaserver_worker.Room.Alarms.{retry_pending_server_teardowns}
use metaserver_worker.Attachments.ServerCodec.{all_distinct}

pub record ActiveServer : Type 0 where
  pub socket : SocketId
  pub attachment : ServerAttachment

pub data Retirement : Type 0 where
  durably_demoted transport_retired : Retirement

unfoldable pub is_current : Option Text → ServerAttachment → Bool
is_current none a = false
is_current (some generation) a = a.current && text_eq a.generation generation

-- The socket's server, where it is open and current.
unfoldable pub active_on : Room → Option SocketId → SocketId → Option ActiveServer
unfolding is_current
active_on room ignored s =
    if elim ignored [ none ↦ false | some t ↦ s == t ] || not (room.socket s).open_now
    then none
    else elim (read_server_attachment room s) [
      | none ↦ none
      | some a ↦
          if is_current room.current_generation a
          then some (record { socket = s; attachment = a })
          else none
    ]

unfoldable pub active_among : Room → Option SocketId → List SocketId → List ActiveServer
unfolding active_on
active_among room ignored [] = []
active_among room ignored (s ∷ ss) =
    let rest = active_among room ignored ss in
    elim (active_on room ignored s) [ none ↦ rest | some server ↦ server ∷ rest ]

unfoldable pub current_open_servers : Room → Option SocketId → List ActiveServer
unfolding active_among
current_open_servers room ignored = active_among room ignored room.server_sockets

unfoldable pub prepare_server_retirement :
    Environment → Room → ActiveServer → Close → Room × Option Retirement
prepare_server_retirement env room server close =
    let own = server.attachment in
    let written =
      try_write_attachment env room server.socket
        (Attachment.server (record own { current = false })) in
    let after = written.0 in
    let guarded = record after {
      inactive_controls =
          remember_bounded after.inactive_controls own.control_id max_ephemeral_connection_ids;
    } in
    let closing = close_socket env guarded server.socket close in
    let shut = closing.0 in
    let forgotten = λ (room : Room). record room {
      pending_server_outcome = put server.socket none room.pending_server_outcome;
    } in
    if written.1
    then (forgotten after, some durably_demoted)
    else if closing.1
    then (forgotten shut, some transport_retired)
    else (
      record shut {
        inactive_controls = keep (λ c. not (text_eq own.control_id c)) shut.inactive_controls;
      },
      none,
    )

unfoldable pub finish_server_retirement :
    Environment → Room → ActiveServer → Retirement → Close → Room
finish_server_retirement env room server durably_demoted close =
    (close_socket env room server.socket close).0
finish_server_retirement env room server transport_retired close = room

unfoldable pub retire_server_immediately : Environment → Room → ActiveServer → Close → Room × Bool
unfolding prepare_server_retirement finish_server_retirement
retire_server_immediately env room server close =
    let prepared = prepare_server_retirement env room server close in
    elim prepared.1 [
      | none ↦ (prepared.0, false)
      | some retirement ↦ (finish_server_retirement env prepared.0 server retirement close, true)
    ]

unfoldable pub insert_newest : ActiveServer → List ActiveServer → List ActiveServer
unfolding newer_server
insert_newest server [] = server ∷ []
insert_newest server (other ∷ others) =
    let rest = insert_newest server others in
    if newer_server other.attachment server.attachment
    then other ∷ rest
    else server ∷ other ∷ others

unfoldable pub newest_first : List ActiveServer → List ActiveServer
unfolding insert_newest
newest_first [] = []
newest_first (server ∷ servers) = insert_newest server (newest_first servers)

-- What reconcileActiveServer leaves: the room, the server that it returns, and false where it
-- raises an integrity error instead.
pub record Reconciled : Type 0 where
  pub room : Room
  pub active : Option ActiveServer
  pub sound : Bool

abbrev pub deactivate : Text → Room → Room
deactivate control room = record room {
  inactive_controls = remember_bounded room.inactive_controls control max_ephemeral_connection_ids;
}

abbrev pub note_pending : SocketId → Outcome → Room → Room
note_pending s outcome room = record room {
  pending_server_outcome = put s (some outcome) room.pending_server_outcome;
}

-- The loop over controls that share an identifier: whether every one was retired.
unfoldable pub retire_each : Environment → List ActiveServer → Room → Room × Bool
unfolding retire_server_immediately
retire_each env [] room = (room, true)
retire_each env (server ∷ servers) room =
    let this = retire_server_immediately env room server internal_error_close in
    let noted =
      if this.1 then this.0 else note_pending server.socket Outcome.internal_error this.0 in
    let others = retire_each env servers noted in (others.0, this.1 && others.1)

unfoldable pub fail_duplicates : Environment → Room → Text → List ActiveServer → Reconciled
unfolding retire_each
fail_duplicates env room control servers =
    let clients = close_all_clients env room Outcome.internal_error internal_error_close in
    let retired = retire_each env servers clients.0 in
    record {
      room = if retired.1 then retired.0 else deactivate control retired.0;
      active = none;
      sound = retired.1 && clients.1;
    }

-- Neither of two controls could be retired.
unfoldable pub abandon : Environment → Room → ActiveServer → ActiveServer → Reconciled
abandon env room winner previous =
    let inactive =
      deactivate previous.attachment.control_id (deactivate winner.attachment.control_id room) in
    let pending =
      note_pending previous.socket Outcome.internal_error
        (note_pending winner.socket Outcome.internal_error inactive) in
    record {
      room = (close_all_clients env pending Outcome.internal_error internal_error_close).0;
      active = none;
      sound = false;
    }

-- The loop over the controls behind the newest one.
unfoldable pub settle_owner : Environment → List ActiveServer → Room → ActiveServer → Reconciled
unfolding retire_server_immediately abandon
settle_owner env [] room winner =
    let clients = close_all_clients env room Outcome.server_replaced server_replaced_close in
    record { room = clients.0; active = if clients.1 then some winner else none; sound = clients.1 }
settle_owner env (previous ∷ others) room winner =
    let this = retire_server_immediately env room previous server_replaced_close in
    let instead = retire_server_immediately env this.0 winner server_replaced_close in
    let kept = settle_owner env others this.0 winner in
    let changed = settle_owner env others instead.0 previous in
    if this.1 then kept else if instead.1 then changed else abandon env instead.0 winner previous

unfoldable pub settle_newest : Environment → Room → List ActiveServer → Reconciled
unfolding settle_owner
settle_newest env room [] = record { room = room; active = none; sound = true }
settle_newest env room (winner ∷ others) = settle_owner env others room winner

unfoldable pub choose_owner : Environment → Room → List ActiveServer → Reconciled
unfolding fail_duplicates settle_newest newest_first
choose_owner env room [] = record { room = room; active = none; sound = true }
choose_owner env room (server ∷ []) = record { room = room; active = some server; sound = true }
choose_owner env room (server ∷ other ∷ others) =
    let servers = server ∷ other ∷ others in
    if all_distinct (map (λ s. s.attachment.control_id) servers)
    then settle_newest env room (newest_first servers)
    else fail_duplicates env room server.attachment.control_id servers

unfoldable pub reconcile_active_server : Environment → Room → Option SocketId → Reconciled
unfolding choose_owner current_open_servers
reconcile_active_server env room ignored =
    let retried = retry_pending_server_teardowns env room in
    if retried.1
    then choose_owner env retried.0 (current_open_servers retried.0 ignored)
    else record { room = retried.0; active = none; sound = false }
