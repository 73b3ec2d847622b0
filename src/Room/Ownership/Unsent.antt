-- ===== src/Room/Ownership/Unsent.antt =====
-- Settling the owner of a room sends no frame.
use metaserver_worker.Common.{
  ◌≡◌, inl, inr, refl, ◌∙◌, false, Option, none, List, [], ◌∷◌, map, if◌then◌else◌, Text,
  Bool-cases, Option-cases,
}
use metaserver_worker.Room.State.{
  Environment, SocketId, Room, read_server_attachment, close_socket, put, try_write_attachment,
}
use metaserver_worker.Room.Ownership.{
  settle_owner, retire_server_immediately, retire_each, finish_server_retirement,
  prepare_server_retirement, fail_duplicates, reconcile_active_server, choose_owner, ActiveServer,
  abandon, SocketId, Room, close_all_clients, Outcome, current_open_servers, internal_error_close,
  Retirement, Close, note_pending, read_server_attachment, durably_demoted, deactivate,
  transport_retired, close_socket, put, settle_newest, all_distinct, Attachment,
  try_write_attachment, newest_first,
}
use metaserver_worker.Room.Alarms.{retry_each, retry_server, retry_pending_server_teardowns}
use metaserver_worker.Contract.{internal_error_close, Close, Outcome, server_replaced_close}
use metaserver_worker.Room.Silent.{
  close_all_clients-sent, either-sent, close-sent, fail_server-sent, try_write-sent,
}
use metaserver_worker.Room.Teardown.{close_all_clients}
use metaserver_worker.Room.Rules.{rendezvous_close_for_outcome}
use metaserver_worker.Attachments.{Attachment}
use metaserver_worker.Attachments.ServerCodec.{all_distinct}

module _ (env : Environment) where
  retry_server-sent :
      (room : Room) (s : SocketId) (o : Outcome) → (retry_server env room s o).0.sent ≡ room.sent
  unfolding retry_server
  retry_server-sent room s o = elim (Option-cases (read_server_attachment room s)) [
    | inr (a, held) ↦
        rw (held, retry_server) (fail_server-sent env room s a o (rendezvous_close_for_outcome o))
    | inl nothing ↦
        let closing = close_socket env room s internal_error_close in
        rw (nothing, retry_server)
          (either-sent closing.1
              (record closing.0 {
                pending_server_outcome = put s none (closing.0).pending_server_outcome;
              })
              closing.0 closing.0 refl refl
            ∙ close-sent env room s internal_error_close)
  ]

  retry_each-sent : (ss : List SocketId) (room : Room) → (retry_each env ss room).0.sent ≡ room.sent
  unfolding retry_each
  retry_each-sent [] room = refl
  retry_each-sent (s ∷ ss) room = elim (Option-cases (room.pending_server_outcome s)) [
    | inl nothing ↦ rw (nothing, retry_each) (retry_each-sent ss room)
    | inr (o, held) ↦
        rw (held, retry_each)
          (retry_each-sent ss (retry_server env room s o).0 ∙ retry_server-sent room s o)
  ]

  finish-sent :
      (room : Room) (server : ActiveServer) (r : Retirement) (close : Close)
      → (finish_server_retirement env room server r close).sent ≡ room.sent
  unfolding finish_server_retirement
  finish-sent room server durably_demoted close = close-sent env room server.socket close
  finish-sent room server transport_retired close = refl

  prepare-sent :
      (room : Room) (server : ActiveServer) (close : Close)
      → (prepare_server_retirement env room server close).0.sent ≡ room.sent
  unfolding prepare_server_retirement
  prepare-sent room server close =
      let own = server.attachment in
      let demoted = Attachment.server (record own { current = false }) in
      let written = try_write_attachment env room server.socket demoted in
      let after : Room = written.0 in
      let guarded : Room = deactivate own.control_id after in
      let closing = close_socket env guarded server.socket close in
      let shut =
        close-sent env guarded server.socket close
        ∙ try_write-sent env room server.socket demoted in
      elim (Bool-cases written.1) [
        | inl done ↦
            rw (done, prepare_server_retirement) (try_write-sent env room server.socket demoted)
        | inr failed ↦ elim (Bool-cases closing.1) [
          | inl gone ↦ rw (failed, gone, prepare_server_retirement) shut
          | inr open_still ↦ rw (failed, open_still, prepare_server_retirement) shut
        ]
      ]

  retire-sent :
      (room : Room) (server : ActiveServer) (close : Close)
      → (retire_server_immediately env room server close).0.sent ≡ room.sent
  unfolding retire_server_immediately
  retire-sent room server close =
      let prepared = prepare_server_retirement env room server close in
      elim (Option-cases prepared.1) [
        | inl nothing ↦ rw (nothing, retire_server_immediately) (prepare-sent room server close)
        | inr (r, done) ↦
            rw (done, retire_server_immediately)
              (finish-sent prepared.0 server r close ∙ prepare-sent room server close)
      ]

  retire_each-sent :
      (servers : List ActiveServer) (room : Room)
      → (retire_each env servers room).0.sent ≡ room.sent
  unfolding retire_each
  retire_each-sent [] room = refl
  retire_each-sent (server ∷ servers) room =
      let this = retire_server_immediately env room server internal_error_close in
      let noted =
        if this.1 then this.0 else note_pending server.socket Outcome.internal_error this.0 in
      retire_each-sent servers noted
      ∙ either-sent this.1 this.0 (note_pending server.socket Outcome.internal_error this.0) this.0
          refl refl
      ∙ retire-sent room server internal_error_close

  fail_duplicates-sent :
      (room : Room) (control : Text) (servers : List ActiveServer)
      → (fail_duplicates env room control servers).room.sent ≡ room.sent
  unfolding fail_duplicates
  fail_duplicates-sent room control servers =
      let clients = close_all_clients env room Outcome.internal_error internal_error_close in
      let retired = retire_each env servers clients.0 in
      either-sent retired.1 retired.0 (deactivate control retired.0) retired.0 refl refl
      ∙ retire_each-sent servers clients.0
      ∙ close_all_clients-sent env room Outcome.internal_error internal_error_close

  settle_owner-sent :
      (others : List ActiveServer) (room : Room) (winner : ActiveServer)
      → (settle_owner env others room winner).room.sent ≡ room.sent
  unfolding settle_owner abandon
  settle_owner-sent [] room winner =
      close_all_clients-sent env room Outcome.server_replaced server_replaced_close
  settle_owner-sent (previous ∷ others) room winner =
      let this = retire_server_immediately env room previous server_replaced_close in
      let instead = retire_server_immediately env this.0 winner server_replaced_close in
      elim (Bool-cases this.1) [
        | inl retired ↦
            rw (retired, settle_owner)
              (settle_owner-sent others this.0 winner
                ∙ retire-sent room previous server_replaced_close)
        | inr kept ↦ elim (Bool-cases instead.1) [
          | inl changed ↦
              rw (kept, changed, settle_owner)
                (settle_owner-sent others instead.0 previous
                  ∙ retire-sent this.0 winner server_replaced_close
                  ∙ retire-sent room previous server_replaced_close)
          | inr neither ↦
              rw (kept, neither, settle_owner)
                (close_all_clients-sent env _ Outcome.internal_error internal_error_close
                  ∙ retire-sent this.0 winner server_replaced_close
                  ∙ retire-sent room previous server_replaced_close)
        ]
      ]

  settle_newest-sent :
      (room : Room) (servers : List ActiveServer)
      → (settle_newest env room servers).room.sent ≡ room.sent
  unfolding settle_newest
  settle_newest-sent room [] = refl
  settle_newest-sent room (winner ∷ others) = settle_owner-sent others room winner

  choose_owner-sent :
      (room : Room) (servers : List ActiveServer)
      → (choose_owner env room servers).room.sent ≡ room.sent
  unfolding choose_owner
  choose_owner-sent room [] = refl
  choose_owner-sent room (server ∷ []) = refl
  choose_owner-sent room (server ∷ other ∷ others) =
      let servers = server ∷ other ∷ others in
      elim (Bool-cases
        (all_distinct (map (λ (s : ActiveServer). s.attachment.control_id) servers))) [
          | inl apart ↦ rw (apart, choose_owner) (settle_newest-sent room (newest_first servers))
          | inr shared ↦
              rw (shared, choose_owner)
                (fail_duplicates-sent room server.attachment.control_id servers)
        ]

  pub reconcile-sent :
      (room : Room) (ignored : Option SocketId)
      → (reconcile_active_server env room ignored).room.sent ≡ room.sent
  unfolding reconcile_active_server retry_pending_server_teardowns
  reconcile-sent room ignored =
      let retried = retry_pending_server_teardowns env room in
      elim (Bool-cases retried.1) [
        | inr bad ↦ rw (bad, reconcile_active_server) (retry_each-sent room.server_sockets room)
        | inl good ↦
            rw (good, reconcile_active_server)
              (choose_owner-sent retried.0 (current_open_servers retried.0 ignored)
                ∙ retry_each-sent room.server_sockets room)
      ]
