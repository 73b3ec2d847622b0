-- ===== src/Room/Silent.antt =====
-- Ending clients and servers, and settling the owner of a room, sends no frame.
use metaserver_worker.Common.{
  ◌≡◌, inl, inr, refl, ◌∙◌, Bool, true, false, ◌&&◌, ◌||◌, Option, none, some, List, [], ◌∷◌,
  if◌then◌else◌, Text, arith, Option-cases, is_some, is_none,
}
use metaserver_worker.Room.State.{
  Environment, try_write_attachment, close_socket, Room, SocketId, read_client_attachment, put,
}
use metaserver_worker.Room.Teardown.{
  write_marked, fail_server, fail_client, persist_end, emit_own_metric, emit_terminal_metric,
  mark_tickets_on, transition_client_terminal, mark_ticket_terminal, close_each, close_all_clients,
  close_client, forget_and_close, mark_ticket_on, marked_server, or_else, is_terminal,
  max_ephemeral_connection_ids,
}
use metaserver_worker.Attachments.{ServerAttachment, Attachment, ClientAttachment}
use metaserver_worker.Contract.{Outcome, Close, internal_error_close}
use metaserver_worker.Room.Rules.{rendezvous_close_for_outcome, remember_bounded}

pub either-sent :
    (b : Bool) (x y room : Room)
    → x.sent ≡ room.sent
    → y.sent ≡ room.sent
    → (if b then x else y).sent ≡ room.sent
either-sent true x y room h k = h
either-sent false x y room h k = k

pub branch-sent :
    (b : Bool) (x y : Room × Bool) (room : Room)
    → x.0.sent ≡ room.sent
    → y.0.sent ≡ room.sent
    → (if b then x else y).0.sent ≡ room.sent
branch-sent true x y room h k = h
branch-sent false x y room h k = k

module _ (env : Environment) where
  pub try_write-sent :
      (room : Room) (s : SocketId) (a : Attachment)
      → (try_write_attachment env room s a).0.sent ≡ room.sent
  unfolding try_write_attachment
  try_write-sent room s a = ground arith

  pub close-sent :
      (room : Room) (s : SocketId) (close : Close)
      → (close_socket env room s close).0.sent ≡ room.sent
  unfolding close_socket
  close-sent room s close = ground arith

  write_marked-sent :
      (room : Room) (s : SocketId) (o : Option ServerAttachment)
      → (write_marked env room s o).sent ≡ room.sent
  unfolding write_marked
  write_marked-sent room s none = refl
  write_marked-sent room s (some a) = try_write-sent room s (Attachment.server a)

  mark_tickets_on-sent :
      (a : ClientAttachment) (digest : Text) (ss : List SocketId) (room : Room)
      → (mark_tickets_on env a digest ss room).sent ≡ room.sent
  unfolding mark_tickets_on mark_ticket_on
  mark_tickets_on-sent a digest [] room = refl
  mark_tickets_on-sent a digest (s ∷ ss) room =
      mark_tickets_on-sent a digest ss _ ∙ write_marked-sent room s (marked_server room a digest s)

  mark_ticket_terminal-sent :
      (room : Room) (a : ClientAttachment) → (mark_ticket_terminal env room a).sent ≡ room.sent
  unfolding mark_ticket_terminal
  mark_ticket_terminal-sent room a = elim (Option-cases a.ticket_digest) [
    | inl nothing ↦ rw nothing refl
    | inr (digest, held) ↦ rw held (mark_tickets_on-sent a digest room.server_sockets room)
  ]

  emit_terminal_metric-sent :
      (room : Room) (s : SocketId) (a : ClientAttachment) (o : Outcome)
      → (emit_terminal_metric env room s a o).0.sent ≡ room.sent
  unfolding emit_terminal_metric
  emit_terminal_metric-sent room s a o =
      ground
        (arith, try_write-sent room s (Attachment.client (record a { summary_emitted = true })))

  emit_own_metric-sent :
      (room : Room) (s : SocketId) (a : ClientAttachment)
      → (emit_own_metric env room s a).0.sent ≡ room.sent
  unfolding emit_own_metric
  emit_own_metric-sent room s a = elim (Option-cases a.terminal_outcome) [
    | inl nothing ↦ rw nothing refl
    | inr (o, own) ↦ ground (arith, emit_terminal_metric-sent room s a o)
  ]

  persist_end-sent :
      (room : Room) (s : SocketId) (a : ClientAttachment) (already : Bool)
      → (persist_end env room s a already).0.sent ≡ room.sent
  unfolding persist_end
  persist_end-sent room s a true = emit_own_metric-sent room s a
  persist_end-sent room s a false =
      emit_own_metric-sent _ s a ∙ try_write-sent room s (Attachment.client a)

  forget_and_close-sent :
      (s : SocketId) (kept : Room × Bool) (close : Close)
      → (forget_and_close env s kept close).0.sent ≡ kept.0.sent
  unfolding forget_and_close
  forget_and_close-sent s (room, true) close = close-sent _ s close
  forget_and_close-sent s (room, false) close = close-sent room s close

  transition-sent :
      (room : Room) (a : ClientAttachment) (o : Outcome)
      → (transition_client_terminal env room a o).0.sent ≡ room.sent
  unfolding transition_client_terminal
  transition-sent room a o = ground (arith, mark_ticket_terminal-sent room a)

  pub fail_client-sent :
      (room : Room) (s : SocketId) (a : ClientAttachment) (o : Outcome) (close : Close)
      → (fail_client env room s a o close).0.sent ≡ room.sent
  unfolding fail_client
  fail_client-sent room s a o close =
      let pending = room.pending_client_outcome s in
      let canonical = or_else a.terminal_outcome (or_else pending o) in
      let noted : Room = record room {
        pending_client_outcome = put s (some canonical) room.pending_client_outcome;
      } in
      let ending = transition_client_terminal env noted a canonical in
      let already = is_terminal a.stage && is_none pending in
      let kept = persist_end env ending.0 s ending.1 already in
      forget_and_close-sent s kept
        (if is_none pending then close else rendezvous_close_for_outcome canonical)
      ∙ persist_end-sent ending.0 s ending.1 already
      ∙ transition-sent noted a canonical

  close_client-sent :
      (room : Room) (s : SocketId) (o : Outcome) (close : Close)
      → (close_client env room s o close).0.sent ≡ room.sent
  unfolding close_client
  close_client-sent room s o close = elim (Option-cases (read_client_attachment room s)) [
    | inl nothing ↦ rw (nothing, close_client) (close-sent room s internal_error_close)
    | inr (a, held) ↦ rw (held, close_client) (fail_client-sent room s a o close)
  ]

  close_each-sent :
      (ss : List SocketId) (room : Room) (o : Outcome) (close : Close)
      → (close_each env ss room o close).0.sent ≡ room.sent
  unfolding close_each
  close_each-sent [] room o close = refl
  close_each-sent (s ∷ ss) room o close =
      close_each-sent ss (close_client env room s o close).0 o close
      ∙ close_client-sent room s o close

  pub close_all_clients-sent :
      (room : Room) (o : Outcome) (close : Close)
      → (close_all_clients env room o close).0.sent ≡ room.sent
  unfolding close_all_clients
  close_all_clients-sent room o close = close_each-sent room.client_sockets room o close

  pub fail_server-sent :
      (room : Room) (s : SocketId) (a : ServerAttachment) (o : Outcome) (close : Close)
      → (fail_server env room s a o close).0.sent ≡ room.sent
  unfolding fail_server
  fail_server-sent room s a o close =
      let pending = room.pending_server_outcome s in
      let canonical = or_else pending o in
      let canonical_close =
        if is_none pending then close else rendezvous_close_for_outcome canonical in
      let noted : Room = record room {
        pending_server_outcome = put s (some canonical) room.pending_server_outcome;
        inactive_controls =
            if a.current
            then remember_bounded room.inactive_controls a.control_id max_ephemeral_connection_ids
            else room.inactive_controls;
      } in
      let retired = Attachment.server (record a { current = false }) in
      let owns = a.current || is_some pending in
      let written = if owns then try_write_attachment env noted s retired else (noted, true) in
      let clients =
        if owns
        then close_all_clients env written.0 canonical canonical_close
        else (written.0, true) in
      let closing = close_socket env clients.0 s canonical_close in
      either-sent (written.1 || closing.1)
        (record closing.0 {
          pending_server_outcome = put s none (closing.0).pending_server_outcome;
        })
        closing.0 closing.0 refl refl
      ∙ close-sent clients.0 s canonical_close
      ∙ branch-sent owns (close_all_clients env written.0 canonical canonical_close)
          (written.0, true) written.0 (close_all_clients-sent written.0 canonical canonical_close)
          refl
      ∙ branch-sent owns (try_write_attachment env noted s retired) (noted, true) noted
          (try_write-sent noted s retired) refl
