-- ===== src/Room/Relay/Addressee.antt =====
-- Whom a server's frame reaches: the one open client that holds its ticket, or nobody.
use metaserver_worker.Common.{
  ℕ, suc, ◌+◌, ◌≡◌, ◌⊎◌, inl, inr, refl, ap, ◌∙◌, Bool, true, false, ◌∷◌, Bool-cases, Option-cases,
  is_some,
}
use metaserver_worker.Room.State.{
  Environment, Room, settled, performed, SocketId, Ended, relayed, then_on, try_write_attachment,
  returned, unretired, thrown,
}
use metaserver_worker.Room.Relay.{
  send_frame, ClientAttachment, Signal, ServerFrame, ServerAttachment, relayed, TicketClient,
  write_client, write_server, Ended, then_on, copy_ticket_budget_to_client, write_target,
  deliver_frame, Delivery, apply_server_frame_budget, with_ticket, used_ticket, count_frame,
  deliver_billed,
}
use metaserver_worker.Room.Rules.{
  ServerFrame, copy_ticket_budget_to_client, completion, apply_server_frame_budget, candidate,
}
use metaserver_worker.Attachments.{ServerAttachment, ClientAttachment, TicketState, server, client}
use metaserver_worker.Contract.{
  Signal, Outcome, Close, internal_error_close, normal_close, protocol_error_close,
}
use metaserver_worker.Room.Messages.{
  write_client, write_server, refuse_client, refuse_server, is_exchanging,
}
use metaserver_worker.Room.Teardown.{fail_server, fail_client}
use metaserver_worker.Room.Silent.{try_write-sent, fail_client-sent, fail_server-sent}

-- A handler sent nothing, or the one frame to the one socket.
abbrev pub Sends : Room → SocketId → Signal → Room → Type 0
Sends room s signal after =
    (after.sent ≡ room.sent) ⊎ (after.sent ≡ (s, relayed signal) ∷ room.sent)

-- How a frame is delivered at once.
abbrev pub DeliversTo : Room → Delivery → ServerFrame → Signal → ℕ → Room → Type 0
DeliversTo room d kind signal bytes after =
    (after.sent ≡ room.sent)
    ⊎ ((after.sent ≡ (d.target.socket, relayed signal) ∷ room.sent)
        × (is_exchanging d.target.attachment.stage ≡ true)
        × is_some (apply_server_frame_budget d.ticket kind bytes) ≡ true)

settled-sent : (r : Room × Bool) → (settled r).0.sent ≡ r.0.sent
settled-sent (room, true) = refl
settled-sent (room, false) = refl

performed-sent : (r : Room × Bool) → (performed r).0.sent ≡ r.0.sent
performed-sent (room, true) = refl
performed-sent (room, false) = refl

pub then_on-Sends :
    (room : Room) (s : SocketId) (signal : Signal) (e : Ended) (next : Room → Ended)
    → e.0.sent ≡ room.sent
    → ((r : Room) → r.sent ≡ room.sent → Sends room s signal (next r).0)
    → Sends room s signal (then_on e next).0
then_on-Sends room s signal (r, returned) next h k = k r h
then_on-Sends room s signal (r, unretired) next h k = inl h
then_on-Sends room s signal (r, thrown) next h k = inl h

module _ (env : Environment) where
  pub refuse_client-sent :
      (room : Room) (s : SocketId) (a : ClientAttachment) (o : Outcome) (close : Close)
      → (refuse_client env room s a o close).0.sent ≡ room.sent
  refuse_client-sent room s a o close =
      settled-sent (fail_client env room s a o close) ∙ fail_client-sent env room s a o close

  pub refuse_server-sent :
      (room : Room) (s : SocketId) (a : ServerAttachment) (o : Outcome) (close : Close)
      → (refuse_server env room s a o close).0.sent ≡ room.sent
  refuse_server-sent room s a o close =
      settled-sent (fail_server env room s a o close) ∙ fail_server-sent env room s a o close

  pub write_client-sent :
      (room : Room) (s : SocketId) (a : ClientAttachment)
      → (write_client env s a room).0.sent ≡ room.sent
  write_client-sent room s a =
      performed-sent (try_write_attachment env room s (client a))
      ∙ try_write-sent env room s (client a)

  pub write_server-sent :
      (room : Room) (s : SocketId) (a : ServerAttachment)
      → (write_server env s a room).0.sent ≡ room.sent
  write_server-sent room s a =
      performed-sent (try_write_attachment env room s (server a))
      ∙ try_write-sent env room s (server a)

  count_frame-sent :
      (kind : ServerFrame) (s : SocketId) (a : ClientAttachment) (room : Room)
      → (count_frame env kind s a room).0.sent ≡ room.sent
  unfolding count_frame
  count_frame-sent completion s a room = refuse_client-sent room s a Outcome.completed normal_close
  count_frame-sent candidate s a room = write_client-sent room s a

  pub send_frame-Sends :
      (kind : ServerFrame) (target : TicketClient) (ticket : TicketState) (signal : Signal)
      (room : Room)
      → Sends room target.socket signal (send_frame env kind target ticket signal room).0
  unfolding send_frame
  send_frame-Sends kind target ticket signal room =
      let billed = copy_ticket_budget_to_client target.attachment ticket in
      let counted : ClientAttachment = record billed {
        frames_forwarded = billed.frames_forwarded + 1;
      } in
      let unsent : Room = record room { calls = suc room.calls } in
      let out : Room = record unsent { sent = (target.socket, relayed signal) ∷ room.sent } in
      elim (Bool-cases (env.send_throws room.calls)) [
        | inl fault ↦ rw fault (
            inl (
              refuse_client-sent unsent target.socket billed Outcome.internal_error
                internal_error_close))
        | inr sends ↦ rw sends (inr (count_frame-sent kind target.socket counted out))
      ]

  qualified :
      {P Q : Type 0} (room after : Room) (s : SocketId) (signal : Signal)
      → P
      → Q
      → Sends room s signal after
      → (after.sent ≡ room.sent) ⊎ ((after.sent ≡ (s, relayed signal) ∷ room.sent) × P × Q)
  qualified room after s signal p q (inl h) = inl h
  qualified room after s signal p q (inr h) = inr (h, p, q)

  write_target-sent :
      (kind : ServerFrame) (target : TicketClient) (ticket : TicketState) (room : Room)
      → (write_target env kind target ticket room).0.sent ≡ room.sent
  write_target-sent completion target ticket room = refl
  write_target-sent candidate target ticket room =
      write_client-sent room target.socket (copy_ticket_budget_to_client target.attachment ticket)

  pub from :
      (room r after : Room) (s : SocketId) (signal : Signal)
      → r.sent ≡ room.sent
      → Sends r s signal after
      → Sends room s signal after
  from room r after s signal e (inl h) = inl (h ∙ e)
  from room r after s signal e (inr h) = inr (h ∙ ap (λ l. (s, relayed signal) ∷ l) e)

  deliver_billed-Sends :
      (room : Room) (s : SocketId) (kind : ServerFrame) (d : Delivery) (billed : TicketState)
      (signal : Signal)
      → Sends room d.target.socket signal (deliver_billed env room s kind d billed signal).0
  unfolding deliver_billed
  deliver_billed-Sends room s kind d billed signal =
      let used = used_ticket kind billed in
      let target = d.target.socket in
      then_on-Sends room target signal (write_server env s (with_ticket d.server used) room)
        (λ r.
          then_on (write_target env kind d.target billed r)
            (send_frame env kind d.target used signal))
        (write_server-sent room s (with_ticket d.server used))
        (λ r same_sent.
          then_on-Sends room target signal (write_target env kind d.target billed r)
            (send_frame env kind d.target used signal)
            (write_target-sent kind d.target billed r ∙ same_sent)
            (λ q same_sent'.
              from room q (send_frame env kind d.target used signal q).0 target signal same_sent'
                (send_frame-Sends kind d.target used signal q)))

  pub deliver_frame-DeliversTo :
      (room : Room) (s : SocketId) (kind : ServerFrame) (d : Delivery) (signal : Signal) (bytes : ℕ)
      → DeliversTo room d kind signal bytes (deliver_frame env room s kind d signal bytes).0
  unfolding deliver_frame
  deliver_frame-DeliversTo room s kind d signal bytes =
      elim (Option-cases (apply_server_frame_budget d.ticket kind bytes)) [
        | inl over ↦
            rw (over, deliver_frame)
              (inl (refuse_server-sent room s d.server Outcome.protocol_error protocol_error_close))
        | inr (billed, within) ↦ elim (Bool-cases (is_exchanging d.target.attachment.stage)) [
          | inr early ↦
              rw (within, early, deliver_frame)
                (inl (
                  refuse_server-sent room s (with_ticket d.server billed) Outcome.protocol_error
                    protocol_error_close))
          | inl ready ↦
              rw (within, ready, deliver_frame)
                (qualified room (deliver_billed env room s kind d billed signal).0 d.target.socket
                  signal refl refl (deliver_billed-Sends room s kind d billed signal))
        ]
      ]
