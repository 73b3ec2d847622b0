-- ===== src/Room/Relay/Resumed.antt =====
-- A server's frame behind the wait for its client's access.
use metaserver_worker.Common.{
  if◌then◌else◌, not, ℕ, ◌≡◌, ◌⊎◌, inl, inr, refl, ap, Bool, true, ◌&&◌, none, some, ◌∷◌, ltb, find,
  text_eq, arith, Bool-cases, Option-cases, text_eq_iff, [], ◌<◌, any, subst, sym,
}
use metaserver_worker.Room.State.{
  Environment, Room, SocketId, read_client_attachment, relayed, Ended, returned, unretired,
}
use metaserver_worker.Room.Rules.{ServerFrame}
use metaserver_worker.Room.Relay.{
  Delivery, Signal, ClientAttachment, read_client_attachment, redeliver, resume_server_frame,
  still_fits, ActiveServer, relayed, is_client_ticket, is_open_ticket, now_in, Ended, returned,
  unretired,
}
use metaserver_worker.Attachments.{ClientAttachment, ServerAttachment, candidate_exchange}
use metaserver_worker.Contract.{Signal, Outcome, authorization_failed_close}
use metaserver_worker.Room.Relay.Addressee.{deliver_frame-DeliversTo, refuse_client-sent}
use metaserver_worker.Room.Ownership.{
  ActiveServer, reconcile_active_server, current_open_servers, Reconciled,
}
use metaserver_worker.Room.Messages.Conditions.{some-same_text}
use metaserver_worker.Room.Messages.{now_in, same_text, refuse_client}
use metaserver_worker.Room.Relay.Settled.{
  IsRenewed, is_usable, found_usable, reconcile_settled, exchanges,
}

module _ (env : Environment) (s : SocketId) (kind : ServerFrame) (d : Delivery) (signal : Signal)
    (bytes : ℕ) where
  -- The frame went to the client, whose ticket the server still keeps.
  Redelivers : Room → ClientAttachment → ServerAttachment → Room → Type 0
  Redelivers room latest server after =
      (after.sent ≡ room.sent)
      ⊎ ((after.sent ≡ (d.target.socket, relayed signal) ∷ room.sent)
          × (latest.stage ≡ candidate_exchange)
          × (any (is_usable (now_in env room) d.ticket.ticket_digest latest.connection_id)
                server.tickets
              ≡ true))

  redeliver-Redelivers :
      (room : Room) (latest : ClientAttachment) (server : ServerAttachment)
      → Redelivers room latest server (redeliver env room s kind d latest server signal bytes).0
  unfolding redeliver Redelivers
  redeliver-Redelivers room latest server =
      let p = is_client_ticket d.ticket.ticket_digest latest.connection_id in
      let revoked =
        refuse_client-sent env room d.target.socket latest Outcome.authorization_failed
          authorization_failed_close in
      elim (Option-cases (find p server.tickets)) [
        | inl nothing ↦ rw (nothing, redeliver) (inl revoked)
        | inr (ticket, found) ↦
            elim (Bool-cases
              (is_open_ticket ticket.stage && ltb (now_in env room) ticket.expires_at)) [
                | inr late ↦ rw (found, late, redeliver) (inl revoked)
                | inl early ↦
                    let e : Delivery = record {
                      server = server;
                      ticket = ticket;
                      target = record { socket = d.target.socket; attachment = latest };
                    } in
                    let usable =
                      found_usable (now_in env room) d.ticket.ticket_digest latest.connection_id
                        server.tickets ticket found early in
                    elim (deliver_frame-DeliversTo env room s kind e signal bytes) [
                      | inl silent ↦ rw (found, early, redeliver) (inl silent)
                      | inr (out, ready, within) ↦
                          rw (found, early, redeliver)
                            (inr (out, exchanges latest.stage ready, usable))
                    ]
              ]
      ]

  fits_parts :
      (room : Room) (latest : ClientAttachment) (owner : ActiveServer) (live : Bool)
      → still_fits env room s d latest (some owner) live ≡ true
      → (live ≡ true)
        × (now_in env room < latest.expires_at)
        × (text_eq latest.connection_id d.target.attachment.connection_id ≡ true)
        × (same_text (some latest.generation) room.current_generation ≡ true)
        × ((room.socket d.target.socket).open_now ≡ true)
        × (owner.socket ≡ s)
        × (text_eq owner.attachment.control_id d.server.control_id ≡ true)
  unfolding still_fits
  fits_parts room latest owner live h = (
    ground arith,
    ground arith,
    ground arith,
    ground arith,
    ground arith,
    ground arith,
    ground arith,
  )

  -- What handleServerMessage comes to behind its second wait, in a settled room.
  resumed : Room → ActiveServer → Bool → Ended
  resumed room owner live = elim (read_client_attachment room d.target.socket) [
    | none ↦ (room, returned)
    | some latest ↦
        if still_fits env room s d latest (some owner) live
        then redeliver env room s kind d latest owner.attachment signal bytes
        else refuse_client env room d.target.socket latest Outcome.authorization_failed
            authorization_failed_close
  ]

  resumed_with : Reconciled → Room → Bool → Ended
  resumed_with r room live =
      if not r.sound
      then (r.room, unretired)
      else elim (read_client_attachment room d.target.socket) [
        | none ↦ (r.room, returned)
        | some latest ↦ elim r.active [
          | none ↦
              refuse_client env r.room d.target.socket latest Outcome.authorization_failed
                authorization_failed_close
          | some owner ↦
              if still_fits env r.room s d latest (some owner) live
              then redeliver env r.room s kind d latest owner.attachment signal bytes
              else refuse_client env r.room d.target.socket latest Outcome.authorization_failed
                  authorization_failed_close
        ]
      ]

  resume_settled :
      (room : Room) (owner : ActiveServer) (live : Bool)
      → reconcile_active_server env room none
        ≡ record { room = room; active = some owner; sound = true }
      → resume_server_frame env room s kind d signal bytes live ≡ resumed room owner live
  unfolding resume_server_frame resumed_with resumed
  resume_settled room owner live settled = ap (λ r. resumed_with r room live) settled

  resumed-Renewed :
      (room : Room) (owner : ActiveServer) (live : Bool)
      → ((resumed room owner live).0.sent ≡ room.sent)
        ⊎ ((latest : ClientAttachment) × ((resumed room owner live).0.sent
              ≡ (d.target.socket, relayed signal) ∷ room.sent)
            × IsRenewed env room s d owner latest live)
  unfolding resumed Redelivers
  resumed-Renewed room owner live =
      elim (Option-cases (read_client_attachment room d.target.socket)) [
        | inl nothing ↦ rw (nothing, resumed) (inl refl)
        | inr (latest, held) ↦
            elim (Bool-cases (still_fits env room s d latest (some owner) live)) [
              | inr changed ↦
                  rw (held, changed, resumed)
                    (inl (
                      refuse_client-sent env room d.target.socket latest
                        Outcome.authorization_failed authorization_failed_close))
              | inl fits ↦
                  let (allowed, early, same, newest, up, from, control) =
                    fits_parts room latest owner live fits in
                  elim (redeliver-Redelivers room latest owner.attachment) [
                    | inl silent ↦ rw (held, fits, resumed) (inl silent)
                    | inr (out, exchanging, ticket) ↦
                        rw (held, fits, resumed)
                          (inr (
                            latest,
                            out,
                            record {
                              is_allowed = allowed;
                              is_stored = held;
                              is_exchanging_now = exchanging;
                              in_time = early;
                              same_client =
                                  (text_eq_iff latest.connection_id
                                      d.target.attachment.connection_id).0
                                    same;
                              is_current =
                                  some-same_text room.current_generation latest.generation newest;
                              is_open = up;
                              is_sent_by_owner = from;
                              same_control =
                                  (text_eq_iff owner.attachment.control_id d.server.control_id).0
                                    control;
                              has_ticket = ticket;
                            },
                          ))
                  ]
            ]
      ]

  -- Behind the wait for its client's access, in a room where no teardown of a server is pending and
  -- one server control is open and current, a server's frame sends nothing, or itself to the socket
  -- that it was on its way to. It is sent only where the access was live; where that socket is open
  -- and stores the same client, which is in candidate exchange, has not expired and is of the
  -- room's generation; and where the room's control is on the socket that the frame came from,
  -- under the identifier it had, and keeps the client's ticket, open and not expired.
  pub resume_server_frame-Renewed :
      (room : Room) (owner : ActiveServer) (live : Bool)
      → ((t : SocketId) → room.pending_server_outcome t ≡ none)
      → current_open_servers room none ≡ owner ∷ []
      → ((resume_server_frame env room s kind d signal bytes live).0.sent ≡ room.sent)
        ⊎ ((latest : ClientAttachment) × ((resume_server_frame env room s kind d signal bytes
                live).0.sent
              ≡ (d.target.socket, relayed signal) ∷ room.sent)
            × IsRenewed env room s d owner latest live)
  resume_server_frame-Renewed room owner live idle sole =
      subst
        (λ (e : Ended).
          (e.0.sent ≡ room.sent)
          ⊎ ((latest : ClientAttachment) × (e.0.sent
                ≡ (d.target.socket, relayed signal) ∷ room.sent)
              × IsRenewed env room s d owner latest live))
        (sym (resume_settled room owner live (reconcile_settled env room owner idle sole)))
        (resumed-Renewed room owner live)
