-- ===== src/Room/Messages/Begin.antt =====
-- A client's first frame behind its waits, up to the checks of its owner.
use metaserver_worker.Common.{
  ◌<◌, ◌≡◌, ◌⊎◌, inl, inr, refl, ap, ◌∙◌, true, ◌&&◌, Option, none, some, ◌∷◌, leb, Text, text_eq,
  arith, Bool-cases, Option-cases, &&_left,
}
use metaserver_worker.Room.State.{
  Environment, SocketId, Room, read_client_attachment, relayed, Ended,
}
use metaserver_worker.Room.Messages.{
  Parsed, Learned, check_client, Room, ClientAttachment, ActiveServer, Outcome, is_authorized,
  refuse_client, begin_client_ticket, offer_ticket, is_awaiting, now_in, is_unrestricted,
  read_client_attachment, reconcile_active_server, relayed, serves, Ended,
}
use metaserver_worker.Attachments.{ClientAttachment}
use metaserver_worker.Room.Ownership.{ActiveServer, reconcile_active_server}
use metaserver_worker.Room.Messages.Opening.{Opens, open_ticket-Opens}
use metaserver_worker.Room.Messages.Conditions.{IsOpened}
use metaserver_worker.Contract.{
  Outcome, Close, authorization_failed_close, normal_close, internal_error_close,
  server_unavailable_close, protocol_error_close, session_expired_close,
}
use metaserver_worker.Room.Relay.Addressee.{refuse_client-sent}
use metaserver_worker.Room.Ownership.Unsent.{reconcile-sent}
use metaserver_worker.Room.Silent.{close-sent}

module _ (env : Environment) (s : SocketId) (ticket : Text) (parsed : Parsed)
    (learned : Learned) where
  refused :
      (room : Room) (before current : ClientAttachment) (owning : Option ActiveServer) (o : Outcome)
      (close : Close)
      → Opens env room before current owning ticket parsed learned
          (refuse_client env room s current o close).0
  refused room before current owning o close = inl (refuse_client-sent env room s current o close)

  offer_ticket-Opens :
      (room : Room) (before current : ClientAttachment) (owning : Option ActiveServer)
      → is_authorized before current ticket learned ≡ true
      → is_awaiting current.stage ≡ true
      → now_in env room < current.expires_at
      → Opens env room before current owning ticket parsed learned
          (offer_ticket env room s current owning ticket parsed learned.digest).0
  unfolding offer_ticket
  offer_ticket-Opens room before current none allowed waits early =
      refused room before current none Outcome.server_unavailable server_unavailable_close
  offer_ticket-Opens room before current (some owner) allowed waits early =
      elim (Bool-cases (serves room (some owner) current)) [
        | inr other ↦
            rw (other, offer_ticket)
              (refused room before current (some owner) Outcome.server_unavailable
                server_unavailable_close)
        | inl served ↦
            rw (served, offer_ticket)
              (open_ticket-Opens env s room before current owner ticket parsed learned allowed waits
                early served)
      ]

  check_client-Opens :
      (room : Room) (before current : ClientAttachment) (owning : Option ActiveServer)
      → Opens env room before current owning ticket parsed learned
          (check_client env room s before current owning ticket parsed learned).0
  unfolding check_client
  check_client-Opens room before current owning =
      let no = refused room before current owning in
      elim (Bool-cases (is_authorized before current ticket learned)) [
        | inr bad ↦
            rw (bad, check_client) (no Outcome.authorization_failed authorization_failed_close)
        | inl allowed ↦ elim (Bool-cases (room.socket s).open_now) [
          | inr gone ↦
              rw (allowed, gone, check_client) (no Outcome.client_disconnected normal_close)
          | inl up ↦ elim (Bool-cases (text_eq current.connection_id before.connection_id)) [
            | inr other ↦
                rw (allowed, up, other, check_client)
                  (no Outcome.internal_error internal_error_close)
            | inl same ↦
                elim (Bool-cases
                  (is_awaiting current.stage && is_unrestricted current.authorization)) [
                    | inr moved ↦
                        rw (allowed, up, same, moved, check_client)
                          (no Outcome.protocol_error protocol_error_close)
                    | inl waits ↦ elim (Bool-cases (leb current.expires_at (now_in env room))) [
                      | inl late ↦
                          rw (allowed, up, same, waits, late, check_client)
                            (no Outcome.session_expired session_expired_close)
                      | inr early ↦
                          rw (allowed, up, same, waits, early, check_client)
                            (offer_ticket-Opens room before current owning allowed
                              (&&_left _ _ waits) (ground arith))
                    ]
                  ]
          ]
        ]
      ]

  -- A client's first frame, behind its waits, sends nothing, or itself to the one server that owns
  -- the room. It is sent only where the attachment that the client had stored when the handler went
  -- on, before the owner was settled, awaits its candidate, has not expired, is bound to the
  -- ticket's hash and, if the client was granted access before the waits, has that redemption and a
  -- grant of this ticket, which is live; where the owner has the client's control and generation,
  -- which is the room's; and where the owner has fewer than 50 unexpired tickets, none of which has
  -- the digest.
  pub begin_client_ticket-Opens :
      (room : Room) (before : ClientAttachment)
      → ((begin_client_ticket env room s before ticket parsed learned).0.sent ≡ room.sent)
        ⊎ ((current : ClientAttachment) × (owner : ActiveServer) × (read_client_attachment room s
              ≡ some current)
            × ((reconcile_active_server env room none).active ≡ some owner)
            × ((begin_client_ticket env room s before ticket parsed learned).0.sent
                ≡ (owner.socket, relayed parsed.signal) ∷ room.sent)
            × IsOpened env
                (reconcile_active_server env room none).room
                before
                current
                ticket
                learned
                owner)
  unfolding begin_client_ticket
  begin_client_ticket-Opens room before =
      let reconciled = reconcile_active_server env room none in
      let quiet = reconcile-sent env room none in
      elim (Bool-cases reconciled.sound) [
        | inr bad ↦ rw (bad, begin_client_ticket) (inl quiet)
        | inl good ↦ elim (Option-cases (read_client_attachment room s)) [
          | inl nothing ↦
              rw (good, nothing, begin_client_ticket)
                (inl (close-sent env reconciled.room s internal_error_close ∙ quiet))
          | inr (current, held) ↦
              let same_end : begin_client_ticket env room s before ticket parsed learned
                  ≡ check_client env reconciled.room s before current reconciled.active ticket
                      parsed learned =
                rw (good, held, begin_client_ticket) refl in
              let kept = ap (λ (e : Ended). e.0.sent) same_end in
              elim (check_client-Opens reconciled.room before current reconciled.active) [
                | inl silent ↦ inl (kept ∙ silent ∙ quiet)
                | inr (owner, owns, out, opened) ↦ inr (
                  current,
                  owner,
                  held,
                  owns,
                  kept ∙ out ∙ ap (λ l. (owner.socket, relayed parsed.signal) ∷ l) quiet,
                  opened,
                )
              ]
        ]
      ]
