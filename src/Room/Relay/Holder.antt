-- ===== src/Room/Relay/Holder.antt =====
-- A server's frame reaches the client that opened its ticket, and no other.
use metaserver_worker.Common.{
  ℕ, ◌<◌, ◌≡◌, inl, inr, refl, sym, ap, subst, ◌∙◌, Bool, true, false, ◌&&◌, Option, none, some,
  List, [], ◌∷◌, ltb, ◌==◌, if◌then◌else◌, any, find, Text, text_eq, arith, Bool-cases,
  Option-cases, is_some, text_eq_iff, some-injective, ltb→lt,
}
use metaserver_worker.Room.State.{
  Room, read_client_attachment, SocketId, Environment, relayed, read_server_attachment,
}
use metaserver_worker.Room.Messages.{same_text, now_in}
use metaserver_worker.Attachments.{ServerAttachment, TicketState, ClientAttachment}
use metaserver_worker.Room.Relay.{
  Delivery, read_client_attachment, TicketClient, is_terminal, ticket_client_among,
  ticket_client_on, holds_ticket, SocketId, Environment, ServerFrame, Signal, Turn, deliver_frame,
  relayed, end_ticket, apply_server_frame_budget, ends, delivers, rechecks, find_delivery,
  find_ticket_client, is_ticket, receive_server_frame, is_open_ticket, reconcile_active_server,
  read_server_attachment, is_sender, prune_ticket_list,
}
use metaserver_worker.Room.Teardown.{is_terminal}
use metaserver_worker.Room.Rules.{ServerFrame, apply_server_frame_budget, prune_ticket_list}
use metaserver_worker.Contract.{Signal, Outcome, protocol_error_close, internal_error_close}
use metaserver_worker.Room.Relay.Addressee.{
  refuse_server-sent, write_server-sent, DeliversTo, deliver_frame-DeliversTo,
}
use metaserver_worker.Room.Ownership.{reconcile_active_server}
use metaserver_worker.Room.Ownership.Unsent.{reconcile-sent}
use metaserver_worker.Room.Silent.{close-sent}

-- The delivery's client is an open client socket of the room, the stored attachment of which holds
-- the raw ticket and its digest, on the server's control, and has neither ended nor expired.
pub record IsHolder (room : Room) (now : ℕ) (raw digest : Text) (d : Delivery) : Type 0 where
  pub is_listed : any (λ t. d.target.socket == t) room.client_sockets ≡ true
  pub is_open : (room.socket d.target.socket).open_now ≡ true
  pub is_stored : read_client_attachment room d.target.socket ≡ some d.target.attachment
  pub same_ticket : d.target.attachment.ticket ≡ some raw
  pub same_digest : d.target.attachment.ticket_digest ≡ some digest
  pub same_control : d.target.attachment.control_id ≡ d.server.control_id
  pub same_client : d.target.attachment.connection_id ≡ d.ticket.client_connection_id
  pub is_live : is_terminal d.target.attachment.stage ≡ false
  pub in_time : now < d.target.attachment.expires_at

find_sound {ℓ} : {A : Type ℓ} (p : A → Bool) (xs : List A) (x : A) → find p xs ≡ some x → p x ≡ true
unfolding find
find_sound p [] x h = cc
find_sound p (y ∷ ys) x h = elim (Bool-cases (p y)) [
  | inl fits ↦ ground arith
  | inr other ↦ ground (arith, find_sound p ys x)
]

same_text_eq : (o : Option Text) (t : Text) → same_text o (some t) ≡ true → o ≡ some t
same_text_eq none t h = cc
same_text_eq (some u) t h = ap some ((text_eq_iff u t).0 h)

-- What the search for a ticket's client found on a socket.
record IsFound (room : Room) (server : ServerAttachment) (ticket : TicketState) (raw : Text)
    (now : ℕ) (found : TicketClient) : Type 0 where
  is_open : (room.socket found.socket).open_now ≡ true
  is_stored : read_client_attachment room found.socket ≡ some found.attachment
  fits : holds_ticket server ticket raw now found.attachment ≡ true

none-ne_some {ℓ} : {A : Type ℓ} (a : A) → none ≡ some a → ⊥
none-ne_some a h = cc

module _ (room : Room) (server : ServerAttachment) (ticket : TicketState) (raw : Text)
    (now : ℕ) where
  ticket_client_on-IsFound :
      (s : SocketId) (found : TicketClient)
      → ticket_client_on room server ticket raw now s ≡ some found
      → (found.socket ≡ s) × IsFound room server ticket raw now found
  unfolding ticket_client_on
  ticket_client_on-IsFound s found h = elim (Bool-cases (room.socket s).open_now) [
    | inr shut ↦ absurd (none-ne_some found (sym (rw (shut, ticket_client_on) refl) ∙ h))
    | inl up ↦ elim (Option-cases (read_client_attachment room s)) [
      | inl nothing ↦
          absurd (none-ne_some found (sym (rw (up, nothing, ticket_client_on) refl) ∙ h))
      | inr (a, held) ↦ elim (Bool-cases (holds_ticket server ticket raw now a)) [
        | inr other ↦
            absurd (none-ne_some found (sym (rw (up, held, other, ticket_client_on) refl) ∙ h))
        | inl fitting ↦
            let made : TicketClient = record { socket = s; attachment = a } in
            let same : made ≡ found =
              some-injective made found (sym (rw (up, held, fitting, ticket_client_on) refl) ∙ h) in
            subst (λ q. (q.socket ≡ s) × IsFound room server ticket raw now q) same
              (refl, record { is_open = up; is_stored = held; fits = fitting })
      ]
    ]
  ]

  ticket_client_among-IsFound :
      (ss : List SocketId) (found : TicketClient)
      → ticket_client_among room server ticket raw now ss ≡ some found
      → (any (λ t. found.socket == t) ss ≡ true) × IsFound room server ticket raw now found
  unfolding ticket_client_among
  ticket_client_among-IsFound [] found h = cc
  ticket_client_among-IsFound (s ∷ ss) found h =
      elim (Option-cases (ticket_client_on room server ticket raw now s)) [
        | inl nothing ↦
            let (listed, fits) =
              ticket_client_among-IsFound ss found (rw (nothing, ticket_client_among) at h) in
            (ground arith, fits)
        | inr (other, here) ↦
            let same : other ≡ found =
              some-injective other found (rw (here, ticket_client_among) at h) in
            let (at_s, fits) = ticket_client_on-IsFound s found (here ∙ ap some same) in
            (ground arith, fits)
      ]

then_some {ℓ} :
    {A : Type ℓ} (b : Bool) (o : Option A) (a : A) → (if b then o else none) ≡ some a → o ≡ some a
then_some true o a h = h
then_some false o a h = cc

holds_parts :
    (server : ServerAttachment) (ticket : TicketState) (raw : Text) (now : ℕ) (a : ClientAttachment)
    → holds_ticket server ticket raw now a ≡ true
    → (text_eq a.control_id server.control_id ≡ true)
      × (text_eq a.connection_id ticket.client_connection_id ≡ true)
      × (is_terminal a.stage ≡ false)
      × (ltb now a.expires_at ≡ true)
      × (same_text a.ticket_digest (some ticket.ticket_digest) ≡ true)
      × (same_text a.ticket (some raw) ≡ true)
unfolding holds_ticket
holds_parts server ticket raw now a h = ground arith

find_ticket_client-IsHolder :
    (room : Room) (server : ServerAttachment) (ticket : TicketState) (raw digest : Text) (now : ℕ)
    (target : TicketClient)
    → is_ticket digest ticket ≡ true
    → find_ticket_client room server ticket raw now ≡ some target
    → IsHolder room now raw digest (record { server = server; ticket = ticket; target = target })
unfolding find_ticket_client
find_ticket_client-IsHolder room server ticket raw digest now target same found =
    let among =
      then_some (is_open_ticket ticket.stage && ltb now ticket.expires_at)
        (ticket_client_among room server ticket raw now room.client_sockets) target found in
    let (listed, at) =
      ticket_client_among-IsFound room server ticket raw now room.client_sockets target among in
    let (control, opener, live, early, held, exact) =
      holds_parts server ticket raw now target.attachment at.fits in
    record {
      is_listed = listed;
      is_open = at.is_open;
      is_stored = at.is_stored;
      same_ticket = same_text_eq target.attachment.ticket raw exact;
      same_digest =
          same_text_eq target.attachment.ticket_digest ticket.ticket_digest held
          ∙ ap some ((text_eq_iff ticket.ticket_digest digest).0 same);
      same_control = (text_eq_iff target.attachment.control_id server.control_id).0 control;
      same_client =
          (text_eq_iff target.attachment.connection_id ticket.client_connection_id).0 opener;
      is_live = live;
      in_time = ltb→lt now target.attachment.expires_at early;
    }

module _ (env : Environment) (s : SocketId) (kind : ServerFrame) (raw digest : Text)
    (signal : Signal) (bytes : ℕ) where
  -- What a turn may have sent, and to whom it may still send.
  abbrev pub Confined : Room → Turn → Type 0
  Confined room (ends e) = e.0.sent ≡ room.sent
  Confined room (delivers next d) =
      IsHolder next (now_in env next) raw digest d
      × DeliversTo room d kind signal bytes (deliver_frame env next s kind d signal bytes).0
  Confined room (rechecks next d) =
      (next.sent ≡ room.sent) × IsHolder next (now_in env next) raw digest d

  Confined-from :
      (room next : Room) (turn : Turn)
      → next.sent ≡ room.sent
      → Confined next turn
      → Confined room turn
  Confined-from room next (ends e) same h = h ∙ same
  Confined-from room next (delivers q d) same (holder, inl silent) = (holder, inl (silent ∙ same))
  Confined-from room next (delivers q d) same (holder, inr (out, ready, within)) =
      (holder, inr (out ∙ ap (λ l. (d.target.socket, relayed signal) ∷ l) same, ready, within))
  Confined-from room next (rechecks q d) same (e, holder) = (e ∙ same, holder)

  end_ticket-sent :
      (room : Room) (server : ServerAttachment) (ticket : TicketState)
      → (end_ticket env room s kind server ticket bytes).0.sent ≡ room.sent
  unfolding end_ticket
  end_ticket-sent room server ticket =
      elim (Option-cases (apply_server_frame_budget ticket kind bytes)) [
        | inl over ↦
            rw (over, end_ticket)
              (refuse_server-sent env room s server Outcome.protocol_error protocol_error_close)
        | inr (billed, within) ↦ rw (within, end_ticket) (write_server-sent env room s _)
      ]

  find_delivery-Confined :
      (room : Room) (server : ServerAttachment)
      → Confined room (find_delivery env room s kind server raw digest bytes)
  unfolding find_delivery
  find_delivery-Confined room server =
      elim (Option-cases (find (is_ticket digest) server.tickets)) [
        | inl nothing ↦
            rw (nothing, find_delivery)
              (refuse_server-sent env room s server Outcome.protocol_error protocol_error_close)
        | inr (ticket, listed) ↦
            elim (Option-cases (find_ticket_client room server ticket raw (now_in env room))) [
              | inl nobody ↦ rw (listed, nobody, find_delivery) (end_ticket-sent room server ticket)
              | inr (target, found) ↦
                  let d : Delivery = record { server = server; ticket = ticket; target = target } in
                  let holder =
                    find_ticket_client-IsHolder room server ticket raw digest (now_in env room)
                      target (find_sound (is_ticket digest) server.tickets ticket listed) found in
                  elim (Bool-cases (is_some target.attachment.access_redemption)) [
                    | inl granted ↦ rw (listed, found, granted, find_delivery) (refl, holder)
                    | inr plain ↦
                        rw (listed, found, plain, find_delivery)
                          (holder, deliver_frame-DeliversTo env room s kind d signal bytes)
                  ]
            ]
      ]

  -- Behind the digest of its ticket, a server's frame ends without a frame sent, or it is on its
  -- way to the client that holds the ticket: an open client socket of the room, the stored
  -- attachment of which has the raw ticket and its digest, is on the server's control, opened the
  -- ticket, and has neither ended nor expired. A delivery at once sends nothing, or that one frame
  -- to that socket; it sends only to a client in the exchange, and only a frame within the
  -- ticket's budget. Where the client's access is asked for first, nothing is sent before.
  pub receive_server_frame-Confined :
      (room : Room) (before : ServerAttachment)
      → Confined room (receive_server_frame env room s kind before raw digest bytes)
  unfolding receive_server_frame
  receive_server_frame-Confined room before =
      let reconciled = reconcile_active_server env room none in
      let quiet = reconcile-sent env room none in
      elim (Bool-cases reconciled.sound) [
        | inr bad ↦ rw (bad, receive_server_frame) quiet
        | inl good ↦ elim (Option-cases (read_server_attachment room s)) [
          | inl nothing ↦
              rw (good, nothing, receive_server_frame)
                (close-sent env reconciled.room s internal_error_close ∙ quiet)
          | inr (current, held) ↦
              elim (Bool-cases (is_sender reconciled.room s before current reconciled.active)) [
                | inr stranger ↦
                    rw (good, held, stranger, receive_server_frame)
                      (close-sent env reconciled.room s internal_error_close ∙ quiet)
                | inl sender ↦
                    rw (good, held, sender, receive_server_frame)
                      (Confined-from room reconciled.room _ quiet (
                        find_delivery-Confined reconciled.room
                          (prune_ticket_list current (now_in env reconciled.room)).0))
              ]
        ]
      ]
