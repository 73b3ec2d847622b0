-- ===== src/Room/Messages/Opening.antt =====
-- When a client's first frame opens a ticket, and to whom the frame goes.
use metaserver_worker.Common.{
  suc, ◌+◌, ◌<◌, ◌≡◌, ◌⊎◌, inl, inr, refl, ap, ◌∙◌, true, false, Option, some, [], ◌∷◌, ◌++◌, leb,
  length, any, Text, text_eq, arith, Bool-cases, subst,
}
use metaserver_worker.Room.State.{
  Environment, SocketId, Room, relayed, try_write_attachment, then_on, Ended,
}
use metaserver_worker.Attachments.{ClientAttachment, TicketState, client, max_retained_tickets}
use metaserver_worker.Room.Ownership.{ActiveServer}
use metaserver_worker.Room.Messages.{
  relay_first, Parsed, Signal, Learned, relayed, is_authorized, prune_ticket_list, now_in,
  try_write_attachment, is_awaiting, serves, open_ticket, write_opened, exchanging_client,
  write_client, then_on, opened_ticket, write_server, Ended,
}
use metaserver_worker.Contract.{
  Signal, Outcome, server_unavailable_close, internal_error_close, protocol_error_close,
}
use metaserver_worker.Room.Relay.Addressee.{
  Sends, refuse_server-sent, refuse_client-sent, then_on-Sends, write_client-sent,
  write_server-sent, from,
}
use metaserver_worker.Room.Rules.{prune_ticket_list}
use metaserver_worker.Room.Silent.{try_write-sent}
use metaserver_worker.Room.Messages.Conditions.{
  IsOpened, kept_tickets, authorized_parts, serves_parts, awaits, pruned_tickets,
}

-- A handler sent nothing, or the frame to the owner of the room where all of that held.
abbrev pub Opens :
    Environment
    → Room
    → ClientAttachment
    → ClientAttachment
    → Option ActiveServer
    → Text
    → Parsed
    → Learned
    → Room
    → Type 0
Opens env room before current owning ticket parsed learned after =
    (after.sent ≡ room.sent)
    ⊎ ((owner : ActiveServer) × (owning ≡ some owner)
        × (after.sent ≡ (owner.socket, relayed parsed.signal) ∷ room.sent)
        × IsOpened env room before current ticket learned owner)

module _ (env : Environment) (s : SocketId) where
  relay_first-Sends :
      (opened : ClientAttachment) (owner : ActiveServer) (signal : Signal) (room : Room)
      → Sends room owner.socket signal (relay_first env s opened owner signal room).0
  unfolding relay_first
  relay_first-Sends opened owner signal room =
      let counted : ClientAttachment = record opened {
        frames_forwarded = opened.frames_forwarded + 1;
      } in
      let unsent : Room = record room { calls = suc room.calls } in
      let out : Room = record unsent { sent = (owner.socket, relayed signal) ∷ room.sent } in
      let written = try_write_attachment env out s (client counted) in
      let quiet = try_write-sent env out s (client counted) in
      elim (Bool-cases (env.send_throws room.calls)) [
        | inl fault ↦ rw fault (
            inl (
              refuse_server-sent env unsent owner.socket owner.attachment Outcome.server_unavailable
                server_unavailable_close))
        | inr sends ↦ elim (Bool-cases written.1) [
          | inl kept ↦ rw (sends, kept) (inr quiet)
          | inr lost ↦
              rw (sends, lost)
                (inr (
                  refuse_client-sent env written.0 s counted Outcome.internal_error
                    internal_error_close
                  ∙ quiet))
        ]
      ]

  write_opened-Sends :
      (opened : ClientAttachment) (owner : ActiveServer) (signal : Signal) (room : Room)
      → Sends room owner.socket signal (write_opened env s opened owner signal room).0
  unfolding write_opened
  write_opened-Sends opened owner signal room =
      then_on-Sends room owner.socket signal (write_client env s opened room)
        (λ r.
          then_on (write_server env owner.socket owner.attachment r)
            (relay_first env s opened owner signal))
        (write_client-sent env room s opened)
        (λ r same.
          then_on-Sends room owner.socket signal (write_server env owner.socket owner.attachment r)
            (relay_first env s opened owner signal)
            (write_server-sent env r owner.socket owner.attachment ∙ same)
            (λ q same'.
              from env room q (relay_first env s opened owner signal q).0 owner.socket signal same'
                (relay_first-Sends opened owner signal q)))

  -- The rest of the conditions, once the owner is known to serve the client.
  pub open_ticket-Opens :
      (room : Room) (before current : ClientAttachment) (owner : ActiveServer) (ticket : Text)
      (parsed : Parsed) (learned : Learned)
      → is_authorized before current ticket learned ≡ true
      → is_awaiting current.stage ≡ true
      → now_in env room < current.expires_at
      → serves room (some owner) current ≡ true
      → Opens env room before current
          (some owner)
          ticket
          parsed
          learned
          (open_ticket env room s current owner ticket parsed learned.digest).0
  unfolding open_ticket
  open_ticket-Opens room before current owner ticket parsed learned allowed waiting early served =
      let kept = kept_tickets env room owner in
      let pruned = (prune_ticket_list owner.attachment (now_in env room)).0 in
      let opened = exchanging_client current ticket learned.digest parsed.bytes in
      let refused =
        refuse_client-sent env room s current Outcome.protocol_error protocol_error_close in
      let held = any (λ (t : TicketState). text_eq t.ticket_digest learned.digest) kept in
      elim (Bool-cases held) [
        | inl replayed ↦ rw (replayed, open_ticket) (inl refused)
        | inr new ↦ elim (Bool-cases (leb max_retained_tickets (length kept))) [
          | inl full ↦ rw (new, full, open_ticket) (inl refused)
          | inr room_left ↦
              let owner' : ActiveServer = record {
                socket = owner.socket;
                attachment = record pruned {
                  tickets =
                      pruned.tickets ++ (opened_ticket current learned.digest parsed.bytes ∷ []);
                };
              } in
              let (bound, access) =
                authorized_parts before.access_redemption before current ticket learned refl
                  allowed in
              let (control, generation, newest) = serves_parts room owner current served in
              let facts : IsOpened env room before current ticket learned owner = record {
                is_bound = bound;
                has_access = access;
                is_waiting = awaits current.stage waiting;
                in_time = early;
                same_control = control;
                same_generation = generation;
                is_current = newest;
                unused =
                    subst
                      (λ ts.
                        any (λ (t : TicketState). text_eq t.ticket_digest learned.digest) ts
                        ≡ false)
                      (pruned_tickets env room owner) new;
                has_room =
                    subst (λ ts. length ts < 50) (pruned_tickets env room owner) (ground arith);
              } in
              let same_end : open_ticket env room s current owner ticket parsed learned.digest
                  ≡ write_opened env s opened owner' parsed.signal room =
                rw (new, room_left, open_ticket) refl in
              let kept_sent = ap (λ (e : Ended). e.0.sent) same_end in
              elim (write_opened-Sends opened owner' parsed.signal room) [
                | inl silent ↦ inl (kept_sent ∙ silent)
                | inr out ↦ inr (owner, refl, kept_sent ∙ out, facts)
              ]
        ]
      ]
