-- ===== src/Room/Relay/Settled.antt =====
-- A room whose owner is settled, and what holds of a frame that is sent in it behind a wait.
use metaserver_worker.Common.{
  ℕ, ◌≡◌, inl, inr, refl, Bool, true, ◌&&◌, none, some, ◌∷◌, ltb, find, text_eq, arith, Bool-cases,
  Text, [], List, ◌<◌, any, some-injective, subst, sym,
}
use metaserver_worker.Room.State.{Environment, Room, SocketId, read_client_attachment}
use metaserver_worker.Room.Relay.{
  Delivery, ClientAttachment, read_client_attachment, ActiveServer, is_client_ticket,
  is_open_ticket, now_in,
}
use metaserver_worker.Attachments.{ClientAttachment, candidate_exchange, ClientStage, TicketState}
use metaserver_worker.Room.Ownership.{
  ActiveServer, reconcile_active_server, current_open_servers, choose_owner,
}
use metaserver_worker.Room.Alarms.{retry_pending_server_teardowns, retry_each}
use metaserver_worker.Room.Messages.{now_in, is_exchanging}

-- The ticket of the delivery, as the server keeps it behind the wait.
abbrev pub is_usable : ℕ → Text → Text → TicketState → Bool
is_usable now digest connection t =
    text_eq t.ticket_digest digest
    && text_eq t.client_connection_id connection
    && is_open_ticket t.stage
    && ltb now t.expires_at

-- What holds of the client, the server and the ticket of a frame that was sent behind the wait.
pub record IsRenewed (env : Environment) (room : Room) (s : SocketId) (d : Delivery)
    (owner : ActiveServer) (latest : ClientAttachment) (live : Bool) : Type 0 where
  pub is_allowed : live ≡ true
  pub is_stored : read_client_attachment room d.target.socket ≡ some latest
  pub is_exchanging_now : latest.stage ≡ candidate_exchange
  pub in_time : now_in env room < latest.expires_at
  pub same_client : latest.connection_id ≡ d.target.attachment.connection_id
  pub is_current : room.current_generation ≡ some latest.generation
  pub is_open : (room.socket d.target.socket).open_now ≡ true
  pub is_sent_by_owner : owner.socket ≡ s
  pub same_control : owner.attachment.control_id ≡ d.server.control_id
  pub has_ticket :
      any
        (is_usable (now_in env room) d.ticket.ticket_digest latest.connection_id)
        owner.attachment.tickets
      ≡ true

-- No teardown of a server is pending, and one server control is open and current.
module _ (env : Environment) (room : Room) (owner : ActiveServer)
    (idle : (t : SocketId) → room.pending_server_outcome t ≡ none)
    (sole : current_open_servers room none ≡ owner ∷ []) where
  retry_each_idle : (ss : List SocketId) → retry_each env ss room ≡ (room, true)
  unfolding retry_each
  retry_each_idle [] = refl
  retry_each_idle (t ∷ ts) = rw (idle t, retry_each) (retry_each_idle ts)

  pub reconcile_settled :
      reconcile_active_server env room none
      ≡ record { room = room; active = some owner; sound = true }
  unfolding reconcile_active_server retry_pending_server_teardowns choose_owner
  reconcile_settled = rw (retry_each_idle room.server_sockets, sole) refl

pub exchanges : (stage : ClientStage) → is_exchanging stage ≡ true → stage ≡ candidate_exchange
exchanges candidate_exchange h = refl
exchanges ClientStage.awaiting_candidate h = cc
exchanges ClientStage.terminal h = cc

pub found_usable :
    (now : ℕ) (digest connection : Text) (tickets : List TicketState) (ticket : TicketState)
    → find (is_client_ticket digest connection) tickets ≡ some ticket
    → (is_open_ticket ticket.stage && ltb now ticket.expires_at) ≡ true
    → any (is_usable now digest connection) tickets ≡ true
unfolding find
found_usable now digest connection [] ticket h early = cc
found_usable now digest connection (t ∷ ts) ticket h early =
    elim (Bool-cases (is_client_ticket digest connection t)) [
      | inl same ↦
          let first : t ≡ ticket = some-injective t ticket (ground arith) in
          let early' : (is_open_ticket t.stage && ltb now t.expires_at) ≡ true =
            subst (λ u. (is_open_ticket u.stage && ltb now u.expires_at) ≡ true) (sym first)
              early in
          ground arith
      | inr other ↦
          let rest = found_usable now digest connection ts ticket (ground arith) early in
          ground (arith, rest)
    ]
