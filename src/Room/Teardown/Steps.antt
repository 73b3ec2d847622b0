-- ===== src/Room/Teardown/Steps.antt =====
-- What each step of a client's teardown leaves as it was, and what it writes.
use metaserver_worker.Attachments.{Attachment, client, ClientAttachment, ServerAttachment, server}
use metaserver_worker.Attachments.Valid.{IsClient, HasStage, ended, waiting, exchanging}
use metaserver_worker.Contract.{Outcome}
use metaserver_worker.Room.State.{
  Room, Environment, SocketId, read_client_attachment, try_write_attachment, read_attachment, put,
}
use metaserver_worker.Room.Teardown.{
  ended_client, mark_ticket_on, write_marked, mark_tickets_on, mark_ticket_terminal, marked_server,
}
use metaserver_worker.Attachments.ServerTrip.{decode-encode_attachment}
use metaserver_worker.Common.{
  if◌then◌else◌, true, false, Option, none, some, List, [], ◌∷◌, ◌==◌, any, arith, ◌≡◌, refl, inl,
  inr, ◌∙◌, Bool-cases, Text, ||_left, ||_right,
}

-- Everything but the sockets' attachments and the count of platform calls.
pub record Quiet (room next : Room) : Type 0 where
  pub same_clients : next.client_sockets ≡ room.client_sockets
  pub same_servers : next.server_sockets ≡ room.server_sockets
  pub same_pending : next.pending_client_outcome ≡ room.pending_client_outcome
  pub same_finalized : next.finalized_connections ≡ room.finalized_connections
  pub same_metrics : next.metrics ≡ room.metrics

pub Quiet-refl : (room : Room) → Quiet room room
Quiet-refl room = record {
  same_clients = refl;
  same_servers = refl;
  same_pending = refl;
  same_finalized = refl;
  same_metrics = refl;
}

pub Quiet-trans : (a b c : Room) → Quiet a b → Quiet b c → Quiet a c
Quiet-trans a b c h k = record {
  same_clients = k.same_clients ∙ h.same_clients;
  same_servers = k.same_servers ∙ h.same_servers;
  same_pending = k.same_pending ∙ h.same_pending;
  same_finalized = k.same_finalized ∙ h.same_finalized;
  same_metrics = k.same_metrics ∙ h.same_metrics;
}

pub put-same {ℓ} : {A : Type ℓ} (s : SocketId) (a : A) (f : SocketId → A) → put s a f s ≡ a
put-same s a f = ground arith

pub put-other {ℓ} :
    {A : Type ℓ} (s t : SocketId) (a : A) (f : SocketId → A) → (t == s) ≡ false → put s a f t ≡ f t
put-other s t a f h = rw h

pub try_write-Quiet :
    (env : Environment) (room : Room) (s : SocketId) (a : Attachment)
    → Quiet room (try_write_attachment env room s a).0
unfolding try_write_attachment
try_write-Quiet env room s a = elim (Bool-cases (env.write_throws room.calls)) [
  | inl fault ↦ rw fault (record {
    same_clients = refl;
    same_servers = refl;
    same_pending = refl;
    same_finalized = refl;
    same_metrics = refl;
  })
  | inr fine ↦ rw fine (record {
    same_clients = refl;
    same_servers = refl;
    same_pending = refl;
    same_finalized = refl;
    same_metrics = refl;
  })
]

pub itself : (s : SocketId) → (s == s) ≡ true
itself s = ground arith

-- What is read back after a write: the attachment, or what was there, as the write says.
pub read-try_write :
    (env : Environment) (room : Room) (s : SocketId) (a : ClientAttachment)
    → IsClient a
    → read_client_attachment (try_write_attachment env room s (client a)).0 s ≡ (
        if (try_write_attachment env room s (client a)).1
        then some a
        else read_client_attachment room s)
unfolding try_write_attachment read_client_attachment read_attachment
read-try_write env room s a h = elim (Bool-cases (env.write_throws room.calls)) [
  | inl fault ↦ rw fault refl
  | inr fine ↦ rw (fine, itself s, decode-encode_attachment (client a) h) refl
]

pub try_write-other :
    (env : Environment) (room : Room) (s t : SocketId) (a : Attachment)
    → (t == s) ≡ false
    → (try_write_attachment env room s a).0.socket t ≡ room.socket t
unfolding try_write_attachment
try_write-other env room s t a h = elim (Bool-cases (env.write_throws room.calls)) [
  | inl fault ↦ rw fault refl
  | inr fine ↦ rw (fine, h) refl
]

ended_stage : (a : ClientAttachment) (o : Outcome) → HasStage a → HasStage (ended_client a o)
unfolding ended_client
ended_stage a o (waiting _ _ _ _ _ _ _ c s d _ _) =
    ended refl refl refl refl refl refl refl refl refl (omega (arith, c)) (omega (arith, s))
      (omega (arith, d)) refl (omega arith)
ended_stage a o (exchanging _ _ _ _ _ _ _ _ _ c s d _ _) =
    ended refl refl refl refl refl refl refl refl refl (omega (arith, c)) s (omega (arith, d)) refl
      (omega arith)
ended_stage a o (ended _ _ _ _ _ _ _ _ _ c s d _ _) =
    ended refl refl refl refl refl refl refl refl refl c s d refl (omega arith)

pub ended-IsClient : (a : ClientAttachment) (o : Outcome) → IsClient a → IsClient (ended_client a o)
unfolding ended_client
ended-IsClient a o h = record {
  control = h.control;
  generated = h.generated;
  connected = h.connected;
  admitted = h.admitted;
  admission_safe = h.admission_safe;
  opened_before = h.opened_before;
  short = h.short;
  safe = h.safe;
  no_client_authorization = h.no_client_authorization;
  no_server_authorization = h.no_server_authorization;
  bytes_bounded = h.bytes_bounded;
  forwarded_bounded = h.forwarded_bounded;
  bytes_iff = h.bytes_iff;
  staged = ended_stage a o h.staged;
}

-- A room that differs by nothing that a client's end depends on but the server sockets.
pub record Aside (room next : Room) (s : SocketId) : Type 0 where
  pub quiet : Quiet room next
  pub left : next.socket s ≡ room.socket s

Aside-refl : (room : Room) (s : SocketId) → Aside room room s
Aside-refl room s = record { quiet = Quiet-refl room; left = refl }

write_marked-Aside :
    (env : Environment) (room : Room) (s t : SocketId) (own : Option ServerAttachment)
    → (t == s) ≡ false
    → Aside room (write_marked env room s own) t
unfolding write_marked
write_marked-Aside env room s t none h = Aside-refl room t
write_marked-Aside env room s t (some own) h = record {
  quiet = try_write-Quiet env room s (server own);
  left = try_write-other env room s t (server own) h;
}

mark_tickets-Aside :
    (env : Environment) (a : ClientAttachment) (digest : Text) (ss : List SocketId) (room : Room)
    (t : SocketId)
    → any (λ s. t == s) ss ≡ false
    → Aside room (mark_tickets_on env a digest ss room) t
unfolding mark_tickets_on mark_ticket_on
mark_tickets-Aside env a digest [] room t h = Aside-refl room t
mark_tickets-Aside env a digest (s ∷ ss) room t h =
    let next = mark_ticket_on env a digest room s in
    let this = write_marked-Aside env room s t (marked_server room a digest s) (||_left _ _ h) in
    let others = mark_tickets-Aside env a digest ss next t (||_right _ _ h) in
    record {
      quiet = Quiet-trans room next _ this.quiet others.quiet;
      left = others.left ∙ this.left;
    }

-- markTicketTerminal only writes the attachments of server sockets.
pub mark_ticket_terminal-Aside :
    (env : Environment) (room : Room) (a : ClientAttachment) (t : SocketId)
    → any (λ s. t == s) room.server_sockets ≡ false
    → Aside room (mark_ticket_terminal env room a) t
unfolding mark_ticket_terminal
mark_ticket_terminal-Aside env room a t h =
    elim a.ticket_digest
      as (λ o.
        Aside room
          (elim o [
            | none ↦ room
            | some digest ↦ mark_tickets_on env a digest room.server_sockets room
          ])
          t) [
            | none ↦ Aside-refl room t
            | some digest ↦ mark_tickets-Aside env a digest room.server_sockets room t h
          ]
