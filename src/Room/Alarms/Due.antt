-- ===== src/Room/Alarms/Due.antt =====
-- How the loops of scheduleNextAlarm bound the time that they settle on.
use metaserver_worker.Attachments.{TicketState}
use metaserver_worker.Room.State.{Room, SocketId}
use metaserver_worker.Room.Rules.{earlier}
use metaserver_worker.Room.Alarms.{
  sooner, client_due, server_tickets, soonest_client, soonest_ticket, soonest_server,
}
use metaserver_worker.Common.{
  ℕ, ◌+◌, ◌≤◌, ◌<◌, ◌≡◌, Option, none, some, List, [], ◌∷◌, max, arith, sym, ap, subst, ◌∙◌,
}
use mathlib.Core.List.{Memᴰ}

-- The alarm is set, to no later than `n`.
abbrev pub SetBy : Option ℕ → ℕ → Type 0
SetBy none n = ⊥
SetBy (some t) n = t ≤ n

-- The alarm is not set to the past or the present.
abbrev pub IsFuture : ℕ → Option ℕ → Type 0
IsFuture now none = Unit
IsFuture now (some t) = now < t

pub sooner-SetBy : (now n : ℕ) (next at : Option ℕ) → SetBy next n → SetBy (sooner now next at) n
unfolding sooner earlier
sooner-SetBy now n none at h = elim h [ ]
sooner-SetBy now n (some t) none h = h
sooner-SetBy now n (some t) (some at) h = omega (arith, h)

pub sooner-due :
    (now at : ℕ) (next : Option ℕ) → SetBy (sooner now next (some at)) (max (now + 1) at)
unfolding sooner earlier
sooner-due now at none = omega arith
sooner-due now at (some t) = omega arith

pub sooner-IsFuture :
    (now : ℕ) (next at : Option ℕ) → IsFuture now next → IsFuture now (sooner now next at)
unfolding sooner earlier
sooner-IsFuture now next none h = h
sooner-IsFuture now none (some at) h = omega arith
sooner-IsFuture now (some t) (some at) h = omega (arith, h)

pub clients-SetBy :
    (room : Room) (now n : ℕ) (ss : List SocketId) (next : Option ℕ)
    → SetBy next n
    → SetBy (soonest_client room now ss next) n
unfolding soonest_client
clients-SetBy room now n [] next h = h
clients-SetBy room now n (s ∷ ss) next h =
    clients-SetBy room now n ss _ (sooner-SetBy now n next (client_due room s) h)

pub clients-due :
    (room : Room) (now at : ℕ) (s : SocketId) (ss : List SocketId) (next : Option ℕ)
    → Memᴰ s ss
    → client_due room s ≡ some at
    → SetBy (soonest_client room now ss next) (max (now + 1) at)
unfolding soonest_client
clients-due room now at s [] next here due = elim here [ ]
clients-due room now at s (t ∷ ts) next (Memᴰ.head same_socket) due =
    clients-SetBy room now (max (now + 1) at) ts _ (
      subst (λ d. SetBy (sooner now next d) (max (now + 1) at))
        (sym (ap (client_due room) (sym same_socket) ∙ due)) (sooner-due now at next))
clients-due room now at s (t ∷ ts) next (Memᴰ.tail later) due =
    clients-due room now at s ts _ later due

pub clients-IsFuture :
    (room : Room) (now : ℕ) (ss : List SocketId) (next : Option ℕ)
    → IsFuture now next
    → IsFuture now (soonest_client room now ss next)
unfolding soonest_client
clients-IsFuture room now [] next h = h
clients-IsFuture room now (s ∷ ss) next h =
    clients-IsFuture room now ss _ (sooner-IsFuture now next (client_due room s) h)

tickets-SetBy :
    (now n : ℕ) (ts : List TicketState) (next : Option ℕ)
    → SetBy next n
    → SetBy (soonest_ticket now ts next) n
unfolding soonest_ticket
tickets-SetBy now n [] next h = h
tickets-SetBy now n (t ∷ ts) next h =
    tickets-SetBy now n ts _ (sooner-SetBy now n next (some t.expires_at) h)

tickets-due :
    (now : ℕ) (t : TicketState) (ts : List TicketState) (next : Option ℕ)
    → Memᴰ t ts
    → SetBy (soonest_ticket now ts next) (max (now + 1) t.expires_at)
unfolding soonest_ticket
tickets-due now t [] next here = elim here [ ]
tickets-due now t (u ∷ us) next (Memᴰ.head same_ticket) =
    tickets-SetBy now (max (now + 1) t.expires_at) us _ (
      subst (λ v. SetBy (sooner now next (some v.expires_at)) (max (now + 1) t.expires_at))
        same_ticket (sooner-due now t.expires_at next))
tickets-due now t (u ∷ us) next (Memᴰ.tail later) = tickets-due now t us _ later

tickets-IsFuture :
    (now : ℕ) (ts : List TicketState) (next : Option ℕ)
    → IsFuture now next
    → IsFuture now (soonest_ticket now ts next)
unfolding soonest_ticket
tickets-IsFuture now [] next h = h
tickets-IsFuture now (t ∷ ts) next h =
    tickets-IsFuture now ts _ (sooner-IsFuture now next (some t.expires_at) h)

pub servers-SetBy :
    (room : Room) (now n : ℕ) (ss : List SocketId) (next : Option ℕ)
    → SetBy next n
    → SetBy (soonest_server room now ss next) n
unfolding soonest_server
servers-SetBy room now n [] next h = h
servers-SetBy room now n (s ∷ ss) next h =
    servers-SetBy room now n ss _ (tickets-SetBy now n (server_tickets room s) next h)

pub servers-due :
    (room : Room) (now : ℕ) (t : TicketState) (s : SocketId) (ss : List SocketId) (next : Option ℕ)
    → Memᴰ s ss
    → Memᴰ t (server_tickets room s)
    → SetBy (soonest_server room now ss next) (max (now + 1) t.expires_at)
unfolding soonest_server
servers-due room now t s [] next here held = elim here [ ]
servers-due room now t s (u ∷ us) next (Memᴰ.head same_socket) held =
    servers-SetBy room now (max (now + 1) t.expires_at) us _ (
      tickets-due now t (server_tickets room u) next
        (subst (λ v. Memᴰ t (server_tickets room v)) same_socket held))
servers-due room now t s (u ∷ us) next (Memᴰ.tail later) held =
    servers-due room now t s us _ later held

pub servers-IsFuture :
    (room : Room) (now : ℕ) (ss : List SocketId) (next : Option ℕ)
    → IsFuture now next
    → IsFuture now (soonest_server room now ss next)
unfolding soonest_server
servers-IsFuture room now [] next h = h
servers-IsFuture room now (s ∷ ss) next h =
    servers-IsFuture room now ss _ (tickets-IsFuture now (server_tickets room s) next h)
