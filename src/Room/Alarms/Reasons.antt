-- ===== src/Room/Alarms/Reasons.antt =====
-- What a room's alarm was set for, read back from its time.
use metaserver_worker.Common.{
  ℕ, ◌+◌, ◌≡◌, ◌⊎◌, inl, inr, refl, sym, subst, ◌∙◌, true, false, ◌&&◌, Option, none, some, List,
  [], ◌∷◌, arith, Bool-cases, Option-cases, dec_lt, min, max, some-injective, &&_right, &&_left,
}
use metaserver_worker.Room.State.{Room, SocketId, read_client_attachment, read_server_attachment}
use metaserver_worker.Room.Alarms.Awaited.{
  IsAwaited, retained_admission, ended_due, live_due, live_client, closed_client, kept_ticket,
  tickets_due,
}
use metaserver_worker.Room.Alarms.{
  client_due, soonest_server, schedule_next_alarm, soonest_ticket, sooner, soonest_client,
  TicketState, read_client_attachment, earlier, server_tickets, ClientAttachment, is_terminal,
  terminal_close_attempt_at, read_server_attachment,
}
use metaserver_worker.Attachments.{TicketState, ClientAttachment, ServerAttachment}
use metaserver_worker.Room.Rules.{earlier, terminal_close_attempt_at}
use metaserver_worker.Room.Teardown.{is_terminal}
use metaserver_worker.Room.Alarms.Retries.{few_attempts}
use mathlib.Core.List.{Memᴰ}

-- The time, if any, is one that the alarm is needed at, or a moment from now where that has passed.
abbrev HasReason : Room → Option ℕ → ℕ → Option ℕ → Type 0
HasReason room admission now none = Unit
HasReason room admission now (some t) =
    (at : ℕ) × IsAwaited room admission at × (t ≡ max (now + 1) at)

min_either : (a b : ℕ) → (min a b ≡ a) ⊎ (min a b ≡ b)
min_either a b = elim (dec_lt a b) [ yes less ↦ inl (omega arith) | no more ↦ inr (omega arith) ]

no_member : (t : TicketState) → Memᴰ t [] → ⊥
no_member t m = elim m [ ]

module _ (room : Room) (admission : Option ℕ) (now : ℕ) where
  sooner-HasReason :
      (next at : Option ℕ)
      → HasReason room admission now next
      → ((x : ℕ) → at ≡ some x → IsAwaited room admission x)
      → HasReason room admission now (sooner now next at)
  unfolding sooner earlier
  sooner-HasReason next none h f = h
  sooner-HasReason none (some x) h f = (x, f x refl, refl)
  sooner-HasReason (some t) (some x) h f = elim (min_either t (max (now + 1) x)) [
    | inl first ↦ (h.0, h.1, first ∙ h.2)
    | inr second ↦ (x, f x refl, second)
  ]

  ended_reason :
      (s : SocketId) (a : ClientAttachment) (x : ℕ)
      → Memᴰ s room.client_sockets
      → (room.socket s).open_now ≡ true
      → read_client_attachment room s ≡ some a
      → is_terminal a.stage ≡ true
      → terminal_close_attempt_at a ≡ some x
      → IsAwaited room admission x
  ended_reason s a x here up stored over due =
      let (offset, retry, when) = few_attempts a x due in
      subst (IsAwaited room admission) (sym when)
        (closed_client s a a.terminal_close_attempts offset here up stored over refl retry)

  none_due :
      (s : SocketId) (x : ℕ) → (room.socket s).open_now ≡ false → client_due room s ≡ some x → ⊥
  unfolding client_due
  none_due s x gone due = ground arith

  nothing_due :
      (s : SocketId) (x : ℕ)
      → (room.socket s).open_now ≡ true
      → read_client_attachment room s ≡ none
      → client_due room s ≡ some x
      → ⊥
  unfolding client_due
  nothing_due s x up nothing due = ground arith

  client_reason :
      (s : SocketId) (x : ℕ)
      → Memᴰ s room.client_sockets
      → client_due room s ≡ some x
      → IsAwaited room admission x
  client_reason s x here due = elim (Bool-cases (room.socket s).open_now) [
    | inr gone ↦ absurd (none_due s x gone due)
    | inl up ↦ elim (Option-cases (read_client_attachment room s)) [
      | inl nothing ↦ absurd (nothing_due s x up nothing due)
      | inr (a, stored) ↦ elim (Bool-cases (is_terminal a.stage)) [
        | inl over ↦
            ended_reason s a x here up stored over (sym (ended_due room s a up stored over) ∙ due)
        | inr live ↦
            subst (IsAwaited room admission)
              (some-injective a.expires_at x (sym (live_due room s a up stored live) ∙ due))
              (live_client s a here up stored live)
      ]
    ]
  ]

  clients-HasReason :
      (ss : List SocketId) (next : Option ℕ)
      → ((s : SocketId) → Memᴰ s ss → Memᴰ s room.client_sockets)
      → HasReason room admission now next
      → HasReason room admission now (soonest_client room now ss next)
  unfolding soonest_client
  clients-HasReason [] next within h = h
  clients-HasReason (s ∷ ss) next within h =
      clients-HasReason ss (sooner now next (client_due room s)) (λ t m. within t (Memᴰ.tail m))
        (sooner-HasReason next (client_due room s) h
          (λ x. client_reason s x (within s (Memᴰ.head refl))))

  without_server :
      (s : SocketId) → read_server_attachment room s ≡ none → server_tickets room s ≡ []
  unfolding server_tickets
  without_server s nothing = rw (nothing, server_tickets) refl

  without_control :
      (s : SocketId) (a : ServerAttachment)
      → read_server_attachment room s ≡ some a
      → (a.current && (room.socket s).open_now) ≡ false
      → server_tickets room s ≡ []
  unfolding server_tickets
  without_control s a stored idle = rw (stored, idle, server_tickets) refl

  ticket_reason :
      (s : SocketId) (t : TicketState)
      → Memᴰ s room.server_sockets
      → Memᴰ t (server_tickets room s)
      → IsAwaited room admission t.expires_at
  ticket_reason s t here held = elim (Option-cases (read_server_attachment room s)) [
    | inl nothing ↦ absurd (no_member t (subst (Memᴰ t) (without_server s nothing) held))
    | inr (a, stored) ↦ elim (Bool-cases (a.current && (room.socket s).open_now)) [
      | inr idle ↦ absurd (no_member t (subst (Memᴰ t) (without_control s a stored idle) held))
      | inl serving ↦
          let up = &&_right _ _ serving in
          let newest = &&_left _ _ serving in
          kept_ticket s a t here up stored newest
            (subst (Memᴰ t) (tickets_due room s a up stored newest) held)
    ]
  ]

  tickets-HasReason :
      (s : SocketId) (ts : List TicketState) (next : Option ℕ)
      → Memᴰ s room.server_sockets
      → ((t : TicketState) → Memᴰ t ts → Memᴰ t (server_tickets room s))
      → HasReason room admission now next
      → HasReason room admission now (soonest_ticket now ts next)
  unfolding soonest_ticket
  tickets-HasReason s [] next here within h = h
  tickets-HasReason s (t ∷ ts) next here within h =
      tickets-HasReason s ts (sooner now next (some t.expires_at)) here
        (λ u m. within u (Memᴰ.tail m))
        (sooner-HasReason next (some t.expires_at) h (λ x same.
          subst (IsAwaited room admission) (some-injective t.expires_at x same)
            (ticket_reason s t here (within t (Memᴰ.head refl)))))

  servers-HasReason :
      (ss : List SocketId) (next : Option ℕ)
      → ((s : SocketId) → Memᴰ s ss → Memᴰ s room.server_sockets)
      → HasReason room admission now next
      → HasReason room admission now (soonest_server room now ss next)
  unfolding soonest_server
  servers-HasReason [] next within h = h
  servers-HasReason (s ∷ ss) next within h =
      servers-HasReason ss (soonest_ticket now (server_tickets room s) next)
        (λ t m. within t (Memᴰ.tail m))
        (tickets-HasReason s (server_tickets room s) next (within s (Memᴰ.head refl)) (λ t m. m) h)

  schedule-HasReason : HasReason room admission now (schedule_next_alarm room now admission)
  unfolding schedule_next_alarm
  schedule-HasReason =
      sooner-HasReason _ admission
        (servers-HasReason room.server_sockets _ (λ s m. m)
          (clients-HasReason room.client_sockets none (λ s m. m) tt))
        retained_admission

  -- Every alarm that is set has a reason: a client that has not ended, the next close of one that
  -- has, a ticket of an open current server or an admission, whose time it is set for, or a moment
  -- from now where that time has passed.
  pub schedule_next_alarm-IsAwaited :
      (t : ℕ)
      → schedule_next_alarm room now admission ≡ some t
      → (at : ℕ) × IsAwaited room admission at × (t ≡ max (now + 1) at)
  schedule_next_alarm-IsAwaited t set = subst (HasReason room admission now) set schedule-HasReason
