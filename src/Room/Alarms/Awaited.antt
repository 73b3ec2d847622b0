-- ===== src/Room/Alarms/Awaited.antt =====
-- What a room's alarm is set for, told from what the room stores.
use metaserver_worker.Common.{
  ℕ, ◌+◌, ◌≡◌, refl, sym, subst, ◌∙◌, true, false, Option, none, some, max,
}
use metaserver_worker.Room.State.{Room, SocketId, read_client_attachment, read_server_attachment}
use metaserver_worker.Room.Rules.{terminal_close_attempt_at}
use metaserver_worker.Room.Alarms.{
  schedule_next_alarm, server_tickets, read_client_attachment, client_due, soonest_client,
  is_terminal, soonest_server, read_server_attachment, sooner,
}
use metaserver_worker.Attachments.{ClientAttachment, TicketState, ServerAttachment}
use metaserver_worker.Room.Alarms.Due.{
  SetBy, IsFuture, sooner-IsFuture, sooner-SetBy, servers-SetBy, sooner-due, servers-IsFuture,
  servers-due, clients-due, clients-IsFuture,
}
use metaserver_worker.Room.Teardown.{is_terminal}
use mathlib.Core.List.{Memᴰ}

-- The delay of the close that a terminal client gets after as many attempts.
pub data RetryAfter : ℕ → ℕ → Type 0 where
  at_expiry : RetryAfter 0 0
  after_one : RetryAfter 1 1_000
  after_two : RetryAfter 2 3_000
  after_three : RetryAfter 3 7_000

-- The times that the alarm is needed at: the expiry of a client that has not ended, the next close
-- of one that has, the expiry of a ticket, and that of an admission.
pub data IsAwaited (room : Room) (admission : Option ℕ) : ℕ → Type 0 where
  live_client :
      (s : SocketId) (a : ClientAttachment)
      → Memᴰ s room.client_sockets
      → (room.socket s).open_now ≡ true
      → read_client_attachment room s ≡ some a
      → is_terminal a.stage ≡ false
      → IsAwaited room admission a.expires_at
  closed_client :
      (s : SocketId) (a : ClientAttachment) (attempts offset : ℕ)
      → Memᴰ s room.client_sockets
      → (room.socket s).open_now ≡ true
      → read_client_attachment room s ≡ some a
      → is_terminal a.stage ≡ true
      → a.terminal_close_attempts ≡ attempts
      → RetryAfter attempts offset
      → IsAwaited room admission (a.expires_at + offset)
  kept_ticket :
      (s : SocketId) (a : ServerAttachment) (t : TicketState)
      → Memᴰ s room.server_sockets
      → (room.socket s).open_now ≡ true
      → read_server_attachment room s ≡ some a
      → a.current ≡ true
      → Memᴰ t a.tickets
      → IsAwaited room admission t.expires_at
  retained_admission : (at : ℕ) → admission ≡ some at → IsAwaited room admission at

retry_due :
    (a : ClientAttachment) (attempts offset : ℕ)
    → a.terminal_close_attempts ≡ attempts
    → RetryAfter attempts offset
    → terminal_close_attempt_at a ≡ some (a.expires_at + offset)
unfolding terminal_close_attempt_at
retry_due a _ _ made at_expiry = rw made refl
retry_due a _ _ made after_one = rw made refl
retry_due a _ _ made after_two = rw made refl
retry_due a _ _ made after_three = rw made refl

module _ (room : Room) (s : SocketId) where
  pub live_due :
      (a : ClientAttachment)
      → (room.socket s).open_now ≡ true
      → read_client_attachment room s ≡ some a
      → is_terminal a.stage ≡ false
      → client_due room s ≡ some a.expires_at
  unfolding client_due
  live_due a up stored live = rw (up, stored, live) refl

  pub ended_due :
      (a : ClientAttachment)
      → (room.socket s).open_now ≡ true
      → read_client_attachment room s ≡ some a
      → is_terminal a.stage ≡ true
      → client_due room s ≡ terminal_close_attempt_at a
  unfolding client_due
  ended_due a up stored ended = rw (up, stored, ended) refl

  pub tickets_due :
      (a : ServerAttachment)
      → (room.socket s).open_now ≡ true
      → read_server_attachment room s ≡ some a
      → a.current ≡ true
      → server_tickets room s ≡ a.tickets
  unfolding server_tickets
  tickets_due a up stored newest = rw (stored, up, newest, server_tickets) refl

module _ (room : Room) (now : ℕ) (admission : Option ℕ) where
  abbrev alarm : Option ℕ
  alarm = schedule_next_alarm room now admission

  client_in_time :
      (s : SocketId) (at : ℕ)
      → Memᴰ s room.client_sockets
      → client_due room s ≡ some at
      → SetBy alarm (max (now + 1) at)
  unfolding schedule_next_alarm
  client_in_time s at here due =
      let clients = soonest_client room now room.client_sockets none in
      let both = soonest_server room now room.server_sockets clients in
      sooner-SetBy now (max (now + 1) at) both admission (
        servers-SetBy room now (max (now + 1) at) room.server_sockets clients
          (clients-due room now at s room.client_sockets none here due))

  ticket_in_time :
      (s : SocketId) (t : TicketState)
      → Memᴰ s room.server_sockets
      → Memᴰ t (server_tickets room s)
      → SetBy alarm (max (now + 1) t.expires_at)
  unfolding schedule_next_alarm
  ticket_in_time s t here held =
      let clients = soonest_client room now room.client_sockets none in
      let both = soonest_server room now room.server_sockets clients in
      sooner-SetBy now (max (now + 1) t.expires_at) both admission
        (servers-due room now t s room.server_sockets clients here held)

  admission_in_time : (at : ℕ) → admission ≡ some at → SetBy alarm (max (now + 1) at)
  unfolding schedule_next_alarm
  admission_in_time at held =
      let clients = soonest_client room now room.client_sockets none in
      let both = soonest_server room now room.server_sockets clients in
      subst (λ o. SetBy (sooner now both o) (max (now + 1) at)) (sym held) (sooner-due now at both)

  alarm-IsFuture : IsFuture now alarm
  unfolding schedule_next_alarm
  alarm-IsFuture =
      let clients = soonest_client room now room.client_sockets none in
      let both = soonest_server room now room.server_sockets clients in
      sooner-IsFuture now both admission (
        servers-IsFuture room now room.server_sockets clients
          (clients-IsFuture room now room.client_sockets none tt))

  -- The alarm is set for every time that it is needed at, or a moment from now where that has
  -- passed, and never later: for the expiry of every open client that has not ended, for the next
  -- close of every open one that has and was closed less than four times since (0, 1, 3 and 7
  -- seconds after its expiry), for the expiry of every ticket that an open current server keeps,
  -- and for the next expiry of the admission store. It is set after now.
  pub schedule_next_alarm_due :
      (at : ℕ) → IsAwaited room admission at → SetBy alarm (max (now + 1) at) × IsFuture now alarm
  schedule_next_alarm_due _ (live_client s a here up stored live) =
      (client_in_time s a.expires_at here (live_due room s a up stored live), alarm-IsFuture)
  schedule_next_alarm_due _ (closed_client s a attempts offset here up stored ended made retry) = (
    client_in_time s (a.expires_at + offset) here
        (ended_due room s a up stored ended ∙ retry_due a attempts offset made retry),
    alarm-IsFuture,
  )
  schedule_next_alarm_due _ (kept_ticket s a t here up stored newest held) = (
    ticket_in_time s t here
        (subst (λ ts. Memᴰ t ts) (sym (tickets_due room s a up stored newest)) held),
    alarm-IsFuture,
  )
  schedule_next_alarm_due _ (retained_admission at held) =
      (admission_in_time at held, alarm-IsFuture)
