-- ===== src/Room/Messages/Conditions.antt =====
-- What has to hold of a client and of a server where a ticket is opened.
use metaserver_worker.Common.{
  ◌<◌, ◌≡◌, inl, inr, refl, ap, true, false, Option, some, List, [], ◌∷◌, length, any, Text,
  text_eq, arith, Bool-cases, subst, Bool, ℕ, &&_left, keep, none, sym, ◌&&◌, text_eq_iff, is_none,
  ltb, ◌||◌, &&_right, ◌==◌, length-keep-le, ==_iff,
}
use metaserver_worker.Room.State.{Environment, Room}
use metaserver_worker.Attachments.{
  ClientAttachment, TicketState, awaiting_candidate, ClientStage, candidate_exchange,
}
use metaserver_worker.Room.Ownership.{ActiveServer}
use metaserver_worker.Room.Messages.{
  Learned, is_authorized, prune_ticket_list, now_in, is_awaiting, serves, same_text,
}
use metaserver_worker.Room.Rules.{prune_ticket_list}

-- The tickets that a server still keeps.
abbrev pub kept_tickets : Environment → Room → ActiveServer → List TicketState
kept_tickets env room owner = (prune_ticket_list owner.attachment (now_in env room)).0.tickets

-- The access that a client was granted before the wait, if it was: the grant is live, and the
-- client still has its redemption and was granted the access for this ticket.
abbrev pub HasAccess : Option Text → ClientAttachment → Text → Bool → Type 0
HasAccess none current ticket live = Unit
HasAccess (some redemption) current ticket live =
    (live ≡ true)
    × (current.access_redemption ≡ some redemption)
    × (current.access_grant ≡ some ticket)

-- The tickets of a list that have not expired at a time.
abbrev pub unexpired : ℕ → List TicketState → List TicketState
unexpired now tickets = keep (λ t. ltb now t.expires_at) tickets

-- What held of the client and of the server that owns the room when a ticket was opened.
pub record IsOpened (env : Environment) (room : Room) (before current : ClientAttachment)
    (ticket : Text) (learned : Learned) (owner : ActiveServer) : Type 0 where
  pub is_bound : current.bound_ticket_hash ≡ some learned.bound_hash
  pub has_access : HasAccess before.access_redemption current ticket learned.access_live
  pub is_waiting : current.stage ≡ awaiting_candidate
  pub in_time : now_in env room < current.expires_at
  pub same_control : owner.attachment.control_id ≡ current.control_id
  pub same_generation : owner.attachment.generation ≡ current.generation
  pub is_current : room.current_generation ≡ some current.generation
  pub unused :
      any
        (λ (t : TicketState). text_eq t.ticket_digest learned.digest)
        (unexpired (now_in env room) owner.attachment.tickets)
      ≡ false
  pub has_room : length (unexpired (now_in env room) owner.attachment.tickets) < 50

same_text-some : (o : Option Text) (t : Text) → same_text o (some t) ≡ true → o ≡ some t
same_text-some none t h = cc
same_text-some (some u) t h = ap some ((text_eq_iff u t).0 h)

pub some-same_text : (o : Option Text) (t : Text) → same_text (some t) o ≡ true → o ≡ some t
some-same_text none t h = cc
some-same_text (some u) t h = ap some (sym ((text_eq_iff t u).0 h))

pub awaits : (stage : ClientStage) → is_awaiting stage ≡ true → stage ≡ awaiting_candidate
awaits awaiting_candidate h = refl
awaits candidate_exchange h = cc
awaits ClientStage.terminal h = cc

pub authorized_parts :
    (redemption : Option Text) (before current : ClientAttachment) (ticket : Text)
    (learned : Learned)
    → before.access_redemption ≡ redemption
    → is_authorized before current ticket learned ≡ true
    → (current.bound_ticket_hash ≡ some learned.bound_hash)
      × HasAccess redemption current ticket learned.access_live
unfolding is_authorized
authorized_parts none before current ticket learned none_granted h =
    (same_text-some current.bound_ticket_hash learned.bound_hash (&&_left _ _ h), tt)
authorized_parts (some r) before current ticket learned granted h =
    let access : (learned.access_live
          && same_text current.access_redemption (some r)
          && same_text current.access_grant (some ticket))
        ≡ true =
      subst
        (λ o.
          (is_none o
            || learned.access_live
              && same_text current.access_redemption o
              && same_text current.access_grant (some ticket))
          ≡ true)
        granted (&&_right (same_text current.bound_ticket_hash (some learned.bound_hash)) _ h) in
    (
      same_text-some current.bound_ticket_hash learned.bound_hash (&&_left _ _ h),
      (
        ground arith,
        same_text-some current.access_redemption r (ground arith),
        same_text-some current.access_grant ticket (ground arith),
      ),
    )

pub serves_parts :
    (room : Room) (owner : ActiveServer) (current : ClientAttachment)
    → serves room (some owner) current ≡ true
    → (owner.attachment.control_id ≡ current.control_id)
      × (owner.attachment.generation ≡ current.generation)
      × (room.current_generation ≡ some current.generation)
unfolding serves
serves_parts room owner current h = (
  (text_eq_iff owner.attachment.control_id current.control_id).0 (ground arith),
  (text_eq_iff owner.attachment.generation current.generation).0 (ground arith),
  some-same_text room.current_generation current.generation (ground arith),
)

keep_all :
    (p : TicketState → Bool) (ts : List TicketState)
    → length (keep p ts) ≡ length ts
    → keep p ts ≡ ts
unfolding keep
keep_all p [] h = refl
keep_all p (t ∷ ts) h = elim (Bool-cases (p t)) [
  | inl kept ↦ rw kept (ap (λ rest. t ∷ rest) (keep_all p ts (ground arith)))
  | inr gone ↦ absurd (ground (arith, length-keep-le p ts))
]

pub pruned_tickets :
    (env : Environment) (room : Room) (owner : ActiveServer)
    → kept_tickets env room owner ≡ unexpired (now_in env room) owner.attachment.tickets
unfolding prune_ticket_list
pruned_tickets env room owner =
    let tickets = owner.attachment.tickets in
    let retained = unexpired (now_in env room) tickets in
    elim (Bool-cases (length retained == length tickets)) [
      | inl same ↦
          rw (same, kept_tickets)
            (sym (
              keep_all (λ t. ltb (now_in env room) t.expires_at) tickets
                ((==_iff (length retained) (length tickets)).0 same)))
      | inr fewer ↦ rw (fewer, kept_tickets) refl
    ]
