-- ===== src/Room/Teardown/Retire.antt =====
-- What failClient promises its callers.
use metaserver_worker.Room.Teardown.Cases.{AfterFail, end_of, canonical, fail_client-cases}
use metaserver_worker.Room.State.{Room, Environment, SocketId, read_client_attachment}
use metaserver_worker.Attachments.{ClientAttachment, ClientStage, AuthorizationState}
use metaserver_worker.Contract.{Outcome, Close}
use metaserver_worker.Room.Teardown.{ended_client, summarized, is_terminal, or_else, fail_client}
use metaserver_worker.Attachments.Valid.{IsClient, HasStage, waiting, exchanging}
use metaserver_worker.Room.Teardown.Summary.{with_summary}
use metaserver_worker.Attachments.Valid.{waiting, exchanging, ended}
use metaserver_worker.Common.{
  refl, inl, inr, none, some, true, false, sym, ap, ◌∙◌, Bool-cases, ◌≡◌, ◌&&◌, ◌⊎◌, is_none, any,
  subst, ◌==◌, arith, ◌||◌, Option,
}

-- An attachment that is terminal with an outcome and keeps no secret.
pub record EndedWith (o : Outcome) (a : ClientAttachment) : Type 0 where
  pub is_ended : a.stage ≡ ClientStage.terminal
  pub authorization_ended : a.authorization ≡ AuthorizationState.terminal
  pub outcome_kept : a.terminal_outcome ≡ some o
  pub no_ticket : a.ticket ≡ none
  pub no_digest : a.ticket_digest ≡ none
  pub no_hash : a.bound_ticket_hash ≡ none
  pub no_nonce : a.access_client_nonce ≡ none
  pub no_expiry : a.access_expires_at ≡ none
  pub no_grant : a.access_grant ≡ none
  pub no_redemption : a.access_redemption ≡ none

-- A socket is retired when it is not open or stores the end of its client.
abbrev pub Retired : Outcome → Room → SocketId → Type 0
Retired o room s =
    (((room.socket s).open_now ≡ false))
    ⊎ ((b : ClientAttachment) × (read_client_attachment room s ≡ some b) × EndedWith o b)

ended_stage-EndedWith :
    (a : ClientAttachment) (pending : Outcome)
    → is_terminal a.stage ≡ true
    → HasStage a
    → EndedWith (or_else a.terminal_outcome pending) a
ended_stage-EndedWith a pending done (waiting s _ _ _ _ _ _ _ _ _ _ _) = ground arith
ended_stage-EndedWith a pending done (exchanging s _ _ _ _ _ _ _ _ _ _ _ _ _) = ground arith
ended_stage-EndedWith a pending done (ended s z g r n e h t d _ _ _ o _) = record {
  is_ended = s;
  authorization_ended = z;
  outcome_kept = rw o refl;
  no_ticket = t;
  no_digest = d;
  no_hash = h;
  no_nonce = n;
  no_expiry = e;
  no_grant = g;
  no_redemption = r;
}

end_of-EndedWith :
    (a : ClientAttachment) (pending : Outcome)
    → IsClient a
    → EndedWith (or_else a.terminal_outcome pending) (end_of a (or_else a.terminal_outcome pending))
unfolding end_of ended_client
end_of-EndedWith a pending h = elim (Bool-cases (is_terminal a.stage)) [
  | inl done ↦ rw done (ended_stage-EndedWith a pending done h.staged)
  | inr fresh ↦ rw fresh (record {
    is_ended = refl;
    authorization_ended = refl;
    outcome_kept = refl;
    no_ticket = refl;
    no_digest = refl;
    no_hash = refl;
    no_nonce = refl;
    no_expiry = refl;
    no_grant = refl;
    no_redemption = refl;
  })
]

with_summary-EndedWith :
    (o : Outcome) (a : ClientAttachment) → EndedWith o a → EndedWith o (with_summary a)
with_summary-EndedWith o a h = record {
  is_ended = h.is_ended;
  authorization_ended = h.authorization_ended;
  outcome_kept = h.outcome_kept;
  no_ticket = h.no_ticket;
  no_digest = h.no_digest;
  no_hash = h.no_hash;
  no_nonce = h.no_nonce;
  no_expiry = h.no_expiry;
  no_grant = h.no_grant;
  no_redemption = h.no_redemption;
}

or_else-twice : (t : Option Outcome) (x : Outcome) → or_else t (or_else t x) ≡ or_else t x
or_else-twice none x = refl
or_else-twice (some y) x = refl

summarized-end_of :
    (room : Room) (a : ClientAttachment) (o : Outcome)
    → summarized room (end_of a o) ≡ summarized room a
unfolding end_of ended_client
summarized-end_of room a o = elim (Bool-cases (is_terminal a.stage)) [
  | inl done ↦ rw done refl
  | inr fresh ↦ rw fresh refl
]

-- A client attachment that is valid, on a socket that is not a server's, and that a summary was
-- written for only if it is terminal.
pub record Ready (room : Room) (s : SocketId) (a : ClientAttachment) : Type 0 where
  pub valid : IsClient a
  pub stored_here : read_client_attachment room s ≡ some a
  pub not_server : any (λ t. s == t) room.server_sockets ≡ false
  pub honest : summarized room a ≡ true → is_terminal a.stage ≡ true

already_ended :
    (room : Room) (s : SocketId) (a : ClientAttachment) (c : Outcome)
    → Ready room s a
    → ((is_terminal a.stage && is_none (room.pending_client_outcome s))
        || summarized room (end_of a c))
      ≡ true
    → is_terminal a.stage ≡ true
already_ended room s a c h why = elim (Bool-cases (is_terminal a.stage)) [
  | inl done ↦ done
  | inr fresh ↦ h.honest (
      sym (summarized-end_of room a c)
      ∙ subst
          (λ b.
            ((b && is_none (room.pending_client_outcome s)) || summarized room (end_of a c)) ≡ true)
          fresh why)
]

end_of-ended : (a : ClientAttachment) (o : Outcome) → is_terminal a.stage ≡ true → end_of a o ≡ a
unfolding end_of
end_of-ended a o done = rw done refl

-- failClient, from the valid attachment that a socket stores, where the socket is not a server's
-- and a summary was written for the client only if it is terminal, answers without an error only
-- when the socket is retired: it is no longer open, or its stored attachment is terminal, keeps
-- no secret, and has the first outcome that the client was given.
pub fail_client_retires :
    (env : Environment) (room : Room) (s : SocketId) (a : ClientAttachment) (o : Outcome)
    (close : Close)
    → Ready room s a
    → (fail_client env room s a o close).1 ≡ true
    → Retired (canonical room s a o) (fail_client env room s a o close).0 s
fail_client_retires env room s a o close h Answered =
    let c = canonical room s a o in
    let e = end_of-EndedWith a (or_else (room.pending_client_outcome s) o) h.valid in
    elim (fail_client-cases env room s a o close h.valid h.not_server) [
      | AfterFail.found why read ms servers answer ↦ inr (
        a,
        read ∙ h.stored_here,
        subst (EndedWith c) (end_of-ended a c (already_ended room s a c h why)) e,
      )
      | AfterFail.kept read ms servers answer ↦ inr (end_of a c, read, e)
      | AfterFail.summarized_now fresh read ms servers answer ↦
          inr (with_summary (end_of a c), read, with_summary-EndedWith c _ e)
      | AfterFail.shut read ms servers closed answer ↦ inl closed
      | AfterFail.refused left ms servers pending answer ↦ cc
    ]

-- failClient, from a valid attachment and a socket that is not a server's, raises its integrity
-- error only when nothing was changed on the socket, no metric was written, and a later attempt
-- from the same attachment would end the client with the outcome of this one, whatever it asks
-- for.
pub fail_client_refused :
    (env : Environment) (room : Room) (s : SocketId) (a : ClientAttachment) (o later : Outcome)
    (close : Close)
    → IsClient a
    → any (λ t. s == t) room.server_sockets ≡ false
    → (fail_client env room s a o close).1 ≡ false
    → ((fail_client env room s a o close).0.socket s ≡ room.socket s)
      × ((fail_client env room s a o close).0.metrics ≡ room.metrics)
      × (canonical (fail_client env room s a o close).0 s a later ≡ canonical room s a o)
fail_client_refused env room s a o later close h away failed =
    elim (fail_client-cases env room s a o close h away) [
      | AfterFail.found why read ms servers answer ↦ cc
      | AfterFail.kept read ms servers answer ↦ cc
      | AfterFail.summarized_now fresh read ms servers answer ↦ cc
      | AfterFail.shut read ms servers closed answer ↦ cc
      | AfterFail.refused left ms servers pending answer ↦ (
        left,
        ms,
        ap (λ p. or_else a.terminal_outcome (or_else p later)) pending
            ∙ or_else-twice a.terminal_outcome _,
      )
    ]
