-- ===== src/Room/Teardown/Cases.antt =====
-- The ways in which failClient can answer.
use metaserver_worker.Room.State.{
  Metric, close_socket, Room, Environment, SocketId, read_client_attachment, read_attachment, put,
}
use metaserver_worker.Common.{
  if◌then◌else◌, refl, inl, inr, none, some, true, false, sym, ap, ◌∙◌, Bool-cases, ◌∷◌, ◌≡◌, any,
  Bool, ◌==◌, ◌||◌, ◌&&◌, is_none, subst,
}
use metaserver_worker.Room.Teardown.Steps.{
  Quiet-refl, Aside, ended-IsClient, mark_ticket_terminal-Aside, put-same,
}
use metaserver_worker.Room.Teardown.Persist.{
  Persisted, persist-already, persist-fresh, summarized-Quiet, also,
}
use metaserver_worker.Attachments.{ClientAttachment}
use metaserver_worker.Room.Teardown.{
  transition_client_terminal, Outcome, is_terminal, ended_client, forget_and_close, summarized,
  or_else, fail_client, persist_end,
}
use metaserver_worker.Contract.{Outcome, Close}
use metaserver_worker.Attachments.Valid.{IsClient}
use metaserver_worker.Room.Teardown.Closing.{close-cases}
use metaserver_worker.Room.Teardown.Summary.{with_summary, read-same}

-- The attachment that transitionClientTerminal leaves.
unfoldable pub end_of : ClientAttachment → Outcome → ClientAttachment
end_of a o = if is_terminal a.stage then a else ended_client a o

pub end_of-IsClient : (a : ClientAttachment) (o : Outcome) → IsClient a → IsClient (end_of a o)
unfolding end_of
end_of-IsClient a o h = elim (Bool-cases (is_terminal a.stage)) [
  | inl before ↦ rw before h
  | inr now ↦ rw now (ended-IsClient a o h)
]

transition-cases :
    (env : Environment) (room : Room) (s : SocketId) (a : ClientAttachment) (o : Outcome)
    → any (λ t. s == t) room.server_sockets ≡ false
    → Aside room (transition_client_terminal env room a o).0 s
      × ((transition_client_terminal env room a o).1 ≡ end_of a o)
unfolding transition_client_terminal end_of
transition-cases env room s a o away = elim (Bool-cases (is_terminal a.stage)) [
  | inl before ↦ rw before (record { quiet = Quiet-refl room; left = refl }, refl)
  | inr now ↦ rw now (mark_ticket_terminal-Aside env room a s away, refl)
]

-- Where failClient answers: the end was kept before, it is kept now, it is kept with its summary,
-- the socket is shut, or nothing is kept and the outcome is pending.
pub data AfterFail (room : Room) (s : SocketId) (e : ClientAttachment) (already : Bool)
    (o : Outcome) (r : Room × Bool) : Type 0 where
  found :
      (already || summarized room e) ≡ true
      → read_client_attachment (r.0) s ≡ read_client_attachment room s
      → (r.0).metrics ≡ room.metrics
      → (r.0).server_sockets ≡ room.server_sockets
      → r.1 ≡ true
      → AfterFail room s e already o r
  kept :
      read_client_attachment (r.0) s ≡ some e
      → (r.0).metrics ≡ room.metrics
      → (r.0).server_sockets ≡ room.server_sockets
      → r.1 ≡ true
      → AfterFail room s e already o r
  summarized_now :
      {m : Metric}
      → summarized room e ≡ false
      → read_client_attachment (r.0) s ≡ some (with_summary e)
      → (r.0).metrics ≡ m ∷ room.metrics
      → (r.0).server_sockets ≡ room.server_sockets
      → r.1 ≡ true
      → AfterFail room s e already o r
  shut :
      read_client_attachment (r.0) s ≡ read_client_attachment room s
      → (r.0).metrics ≡ room.metrics
      → (r.0).server_sockets ≡ room.server_sockets
      → ((r.0).socket s).open_now ≡ false
      → r.1 ≡ true
      → AfterFail room s e already o r
  refused :
      (r.0).socket s ≡ room.socket s
      → (r.0).metrics ≡ room.metrics
      → (r.0).server_sockets ≡ room.server_sockets
      → (r.0).pending_client_outcome s ≡ some o
      → r.1 ≡ false
      → AfterFail room s e already o r

abbrev forgotten : SocketId → Room → Room
forgotten s room = record room { pending_client_outcome = put s none room.pending_client_outcome }

forget-cases :
    (env : Environment) (room : Room) (s : SocketId) (e : ClientAttachment) (already : Bool)
    (o : Outcome) (p : Room × Bool) (close : Close)
    → room.pending_client_outcome s ≡ some o
    → Persisted room s e already p
    → AfterFail room s e already o (forget_and_close env s p close)
unfolding forget_and_close read_client_attachment read_attachment
forget-cases env room s e already o p close noted (Persisted.found why aside answer) =
    let c = close-cases env (forgotten s p.0) s close in
    rw answer (
      AfterFail.found why (c.same_read ∙ read-same room p.0 s aside.left)
        (c.same_metrics ∙ aside.quiet.same_metrics) (c.same_servers ∙ aside.quiet.same_servers)
        refl)
forget-cases env room s e already o p close noted (Persisted.kept read quiet answer) =
    let c = close-cases env (forgotten s p.0) s close in
    rw answer (
      AfterFail.kept (c.same_read ∙ read) (c.same_metrics ∙ quiet.same_metrics)
        (c.same_servers ∙ quiet.same_servers) refl)
forget-cases env room s e already o p close noted
      (Persisted.summarized_now fresh read ms servers answer) =
    let c = close-cases env (forgotten s p.0) s close in
    rw answer (
      AfterFail.summarized_now fresh (c.same_read ∙ read) (c.same_metrics ∙ ms)
        (c.same_servers ∙ servers) refl)
forget-cases env room s e already o p close noted (Persisted.lost aside answer) =
    let closing = close_socket env p.0 s close in
    let c = close-cases env p.0 s close in
    let q = aside.quiet in
    let read = c.same_read ∙ read-same room p.0 s aside.left in
    elim (Bool-cases (closing.1)) [
      | inl closed ↦
          rw (answer, closed)
            (AfterFail.shut read (c.same_metrics ∙ q.same_metrics) (c.same_servers ∙ q.same_servers)
              (c.shut closed) refl)
      | inr open_still ↦
          rw (answer, open_still)
            (AfterFail.refused (c.unshut open_still ∙ aside.left) (c.same_metrics ∙ q.same_metrics)
              (c.same_servers ∙ q.same_servers)
              (ap (λ f. f s) (c.same_pending ∙ q.same_pending) ∙ noted) refl)
    ]

-- The outcome that failClient ends a client with: the one it is stored with, the one pending, or
-- the one that is asked for.
abbrev pub canonical : Room → SocketId → ClientAttachment → Outcome → Outcome
canonical room s a o = or_else a.terminal_outcome (or_else (room.pending_client_outcome s) o)

persist-cases :
    (env : Environment) (room : Room) (s : SocketId) (e : ClientAttachment) (already : Bool)
    → IsClient e
    → Persisted room s e already (persist_end env room s e already)
persist-cases env room s e true h = persist-already env room s e h
persist-cases env room s e false h = persist-fresh env room s e h

abbrev noting : Room → SocketId → Outcome → Room
noting room s o = record room {
  pending_client_outcome = put s (some o) room.pending_client_outcome;
}

-- The same of the room before the outcome was noted and the tickets were marked.
rebase :
    (room base : Room) (s : SocketId) (e : ClientAttachment) (already : Bool) (o : Outcome)
    (r : Room × Bool)
    → Aside (noting room s o) base s
    → AfterFail base s e already o r
    → AfterFail room s e already o r
unfolding read_client_attachment read_attachment
rebase room base s e already o r aside (AfterFail.found why read ms servers answer) =
    AfterFail.found (rw (sym (summarized-Quiet _ base e aside.quiet)) why)
      (read ∙ read-same (noting room s o) base s aside.left) (ms ∙ aside.quiet.same_metrics)
      (servers ∙ aside.quiet.same_servers) answer
rebase room base s e already o r aside (AfterFail.kept read ms servers answer) =
    AfterFail.kept read (ms ∙ aside.quiet.same_metrics) (servers ∙ aside.quiet.same_servers) answer
rebase room base s e already o r aside (AfterFail.summarized_now fresh read ms servers answer) =
    AfterFail.summarized_now (sym (summarized-Quiet _ base e aside.quiet) ∙ fresh) read
      (ms ∙ also aside.quiet.same_metrics) (servers ∙ aside.quiet.same_servers) answer
rebase room base s e already o r aside (AfterFail.shut read ms servers closed answer) =
    AfterFail.shut (read ∙ read-same (noting room s o) base s aside.left)
      (ms ∙ aside.quiet.same_metrics) (servers ∙ aside.quiet.same_servers) closed answer
rebase room base s e already o r aside (AfterFail.refused left ms servers pending answer) =
    AfterFail.refused (left ∙ aside.left) (ms ∙ aside.quiet.same_metrics)
      (servers ∙ aside.quiet.same_servers) pending answer

pub fail_client-cases :
    (env : Environment) (room : Room) (s : SocketId) (a : ClientAttachment) (o : Outcome)
    (close : Close)
    → IsClient a
    → any (λ t. s == t) room.server_sockets ≡ false
    → AfterFail room s
        (end_of a (canonical room s a o))
        (is_terminal a.stage && is_none (room.pending_client_outcome s))
        (canonical room s a o)
        (fail_client env room s a o close)
unfolding fail_client
fail_client-cases env room s a o close h away =
    let c = canonical room s a o in
    let noted = noting room s c in
    let ending = transition_client_terminal env noted a c in
    let already = is_terminal a.stage && is_none (room.pending_client_outcome s) in
    let (aside, is_end) = transition-cases env noted s a c away in
    let ends = subst IsClient (sym is_end) (end_of-IsClient a c h) in
    subst (λ e. AfterFail room s e already c (fail_client env room s a o close)) is_end
      (rebase room ending.0 s ending.1 already c _ aside (
        forget-cases env ending.0 s ending.1 already c _ _
          (ap (λ f. f s) aside.quiet.same_pending ∙ put-same s (some c) room.pending_client_outcome)
          (persist-cases env ending.0 s ending.1 already ends)))
