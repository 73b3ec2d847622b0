-- ===== src/Room/Teardown/Once.antt =====
-- A terminal metric is written once, however often a teardown is attempted.
use metaserver_worker.Room.Teardown.Cases.{
  AfterFail, end_of, canonical, fail_client-cases, end_of-IsClient,
}
use metaserver_worker.Room.Teardown.Summary.{with_summary, with_summary-IsClient, read-same}
use metaserver_worker.Room.Teardown.{
  close_client, ended_client, ClientAttachment, Outcome, is_terminal, fail_client,
}
use metaserver_worker.Room.State.{Room, Environment, SocketId, Metric, read_client_attachment}
use metaserver_worker.Attachments.{ClientAttachment}
use metaserver_worker.Contract.{Outcome, Close}
use metaserver_worker.Attachments.Valid.{IsClient}
use metaserver_worker.Common.{
  [], refl, inl, inr, some, true, false, sym, ap, ◌∙◌, Bool-cases, List, ◌∷◌, ◌≡◌, any, ◌==◌,
  length, ◌≤◌, ||_left, ◌+◌, arith,
}

-- Attempts to end the client of one socket, each from what the socket stores then.
unfoldable pub attempts : Environment → SocketId → List (Outcome × Close) → Room → Room
unfolding close_client
attempts env s [] room = room
attempts env s ((o, close) ∷ rest) room = attempts env s rest (close_client env room s o close).0

-- A valid client attachment on a socket that is not a server's.
abbrev pub Holds : Room → SocketId → ClientAttachment → Type 0
Holds room s a =
    IsClient a
    × (read_client_attachment room s ≡ some a)
    × (any (λ t. s == t) room.server_sockets ≡ false)

-- The attempts leave the client's attachment valid, and they write at most one metric, and none
-- when the attachment says that a summary was written.
data Step (room next : Room) (s : SocketId) (a : ClientAttachment) : Type 0 where
  silent :
      (b : ClientAttachment)
      → Holds next s b
      → (a.summary_emitted ≡ true → b.summary_emitted ≡ true)
      → next.metrics ≡ room.metrics
      → Step room next s a
  counted :
      (b : ClientAttachment) {m : Metric}
      → Holds next s b
      → b.summary_emitted ≡ true
      → a.summary_emitted ≡ false
      → next.metrics ≡ m ∷ room.metrics
      → Step room next s a

summary-end_of :
    (a : ClientAttachment) (o : Outcome) → (end_of a o).summary_emitted ≡ a.summary_emitted
unfolding end_of ended_client
summary-end_of a o = elim (Bool-cases (is_terminal a.stage)) [
  | inl done ↦ rw done refl
  | inr fresh ↦ rw fresh refl
]

away_still :
    (room next : Room) (s : SocketId)
    → next.server_sockets ≡ room.server_sockets
    → any (λ t. s == t) room.server_sockets ≡ false
    → any (λ t. s == t) next.server_sockets ≡ false
away_still room next s same_servers away = rw same_servers away

fail_step :
    (env : Environment) (room : Room) (s : SocketId) (a : ClientAttachment) (o : Outcome)
    (close : Close)
    → Holds room s a
    → Step room (fail_client env room s a o close).0 s a
fail_step env room s a o close (h, here, away) =
    let c = canonical room s a o in
    let e = end_of-IsClient a c h in
    let next = (fail_client env room s a o close).0 in
    elim (fail_client-cases env room s a o close h away) [
      | AfterFail.found why read ms servers answer ↦
          silent a (h, read ∙ here, away_still room next s servers away) (λ said. said) ms
      | AfterFail.kept read ms servers answer ↦
          silent (end_of a c) (e, read, away_still room next s servers away)
            (λ said. summary-end_of a c ∙ said) ms
      | AfterFail.summarized_now fresh read ms servers answer ↦
          counted (with_summary (end_of a c))
            (with_summary-IsClient _ e, read, away_still room next s servers away) refl
            (sym (summary-end_of a c) ∙ ||_left _ _ fresh) ms
      | AfterFail.shut read ms servers closed answer ↦
          silent a (h, read ∙ here, away_still room next s servers away) (λ said. said) ms
      | AfterFail.refused left ms servers pending answer ↦
          silent a (h, read-same room next s left ∙ here, away_still room next s servers away)
            (λ said. said) ms
    ]

close_step :
    (env : Environment) (room : Room) (s : SocketId) (a : ClientAttachment) (o : Outcome)
    (close : Close)
    → Holds room s a
    → Step room (close_client env room s o close).0 s a
unfolding close_client
close_step env room s a o close (h, here, away) =
    rw (here, close_client) (fail_step env room s a o close (h, here, away))

quiet_after :
    (env : Environment) (s : SocketId) (tries : List (Outcome × Close)) (room : Room)
    (a : ClientAttachment)
    → Holds room s a
    → a.summary_emitted ≡ true
    → (attempts env s tries room).metrics ≡ room.metrics
unfolding attempts
quiet_after env s [] room a h said = refl
quiet_after env s ((o, close) ∷ rest) room a h said = elim (close_step env room s a o close h) [
  | silent b holds keeps same ↦ quiet_after env s rest _ b holds (keeps said) ∙ same
  | counted b holds now fresh more ↦ cc
]

-- However often the client of one socket is ended, with whatever outcomes, and whichever writes
-- and closes fail, at most one terminal metric is written for it, and none when its attachment
-- says that its summary was written; the client's attachment is valid and the socket is not a
-- server's.
pub metric_once :
    (env : Environment) (s : SocketId) (tries : List (Outcome × Close)) (room : Room)
    (a : ClientAttachment)
    → Holds room s a
    → (length (attempts env s tries room).metrics ≤ length room.metrics + 1)
      × (a.summary_emitted ≡ true → (attempts env s tries room).metrics ≡ room.metrics)
unfolding attempts
metric_once env s [] room a h = (omega arith, λ _. refl)
metric_once env s ((o, close) ∷ rest) room a h = elim (close_step env room s a o close h) [
  | silent b holds keeps same ↦
      let (bound, none_more) = metric_once env s rest _ b holds in
      (omega (arith, bound, ap length same), λ said. none_more (keeps said) ∙ same)
  | counted b holds now fresh more ↦
      (omega (arith, ap length (quiet_after env s rest _ b holds now ∙ more)), λ said. cc)
]
