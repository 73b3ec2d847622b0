-- ===== src/Room/Teardown/Persist.antt =====
-- What the writing part of failClient leaves behind.
use metaserver_worker.Room.State.{Metric}
use metaserver_worker.Common.{
  refl, inl, inr, none, some, true, false, sym, ap, ◌∙◌, Bool-cases, List, ◌∷◌, ◌≡◌,
}
use metaserver_worker.Room.Teardown.Steps.{Quiet, Quiet-refl, Quiet-trans, try_write-Quiet, Aside}
use metaserver_worker.Room.Teardown.{
  persist_end, emit_own_metric, ClientAttachment, summarized, Bool, emit_terminal_metric,
}
use metaserver_worker.Room.State.{
  Room, Environment, SocketId, read_client_attachment, try_write_attachment,
}
use metaserver_worker.Attachments.{ClientAttachment, client}
use metaserver_worker.Common.{Bool, ◌∙◌, false, ◌≡◌, ◌||◌, true, Bool-cases, some}
use metaserver_worker.Attachments.Valid.{IsClient}
use metaserver_worker.Room.Teardown.Summary.{
  with_summary, Emitted, known, wrote, unwritten, emit-cases, failed-Aside, read-same, written-read,
}

-- What persist_end can do: find that nothing is left to write, keep the end, keep it with its
-- summary, or keep nothing.
pub data Persisted (room : Room) (s : SocketId) (e : ClientAttachment) (already : Bool)
    (r : Room × Bool) : Type 0 where
  found :
      (already || summarized room e) ≡ true
      → Aside room (r.0) s
      → r.1 ≡ true
      → Persisted room s e already r
  kept :
      read_client_attachment (r.0) s ≡ some e
      → Quiet room (r.0)
      → r.1 ≡ true
      → Persisted room s e already r
  summarized_now :
      {m : Metric}
      → summarized room e ≡ false
      → read_client_attachment (r.0) s ≡ some (with_summary e)
      → (r.0).metrics ≡ m ∷ room.metrics
      → (r.0).server_sockets ≡ room.server_sockets
      → r.1 ≡ true
      → Persisted room s e already r
  lost : Aside room (r.0) s → r.1 ≡ false → Persisted room s e already r

Aside-trans : (a b c : Room) (s : SocketId) → Aside a b s → Aside b c s → Aside a c s
Aside-trans a b c s h k = record {
  quiet = Quiet-trans a b c h.quiet k.quiet;
  left = k.left ∙ h.left;
}

pub also : {m : Metric} {ms ns : List Metric} → ms ≡ ns → m ∷ ms ≡ m ∷ ns
also {m} h = ap (λ ms. m ∷ ms) h

-- emit_own_metric as the same three cases, whether or not the end has an outcome.
emit_own-cases :
    (env : Environment) (room : Room) (s : SocketId) (e : ClientAttachment)
    → IsClient e
    → Emitted env room s e (emit_own_metric env room s e)
unfolding emit_own_metric
emit_own-cases env room s e h =
    elim e.terminal_outcome
      as (λ o.
        Emitted env room s e
          (elim o [ none ↦ (room, false) | some own ↦ emit_terminal_metric env room s e own ])) [
            | none ↦ unwritten (record { quiet = Quiet-refl room; left = refl }) refl
            | some own ↦ emit-cases env room s e own h
          ]

pub summarized-Quiet :
    (room next : Room) (e : ClientAttachment)
    → Quiet room next
    → summarized next e ≡ summarized room e
summarized-Quiet room next e q = rw q.same_finalized refl

pub persist-already :
    (env : Environment) (room : Room) (s : SocketId) (e : ClientAttachment)
    → IsClient e
    → Persisted room s e true (persist_end env room s e true)
unfolding persist_end
persist-already env room s e h = elim (emit_own-cases env room s e h) [
  | known again same ↦ found refl (rw same (record { quiet = Quiet-refl room; left = refl })) refl
  | wrote fresh read ms servers answer ↦ summarized_now fresh read ms servers refl
  | unwritten aside answer ↦ found refl aside refl
]

pub persist-fresh :
    (env : Environment) (room : Room) (s : SocketId) (e : ClientAttachment)
    → IsClient e
    → Persisted room s e false (persist_end env room s e false)
unfolding persist_end
persist-fresh env room s e h =
    let w = try_write_attachment env room s (client e) in
    let quiet = try_write-Quiet env room s (client e) in
    let fresh_room = summarized-Quiet room w.0 e quiet in
    elim (Bool-cases w.1) [
      | inl fine ↦ elim (emit_own-cases env w.0 s e h) [
        | known again same ↦
            kept (rw same (written-read env room s e h fine)) (rw same quiet) (rw fine refl)
        | wrote fresh read ms servers answer ↦
            summarized_now (sym fresh_room ∙ fresh) read (ms ∙ also quiet.same_metrics)
              (servers ∙ quiet.same_servers) (rw fine refl)
        | unwritten aside answer ↦
            kept (read-same w.0 _ s aside.left ∙ written-read env room s e h fine)
              (Quiet-trans room w.0 _ quiet aside.quiet) (rw fine refl)
      ]
      | inr fault ↦
          let still = failed-Aside env room s (client e) fault in
          elim (emit_own-cases env w.0 s e h) [
            | known again same ↦
                found (sym fresh_room ∙ again) (rw same still) (rw (same, fault) refl)
            | wrote fresh read ms servers answer ↦
                summarized_now (sym fresh_room ∙ fresh) read (ms ∙ also quiet.same_metrics)
                  (servers ∙ quiet.same_servers) (rw (fault, answer) refl)
            | unwritten aside answer ↦
                lost (Aside-trans room w.0 _ s still aside) (rw (fault, answer) refl)
          ]
    ]
