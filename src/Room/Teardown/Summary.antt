-- ===== src/Room/Teardown/Summary.antt =====
-- What emitTerminalMetric has written when it answers.
use metaserver_worker.Room.State.{
  read_client_attachment, Environment, read_attachment, Room, SocketId, Metric,
  try_write_attachment,
}
use metaserver_worker.Attachments.{ClientAttachment, client, Attachment}
use metaserver_worker.Room.Teardown.{emit_terminal_metric, true, Outcome, summarized, metric_of}
use metaserver_worker.Attachments.Valid.{IsClient}
use metaserver_worker.Common.{if◌then◌else◌, true, ◌≡◌, Bool}
use metaserver_worker.Contract.{Outcome}
use metaserver_worker.Attachments.Valid.{
  IsClient, HasStage, HasGrant, no_grant, granted, waiting, exchanging, ended,
}
use metaserver_worker.Common.{
  if◌then◌else◌, refl, true, false, Bool-cases, inl, inr, ◌∷◌, some, ◌≡◌, ◌∙◌, arith, subst, ap,
}
use metaserver_worker.Room.Teardown.Steps.{try_write-Quiet, read-try_write, Aside}

abbrev pub with_summary : ClientAttachment → ClientAttachment
with_summary a = record a { summary_emitted = true }

summary_grant : (a : ClientAttachment) → HasGrant a → HasGrant (with_summary a)
summary_grant a (no_grant g r n e) = no_grant g r n e
summary_grant a (granted g r n e hg hr hn safe after within) =
    granted g r n e hg hr hn safe after within

summary_stage : (a : ClientAttachment) → HasStage a → HasStage (with_summary a)
summary_stage a (waiting s z g b hb t d c sc cc o k) =
    waiting s z (summary_grant a g) b hb t d c sc cc o k
summary_stage a (exchanging s z g b hb t ht d hd c sc cc o k) =
    exchanging s z (summary_grant a g) b hb t ht d hd c sc cc o k
summary_stage a (ended s z g r n e b t d c sc cc o k) = ended s z g r n e b t d c sc cc o k

pub with_summary-IsClient : (a : ClientAttachment) → IsClient a → IsClient (with_summary a)
with_summary-IsClient a h = record {
  control = h.control;
  generated = h.generated;
  connected = h.connected;
  admitted = h.admitted;
  admission_safe = h.admission_safe;
  opened_before = h.opened_before;
  short = h.short;
  safe = h.safe;
  no_client_authorization = h.no_client_authorization;
  no_server_authorization = h.no_server_authorization;
  bytes_bounded = h.bytes_bounded;
  forwarded_bounded = h.forwarded_bounded;
  bytes_iff = h.bytes_iff;
  staged = summary_stage a h.staged;
}

pub read-same :
    (room next : Room) (s : SocketId)
    → next.socket s ≡ room.socket s
    → read_client_attachment next s ≡ read_client_attachment room s
unfolding read_client_attachment read_attachment
read-same room next s h = rw h refl

-- The four things that emitting a terminal summary can do.
pub data Emitted (env : Environment) (room : Room) (s : SocketId) (e : ClientAttachment)
    (r : Room × Bool) : Type 0 where
  known : summarized room e ≡ true → r ≡ (room, true) → Emitted env room s e r
  wrote :
      {m : Metric}
      → summarized room e ≡ false
      → read_client_attachment (r.0) s ≡ some (with_summary e)
      → (r.0).metrics ≡ m ∷ room.metrics
      → (r.0).server_sockets ≡ room.server_sockets
      → r.1 ≡ true
      → Emitted env room s e r
  unwritten : Aside room (r.0) s → r.1 ≡ false → Emitted env room s e r

write-fault :
    (env : Environment) (room : Room) (s : SocketId) (a : Attachment)
    → (try_write_attachment env room s a).1 ≡ false
    → env.write_throws room.calls ≡ true
unfolding try_write_attachment
write-fault env room s a h = ground arith

-- A write that fails leaves every socket.
pub failed-Aside :
    (env : Environment) (room : Room) (s : SocketId) (a : Attachment)
    → (try_write_attachment env room s a).1 ≡ false
    → Aside room (try_write_attachment env room s a).0 s
unfolding try_write_attachment
failed-Aside env room s a h = record {
  quiet = try_write-Quiet env room s a;
  left = rw (write-fault env room s a h) refl;
}

pub written-read :
    (env : Environment) (room : Room) (s : SocketId) (a : ClientAttachment)
    → IsClient a
    → (try_write_attachment env room s (client a)).1 ≡ true
    → read_client_attachment (try_write_attachment env room s (client a)).0 s ≡ some a
written-read env room s a h fine =
    subst
      (λ b.
        read_client_attachment (try_write_attachment env room s (client a)).0 s
        ≡ (if b then some a else read_client_attachment room s))
      fine (read-try_write env room s a h)

pub emit-cases :
    (env : Environment) (room : Room) (s : SocketId) (e : ClientAttachment) (o : Outcome)
    → IsClient e
    → Emitted env room s e (emit_terminal_metric env room s e o)
unfolding emit_terminal_metric
emit-cases env room s e o h =
    let marked = client (with_summary e) in
    let w = try_write_attachment env room s marked in
    let quiet = try_write-Quiet env room s marked in
    elim (Bool-cases (summarized room e)) [
      | inl again ↦ known again (rw again refl)
      | inr fresh ↦ elim (Bool-cases (w.1)) [
        | inl fine ↦
            wrote {m = metric_of env w.0 e o} fresh
              (rw (fresh, fine)
                (read-same w.0 _ s refl
                  ∙ written-read env room s (with_summary e) (with_summary-IsClient e h) fine))
              (rw (fresh, fine) (ap (λ ms. metric_of env w.0 e o ∷ ms) quiet.same_metrics))
              (rw (fresh, fine) quiet.same_servers) (rw (fresh, fine) refl)
        | inr fault ↦
            unwritten (rw (fresh, fault) (failed-Aside env room s marked fault))
              (rw (fresh, fault) refl)
      ]
    ]
