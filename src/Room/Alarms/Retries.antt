-- ===== src/Room/Alarms/Retries.antt =====
-- The closes that a client gets after its end when the alarm rings.
use metaserver_worker.Common.{
  ℕ, zero, suc, ◌+◌, ◌≡◌, true, none, some, leb, if◌then◌else◌, arith, Bool, ◌⊎◌, ◌≤◌,
}
use metaserver_worker.Room.Alarms.Awaited.{RetryAfter, at_expiry, after_one, after_two, after_three}
use metaserver_worker.Contract.{
  max_terminal_close_attempts, terminal_close_retry_offsets_ms, internal_error_close,
}
use metaserver_worker.Attachments.{ClientAttachment, client}
use metaserver_worker.Room.Rules.{terminal_close_attempt_at, nth}
use metaserver_worker.Room.State.{
  Environment, Room, SocketId, try_write_attachment, close_socket, read_client_attachment,
}
use metaserver_worker.Room.Alarms.{close_socket, read_client_attachment}

abbrev pub attempted : ClientAttachment → ClientAttachment
attempted a = record a { terminal_close_attempts = a.terminal_close_attempts + 1 }

retry_of :
    (attempts expires at : ℕ)
    → (if leb max_terminal_close_attempts attempts
        then none
        else elim (nth terminal_close_retry_offsets_ms attempts) [
          | none ↦ none
          | some offset ↦ some (expires + offset)
        ])
      ≡ some at
    → (offset : ℕ) × RetryAfter attempts offset × (at ≡ expires + offset)
retry_of zero expires at due = (0, at_expiry, ground arith)
retry_of (suc zero) expires at due = (1_000, after_one, ground arith)
retry_of (suc (suc zero)) expires at due = (3_000, after_two, ground arith)
retry_of (suc (suc (suc zero))) expires at due = (7_000, after_three, ground arith)
retry_of (suc (suc (suc (suc n)))) expires at due = absurd (ground arith)

pub few_attempts :
    (a : ClientAttachment) (at : ℕ)
    → terminal_close_attempt_at a ≡ some at
    → (offset : ℕ) × RetryAfter a.terminal_close_attempts offset × (at ≡ a.expires_at + offset)
unfolding terminal_close_attempt_at
few_attempts a at due = retry_of a.terminal_close_attempts a.expires_at at due

-- A close of a client that has ended, made at an alarm.
pub record IsRetry (env : Environment) (room : Room) (s : SocketId) (a : ClientAttachment)
    (now offset : ℕ) (after : Room × Bool) : Type 0 where
  pub planned : RetryAfter a.terminal_close_attempts offset
  pub due : a.expires_at + offset ≤ now
  pub counted :
      (env.write_throws room.calls ≡ true) ⊎ (read_client_attachment after.0 s ≡ some (attempted a))
  pub raised : (after.1 ≡ true) ⊎ (env.write_throws room.calls ≡ true)

module _ (env : Environment) (room : Room) (s : SocketId) (a : ClientAttachment) where
  abbrev written : Room × Bool
  written = try_write_attachment env room s (client (attempted a))

  abbrev closing : Room × Bool
  closing = close_socket env written.0 s internal_error_close
