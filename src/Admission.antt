-- ===== src/Admission.antt =====
-- src/rendezvous-admission.ts: the admissions of one room and the replay tags that they claim.
-- A table is its list of rows. A transaction that throws is rolled back, so a failure carries no
-- table. The identifier that SQLite gives a new row is a parameter.
pub mod Tags
pub mod TagShape
pub mod Store
pub mod Schema
pub mod Rows
pub mod Calls
pub mod Retained
pub mod Outcomes
pub mod AtOnce
pub mod Replay
pub mod Register
pub mod Distinct
pub mod Restart
pub mod Expiry
pub mod Deleted
pub mod Pruning
pub mod Tests
use metaserver_worker.Common.{ℕ, ◌*◌, ◌-◌, Option, Text, max_safe_integer}

abbrev pub rolling_window_ms : ℕ
rolling_window_ms = 24 * 60 * 60 * 1_000

abbrev pub max_replay_admissions : ℕ
max_replay_admissions = 100_000

abbrev pub replay_prune_batch_size : ℕ
replay_prune_batch_size = 256

abbrev pub max_accepted_at_ms : ℕ
max_accepted_at_ms = max_safe_integer - rolling_window_ms

pub data StoreError : Type 0 where
  range_error corrupt_schema unsupported_schema : StoreError

pub record AdmissionRow : Type 0 where
  pub id : ℕ
  pub accepted_at_ms : ℕ
  pub current : Option Text
  pub previous : Option Text

pub data ConsumeResult : Type 0 where
  accepted : ℕ → ConsumeResult
  maintenance_backlog storage_capacity replay : ConsumeResult

pub data ClaimResult : Type 0 where
  claimed missing already_claimed replay : ClaimResult
