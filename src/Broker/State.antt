-- ===== src/Broker/State.antt =====
-- The data of broker/partition_replica.h and of `PartitionAssignment` (metadata/cluster_metadata.h).
-- A callback is known by a number. The log is read through its two published offsets, `LogView`.
use pulse_log.Base.{ℕ, ◌+◌, ◌/◌, Bool, false, ◌||◌, List, [], ◌∷◌, length}
use pulse_log.Base.Int.{ℤ}
use pulse_log.Base.Keys.{◌==◌, int_key}
use pulse_log.Base.Maps.{Map}
use pulse_log.Base.Types.{AckMode}

pub record PartitionAssignment : Type 0 where
  pub index : ℤ
  pub leader : ℤ
  pub leader_epoch : ℤ
  pub replicas : List ℤ
  pub in_sync_replicas : List ℤ

unfoldable pub has_replica : List ℤ → ℤ → Bool
has_replica [] broker = false
has_replica (r ∷ rs) broker = r == broker || has_replica rs broker

unfoldable pub quorum_size : PartitionAssignment → ℕ
quorum_size a = length a.replicas / 2 + 1

pub record FollowerState : Type 0 where
  pub broker : ℤ
  pub log_end_offset : ℤ
  pub flushed_offset : ℤ
  pub last_ack_ms : ℤ
  pub in_sync : Bool
  pub acks_received : ℕ

pub record DurabilityWaiter : Type 0 where
  pub required_offset : ℤ
  pub mode : AckMode
  pub deadline_ms : ℤ
  pub on_complete : ℕ
  pub added_nanos : ℤ
  pub local_flush_nanos : ℤ

-- What the replica reads of its log: `LogEndOffset()` and `FlushedOffset()`.
pub record LogView : Type 0 where
  pub log_end : ℤ
  pub flushed : ℤ

-- The codes of `Status` with which callbacks are called.
pub data StatusCode : Type 0 where
  ok timed_out unavailable not_leader : StatusCode

pub record Completion : Type 0 where
  pub callback : ℕ
  pub status : StatusCode
  pub watermark : ℤ
  pub flush_nanos : ℤ

pub record PartitionReplica : Type 0 where
  pub self : ℤ
  pub assignment : PartitionAssignment
  pub followers : Map ℤ FollowerState
  pub waiters : List DurabilityWaiter
  pub pending_waiters : ℕ
  pub high_water_mark : ℤ
