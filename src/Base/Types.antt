-- ===== src/Base/Types.antt =====
-- base/types.h and the codes of base/status.h: the identifiers that the parts share.
use pulse_log.Base.Tests.{if◌then◌else◌}
use pulse_log.Base.Int.{ℤ, ltb_ℤ, eqb_ℤ, eqb_ℤ_iff}
use pulse_log.Base.Keys.{Key, Bytes, bytes_eq, bytes_lt, bytes_eq_iff}
use mathlib.Core.Path.{◌≡◌}
use mathlib.Core.Logic.{◌↔◌}
use mathlib.Core.Bool.{Bool, true, ◌&&◌, not}
use native.Mathlib.Omega.{arith}

pub data AckMode : Type 0 where
  none leader quorum : AckMode

pub data Compression : Type 0 where
  none lz4_like : Compression

pub data AssignmentStrategy : Type 0 where
  range round_robin : AssignmentStrategy

pub data ErrorCode : Type 0 where
  ok unknown invalid_argument not_found already_exists out_of_range corruption io_error unavailable
        timeout backpressure not_leader not_enough_replicas protocol_error unsupported_version
        permission_denied resource_exhausted rebalance_in_progress unknown_member illegal_generation
        closed would_block internal :
      ErrorCode

pub record TopicPartition : Type 0 where
  pub topic : Bytes
  pub partition : ℤ

abbrev pub partition_eq : TopicPartition → TopicPartition → Bool
partition_eq a b = eqb_ℤ a.partition b.partition && bytes_eq a.topic b.topic

abbrev pub partition_lt : TopicPartition → TopicPartition → Bool
partition_lt a b =
    if not (bytes_eq a.topic b.topic)
    then bytes_lt a.topic b.topic
    else ltb_ℤ a.partition b.partition

pub partition_eq_iff : (a b : TopicPartition) → (partition_eq a b ≡ true) ↔ (a ≡ b)
partition_eq_iff a b = (
  (λ h. ground (arith, eqb_ℤ_iff a.partition b.partition, bytes_eq_iff a.topic b.topic)),
  (λ h. ground (arith, eqb_ℤ_iff a.partition b.partition, bytes_eq_iff a.topic b.topic)),
)

instance abbrev pub partition_key : Key TopicPartition
partition_key = record { beq = partition_eq; less = partition_lt; beq_iff = partition_eq_iff }
