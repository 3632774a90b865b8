-- ===== src/Broker/Examples.antt =====
-- A partition of three replicas that this broker, 1, leads: follower 2 is in sync and has flushed its
-- copy, follower 3 has dropped out. Two produce requests wait.
use pulse_log.Base.{
  ℕ, ◌≡◌, refl, arith, true, false, if◌then◌else◌, none, some, List, [], ◌∷◌, ◌++◌, All, keep, not,
}
use pulse_log.Base.Int.{ℤ, pos, ◌<ℤ◌}
use pulse_log.Base.Keys.{int_key}
use pulse_log.Base.Maps.{find, or_else}
use pulse_log.Base.Types.{AckMode}
use pulse_log.Broker.State.{
  PartitionAssignment, has_replica, FollowerState, DurabilityWaiter, LogView, timed_out, ok,
  not_leader, PartitionReplica,
}
use pulse_log.Broker.Replica.{set_assignment, settle, expire_waiters, extract_satisfied}
use pulse_log.Broker.Replica.Steps.{
  Moment, Event, reported, lagged, produced, expired, failed, reassigned, step, run,
}
use pulse_log.Broker.Replica.Watermark.{Advance, step-Advance}
use pulse_log.Broker.Replica.Waiters.{
  Answers, callbacks, answered, all_added, late, run-Answers, expire_waiters-late, is_due,
  settle-is_due,
}
use pulse_log.Broker.Replica.Followers.{
  IsConsistent, is_follower, find-set_assignment, run-IsConsistent,
}
use pulse_log.Broker.Replica.Quorum.{Majority, extract_satisfied-Majority}

abbrev three : PartitionAssignment
three = record {
  index = pos 0;
  leader = pos 1;
  leader_epoch = pos 2;
  replicas = pos 1 ∷ pos 2 ∷ pos 3 ∷ [];
  in_sync_replicas = pos 1 ∷ pos 2 ∷ [];
}

abbrev moved : PartitionAssignment
moved = record {
  index = pos 0;
  leader = pos 4;
  leader_epoch = pos 3;
  replicas = pos 1 ∷ pos 2 ∷ pos 4 ∷ [];
  in_sync_replicas = pos 4 ∷ [];
}

abbrev log : LogView
log = record { log_end = pos 10; flushed = pos 8 }

abbrev now : Moment
now = record { log = log; clock = λ w. pos 5 }

abbrev follower_two : FollowerState
follower_two = record {
  broker = pos 2;
  log_end_offset = pos 9;
  flushed_offset = pos 7;
  last_ack_ms = pos 100;
  in_sync = true;
  acks_received = 4;
}

abbrev follower_three : FollowerState
follower_three = record {
  broker = pos 3;
  log_end_offset = pos 3;
  flushed_offset = pos 3;
  last_ack_ms = pos 20;
  in_sync = false;
  acks_received = 1;
}

abbrev waiting : ℕ → ℤ → ℤ → DurabilityWaiter
waiting callback required deadline = record {
  required_offset = required;
  mode = AckMode.quorum;
  deadline_ms = deadline;
  on_complete = callback;
  added_nanos = pos 1;
  local_flush_nanos = pos 0;
}

abbrev leader_replica : PartitionReplica
leader_replica = record {
  self = pos 1;
  assignment = three;
  followers = (pos 2, follower_two) ∷ (pos 3, follower_three) ∷ [];
  waiters = waiting 11 (pos 6) (pos 500) ∷ waiting 12 (pos 9) (pos 90) ∷ [];
  pending_waiters = 2;
  high_water_mark = pos 4;
}

abbrev history : List (Moment × Event)
history =
    (now, reported (pos 2) (pos 10) (pos 10) (pos 110))
    ∷ (now, produced (waiting 13 (pos 7) (pos 600)))
    ∷ (now, lagged (pos 2))
    ∷ (now, expired (pos 700))
    ∷ (now, reassigned moved)
    ∷ (now, failed not_leader)
    ∷ []

consistent : IsConsistent leader_replica
unfolding has_replica
consistent = record {
  distinct = ((λ e. ground arith, tt), (tt, tt));
  replicas = (refl, (refl, tt));
}

step-Advance_example :
    Advance log leader_replica
      (step now (reported (pos 2) (pos 10) (pos 10) (pos 110)) leader_replica).0
step-Advance_example =
    step-Advance now (reported (pos 2) (pos 10) (pos 10) (pos 110)) leader_replica

run-Answers_example :
    Answers (callbacks leader_replica.waiters ++ all_added history) (run history leader_replica)
run-Answers_example = run-Answers history leader_replica

expire_waiters-late_example :
    All (λ w. pos 90 <ℤ w.deadline_ms) (expire_waiters (pos 90) leader_replica).0.waiters
    × (answered (expire_waiters (pos 90) leader_replica).1
        ≡ callbacks (late (pos 90) leader_replica.waiters))
    × All
        (λ c. (c.status ≡ timed_out) × (c.watermark ≡ pos 4))
        (expire_waiters (pos 90) leader_replica).1
expire_waiters-late_example = expire_waiters-late (pos 90) leader_replica

settle-is_due_example :
    (answered (settle log (λ w. pos 5) leader_replica).1
      ≡ callbacks (keep (is_due log leader_replica) leader_replica.waiters))
    × (callbacks (settle log (λ w. pos 5) leader_replica).0.waiters
        ≡ callbacks (keep (λ w. not (is_due log leader_replica w)) leader_replica.waiters))
    × All (λ c. (c.status ≡ ok) × (c.watermark ≡ pos 4)) (settle log (λ w. pos 5) leader_replica).1
settle-is_due_example = settle-is_due log (λ w. pos 5) leader_replica

run-IsConsistent_example : IsConsistent (run history leader_replica).0
run-IsConsistent_example = run-IsConsistent history leader_replica consistent

find-set_assignment_example : find (pos 4) (set_assignment moved leader_replica).followers ≡ (
    if is_follower moved.replicas (pos 1) (pos 4)
    then or_else (find (pos 4) leader_replica.followers) (
        some (record {
          broker = pos 4;
          log_end_offset = pos 0;
          flushed_offset = pos 0;
          last_ack_ms = pos 0;
          in_sync = true;
          acks_received = 0;
        }))
    else none)
find-set_assignment_example = find-set_assignment moved leader_replica (pos 4)

extract_satisfied-Majority_example :
    All
      (λ w. w.mode ≡ AckMode.quorum → Majority log leader_replica w.required_offset)
      (extract_satisfied log (λ w. pos 5) leader_replica).1
unfolding has_replica
extract_satisfied-Majority_example =
    extract_satisfied-Majority log (λ w. pos 5) leader_replica consistent refl
