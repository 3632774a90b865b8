-- ===== src/Broker/Replica/Steps.antt =====
-- The histories of a partition replica: the calls that the io, replication, flusher and maintenance
-- threads make of it. Each runs under the replica's mutex, so a history is a sequence of them. The
-- one part that runs outside, the calls of the callbacks, is in the completions of the step.
use pulse_log.Base.{List, [], ◌∷◌, ◌++◌}
use pulse_log.Base.Int.{ℤ}
use pulse_log.Broker.State.{
  PartitionAssignment, DurabilityWaiter, LogView, StatusCode, Completion, PartitionReplica,
}
use pulse_log.Broker.Replica.{
  set_assignment, on_leader_append, on_follower_progress, mark_follower_out_of_sync, add_waiter,
  complete_satisfied_waiters, expire_waiters, fail_all_waiters,
}

pub data Event : Type 0 where
  appended : Event
  reported : ℤ → ℤ → ℤ → ℤ → Event
  lagged : ℤ → Event
  produced : DurabilityWaiter → Event
  swept : Event
  expired : ℤ → Event
  failed : StatusCode → Event
  reassigned : PartitionAssignment → Event

-- What an event finds: the log's offsets and the clock.
pub record Moment : Type 0 where
  pub log : LogView
  pub clock : DurabilityWaiter → ℤ

unfoldable pub step : Moment → Event → PartitionReplica → PartitionReplica × List Completion
step t appended r = on_leader_append t.log t.clock r
step t (reported follower log_end flushed now_ms) r =
    on_follower_progress t.log t.clock follower log_end flushed now_ms r
step t (lagged follower) r = mark_follower_out_of_sync t.log t.clock follower r
step t (produced w) r = add_waiter t.log t.clock w r
step t swept r = complete_satisfied_waiters t.log t.clock r
step t (expired now_ms) r = expire_waiters now_ms r
step t (failed reason) r = fail_all_waiters reason r
step t (reassigned a) r = (set_assignment a r, [])

unfoldable pub run : List (Moment × Event) → PartitionReplica → PartitionReplica × List Completion
run [] r = (r, [])
run ((t, e) ∷ es) r =
    let (r', done) = step t e r in let (r'', more) = run es r' in (r'', done ++ more)
