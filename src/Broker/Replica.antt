-- ===== src/Broker/Replica.antt =====
-- broker/partition_replica.cc: the replication state of one partition on one broker. An operation
-- returns the new state and the calls that it makes of callbacks, in order, as `Completion`s.
mod Cases
pub mod Steps
pub mod Watermark
pub mod Waiters
pub mod Followers
pub mod Quorum
use pulse_log.Base.{
  ℕ, suc, ◌+◌, ◌%◌, ◌^◌, leb, if◌then◌else◌, Bool, true, false, ◌&&◌, ◌||◌, not, none, some, List,
  [], ◌∷◌, ◌++◌, map, length, is_empty, keep, count_if,
}
use pulse_log.Base.Int.{ℤ, pos, ◌-ℤ◌, ltb_ℤ, leb_ℤ, min_ℤ, max_ℤ}
use pulse_log.Base.Keys.{◌==◌, int_key}
use pulse_log.Base.Maps.{Map, find, assign, emplace}
use pulse_log.Base.Types.{AckMode}
use pulse_log.Broker.State.{
  PartitionAssignment, FollowerState, DurabilityWaiter, LogView, StatusCode, ok, timed_out,
  Completion, PartitionReplica, has_replica, quorum_size,
}

-- `FollowerState state; state.broker = replica;`
pub new_follower : ℤ → FollowerState
new_follower b = record {
  broker = b;
  log_end_offset = pos 0;
  flushed_offset = pos 0;
  last_ack_ms = pos 0;
  in_sync = true;
  acks_received = 0;
}

-- Both loops over `assignment_.replicas`: followers that are not there yet start at offset 0.
pub add_followers : ℤ → List ℤ → Map ℤ FollowerState → Map ℤ FollowerState
add_followers self [] m = m
add_followers self (r ∷ rs) m =
    add_followers self rs (if r == self then m else emplace r (new_follower r) m)

pub is_leader : PartitionReplica → Bool
is_leader r = r.assignment.leader == r.self

pub open_replica : ℤ → PartitionAssignment → LogView → PartitionReplica
unfolding is_leader
open_replica self a log = record {
  self = self;
  assignment = a;
  followers = members;
  waiters = [];
  pending_waiters = 0;
  high_water_mark = if (a.leader == self) && is_empty members then log.log_end else pos 0;
}
  where
    members : Map ℤ FollowerState
    members = add_followers self a.replicas []

-- The erasing loop of `SetAssignment`.
pub drop_followers : ℤ → PartitionAssignment → Map ℤ FollowerState → Map ℤ FollowerState
drop_followers self a = keep (λ e. not (not (has_replica a.replicas e.0) || e.0 == self))

pub set_assignment : PartitionAssignment → PartitionReplica → PartitionReplica
set_assignment a r = record r {
  assignment = a;
  followers = add_followers r.self a.replicas (drop_followers r.self a r.followers);
}

-- The loop of `RecomputeHighWaterMarkLocked`: the mark and the count of replicas in sync.
pub in_sync_min : Map ℤ FollowerState → ℤ → ℕ → ℤ × ℕ
in_sync_min [] mark n = (mark, n)
in_sync_min ((id, f) ∷ m) mark n =
    in_sync_min m (if f.in_sync then min_ℤ mark f.log_end_offset else mark)
      (if f.in_sync then suc n else n)

-- The mark that the leader computes, before the comparison with the previous one.
pub candidate_mark : LogView → Map ℤ FollowerState → ℤ
candidate_mark log m =
    let (mark, in_sync_count) = in_sync_min m log.log_end 1 in
    if leb in_sync_count 1 then log.log_end else mark

-- The offset that it returns is the new `high_water_mark` on every path.
pub recompute : LogView → PartitionReplica → PartitionReplica
recompute log r =
    if not (is_leader r)
    then r
    else (let mark = candidate_mark log r.followers in
        if ltb_ℤ r.high_water_mark mark then record r { high_water_mark = mark } else r)

-- `flushed > waiter.required_offset`, counted over the followers in sync.
pub persisted_count : ℤ → LogView → Map ℤ FollowerState → ℕ
persisted_count required log m =
    (if ltb_ℤ required log.flushed then 1 else 0)
    + count_if (λ e. e.1.in_sync && ltb_ℤ required e.1.flushed_offset) m

-- What the lambda `satisfied` writes into the waiter; `clock` is what `MonotonicNanos` returns for it.
pub stamp_mode : LogView → (DurabilityWaiter → ℤ) → DurabilityWaiter → AckMode → DurabilityWaiter
stamp_mode log clock w AckMode.quorum =
    if ltb_ℤ w.required_offset log.flushed && w.local_flush_nanos == pos 0
    then record w { local_flush_nanos = clock w }
    else w
stamp_mode log clock w _ = w

pub stamp : LogView → (DurabilityWaiter → ℤ) → DurabilityWaiter → DurabilityWaiter
unfolding stamp_mode
stamp log clock w = stamp_mode log clock w w.mode

pub satisfied_mode : LogView → PartitionReplica → ℤ → AckMode → Bool
satisfied_mode log r required AckMode.none = true
satisfied_mode log r required AckMode.leader = ltb_ℤ required log.log_end
satisfied_mode log r required AckMode.quorum =
    leb (quorum_size r.assignment) (persisted_count required log r.followers)

pub satisfied : LogView → PartitionReplica → DurabilityWaiter → Bool
unfolding satisfied_mode
satisfied log r w = satisfied_mode log r w.required_offset w.mode

-- `waiters_ = …; PublishWaiterCountLocked()`
pub with_waiters : List DurabilityWaiter → PartitionReplica → PartitionReplica
with_waiters ws r = record r { waiters = ws; pending_waiters = length ws }

-- `std::stable_partition` keeps the order in both parts; the moved-out part comes back second.
pub extract_satisfied :
    LogView → (DurabilityWaiter → ℤ) → PartitionReplica → PartitionReplica × List DurabilityWaiter
unfolding with_waiters
extract_satisfied log clock r =
    let ws = map (stamp log clock) r.waiters in
    (with_waiters (keep (λ w. not (satisfied log r w)) ws) r, keep (satisfied log r) ws)

-- `for (auto& waiter : satisfied) waiter.on_complete(status, watermark, waiter.local_flush_nanos);`
pub complete : StatusCode → ℤ → List DurabilityWaiter → List Completion
complete status mark = map (λ w. record {
  callback = w.on_complete;
  status = status;
  watermark = mark;
  flush_nanos = w.local_flush_nanos;
})

-- Extraction under the lock, then the callbacks with the mark.
pub settle :
    LogView → (DurabilityWaiter → ℤ) → PartitionReplica → PartitionReplica × List Completion
unfolding extract_satisfied
settle log clock r =
    let (r', done) = extract_satisfied log clock r in (r', complete ok r'.high_water_mark done)

pub on_leader_append :
    LogView → (DurabilityWaiter → ℤ) → PartitionReplica → PartitionReplica × List Completion
unfolding settle recompute
on_leader_append log clock r = settle log clock (recompute log r)

-- `flushed_offset` and `log_end_offset` are as reported; `now_ms` is the time of the report.
pub progress : ℤ → ℤ → ℤ → FollowerState → FollowerState
progress log_end flushed now_ms f = record f {
  log_end_offset = max_ℤ f.log_end_offset log_end;
  flushed_offset = max_ℤ f.flushed_offset flushed;
  last_ack_ms = now_ms;
  in_sync = true;
  acks_received = (f.acks_received + 1) % 2 ^ 64;
}

-- The offset that it returns is the `high_water_mark` of the new state.
pub on_follower_progress :
    LogView
    → (DurabilityWaiter → ℤ)
    → ℤ
    → ℤ
    → ℤ
    → ℤ
    → PartitionReplica
    → PartitionReplica × List Completion
unfolding settle recompute
on_follower_progress log clock follower log_end flushed now_ms r =
    elim (find follower r.followers) [
      | none ↦ (r, [])
      | some f ↦ settle log clock (
          recompute log (record r {
            followers = assign follower (progress log_end flushed now_ms f) r.followers;
          }))
    ]

pub mark_follower_out_of_sync :
    LogView → (DurabilityWaiter → ℤ) → ℤ → PartitionReplica → PartitionReplica × List Completion
unfolding settle recompute
mark_follower_out_of_sync log clock follower r = elim (find follower r.followers) [
  | none ↦ (r, [])
  | some f ↦
      if not f.in_sync
      then (r, [])
      else settle log clock (
          recompute log
            (record r { followers = assign follower (record f { in_sync = false }) r.followers }))
]

pub add_waiter :
    LogView
    → (DurabilityWaiter → ℤ)
    → DurabilityWaiter
    → PartitionReplica
    → PartitionReplica × List Completion
unfolding settle
add_waiter log clock w r = settle log clock (record r { waiters = r.waiters ++ w ∷ [] })

-- It returns the number of completions.
pub complete_satisfied_waiters :
    LogView → (DurabilityWaiter → ℤ) → PartitionReplica → PartitionReplica × List Completion
unfolding settle recompute
complete_satisfied_waiters log clock r = settle log clock (recompute log r)

-- It returns the number of completions; the message that it logs is not modelled.
pub expire_waiters : ℤ → PartitionReplica → PartitionReplica × List Completion
unfolding with_waiters
expire_waiters now_ms r = (
  with_waiters (keep (λ w. ltb_ℤ now_ms w.deadline_ms) r.waiters) r,
  complete timed_out r.high_water_mark (keep (λ w. not (ltb_ℤ now_ms w.deadline_ms)) r.waiters),
)

pub fail_all_waiters : StatusCode → PartitionReplica → PartitionReplica × List Completion
unfolding with_waiters
fail_all_waiters reason r = (with_waiters [] r, complete reason r.high_water_mark r.waiters)

pub max_follower_lag : LogView → Map ℤ FollowerState → ℤ → ℤ
max_follower_lag log [] worst = worst
max_follower_lag log ((id, f) ∷ m) worst =
    max_follower_lag log m (max_ℤ worst (log.log_end -ℤ f.log_end_offset))

pub persisted_replica_count : ℤ → LogView → PartitionReplica → ℕ
persisted_replica_count offset log r =
    (if leb_ℤ offset log.flushed then 1 else 0)
    + count_if (λ e. e.1.in_sync && leb_ℤ offset e.1.flushed_offset) r.followers
