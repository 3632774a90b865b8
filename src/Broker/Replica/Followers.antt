-- ===== src/Broker/Replica/Followers.antt =====
-- The map of followers: which brokers are in it, and what `SetAssignment` keeps of it.
use pulse_log.Base.{
  ◌≡◌, ◌∙◌, arith, Bool, true, not, ◌&&◌, ◌||◌, List, [], ◌∷◌, All, Bool-cases, inl, inr, none,
  some, if◌then◌else◌,
}
use pulse_log.Base.Int.{ℤ, pos, eqb_ℤ_iff}
use pulse_log.Base.Keys.{◌==◌, int_key}
use pulse_log.Base.Maps.{
  Map, find, assign, emplace, or_else, find-emplace, find-keep, All-assign, All-find,
}
use pulse_log.Base.Distinct.{
  HasDistinctKeys, All-of_find, keep-HasDistinctKeys, assign-HasDistinctKeys,
  emplace-HasDistinctKeys,
}
use pulse_log.Broker.State.{
  PartitionAssignment, FollowerState, DurabilityWaiter, LogView, PartitionReplica, has_replica,
}
use pulse_log.Broker.Replica.{
  new_follower, add_followers, drop_followers, open_replica, set_assignment, settle, recompute,
  extract_satisfied, with_waiters, on_leader_append, add_waiter, complete_satisfied_waiters,
  expire_waiters, fail_all_waiters,
}
use pulse_log.Broker.Replica.Cases.{recompute_cases, progress_cases, lag_cases}
use pulse_log.Broker.Replica.Steps.{
  Event, appended, reported, lagged, produced, swept, expired, failed, reassigned, Moment, step,
  run,
}

-- A broker that is a follower: a replica other than this broker.
abbrev pub is_follower : List ℤ → ℤ → ℤ → Bool
is_follower replicas self b = has_replica replicas b && not (b == self)

find-add_followers :
    (self b : ℤ) (rs : List ℤ) (m : Map ℤ FollowerState)
    → find b (add_followers self rs m)
      ≡ or_else (find b m) (if is_follower rs self b then some (new_follower b) else none)
unfolding add_followers has_replica
find-add_followers self b [] m = ground arith
find-add_followers self b (r ∷ rs) m = ground (
  arith,
  find-add_followers self b rs (if r == self then m else emplace r (new_follower r) m),
  find-emplace r b (new_follower r) m,
  eqb_ℤ_iff r b,
  eqb_ℤ_iff r self,
  eqb_ℤ_iff b self,
)

find-drop_followers :
    (self b : ℤ) (a : PartitionAssignment) (m : Map ℤ FollowerState)
    → find b (drop_followers self a m) ≡ (if is_follower a.replicas self b then find b m else none)
unfolding drop_followers
find-drop_followers self b a m =
    find-keep (λ j. not (not (has_replica a.replicas j) || j == self)) b m ∙ ground arith

-- After `SetAssignment` the followers are exactly the other replicas: one that was a follower before
-- keeps all that was recorded of it, and a new one starts at offset 0, flushed to offset 0, in sync and
-- without an acknowledgement.
pub find-set_assignment :
    (a : PartitionAssignment) (r : PartitionReplica) (b : ℤ)
    → find b (set_assignment a r).followers ≡ (
        if is_follower a.replicas r.self b
        then or_else (find b r.followers) (
            some (record {
              broker = b;
              log_end_offset = pos 0;
              flushed_offset = pos 0;
              last_ack_ms = pos 0;
              in_sync = true;
              acks_received = 0;
            }))
        else none)
unfolding set_assignment new_follower
find-set_assignment a r b = ground (
  arith,
  find-add_followers r.self b a.replicas (drop_followers r.self a r.followers),
  find-drop_followers r.self b a r.followers,
)

-- The keys are distinct and are other replicas.
pub record IsConsistent (r : PartitionReplica) : Type 0 where
  pub distinct : HasDistinctKeys r.followers
  pub replicas : All (λ e. is_follower r.assignment.replicas r.self e.0 ≡ true) r.followers

add_followers-HasDistinctKeys :
    (self : ℤ) (rs : List ℤ) (m : Map ℤ FollowerState)
    → HasDistinctKeys m
    → HasDistinctKeys (add_followers self rs m)
unfolding add_followers
add_followers-HasDistinctKeys self [] m h = h
add_followers-HasDistinctKeys self (r ∷ rs) m h = elim (Bool-cases (r == self)) [
  | inl e ↦ rw e (add_followers-HasDistinctKeys self rs m h)
  | inr e ↦ rw e (
      add_followers-HasDistinctKeys self rs (emplace r (new_follower r) m)
        (emplace-HasDistinctKeys r (new_follower r) m h))
]

pub open_replica-IsConsistent :
    (self : ℤ) (a : PartitionAssignment) (log : LogView) → IsConsistent (open_replica self a log)
unfolding open_replica find
open_replica-IsConsistent self a log =
    let distinct = add_followers-HasDistinctKeys self a.replicas [] tt in
    record {
      distinct = distinct;
      replicas =
          All-of_find (λ b. is_follower a.replicas self b ≡ true) (add_followers self a.replicas [])
            distinct (λ b f e. ground (arith, find-add_followers self b a.replicas []));
    }

set_assignment-IsConsistent :
    (a : PartitionAssignment) (r : PartitionReplica)
    → IsConsistent r
    → IsConsistent (set_assignment a r)
set_assignment-IsConsistent a r c = record {
  distinct = distinct;
  replicas =
      unfold set_assignment in
      All-of_find (λ b. is_follower a.replicas r.self b ≡ true) (set_assignment a r).followers
        distinct (λ b f e. ground (arith, find-set_assignment a r b));
}
  where
    distinct : HasDistinctKeys (set_assignment a r).followers
    distinct =
        unfold set_assignment drop_followers in
        add_followers-HasDistinctKeys r.self a.replicas _
          (keep-HasDistinctKeys _ r.followers c.distinct)

settle-recompute-IsConsistent :
    (log : LogView) (clock : DurabilityWaiter → ℤ) (r : PartitionReplica)
    → IsConsistent r
    → IsConsistent (settle log clock (recompute log r)).0
unfolding settle extract_satisfied with_waiters
settle-recompute-IsConsistent log clock r c =
    let d : IsConsistent (recompute log r) =
      recompute_cases IsConsistent log r c
        (λ h. record { distinct = c.distinct; replicas = c.replicas }) in
    record { distinct = d.distinct; replicas = d.replicas }

update-IsConsistent :
    (r : PartitionReplica) (b : ℤ) (f f' : FollowerState)
    → IsConsistent r
    → find b r.followers ≡ some f
    → IsConsistent (record r { followers = assign b f' r.followers })
update-IsConsistent r b f f' c e = record {
  distinct = assign-HasDistinctKeys b f' r.followers c.distinct;
  replicas =
      All-assign (λ e. is_follower r.assignment.replicas r.self e.0 ≡ true) b f' r.followers
        (All-find (λ e. is_follower r.assignment.replicas r.self e.0 ≡ true) b r.followers
          c.replicas e)
        c.replicas;
}

-- Every call keeps the followers' keys distinct, and each of them a replica other than this broker.
pub step-IsConsistent :
    (t : Moment) (e : Event) (r : PartitionReplica) → IsConsistent r → IsConsistent (step t e r).0
unfolding step on_leader_append add_waiter settle extract_satisfied complete_satisfied_waiters
    expire_waiters fail_all_waiters with_waiters
step-IsConsistent t appended r c = settle-recompute-IsConsistent t.log t.clock r c
step-IsConsistent t (reported follower log_end flushed now_ms) r c =
    progress_cases (λ u. IsConsistent u.0) t.log t.clock follower r c log_end flushed now_ms
      (λ f e.
        settle-recompute-IsConsistent t.log t.clock _ (update-IsConsistent r follower f _ c e))
step-IsConsistent t (lagged follower) r c =
    lag_cases (λ u. IsConsistent u.0) t.log t.clock follower r c
      (λ f e _.
        settle-recompute-IsConsistent t.log t.clock _ (update-IsConsistent r follower f _ c e))
step-IsConsistent t (produced w) r c = record { distinct = c.distinct; replicas = c.replicas }
step-IsConsistent t swept r c = settle-recompute-IsConsistent t.log t.clock r c
step-IsConsistent t (expired now_ms) r c = record { distinct = c.distinct; replicas = c.replicas }
step-IsConsistent t (failed reason) r c = record { distinct = c.distinct; replicas = c.replicas }
step-IsConsistent t (reassigned a) r c = set_assignment-IsConsistent a r c

-- Over any history the followers stay distinct replicas other than this broker, if they were at first.
pub run-IsConsistent :
    (es : List (Moment × Event)) (r : PartitionReplica) → IsConsistent r → IsConsistent (run es r).0
unfolding run
run-IsConsistent [] r c = c
run-IsConsistent ((t, e) ∷ es) r c = run-IsConsistent es (step t e r).0 (step-IsConsistent t e r c)
