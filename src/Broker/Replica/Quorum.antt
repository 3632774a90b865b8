-- ===== src/Broker/Replica/Quorum.antt =====
-- What an acknowledgement with `acks=quorum` promises: a majority of the replica set has persisted
-- the record.
use pulse_log.Base.{
  suc, ◌*◌, ◌≤◌, ◌<◌, ◌≡◌, ◌≢◌, ◌∙◌, refl, ap, arith, Bool, true, not, ◌&&◌, List, [], ◌∷◌, map,
  length, length-keep, All, All-map, All-keep, keep, keep-All, count_if, Bool-cases, ltb→lt, inl,
  inr, ◌⊎◌, some,
}
use pulse_log.Base.Int.{ℤ, ◌<ℤ◌, ltb_ℤ, eqb_ℤ_iff}
use pulse_log.Base.Keys.{◌==◌, int_key}
use pulse_log.Base.Maps.{Map, keys, find}
use pulse_log.Base.Distinct.{Distinct, keep-HasDistinctKeys, find_entry}
use pulse_log.Base.Types.{AckMode}
use pulse_log.Broker.State.{
  FollowerState, DurabilityWaiter, LogView, PartitionReplica, has_replica, quorum_size,
}
use pulse_log.Broker.Replica.{
  stamp, satisfied, satisfied_mode, persisted_count, extract_satisfied, with_waiters,
}
use pulse_log.Broker.Replica.Followers.{IsConsistent, is_follower}

-- What the leader knows: its own log is flushed past the record, or a follower in sync reported so.
abbrev pub Persisted : LogView → PartitionReplica → ℤ → ℤ → Type 0
Persisted log r required b =
    ((b ≡ r.self) × (required <ℤ log.flushed))
    ⊎ ((f : FollowerState) × (find b r.followers ≡ some f)
        × (f.in_sync ≡ true)
        × (required <ℤ f.flushed_offset))

-- Different brokers of the replica set, more than half of it, that have persisted the record.
pub record Majority (log : LogView) (r : PartitionReplica) (required : ℤ) : Type 0 where
  pub brokers : List ℤ
  pub distinct : Distinct brokers
  pub members : All (λ b. has_replica r.assignment.replicas b ≡ true) brokers
  pub persisted : All (Persisted log r required) brokers
  pub majority : length r.assignment.replicas < 2 * length brokers

length-keys {ℓ κ} : {K : Type ℓ} {V : Type κ} (m : Map K V) → length (keys m) ≡ length m
length-keys [] = refl
length-keys (e ∷ m) = ap suc (length-keys m)

All-keys {ℓ κ λ'} :
    {K : Type ℓ} {V : Type κ} (P : K → Type λ') (m : Map K V) → All (λ e. P e.0) m → All P (keys m)
All-keys P [] h = tt
All-keys P (e ∷ m) h = (h.0, All-keys P m h.1)

both : (a b : Bool) → (a && b) ≡ true → (a ≡ true) × (b ≡ true)
both a b h = ground arith

is_follower_ne : (replicas : List ℤ) (self b : ℤ) → is_follower replicas self b ≡ true → self ≢ b
is_follower_ne replicas self b h same = ground (arith, eqb_ℤ_iff b self)

is_follower-has_replica :
    (replicas : List ℤ) (self b : ℤ)
    → is_follower replicas self b ≡ true
    → has_replica replicas b ≡ true
is_follower-has_replica replicas self b h = (both (has_replica replicas b) (not (b == self)) h).0

module _ (log : LogView) (r : PartitionReplica) (c : IsConsistent r) (required : ℤ) where
  abbrev has_persisted : ℤ × FollowerState → Bool
  has_persisted e = e.1.in_sync && ltb_ℤ required e.1.flushed_offset

  abbrev persisted_followers : List ℤ
  persisted_followers = keys (keep has_persisted r.followers)

  followers-Persisted : All (Persisted log r required) persisted_followers
  followers-Persisted = All-keys (Persisted log r required) (keep has_persisted r.followers) (
      combine (keep has_persisted r.followers)
        (All-keep (λ e. find e.0 r.followers ≡ some e.1) has_persisted r.followers
          (find_entry r.followers c.distinct))
        (keep-All has_persisted r.followers))
    where
      combine :
          (m : Map ℤ FollowerState)
          → All (λ e. find e.0 r.followers ≡ some e.1) m
          → All (λ e. has_persisted e ≡ true) m
          → All (λ e. Persisted log r required e.0) m
      combine [] h k = tt
      combine ((j, f) ∷ m) h k =
          let parts = both f.in_sync (ltb_ℤ required f.flushed_offset) k.0 in
          (inr (f, h.0, parts.0, ltb→lt _ _ parts.1), combine m h.1 k.1)

  followers_members :
      All (λ b. is_follower r.assignment.replicas r.self b ≡ true) persisted_followers
  followers_members =
      All-keys (λ b. is_follower r.assignment.replicas r.self b ≡ true)
        (keep has_persisted r.followers)
        (All-keep (λ e. is_follower r.assignment.replicas r.self e.0 ≡ true) has_persisted
          r.followers c.replicas)

  replica_members : All (λ b. has_replica r.assignment.replicas b ≡ true) persisted_followers
  replica_members =
      All-map (λ b. is_follower r.assignment.replicas r.self b ≡ true)
        (is_follower-has_replica r.assignment.replicas r.self) persisted_followers followers_members

  followers_count : length persisted_followers ≡ count_if has_persisted r.followers
  followers_count =
      length-keys (keep has_persisted r.followers) ∙ length-keep has_persisted r.followers

  -- Enough of a count makes a majority.
  quorum-Majority :
      has_replica r.assignment.replicas r.self ≡ true
      → quorum_size r.assignment ≤ persisted_count required log r.followers
      → Majority log r required
  unfolding quorum_size persisted_count
  quorum-Majority own enough = elim (Bool-cases (ltb_ℤ required log.flushed)) [
    | inl e ↦ record {
      brokers = r.self ∷ persisted_followers;
      distinct = (
        All-map (λ b. is_follower r.assignment.replicas r.self b ≡ true)
            (is_follower_ne r.assignment.replicas r.self) persisted_followers followers_members,
        keep-HasDistinctKeys has_persisted r.followers c.distinct,
      );
      members = (own, replica_members);
      persisted = (inl (refl, ltb→lt _ _ e), followers-Persisted);
      majority = ground (arith, followers_count);
    }
    | inr e ↦ record {
      brokers = persisted_followers;
      distinct = keep-HasDistinctKeys has_persisted r.followers c.distinct;
      members = replica_members;
      persisted = followers-Persisted;
      majority = ground (arith, followers_count);
    }
  ]

  satisfied-Majority :
      has_replica r.assignment.replicas r.self ≡ true
      → (w : DurabilityWaiter) → w.required_offset ≡ required
      → satisfied log r w ≡ true
      → w.mode ≡ AckMode.quorum
      → Majority log r required
  unfolding satisfied satisfied_mode
  satisfied-Majority own w at h mode = quorum-Majority own (ground arith)

-- A produce request with `acks=quorum` that is answered OK has been persisted by more than half of
-- all replicas, those out of sync counted in all, where this broker is a replica itself and the followers are consistent.
pub extract_satisfied-Majority :
    (log : LogView) (clock : DurabilityWaiter → ℤ) (r : PartitionReplica)
    → IsConsistent r
    → has_replica r.assignment.replicas r.self ≡ true
    → All
        (λ w. w.mode ≡ AckMode.quorum → Majority log r w.required_offset)
        (extract_satisfied log clock r).1
unfolding extract_satisfied with_waiters
extract_satisfied-Majority log clock r c own =
    let ws : List DurabilityWaiter = map (stamp log clock) r.waiters in
    All-map (λ (w : DurabilityWaiter). satisfied log r w ≡ true)
      (λ w h mode. satisfied-Majority log r c w.required_offset own w refl h mode)
      (keep (satisfied log r) ws) (keep-All (satisfied log r) ws)
