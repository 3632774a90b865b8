-- ===== src/Consumer/Coordinator/Sessions.antt =====
-- `ExpireSessions` evicts exactly the members whose session has expired.
use mathlib.Core.Bool.{false≢true}
use pulse_log.Base.{
  ◌≡◌, ◌∙◌, refl, sym, ap, arith, true, false, not, Bool-cases, inl, inr, [], ◌∷◌, keep, is_empty,
}
use pulse_log.Base.Int.{ℤ, ◌≤ℤ◌, leb_ℤ}
use pulse_log.Base.Keys.{Bytes, bytes_key, ◌==◌}
use pulse_log.Base.Maps.{Map, keys, find}
use pulse_log.Base.Types.{partition_key}
use pulse_log.Consumer.Assignor.{Assignment}
use pulse_log.Consumer.Coordinator.{
  GroupMember, Group, GroupCoordinator, PartitionLookup, rebalance, hand_out, entry_of, new_group,
}
use pulse_log.Consumer.Coordinator.Requests.{
  is_expired, expire_group, expire_groups, expire_sessions,
}
use pulse_log.Base.{All, All-map}
use pulse_log.Base.Int.{◌-ℤ◌}
use pulse_log.Consumer.Coordinator.Changes.{group_at}

abbrev pub IsAlive : ℤ → Bytes × GroupMember → Type 0
IsAlive now_ms e = is_expired now_ms e ≡ false

none_kept :
    (now_ms : ℤ) (ms : Map Bytes GroupMember)
    → is_empty (keep (is_expired now_ms) ms) ≡ true
    → All (IsAlive now_ms) ms
unfolding keep
none_kept now_ms [] h = tt
none_kept now_ms (e ∷ ms) h = elim (Bool-cases (is_expired now_ms e)) [
  | inl k ↦ absurd (false≢true (simp k at h))
  | inr k ↦ (k, none_kept now_ms ms (simp k at h))
]

kept-IsAlive :
    (now_ms : ℤ) (ms : Map Bytes GroupMember)
    → All (IsAlive now_ms) (keep (λ e. not (is_expired now_ms e)) ms)
unfolding keep
kept-IsAlive now_ms [] = tt
kept-IsAlive now_ms (e ∷ ms) = elim (Bool-cases (is_expired now_ms e)) [
  | inl k ↦ rw k (kept-IsAlive now_ms ms)
  | inr k ↦ rw k (k, kept-IsAlive now_ms ms)
]

hand_out-IsAlive :
    (now_ms : ℤ) (d : Assignment) (ms : Map Bytes GroupMember)
    → All (IsAlive now_ms) ms
    → All (IsAlive now_ms) (hand_out d ms)
unfolding hand_out is_expired
hand_out-IsAlive now_ms d [] h = tt
hand_out-IsAlive now_ms d (e ∷ ms) h = (h.0, hand_out-IsAlive now_ms d ms h.1)

rebalance-IsAlive :
    (lookup : PartitionLookup) (now_ms : ℤ) (g : Group)
    → All (IsAlive now_ms) g.members
    → All (IsAlive now_ms) (rebalance lookup now_ms g).members
unfolding rebalance
rebalance-IsAlive lookup now_ms g h = elim (Bool-cases (is_empty g.members)) [
  | inl e ↦ rw e h
  | inr e ↦ rw e (hand_out-IsAlive now_ms _ g.members h)
]

expire_group-IsAlive :
    (lookup : PartitionLookup) (now_ms : ℤ) (g : Group)
    → All (IsAlive now_ms) (expire_group lookup now_ms g).members
unfolding expire_group
expire_group-IsAlive lookup now_ms g =
    elim (Bool-cases (is_empty (keep (is_expired now_ms) g.members))) [
      | inl e ↦ rw e (none_kept now_ms g.members e)
      | inr e ↦ rw e (rebalance-IsAlive lookup now_ms _ (kept-IsAlive now_ms g.members))
    ]

in_time :
    (now_ms : ℤ) (e : Bytes × GroupMember)
    → IsAlive now_ms e
    → (now_ms -ℤ e.1.last_heartbeat_ms) ≤ℤ e.1.session_timeout_ms
unfolding is_expired
in_time now_ms e h = ground arith

expire_groups-IsAlive :
    (lookup : PartitionLookup) (now_ms : ℤ) (groups : Map Bytes Group) (id : Bytes)
    → All (IsAlive now_ms) (entry_of new_group id (expire_groups lookup now_ms groups).1).members
unfolding expire_groups find
expire_groups-IsAlive lookup now_ms [] id = tt
expire_groups-IsAlive lookup now_ms ((k, g) ∷ groups) id = elim (Bool-cases (k == id)) [
  | inl e ↦ rw e (expire_group-IsAlive lookup now_ms g)
  | inr e ↦ rw e (expire_groups-IsAlive lookup now_ms groups id)
]

-- The members whose last heartbeat is at most their session timeout ago.
abbrev pub alive : ℤ → Map Bytes GroupMember → Map Bytes GroupMember
alive now_ms = keep (λ e. leb_ℤ (now_ms -ℤ e.1.last_heartbeat_ms) e.1.session_timeout_ms)

not_expired-alive :
    (now_ms : ℤ) (ms : Map Bytes GroupMember)
    → keep (λ e. not (is_expired now_ms e)) ms ≡ alive now_ms ms
unfolding keep is_expired
not_expired-alive now_ms [] = refl
not_expired-alive now_ms (e ∷ ms) = ground (arith, not_expired-alive now_ms ms)

all_alive :
    (now_ms : ℤ) (ms : Map Bytes GroupMember)
    → is_empty (keep (is_expired now_ms) ms) ≡ true
    → keep (λ e. not (is_expired now_ms e)) ms ≡ ms
unfolding keep
all_alive now_ms [] h = refl
all_alive now_ms (e ∷ ms) h = elim (Bool-cases (is_expired now_ms e)) [
  | inl k ↦ absurd (false≢true (simp k at h))
  | inr k ↦ rw k (ap (λ others. e ∷ others) (all_alive now_ms ms (simp k at h)))
]

keys-hand_out : (d : Assignment) (ms : Map Bytes GroupMember) → keys (hand_out d ms) ≡ keys ms
unfolding hand_out
keys-hand_out d [] = refl
keys-hand_out d ((k, member) ∷ ms) = ap (λ ids. k ∷ ids) (keys-hand_out d ms)

keys-rebalance :
    (lookup : PartitionLookup) (now_ms : ℤ) (g : Group)
    → keys (rebalance lookup now_ms g).members ≡ keys g.members
unfolding rebalance
keys-rebalance lookup now_ms g = elim (Bool-cases (is_empty g.members)) [
  | inl e ↦ rw e
  | inr e ↦ rw e (keys-hand_out _ g.members)
]

keys-expire_group :
    (lookup : PartitionLookup) (now_ms : ℤ) (g : Group)
    → keys (expire_group lookup now_ms g).members ≡ keys (alive now_ms g.members)
unfolding expire_group
keys-expire_group lookup now_ms g =
    elim (Bool-cases (is_empty (keep (is_expired now_ms) g.members))) [
      | inl e ↦
          rw e (ap keys (sym (all_alive now_ms g.members e) ∙ not_expired-alive now_ms g.members))
      | inr e ↦ rw e (keys-rebalance lookup now_ms _ ∙ ap keys (not_expired-alive now_ms g.members))
    ]

keys-expire_groups :
    (lookup : PartitionLookup) (now_ms : ℤ) (groups : Map Bytes Group) (id : Bytes)
    → keys (entry_of new_group id (expire_groups lookup now_ms groups).1).members
      ≡ keys (alive now_ms (entry_of new_group id groups).members)
unfolding expire_groups find keep
keys-expire_groups lookup now_ms [] id = refl
keys-expire_groups lookup now_ms ((k, g) ∷ groups) id = elim (Bool-cases (k == id)) [
  | inl e ↦ rw e (keys-expire_group lookup now_ms g)
  | inr e ↦ rw e (keys-expire_groups lookup now_ms groups id)
]

-- After `ExpireSessions(now_ms)` the members of a group are exactly those that were there and whose last
-- heartbeat is at most their session timeout ago, in their order, and the heartbeats of the members that
-- are there then are no older than that.
pub expire_sessions-evicts :
    (now_ms : ℤ) (c : GroupCoordinator) (id : Bytes)
    → (keys (group_at id (expire_sessions now_ms c).1).members
        ≡ keys (alive now_ms (group_at id c).members))
      × All
          (λ e. (now_ms -ℤ e.1.last_heartbeat_ms) ≤ℤ e.1.session_timeout_ms)
          (group_at id (expire_sessions now_ms c).1).members
unfolding expire_sessions
expire_sessions-evicts now_ms c id = (
  keys-expire_groups c.lookup now_ms c.groups id,
  All-map (IsAlive now_ms) (in_time now_ms) _ (expire_groups-IsAlive c.lookup now_ms c.groups id),
)
