-- ===== src/Consumer/Coordinator/Generations.antt =====
-- A generation fences: within one, no member's assignment changes.
use pulse_log.Base.{
  ℕ, ◌≡◌, refl, sym, ap, subst, ◌∙◌, arith, Bool, true, false, ◌||◌, not, if◌then◌else◌, Bool-cases,
  inl, inr, ◌⊎◌, Option, none, some, [], ◌∷◌, is_empty,
}
use pulse_log.Base.Int.{ℤ, ◌<ℤ◌, int_laws, eqb_ℤ}
use pulse_log.Base.Keys.{Bytes, bytes_key, ◌==◌}
use pulse_log.Base.Maps.{Map, find, assign, contains_key}
use pulse_log.Base.Types.{partition_key}
use pulse_log.Protocol.GroupMessages.{
  JoinGroupRequest, HeartbeatRequest, LeaveGroupRequest, CommitOffsetRequest,
}
use pulse_log.Protocol.Wire.{ResponseHeader}
use pulse_log.Consumer.OffsetStore.{LogAnswer}
use pulse_log.Consumer.Coordinator.{
  GroupMember, Group, GroupCoordinator, PartitionLookup, joined_group, admit, join_as, join,
  entry_of, value_or, new_group, allocate_member_id,
}
use pulse_log.Consumer.Coordinator.Requests.{
  renew, heartbeat_member, heartbeat_group, heartbeat, leave_group, leave, fence, store_commit,
  commit, expire_groups, expire_sessions,
}
use pulse_log.Consumer.Coordinator.Calls.{Call, joined, beat, left, committed, swept, call}
use pulse_log.Consumer.Coordinator.Changes.{
  assigned, Change, rebalanced, kept, Change-refl, generation-rebalance, Change-rebalance,
  Change-assign, Change-expire_group, group_at, at_assign, Change-from, joined_group-same,
  admit-Change,
}

-- One group is replaced.
assign-Change :
    (k : Bytes) (h : Group) (c : GroupCoordinator)
    → Change (group_at k c) h
    → (id : Bytes) → Change (group_at id c) (entry_of new_group id (assign k h c.groups))
assign-Change k h c now =
    at_assign (λ id g. Change (group_at id c) g) k h c now (λ id. Change-refl (group_at id c))

join_as-Change :
    (c : GroupCoordinator) (request : JoinGroupRequest) (now_ms : ℤ) (is_new : Bool)
    (placed : Bytes × ℕ)
    → (is_new ≡ false → contains_key placed.0 (joined_group request c.groups).members ≡ true)
    → (id : Bytes) → Change (group_at id c) (group_at id (join_as c request now_ms is_new placed).1)
unfolding join_as
join_as-Change c request now_ms is_new placed h =
    let group = joined_group request c.groups in
    let same = joined_group-same request c in
    assign-Change request.group_id (admit c request now_ms is_new placed.0 group) c (
      Change-from (group_at request.group_id c) group _ same.0 same.1
        (admit-Change c request now_ms is_new placed.0 group h))

-- A member that is not new is in the group under the id of its request.
placed_member :
    (a : Bool) (new old : Bytes × ℕ) (members : Map Bytes GroupMember)
    → (a || not (contains_key old.0 members)) ≡ false
    → contains_key (if a || not (contains_key old.0 members) then new else old).0 members ≡ true
placed_member a new old members h = rw h (ground arith)

join-Change :
    (request : JoinGroupRequest) (now_ms : ℤ) (c : GroupCoordinator) (id : Bytes)
    → Change (group_at id c) (group_at id (join request now_ms c).1)
unfolding join
join-Change request now_ms c id = elim (Bool-cases (is_empty request.group_id)) [
  | inl e ↦ rw e (Change-refl (group_at id c))
  | inr e ↦ elim (Bool-cases (is_empty request.topics)) [
    | inl k ↦ rw (e, k) (Change-refl (group_at id c))
    | inr k ↦
        rw (e, k)
          (join_as-Change c request now_ms _ _
            (placed_member (is_empty request.member_id)
              (allocate_member_id request.group_id c.member_counter)
              (request.member_id, c.member_counter) (joined_group request c.groups).members)
            id)
  ]
]

heartbeat-Change :
    (request : HeartbeatRequest) (now_ms : ℤ) (c : GroupCoordinator) (id : Bytes)
    → Change (group_at id c) (group_at id (heartbeat request now_ms c).1)
unfolding heartbeat heartbeat_group heartbeat_member renew
heartbeat-Change request now_ms c id = in_group (find request.group_id c.groups) refl
  where
    in_member :
        (g : Group)
        → find request.group_id c.groups ≡ some g
        → (o : Option GroupMember) → find request.member_id g.members ≡ o
        → Change (group_at id c) (group_at id (heartbeat_member request now_ms g o c).1)
    in_member g e none k = Change-refl (group_at id c)
    in_member g e (some member) k = elim (Bool-cases (eqb_ℤ request.generation g.generation)) [
      | inr n ↦ rw n (Change-refl (group_at id c))
      | inl y ↦ rw y (
          assign-Change request.group_id (renew request.member_id member now_ms g) c
            (subst (λ (h : Group). Change h (renew request.member_id member now_ms g))
              (sym (ap (value_or new_group) e)) (Change-assign request.member_id _ member g k refl))
            id)
    ]

    in_group :
        (o : Option Group)
        → find request.group_id c.groups ≡ o
        → Change (group_at id c) (group_at id (heartbeat_group request now_ms o c).1)
    in_group none e = Change-refl (group_at id c)
    in_group (some g) e = in_member g e (find request.member_id g.members) refl

leave-Change :
    (request : LeaveGroupRequest) (now_ms : ℤ) (c : GroupCoordinator) (id : Bytes)
    → Change (group_at id c) (group_at id (leave request now_ms c).1)
unfolding leave leave_group
leave-Change request now_ms c id = in_group (find request.group_id c.groups) refl
  where
    in_group :
        (o : Option Group)
        → find request.group_id c.groups ≡ o
        → Change (group_at id c) (group_at id (leave_group request now_ms o c).1)
    in_group none e = Change-refl (group_at id c)
    in_group (some g) e = elim (Bool-cases (contains_key request.member_id g.members)) [
      | inl y ↦ rw y (
          assign-Change request.group_id _ c
            (Change-rebalance c.lookup now_ms (group_at request.group_id c) _
              (ap (λ o. (value_or new_group o).generation) e))
            id)
      | inr n ↦ rw n (Change-refl (group_at id c))
    ]

commit-Change :
    (appended : LogAnswer) (request : CommitOffsetRequest) (now_ms : ℤ) (c : GroupCoordinator)
    (id : Bytes)
    → Change (group_at id c) (group_at id (commit appended request now_ms c).1)
unfolding commit store_commit
commit-Change appended request now_ms c id = stored (fence request c)
  where
    stored :
        (o : Option ResponseHeader)
        → Change (group_at id c) (group_at id (store_commit appended request now_ms o c).1)
    stored none = Change-refl (group_at id c)
    stored (some header) = Change-refl (group_at id c)

expire_groups-Change :
    (lookup : PartitionLookup) (now_ms : ℤ) (groups : Map Bytes Group) (id : Bytes)
    → Change
        (entry_of new_group id groups)
        (entry_of new_group id (expire_groups lookup now_ms groups).1)
unfolding expire_groups find
expire_groups-Change lookup now_ms [] id = Change-refl new_group
expire_groups-Change lookup now_ms ((k, g) ∷ groups) id = elim (Bool-cases (k == id)) [
  | inl e ↦ rw e (Change-expire_group lookup now_ms g)
  | inr e ↦ rw e (expire_groups-Change lookup now_ms groups id)
]

pub call-Change :
    (now_ms : ℤ) (a : Call) (c : GroupCoordinator) (id : Bytes)
    → Change (group_at id c) (group_at id (call now_ms a c))
unfolding call expire_sessions
call-Change now_ms (joined request) c id = join-Change request now_ms c id
call-Change now_ms (beat request) c id = heartbeat-Change request now_ms c id
call-Change now_ms (left request) c id = leave-Change request now_ms c id
call-Change now_ms (committed appended request) c id = commit-Change appended request now_ms c id
call-Change now_ms swept c id = expire_groups-Change c.lookup now_ms c.groups id

-- A group follows another: its generation is greater, or it is the same one and every member has what
-- it had.
abbrev pub Follows : Group → Group → Type 0
Follows g h =
    (g.generation <ℤ h.generation)
    ⊎ ((g.generation ≡ h.generation) × ((id : Bytes) → assigned id h ≡ assigned id g))

follows : (g h : Group) → Change g h → Follows g h
follows g h (rebalanced lookup now_ms k e same) = inl (
    subst (λ (x : ℤ). x <ℤ h.generation) (sym same)
      (subst (λ (x : ℤ). k.generation <ℤ x)
        (sym (ap (λ (x : Group). x.generation) e ∙ generation-rebalance lookup now_ms k))
        (omega int_laws)))
follows g h (kept e same) = inr (e, same)

-- After any call, a group has a greater generation, or it has the same one and no member has joined,
-- left or been given another assignment. A group that does not exist counts as one of generation 0
-- without members.
pub call-Follows :
    (now_ms : ℤ) (a : Call) (c : GroupCoordinator) (id : Bytes)
    → Follows (group_at id c) (group_at id (call now_ms a c))
call-Follows now_ms a c id =
    follows (group_at id c) (group_at id (call now_ms a c)) (call-Change now_ms a c id)
