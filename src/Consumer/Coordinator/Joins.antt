-- ===== src/Consumer/Coordinator/Joins.antt =====
-- What `Join` answers is what the group then records of the member.
use pulse_log.Base.{
  ℕ, ◌≡◌, refl, sym, ap, ◌∙◌, Bool, true, false, ◌||◌, not, Bool-cases, inl, inr, some, [], ◌∷◌,
  is_empty,
}
use pulse_log.Base.Int.{ℤ}
use pulse_log.Base.Keys.{Bytes, bytes_key, ◌==◌, ==_refl}
use pulse_log.Base.Maps.{Map, find, assign, find-assign}
use pulse_log.Base.Types.{partition_key}
use pulse_log.Consumer.Assignor.{Assignment}
use pulse_log.Protocol.GroupMessages.{JoinGroupRequest}
use pulse_log.Consumer.Coordinator.{
  GroupMember, Group, GroupCoordinator, PartitionLookup, rebalance, joined_group, admit, join_as,
  join, hand_out, entry_of, value_or, new_member, new_group, is_stable, topics_eq,
}
use pulse_log.Protocol.GroupMessages.{JoinGroupResponse}
use pulse_log.Consumer.Coordinator.Changes.{assigned, assignment_of, group_at, is_some, some_member}

is_some-hand_out :
    (d : Assignment) (id : Bytes) (members : Map Bytes GroupMember)
    → is_some (find id (hand_out d members)) ≡ is_some (find id members)
unfolding hand_out find
is_some-hand_out d id [] = refl
is_some-hand_out d id ((k, member) ∷ members) = elim (Bool-cases (k == id)) [
  | inl e ↦ rw e
  | inr e ↦ rw e (is_some-hand_out d id members)
]

is_some-rebalance :
    (lookup : PartitionLookup) (now_ms : ℤ) (g : Group) (id : Bytes)
    → is_some (find id (rebalance lookup now_ms g).members) ≡ is_some (find id g.members)
unfolding rebalance
is_some-rebalance lookup now_ms g id = elim (Bool-cases (is_empty g.members)) [
  | inl e ↦ rw e
  | inr e ↦ rw e (is_some-hand_out _ id g.members)
]

is_some-assign :
    (id : Bytes) (member : GroupMember) (members : Map Bytes GroupMember)
    → is_some (find id (assign id member members)) ≡ true
is_some-assign id member members = ap is_some (find-assign id id member members) ∙ simp (==_refl id)

is_some-admit :
    (c : GroupCoordinator) (request : JoinGroupRequest) (now_ms : ℤ) (is_new : Bool) (id : Bytes)
    (g : Group)
    → is_some (find id (admit c request now_ms is_new id g).members) ≡ true
unfolding admit
is_some-admit c request now_ms is_new id g =
    let member = entry_of new_member id g.members in
    elim (Bool-cases
      (is_new || (not (topics_eq member.topics request.topics) || not (is_stable g.state)))) [
        | inl e ↦ rw e (is_some-rebalance c.lookup now_ms _ id ∙ is_some-assign id _ g.members)
        | inr e ↦ rw e (is_some-assign id _ g.members)
      ]

-- The answer of a `Join` agrees with the group after it.
abbrev pub Agrees : Bytes → JoinGroupResponse × GroupCoordinator → Type 0
Agrees group_id u =
    (u.0.generation ≡ (group_at group_id u.1).generation)
    × ((u.0.leader_id ≡ (group_at group_id u.1).leader_id)
        × (assigned u.0.member_id (group_at group_id u.1) ≡ some u.0.assignment))

join_as-Agrees :
    (c : GroupCoordinator) (request : JoinGroupRequest) (now_ms : ℤ) (is_new : Bool)
    (placed : Bytes × ℕ)
    → Agrees request.group_id (join_as c request now_ms is_new placed)
unfolding join_as assigned
join_as-Agrees c request now_ms is_new placed = (
  ap (λ x. x.generation) (sym here),
  (
    ap (λ x. x.leader_id) (sym here),
    ap (λ x. assignment_of (find placed.0 x.members)) here
        ∙ ap assignment_of (
            some_member (find placed.0 g.members)
              (is_some-admit c request now_ms is_new placed.0 (joined_group request c.groups))),
  ),
)
  where
    g : Group
    g = admit c request now_ms is_new placed.0 (joined_group request c.groups)

    here : entry_of new_group request.group_id (assign request.group_id g c.groups) ≡ g
    here =
        let stored : find request.group_id (assign request.group_id g c.groups) ≡ some g =
          find-assign request.group_id request.group_id g c.groups
          ∙ simp (==_refl request.group_id) in
        ap (value_or new_group) stored

-- A `Join` with a group id and a topic answers with the generation and the leader that the group then
-- has, and with a member id under which the group then has the assignment of the answer.
pub join-Agrees :
    (request : JoinGroupRequest) (now_ms : ℤ) (c : GroupCoordinator)
    → is_empty request.group_id ≡ false
    → is_empty request.topics ≡ false
    → Agrees request.group_id (join request now_ms c)
unfolding join
join-Agrees request now_ms c e k = rw (e, k) (join_as-Agrees c request now_ms _ _)
