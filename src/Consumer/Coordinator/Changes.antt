-- ===== src/Consumer/Coordinator/Changes.antt =====
-- What the parts of a call do to one group.
use mathlib.Core.Bool.{false≢true}
use pulse_log.Base.{
  ◌≡◌, refl, sym, ap, subst, ◌∙◌, Bool, true, false, ◌||◌, not, if◌then◌else◌, Bool-cases, inl, inr,
  Option, none, some, List, keep, is_empty,
}
use pulse_log.Base.Int.{ℤ, pos, ◌+ℤ◌}
use pulse_log.Base.Keys.{Bytes, bytes_key, bytes_eq_iff, ◌==◌}
use pulse_log.Base.Maps.{find, assign, contains_key, find-assign}
use pulse_log.Base.Types.{TopicPartition, partition_key}
use pulse_log.Protocol.GroupMessages.{JoinGroupRequest}
use pulse_log.Consumer.Coordinator.{
  GroupMember, Group, GroupCoordinator, PartitionLookup, rebalance, joined_group, admit, entry_of,
  value_or, new_member, new_group, is_stable, topics_eq,
}
use pulse_log.Consumer.Coordinator.Requests.{is_expired, expire_group}

abbrev pub assignment_of : Option GroupMember → Option (List TopicPartition)
assignment_of none = none
assignment_of (some member) = some member.assignment

-- What a member of the group is assigned.
unfoldable pub assigned : Bytes → Group → Option (List TopicPartition)
assigned id group = assignment_of (find id group.members)

-- What a call does to a group: it rebalances one of the same generation, or no member's assignment
-- changes.
pub data Change : Group → Group → Type 0 where
  rebalanced :
      {g h : Group} (lookup : PartitionLookup) (now_ms : ℤ) (k : Group)
      → h ≡ rebalance lookup now_ms k
      → g.generation ≡ k.generation
      → Change g h
  kept :
      {g h : Group}
      → g.generation ≡ h.generation
      → ((id : Bytes) → assigned id h ≡ assigned id g)
      → Change g h

pub Change-refl : (g : Group) → Change g g
Change-refl g = kept refl (λ id. refl)

pub generation-rebalance :
    (lookup : PartitionLookup) (now_ms : ℤ) (g : Group)
    → (rebalance lookup now_ms g).generation ≡ g.generation +ℤ pos 1
unfolding rebalance
generation-rebalance lookup now_ms g = elim (Bool-cases (is_empty g.members)) [
  | inl e ↦ simp e
  | inr e ↦ simp e
]

pub Change-rebalance :
    (lookup : PartitionLookup) (now_ms : ℤ) (g h : Group)
    → g.generation ≡ h.generation
    → Change g (rebalance lookup now_ms h)
Change-rebalance lookup now_ms g h e = rebalanced lookup now_ms h refl e

-- A member that is put in place of one with the same assignment.
pub Change-assign :
    (id : Bytes) (member old : GroupMember) (g : Group)
    → find id g.members ≡ some old
    → member.assignment ≡ old.assignment
    → Change g (record g { members = assign id member g.members })
unfolding assigned
Change-assign id member old g e same = kept refl unchanged
  where
    unchanged :
        (j : Bytes)
        → assignment_of (find j (assign id member g.members)) ≡ assignment_of (find j g.members)
    unchanged j = elim (Bool-cases (id == j)) [
      | inl k ↦ rw (find-assign id j member g.members, k, ← (bytes_eq_iff id j).0 k, e, same)
      | inr k ↦ rw (find-assign id j member g.members, k)
    ]

pub Change-expire_group :
    (lookup : PartitionLookup) (now_ms : ℤ) (g : Group) → Change g (expire_group lookup now_ms g)
unfolding expire_group
Change-expire_group lookup now_ms g =
    elim (Bool-cases (is_empty (keep (is_expired now_ms) g.members))) [
      | inl e ↦ rw e (Change-refl g)
      | inr e ↦ rw e (Change-rebalance lookup now_ms g _ refl)
    ]

-- The group of a name; one that is not there is the group that `Join` starts from.
abbrev pub group_at : Bytes → GroupCoordinator → Group
group_at id c = entry_of new_group id c.groups

assign_at :
    (k id : Bytes) (h : Group) (c : GroupCoordinator)
    → entry_of new_group id (assign k h c.groups) ≡ (if k == id then h else group_at id c)
assign_at k id h c = ap (value_or new_group) (find-assign k id h c.groups) ∙ split
  where
    split :
        value_or new_group (if k == id then some h else find id c.groups)
        ≡ (if k == id then h else group_at id c)
    split = elim (Bool-cases (k == id)) [ inl e ↦ rw e | inr e ↦ rw e ]

-- A call that puts one group in its place.
pub at_assign :
    (P : Bytes → Group → Type 0) (k : Bytes) (h : Group) (c : GroupCoordinator)
    → P k h
    → ((id : Bytes) → P id (group_at id c))
    → (id : Bytes) → P id (entry_of new_group id (assign k h c.groups))
at_assign P k h c now others id = elim (Bool-cases (k == id)) [
  | inl e ↦
      subst (P id) (sym (assign_at k id h c ∙ rw e))
        (subst (λ (j : Bytes). P j h) ((bytes_eq_iff k id).0 e) now)
  | inr e ↦ subst (P id) (sym (assign_at k id h c ∙ rw e)) (others id)
]

pub Change-from :
    (g g' h : Group)
    → g.generation ≡ g'.generation
    → g.members ≡ g'.members
    → Change g' h
    → Change g h
unfolding assigned
Change-from g g' h e m (rebalanced lookup now_ms k b c) = rebalanced lookup now_ms k b (e ∙ c)
Change-from g g' h e m (kept b c) =
    kept (e ∙ b) (λ id. c id ∙ sym (ap (λ ms. assignment_of (find id ms)) m))

pub joined_group-same :
    (request : JoinGroupRequest) (c : GroupCoordinator)
    → ((group_at request.group_id c).generation ≡ (joined_group request c.groups).generation)
      × ((group_at request.group_id c).members ≡ (joined_group request c.groups).members)
unfolding joined_group
joined_group-same request c = elim (Bool-cases (is_empty (group_at request.group_id c).group_id)) [
  | inl e ↦ rw e (refl, refl)
  | inr e ↦ rw e (refl, refl)
]

abbrev pub is_some : Option GroupMember → Bool
is_some none = false
is_some (some member) = true

pub some_member : (o : Option GroupMember) → is_some o ≡ true → o ≡ some (value_or new_member o)
some_member none h = absurd (false≢true h)
some_member (some member) h = refl

pub admit-Change :
    (c : GroupCoordinator) (request : JoinGroupRequest) (now_ms : ℤ) (is_new : Bool) (id : Bytes)
    (g : Group)
    → (is_new ≡ false → contains_key id g.members ≡ true)
    → Change g (admit c request now_ms is_new id g)
unfolding admit
admit-Change c request now_ms true id g h = Change-rebalance c.lookup now_ms g _ refl
admit-Change c request now_ms false id g h =
    let member = entry_of new_member id g.members in
    elim (Bool-cases (not (topics_eq member.topics request.topics) || not (is_stable g.state))) [
      | inl e ↦ rw e (Change-rebalance c.lookup now_ms g _ refl)
      | inr e ↦ rw e (Change-assign id _ member g (some_member (find id g.members) (h refl)) refl)
    ]
