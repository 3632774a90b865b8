-- ===== src/Consumer/Coordinator/Owners.antt =====
-- A partition has one owner in a group.
use mathlib.Core.Bool.{false≢true}
use pulse_log.Base.{
  ◌≡◌, refl, sym, subst, true, Bool-cases, inl, inr, Option, none, some, List, [], ◌∷◌, is_empty,
}
use pulse_log.Base.Int.{ℤ}
use pulse_log.Base.Keys.{Bytes, bytes_key, bytes_eq_iff, ◌==◌}
use pulse_log.Base.Maps.{Map, keys, find}
use pulse_log.Base.Order.{elem}
use pulse_log.Base.Types.{TopicPartition, partition_key}
use pulse_log.Consumer.Assignor.{Assignment, divide, entry}
use pulse_log.Consumer.Coordinator.{
  GroupMember, Group, GroupCoordinator, PartitionLookup, rebalance, hand_out, entry_of, value_or,
  new_group,
}
use pulse_log.Consumer.Assignor.Exclusive.{divide-exclusive}
use pulse_log.Consumer.Coordinator.Calls.{Call, call, run}
use pulse_log.Consumer.Coordinator.Changes.{
  assigned, assignment_of, Change, rebalanced, kept, group_at,
}
use pulse_log.Consumer.Coordinator.Generations.{call-Change}

-- `p` is assigned to the member `id` of the group.
abbrev pub Owns : TopicPartition → Bytes → Group → Type 0
Owns p id g = elem p (value_or [] (assigned id g)) ≡ true

abbrev pub IsExclusive : Group → Type 0
IsExclusive g = (a b : Bytes) (p : TopicPartition) → Owns p a g → Owns p b g → a ≡ b

-- What a member is handed out is what the division has for it.
handed_out :
    (d : Assignment) (members : Map Bytes GroupMember) (id : Bytes) (p : TopicPartition)
    → elem p (value_or [] (assignment_of (find id (hand_out d members)))) ≡ true
    → elem p (entry id d) ≡ true
unfolding hand_out find elem
handed_out d [] id p h = absurd (false≢true h)
handed_out d ((k, member) ∷ members) id p h = elim (Bool-cases (k == id)) [
  | inl e ↦ subst (λ (j : Bytes). elem p (entry j d) ≡ true) ((bytes_eq_iff k id).0 e) (simp e at h)
  | inr e ↦ handed_out d members id p (simp e at h)
]

-- A member that owns a partition of a division has an entry there.
entry-find :
    (o : Option (List TopicPartition)) (p : TopicPartition)
    → elem p (value_or [] o) ≡ true
    → o ≡ some (value_or [] o)
unfolding elem
entry-find none p h = absurd (false≢true h)
entry-find (some ps) p h = refl

entry-value_or : (d : Assignment) (id : Bytes) → entry id d ≡ value_or [] (find id d)
entry-value_or d id = split (find id d)
  where
    split : (o : Option (List TopicPartition)) → (elim o [ none ↦ [] | some v ↦ v ]) ≡ value_or [] o
    split none = refl
    split (some ps) = refl

hand_out-exclusive :
    (g : Group) (ps : List TopicPartition) (members : Map Bytes GroupMember)
    → (a b : Bytes) (p : TopicPartition)
    → elem p (
        value_or []
          (assignment_of (find a (hand_out (divide g.strategy (keys members) ps) members))))
      ≡ true
    → elem p (
        value_or []
          (assignment_of (find b (hand_out (divide g.strategy (keys members) ps) members))))
      ≡ true
    → a ≡ b
hand_out-exclusive g ps members a b p ha hb =
    let d = divide g.strategy (keys members) ps in
    let in_a = subst (λ xs. elem p xs ≡ true) (entry-value_or d a) (handed_out d members a p ha) in
    let in_b = subst (λ xs. elem p xs ≡ true) (entry-value_or d b) (handed_out d members b p hb) in
    divide-exclusive g.strategy (keys members) ps a b (value_or [] (find a d))
      (value_or [] (find b d)) p (entry-find (find a d) p in_a) (entry-find (find b d) p in_b) in_a
      in_b

no_members : (members : Map Bytes GroupMember) → is_empty members ≡ true → members ≡ []
no_members [] h = refl
no_members (m ∷ members) h = absurd (false≢true h)

rebalance-IsExclusive :
    (lookup : PartitionLookup) (now_ms : ℤ) (g : Group) → IsExclusive (rebalance lookup now_ms g)
unfolding rebalance assigned find elem
rebalance-IsExclusive lookup now_ms g a b p = elim (Bool-cases (is_empty g.members)) [
  | inl e ↦ rw e (rw (no_members g.members e) (λ ha hb. absurd (false≢true ha)))
  | inr e ↦ rw e (hand_out-exclusive g _ g.members a b p)
]

Change-IsExclusive : (g h : Group) → IsExclusive g → Change g h → IsExclusive h
Change-IsExclusive g h x (rebalanced lookup now_ms k e same) =
    subst IsExclusive (sym e) (rebalance-IsExclusive lookup now_ms k)
Change-IsExclusive g h x (kept e same) = λ a b p ha hb.
    x a b p (subst (λ o. elem p (value_or [] o) ≡ true) (same a) ha)
      (subst (λ o. elem p (value_or [] o) ≡ true) (same b) hb)

run-IsExclusive :
    (calls : List (ℤ × Call)) (c : GroupCoordinator)
    → ((id : Bytes) → IsExclusive (group_at id c))
    → (id : Bytes) → IsExclusive (group_at id (run calls c))
unfolding run
run-IsExclusive [] c x = x
run-IsExclusive ((now_ms, a) ∷ calls) c x = run-IsExclusive calls (call now_ms a c) (λ id.
    Change-IsExclusive (group_at id c) (group_at id (call now_ms a c)) (x id)
      (call-Change now_ms a c id))

-- After any history of calls on a coordinator that starts without groups, a partition is assigned to
-- one member of a group at most, whatever the lookup says of the topics.
pub run-exclusive :
    (calls : List (ℤ × Call)) (c : GroupCoordinator)
    → c.groups ≡ []
    → (id a b : Bytes) (p : TopicPartition) → Owns p a (group_at id (run calls c))
    → Owns p b (group_at id (run calls c))
    → a ≡ b
unfolding find assigned elem
run-exclusive calls c h id =
    run-IsExclusive calls c
      (λ j.
        subst (λ gs. IsExclusive (entry_of new_group j gs)) (sym h)
          (λ a b p ha hb. absurd (false≢true ha)))
      id
