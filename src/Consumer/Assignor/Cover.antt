-- ===== src/Consumer/Assignor/Cover.antt =====
-- Either strategy hands out each partition of the subscribed topics exactly once.
use mathlib.Core.List.{Perm, append_assoc, append-nil, perm_append_comm}
use mathlib.Core.List.Perm
use pulse_log.Base.{
  ℕ, suc, ◌+◌, ◌-◌, ◌*◌, ◌/◌, ◌%◌, ◌≤◌, ◌<◌, ◌≡◌, ◌∙◌, refl, ap, subst, arith, false, List, [], ◌∷◌,
  ◌++◌, length, take, drop, length-drop, take-append-drop, is_empty, Bool-cases, Option-cases, inl,
  inr, none, some, ltb, if◌then◌else◌,
}
use pulse_log.Base.Keys.{Bytes, bytes_key, ◌==◌}
use pulse_log.Base.Maps.{find, assign, replace, insert}
use pulse_log.Base.Types.{TopicPartition, partition_key, AssignmentStrategy, range, round_robin}
use pulse_log.Base.Distinct.{Distinct}
use pulse_log.Base.Order.{elem, unique-sort-Distinct, elem-unique-sort, partition-IsStrictOrder}
use pulse_log.Consumer.Assignor.{
  Assignment, sorted_members, sorted_partitions, push_back, start, by_topic, deal_blocks,
  deal_topics, assign_range, member_at, deal_round, assign_round_robin, divide,
}

abbrev pub values : Assignment → List TopicPartition
values [] = []
values ((k, ps) ∷ m) = ps ++ values m

perm_swap_front {ℓ} : {A : Type ℓ} (a b c : List A) → Perm (a ++ (b ++ c)) (b ++ (a ++ c))
perm_swap_front a b c =
    rw (← append_assoc a b c, ← append_assoc b a c) (Perm.append_right c (perm_append_comm a b))

values-replace :
    (k : Bytes) (v ps : List TopicPartition) (m : Assignment)
    → find k m ≡ some v
    → Perm (values (replace k (v ++ ps) m)) (ps ++ values m)
unfolding find replace
values-replace k v ps [] h = cc
values-replace k v ps ((j, w) ∷ m) h = elim (Bool-cases (j == k)) [
  | inl e ↦
      let same : w ≡ v = ground arith in
      rw (e, same) (rw (append_assoc v ps (values m)) (perm_swap_front v ps (values m)))
  | inr e ↦ rw e (
      Perm.trans (Perm.append_left w (values-replace k v ps m (ground arith)))
        (perm_swap_front w ps (values m)))
]

values-insert :
    (k : Bytes) (ps : List TopicPartition) (m : Assignment)
    → Perm (values (insert k ps m)) (ps ++ values m)
unfolding insert
values-insert k ps [] = Perm.refl (ps ++ [])
values-insert k ps ((j, w) ∷ m) = elim (Bool-cases (bytes_key.less k j)) [
  | inl e ↦ rw e (Perm.refl _)
  | inr e ↦
      rw e
        (Perm.trans (Perm.append_left w (values-insert k ps m)) (perm_swap_front w ps (values m)))
]

push_back_absent :
    (k : Bytes) (ps : List TopicPartition) (m : Assignment)
    → find k m ≡ none
    → push_back k ps m ≡ insert k ps m
unfolding push_back assign
push_back_absent k ps m e = ground arith

push_back_present :
    (k : Bytes) (v ps : List TopicPartition) (m : Assignment)
    → find k m ≡ some v
    → push_back k ps m ≡ replace k (v ++ ps) m
unfolding push_back assign
push_back_present k v ps m e = ground arith

values-push_back :
    (k : Bytes) (ps : List TopicPartition) (m : Assignment)
    → Perm (values (push_back k ps m)) (ps ++ values m)
values-push_back k ps m = elim (Option-cases (find k m)) [
  | inl e ↦ rw (push_back_absent k ps m e) (values-insert k ps m)
  | inr (v, e) ↦ rw (push_back_present k v ps m e) (values-replace k v ps m e)
]

values-by_topic :
    (ps : List TopicPartition) (m : Assignment) → Perm (values (by_topic ps m)) (ps ++ values m)
unfolding by_topic
values-by_topic [] m = Perm.refl (values m)
values-by_topic (p ∷ ps) m = Perm.trans (values-by_topic ps (push_back p.topic (p ∷ []) m)) (
    Perm.trans (Perm.append_left ps (values-push_back p.topic (p ∷ []) m))
      (perm_swap_front ps (p ∷ []) (values m)))

-- Moving a block to a member, and then what follows it.
block_moves :
    (n : ℕ) (name : Bytes) (rest : List TopicPartition) (asg result : Assignment)
    → Perm (values result) (drop n rest ++ values (push_back name (take n rest) asg))
    → Perm (values result) (rest ++ values asg)
block_moves n name rest asg result ih = Perm.trans ih (
    Perm.trans (Perm.append_left (drop n rest) (values-push_back name (take n rest) asg)) (
      Perm.trans (perm_swap_front (drop n rest) (take n rest) (values asg)) (
        rw (← append_assoc (take n rest) (drop n rest) (values asg), take-append-drop n rest)
          (Perm.refl (rest ++ values asg)))))

-- Enough room for what stands at the cursor: nothing is left over.
values-deal_blocks :
    (per remainder m : ℕ) (names : List Bytes) (rest : List TopicPartition) (asg : Assignment)
    → length rest ≤ per * length names + (remainder - m)
    → remainder ≤ m + length names
    → Perm (values (deal_blocks per remainder m names rest asg)) (rest ++ values asg)
unfolding deal_blocks
values-deal_blocks per remainder m [] [] asg h k = Perm.refl (values asg)
values-deal_blocks per remainder m [] (p ∷ rest) asg h k = absurd (omega arith)
values-deal_blocks per remainder m (name ∷ names) rest asg h k =
    let n = per + (if ltb m remainder then 1 else 0) in
    block_moves n name rest asg
      (deal_blocks per remainder (suc m) names (drop n rest) (push_back name (take n rest) asg))
      (values-deal_blocks per remainder (suc m) names (drop n rest)
        (push_back name (take n rest) asg) (ground (arith, length-drop n rest)) (omega arith))

values-deal_topics :
    (members : List Bytes) (topics asg : Assignment)
    → 0 < length members
    → Perm (values (deal_topics members topics asg)) (values topics ++ values asg)
unfolding deal_topics
values-deal_topics members [] asg h = Perm.refl (values asg)
values-deal_topics members ((topic, ps) ∷ topics) asg h =
    let n = length members in
    let asg' =
      deal_blocks (length ps / length members) (length ps % length members) 0 members ps asg in
    Perm.trans (values-deal_topics members topics asg' h) (
      Perm.trans
        (Perm.append_left (values topics) (
          values-deal_blocks (length ps / n) (length ps % n) 0 members ps asg (omega arith)
            (omega arith)))
        (rw (append_assoc ps (values topics) (values asg))
          (perm_swap_front (values topics) ps (values asg))))

values-deal_round :
    (members : List Bytes) (i : ℕ) (ps : List TopicPartition) (asg : Assignment)
    → Perm (values (deal_round members i ps asg)) (ps ++ values asg)
unfolding deal_round
values-deal_round members i [] asg = Perm.refl (values asg)
values-deal_round members i (p ∷ ps) asg =
    let name = member_at members (i % length members) in
    Perm.trans (values-deal_round members (suc i) ps (push_back name (p ∷ []) asg)) (
      Perm.trans (Perm.append_left ps (values-push_back name (p ∷ []) asg))
        (perm_swap_front ps (p ∷ []) (values asg)))

values-start : (members : List Bytes) → values (start members) ≡ []
unfolding start
values-start [] = refl
values-start (m ∷ ms) = values-start ms

pub nonempty : (members : List Bytes) → is_empty members ≡ false → 0 < length members
nonempty [] h = cc
nonempty (m ∷ ms) h = omega arith

from_start :
    (members : List Bytes) (asg : Assignment) (l : List TopicPartition)
    → Perm (values asg) (l ++ values (start members))
    → Perm (values asg) l
from_start members asg l h =
    subst (Perm (values asg))
      (ap (λ (e : List TopicPartition). l ++ e) (values-start members) ∙ append-nil l) h

values-assign_round_robin :
    (member_ids : List Bytes) (ps : List TopicPartition)
    → is_empty (sorted_members member_ids) ≡ false
    → Perm (values (assign_round_robin member_ids ps)) (sorted_partitions ps)
unfolding assign_round_robin
values-assign_round_robin member_ids ps h =
    let members = sorted_members member_ids in
    rw h (
      from_start members (deal_round members 0 (sorted_partitions ps) (start members))
        (sorted_partitions ps) (values-deal_round members 0 (sorted_partitions ps) (start members)))

values-assign_range :
    (member_ids : List Bytes) (ps : List TopicPartition)
    → is_empty (sorted_members member_ids) ≡ false
    → Perm (values (assign_range member_ids ps)) (sorted_partitions ps)
unfolding assign_range
values-assign_range member_ids ps h =
    let members = sorted_members member_ids in
    let topics = by_topic (sorted_partitions ps) [] in
    rw h (
      Perm.trans
        (from_start members (deal_topics members topics (start members)) (values topics)
          (values-deal_topics members topics (start members) (nonempty members h)))
        (subst (Perm (values topics)) (append-nil (sorted_partitions ps))
          (values-by_topic (sorted_partitions ps) [])))

-- With at least one member, the lists of an assignment hold together exactly the partitions, each
-- once: those of the request, without repetition.
pub values-divide :
    (s : AssignmentStrategy) (member_ids : List Bytes) (ps : List TopicPartition)
    → is_empty (sorted_members member_ids) ≡ false
    → Perm (values (divide s member_ids ps)) (sorted_partitions ps)
      × Distinct (sorted_partitions ps)
      × ((p : TopicPartition) → elem p (sorted_partitions ps) ≡ elem p ps)
unfolding divide sorted_partitions
values-divide round_robin member_ids ps h = (
  values-assign_round_robin member_ids ps h,
  unique-sort-Distinct partition-IsStrictOrder ps,
  λ p. elem-unique-sort p ps,
)
values-divide range member_ids ps h = (
  values-assign_range member_ids ps h,
  unique-sort-Distinct partition-IsStrictOrder ps,
  λ p. elem-unique-sort p ps,
)
