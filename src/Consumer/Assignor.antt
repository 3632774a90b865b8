-- ===== src/Consumer/Assignor.antt =====
-- consumer/assignor.{h,cc}: how a group's partitions are divided among its members.
pub mod Cover
pub mod Exclusive
pub mod Members
mod Examples
use pulse_log.Base.{
  ℕ, suc, ◌+◌, ◌/◌, ◌%◌, ltb, if◌then◌else◌, Option, none, some, List, [], ◌∷◌, ◌++◌, map, length,
  take, drop, is_empty, get_elem?, Bool, true, false,
}
use pulse_log.Base.Keys.{Bytes, bytes_eq, bytes_lt, bytes_key}
use pulse_log.Base.Maps.{Map, find, assign}
use pulse_log.Base.Sorting.{sort, unique}
use pulse_log.Base.Types.{
  TopicPartition, partition_eq, partition_lt, AssignmentStrategy, range, round_robin,
}

abbrev pub Assignment : Type 0
Assignment = Map Bytes (List TopicPartition)

unfoldable pub sorted_members : List Bytes → List Bytes
sorted_members members = unique bytes_eq (sort bytes_lt members)

unfoldable pub sorted_partitions : List TopicPartition → List TopicPartition
sorted_partitions partitions = unique partition_eq (sort partition_lt partitions)

-- `operator[]` of a map of lists gives the empty list to a missing key.
abbrev pub entry : Bytes → Assignment → List TopicPartition
entry k m = elim (find k m) [ none ↦ [] | some v ↦ v ]

-- `m[k].push_back(…)`, once for each of `ps`.
unfoldable pub push_back : Bytes → List TopicPartition → Assignment → Assignment
push_back k ps m = assign k (entry k m ++ ps) m

-- `for (const auto& member : members) assignment[member];`
unfoldable pub start : List Bytes → Assignment
start = map (λ name. (name, []))

unfoldable pub by_topic : List TopicPartition → Assignment → Assignment
by_topic [] m = m
by_topic (p ∷ ps) m = by_topic ps (push_back p.topic (p ∷ []) m)

-- The loop over the members, from index `m`; `rest` is what stands at and after the cursor.
unfoldable pub deal_blocks : ℕ → ℕ → ℕ → List Bytes → List TopicPartition → Assignment → Assignment
deal_blocks per_member remainder m [] rest asg = asg
deal_blocks per_member remainder m (name ∷ names) rest asg =
    let n = per_member + (if ltb m remainder then 1 else 0) in
    deal_blocks per_member remainder (suc m) names (drop n rest) (push_back name (take n rest) asg)

unfoldable pub deal_topics : List Bytes → Assignment → Assignment → Assignment
deal_topics members [] asg = asg
deal_topics members ((topic, ps) ∷ topics) asg =
    deal_topics members topics
      (deal_blocks (length ps / length members) (length ps % length members) 0 members ps asg)

unfoldable pub assign_range : List Bytes → List TopicPartition → Assignment
assign_range member_ids partitions =
    let members = sorted_members member_ids in
    if is_empty members
    then []
    else deal_topics members (by_topic (sorted_partitions partitions) []) (start members)

-- `members[i % members.size()]`, which is in range.
abbrev pub member_at : List Bytes → ℕ → Bytes
member_at members i = elim (get_elem? members i) [ none ↦ [] | some name ↦ name ]

pub deal_round : List Bytes → ℕ → List TopicPartition → Assignment → Assignment
deal_round members i [] asg = asg
deal_round members i (p ∷ ps) asg =
    deal_round members (suc i) ps (push_back (member_at members (i % length members)) (p ∷ []) asg)

pub assign_round_robin : List Bytes → List TopicPartition → Assignment
assign_round_robin member_ids partitions =
    let members = sorted_members member_ids in
    if is_empty members
    then []
    else deal_round members 0 (sorted_partitions partitions) (start members)

-- `Assign`
unfoldable pub divide : AssignmentStrategy → List Bytes → List TopicPartition → Assignment
divide round_robin member_ids partitions = assign_round_robin member_ids partitions
divide range member_ids partitions = assign_range member_ids partitions
