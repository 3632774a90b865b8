-- ===== src/Consumer/Assignor/Examples.antt =====
-- Two members divide a topic of three partitions.
use mathlib.Core.List.{Perm}
use pulse_log.Base.{ℕ, ◌≡◌, refl, List, [], ◌∷◌}
use pulse_log.Base.Int.{pos}
use pulse_log.Base.Keys.{Bytes, bytes_key}
use pulse_log.Base.Maps.{find, assign, replace, insert}
use pulse_log.Base.Distinct.{Distinct}
use pulse_log.Base.Order.{elem}
use pulse_log.Base.Sorting.{insert_sorted, sort, unique_from, unique}
use pulse_log.Base.Types.{range, TopicPartition, partition_key}
use pulse_log.Consumer.Assignor.{
  divide, assign_range, sorted_members, sorted_partitions, start, push_back, by_topic, deal_blocks,
  deal_topics,
}
use pulse_log.Consumer.Assignor.Cover.{values, values-divide}
use pulse_log.Consumer.Assignor.Exclusive.{divide-exclusive}

abbrev ann : Bytes
ann = b'a' ∷ []

abbrev bob : Bytes
bob = b'b' ∷ []

abbrev orders : Bytes
orders = b'o' ∷ []

abbrev part : ℕ → TopicPartition
part n = record { topic = orders; partition = pos n }

abbrev parts : List TopicPartition
parts = part 2 ∷ part 0 ∷ part 1 ∷ part 0 ∷ []

values-divide_example :
    Perm (values (divide range (bob ∷ ann ∷ []) parts)) (sorted_partitions parts)
    × Distinct (sorted_partitions parts)
    × ((p : TopicPartition) → elem p (sorted_partitions parts) ≡ elem p parts)
unfolding sorted_members unique sort unique_from insert_sorted
values-divide_example = values-divide range (bob ∷ ann ∷ []) parts refl

divide-exclusive_example : ann ≡ ann
unfolding divide assign_range sorted_members sorted_partitions start push_back by_topic deal_blocks
    deal_topics find assign replace insert unique sort unique_from insert_sorted elem
divide-exclusive_example =
    divide-exclusive range (bob ∷ ann ∷ []) parts ann ann (part 0 ∷ part 1 ∷ [])
      (part 0 ∷ part 1 ∷ []) (part 1) refl refl refl refl
