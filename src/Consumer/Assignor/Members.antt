-- ===== src/Consumer/Assignor/Members.antt =====
-- Exactly the members of the group have an entry in an assignment.
use pulse_log.Base.{
  ℕ, zero, suc, ◌%◌, ◌<◌, ◌≡◌, ◌∙◌, refl, ap, sym, subst, arith, true, false, List, [], ◌∷◌, ◌++◌,
  length, All, is_empty, Bool-cases, inl, inr,
}
use pulse_log.Base.Keys.{Bytes, bytes_key, ==_refl}
use pulse_log.Base.Maps.{keys, find, assign, contains_key}
use pulse_log.Base.Distinct.{keys-replace}
use pulse_log.Base.Order.{elem}
use pulse_log.Base.Types.{TopicPartition, partition_key, AssignmentStrategy, range, round_robin}
use pulse_log.Consumer.Assignor.{
  Assignment, sorted_members, sorted_partitions, entry, push_back, start, deal_blocks, deal_topics,
  assign_range, member_at, deal_round, assign_round_robin, divide, by_topic,
}
use pulse_log.Consumer.Assignor.Cover.{nonempty}
use pulse_log.Consumer.Assignor.Exclusive.{divide-empty}

keys-push_back :
    (k : Bytes) (ps : List TopicPartition) (m : Assignment)
    → contains_key k m ≡ true
    → keys (push_back k ps m) ≡ keys m
unfolding push_back assign
keys-push_back k ps m h = rw h (keys-replace k (entry k m ++ ps) m)

contains_key-keys : (k : Bytes) (m : Assignment) → contains_key k m ≡ elem k (keys m)
unfolding find elem
contains_key-keys k [] = refl
contains_key-keys k ((j, w) ∷ m) = ground (arith, contains_key-keys k m)

member_at-elem :
    (i : ℕ) (members : List Bytes) → i < length members → elem (member_at members i) members ≡ true
unfolding elem
member_at-elem i [] h = absurd (omega arith)
member_at-elem zero (x ∷ xs) h = rw (==_refl x)
member_at-elem (suc i) (x ∷ xs) h = ground (arith, member_at-elem i xs)

-- The members, each of which the loops below address.
module _ (members : List Bytes) where
  keys-push_member :
      (k : Bytes) (ps : List TopicPartition) (m : Assignment)
      → elem k members ≡ true
      → keys m ≡ members
      → keys (push_back k ps m) ≡ members
  keys-push_member k ps m h e =
      keys-push_back k ps m
        (contains_key-keys k m ∙ subst (λ (l : List Bytes). elem k l ≡ true) (sym e) h)
      ∙ e

  keys-deal_blocks :
      (per remainder m : ℕ) (names : List Bytes) (rest : List TopicPartition) (asg : Assignment)
      → All (λ n. elem n members ≡ true) names
      → keys asg ≡ members
      → keys (deal_blocks per remainder m names rest asg) ≡ members
  unfolding deal_blocks
  keys-deal_blocks per remainder m [] rest asg h e = e
  keys-deal_blocks per remainder m (name ∷ names) rest asg h e =
      keys-deal_blocks per remainder (suc m) names _ _ h.1 (keys-push_member name _ asg h.0 e)

  keys-deal_topics :
      (topics asg : Assignment)
      → All (λ n. elem n members ≡ true) members
      → keys asg ≡ members
      → keys (deal_topics members topics asg) ≡ members
  unfolding deal_topics
  keys-deal_topics [] asg h e = e
  keys-deal_topics ((topic, ps) ∷ topics) asg h e =
      keys-deal_topics topics _ h (keys-deal_blocks _ _ 0 members ps asg h e)

  keys-deal_round :
      (i : ℕ) (ps : List TopicPartition) (asg : Assignment)
      → 0 < length members
      → keys asg ≡ members
      → keys (deal_round members i ps asg) ≡ members
  unfolding deal_round
  keys-deal_round i [] asg h e = e
  keys-deal_round i (p ∷ ps) asg h e = keys-deal_round (suc i) ps _ h (
      keys-push_member (member_at members (i % length members)) (p ∷ []) asg
        (member_at-elem (i % length members) members (omega arith)) e)

elem-cons :
    (x : Bytes) (names xs : List Bytes)
    → All (λ n. elem n xs ≡ true) names
    → All (λ n. elem n (x ∷ xs) ≡ true) names
unfolding elem
elem-cons x [] xs h = tt
elem-cons x (n ∷ names) xs h = (ground (arith, h.0), elem-cons x names xs h.1)

elem_self : (xs : List Bytes) → All (λ n. elem n xs ≡ true) xs
unfolding elem
elem_self [] = tt
elem_self (x ∷ xs) = (rw (==_refl x), elem-cons x xs xs (elem_self xs))

keys-start : (members : List Bytes) → keys (start members) ≡ members
unfolding start
keys-start [] = refl
keys-start (x ∷ xs) = ap (λ (l : List Bytes). x ∷ l) (keys-start xs)

is_empty_nil : (xs : List Bytes) → is_empty xs ≡ true → xs ≡ []
is_empty_nil [] h = refl
is_empty_nil (x ∷ xs) h = cc

-- Exactly the members have an entry, in their order; one with no partition has the empty list.
pub keys-divide :
    (s : AssignmentStrategy) (member_ids : List Bytes) (ps : List TopicPartition)
    → keys (divide s member_ids ps) ≡ sorted_members member_ids
keys-divide s member_ids ps = elim (Bool-cases (is_empty (sorted_members member_ids))) [
  | inl e ↦ rw (divide-empty s member_ids ps e) (sym (is_empty_nil (sorted_members member_ids) e))
  | inr e ↦ keys_nonempty s e
]
  where
    keys_nonempty :
        (s : AssignmentStrategy)
        → is_empty (sorted_members member_ids) ≡ false
        → keys (divide s member_ids ps) ≡ sorted_members member_ids
    keys_nonempty range e =
        let members = sorted_members member_ids in
        unfold divide assign_range in
        rw e (
          keys-deal_topics members (by_topic (sorted_partitions ps) []) (start members)
            (elem_self members) (keys-start members))
    keys_nonempty round_robin e =
        let members = sorted_members member_ids in
        unfold divide assign_round_robin in
        rw e (
          keys-deal_round members 0 (sorted_partitions ps) (start members) (nonempty members e)
            (keys-start members))
