-- ===== src/Consumer/Assignor/Exclusive.antt =====
-- No partition has two owners.
use pulse_log.Base.{
  ℕ, ◌+◌, ◌≤◌, ◌≡◌, ◌≢◌, ◌∙◌, refl, sym, subst, arith, true, false, List, [], ◌∷◌, All, is_empty,
  Bool-cases, inl, inr, some, count_if,
}
use pulse_log.Base.Keys.{Bytes, bytes_key, bytes_eq_iff, ◌==◌}
use pulse_log.Base.Maps.{find}
use pulse_log.Base.Distinct.{Distinct}
use pulse_log.Base.Partition.{count_if-append, count_if-perm}
use pulse_log.Base.Order.{elem}
use mathlib.Core.Bool.{false≢true}
use pulse_log.Base.Types.{
  TopicPartition, partition_eq_iff, partition_key, AssignmentStrategy, range, round_robin,
}
use pulse_log.Consumer.Assignor.{
  Assignment, sorted_members, sorted_partitions, assign_range, assign_round_robin, divide,
}
use pulse_log.Consumer.Assignor.Cover.{values, values-divide}

abbrev pub count : TopicPartition → List TopicPartition → ℕ
count p = count_if (λ q. q == p)

count-absent :
    (p : TopicPartition) (xs : List TopicPartition) → All (λ y. p ≢ y) xs → count p xs ≡ 0
unfolding count_if
count-absent p [] h = refl
count-absent p (x ∷ xs) h = elim (Bool-cases (x == p)) [
  | inl e ↦ absurd (h.0 (sym ((partition_eq_iff x p).0 e)))
  | inr e ↦ rw e (count-absent p xs h.1)
]

count-Distinct : (p : TopicPartition) (xs : List TopicPartition) → Distinct xs → count p xs ≤ 1
unfolding count_if
count-Distinct p [] h = omega arith
count-Distinct p (x ∷ xs) h = elim (Bool-cases (x == p)) [
  | inl e ↦ rw e (
      omega (
        arith,
        count-absent p xs
            (subst (λ (z : TopicPartition). All (λ y. z ≢ y) xs) ((partition_eq_iff x p).0 e) h.0),
      ))
  | inr e ↦ rw e (count-Distinct p xs h.1)
]

count-elem : (p : TopicPartition) (xs : List TopicPartition) → elem p xs ≡ true → 1 ≤ count p xs
unfolding count_if elem
count-elem p [] h = cc
count-elem p (x ∷ xs) h = elim (Bool-cases (x == p)) [
  | inl e ↦ rw e (omega arith)
  | inr e ↦ rw e (count-elem p xs (rw e at h))
]

module _ (p : TopicPartition) where
  count_one :
      (a : Bytes) (xs : List TopicPartition) (m : Assignment)
      → find a m ≡ some xs
      → count p xs ≤ count p (values m)
  unfolding find
  count_one a xs [] h = cc
  count_one a xs ((j, w) ∷ m) h = elim (Bool-cases (j == a)) [
    | inl e ↦
        let same : w ≡ xs = ground arith in
        rw same (omega (arith, count_if-append (λ q. q == p) xs (values m)))
    | inr e ↦
        omega (arith, count_if-append (λ q. q == p) w (values m), count_one a xs m (ground arith))
  ]

  count_two :
      (a b : Bytes) (xs ys : List TopicPartition) (m : Assignment)
      → (a == b) ≡ false
      → find a m ≡ some xs
      → find b m ≡ some ys
      → count p xs + count p ys ≤ count p (values m)
  unfolding find
  count_two a b xs ys [] n h k = cc
  count_two a b xs ys ((j, w) ∷ m) n h k = elim (Bool-cases (j == a)) [
    | inl e ↦ elim (Bool-cases (j == b)) [
      | inl f ↦ absurd (
          false≢true
            (sym n ∙ (bytes_eq_iff a b).1 (sym ((bytes_eq_iff j a).0 e) ∙ (bytes_eq_iff j b).0 f)))
      | inr f ↦
          let same : w ≡ xs = ground arith in
          rw same (
            omega
              (arith, count_if-append (λ q. q == p) xs (values m), count_one b ys m (ground arith)))
    ]
    | inr e ↦ elim (Bool-cases (j == b)) [
      | inl f ↦
          let same : w ≡ ys = ground arith in
          rw same (
            omega
              (arith, count_if-append (λ q. q == p) ys (values m), count_one a xs m (ground arith)))
      | inr f ↦ omega (
        arith,
        count_if-append (λ q. q == p) w (values m),
        count_two a b xs ys m n (ground arith) (ground arith),
      )
    ]
  ]

pub divide-empty :
    (s : AssignmentStrategy) (member_ids : List Bytes) (ps : List TopicPartition)
    → is_empty (sorted_members member_ids) ≡ true
    → divide s member_ids ps ≡ []
unfolding divide assign_range assign_round_robin
divide-empty round_robin member_ids ps h = rw h
divide-empty range member_ids ps h = rw h

count-divide :
    (s : AssignmentStrategy) (member_ids : List Bytes) (ps : List TopicPartition)
    (p : TopicPartition)
    → count p (values (divide s member_ids ps)) ≤ 1
count-divide s member_ids ps p = elim (Bool-cases (is_empty (sorted_members member_ids))) [
  | inl e ↦ rw (divide-empty s member_ids ps e) (unfold count_if in omega arith)
  | inr e ↦
      let cover = values-divide s member_ids ps e in
      rw (count_if-perm (λ q. q == p) cover.0) (count-Distinct p (sorted_partitions ps) cover.1)
]

-- Two members never hold the same partition.
pub divide-exclusive :
    (s : AssignmentStrategy) (member_ids : List Bytes) (ps : List TopicPartition) (a b : Bytes)
    (xs ys : List TopicPartition) (p : TopicPartition)
    → find a (divide s member_ids ps) ≡ some xs
    → find b (divide s member_ids ps) ≡ some ys
    → elem p xs ≡ true
    → elem p ys ≡ true
    → a ≡ b
divide-exclusive s member_ids ps a b xs ys p h k hp kp = elim (Bool-cases (a == b)) [
  | inl e ↦ (bytes_eq_iff a b).0 e
  | inr e ↦ absurd (
      omega (
        arith,
        count_two p a b xs ys (divide s member_ids ps) e h k,
        count-divide s member_ids ps p,
        count-elem p xs hp,
        count-elem p ys kp,
      ))
]
