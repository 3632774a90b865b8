-- ===== src/Base/Order.antt =====
-- Strict total orders, and what sorting and removing repetitions gives over one: an ascending list
-- with the elements of the given one.
use mathlib.Core.Path.{◌≡◌, refl, sym, subst, ◌∙◌}
use mathlib.Core.Logic.{inl, inr}
use mathlib.Core.Bool.{Bool, true, false, ◌||◌, false≢true}
use mathlib.Core.List.{List, [], ◌∷◌}
use native.Mathlib.Omega.{arith}
use pulse_log.Base.Tests.{Bool-cases}
use pulse_log.Base.Lists.{All, All-map}
use pulse_log.Base.Int.{eq_of_parts}
use pulse_log.Base.Keys.{Key, ◌==◌, Bytes, bytes_lt, bytes_eq_iff, bytes_key, int_key}
use pulse_log.Base.Types.{partition_key}
use pulse_log.Base.Distinct.{Distinct}
use pulse_log.Base.Sorting.{insert_sorted, sort, unique_from, unique}

pub record IsStrictOrder {ℓ} {K : Type ℓ} (key : Key K) : Type ℓ where
  pub irrefl : (a : K) → key.less a a ≡ false
  pub trans : (a b c : K) → key.less a b ≡ true → key.less b c ≡ true → key.less a c ≡ true
  pub total : (a b : K) → key.less a b ≡ false → key.less b a ≡ false → a ≡ b

bytes_lt_irrefl : (a : Bytes) → bytes_lt a a ≡ false
bytes_lt_irrefl [] = refl
bytes_lt_irrefl (x ∷ xs) = ground (arith, bytes_lt_irrefl xs)

bytes_lt_trans : (a b c : Bytes) → bytes_lt a b ≡ true → bytes_lt b c ≡ true → bytes_lt a c ≡ true
bytes_lt_trans [] [] c h k = cc
bytes_lt_trans [] (y ∷ ys) [] h k = cc
bytes_lt_trans [] (y ∷ ys) (z ∷ zs) h k = refl
bytes_lt_trans (x ∷ xs) [] c h k = cc
bytes_lt_trans (x ∷ xs) (y ∷ ys) [] h k = cc
bytes_lt_trans (x ∷ xs) (y ∷ ys) (z ∷ zs) h k = ground (arith, bytes_lt_trans xs ys zs)

bytes_lt_total : (a b : Bytes) → bytes_lt a b ≡ false → bytes_lt b a ≡ false → a ≡ b
bytes_lt_total [] [] h k = refl
bytes_lt_total [] (y ∷ ys) h k = cc
bytes_lt_total (x ∷ xs) [] h k = cc
bytes_lt_total (x ∷ xs) (y ∷ ys) h k = ground (arith, bytes_lt_total xs ys)

pub bytes-IsStrictOrder : IsStrictOrder bytes_key
bytes-IsStrictOrder = record {
  irrefl = bytes_lt_irrefl;
  trans = bytes_lt_trans;
  total = bytes_lt_total;
}

pub partition-IsStrictOrder : IsStrictOrder partition_key
partition-IsStrictOrder = record {
  irrefl = λ a. ground (arith, bytes_eq_iff a.topic a.topic);
  trans = λ a b c h k. ground (
    arith,
    bytes_lt_trans a.topic b.topic c.topic,
    bytes_eq_iff a.topic b.topic,
    bytes_eq_iff b.topic c.topic,
    bytes_eq_iff a.topic c.topic,
    bytes_lt_total a.topic c.topic,
    bytes_lt_irrefl a.topic,
    bytes_lt_trans a.topic b.topic a.topic,
  );
  total = λ a b h k. ground (
    arith,
    bytes_lt_total a.topic b.topic,
    bytes_eq_iff a.topic b.topic,
    bytes_eq_iff b.topic a.topic,
    eq_of_parts a.partition b.partition,
  );
}

module _ {ℓ} {K : Type ℓ} ⦃key : Key K⦄ where
  abbrev pub IsSorted : List K → Type ℓ
  IsSorted [] = Unit
  IsSorted (x ∷ xs) = All (λ y. key.less y x ≡ false) xs × IsSorted xs

  abbrev pub IsAscending : List K → Type ℓ
  IsAscending [] = Unit
  IsAscending (x ∷ xs) = All (λ y. key.less x y ≡ true) xs × IsAscending xs

  unfoldable pub elem : K → List K → Bool
  elem a [] = false
  elem a (x ∷ xs) = x == a || elem a xs

module _ {ℓ} {K : Type ℓ} ⦃key : Key K⦄ (o : IsStrictOrder key) where
  not_less_trans : (x y z : K) → key.less y x ≡ false → key.less z y ≡ false → key.less z x ≡ false
  not_less_trans x y z h k = elim (Bool-cases (key.less y z)) [
    | inl e ↦ ground (arith, o.trans y z x e)
    | inr e ↦ rw (o.total z y k e) h
  ]

  less_of_ne : (x y : K) → key.less y x ≡ false → (x == y) ≡ false → key.less x y ≡ true
  less_of_ne x y h n = elim (Bool-cases (key.less x y)) [
    | inl e ↦ e
    | inr e ↦ absurd (false≢true (sym n ∙ (key.beq_iff x y).1 (o.total x y e h)))
  ]

  less_not_less : (x y : K) → key.less x y ≡ true → key.less y x ≡ false
  less_not_less x y h = ground (arith, o.trans x y x h, o.irrefl x)

  module _ {κ} (P : K → Type κ) where
    insert_sorted-All : (x : K) (xs : List K) → P x → All P xs → All P (insert_sorted key.less x xs)
    unfolding insert_sorted
    insert_sorted-All x [] p h = (p, tt)
    insert_sorted-All x (y ∷ ys) p h = elim (Bool-cases (key.less y x)) [
      | inl e ↦ rw e (h.0, insert_sorted-All x ys p h.1)
      | inr e ↦ rw e (p, h)
    ]

    unique_from-All : (x : K) (xs : List K) → All P xs → All P (unique_from ◌==◌ x xs)
    unfolding unique_from
    unique_from-All x [] h = tt
    unique_from-All x (y ∷ ys) h = elim (Bool-cases (x == y)) [
      | inl e ↦ rw e (unique_from-All x ys h.1)
      | inr e ↦ rw e (h.0, unique_from-All y ys h.1)
    ]

  insert_sorted-IsSorted :
      (x : K) (xs : List K) → IsSorted xs → IsSorted (insert_sorted key.less x xs)
  unfolding insert_sorted
  insert_sorted-IsSorted x [] s = (tt, tt)
  insert_sorted-IsSorted x (y ∷ ys) s = elim (Bool-cases (key.less y x)) [
    | inl e ↦ rw e (
      insert_sorted-All (λ z. key.less z y ≡ false) x ys (less_not_less y x e) s.0,
      insert_sorted-IsSorted x ys s.1,
    )
    | inr e ↦
        rw e ((e, All-map (λ z. key.less z y ≡ false) (λ z h. not_less_trans x y z e h) ys s.0), s)
  ]

  sort-IsSorted : (xs : List K) → IsSorted (sort key.less xs)
  unfolding sort
  sort-IsSorted [] = tt
  sort-IsSorted (x ∷ xs) = insert_sorted-IsSorted x (sort key.less xs) (sort-IsSorted xs)

  unique_from-IsAscending :
      (x : K) (xs : List K) → IsSorted (x ∷ xs) → IsAscending (x ∷ unique_from ◌==◌ x xs)
  unfolding unique_from
  unique_from-IsAscending x [] s = (tt, tt)
  unique_from-IsAscending x (y ∷ ys) s = elim (Bool-cases (x == y)) [
    | inl e ↦ rw e (unique_from-IsAscending x ys (s.0.1, s.1.1))
    | inr e ↦
        let less = less_of_ne x y s.0.0 e in
        let tail = unique_from-IsAscending y ys s.1 in
        rw e
          ((less, All-map (λ z. key.less y z ≡ true) (λ z h. o.trans x y z less h) _ tail.0), tail)
  ]

  unique-IsAscending : (xs : List K) → IsSorted xs → IsAscending (unique ◌==◌ xs)
  unfolding unique
  unique-IsAscending [] s = tt
  unique-IsAscending (x ∷ xs) s = unique_from-IsAscending x xs s

  ascending-Distinct : (xs : List K) → IsAscending xs → Distinct xs
  ascending-Distinct [] h = tt
  ascending-Distinct (x ∷ xs) h = (
    All-map (λ y. key.less x y ≡ true)
        (λ y less same.
          false≢true (sym (o.irrefl x) ∙ (subst (λ (z : K). key.less x z ≡ true) (sym same) less)))
        xs h.0,
    ascending-Distinct xs h.1,
  )

  -- Sorting and removing repetitions leaves no repetition.
  pub unique-sort-Distinct : (xs : List K) → Distinct (unique ◌==◌ (sort key.less xs))
  unique-sort-Distinct xs =
      ascending-Distinct (unique ◌==◌ (sort key.less xs))
        (unique-IsAscending (sort key.less xs) (sort-IsSorted xs))

module _ {ℓ} {K : Type ℓ} ⦃key : Key K⦄ (a : K) where
  elem-insert_sorted :
      (x : K) (xs : List K) → elem a (insert_sorted key.less x xs) ≡ ((x == a) || elem a xs)
  unfolding elem insert_sorted
  elem-insert_sorted x [] = refl
  elem-insert_sorted x (y ∷ ys) = ground (arith, elem-insert_sorted x ys)

  elem-sort : (xs : List K) → elem a (sort key.less xs) ≡ elem a xs
  unfolding elem sort
  elem-sort [] = refl
  elem-sort (x ∷ xs) = ground (arith, elem-insert_sorted x (sort key.less xs), elem-sort xs)

  elem-unique_from :
      (x : K) (xs : List K) → ((x == a) || elem a (unique_from ◌==◌ x xs)) ≡ ((x == a) || elem a xs)
  unfolding elem unique_from
  elem-unique_from x [] = refl
  elem-unique_from x (y ∷ ys) =
      ground (arith, elem-unique_from x ys, elem-unique_from y ys, key.beq_iff x y)

  elem-unique : (xs : List K) → elem a (unique ◌==◌ xs) ≡ elem a xs
  unfolding elem unique
  elem-unique [] = refl
  elem-unique (x ∷ xs) = elem-unique_from x xs

  -- Neither adds nor loses an element.
  pub elem-unique-sort : (xs : List K) → elem a (unique ◌==◌ (sort key.less xs)) ≡ elem a xs
  elem-unique-sort xs = elem-unique (sort key.less xs) ∙ elem-sort xs
