-- ===== src/Base/Sorting.antt =====
-- `std::sort` followed by `erase(unique(…))`, over an order given by a test.
use mathlib.Core.Bool.{Bool}
use mathlib.Core.List.{List, [], ◌∷◌}
use pulse_log.Base.Tests.{if◌then◌else◌}

module _ {ℓ} {A : Type ℓ} where
  unfoldable pub insert_sorted : (A → A → Bool) → A → List A → List A
  insert_sorted less x [] = x ∷ []
  insert_sorted less x (y ∷ ys) =
      let rest = insert_sorted less x ys in if less y x then y ∷ rest else x ∷ y ∷ ys

  unfoldable pub sort : (A → A → Bool) → List A → List A
  unfolding insert_sorted
  sort less [] = []
  sort less (x ∷ xs) = insert_sorted less x (sort less xs)

  -- Of neighbours that are equal the first stays.
  unfoldable pub unique_from : (A → A → Bool) → A → List A → List A
  unique_from beq x [] = []
  unique_from beq x (y ∷ ys) =
      let rest = unique_from beq y ys in if beq x y then unique_from beq x ys else y ∷ rest

  unfoldable pub unique : (A → A → Bool) → List A → List A
  unfolding unique_from
  unique beq [] = []
  unique beq (x ∷ xs) = x ∷ unique_from beq x xs
