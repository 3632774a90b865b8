-- ===== src/Base/Search.antt =====
-- `std::lower_bound` and `std::upper_bound` on a range that their test splits: the index of its first
-- element that fails the test.
use Prim.Native.Nat.{ℕ, suc, ◌≤◌}
use mathlib.Core.Path.{◌≡◌, refl, ap, sym}
use mathlib.Core.Logic.{inl, inr}
use mathlib.Core.Bool.{Bool, true, false, not}
use mathlib.Core.List.{List, [], ◌∷◌}
use native.Mathlib.Omega.{arith}
use pulse_log.Base.Tests.{if◌then◌else◌, Bool-cases}
use pulse_log.Base.Lists.{length, take, drop, All, keep}

module _ {ℓ} {A : Type ℓ} (p : A → Bool) where
  unfoldable pub partition_point : List A → ℕ
  partition_point [] = 0
  partition_point (x ∷ xs) = let rest = partition_point xs in if p x then suc rest else 0

  pub partition_point-le : (xs : List A) → partition_point xs ≤ length xs
  unfolding partition_point
  partition_point-le [] = omega arith
  partition_point-le (x ∷ xs) = ground (arith, partition_point-le xs)

  pub partition_point-All :
      (xs : List A) → All (λ a. p a ≡ true) xs → partition_point xs ≡ length xs
  unfolding partition_point
  partition_point-All [] h = refl
  partition_point-All (x ∷ xs) h = ground (arith, partition_point-All xs h.1)

  -- After an element that fails the test all fail it.
  abbrev pub Splits : List A → Type ℓ
  Splits [] = Unit
  Splits (x ∷ xs) = (p x ≡ false → All (λ a. p a ≡ false) xs) × Splits xs

  keep_none : (xs : List A) → All (λ a. p a ≡ false) xs → keep p xs ≡ []
  unfolding keep
  keep_none [] h = refl
  keep_none (x ∷ xs) h = ground (arith, keep_none xs h.1)

  pub take-partition_point : (xs : List A) → Splits xs → take (partition_point xs) xs ≡ keep p xs
  unfolding partition_point keep
  take-partition_point [] h = refl
  take-partition_point (x ∷ xs) (fails, h) = elim (Bool-cases (p x)) [
    | inl e ↦ rw e (ap (λ (t : List A). x ∷ t) (take-partition_point xs h))
    | inr e ↦ rw e (sym (keep_none xs (fails e)))
  ]

  keep-All : (xs : List A) → All (λ a. p a ≡ false) xs → keep (λ a. not (p a)) xs ≡ xs
  unfolding keep
  keep-All [] h = refl
  keep-All (x ∷ xs) h = rw (h.0) (ap (λ (t : List A). x ∷ t) (keep-All xs h.1))

  pub drop-partition_point :
      (xs : List A) → Splits xs → drop (partition_point xs) xs ≡ keep (λ a. not (p a)) xs
  unfolding partition_point keep
  drop-partition_point [] h = refl
  drop-partition_point (x ∷ xs) (fails, h) = elim (Bool-cases (p x)) [
    | inl e ↦ rw e (drop-partition_point xs h)
    | inr e ↦ rw e (ap (λ (t : List A). x ∷ t) (sym (keep-All xs (fails e))))
  ]
