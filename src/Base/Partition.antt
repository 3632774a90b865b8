-- ===== src/Base/Partition.antt =====
-- `std::stable_partition` rearranges: the two parts have the elements of the whole.
use Prim.Native.Nat.{◌+◌}
use mathlib.Core.Path.{◌≡◌, refl, ap, ◌∙◌}
use mathlib.Core.Logic.{inl, inr, ∥∥₁_elim}
use mathlib.Core.Bool.{Bool, not}
use mathlib.Core.List.{
  List, [], ◌∷◌, ◌++◌, Perm, Permᴰ, perm_middle, perm_append_comm, append_assoc,
}
use mathlib.Core.List.Perm
use pulse_log.Base.Tests.{Bool-cases}
use native.Mathlib.Nat.{ℕ_set}
use native.Mathlib.Omega.{arith}
use pulse_log.Base.Lists.{keep, count_if}

module _ {ℓ} {A : Type ℓ} (p : A → Bool) where
  pub keep-perm : (xs : List A) → Perm xs (keep p xs ++ keep (λ x. not (p x)) xs)
  unfolding keep
  keep-perm [] = Perm.nil
  keep-perm (x ∷ xs) = elim (Bool-cases (p x)) [
    | inl e ↦ rw e (Perm.cons x (keep-perm xs))
    | inr e ↦ rw e (
        Perm.trans (Perm.cons x (keep-perm xs))
          (Perm.symm (perm_middle (keep p xs) (keep (λ y. not (p y)) xs))))
  ]

  -- The order of the two parts does not matter.
  pub keep-perm_swap : (xs : List A) → Perm xs (keep (λ x. not (p x)) xs ++ keep p xs)
  keep-perm_swap xs =
      Perm.trans (keep-perm xs) (perm_append_comm (keep p xs) (keep (λ x. not (p x)) xs))

-- Two steps, each of which takes out `d` and then `e` and keeps the rest, after each other.
pub perm_steps {ℓ} :
    {A : Type ℓ} (b a c d w e w' : List A)
    → Perm (b ++ a) (d ++ w)
    → Perm (w ++ c) (e ++ w')
    → Perm (b ++ (a ++ c)) ((d ++ e) ++ w')
perm_steps b a c d w e w' h k =
    rw (← append_assoc b a c, append_assoc d e w')
      (Perm.trans (Perm.append_right c h) (rw (append_assoc d w c) (Perm.append_left d k)))

-- A count does not depend on the order.
module _ {ℓ} {A : Type ℓ} (p : A → Bool) where
  pub count_if-append : (xs ys : List A) → count_if p (xs ++ ys) ≡ count_if p xs + count_if p ys
  unfolding count_if
  count_if-append [] ys = omega arith
  count_if-append (x ∷ xs) ys = ground (arith, count_if-append xs ys)

  count_if-permᴰ : {xs ys : List A} → Permᴰ xs ys → count_if p xs ≡ count_if p ys
  unfolding count_if
  count_if-permᴰ Permᴰ.nil = refl
  count_if-permᴰ (Permᴰ.cons e h) = ground (arith, ap p e, count_if-permᴰ h)
  count_if-permᴰ (Permᴰ.swap e f) = ground (arith, ap p e, ap p f)
  count_if-permᴰ (Permᴰ.trans h k) = count_if-permᴰ h ∙ count_if-permᴰ k

  pub count_if-perm : {xs ys : List A} → Perm xs ys → count_if p xs ≡ count_if p ys
  count_if-perm h = ∥∥₁_elim h (ℕ_set _ _) count_if-permᴰ
