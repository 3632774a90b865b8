-- ===== src/Base/Keys.antt =====
-- Keys of the ordered maps: broker ids, and `std::string` as the list of its bytes, which
-- `operator<` compares as unsigned numbers.
use Prim.Native.Nat.{ℕ}
use mathlib.Core.Path.{◌≡◌, refl}
use mathlib.Core.Logic.{◌↔◌}
use mathlib.Core.Bool.{Bool, true, false, ◌&&◌}
use mathlib.Core.List.{List, [], ◌∷◌}
use native.Mathlib.Omega.{arith}
use pulse_log.Base.Tests.{ltb, if◌then◌else◌}
use pulse_log.Base.Tests
use pulse_log.Base.Int.{ℤ, ltb_ℤ, eqb_ℤ, eqb_ℤ_iff}

pub record Key {ℓ} (K : Type ℓ) : Type ℓ where
  pub beq : K → K → Bool
  pub less : K → K → Bool
  pub beq_iff : (a b : K) → (beq a b ≡ true) ↔ (a ≡ b)

infix 50 ◌==◌
abbrev pub ◌==◌ {ℓ} : {K : Type ℓ} ⦃key : Key K⦄ → K → K → Bool
◌==◌ ⦃key⦄ = key.beq

pub ==_refl {ℓ} : {K : Type ℓ} ⦃key : Key K⦄ (a : K) → (a == a) ≡ true
==_refl ⦃key⦄ a = (key.beq_iff a a).1 refl

instance abbrev pub int_key : Key ℤ
int_key = record { beq = eqb_ℤ; less = ltb_ℤ; beq_iff = eqb_ℤ_iff }

abbrev pub Bytes : Type 0
Bytes = List ℕ

abbrev pub bytes_eq : Bytes → Bytes → Bool
bytes_eq [] [] = true
bytes_eq [] (b ∷ bs) = false
bytes_eq (a ∷ as') [] = false
bytes_eq (a ∷ as') (b ∷ bs) = Tests.◌==◌ a b && bytes_eq as' bs

abbrev pub bytes_lt : Bytes → Bytes → Bool
bytes_lt [] [] = false
bytes_lt [] (b ∷ bs) = true
bytes_lt (a ∷ as') [] = false
bytes_lt (a ∷ as') (b ∷ bs) =
    let rest = bytes_lt as' bs in if ltb a b then true else if ltb b a then false else rest

pub bytes_eq_iff : (a b : Bytes) → (bytes_eq a b ≡ true) ↔ (a ≡ b)
bytes_eq_iff [] [] = (λ h. refl, λ h. refl)
bytes_eq_iff [] (b ∷ bs) = (λ h. cc, λ h. cc)
bytes_eq_iff (a ∷ as') [] = (λ h. cc, λ h. cc)
bytes_eq_iff (a ∷ as') (b ∷ bs) =
    (λ h. ground (arith, bytes_eq_iff as' bs), λ h. ground (arith, bytes_eq_iff as' bs))

instance abbrev pub bytes_key : Key Bytes
bytes_key = record { beq = bytes_eq; less = bytes_lt; beq_iff = bytes_eq_iff }
