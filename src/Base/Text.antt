-- ===== src/Base/Text.antt =====
-- Texts of the source, as the list of their bytes, and `std::to_string`.
use Prim.Native.Char.{code}
use Prim.Native.String.{String}
use Prim.Native.Nat.{ℕ, zero, suc, ◌+◌, ◌/◌, ◌%◌}
use mathlib.Core.List.{[], ◌∷◌, ◌++◌}
use pulse_log.Base.Tests.{ltb, if◌then◌else◌}
use pulse_log.Base.Int.{ℤ, pos, negsuc}
use pulse_log.Base.Keys.{Bytes}

-- The texts are ASCII.
unfoldable pub text : String → Bytes
text String.[] = []
text (String.◌∷◌ c s) = code c ∷ text s

-- The decimal digits of `n`, with fuel: a number below 10 ^ fuel has at most `fuel` digits.
unfoldable pub digits : ℕ → ℕ → Bytes
digits zero n = []
digits (suc fuel) n =
    let front = digits fuel (n / 10) in
    if ltb n 10 then (48 + n) ∷ [] else front ++ ((48 + n % 10) ∷ [])

unfoldable pub decimal : ℕ → Bytes
decimal n = digits (suc n) n

-- `std::to_string` of an integer.
abbrev pub to_string : ℤ → Bytes
to_string (pos n) = decimal n
to_string (negsuc n) = text "-" ++ decimal (suc n)
