-- ===== src/Protocol/Crc/Damage.antt =====
-- A checksum tells apart texts that differ in one byte.
use Prim.Native.Nat.{bit_xor}
use pulse_log.Base.{
  ℕ, zero, suc, ◌/◌, ◌<◌, ◌≡◌, ◌≢◌, ◌∙◌, refl, sym, ap, subst, arith, inl, inr, [], ◌∷◌, ◌++◌,
  All-append,
}
use pulse_log.Base.Keys.{Bytes}
use pulse_log.Base.Xor.{
  bit_cases, bit_xor-zero, bit_xor_comm, bit_xor-cancel, bit_xor_self, bit_xor-lt,
}
use pulse_log.Protocol.Codec.Fields.{AreBytes}
use pulse_log.Protocol.Crc.{poly, word, complement, table_bit, table_bits, crc32c}
use pulse_log.Protocol.Crc.Linear.{
  chosen, table_bit-chosen, table_bit-lt, table_bits-bit_xor, table_bits-lt,
}
use pulse_log.Protocol.Crc.Slices.{
  remainder_of, divide_bits, table_bits-divide_bits, remainder_of-append, remainder_of-lt,
  crc32c_from-remainder_of,
}

eq_of_bit_xor : (a b : ℕ) → bit_xor a b ≡ 0 → a ≡ b
eq_of_bit_xor a b h = sym (bit_xor-zero a) ∙ ap (bit_xor a) (sym h) ∙ bit_xor-cancel a b

-- Only zero is divided to zero.
table_bit-kernel : (c : ℕ) → c < word → table_bit c ≡ 0 → c ≡ 0
table_bit-kernel c h z = elim (bit_cases c) [
  | inl e ↦ omega (
    arith,
    e,
    eq_of_bit_xor (c / 2) 0
        (ap (λ (low : ℕ). bit_xor (c / 2) (chosen low)) (sym e) ∙ sym (table_bit-chosen c) ∙ z),
  )
  | inr e ↦ absurd (
      omega (
        arith,
        eq_of_bit_xor (c / 2) poly
            (ap (λ (low : ℕ). bit_xor (c / 2) (chosen low)) (sym e) ∙ sym (table_bit-chosen c) ∙ z),
      ))
]

table_bits-kernel : (n c : ℕ) → c < word → table_bits n c ≡ 0 → c ≡ 0
unfolding table_bits
table_bits-kernel zero c h z = z
table_bits-kernel (suc n) c h z =
    table_bit-kernel c h (table_bits-kernel n (table_bit c) (table_bit-lt c h) z)

bit_xor_left : (a b d : ℕ) → bit_xor d a ≡ bit_xor d b → a ≡ b
bit_xor_left a b d h = sym (bit_xor-cancel d a) ∙ ap (bit_xor d) h ∙ bit_xor-cancel d b

bit_xor_right : (a b d : ℕ) → bit_xor a d ≡ bit_xor b d → a ≡ b
bit_xor_right a b d h = bit_xor_left a b d (bit_xor_comm d a ∙ h ∙ bit_xor_comm b d)

divide_bits-injective :
    (n a b : ℕ) → a < word → b < word → divide_bits n a ≡ divide_bits n b → a ≡ b
divide_bits-injective n a b ha hb h =
    eq_of_bit_xor a b (table_bits-kernel n (bit_xor a b) (bit_xor-lt 32 a b ha hb) same)
  where
    equal : table_bits n a ≡ table_bits n b
    equal = table_bits-divide_bits n a ∙ h ∙ sym (table_bits-divide_bits n b)

    same : table_bits n (bit_xor a b) ≡ 0
    same =
        table_bits-bit_xor n a b
        ∙ ap (λ (t : ℕ). bit_xor t (table_bits n b)) equal
        ∙ bit_xor_self (table_bits n b)

divide_bits-lt : (n c : ℕ) → c < word → divide_bits n c < word
divide_bits-lt n c h =
    subst (λ (t : ℕ). t < word) (table_bits-divide_bits n c) (table_bits-lt n c h)

divide_cons :
    (c z : ℕ) (b : Bytes) → remainder_of c (z ∷ b) ≡ remainder_of (divide_bits 8 (bit_xor c z)) b
unfolding remainder_of
divide_cons c z b = refl

crc32c-remainder_of :
    (bytes : Bytes) → AreBytes bytes → crc32c bytes ≡ complement (remainder_of (complement 0) bytes)
unfolding crc32c
crc32c-remainder_of bytes h = crc32c_from-remainder_of 0 bytes h

remainder_of-injective :
    (bytes : Bytes) (a b : ℕ)
    → AreBytes bytes
    → a < word
    → b < word
    → remainder_of a bytes ≡ remainder_of b bytes
    → a ≡ b
unfolding remainder_of
remainder_of-injective [] a b h ha hb e = e
remainder_of-injective (x ∷ xs) a b (hx, h) ha hb e = bit_xor_right a b x (
    divide_bits-injective 8 (bit_xor a x) (bit_xor b x) (mixed a ha) (mixed b hb) (
      remainder_of-injective xs (divide_bits 8 (bit_xor a x)) (divide_bits 8 (bit_xor b x)) h
        (divide_bits-lt 8 (bit_xor a x) (mixed a ha)) (divide_bits-lt 8 (bit_xor b x) (mixed b hb))
        e))
  where
    mixed : (c : ℕ) → c < word → bit_xor c x < word
    mixed c k = bit_xor-lt 32 c x k (omega (arith, hx))

module _ (a b : Bytes) (x y : ℕ) (ha : AreBytes a) (hb : AreBytes b) (hx : x < 256)
    (hy : y < 256) where
  divide_damage :
      (c : ℕ) → c < word → remainder_of c (a ++ (x ∷ b)) ≡ remainder_of c (a ++ (y ∷ b)) → x ≡ y
  divide_damage c hc e = bit_xor_left x y d (
      divide_bits-injective 8 (bit_xor d x) (bit_xor d y) (mixed x hx) (mixed y hy) (
        remainder_of-injective b (divide_bits 8 (bit_xor d x)) (divide_bits 8 (bit_xor d y)) hb
          (divide_bits-lt 8 (bit_xor d x) (mixed x hx))
          (divide_bits-lt 8 (bit_xor d y) (mixed y hy)) (at x ∙ e ∙ sym (at y))))
    where
      d : ℕ
      d = remainder_of c a

      hd : d < word
      hd = remainder_of-lt c a ha hc

      mixed : (z : ℕ) → z < 256 → bit_xor d z < word
      mixed z k = bit_xor-lt 32 d z hd (omega (arith, k))

      at : (z : ℕ) → remainder_of (divide_bits 8 (bit_xor d z)) b ≡ remainder_of c (a ++ (z ∷ b))
      at z = sym (remainder_of-append c a (z ∷ b) ∙ divide_cons d z b)

  -- Texts that differ in one byte have different checksums.
  pub crc32c_damage : x ≢ y → crc32c (a ++ (x ∷ b)) ≢ crc32c (a ++ (y ∷ b))
  crc32c_damage differ same = differ (divide_damage (complement 0) (omega arith) equal)
    where
      checksum :
          (z : ℕ)
          → z < 256
          → crc32c (a ++ (z ∷ b)) ≡ complement (remainder_of (complement 0) (a ++ (z ∷ b)))
      checksum z k =
          crc32c-remainder_of (a ++ (z ∷ b)) (All-append (λ b. b < 256) a (z ∷ b) ha (k, hb))

      below : (z : ℕ) → z < 256 → remainder_of (complement 0) (a ++ (z ∷ b)) < word
      below z k =
          remainder_of-lt (complement 0) (a ++ (z ∷ b))
            (All-append (λ b. b < 256) a (z ∷ b) ha (k, hb)) (omega arith)

      equal :
          remainder_of (complement 0) (a ++ (x ∷ b)) ≡ remainder_of (complement 0) (a ++ (y ∷ b))
      equal = omega (arith, checksum x hx, checksum y hy, same, below x hx, below y hy)
