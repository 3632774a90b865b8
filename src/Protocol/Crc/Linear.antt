-- ===== src/Protocol/Crc/Linear.antt =====
-- One bit of the CRC is linear over `^`, and so are all its steps: the tables are powers of it.
use Prim.Native.Nat.{bit_xor}
use native.Mathlib.Nat.{pow-suc, mul_assoc}
use pulse_log.Base.{
  ℕ, zero, suc, ◌+◌, ◌*◌, ◌/◌, ◌%◌, ◌<◌, ◌^◌, ◌≡◌, ◌∙◌, refl, sym, ap, subst, arith, inl, inr,
}
use pulse_log.Base.Xor.{
  bit_cases, half-bit_xor, low-bit_xor, bit_xor-zero, bit_xor-swap, bit_xor-split, bit_xor-lt,
}
use pulse_log.Protocol.Crc.{poly, word, table_bit, table_bits, table}

-- Division by the polynomial, one bit.
abbrev pub chosen : ℕ → ℕ
chosen zero = 0
chosen (suc low) = poly

pub table_bit-chosen : (c : ℕ) → table_bit c ≡ bit_xor (c / 2) (chosen (c % 2))
unfolding table_bit
table_bit-chosen c = elim (bit_cases c) [ inl e ↦ rw e refl | inr e ↦ rw e refl ]

chosen-add : (a b : ℕ) → chosen ((a + b) % 2) ≡ bit_xor (chosen (a % 2)) (chosen (b % 2))
chosen-add a b = elim (bit_cases a) [
  | inl p ↦ elim (bit_cases b) [
    | inl q ↦ rw (p, q, sum 0 (omega (arith, p, q))) refl
    | inr q ↦ rw (p, q, sum 1 (omega (arith, p, q))) refl
  ]
  | inr p ↦ elim (bit_cases b) [
    | inl q ↦ rw (p, q, sum 1 (omega (arith, p, q))) refl
    | inr q ↦ rw (p, q, sum 0 (omega (arith, p, q))) refl
  ]
]
  where
    sum : (n : ℕ) → (a + b) % 2 ≡ n → (a + b) % 2 ≡ n
    sum n h = h

pub table_bit-bit_xor : (a b : ℕ) → table_bit (bit_xor a b) ≡ bit_xor (table_bit a) (table_bit b)
table_bit-bit_xor a b =
    table_bit-chosen (bit_xor a b)
    ∙ ap (λ (t : ℕ). bit_xor t (chosen (bit_xor a b % 2))) (half-bit_xor a b)
    ∙ ap (bit_xor (bit_xor (a / 2) (b / 2))) (ap chosen (low-bit_xor a b) ∙ chosen-add a b)
    ∙ bit_xor-swap (a / 2) (b / 2) (chosen (a % 2)) (chosen (b % 2))
    ∙ sym (
        ap (λ (t : ℕ). bit_xor t (table_bit b)) (table_bit-chosen a)
        ∙ ap (bit_xor (bit_xor (a / 2) (chosen (a % 2)))) (table_bit-chosen b))

table_bit-twice : (c half : ℕ) → c ≡ half * 2 → table_bit c ≡ half
table_bit-twice c half h =
    table_bit-chosen c
    ∙ ap (λ (low : ℕ). bit_xor (c / 2) (chosen low)) even
    ∙ bit_xor-zero (c / 2)
    ∙ halved
  where
    even : c % 2 ≡ 0
    even = omega (arith, h)

    halved : c / 2 ≡ half
    halved = omega (arith, h)

pub table_bits-bit_xor :
    (n a b : ℕ) → table_bits n (bit_xor a b) ≡ bit_xor (table_bits n a) (table_bits n b)
unfolding table_bits
table_bits-bit_xor zero a b = refl
table_bits-bit_xor (suc n) a b =
    ap (table_bits n) (table_bit-bit_xor a b) ∙ table_bits-bit_xor n (table_bit a) (table_bit b)

pub table_bits-add : (m n a : ℕ) → table_bits n (table_bits m a) ≡ table_bits (m + n) a
unfolding table_bits
table_bits-add zero n a = ap (λ (k : ℕ). table_bits k a) zero_sum
  where
    zero_sum : n ≡ 0 + n
    zero_sum = omega arith
table_bits-add (suc m) n a =
    table_bits-add m n (table_bit a) ∙ ap (λ (k : ℕ). table_bits k a) suc_sum
  where
    suc_sum : suc (m + n) ≡ suc m + n
    suc_sum = omega arith

-- Zero bits are only shifted out.
pub table_bits-shift : (n a : ℕ) → table_bits n (a * 2 ^ n) ≡ a
unfolding table_bits
table_bits-shift zero a = omega arith
table_bits-shift (suc n) a =
    ap (table_bits n) (table_bit-twice (a * 2 ^ suc n) (a * 2 ^ n) twice) ∙ table_bits-shift n a
  where
    twice : a * 2 ^ suc n ≡ a * 2 ^ n * 2
    twice = ap (λ (t : ℕ). a * t) (pow-suc 2 n) ∙ sym (mul_assoc a (2 ^ n) 2)

pub table_bits-zero : (n : ℕ) → table_bits n 0 ≡ 0
table_bits-zero n = ap (table_bits n) (omega arith) ∙ table_bits-shift n 0

pub table_bit-lt : (c : ℕ) → c < word → table_bit c < word
table_bit-lt c h =
    subst (λ (t : ℕ). t < word) (sym (table_bit-chosen c))
      (bit_xor-lt 32 (c / 2) (chosen (c % 2)) (omega arith) (chosen-lt (c % 2)))
  where
    chosen-lt : (low : ℕ) → chosen low < word
    chosen-lt zero = omega arith
    chosen-lt (suc low) = omega arith

pub table_bits-lt : (n c : ℕ) → c < word → table_bits n c < word
unfolding table_bits
table_bits-lt zero c h = h
table_bits-lt (suc n) c h = table_bits-lt n (table_bit c) (table_bit-lt c h)

-- A number as its lowest byte and the rest.
pub byte_split : (c : ℕ) → bit_xor (c % 256) (c / 256 * 256) ≡ c
byte_split c = omega (arith, bit_xor-split 8 (c % 256) (c / 256) (omega arith))

pub table_bits-byte :
    (n c : ℕ)
    → table_bits (8 + n) c ≡ bit_xor (table_bits (8 + n) (c % 256)) (table_bits n (c / 256))
table_bits-byte n c =
    ap (table_bits (8 + n)) (sym (byte_split c))
    ∙ table_bits-bit_xor (8 + n) (c % 256) (c / 256 * 256)
    ∙ ap (bit_xor (table_bits (8 + n) (c % 256))) (
        sym (table_bits-add 8 n (c / 256 * 256)) ∙ ap (table_bits n) (table_bits-shift 8 (c / 256)))

table-zero : (i : ℕ) → table 0 i ≡ table_bits 8 i
unfolding table
table-zero i = refl

table-suc : (slice i : ℕ) → table (suc slice) i ≡ table_bits 8 (table slice i)
unfolding table table_bits
table-suc slice i = sym (table_bits-byte 0 (table slice i))

-- Slice k of the tables is k + 1 bytes of division.
pub table-table_bits : (slice i : ℕ) → table slice i ≡ table_bits (8 * suc slice) i
table-table_bits zero i = table-zero i
table-table_bits (suc slice) i =
    table-suc slice i
    ∙ ap (table_bits 8) (table-table_bits slice i)
    ∙ table_bits-add (8 * suc slice) 8 i
    ∙ ap (λ (k : ℕ). table_bits k i) bytes
  where
    bytes : 8 * suc slice + 8 ≡ 8 * suc (suc slice)
    bytes = omega arith
