-- ===== src/Protocol/Crc/Slices.antt =====
-- The table-driven CRC is the division by the polynomial, one bit at a time.
use Prim.Native.Nat.{bit_xor}
use mathlib.Core.List.{append_assoc}
use pulse_log.Base.{
  ℕ, zero, suc, ◌+◌, ◌*◌, ◌/◌, ◌%◌, ◌≤◌, ◌<◌, ◌^◌, ◌≡◌, ◌∙◌, refl, sym, ap, subst, arith, inl, inr,
  [], ◌∷◌, ◌++◌, length, take, drop, All-take, All-drop, length-take, length-drop, take-append-drop,
  All-append, drop-drop, if◌then◌else◌, ◌==◌,
}
use pulse_log.Base.Keys.{Bytes}
use pulse_log.Base.Xor.{
  bit_cases, bit_xor-zero, bit_xor_comm, bit_xor_assoc, bit_xor-split, bit_xor-lt,
}
use pulse_log.Protocol.Codec.{load_le}
use pulse_log.Protocol.Codec.Fields.{AreBytes, load_le-lt}
use pulse_log.Protocol.Crc.{
  poly, word, complement, table_bit, table_bits, table, block_step, byte_step, byte_loop,
  block_loop, crc32c_from, crc32c,
}
use pulse_log.Protocol.Crc.Linear.{
  table_bit-chosen, table_bits-bit_xor, table_bits-add, table_bits-shift, table_bits-lt, byte_split,
  table_bits-byte, table-table_bits,
}

-- The remainder after one bit, one byte and a list of bytes.
unfoldable pub divide_bit : ℕ → ℕ
divide_bit c = if c % 2 == 0 then c / 2 else bit_xor (c / 2) poly

unfoldable pub divide_bits : ℕ → ℕ → ℕ
divide_bits zero c = c
divide_bits (suc bits) c = divide_bits bits (divide_bit c)

unfoldable pub remainder_of : ℕ → Bytes → ℕ
remainder_of c [] = c
remainder_of c (byte ∷ bytes) = remainder_of (divide_bits 8 (bit_xor c byte)) bytes

table_bit-divide_bit : (c : ℕ) → table_bit c ≡ divide_bit c
unfolding divide_bit
table_bit-divide_bit c =
    table_bit-chosen c
    ∙ elim (bit_cases c) [ inl e ↦ rw e (bit_xor-zero (c / 2)) | inr e ↦ rw e refl ]

pub table_bits-divide_bits : (n c : ℕ) → table_bits n c ≡ divide_bits n c
unfolding table_bits divide_bits
table_bits-divide_bits zero c = refl
table_bits-divide_bits (suc n) c =
    table_bits-divide_bits n (table_bit c) ∙ ap (divide_bits n) (table_bit-divide_bit c)

-- A byte before a word: its eight bits are divided first.
divide_word :
    (n c byte rest : ℕ)
    → byte < 256
    → table_bits (8 + n) (bit_xor c (byte + 256 * rest))
      ≡ table_bits n (bit_xor (table_bits 8 (bit_xor c byte)) rest)
divide_word n c byte rest h =
    ap (table_bits (8 + n)) (ap (bit_xor c) joined ∙ sym (bit_xor_assoc c byte (rest * 256)))
    ∙ sym (table_bits-add 8 n (bit_xor (bit_xor c byte) (rest * 256)))
    ∙ ap (table_bits n) (
        table_bits-bit_xor 8 (bit_xor c byte) (rest * 256)
        ∙ ap (bit_xor (table_bits 8 (bit_xor c byte))) (table_bits-shift 8 rest))
  where
    joined : byte + 256 * rest ≡ bit_xor byte (rest * 256)
    joined = omega (arith, bit_xor-split 8 byte rest h)

-- The bytes of a word in turn are the word at once.
remainder_of-load_le :
    (c : ℕ) (bytes : Bytes)
    → AreBytes bytes
    → remainder_of c bytes ≡ table_bits (8 * length bytes) (bit_xor c (load_le bytes))
unfolding remainder_of load_le
remainder_of-load_le c [] h = unfold table_bits in sym (bit_xor-zero c)
remainder_of-load_le c (b ∷ bs) (hb, h) =
    ap (λ (d : ℕ). remainder_of d bs) (sym (table_bits-divide_bits 8 (bit_xor c b)))
    ∙ remainder_of-load_le (table_bits 8 (bit_xor c b)) bs h
    ∙ sym (divide_word (8 * length bs) c b (load_le bs) hb)
    ∙ ap (λ (k : ℕ). table_bits k (bit_xor c (b + 256 * load_le bs))) longer
  where
    longer : 8 + 8 * length bs ≡ 8 * suc (length bs)
    longer = omega arith

pub remainder_of-append :
    (c : ℕ) (a b : Bytes) → remainder_of c (a ++ b) ≡ remainder_of (remainder_of c a) b
unfolding remainder_of
remainder_of-append c [] b = refl
remainder_of-append c (x ∷ a) b = remainder_of-append (divide_bits 8 (bit_xor c x)) a b

pub remainder_of-lt :
    (c : ℕ) (bytes : Bytes) → AreBytes bytes → c < word → remainder_of c bytes < word
unfolding remainder_of
remainder_of-lt c [] h k = k
remainder_of-lt c (b ∷ bs) (hb, h) k = remainder_of-lt (divide_bits 8 (bit_xor c b)) bs h (
    subst (λ (t : ℕ). t < word) (table_bits-divide_bits 8 (bit_xor c b))
      (table_bits-lt 8 (bit_xor c b) (bit_xor-lt 32 c b k (omega (arith, hb)))))

-- The four bytes of a word through four slices.
slices :
    (n x : ℕ)
    → x < word
    → table_bits (8 + (8 + (8 + (8 + n)))) x
      ≡ bit_xor
          (bit_xor
            (bit_xor
              (table_bits (8 + (8 + (8 + (8 + n)))) (x % 256))
              (table_bits (8 + (8 + (8 + n))) (x / 256 % 256)))
            (table_bits (8 + (8 + n)) (x / 65536 % 256)))
          (table_bits (8 + n) (x / 16777216 % 256))
slices n x h =
    table_bits-byte (8 + (8 + (8 + n))) x
    ∙ ap (bit_xor first) (table_bits-byte (8 + (8 + n)) (x / 256) ∙ ap (bit_xor second) rest)
    ∙ sym (bit_xor_assoc first second (bit_xor third fourth))
    ∙ sym (bit_xor_assoc (bit_xor first second) third fourth)
  where
    first : ℕ
    first = table_bits (8 + (8 + (8 + (8 + n)))) (x % 256)

    second : ℕ
    second = table_bits (8 + (8 + (8 + n))) (x / 256 % 256)

    third : ℕ
    third = table_bits (8 + (8 + n)) (x / 65536 % 256)

    fourth : ℕ
    fourth = table_bits (8 + n) (x / 16777216 % 256)

    two : x / 256 / 256 ≡ x / 65536
    two = omega arith

    three : x / 65536 / 256 ≡ x / 16777216
    three = omega arith

    low : x / 16777216 % 256 ≡ x / 16777216
    low = omega arith

    rest : table_bits (8 + (8 + n)) (x / 256 / 256) ≡ bit_xor third fourth
    rest =
        ap (table_bits (8 + (8 + n))) two
        ∙ table_bits-byte (8 + n) (x / 65536)
        ∙ ap (bit_xor third) (ap (table_bits (8 + n)) (three ∙ sym low))

block_step-table_bits :
    (crc first next : ℕ)
    → crc < word
    → first < word
    → next < word
    → block_step crc first next ≡ bit_xor (table_bits 64 (bit_xor crc first)) (table_bits 32 next)
unfolding block_step
block_step-table_bits crc first next hc hf hn = simp (
  table-table_bits,
  slices 32 (bit_xor crc first) (bit_xor-lt 32 crc first hc hf),
  slices 0 next hn,
  bit_xor_assoc,
)

byte_bits : (x : ℕ) → table_bits 8 x ≡ bit_xor (table_bits 8 (x % 256)) (x / 256)
unfolding table_bits
byte_bits x = table_bits-byte 0 x

byte_step-remainder_of :
    (c byte : ℕ) → byte < 256 → byte_step c byte ≡ divide_bits 8 (bit_xor c byte)
unfolding byte_step
byte_step-remainder_of c byte h =
    ap (bit_xor (table 0 (bit_xor c byte % 256))) shifted
    ∙ ap (λ (t : ℕ). bit_xor t (bit_xor c byte / 256)) (table-table_bits 0 (bit_xor c byte % 256))
    ∙ sym (byte_bits (bit_xor c byte))
    ∙ table_bits-divide_bits 8 (bit_xor c byte)
  where
    apart : bit_xor c byte ≡ bit_xor (c % 256) byte + c / 256 * 256
    apart =
        ap (λ (t : ℕ). bit_xor t byte) (sym (byte_split c))
        ∙ bit_xor_assoc (c % 256) (c / 256 * 256) byte
        ∙ ap (bit_xor (c % 256)) (bit_xor_comm (c / 256 * 256) byte)
        ∙ sym (bit_xor_assoc (c % 256) byte (c / 256 * 256))
        ∙ bit_xor-split 8 (bit_xor (c % 256) byte) (c / 256)
            (bit_xor-lt 8 (c % 256) byte (omega arith) h)

    shifted : c / 256 ≡ bit_xor c byte / 256
    shifted = omega (arith, apart, bit_xor-lt 8 (c % 256) byte (omega arith) h)

byte_loop-remainder_of :
    (c : ℕ) (bytes : Bytes) → AreBytes bytes → byte_loop c bytes ≡ remainder_of c bytes
unfolding byte_loop remainder_of
byte_loop-remainder_of c [] h = refl
byte_loop-remainder_of c (b ∷ bs) (hb, h) =
    ap (λ (d : ℕ). byte_loop d bs) (byte_step-remainder_of c b hb)
    ∙ byte_loop-remainder_of (divide_bits 8 (bit_xor c b)) bs h

word_bytes :
    (bytes : Bytes)
    → AreBytes bytes
    → 4 ≤ length bytes
    → (length (take 4 bytes) ≡ 4) × (load_le (take 4 bytes) < word)
word_bytes bytes h long =
    let four : length (take 4 bytes) ≡ 4 = omega (arith, length-take 4 bytes) in
    (
      four,
      subst (λ (k : ℕ). load_le (take 4 bytes) < 256 ^ k) four
          (load_le-lt (take 4 bytes) (All-take (λ b. b < 256) 4 bytes h)),
    )

divide_block :
    (c : ℕ) (bytes : Bytes)
    → AreBytes bytes
    → 8 ≤ length bytes
    → c < word
    → block_step c (load_le (take 4 bytes)) (load_le (take 4 (drop 4 bytes)))
      ≡ remainder_of c (take 4 bytes ++ take 4 (drop 4 bytes))
divide_block c bytes h long hc =
    block_step-table_bits c (load_le first) (load_le next) hc one.1 two.1 ∙ sym chain
  where
    first : Bytes
    first = take 4 bytes

    next : Bytes
    next = take 4 (drop 4 bytes)

    one : (length first ≡ 4) × (load_le first < word)
    one = word_bytes bytes h (omega arith)

    two : (length next ≡ 4) × (load_le next < word)
    two =
        word_bytes (drop 4 bytes) (All-drop (λ b. b < 256) 4 bytes h)
          (omega (arith, length-drop 4 bytes))

    word_at :
        (d : ℕ) (bs : Bytes)
        → AreBytes bs
        → length bs ≡ 4
        → remainder_of d bs ≡ table_bits 32 (bit_xor d (load_le bs))
    word_at d bs k e =
        remainder_of-load_le d bs k ∙ ap (λ (n : ℕ). table_bits (8 * n) (bit_xor d (load_le bs))) e

    chain :
        remainder_of c (first ++ next)
        ≡ bit_xor (table_bits 64 (bit_xor c (load_le first))) (table_bits 32 (load_le next))
    chain =
        remainder_of-append c first next
        ∙ ap (λ (d : ℕ). remainder_of d next)
            (word_at c first (All-take (λ b. b < 256) 4 bytes h) one.0)
        ∙ word_at (table_bits 32 (bit_xor c (load_le first))) next
            (All-take (λ b. b < 256) 4 (drop 4 bytes) (All-drop (λ b. b < 256) 4 bytes h)) two.0
        ∙ table_bits-bit_xor 32 (table_bits 32 (bit_xor c (load_le first))) (load_le next)
        ∙ ap (λ (t : ℕ). bit_xor t (table_bits 32 (load_le next)))
            (table_bits-add 32 32 (bit_xor c (load_le first)))

block_split : (bytes : Bytes) → (take 4 bytes ++ take 4 (drop 4 bytes)) ++ drop 8 bytes ≡ bytes
block_split bytes =
    append_assoc (take 4 bytes) (take 4 (drop 4 bytes)) (drop 8 bytes)
    ∙ ap (λ (t : Bytes). take 4 bytes ++ t)
        (ap (λ (t : Bytes). take 4 (drop 4 bytes) ++ t) (sym (drop-drop 4 4 8 bytes refl))
          ∙ take-append-drop 4 (drop 4 bytes))
    ∙ take-append-drop 4 bytes

block_loop-remainder_of :
    (blocks c : ℕ) (bytes : Bytes)
    → AreBytes bytes
    → 8 * blocks ≤ length bytes
    → c < word
    → block_loop blocks c bytes ≡ remainder_of c bytes
unfolding block_loop
block_loop-remainder_of zero c bytes h long hc = byte_loop-remainder_of c bytes h
block_loop-remainder_of (suc blocks) c bytes h long hc =
    ap (λ (d : ℕ). block_loop blocks d (drop 8 bytes)) (divide_block c bytes h (omega arith) hc)
    ∙ block_loop-remainder_of blocks (remainder_of c block) (drop 8 bytes)
        (All-drop (λ b. b < 256) 8 bytes h) (omega (arith, length-drop 8 bytes))
        (remainder_of-lt c block
          (All-append (λ b. b < 256) (take 4 bytes) (take 4 (drop 4 bytes))
            (All-take (λ b. b < 256) 4 bytes h)
            (All-take (λ b. b < 256) 4 (drop 4 bytes) (All-drop (λ b. b < 256) 4 bytes h)))
          hc)
    ∙ sym (remainder_of-append c block (drop 8 bytes))
    ∙ ap (remainder_of c) (block_split bytes)
  where
    block : Bytes
    block = take 4 bytes ++ take 4 (drop 4 bytes)

-- The checksum from the tables, eight bytes at a time, is the remainder of the division by the polynomial
-- one bit at a time, with the seed and the result complemented.
pub crc32c_from-remainder_of :
    (seed : ℕ) (bytes : Bytes)
    → AreBytes bytes
    → crc32c_from seed bytes ≡ complement (remainder_of (complement seed) bytes)
unfolding crc32c_from
crc32c_from-remainder_of seed bytes h = ap complement (
    block_loop-remainder_of (length bytes / 8) (complement seed) bytes h (omega arith)
      (omega arith))

-- A checksum that goes on from the checksum of a first part is that of both parts together.
pub crc32c_from-append :
    (seed : ℕ) (a b : Bytes)
    → seed < word
    → AreBytes a
    → AreBytes b
    → crc32c_from (crc32c_from seed a) b ≡ crc32c_from seed (a ++ b)
crc32c_from-append seed a b s ha hb =
    crc32c_from-remainder_of (crc32c_from seed a) b hb
    ∙ ap (λ (c : ℕ). complement (remainder_of c b))
        (ap complement (crc32c_from-remainder_of seed a ha) ∙ back)
    ∙ ap complement (sym (remainder_of-append (complement seed) a b))
    ∙ sym (crc32c_from-remainder_of seed (a ++ b) (All-append (λ b. b < 256) a b ha hb))
  where
    back :
        complement (complement (remainder_of (complement seed) a))
        ≡ remainder_of (complement seed) a
    back = omega (arith, remainder_of-lt (complement seed) a ha (omega arith))

pub crc32c-lt : (bytes : Bytes) → crc32c bytes < word
unfolding crc32c crc32c_from
crc32c-lt bytes = omega arith
