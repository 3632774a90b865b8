-- ===== src/Protocol/Codec/Fields.antt =====
-- A field that is read back is the field that was written, and the reader stands behind it.
use native.Mathlib.Nat.{pow-suc}
use Prim.Native.Nat.{◌^◌}
use pulse_log.Base.{
  ℕ, zero, suc, All, [], ◌∷◌, ◌/◌, ◌%◌, ◌≤◌, ◌<◌, ◌≡◌, refl, ap, arith, Bool, true, false, some,
  ◌++◌, length, subst, take, drop, length-take, take-append-drop, length-append, take-append,
  drop-append,
}
use pulse_log.Base.Int.{ℤ, pos, negsuc}
use pulse_log.Base.Keys.{Bytes}
use mathlib.Core.List.{append_assoc}
use pulse_log.Protocol.Codec.{
  store_le, load_le, to_unsigned, to_signed, u16_mod, u32_mod, u64_mod, put_u8, put_u16, put_u32,
  put_u64, put_i16, put_i32, put_i64, put_bool, put_string, put_array_len, reader, Get, continue,
  pure, get_block, get_u8, get_u16, get_u32, get_u64, get_i16, get_i32, get_i64, get_bool,
  get_string, get_array_len,
}

pub length-store_le : (n v : ℕ) → length (store_le n v) ≡ n
unfolding store_le
length-store_le zero v = refl
length-store_le (suc n) v = ap suc (length-store_le n (v / 256))

pub load_le-store_le : (n v : ℕ) → v < 256 ^ n → load_le (store_le n v) ≡ v
unfolding store_le load_le
load_le-store_le zero v h = omega arith
load_le-store_le (suc n) v h =
    let smaller : v / 256 < 256 ^ n = omega (arith, pow-suc 256 n) in
    omega (arith, load_le-store_le n (v / 256) smaller)

abbrev pub AreBytes : Bytes → Type 0
AreBytes = All (λ b. b < 256)

pub load_le-lt : (raw : Bytes) → AreBytes raw → load_le raw < 256 ^ length raw
unfolding load_le
load_le-lt [] h = omega arith
load_le-lt (b ∷ bs) h = omega (arith, load_le-lt bs h.1, pow-suc 256 (length bs))

pub get_block_lem :
    (n : ℕ) (b rest : Bytes)
    → length b ≡ n
    → get_block n (reader (b ++ rest)) ≡ (some b, reader rest)
unfolding get_block
get_block_lem n b rest h =
    rw (← h) (ground (arith, length-append b rest, take-append b rest, drop-append b rest))

-- What `get` reads of the bytes `b`.
abbrev pub Reads : {A : Type 0} → Get A → Bytes → A → Type 0
Reads get b a = (rest : Bytes) → get (reader (b ++ rest)) ≡ (some a, reader rest)

get_le :
    (n v : ℕ) (rest : Bytes)
    → v < 256 ^ n
    → continue (λ block. pure (load_le block)) (get_block n (reader (store_le n v ++ rest)))
      ≡ (some v, reader rest)
get_le n v rest h =
    rw (get_block_lem n (store_le n v) rest (length-store_le n v))
      (ap (λ (w : ℕ). (some w, reader rest)) (load_le-store_le n v h))

pub get_u8-put_u8 : (v : ℕ) → v < 256 → Reads get_u8 (put_u8 v) v
unfolding get_u8 put_u8 store_le
get_u8-put_u8 v h rest = get_le 1 v rest h

pub get_u16-put_u16 : (v : ℕ) → v < u16_mod → Reads get_u16 (put_u16 v) v
unfolding get_u16 put_u16
get_u16-put_u16 v h rest = get_le 2 v rest h

pub get_u32-put_u32 : (v : ℕ) → v < u32_mod → Reads get_u32 (put_u32 v) v
unfolding get_u32 put_u32
get_u32-put_u32 v h rest = get_le 4 v rest h

pub get_u64-put_u64 : (v : ℕ) → v < u64_mod → Reads get_u64 (put_u64 v) v
unfolding get_u64 put_u64
get_u64-put_u64 v h rest = get_le 8 v rest h

-- The range of intN_t, by the modulus 2^N.
abbrev pub FitsSigned : ℕ → ℤ → Type 0
FitsSigned modulus (pos n) = n < modulus / 2
FitsSigned modulus (negsuc n) = n < modulus / 2

pub to_unsigned-lt : (modulus : ℕ) (v : ℤ) → 0 < modulus → to_unsigned modulus v < modulus
unfolding to_unsigned
to_unsigned-lt modulus (pos n) h = omega arith
to_unsigned-lt modulus (negsuc n) h = omega arith

to_signed-to_unsigned_16 :
    (v : ℤ) → FitsSigned u16_mod v → to_signed u16_mod (to_unsigned u16_mod v) ≡ v
unfolding to_signed to_unsigned
to_signed-to_unsigned_16 (pos n) h = ground arith
to_signed-to_unsigned_16 (negsuc n) h = ground arith

to_signed-to_unsigned_32 :
    (v : ℤ) → FitsSigned u32_mod v → to_signed u32_mod (to_unsigned u32_mod v) ≡ v
unfolding to_signed to_unsigned
to_signed-to_unsigned_32 (pos n) h = ground arith
to_signed-to_unsigned_32 (negsuc n) h = ground arith

pub to_signed-to_unsigned_64 :
    (v : ℤ) → FitsSigned u64_mod v → to_signed u64_mod (to_unsigned u64_mod v) ≡ v
unfolding to_signed to_unsigned
to_signed-to_unsigned_64 (pos n) h = ground arith
to_signed-to_unsigned_64 (negsuc n) h = ground arith

pub get_i32-put_i32 : (v : ℤ) → FitsSigned u32_mod v → Reads get_i32 (put_i32 v) v
unfolding get_i32 put_i32
get_i32-put_i32 v h rest =
    rw (get_u32-put_u32 (to_unsigned u32_mod v) (to_unsigned-lt u32_mod v (omega arith)) rest)
      (ap (λ (w : ℤ). (some w, reader rest)) (to_signed-to_unsigned_32 v h))

pub get_i64-put_i64 : (v : ℤ) → FitsSigned u64_mod v → Reads get_i64 (put_i64 v) v
unfolding get_i64 put_i64
get_i64-put_i64 v h rest =
    rw (get_u64-put_u64 (to_unsigned u64_mod v) (to_unsigned-lt u64_mod v (omega arith)) rest)
      (ap (λ (w : ℤ). (some w, reader rest)) (to_signed-to_unsigned_64 v h))

pub get_i16-put_i16 : (v : ℤ) → FitsSigned u16_mod v → Reads get_i16 (put_i16 v) v
unfolding get_i16 put_i16
get_i16-put_i16 v h rest =
    rw (get_u16-put_u16 (to_unsigned u16_mod v) (to_unsigned-lt u16_mod v (omega arith)) rest)
      (ap (λ (w : ℤ). (some w, reader rest)) (to_signed-to_unsigned_16 v h))

pub get_bool-put_bool : (v : Bool) → Reads get_bool (put_bool v) v
unfolding get_bool put_bool
get_bool-put_bool true rest = rw (get_u8-put_u8 1 (omega arith) rest)
get_bool-put_bool false rest = rw (get_u8-put_u8 0 (omega arith) rest)

pub get_string-put_string : (s : Bytes) → length s < u16_mod → Reads get_string (put_string s) s
unfolding get_string put_string
get_string-put_string s h rest =
    let same : length s % u16_mod ≡ length s = omega arith in
    rw (same, append_assoc (put_u16 (length s)) s rest, get_u16-put_u16 (length s) h (s ++ rest))
      (get_block_lem (length s) s rest refl)

pub get_array_len-put_array_len :
    (n budget : ℕ) → n < u32_mod → n ≤ budget → Reads (get_array_len budget) (put_array_len n) n
unfolding get_array_len put_array_len
get_array_len-put_array_len n budget h fits rest =
    let same : n % u32_mod ≡ n = omega arith in rw (same, get_u32-put_u32 n h rest) (ground arith)

-- What is read back of any text: its first `size % 65536` bytes. The others stand before what
-- follows, where the next field is read.
pub get_string-put_string_any :
    (s rest : Bytes)
    → get_string (reader (put_string s ++ rest))
      ≡ (some (take (length s % u16_mod) s), reader (drop (length s % u16_mod) s ++ rest))
unfolding get_string put_string
get_string-put_string_any s rest =
    let k = length s % u16_mod in
    let short : length (take k s) ≡ k = omega (arith, length-take k s) in
    rw (append_assoc (put_u16 k) s rest, get_u16-put_u16 k (omega arith) (s ++ rest))
      (subst (λ (t : Bytes). get_block k (reader t) ≡ (some (take k s), reader (drop k s ++ rest)))
        (rebuild k) (get_block_lem k (take k s) (drop k s ++ rest) short))
  where
    rebuild : (k : ℕ) → take k s ++ (drop k s ++ rest) ≡ s ++ rest
    rebuild k = rw (← append_assoc (take k s) (drop k s) rest, take-append-drop k s)
