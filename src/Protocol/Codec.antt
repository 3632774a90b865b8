-- ===== src/Protocol/Codec.antt =====
-- protocol/codec.h with base/endian.h: the fields of a payload. What a `PayloadWriter` call appends to
-- its buffer is a list of bytes. A `PayloadReader` is the bytes at and after its position.
pub mod Fields
pub mod Varints
pub mod ZigZag
use Prim.Native.Nat.{min}
use pulse_log.Base.{
  ℕ, zero, suc, ◌+◌, ◌-◌, ◌*◌, ◌/◌, ◌%◌, ◌^◌, ◌≡◌, refl, ltb, leb, ◌==◌, if◌then◌else◌, Bool, true,
  false, not, ◌&&◌, Option, none, some, List, [], ◌∷◌, ◌++◌, length, take, drop, is_empty,
}
use pulse_log.Base.Int.{ℤ, pos, negsuc}
use pulse_log.Base.Keys.{Bytes}

-- `StoreLe` and `LoadLe`, for an integer of `n` bytes.
unfoldable pub store_le : ℕ → ℕ → Bytes
store_le zero v = []
store_le (suc n) v = (v % 256) ∷ store_le n (v / 256)

unfoldable pub load_le : Bytes → ℕ
load_le [] = 0
load_le (b ∷ bs) = b + 256 * load_le bs

-- The casts between intN_t and uintN_t, N = 16, 32, 64 given by the modulus 2^N.
unfoldable pub to_unsigned : ℕ → ℤ → ℕ
to_unsigned modulus (pos n) = n % modulus
to_unsigned modulus (negsuc n) = modulus - 1 - n % modulus

unfoldable pub to_signed : ℕ → ℕ → ℤ
to_signed modulus raw = if ltb raw (modulus / 2) then pos raw else negsuc (modulus - 1 - raw)

abbrev pub u16_mod : ℕ
u16_mod = 65536

abbrev pub u32_mod : ℕ
u32_mod = 4294967296

abbrev pub u64_mod : ℕ
u64_mod = 18446744073709551616

unfoldable pub put_u8 : ℕ → Bytes
put_u8 v = (v % 256) ∷ []

unfoldable pub put_u16 : ℕ → Bytes
put_u16 v = store_le 2 v

unfoldable pub put_u32 : ℕ → Bytes
put_u32 v = store_le 4 v

unfoldable pub put_u64 : ℕ → Bytes
put_u64 v = store_le 8 v

unfoldable pub put_i16 : ℤ → Bytes
unfolding put_u16
put_i16 v = put_u16 (to_unsigned u16_mod v)

unfoldable pub put_i32 : ℤ → Bytes
unfolding put_u32
put_i32 v = put_u32 (to_unsigned u32_mod v)

unfoldable pub put_i64 : ℤ → Bytes
unfolding put_u64
put_i64 v = put_u64 (to_unsigned u64_mod v)

unfoldable pub put_bool : Bool → Bytes
unfolding put_u8
put_bool v = put_u8 (if v then 1 else 0)

-- The length is cut to 16 bits, and all of the text is appended.
unfoldable pub put_string : Bytes → Bytes
unfolding put_u16
put_string s = put_u16 (length s % u16_mod) ++ s

unfoldable pub put_bytes : Bytes → Bytes
unfolding put_u32
put_bytes b = put_u32 (length b % u32_mod) ++ b

-- `none` is the null pointer.
unfoldable pub put_nullable_bytes : Option Bytes → Bytes
unfolding put_u32
put_nullable_bytes none = put_u32 0xffffffff
put_nullable_bytes (some b) = put_u32 (length b % u32_mod) ++ b

unfoldable pub put_array_len : ℕ → Bytes
unfolding put_u32
put_array_len n = put_u32 (n % u32_mod)

pub record PayloadReader : Type 0 where
  pub rest : Bytes
  pub failed : Bool

abbrev pub reader : Bytes → PayloadReader
reader bytes = record { rest = bytes; failed = false }

-- A read returns `none` for `false`, and the reader afterwards. In a `do` block the first read that
-- fails ends the decoding, as in `if (!r.Get…(…)) return false;`.
abbrev pub Get {ℓ} : Type ℓ → Type ℓ
Get A = PayloadReader → Option A × PayloadReader

abbrev pub continue {ℓ κ} :
    {A : Type ℓ} {B : Type κ} → (A → Get B) → Option A × PayloadReader → Option B × PayloadReader
continue f (none, r) = (none, r)
continue f (some a, r) = f a r

infixl 5 ◌>>=◌ ◌>>◌
abbrev pub ◌>>=◌ {ℓ κ} : {A : Type ℓ} {B : Type κ} → Get A → (A → Get B) → Get B
◌>>=◌ m f r = continue f (m r)

abbrev pub pure {ℓ} : {A : Type ℓ} → A → Get A
pure a r = (some a, r)

-- `return false` with the reader as it is.
abbrev pub refuse {ℓ} : {A : Type ℓ} → Get A
refuse r = (none, r)

abbrev pub guard : Bool → Get (Unit {0})
guard true = pure tt
guard false = refuse

abbrev pub ◌>>◌ {ℓ} : {B : Type ℓ} → Get (Unit {0}) → Get B → Get B
m >> k = m >>= λ _. k

-- `Fail()`: the position stays.
abbrev pub fail {ℓ} : {A : Type ℓ} → Get A
fail r = (none, record r { failed = true })

-- The next `n` bytes, if that many remain.
unfoldable pub get_block : ℕ → Get Bytes
get_block n r =
    if ltb (length r.rest) n
    then fail r
    else (some (take n r.rest), record r { rest = drop n r.rest })

unfoldable pub get_u8 : Get ℕ
unfolding get_block load_le
get_u8 = do block ← get_block 1; pure (load_le block)

unfoldable pub get_u16 : Get ℕ
unfolding get_block load_le
get_u16 = do block ← get_block 2; pure (load_le block)

unfoldable pub get_u32 : Get ℕ
unfolding get_block load_le
get_u32 = do block ← get_block 4; pure (load_le block)

unfoldable pub get_u64 : Get ℕ
unfolding get_block load_le
get_u64 = do block ← get_block 8; pure (load_le block)

unfoldable pub get_i16 : Get ℤ
unfolding get_u16 to_signed
get_i16 = do raw ← get_u16; pure (to_signed u16_mod raw)

unfoldable pub get_i32 : Get ℤ
unfolding get_u32 to_signed
get_i32 = do raw ← get_u32; pure (to_signed u32_mod raw)

unfoldable pub get_i64 : Get ℤ
unfolding get_u64 to_signed
get_i64 = do raw ← get_u64; pure (to_signed u64_mod raw)

unfoldable pub get_bool : Get Bool
unfolding get_u8
get_bool = do raw ← get_u8; pure (not (raw == 0))

-- `GetStringView` and `GetString`.
unfoldable pub get_string : Get Bytes
unfolding get_u16 get_block
get_string = do len ← get_u16; get_block len

-- A null is read as the empty span.
unfoldable pub get_bytes : Get Bytes
unfolding get_u32 get_block
get_bytes = do len ← get_u32; if len == 0xffffffff then pure [] else get_block len

unfoldable pub get_array_len : ℕ → Get ℕ
unfolding get_u32
get_array_len max_elements = do count ← get_u32; if ltb max_elements count then fail else pure count

unfoldable pub get_remaining : Get Bytes
get_remaining r = (some r.rest, record r { rest = [] })

unfoldable pub skip : ℕ → Get (Unit {0})
unfolding get_block
skip n = do block ← get_block n; pure tt

abbrev pub remaining : PayloadReader → ℕ
remaining r = length r.rest

unfoldable pub is_complete : PayloadReader → Bool
is_complete r = not r.failed && remaining r == 0

-- The loop of `PutVarUInt`. A value of 64 bits has ten groups of seven at most.
unfoldable pub put_groups : ℕ → ℕ → Bytes
put_groups zero v = []
put_groups (suc fuel) v =
    let more = put_groups fuel (v / 128) in if leb 128 v then (v % 128 + 128) ∷ more else v ∷ []

unfoldable pub put_var_uint : ℕ → Bytes
put_var_uint v = put_groups 10 v

-- The loop of `GetVarUInt`, whose `shift` is 0, 7, … 63: `weight` is 2^shift. The bits of a group and
-- of `value` are different ones, so `|` adds them.
unfoldable pub get_groups : ℕ → ℕ → ℕ → Get ℕ
get_groups zero weight value = fail
get_groups (suc turns) weight value =
    let next = λ (byte : ℕ). value + (byte % 128) * weight % u64_mod in
    let more = λ (byte : ℕ). get_groups turns (weight * 128) (next byte) in
    do byte ← get_u8; (if ltb byte 128 then pure (next byte) else more byte)

unfoldable pub get_var_uint : Get ℕ
get_var_uint = get_groups 10 1 0
