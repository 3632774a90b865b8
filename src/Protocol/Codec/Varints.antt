-- ===== src/Protocol/Codec/Varints.antt =====
-- A varint of `PutVarUInt` is read back by `GetVarUInt`.
use native.Mathlib.Nat.{pow-suc, mul_assoc, mul_comm, add-mul}
use Prim.Native.Nat.{◌^◌}
use pulse_log.Base.{
  ℕ, zero, suc, ◌+◌, ◌*◌, ◌/◌, ◌%◌, ◌≤◌, ◌<◌, ◌≡◌, sym, ap, subst, ◌∙◌, arith, ltb, leb, true,
  false, some, ◌∷◌, ◌++◌, Bool-cases, inl, inr,
}
use pulse_log.Base.Keys.{Bytes}
use pulse_log.Protocol.Codec.{
  u64_mod, reader, get_u8, put_u8, put_groups, put_var_uint, get_groups, get_var_uint,
}
use pulse_log.Protocol.Codec.Fields.{Reads, get_u8-put_u8}

get_byte : (b : ℕ) (rest : Bytes) → b < 256 → get_u8 (reader (b ∷ rest)) ≡ (some b, reader rest)
unfolding put_u8
get_byte b rest h =
    subst (λ (c : ℕ). get_u8 (reader (c ∷ rest)) ≡ (some b, reader rest)) {x = b % 256} {y = b}
      (omega arith) (get_u8-put_u8 b h rest)

-- The value of a group and of those above it.
weigh : (v weight : ℕ) → v * weight ≡ (v % 128) * weight + (v / 128) * (weight * 128)
weigh v weight =
    let split : v ≡ v % 128 + v / 128 * 128 = omega arith in
    ap (λ (x : ℕ). x * weight) split
    ∙ add-mul (v % 128) (v / 128 * 128) weight
    ∙ ap (λ (x : ℕ). v % 128 * weight + x)
        (mul_assoc (v / 128) 128 weight ∙ ap (λ (x : ℕ). v / 128 * x) (mul_comm 128 weight))

positive : (n x : ℕ) → 0 < x → x < 128 ^ n → 0 < n
positive zero x h k = absurd (omega arith)
positive (suc n) x h k = omega arith

-- A group has the weight of its bits, which no cut to 64 bits changes.
next_value :
    (b low v weight value : ℕ)
    → b % 128 ≡ low
    → low * weight ≤ v * weight
    → value + v * weight < u64_mod
    → value + b % 128 * weight % u64_mod ≡ value + low * weight
next_value b low v weight value e h k = rw e (omega arith)

get_groups-put_groups :
    (n v weight value : ℕ)
    → 0 < n
    → v < 128 ^ n
    → value + v * weight < u64_mod
    → Reads (get_groups n weight value) (put_groups n v) (value + v * weight)
unfolding get_groups put_groups
get_groups-put_groups zero v weight value p h k rest = absurd (omega arith)
get_groups-put_groups (suc n) v weight value p h k rest = elim (Bool-cases (leb 128 v)) [
  | inl e ↦
      let low = v % 128 in
      let high = v / 128 in
      let b = low + 128 in
      let w = weigh v weight in
      let bytes = put_groups n high ++ rest in
      let small : high < 128 ^ n = omega (arith, pow-suc 128 n) in
      let some_left : 0 < high = ground arith in
      let same : value + b % 128 * weight % u64_mod ≡ value + low * weight =
        next_value b low v weight value (omega arith) (omega (arith, w)) k in
      let total : value + low * weight + high * (weight * 128) ≡ value + v * weight =
        omega (arith, w) in
      let fits : value + low * weight + high * (weight * 128) < u64_mod = omega arith in
      let read =
        get_groups-put_groups n high (weight * 128) (value + low * weight)
          (positive n high some_left small) small fits rest in
      let test : ltb b 128 ≡ false = ground arith in
      rw (e, get_byte b bytes (omega arith), test)
        (subst
          (λ (x : ℕ).
            get_groups n (weight * 128) x (reader bytes) ≡ (some (value + v * weight), reader rest))
          (sym same)
          (subst
            (λ (x : ℕ).
              get_groups n (weight * 128) (value + low * weight) (reader bytes)
              ≡ (some x, reader rest))
            total read))
  | inr e ↦
      let test : ltb v 128 ≡ true = ground arith in
      let same : value + v % 128 * weight % u64_mod ≡ value + v * weight =
        next_value v v v weight value (ground arith) (omega arith) k in
      rw (e, get_byte v rest (ground arith), test) (ap (λ (x : ℕ). (some x, reader rest)) same)
]

-- Every 64-bit value is read back from its varint, and the reader then stands at the bytes that
-- follow.
pub get_var_uint-put_var_uint : (v : ℕ) → v < u64_mod → Reads get_var_uint (put_var_uint v) v
unfolding get_var_uint put_var_uint
get_var_uint-put_var_uint v h rest =
    let one : 0 + v * 1 ≡ v = omega arith in
    subst (λ (x : ℕ). get_groups 10 1 0 (reader (put_groups 10 v ++ rest)) ≡ (some x, reader rest))
      one (get_groups-put_groups 10 v 1 0 (omega arith) (omega arith) (omega arith) rest)
