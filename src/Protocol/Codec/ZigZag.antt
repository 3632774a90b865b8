-- ===== src/Protocol/Codec/ZigZag.antt =====
-- base/endian.h: the zig-zag transform, and codec.h: the signed varints on top of it.
use native.Mathlib.Nat.{pow-suc}
use Prim.Native.Nat.{◌^◌, bit_xor}
use pulse_log.Base.{ℕ, zero, suc, ◌+◌, ◌-◌, ◌*◌, ◌/◌, ◌%◌, ◌<◌, ◌≡◌, ap, ◌∙◌, arith, some}
use pulse_log.Base.Int.{ℤ, pos, negsuc}
use pulse_log.Base.Keys.{Bytes}
use pulse_log.Base.Xor.{half-bit_xor, low-bit_xor, bit_xor-zero}
use pulse_log.Protocol.Codec.{
  u64_mod, to_unsigned, to_signed, reader, Get, ◌>>=◌, pure, put_var_uint, get_var_uint,
}
use pulse_log.Protocol.Codec.Fields.{Reads, FitsSigned}
use pulse_log.Protocol.Codec.Varints.{get_var_uint-put_var_uint}

-- `v >> 63`: the sign in every bit.
unfoldable pub sign_mask : ℤ → ℕ
sign_mask (pos n) = 0
sign_mask (negsuc n) = u64_mod - 1

-- `ZigZagEncode`
unfoldable pub zig_zag_encode : ℤ → ℕ
zig_zag_encode v = bit_xor (to_unsigned u64_mod v * 2 % u64_mod) (sign_mask v)

-- `ZigZagDecode`: the lowest bit, taken as a mask.
unfoldable pub zig_zag_decode : ℕ → ℤ
zig_zag_decode v = to_signed u64_mod (bit_xor (v / 2) ((u64_mod - 1 - v % 2 + 1) % u64_mod))

unfoldable pub put_var_int : ℤ → Bytes
put_var_int v = put_var_uint (zig_zag_encode v)

unfoldable pub get_var_int : Get ℤ
get_var_int = do raw ← get_var_uint; pure (zig_zag_decode raw)

bit_xor-ones : (n x : ℕ) → x < 2 ^ n → bit_xor x (2 ^ n - 1) ≡ 2 ^ n - 1 - x
bit_xor-ones zero zero h = bit_xor-zero 0
bit_xor-ones zero (suc x) h = absurd (omega arith)
bit_xor-ones (suc n) x h =
    let p = pow-suc 2 n in
    let half : (2 ^ suc n - 1) / 2 ≡ 2 ^ n - 1 = omega (arith, p) in
    omega (
      arith,
      p,
      half-bit_xor x (2 ^ suc n - 1),
      low-bit_xor x (2 ^ suc n - 1),
      ap (bit_xor (x / 2)) half,
      bit_xor-ones n (x / 2) (omega (arith, p)),
    )

flip : (x : ℕ) → x < u64_mod → bit_xor x (u64_mod - 1) ≡ u64_mod - 1 - x
flip x h = bit_xor-ones 64 x h

zig_zag_encode-pos : (n : ℕ) → n < u64_mod / 2 → zig_zag_encode (pos n) ≡ n * 2
unfolding zig_zag_encode sign_mask to_unsigned
zig_zag_encode-pos n h = bit_xor-zero (n % u64_mod * 2 % u64_mod) ∙ omega arith

zig_zag_encode-negsuc : (n : ℕ) → n < u64_mod / 2 → zig_zag_encode (negsuc n) ≡ n * 2 + 1
unfolding zig_zag_encode sign_mask to_unsigned
zig_zag_encode-negsuc n h =
    omega (arith, flip ((u64_mod - 1 - n % u64_mod) * 2 % u64_mod) (omega arith))

zig_zag_decode-even : (n : ℕ) → n < u64_mod / 2 → zig_zag_decode (n * 2) ≡ pos n
unfolding zig_zag_decode to_signed
zig_zag_decode-even n h =
    let same : bit_xor (n * 2 / 2) ((u64_mod - 1 - n * 2 % 2 + 1) % u64_mod) ≡ n =
      ap (bit_xor (n * 2 / 2)) (omega arith) ∙ bit_xor-zero (n * 2 / 2) ∙ omega arith in
    rw same (ground arith)

zig_zag_decode-odd : (n : ℕ) → n < u64_mod / 2 → zig_zag_decode (n * 2 + 1) ≡ negsuc n
unfolding zig_zag_decode to_signed
zig_zag_decode-odd n h =
    let flipped : bit_xor ((n * 2 + 1) / 2) ((u64_mod - 1 - (n * 2 + 1) % 2 + 1) % u64_mod)
        ≡ u64_mod - 1 - n =
      ap (bit_xor ((n * 2 + 1) / 2)) (omega arith)
      ∙ ap (λ (x : ℕ). bit_xor x (u64_mod - 1)) {x = (n * 2 + 1) / 2} {y = n} (omega arith)
      ∙ flip n (omega arith) in
    rw flipped (ground arith)

zig_zag_encode-lt : (v : ℤ) → FitsSigned u64_mod v → zig_zag_encode v < u64_mod
zig_zag_encode-lt (pos n) h = omega (arith, zig_zag_encode-pos n h)
zig_zag_encode-lt (negsuc n) h = omega (arith, zig_zag_encode-negsuc n h)

zig_zag_decode-zig_zag_encode :
    (v : ℤ) → FitsSigned u64_mod v → zig_zag_decode (zig_zag_encode v) ≡ v
zig_zag_decode-zig_zag_encode (pos n) h =
    ap zig_zag_decode (zig_zag_encode-pos n h) ∙ zig_zag_decode-even n h
zig_zag_decode-zig_zag_encode (negsuc n) h =
    ap zig_zag_decode (zig_zag_encode-negsuc n h) ∙ zig_zag_decode-odd n h

-- Every signed 64-bit value is read back from its zig-zag varint, and the reader then stands at the
-- bytes that follow.
pub get_var_int-put_var_int : (v : ℤ) → FitsSigned u64_mod v → Reads get_var_int (put_var_int v) v
unfolding get_var_int put_var_int
get_var_int-put_var_int v h rest =
    rw (get_var_uint-put_var_uint (zig_zag_encode v) (zig_zag_encode-lt v h) rest)
      (ap (λ (w : ℤ). (some w, reader rest)) (zig_zag_decode-zig_zag_encode v h))
