-- ===== src/Protocol/Record/Layout.antt =====
-- The bytes of a record that was appended: their number, and what is rewritten in place.
use pulse_log.Base.{
  ℕ, zero, suc, ◌+◌, ◌*◌, ◌/◌, ◌%◌, ◌<◌, ◌≡◌, ◌∙◌, refl, ap, arith, true, false, ltb, leb, length,
  [], ◌∷◌, ◌++◌, Option, some, none, length-append, Bool-cases, inl, inr,
}
use pulse_log.Base.Int.{ℤ}
use pulse_log.Base.Keys.{Bytes}
use pulse_log.Protocol.Codec.{
  PayloadReader, reader, get_u8, get_block, load_le, store_le, u64_mod, put_groups, get_groups,
  put_var_uint, get_var_uint,
}
use pulse_log.Protocol.Codec.Varints.{get_var_uint-put_var_uint}
use pulse_log.Protocol.Record.{
  RecordView, count_groups, write_var_uint, read_groups, read_var_uint, key_field, key_bytes,
  encoded_record_size, record_body, append_record, rewrite_record_offset, rewrite_record_header,
}

length-put_groups : (fuel v : ℕ) → length (put_groups fuel v) ≡ count_groups fuel v
unfolding put_groups count_groups
length-put_groups zero v = refl
length-put_groups (suc fuel) v = elim (Bool-cases (leb 128 v)) [
  | inl e ↦ rw e (ap suc (length-put_groups fuel (v / 128)))
  | inr e ↦ rw e refl
]

pub length-write_var_uint : (v : ℕ) → length (write_var_uint v) ≡ count_groups 10 v
unfolding write_var_uint
length-write_var_uint v = length-put_groups 10 v

pub length-record_body :
    (r : RecordView) → length (record_body r) + 8 ≡ encoded_record_size r.key r.value
unfolding record_body encoded_record_size store_le
length-record_body r = omega (
  arith,
  length-append (write_var_uint (key_field r.key))
      (write_var_uint (length r.value) ++ (key_bytes r.key ++ r.value)),
  length-append (write_var_uint (length r.value)) (key_bytes r.key ++ r.value),
  length-append (key_bytes r.key) r.value,
  length-write_var_uint (key_field r.key),
  length-write_var_uint (length r.value),
)

-- An appended record takes the bytes that `EncodedRecordSize` reserves for it.
pub length-append_record :
    (r : RecordView) → length (append_record r) ≡ encoded_record_size r.key r.value
unfolding append_record store_le
length-append_record r = omega (arith, length-record_body r)

-- Rewriting the offset of an appended record gives the record appended with that offset.
pub rewrite_record_offset-append_record :
    (offset : ℤ) (r : RecordView)
    → rewrite_record_offset offset (append_record r) ≡ append_record (record r { offset = offset })
unfolding rewrite_record_offset append_record record_body store_le
rewrite_record_offset-append_record offset r = refl

-- Rewriting offset and timestamp gives the record appended with both.
pub rewrite_record_header-append_record :
    (offset timestamp : ℤ) (r : RecordView)
    → rewrite_record_header offset timestamp (append_record r)
      ≡ append_record (record r { offset = offset; timestamp = timestamp })
unfolding rewrite_record_header append_record record_body store_le
rewrite_record_header-append_record offset timestamp r = refl

-- What a read of the codec gives: the value and the bytes behind it.
abbrev bytes_after : Option ℕ × PayloadReader → Option (ℕ × Bytes)
bytes_after (none, r) = none
bytes_after (some v, r) = some (v, r.rest)

get_u8_cons : (b : ℕ) (rest : Bytes) → get_u8 (reader (b ∷ rest)) ≡ (some b, reader rest)
unfolding get_u8 get_block load_le
get_u8_cons b rest =
    let present : ltb (suc (length rest)) 1 ≡ false = ground arith in
    rw present (ap (λ (v : ℕ). (some v, reader rest)) {x = b + 256 * 0} {y = b} (omega arith))

get_u8_nil : get_u8 (reader []) ≡ (none, record { rest = []; failed = true })
unfolding get_u8 get_block
get_u8_nil = refl

read_groups-get_groups :
    (n weight value : ℕ) (input : Bytes)
    → read_groups n weight value input ≡ bytes_after (get_groups n weight value (reader input))
unfolding read_groups get_groups
read_groups-get_groups zero weight value input = refl
read_groups-get_groups (suc n) weight value [] = rw get_u8_nil refl
read_groups-get_groups (suc n) weight value (b ∷ rest) =
    rw (get_u8_cons b rest) (elim (Bool-cases (ltb b 128)) [
      | inl e ↦ rw e refl
      | inr e ↦
          rw e (read_groups-get_groups n (weight * 128) (value + b % 128 * weight % u64_mod) rest)
    ])

-- A length that was written is read back, and the bytes behind it are left.
pub read_var_uint-write_var_uint :
    (v : ℕ) (rest : Bytes) → v < u64_mod → read_var_uint (write_var_uint v ++ rest) ≡ some (v, rest)
unfolding read_var_uint write_var_uint put_var_uint get_var_uint
read_var_uint-write_var_uint v rest h =
    read_groups-get_groups 10 1 0 (put_groups 10 v ++ rest)
    ∙ ap bytes_after (get_var_uint-put_var_uint v h rest)
