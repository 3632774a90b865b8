-- ===== src/Protocol/Record.antt =====
-- protocol/record.{h,cc}: the record format. What `AppendRecord` writes to its buffer is a list of bytes.
-- Sums of lengths that a record claims are 64-bit sums, which wrap around.
pub mod Layout
pub mod Parsing
pub mod Iteration
use pulse_log.Base.{
  ℕ, zero, suc, ◌+◌, ◌-◌, ◌*◌, ◌/◌, ◌%◌, Bool, true, false, ◌||◌, ◌&&◌, not, ltb, leb, ◌==◌,
  if◌then◌else◌, Option, none, some, List, [], ◌∷◌, ◌++◌, length, take, drop,
}
use pulse_log.Base.Int.{ℤ}
use pulse_log.Base.Keys.{Bytes}
use pulse_log.Base.Text.{text, decimal}
use pulse_log.Base.Types.{ErrorCode}
use pulse_log.Base.Status.{
  Status, ok_status, error_status, error_is_ok, Result, failed_with, value_of_result,
}
use pulse_log.Protocol.Codec.{
  store_le, load_le, to_signed, to_unsigned, u32_mod, u64_mod, put_groups,
}
use pulse_log.Protocol.Crc.{crc32c}
use pulse_log.Protocol.Frame.{field_at}

abbrev pub record_fixed_prefix : ℕ
record_fixed_prefix = 25

abbrev pub max_record_bytes : ℕ
max_record_bytes = 16777216

-- The key is `none` for `key_is_null`.
pub record RecordView : Type 0 where
  pub offset : ℤ
  pub timestamp : ℤ
  pub attributes : ℕ
  pub key : Option Bytes
  pub value : Bytes

-- `VarUIntSize`: a value of 64 bits has ten groups of seven at most.
unfoldable pub count_groups : ℕ → ℕ → ℕ
count_groups zero v = 0
count_groups (suc fuel) v =
    let more = count_groups fuel (v / 128) in if leb 128 v then suc more else 1

-- `WriteVarUInt`, the loop of `PutVarUInt`.
unfoldable pub write_var_uint : ℕ → Bytes
write_var_uint v = put_groups 10 v

-- `ReadVarUInt`: the value and the bytes after it. `shift` is 0, 7, … 63, and `weight` is 2^shift.
unfoldable pub read_groups : ℕ → ℕ → ℕ → Bytes → Option (ℕ × Bytes)
read_groups zero weight value input = none
read_groups (suc turns) weight value [] = none
read_groups (suc turns) weight value (byte ∷ rest) =
    let next = value + (byte % 128) * weight % u64_mod in
    let more = read_groups turns (weight * 128) next rest in
    if ltb byte 128 then some (next, rest) else more

unfoldable pub read_var_uint : Bytes → Option (ℕ × Bytes)
read_var_uint input = read_groups 10 1 0 input

abbrev pub key_field : Option Bytes → ℕ
key_field none = 0
key_field (some key) = (length key + 1) % u64_mod

abbrev pub key_bytes : Option Bytes → Bytes
key_bytes none = []
key_bytes (some key) = key

-- `EncodedRecordSize`
unfoldable pub encoded_record_size : Option Bytes → Bytes → ℕ
encoded_record_size key value =
    record_fixed_prefix
    + count_groups 10 (key_field key)
    + count_groups 10 (length value)
    + length (key_bytes key)
    + length value

-- What the checksum covers: everything behind it.
unfoldable pub record_body : RecordView → Bytes
record_body r =
    store_le 8 (to_unsigned u64_mod r.offset)
    ++ (store_le 8 (to_unsigned u64_mod r.timestamp)
        ++ ((r.attributes % 256)
            ∷ (write_var_uint (key_field r.key)
                ++ (write_var_uint (length r.value) ++ (key_bytes r.key ++ r.value)))))

-- `AppendRecord`
unfoldable pub append_record : RecordView → Bytes
append_record r =
    store_le 4 ((encoded_record_size r.key r.value - 4) % u32_mod)
    ++ (store_le 4 (crc32c (record_body r)) ++ record_body r)

-- `RewriteRecordOffset` of the bytes of one record.
unfoldable pub rewrite_record_offset : ℤ → Bytes → Bytes
rewrite_record_offset offset bytes =
    let body = store_le 8 (to_unsigned u64_mod offset) ++ drop 16 bytes in
    take 4 bytes ++ (store_le 4 (crc32c body) ++ body)

-- `RewriteRecordHeader`
unfoldable pub rewrite_record_header : ℤ → ℤ → Bytes → Bytes
rewrite_record_header offset timestamp bytes =
    let body =
      store_le 8 (to_unsigned u64_mod offset)
      ++ (store_le 8 (to_unsigned u64_mod timestamp) ++ drop 24 bytes) in
    take 4 bytes ++ (store_le 4 (crc32c body) ++ body)

unfoldable pub peek_record_timestamp : Bytes → ℤ
peek_record_timestamp bytes = to_signed u64_mod (field_at 16 8 bytes)

unfoldable pub peek_record_length : Bytes → ℕ → Option ℕ
peek_record_length input position =
    if ltb (length input) (position + 4) then none else some (field_at 0 4 (drop position input))

abbrev pub out_of_range : {A : Type 0} → Bytes → Result A
out_of_range message = failed_with (error_status ErrorCode.out_of_range message)

abbrev pub corruption : {A : Type 0} → Bytes → Result A
corruption message = failed_with (error_status ErrorCode.corruption message)

-- The key and the value, which start at `cursor` and have to end with the record.
unfoldable pub parse_parts : Bytes → ℕ → ℕ → ℕ → ℕ → ℕ → Result (RecordView × ℕ)
parse_parts input position total cursor key_field value_len =
    let base = drop position input in
    let key_len = if key_field == 0 then 0 else key_field - 1 in
    let record_end = position + total in
    let key_end = (cursor + key_len) % u64_mod in
    let value_end = (cursor + key_len + value_len) % u64_mod in
    if ltb record_end key_end || ltb record_end value_end
    then corruption
        (text "record key/value lengths overflow the record at byte " ++ decimal position)
    else if not (value_end == record_end)
    then corruption (
        text "record has "
        ++ decimal (record_end - value_end)
        ++ text " trailing bytes at byte "
        ++ decimal position)
    else value_of_result (
      record {
        offset = to_signed u64_mod (field_at 8 8 base);
        timestamp = to_signed u64_mod (field_at 16 8 base);
        attributes = field_at 24 1 base;
        key = if key_field == 0 then none else some (take key_len (drop cursor input));
        value = take value_len (drop key_end input);
      },
      record_end,
    )

-- The two varints; `position + 25` is where the first starts.
abbrev pub parse_value_len : Bytes → ℕ → ℕ → ℕ → Option (ℕ × Bytes) → Result (RecordView × ℕ)
parse_value_len input position total key_field none =
    corruption (text "malformed value length varint")
parse_value_len input position total key_field (some (value_len, rest)) =
    parse_parts input position total (length input - length rest) key_field value_len

abbrev pub parse_key_len : Bytes → ℕ → ℕ → Option (ℕ × Bytes) → Result (RecordView × ℕ)
parse_key_len input position total none = corruption (text "malformed key length varint")
parse_key_len input position total (some (key_field, rest)) =
    parse_value_len input position total key_field (read_var_uint rest)

unfoldable pub parse_checked : Bytes → ℕ → Bool → ℕ → Result (RecordView × ℕ)
parse_checked input position verify_crc total =
    let base = drop position input in
    if verify_crc && not (field_at 4 4 base == crc32c (take (total - 8) (drop 8 base)))
    then corruption (text "record checksum mismatch at byte " ++ decimal position)
    else parse_key_len input position total
        (read_var_uint (drop (position + record_fixed_prefix) input))

-- `ParseRecord`: the record at `position` and the position behind it.
unfoldable pub parse_record : Bytes → ℕ → Bool → Result (RecordView × ℕ)
parse_record input position verify_crc =
    let len = field_at 0 4 (drop position input) in
    if ltb (length input) (position + record_fixed_prefix)
    then out_of_range (text "truncated record header at byte " ++ decimal position)
    else if ltb len (record_fixed_prefix - 4)
    then corruption (text "record length " ++ decimal len ++ text " is below the minimum")
    else if ltb max_record_bytes len
    then corruption (text "record length " ++ decimal len ++ text " exceeds the maximum")
    else if ltb (length input) (position + (len + 4))
    then out_of_range (
        text "record at byte "
        ++ decimal position
        ++ text " claims "
        ++ decimal (len + 4)
        ++ text " bytes but only "
        ++ decimal (length input - position)
        ++ text " remain")
    else parse_checked input position verify_crc (len + 4)

pub record RecordIterator : Type 0 where
  pub input : Bytes
  pub verify_crc : Bool
  pub position : ℕ
  pub records_read : ℕ
  pub status : Status

abbrev pub iterate : Bytes → Bool → RecordIterator
iterate input verify_crc = record {
  input = input;
  verify_crc = verify_crc;
  position = 0;
  records_read = 0;
  status = ok_status;
}

abbrev pub advance : Result (RecordView × ℕ) → RecordIterator → Option RecordView × RecordIterator
advance (failed_with status) it = (none, record it { status = status })
advance (value_of_result (r, next)) it =
    (some r, record it { position = next; records_read = it.records_read + 1 })

-- `RecordIterator::Next`, `none` for `false`.
unfoldable pub next_record : RecordIterator → Option RecordView × RecordIterator
next_record it =
    if not (error_is_ok it.status.code) || leb (length it.input) it.position
    then (none, it)
    else advance (parse_record it.input it.position it.verify_crc) it
