-- ===== src/Storage/TimeIndex.antt =====
-- storage/offset_index.{h,cc}: the timestamp index of a segment, `TimeIndex`. The status that the file
-- gives to a write is an argument, as in the offset index.
pub mod Order
use pulse_log.Base.{
  ℕ, zero, suc, ◌/◌, Bool, ◌&&◌, ◌||◌, not, if◌then◌else◌, Option, none, some, List, [], ◌∷◌, ◌++◌,
  length, take, drop, get_elem?, is_empty,
}
use pulse_log.Base.Int.{ℤ, pos, negsuc, ◌+ℤ◌, ◌-ℤ◌, ltb_ℤ, leb_ℤ}
use pulse_log.Base.Keys.{Bytes}
use pulse_log.Base.Search.{partition_point}
use pulse_log.Base.Text.{text}
use pulse_log.Base.Status.{Status, ok_status, error_is_ok}
use pulse_log.Protocol.Codec.{store_le, load_le, to_signed, to_unsigned, u64_mod}
use pulse_log.Storage.Index.{back, to_number, uint32_max, invalid_argument}

pub record TimeIndexEntry : Type 0 where
  pub timestamp : ℤ
  pub relative_offset : ℕ

pub record TimeIndex : Type 0 where
  pub base_offset : ℤ
  pub entries : List TimeIndexEntry

unfoldable pub encode_time_entry : TimeIndexEntry → Bytes
encode_time_entry e = store_le 8 (to_unsigned u64_mod e.timestamp) ++ store_le 4 e.relative_offset

unfoldable pub decode_time_entry : Bytes → TimeIndexEntry
decode_time_entry raw = record {
  timestamp = to_signed u64_mod (load_le (take 8 raw));
  relative_offset = load_le (take 4 (drop 8 raw));
}

-- The loop of `Open` over the whole entries of the file.
unfoldable pub load_time_entries : ℕ → ℤ → Bytes → List TimeIndexEntry
load_time_entries zero previous raw = []
load_time_entries (suc count) previous raw =
    let entry = decode_time_entry raw in
    let more = load_time_entries count entry.timestamp (drop 12 raw) in
    if ltb_ℤ entry.timestamp previous then [] else entry ∷ more

unfoldable pub open_time_index : ℤ → Bytes → TimeIndex
open_time_index base_offset file = record {
  base_offset = base_offset;
  entries = load_time_entries (length file / 12) (negsuc 0) file;
}

-- The timestamp is below that of `entries_.back()`.
abbrev pub regresses : ℤ → Option TimeIndexEntry → Bool
regresses timestamp none = Bool.false
regresses timestamp (some last) = ltb_ℤ timestamp last.timestamp

unfoldable pub append_time_entry : Status → TimeIndexEntry → TimeIndex → Status × TimeIndex
append_time_entry written entry index =
    if error_is_ok written.code
    then (ok_status, record index { entries = index.entries ++ (entry ∷ []) })
    else (written, index)

-- `TimeIndex::Append`
unfoldable pub time_append : Status → ℤ → ℤ → TimeIndex → Status × TimeIndex
time_append written timestamp offset index =
    let relative = offset -ℤ index.base_offset in
    if regresses timestamp (back index.entries)
    then (ok_status, index)
    else if ltb_ℤ relative (pos 0) || ltb_ℤ (pos uint32_max) relative
    then (invalid_argument (text "offset outside segment for time index"), index)
    else append_time_entry written
        (record { timestamp = timestamp; relative_offset = to_number relative }) index

abbrev pub found_offset : ℤ → Option TimeIndexEntry → Option ℤ
found_offset base_offset none = none
found_offset base_offset (some e) = some (base_offset +ℤ pos e.relative_offset)

-- `LookupCeiling`
unfoldable pub lookup_ceiling : ℤ → TimeIndex → Option ℤ
lookup_ceiling timestamp index =
    if is_empty index.entries
    then none
    else found_offset index.base_offset
        (get_elem? index.entries (partition_point (λ e. ltb_ℤ e.timestamp timestamp) index.entries))

-- `TimeIndex::TruncateFrom`
unfoldable pub time_truncate : ℤ → TimeIndex → TimeIndex
time_truncate offset index =
    let relative = offset -ℤ index.base_offset in
    record index {
      entries =
          take (partition_point (λ e. ltb_ℤ (pos e.relative_offset) relative) index.entries)
            index.entries;
    }
