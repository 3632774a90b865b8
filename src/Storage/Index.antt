-- ===== src/Storage/Index.antt =====
-- storage/offset_index.{h,cc}: the sparse offset and timestamp indexes of a segment. The file of an
-- index holds the bytes of its entries; the status that the file gives to a write is an argument.
pub mod Order
pub mod Lookup
use pulse_log.Base.{
  ℕ, zero, suc, ◌+◌, ◌-◌, ◌*◌, ◌/◌, ◌≡◌, Bool, true, false, ◌&&◌, ◌||◌, not, if◌then◌else◌, ltb,
  leb, ◌==◌, Option, none, some, List, [], ◌∷◌, ◌++◌, length, take, drop, get_elem?, is_empty,
}
use pulse_log.Base.Int.{ℤ, pos, negsuc, ◌+ℤ◌, ◌-ℤ◌, ltb_ℤ, leb_ℤ}
use pulse_log.Base.Keys.{Bytes}
use pulse_log.Base.Search.{partition_point}
use pulse_log.Base.Text.{text, to_string, decimal}
use pulse_log.Base.Types.{ErrorCode}
use pulse_log.Base.Status.{Status, ok_status, error_status, error_is_ok}
use pulse_log.Protocol.Codec.{store_le, load_le, to_signed, to_unsigned, u64_mod}

pub record OffsetIndexEntry : Type 0 where
  pub relative_offset : ℕ
  pub file_position : ℕ

pub record OffsetIndex : Type 0 where
  pub base_offset : ℤ
  pub entries : List OffsetIndexEntry

abbrev pub uint32_max : ℕ
uint32_max = 4294967295

-- The last entry, `entries_.back()`.
unfoldable pub back {ℓ} : {A : Type ℓ} → List A → Option A
back [] = none
back (x ∷ xs) = if is_empty xs then some x else back xs

unfoldable pub encode_entry : OffsetIndexEntry → Bytes
encode_entry e = store_le 4 e.relative_offset ++ store_le 4 e.file_position

unfoldable pub decode_entry : Bytes → OffsetIndexEntry
decode_entry raw = record {
  relative_offset = load_le (take 4 raw);
  file_position = load_le (take 4 (drop 4 raw));
}

-- The loop of `Open` over the whole entries of the file.
unfoldable pub load_entries : ℕ → ℤ → Bytes → List OffsetIndexEntry
load_entries zero previous raw = []
load_entries (suc count) previous raw =
    let entry = decode_entry raw in
    let more = load_entries count (pos entry.relative_offset) (drop 8 raw) in
    if leb_ℤ (pos entry.relative_offset) previous then [] else entry ∷ more

-- `Open` of a file with these bytes. What it drops, it also truncates from the file.
unfoldable pub open_index : ℤ → Bytes → OffsetIndex
open_index base_offset file = record {
  base_offset = base_offset;
  entries = load_entries (length file / 8) (negsuc 0) file;
}

unfoldable pub append_entry : Status → OffsetIndexEntry → OffsetIndex → Status × OffsetIndex
append_entry written entry index =
    if error_is_ok written.code
    then (ok_status, record index { entries = index.entries ++ (entry ∷ []) })
    else (written, index)

-- The number of a relative offset that is not negative.
abbrev pub to_number : ℤ → ℕ
to_number (pos n) = n
to_number (negsuc n) = 0

abbrev pub follows_back : ℕ → Option OffsetIndexEntry → Bool
follows_back relative none = true
follows_back relative (some last) = ltb last.relative_offset relative

abbrev pub invalid_argument : Bytes → Status
invalid_argument message = error_status ErrorCode.invalid_argument message

-- `OffsetIndex::Append`
unfoldable pub index_append : Status → ℤ → ℕ → OffsetIndex → Status × OffsetIndex
index_append written offset position index =
    let relative = offset -ℤ index.base_offset in
    if ltb_ℤ relative (pos 0) || ltb_ℤ (pos uint32_max) relative
    then (
      invalid_argument (
          text "offset "
          ++ to_string offset
          ++ text " is outside segment based at "
          ++ to_string index.base_offset),
      index,
    )
    else if ltb uint32_max position
    then (
      invalid_argument
          (text "segment position " ++ decimal position ++ text " exceeds the 4 GiB segment limit"),
      index,
    )
    else if not (follows_back (to_number relative) (back index.entries))
    then (invalid_argument (text "index entries must strictly increase"), index)
    else append_entry written
        (record { relative_offset = to_number relative; file_position = position }) index

-- `*(it - 1)`, or nothing at the beginning.
abbrev pub before : {A : Type 0} → List A → ℕ → Option A
before entries zero = none
before entries (suc i) = get_elem? entries i

-- `LookupFloor`
unfoldable pub lookup_floor : ℤ → OffsetIndex → Option OffsetIndexEntry
lookup_floor target index =
    if is_empty index.entries || ltb_ℤ target index.base_offset
    then none
    else let relative = target -ℤ index.base_offset in
      if ltb_ℤ (pos uint32_max) relative
      then back index.entries
      else before index.entries
          (partition_point (λ e. leb e.relative_offset (to_number relative)) index.entries)

-- `OffsetIndex::TruncateFrom`
unfoldable pub index_truncate : ℤ → OffsetIndex → OffsetIndex
index_truncate offset index =
    let relative = offset -ℤ index.base_offset in
    record index {
      entries =
          take (partition_point (λ e. ltb_ℤ (pos e.relative_offset) relative) index.entries)
            index.entries;
    }

-- `LastIndexedPosition` and `LastIndexedOffset`
abbrev pub position_of : Option OffsetIndexEntry → ℕ
position_of none = 0
position_of (some e) = e.file_position

abbrev pub offset_of : ℤ → Option OffsetIndexEntry → ℤ
offset_of base_offset none = base_offset
offset_of base_offset (some e) = base_offset +ℤ pos e.relative_offset

unfoldable pub last_indexed_position : OffsetIndex → ℕ
last_indexed_position index = position_of (back index.entries)

unfoldable pub last_indexed_offset : OffsetIndex → ℤ
last_indexed_offset index = offset_of index.base_offset (back index.entries)
