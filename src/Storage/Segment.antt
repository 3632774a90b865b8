-- ===== src/Storage/Segment.antt =====
-- storage/segment.{h,cc}: a segment as its two indexes and its counters; the bytes of its file are not
-- kept. What its files answer is an argument.
use pulse_log.Base.{ℕ, ◌+◌, ◌-◌, ◌||◌, leb, ◌==◌, if◌then◌else◌, Option, [], is_empty}
use pulse_log.Base.Int.{ℤ, pos, negsuc, ◌+ℤ◌, max_ℤ}
use pulse_log.Base.Status.{Status, ok_status, error_is_ok}
use pulse_log.Protocol.Codec.{to_unsigned, u64_mod}
use pulse_log.Storage.Index.{OffsetIndex, index_append}
use pulse_log.Storage.TimeIndex.{TimeIndex, time_append, lookup_ceiling}

-- What the files answer in one call: to opening a segment, to the sync of the segment with this base
-- offset (a call syncs no segment twice), to the write of a batch and to those of the two indexes.
pub record Files : Type 0 where
  pub opened : Status
  pub synced : ℤ → Status
  pub written : Status
  pub index_written : Status
  pub time_written : Status

pub record Segment : Type 0 where
  pub base_offset : ℤ
  pub next_offset : ℤ
  pub end_position : ℕ
  pub synced_position : ℕ
  pub record_count : ℕ
  pub max_timestamp : ℤ
  pub created_at : ℤ
  pub index_interval : ℤ
  pub last_indexed_position : ℕ
  pub index : OffsetIndex
  pub time_index : TimeIndex

-- `Segment::Open` of a file that does not exist yet. `max_timestamp_` starts at -1.
abbrev pub new_segment : ℤ → ℤ → ℤ → Segment
new_segment now index_interval base_offset = record {
  base_offset = base_offset;
  next_offset = base_offset;
  end_position = 0;
  synced_position = 0;
  record_count = 0;
  max_timestamp = negsuc 0;
  created_at = now;
  index_interval = index_interval;
  last_indexed_position = 0;
  index = record { base_offset = base_offset; entries = [] };
  time_index = record { base_offset = base_offset; entries = [] };
}

-- The index entry of `FinishAppend`; the time index follows only if it was written.
unfoldable pub index_batch : Files → ℤ → ℤ → Segment → Segment
index_batch files append_base max_timestamp s =
    let (status, index) = index_append files.index_written append_base s.end_position s.index in
    if error_is_ok status.code
    then record s {
      index = index;
      last_indexed_position = s.end_position;
      time_index = (time_append files.time_written max_timestamp append_base s.time_index).1;
    }
    else record s { index = index }

-- `Segment::FinishAppend`
unfoldable pub finish_append : Files → ℕ → ℤ → ℤ → ℕ → ℤ → Segment → Segment
finish_append files bytes append_base last_offset record_count max_timestamp s =
    let due =
      leb (to_unsigned u64_mod s.index_interval) (s.end_position - s.last_indexed_position)
      || is_empty s.index.entries in
    let indexed = if due then index_batch files append_base max_timestamp s else s in
    record indexed {
      end_position = s.end_position + bytes;
      next_offset = last_offset +ℤ pos 1;
      record_count = s.record_count + record_count;
      max_timestamp = max_ℤ s.max_timestamp max_timestamp;
    }

-- `Segment::AppendEncoded` of `bytes` bytes.
unfoldable pub append_encoded : Files → ℕ → ℤ → ℤ → ℕ → ℤ → Segment → Status × Segment
append_encoded files bytes append_base last_offset record_count max_timestamp s =
    if bytes == 0
    then (ok_status, s)
    else if error_is_ok files.written.code
    then (ok_status, finish_append files bytes append_base last_offset record_count max_timestamp s)
    else (files.written, s)

-- `Segment::Sync`
unfoldable pub sync_segment : Files → Segment → Status × Segment
sync_segment files s =
    if s.end_position == s.synced_position
    then (ok_status, s)
    else if error_is_ok (files.synced s.base_offset).code
    then (ok_status, record s { synced_position = s.end_position })
    else (files.synced s.base_offset, s)

-- `Segment::OffsetForTimestamp`
abbrev pub segment_offset_for : ℤ → Segment → Option ℤ
segment_offset_for target s = lookup_ceiling target s.time_index
