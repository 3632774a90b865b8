-- ===== src/Storage/Log.antt =====
-- storage/partition_log.{h,cc}: the log of a partition as the list of its segments. `segments_` is the
-- sealed segments, oldest first, and the active one behind them. Times, the answers of the files and the
-- free space are arguments. Calls are steps: appends are serialised by the caller.
pub mod Chain
pub mod Retention
pub mod Appends
pub mod Lookup
use pulse_log.Base.{
  ℕ, zero, suc, ◌+◌, ◌-◌, Bool, true, false, ◌||◌, ◌&&◌, not, ltb, leb, ◌==◌, if◌then◌else◌, Option,
  some, none, List, [], ◌∷◌, ◌++◌, length, is_empty,
}
use pulse_log.Base.Int.{ℤ, pos, negsuc, ◌+ℤ◌, ◌-ℤ◌, ltb_ℤ, leb_ℤ, eqb_ℤ}
use pulse_log.Base.Keys.{Bytes}
use pulse_log.Base.Text.{text}
use pulse_log.Base.Types.{ErrorCode}
use pulse_log.Base.Search.{partition_point}
use pulse_log.Base.Status.{
  Status, ok_status, error_status, error_is_ok, Result, failed_with, value_of_result,
}
use pulse_log.Storage.Index.{before}
use pulse_log.Storage.Segment.{
  Files, Segment, new_segment, append_encoded, sync_segment, segment_offset_for,
}
use pulse_log.Storage.Batch.{Batch, assign_offsets}

pub record LogOptions : Type 0 where
  pub segment_bytes : ℤ
  pub segment_ms : ℤ
  pub index_interval_bytes : ℤ
  pub retention_bytes : ℤ
  pub retention_ms : ℤ
  pub sync_on_append : Bool
  pub flush_interval_ms : ℤ
  pub max_unflushed_bytes : ℤ
  pub max_unflushed_records : ℤ

pub record PartitionLog : Type 0 where
  pub options : LogOptions
  pub sealed : List Segment
  pub active : Segment
  pub log_start_offset : ℤ
  pub log_end_offset : ℤ
  pub flushed_offset : ℤ
  pub unflushed_bytes : ℤ
  pub unflushed_records : ℤ
  pub last_flush_ms : ℤ
  pub flush_count : ℕ
  pub roll_count : ℕ
  pub deleted_segments : ℕ
  pub closed : Bool

abbrev pub segments : PartitionLog → List Segment
segments log = log.sealed ++ (log.active ∷ [])

pub record AppendResult : Type 0 where
  pub base_offset : ℤ
  pub last_offset : ℤ
  pub record_count : ℕ
  pub bytes : ℕ
  pub append_time : ℤ

-- The wall clock and the monotonic clock, in milliseconds.
pub record Clock : Type 0 where
  pub wall : ℤ
  pub monotonic : ℤ

-- `RollSegment`. The sync of the directory is not asked for success.
unfoldable pub roll_segment : Files → ℤ → PartitionLog → Status × PartitionLog
roll_segment files now log =
    let (synced, previous) = sync_segment files log.active in
    let rolled = record log {
      sealed = log.sealed ++ (previous ∷ []);
      active = new_segment now log.options.index_interval_bytes log.active.next_offset;
      roll_count = log.roll_count + 1;
    } in
    if not (error_is_ok files.opened.code)
    then (files.opened, log)
    else if error_is_ok synced.code
    then (ok_status, rolled)
    else (synced, log)

-- `MaybeRoll`
unfoldable pub maybe_roll : Files → ℤ → ℕ → PartitionLog → Status × PartitionLog
maybe_roll files now incoming log =
    let size = log.active.end_position in
    let by_size =
      ltb_ℤ (pos 0) log.options.segment_bytes
      && ltb_ℤ log.options.segment_bytes (pos (size + incoming))
      && ltb 0 size in
    let by_age =
      ltb_ℤ (pos 0) log.options.segment_ms
      && ltb 0 size
      && leb_ℤ log.options.segment_ms (now -ℤ log.active.created_at) in
    let by_limit = ltb 4294967295 (size + incoming) in
    if by_size || by_age || by_limit then roll_segment files now log else (ok_status, log)

abbrev pub sync_if_behind : Files → Segment → Status × Segment
sync_if_behind files s =
    if ltb s.synced_position s.end_position then sync_segment files s else (ok_status, s)

-- The segments that `Flush` syncs, up to the first failure.
unfoldable pub sync_all : Files → List Segment → Status × List Segment
sync_all files [] = (ok_status, [])
sync_all files (s ∷ ss) =
    let (status, synced) = sync_if_behind files s in
    let (later, rest) = sync_all files ss in
    if error_is_ok status.code then (later, synced ∷ rest) else (status, synced ∷ ss)

-- `Flush`, when no append runs beside it: all that was counted is covered.
unfoldable pub flush : Files → ℤ → PartitionLog → Status × PartitionLog
flush files now log =
    let (sealed_status, sealed) = sync_all files log.sealed in
    let (active_status, active) = sync_if_behind files log.active in
    let kept = record log { sealed = sealed } in
    let flushed = record log {
      sealed = sealed;
      active = active;
      flushed_offset = log.log_end_offset;
      unflushed_bytes = pos 0;
      unflushed_records = pos 0;
      last_flush_ms = now;
      flush_count = log.flush_count + 1;
    } in
    if eqb_ℤ log.log_end_offset log.flushed_offset
    then (ok_status, log)
    else if not (error_is_ok sealed_status.code)
    then (sealed_status, kept)
    else if not (error_is_ok active_status.code)
    then (active_status, kept)
    else (ok_status, flushed)

-- `FinalizeAppend`
unfoldable pub finalize_append : Files → ℤ → AppendResult → PartitionLog → Status × PartitionLog
finalize_append files monotonic result log =
    let appended = record log {
      log_end_offset = result.last_offset +ℤ pos 1;
      unflushed_bytes = log.unflushed_bytes +ℤ pos result.bytes;
      unflushed_records = log.unflushed_records +ℤ pos result.record_count;
    } in
    if log.options.sync_on_append then flush files monotonic appended else (ok_status, appended)

abbrev pub finished : AppendResult → Status × PartitionLog → Result AppendResult × PartitionLog
finished result (status, log) =
    if error_is_ok status.code then (value_of_result result, log) else (failed_with status, log)

-- What follows the write of a batch to the active segment.
abbrev pub written_batch :
    Files → ℤ → AppendResult → PartitionLog → Status × Segment → Result AppendResult × PartitionLog
written_batch files monotonic result log (status, active) =
    if error_is_ok status.code
    then finished result (finalize_append files monotonic result (record log { active = active }))
    else (failed_with status, log)

unfoldable pub write_batch :
    Files → Clock → ℕ → ℤ → Batch → PartitionLog → Result AppendResult × PartitionLog
write_batch files now bytes base b log =
    let last = b.offset -ℤ pos 1 in
    let result : AppendResult = record {
      base_offset = base;
      last_offset = last;
      record_count = b.seen;
      bytes = bytes;
      append_time = now.wall;
    } in
    written_batch files now.monotonic result log
      (append_encoded files bytes base last b.seen b.max_timestamp log.active)

abbrev pub write_assigned :
    Files → Clock → ℕ → PartitionLog → Result Batch → Result AppendResult × PartitionLog
write_assigned files now bytes log (failed_with status) = (failed_with status, log)
write_assigned files now bytes log (value_of_result b) =
    write_batch files now bytes log.active.next_offset b log

abbrev pub append_rolled :
    Files → Clock → ℕ → Bytes → Status × PartitionLog → Result AppendResult × PartitionLog
append_rolled files now record_count records (status, log) =
    if error_is_ok status.code
    then write_assigned files now (length records) log
        (assign_offsets now.wall log.active.next_offset record_count records)
    else (failed_with status, log)

abbrev pub refuse_append : ErrorCode → Bytes → PartitionLog → Result AppendResult × PartitionLog
refuse_append code message log = (failed_with (error_status code message), log)

-- `AppendAssigningOffsets`; `disk` is the answer of `CheckDiskSpace`.
unfoldable pub append_assigning :
    Files → Status → Clock → ℕ → Bytes → PartitionLog → Result AppendResult × PartitionLog
append_assigning files disk now record_count records log =
    if log.closed
    then refuse_append ErrorCode.closed (text "log is closed") log
    else if is_empty records || record_count == 0
    then refuse_append ErrorCode.invalid_argument (text "append with no records") log
    else if not (error_is_ok disk.code)
    then (failed_with disk, log)
    else append_rolled files now record_count records
        (maybe_roll files now.wall (length records) log)

-- The conditions of `EnforceRetention` for the oldest segment.
abbrev pub total_size : List Segment → ℕ
total_size [] = 0
total_size (s ∷ ss) = s.end_position + total_size ss

unfoldable pub expires : ℤ → LogOptions → Segment → ℕ → Bool
expires now options oldest total =
    (ltb_ℤ (pos 0) options.retention_ms
      && ltb_ℤ (pos 0) oldest.max_timestamp
      && ltb_ℤ options.retention_ms (now -ℤ oldest.max_timestamp))
    || (ltb_ℤ (pos 0) options.retention_bytes && ltb_ℤ options.retention_bytes (pos total))

-- The base offset of the first segment of the list, or of the active one.
abbrev pub front_base : List Segment → Segment → ℤ
front_base [] active = active.base_offset
front_base (s ∷ ss) active = s.base_offset

-- The loop of `EnforceRetention`: the sealed segments that stay and the log after it.
unfoldable pub retain : ℤ → List Segment → PartitionLog → PartitionLog
retain now [] log = record log { sealed = [] }
retain now (oldest ∷ rest) log =
    let total = total_size (oldest ∷ rest) + log.active.end_position in
    let deleted = retain now rest (record log {
      log_start_offset = front_base rest log.active;
      deleted_segments = log.deleted_segments + 1;
    }) in
    if expires now log.options oldest total then deleted else record log { sealed = oldest ∷ rest }

-- `EnforceRetention`, with files that can be deleted.
unfoldable pub enforce_retention : ℤ → PartitionLog → PartitionLog
enforce_retention now log =
    if leb_ℤ log.options.retention_bytes (pos 0) && leb_ℤ log.options.retention_ms (pos 0)
    then log
    else retain now log.sealed log

-- `NeedsFlush`
unfoldable pub needs_flush : ℤ → PartitionLog → Bool
needs_flush now log =
    let o = log.options in
    if o.sync_on_append
    then false
    else if eqb_ℤ log.unflushed_bytes (pos 0)
    then false
    else (ltb_ℤ (pos 0) o.max_unflushed_bytes && leb_ℤ o.max_unflushed_bytes log.unflushed_bytes)
      || (ltb_ℤ (pos 0) o.max_unflushed_records
          && leb_ℤ o.max_unflushed_records log.unflushed_records)
      || (ltb_ℤ (pos 0) o.flush_interval_ms && leb_ℤ o.flush_interval_ms (now -ℤ log.last_flush_ms))

-- `SegmentForOffsetLocked`
unfoldable pub segment_for_offset : ℤ → PartitionLog → Option Segment
segment_for_offset offset log =
    before (segments log) (partition_point (λ s. leb_ℤ s.base_offset offset) (segments log))

-- The loop of `OffsetForTimestamp`.
unfoldable pub first_offset_for : ℤ → List Segment → Option ℤ
first_offset_for timestamp [] = none
first_offset_for timestamp (s ∷ ss) =
    let rest = first_offset_for timestamp ss in
    if leb_ℤ (pos 0) s.max_timestamp && ltb_ℤ s.max_timestamp timestamp
    then rest
    else elim (segment_offset_for timestamp s) [ some offset ↦ some offset | none ↦ rest ]

-- `OffsetForTimestamp`; -2 asks for the earliest offset and -1 for the latest.
unfoldable pub offset_for_timestamp : ℤ → PartitionLog → ℤ
offset_for_timestamp timestamp log =
    if eqb_ℤ timestamp (negsuc 1)
    then log.log_start_offset
    else if eqb_ℤ timestamp (negsuc 0)
    then log.log_end_offset
    else elim (first_offset_for timestamp (segments log)) [
      | some offset ↦ offset
      | none ↦ log.log_end_offset
    ]
