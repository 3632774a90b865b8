-- ===== src/Storage/Examples.antt =====
-- Examples of the indexes of a segment, of batches and of the log.
use pulse_log.Base.{
  ℕ, ◌<◌, ◌≡◌, ◌⊎◌, refl, arith, false, none, List, [], ◌∷◌, ◌++◌, length, length-append, keep,
  if◌then◌else◌,
}
use pulse_log.Base.Int.{ℤ, pos, negsuc, ◌+ℤ◌, ◌-ℤ◌, ltb_ℤ}
use pulse_log.Base.Types.{ErrorCode}
use pulse_log.Base.Status.{ok_status, error_is_ok, value_of_result}
use pulse_log.Protocol.Codec.{u64_mod}
use pulse_log.Protocol.Record.{RecordView, encoded_record_size, count_groups, append_record}
use pulse_log.Protocol.Record.Layout.{length-append_record}
use pulse_log.Protocol.Record.Parsing.{FitsRecord}
use pulse_log.Protocol.Record.Iteration.{append_records}
use pulse_log.Storage.Index.{
  OffsetIndexEntry, OffsetIndex, index_append, open_index, lookup_floor, index_truncate,
}
use pulse_log.Storage.Index.Order.{
  IsIndex, Accepts, encode_entries, open_index-encode_entries, index_append_cases,
  index_append-IsIndex,
}
use pulse_log.Storage.Index.Lookup.{
  IsFloor, entry_offset, lookup_floor-IsFloor, index_truncate-keep,
}
use pulse_log.Storage.TimeIndex.{TimeIndex, lookup_ceiling}
use pulse_log.Storage.TimeIndex.Order.{IsCeiling, lookup_ceiling-IsCeiling}
use pulse_log.Storage.Batch.{assign_offsets, check_offsets}
use pulse_log.Storage.Batch.Stamping.{batch, stamp_all, latest, assign_offsets-append_records}
use pulse_log.Storage.Batch.Checking.{newest, check_offsets-append_records}
use pulse_log.Storage.Segment.{Files, Segment, new_segment}
use pulse_log.Storage.Log.{
  LogOptions, PartitionLog, Clock, append_assigning, enforce_retention, segment_for_offset,
}
use pulse_log.Storage.Log.Chain.{IsLog}
use pulse_log.Storage.Log.Retention.{Retains, enforce_retention-Retains}
use pulse_log.Storage.Log.Appends.{append_assigning-IsLog}
use pulse_log.Storage.Log.Lookup.{Holds, segment_for_offset-Holds}

abbrev two_entries : List OffsetIndexEntry
two_entries =
    record { relative_offset = 0; file_position = 0 }
    ∷ record { relative_offset = 7; file_position = 4200 }
    ∷ []

abbrev hundred_index : OffsetIndex
hundred_index = record { base_offset = pos 100; entries = two_entries }

hundred_IsIndex : IsIndex hundred_index
hundred_IsIndex = (
  (omega arith, (omega arith, tt)),
  ((omega arith, omega arith), ((omega arith, omega arith), tt)),
)

open_index-encode_entries_example :
    open_index (pos 100) (encode_entries two_entries ++ (9 ∷ 0 ∷ [])) ≡ hundred_index
open_index-encode_entries_example =
    open_index-encode_entries (pos 100) two_entries (9 ∷ 0 ∷ []) (omega arith, (omega arith, tt))
      ((omega arith, omega arith), ((omega arith, omega arith), tt)) (omega arith)

index_append_cases_example :
    (Accepts (pos 120) 9000 hundred_index
      × ((e : OffsetIndexEntry) × (pos e.relative_offset ≡ pos 20)
          × (e.file_position ≡ 9000)
          × (index_append ok_status (pos 120) 9000 hundred_index ≡ (
              if error_is_ok ok_status.code
              then (ok_status, record { base_offset = pos 100; entries = two_entries ++ (e ∷ []) })
              else (ok_status, hundred_index)))))
    ⊎ ((¬ Accepts (pos 120) 9000 hundred_index)
        × (index_append ok_status (pos 120) 9000 hundred_index).1 ≡ hundred_index
        × (index_append ok_status (pos 120) 9000 hundred_index).0.code ≡ ErrorCode.invalid_argument)
unfolding ◌-ℤ◌
index_append_cases_example = index_append_cases ok_status (pos 120) 9000 hundred_index

index_append-IsIndex_example : IsIndex (index_append ok_status (pos 120) 9000 hundred_index).1
index_append-IsIndex_example =
    index_append-IsIndex ok_status (pos 120) 9000 hundred_index hundred_IsIndex

lookup_floor-IsFloor_example :
    IsFloor (pos 105) hundred_index (lookup_floor (pos 105) hundred_index)
lookup_floor-IsFloor_example = lookup_floor-IsFloor (pos 105) hundred_index hundred_IsIndex

index_truncate-keep_example :
    (index_truncate (pos 105) hundred_index).entries
    ≡ keep (λ e. ltb_ℤ (entry_offset (pos 100) e) (pos 105)) two_entries
index_truncate-keep_example = index_truncate-keep (pos 105) hundred_index hundred_IsIndex

abbrev times : TimeIndex
times = record {
  base_offset = pos 100;
  entries =
      record { timestamp = pos 50; relative_offset = 0 }
      ∷ record { timestamp = pos 60; relative_offset = 7 }
      ∷ [];
}

lookup_ceiling-IsCeiling_example : IsCeiling (pos 55) times (lookup_ceiling (pos 55) times)
lookup_ceiling-IsCeiling_example = lookup_ceiling-IsCeiling (pos 55) times (omega arith, tt)

abbrev produced : RecordView
produced = record {
  offset = pos 0;
  timestamp = pos 0;
  attributes = 0;
  key = none;
  value = 1 ∷ 2 ∷ [];
}

abbrev replicated : RecordView
replicated = record {
  offset = pos 40;
  timestamp = pos 9;
  attributes = 0;
  key = none;
  value = 1 ∷ 2 ∷ [];
}

produced-FitsRecord : FitsRecord produced
unfolding encoded_record_size count_groups
produced-FitsRecord = (omega arith, omega arith, omega arith, omega arith)

replicated-FitsRecord : FitsRecord replicated
unfolding encoded_record_size count_groups
replicated-FitsRecord = (omega arith, omega arith, omega arith, omega arith)

run_short : (r : RecordView) → FitsRecord r → length (append_records (r ∷ [])) < u64_mod
unfolding append_records
run_short r fits = omega (arith, length-append (append_record r) [], length-append_record r, fits.3)

assign_offsets-append_records_example :
    assign_offsets (pos 80) (pos 40) 1 (append_records (produced ∷ []))
    ≡ value_of_result (
        batch
          (append_records (stamp_all (pos 80) (pos 40) (produced ∷ [])))
          (pos 40 +ℤ pos 1)
          (latest (pos 80) (negsuc 0) (produced ∷ []))
          1)
assign_offsets-append_records_example =
    assign_offsets-append_records (pos 80) (pos 40) (produced ∷ []) (produced-FitsRecord, tt)
      (run_short produced produced-FitsRecord)

check_offsets-append_records_example :
    check_offsets (pos 40) 1 (append_records (replicated ∷ []))
    ≡ value_of_result (
        batch
          (append_records (replicated ∷ []))
          (pos 40 +ℤ pos 1)
          (newest (negsuc 0) (replicated ∷ []))
          1)
check_offsets-append_records_example =
    check_offsets-append_records (pos 40) (replicated ∷ []) (replicated-FitsRecord, tt) (refl, tt)
      (run_short replicated replicated-FitsRecord)

abbrev options : LogOptions
options = record {
  segment_bytes = pos 1000;
  segment_ms = negsuc 0;
  index_interval_bytes = pos 4096;
  retention_bytes = pos 1500;
  retention_ms = negsuc 0;
  sync_on_append = false;
  flush_interval_ms = pos 200;
  max_unflushed_bytes = pos 4096;
  max_unflushed_records = pos 100;
}

abbrev filled : ℤ → ℤ → ℕ → Segment
filled base next bytes = record (new_segment (pos 0) (pos 4096) base) {
  next_offset = next;
  end_position = bytes;
}

abbrev log : PartitionLog
log = record {
  options = options;
  sealed = filled (pos 0) (pos 10) 900 ∷ filled (pos 10) (pos 20) 900 ∷ [];
  active = filled (pos 20) (pos 25) 400;
  log_start_offset = pos 0;
  log_end_offset = pos 25;
  flushed_offset = pos 20;
  unflushed_bytes = pos 400;
  unflushed_records = pos 5;
  last_flush_ms = pos 0;
  flush_count = 1;
  roll_count = 2;
  deleted_segments = 0;
  closed = false;
}

log_IsLog : IsLog log
log_IsLog = ((refl, omega arith, (refl, omega arith, refl)), omega arith, refl, omega arith)

abbrev files : Files
files = record {
  opened = ok_status;
  synced = λ base_offset. ok_status;
  written = ok_status;
  index_written = ok_status;
  time_written = ok_status;
}

abbrev clock : Clock
clock = record { wall = pos 80; monotonic = pos 5 }

append_assigning-IsLog_example :
    IsLog (append_assigning files ok_status clock 1 (append_records (produced ∷ [])) log).1
append_assigning-IsLog_example =
    append_assigning-IsLog files ok_status clock 1 (append_records (produced ∷ [])) log log_IsLog

enforce_retention-Retains_example : Retains (pos 90) log log.sealed (enforce_retention (pos 90) log)
enforce_retention-Retains_example = enforce_retention-Retains (pos 90) log refl

segment_for_offset-Holds_example : Holds (pos 12) (segment_for_offset (pos 12) log)
segment_for_offset-Holds_example =
    segment_for_offset-Holds (pos 12) log log_IsLog (omega arith) (omega arith)
