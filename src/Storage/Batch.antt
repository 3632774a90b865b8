-- ===== src/Storage/Batch.antt =====
-- storage/partition_log.cc: the loops over a batch of records, in which a leader assigns offsets
-- (`AppendAssigningOffsets`) and a follower checks those of its leader (`AppendWithOffsets`).
pub mod Stamping
pub mod Checking
use pulse_log.Base.{
  ℕ, zero, suc, ◌+◌, ◌-◌, Bool, true, false, not, ltb, leb, ◌==◌, if◌then◌else◌, Option, none, some,
  List, [], ◌∷◌, ◌++◌, length, take, drop,
}
use pulse_log.Base.Int.{ℤ, pos, negsuc, ◌+ℤ◌, ltb_ℤ, eqb_ℤ, max_ℤ}
use pulse_log.Base.Keys.{Bytes}
use pulse_log.Base.Text.{text, decimal, to_string}
use pulse_log.Base.Types.{ErrorCode}
use pulse_log.Base.Status.{
  Status, error_status, error_is_ok, with_context, Result, failed_with, value_of_result,
}
use pulse_log.Protocol.Record.{
  RecordView, parse_record, rewrite_record_header, RecordIterator, iterate, next_record,
}

-- The variables of the loops: the buffer, the next offset, the greatest timestamp and the count.
pub record Batch : Type 0 where
  pub records : Bytes
  pub offset : ℤ
  pub max_timestamp : ℤ
  pub seen : ℕ

abbrev pub start_batch : Bytes → ℤ → Batch
start_batch records base = record {
  records = records;
  offset = base;
  max_timestamp = negsuc 0;
  seen = 0;
}

-- A timestamp that a producer left unset is the time of the append.
abbrev pub stamped_time : ℤ → ℤ → ℤ
stamped_time append_time timestamp = if ltb_ℤ (pos 0) timestamp then timestamp else append_time

-- The buffer with the record from `position` to `next` rewritten in place.
abbrev pub rewrite_at : Bytes → ℕ → ℕ → ℤ → ℤ → Bytes
rewrite_at records position next offset timestamp =
    take position records
    ++ (rewrite_record_header offset timestamp (take (next - position) (drop position records))
        ++ drop next records)

-- One turn for a record that was parsed.
unfoldable pub stamp_record : ℤ → ℕ → RecordView × ℕ → Batch → Batch
stamp_record append_time position (view, next) b =
    let timestamp = stamped_time append_time view.timestamp in
    record {
      records = rewrite_at b.records position next b.offset timestamp;
      offset = b.offset +ℤ pos 1;
      max_timestamp = max_ℤ b.max_timestamp timestamp;
      seen = b.seen + 1;
    }

abbrev pub stamped :
    (ℕ → Batch → Result Batch) → ℤ → ℕ → Batch → Result (RecordView × ℕ) → Result Batch
stamped more append_time position b (failed_with status) =
    failed_with (with_context (text "record " ++ decimal b.seen ++ text " in produce batch") status)
stamped more append_time position b (value_of_result parsed) =
    more parsed.1 (stamp_record append_time position parsed b)

-- The loop of `AppendAssigningOffsets`. Each turn goes on by a record, so a turn for each byte is enough.
unfoldable pub stamp_loop : ℕ → ℤ → ℕ → Batch → Result Batch
stamp_loop zero append_time position b = value_of_result b
stamp_loop (suc turns) append_time position b =
    let more =
      stamped (stamp_loop turns append_time) append_time position b
        (parse_record b.records position false) in
    if ltb position (length b.records) then more else value_of_result b

-- `seen != record_count`
abbrev pub check_count : Bytes → ℕ → Batch → Result Batch
check_count name record_count b =
    if not (b.seen == record_count)
    then failed_with (
        error_status ErrorCode.invalid_argument (
          name
          ++ text " batch declared "
          ++ decimal record_count
          ++ text " records but contains "
          ++ decimal b.seen))
    else value_of_result b

abbrev pub counted : Bytes → ℕ → Result Batch → Result Batch
counted name record_count (failed_with status) = failed_with status
counted name record_count (value_of_result b) = check_count name record_count b

-- The batch that `AppendAssigningOffsets` hands to its segment, whose next offset is `base`.
unfoldable pub assign_offsets : ℤ → ℤ → ℕ → Bytes → Result Batch
assign_offsets append_time base record_count records =
    counted (text "produce") record_count
      (stamp_loop (length records) append_time 0 (start_batch records base))

-- One turn of the loop of `AppendWithOffsets`.
abbrev pub check_next :
    (RecordIterator → Batch → Result Batch)
    → Batch
    → Option RecordView × RecordIterator
    → Result Batch
check_next more b (none, it) =
    if error_is_ok it.status.code
    then value_of_result b
    else failed_with (with_context (text "validating replicated batch") it.status)
check_next more b (some view, it) =
    let rest = more it (record b {
      offset = b.offset +ℤ pos 1;
      max_timestamp = max_ℤ b.max_timestamp view.timestamp;
      seen = b.seen + 1;
    }) in
    if not (eqb_ℤ view.offset b.offset)
    then failed_with (
        error_status ErrorCode.out_of_range (
          text "replicated record offset "
          ++ to_string view.offset
          ++ text " does not continue the log at "
          ++ to_string b.offset))
    else rest

unfoldable pub check_loop : ℕ → RecordIterator → Batch → Result Batch
check_loop zero it b = value_of_result b
check_loop (suc turns) it b = check_next (check_loop turns) b (next_record it)

-- The batch that `AppendWithOffsets` accepts for a log that ends at `expected`.
unfoldable pub check_offsets : ℤ → ℕ → Bytes → Result Batch
check_offsets expected record_count records =
    counted (text "replicated") record_count
      (check_loop (suc (length records)) (iterate records true) (start_batch records expected))
