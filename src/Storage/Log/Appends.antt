-- ===== src/Storage/Log/Appends.antt =====
-- An append keeps the log without gaps, whichever way it ends.
use pulse_log.Base.{
  ℕ, zero, suc, ◌-◌, ◌<◌, ◌≡◌, ◌∙◌, refl, sym, subst, arith, Bool, true, false, not, ◌||◌, ltb, leb,
  ◌==◌, is_empty, if◌then◌else◌, [], ◌∷◌, length, Bool-cases, if_both, inl, inr,
}
use mathlib.Core.Bool.{false≢true}
use pulse_log.Base.Int.{ℤ, pos, ◌+ℤ◌, ◌-ℤ◌, ◌≤ℤ◌, +ℤ_parts, -ℤ_parts, eq_of_parts}
use pulse_log.Base.Keys.{Bytes}
use pulse_log.Base.Text.{text}
use pulse_log.Base.Types.{ErrorCode}
use pulse_log.Base.Status.{Status, ok_status, error_is_ok, Result, failed_with, value_of_result}
use pulse_log.Protocol.Codec.{to_unsigned, u64_mod}
use pulse_log.Storage.Index.{index_append}
use pulse_log.Protocol.Record.{RecordView, parse_record}
use pulse_log.Storage.Segment.{Files, Segment, index_batch, finish_append, append_encoded}
use pulse_log.Storage.Batch.{
  Batch, start_batch, stamp_record, stamped, stamp_loop, counted, assign_offsets,
}
use pulse_log.Storage.Log.{
  PartitionLog, Clock, AppendResult, maybe_roll, flush, finalize_append, finished, written_batch,
  write_batch, write_assigned, append_rolled, append_assigning, refuse_append,
}
use pulse_log.Storage.Log.Chain.{Chain, IsLog, flush-IsLog, maybe_roll-IsLog}

-- The next offset of a batch is not below the one it started with.
abbrev Grows : ℤ → Result Batch → Type 0
Grows base (failed_with status) = Unit
Grows base (value_of_result b) = base ≤ℤ b.offset

stamped-Grows :
    (more : ℕ → Batch → Result Batch) (t base : ℤ) (position : ℕ) (b : Batch)
    (r : Result (RecordView × ℕ))
    → ((p : ℕ) (c : Batch) → base ≤ℤ c.offset → Grows base (more p c))
    → base ≤ℤ b.offset
    → Grows base (stamped more t position b r)
unfolding stamp_record
stamped-Grows more t base position b (failed_with status) grows h = tt
stamped-Grows more t base position b (value_of_result (view, next)) grows h =
    grows next (stamp_record t position (view, next) b)
      (omega (arith, h, +ℤ_parts b.offset (pos 1)))

stamp_loop-Grows :
    (turns : ℕ) (t base : ℤ) (position : ℕ) (b : Batch)
    → base ≤ℤ b.offset
    → Grows base (stamp_loop turns t position b)
unfolding stamp_loop
stamp_loop-Grows zero t base position b h = h
stamp_loop-Grows (suc turns) t base position b h =
    if_both (Grows base) (ltb position (length b.records))
      (stamped (stamp_loop turns t) t position b (parse_record b.records position false))
      (value_of_result b)
      (stamped-Grows (stamp_loop turns t) t base position b (parse_record b.records position false)
        (λ p c g. stamp_loop-Grows turns t base p c g) h)
      h

counted-Grows :
    (name : Bytes) (count : ℕ) (base : ℤ) (r : Result Batch)
    → Grows base r
    → Grows base (counted name count r)
counted-Grows name count base (failed_with status) h = tt
counted-Grows name count base (value_of_result b) h = elim (Bool-cases (b.seen == count)) [
  | inl e ↦ rw e h
  | inr e ↦ rw e tt
]

assign_offsets-Grows :
    (t base : ℤ) (count : ℕ) (records : Bytes) → Grows base (assign_offsets t base count records)
unfolding assign_offsets
assign_offsets-Grows t base count records =
    counted-Grows (text "produce") count base
      (stamp_loop (length records) t 0 (start_batch records base))
      (stamp_loop-Grows (length records) t base 0 (start_batch records base) (omega arith))

index_batch-base :
    (files : Files) (base m : ℤ) (s : Segment)
    → (index_batch files base m s).base_offset ≡ s.base_offset
unfolding index_batch
index_batch-base files base m s =
    elim (Bool-cases
      (error_is_ok (index_append files.index_written base s.end_position s.index).0.code)) [
        | inl e ↦ rw e refl
        | inr e ↦ rw e refl
      ]

finish_append-offsets :
    (files : Files) (bytes : ℕ) (base last : ℤ) (count : ℕ) (m : ℤ) (s : Segment)
    → ((finish_append files bytes base last count m s).base_offset ≡ s.base_offset)
      × ((finish_append files bytes base last count m s).next_offset ≡ last +ℤ pos 1)
unfolding finish_append
finish_append-offsets files bytes base last count m s =
    elim (Bool-cases (
      leb (to_unsigned u64_mod s.index_interval) (s.end_position - s.last_indexed_position)
      || is_empty s.index.entries)) [
        | inl e ↦ rw e (index_batch-base files base m s, refl)
        | inr e ↦ rw e (refl, refl)
      ]

finalize_append-IsLog :
    (files : Files) (monotonic : ℤ) (result : AppendResult) (log : PartitionLog)
    → IsLog (record log { log_end_offset = result.last_offset +ℤ pos 1 })
    → IsLog (finalize_append files monotonic result log).1
unfolding finalize_append
finalize_append-IsLog files monotonic result log ok =
    if_both (λ (r : Status × PartitionLog). IsLog r.1) log.options.sync_on_append
      (flush files monotonic appended) (ok_status, appended)
      (flush-IsLog files monotonic appended ok) ok
  where
    appended : PartitionLog
    appended = record log {
      log_end_offset = result.last_offset +ℤ pos 1;
      unflushed_bytes = log.unflushed_bytes +ℤ pos result.bytes;
      unflushed_records = log.unflushed_records +ℤ pos result.record_count;
    }

finished-IsLog :
    (result : AppendResult) (r : Status × PartitionLog) → IsLog r.1 → IsLog (finished result r).1
finished-IsLog result (status, log) ok =
    if_both (λ (r : Result AppendResult × PartitionLog). IsLog r.1) (error_is_ok status.code)
      (value_of_result result, log) (failed_with status, log) ok ok

-- The active segment after a write that was asked for.
module _ (files : Files) (bytes : ℕ) (base last : ℤ) (count : ℕ) (m : ℤ) (s : Segment)
    (some_bytes : 0 < bytes) where
  append_encoded_ok :
      error_is_ok files.written.code ≡ true
      → append_encoded files bytes base last count m s
        ≡ (ok_status, finish_append files bytes base last count m s)
  unfolding append_encoded
  append_encoded_ok e = let full : (bytes == 0) ≡ false = ground arith in rw (full, e) refl

  append_encoded_failed :
      error_is_ok files.written.code ≡ false
      → append_encoded files bytes base last count m s ≡ (files.written, s)
  unfolding append_encoded
  append_encoded_failed e = let full : (bytes == 0) ≡ false = ground arith in rw (full, e) refl

module _ (files : Files) (now : Clock) (bytes : ℕ) (b : Batch) (log : PartitionLog) where
  abbrev last : ℤ
  last = b.offset -ℤ pos 1

  abbrev active : Segment
  active = finish_append files bytes log.active.next_offset last b.seen b.max_timestamp log.active

  abbrev result : AppendResult
  result = record {
    base_offset = log.active.next_offset;
    last_offset = last;
    record_count = b.seen;
    bytes = bytes;
    append_time = now.wall;
  }

  at_end : last +ℤ pos 1 ≡ b.offset
  at_end =
      eq_of_parts (last +ℤ pos 1) b.offset
        (omega (arith, +ℤ_parts last (pos 1), -ℤ_parts b.offset (pos 1)))

  extended-IsLog :
      log.active.next_offset ≤ℤ b.offset
      → IsLog log
      → IsLog (record log { active = active; log_end_offset = last +ℤ pos 1 })
  extended-IsLog grows (c, n, e, f) = (
    subst (λ (x : ℤ). Chain log.log_start_offset log.sealed x) (sym offsets.0) c,
    subst (λ (x : ℤ). x ≤ℤ active.next_offset) (sym offsets.0)
        (subst (λ (y : ℤ). log.active.base_offset ≤ℤ y) (sym (offsets.1 ∙ at_end))
          (omega (arith, n, grows))),
    offsets.1,
    subst (λ (y : ℤ). log.flushed_offset ≤ℤ y) (sym at_end)
        (omega (arith, subst (λ (y : ℤ). log.flushed_offset ≤ℤ y) (sym e) f, grows)),
  )
    where
      offsets : (active.base_offset ≡ log.active.base_offset) × (active.next_offset ≡ last +ℤ pos 1)
      offsets =
          finish_append-offsets files bytes log.active.next_offset last b.seen b.max_timestamp
            log.active

  write_batch-IsLog :
      0 < bytes
      → log.active.next_offset ≤ℤ b.offset
      → IsLog log
      → IsLog (write_batch files now bytes log.active.next_offset b log).1
  unfolding write_batch
  write_batch-IsLog some_bytes grows ok = elim (Bool-cases (error_is_ok files.written.code)) [
    | inl e ↦
        subst after
          (sym (
            append_encoded_ok files bytes log.active.next_offset last b.seen b.max_timestamp
              log.active some_bytes e))
          (finished-IsLog result
            (finalize_append files now.monotonic result (record log { active = active }))
            (finalize_append-IsLog files now.monotonic result (record log { active = active })
              (extended-IsLog grows ok)))
    | inr e ↦
        subst after
          (sym (
            append_encoded_failed files bytes log.active.next_offset last b.seen b.max_timestamp
              log.active some_bytes e))
          (refused (error_is_ok files.written.code) e)
  ]
    where
      after : Status × Segment → Type 0
      after w = IsLog (written_batch files now.monotonic result log w).1

      refused :
          (c : Bool)
          → c ≡ false
          → IsLog
              (if c
                then finished result (
                    finalize_append files now.monotonic result (record log { active = log.active }))
                else (failed_with files.written, log)).1
      refused true e = absurd (false≢true (sym e))
      refused false e = ok

write_assigned-IsLog :
    (files : Files) (now : Clock) (bytes : ℕ) (log : PartitionLog) (r : Result Batch)
    → 0 < bytes
    → Grows log.active.next_offset r
    → IsLog log
    → IsLog (write_assigned files now bytes log r).1
write_assigned-IsLog files now bytes log (failed_with status) some_bytes grows ok = ok
write_assigned-IsLog files now bytes log (value_of_result b) some_bytes grows ok =
    write_batch-IsLog files now bytes b log some_bytes grows ok

append_rolled-IsLog :
    (files : Files) (now : Clock) (count : ℕ) (records : Bytes) (r : Status × PartitionLog)
    → 0 < length records
    → IsLog r.1
    → IsLog (append_rolled files now count records r).1
append_rolled-IsLog files now count records (status, log) some_bytes ok =
    if_both (λ (r : Result AppendResult × PartitionLog). IsLog r.1) (error_is_ok status.code)
      (write_assigned files now (length records) log
        (assign_offsets now.wall log.active.next_offset count records))
      (failed_with status, log)
      (write_assigned-IsLog files now (length records) log
        (assign_offsets now.wall log.active.next_offset count records) some_bytes
        (assign_offsets-Grows now.wall log.active.next_offset count records) ok)
      ok

-- `AppendAssigningOffsets` keeps the segments without gaps, the end of the log at the next offset of its
-- active segment, and what is flushed below it, for any bytes that it is given and any answers of the
-- files, the refusals included.
pub append_assigning-IsLog :
    (files : Files) (disk : Status) (now : Clock) (count : ℕ) (records : Bytes) (log : PartitionLog)
    → IsLog log
    → IsLog (append_assigning files disk now count records log).1
unfolding append_assigning
append_assigning-IsLog files disk now count [] log ok =
    if_both (λ (r : Result AppendResult × PartitionLog). IsLog r.1) log.closed
      (refuse_append ErrorCode.closed (text "log is closed") log)
      (refuse_append ErrorCode.invalid_argument (text "append with no records") log) ok ok
append_assigning-IsLog files disk now count (x ∷ xs) log ok =
    if_both good log.closed (refuse_append ErrorCode.closed (text "log is closed") log)
      (if (count == 0)
        then refuse_append ErrorCode.invalid_argument (text "append with no records") log
        else checked)
      ok
      (if_both good (count == 0)
        (refuse_append ErrorCode.invalid_argument (text "append with no records") log) checked ok
        (if_both good (not (error_is_ok disk.code)) (failed_with disk, log) rolled ok
          (append_rolled-IsLog files now count (x ∷ xs)
            (maybe_roll files now.wall (length (x ∷ xs)) log) (omega arith)
            (maybe_roll-IsLog files now.wall (length (x ∷ xs)) log ok))))
  where
    good : Result AppendResult × PartitionLog → Type 0
    good r = IsLog r.1

    rolled : Result AppendResult × PartitionLog
    rolled =
        append_rolled files now count (x ∷ xs) (maybe_roll files now.wall (length (x ∷ xs)) log)

    checked : Result AppendResult × PartitionLog
    checked = if not (error_is_ok disk.code) then (failed_with disk, log) else rolled
