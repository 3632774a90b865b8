-- ===== src/Storage/Batch/Checking.antt =====
-- What a follower accepts: a run of records whose offsets continue its log.
use pulse_log.Base.{
  ℕ, zero, suc, ◌+◌, ◌<◌, ◌≡◌, ◌≢◌, ◌∙◌, refl, ap, sym, subst, arith, true, List, [], ◌∷◌, ◌++◌,
  length, length-append, All, Option, some, Bool-cases, inl, inr,
}
use mathlib.Core.List.{append_assoc, append-nil}
use pulse_log.Base.Int.{ℤ, pos, negsuc, ◌+ℤ◌, max_ℤ, eqb_ℤ, eqb_ℤ_iff}
use pulse_log.Base.Keys.{Bytes}
use pulse_log.Base.Text.{text}
use pulse_log.Base.Types.{ErrorCode}
use pulse_log.Base.Status.{Result, failed_with, value_of_result}
use pulse_log.Protocol.Codec.{u64_mod}
use pulse_log.Protocol.Frame.Layout.{same}
use pulse_log.Protocol.Record.{
  RecordView, RecordIterator, encoded_record_size, append_record, next_record, iterate,
}
use pulse_log.Protocol.Record.Layout.{length-append_record}
use pulse_log.Protocol.Record.Parsing.{FitsRecord}
use pulse_log.Protocol.Record.Iteration.{
  append_records, standing, next_record_end, next_record-some,
}
use pulse_log.Storage.Batch.{Batch, start_batch, check_next, check_loop, check_offsets, counted}
use pulse_log.Storage.Batch.Stamping.{batch, end_offset, end_offset_lem, length-append_records}

-- The records have consecutive offsets from `base` on.
abbrev pub Continues : ℤ → List RecordView → Type 0
Continues base [] = Unit
Continues base (r ∷ rs) = (r.offset ≡ base) × Continues (base +ℤ pos 1) rs

unfoldable pub newest : ℤ → List RecordView → ℤ
newest max_timestamp [] = max_timestamp
newest max_timestamp (r ∷ rs) = newest (max_ℤ max_timestamp r.timestamp) rs

-- The loop in the middle of a run.
check_loop_from :
    (turns : ℕ) (rs : List RecordView) (before whole : Bytes) (o m : ℤ) (k n : ℕ)
    → length rs < turns
    → All FitsRecord rs
    → Continues o rs
    → length (before ++ append_records rs) < u64_mod
    → check_loop turns
        (standing (before ++ append_records rs) true (length before) k)
        (batch whole o m n)
      ≡ value_of_result (batch whole (end_offset o rs) (newest m rs) (n + length rs))
unfolding check_loop append_records end_offset newest
check_loop_from zero rs before whole o m k n few fits follows short = absurd (omega (arith, few))
check_loop_from (suc turns) [] before whole o m k n few fits follows short =
    rw (append-nil before) (
      ap (check_next (check_loop turns) (batch whole o m n)) (next_record_end before true k)
      ∙ ap (λ (c : ℕ). value_of_result (batch whole o m c)) {x = n} {y = n + 0} (omega arith))
check_loop_from (suc turns) (r ∷ rs) before whole o m k n few (fit, fits) (at, follows) short =
    ap (check_next (check_loop turns) (batch whole o m n))
      (next_record-some r before (append_records rs) true k fit short)
    ∙ turn
    ∙ ap
        (λ (it : RecordIterator).
          check_loop turns it (batch whole (o +ℤ pos 1) (max_ℤ m r.timestamp) (n + 1)))
        start
    ∙ check_loop_from turns rs (before ++ append_record r) whole (o +ℤ pos 1) (max_ℤ m r.timestamp)
        (k + 1) (n + 1) (omega (arith, few)) fits follows
        (subst (λ (t : Bytes). length t < u64_mod) (sym assoc) short)
    ∙ ap
        (λ (c : ℕ).
          value_of_result
            (batch whole (end_offset (o +ℤ pos 1) rs) (newest (max_ℤ m r.timestamp) rs) c))
        {x = n + 1 + length rs} {y = n + suc (length rs)} (omega arith)
  where
    assoc :
        (before ++ append_record r) ++ append_records rs
        ≡ before ++ (append_record r ++ append_records rs)
    assoc = append_assoc before (append_record r) (append_records rs)

    after : RecordIterator
    after =
        standing (before ++ (append_record r ++ append_records rs)) true
          (length before + encoded_record_size r.key r.value) (k + 1)

    turn :
        check_next (check_loop turns) (batch whole o m n) (some r, after)
        ≡ check_loop turns after (batch whole (o +ℤ pos 1) (max_ℤ m r.timestamp) (n + 1))
    turn = let equal : eqb_ℤ r.offset o ≡ true = (eqb_ℤ_iff r.offset o).1 at in simp equal

    start :
        after
        ≡ standing
            ((before ++ append_record r) ++ append_records rs)
            true
            (length (before ++ append_record r))
            (k + 1)
    start =
        ap (λ (p : ℕ). standing (before ++ (append_record r ++ append_records rs)) true p (k + 1))
          {x = length before + encoded_record_size r.key r.value}
          {y = length (before ++ append_record r)}
          (omega (arith, length-append before (append_record r), length-append_record r))
        ∙ ap (λ (t : Bytes). standing t true (length (before ++ append_record r)) (k + 1))
            (sym assoc)

-- A follower whose log ends at `expected` accepts the records whose offsets continue it, and its log then
-- ends after them.
pub check_offsets-append_records :
    (expected : ℤ) (rs : List RecordView)
    → All FitsRecord rs
    → Continues expected rs
    → length (append_records rs) < u64_mod
    → check_offsets expected (length rs) (append_records rs)
      ≡ value_of_result (
          batch
            (append_records rs)
            (expected +ℤ pos (length rs))
            (newest (negsuc 0) rs)
            (length rs))
unfolding check_offsets
check_offsets-append_records expected rs fits follows short =
    ap (counted (text "replicated") (length rs)) (
      check_loop_from (suc (length (append_records rs))) rs [] (append_records rs) expected
        (negsuc 0) 0 0 (omega (arith, length-append_records rs fits)) fits follows short
      ∙ ap
          (λ (o : ℤ).
            value_of_result (batch (append_records rs) o (newest (negsuc 0) rs) (0 + length rs)))
          (end_offset_lem expected rs)
      ∙ ap
          (λ (c : ℕ).
            value_of_result
              (batch (append_records rs) (expected +ℤ pos (length rs)) (newest (negsuc 0) rs) c))
          {x = 0 + length rs} {y = length rs} (omega arith))
    ∙ simp (same (length rs))

abbrev pub FailsWith : ErrorCode → Result Batch → Type 0
FailsWith code (failed_with status) = status.code ≡ code
FailsWith code (value_of_result b) = ⊥

check_next_gap :
    (more : RecordIterator → Batch → Result Batch) (b : Batch) (r : RecordView)
    (it : RecordIterator)
    → r.offset ≢ b.offset
    → FailsWith ErrorCode.out_of_range (check_next more b (some r, it))
check_next_gap more b r it gap = elim (Bool-cases (eqb_ℤ r.offset b.offset)) [
  | inl e ↦ absurd (gap ((eqb_ℤ_iff r.offset b.offset).0 e))
  | inr e ↦ rw e refl
]

counted-FailsWith :
    (name : Bytes) (count : ℕ) (code : ErrorCode) (b : Result Batch)
    → FailsWith code b
    → FailsWith code (counted name count b)
counted-FailsWith name count code (failed_with status) h = h
counted-FailsWith name count code (value_of_result b) h = absurd h

-- A batch whose first record does not stand at the end of the follower's log is refused as OUT_OF_RANGE.
pub check_offsets_gap :
    (expected : ℤ) (count : ℕ) (r : RecordView) (rs : List RecordView)
    → FitsRecord r
    → length (append_records (r ∷ rs)) < u64_mod
    → r.offset ≢ expected
    → FailsWith ErrorCode.out_of_range (check_offsets expected count (append_records (r ∷ rs)))
unfolding check_offsets check_loop append_records
check_offsets_gap expected count r rs fit short gap =
    counted-FailsWith (text "replicated") count ErrorCode.out_of_range
      (check_next more b (next_record (iterate input true)))
      (subst
        (λ (step : Option RecordView × RecordIterator).
          FailsWith ErrorCode.out_of_range (check_next more b step))
        (sym (next_record-some r [] (append_records rs) true 0 fit short))
        (check_next_gap more b r
          (standing input true (0 + encoded_record_size r.key r.value) (0 + 1)) gap))
  where
    input : Bytes
    input = append_record r ++ append_records rs

    b : Batch
    b = start_batch input expected

    more : RecordIterator → Batch → Result Batch
    more = check_loop (length input)
