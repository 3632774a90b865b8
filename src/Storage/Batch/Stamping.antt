-- ===== src/Storage/Batch/Stamping.antt =====
-- What the leader's loop makes of a batch: the same records with consecutive offsets.
use pulse_log.Base.{
  ℕ, zero, suc, ◌+◌, ◌-◌, ◌<◌, ◌≤◌, ◌≡◌, ◌∙◌, refl, ap, sym, arith, true, false, ltb, List, [], ◌∷◌,
  ◌++◌, length, drop, take-append, drop-append, drop-drop, length-append, All,
}
use mathlib.Core.List.{append_assoc, append-nil}
use pulse_log.Base.Int.{ℤ, pos, negsuc, ◌+ℤ◌, max_ℤ, +ℤ_parts, eq_of_parts}
use pulse_log.Base.Keys.{Bytes}
use pulse_log.Base.Text.{text}
use pulse_log.Base.Status.{Result, value_of_result}
use pulse_log.Protocol.Codec.{u64_mod}
use pulse_log.Protocol.Frame.Layout.{same}
use pulse_log.Protocol.Record.{RecordView, encoded_record_size, append_record}
use pulse_log.Protocol.Record.Layout.{length-append_record, rewrite_record_header-append_record}
use pulse_log.Protocol.Record.Parsing.{FitsRecord, parse_record-append_record, size-ge}
use pulse_log.Protocol.Record.Iteration.{append_records}
use pulse_log.Storage.Batch.{
  Batch, stamped_time, rewrite_at, stamp_record, stamp_loop, counted, assign_offsets,
}

-- The records with offsets from `base` on, and with the time of the append where they have none.
abbrev pub restamp : ℤ → ℤ → RecordView → RecordView
restamp append_time offset r = record r {
  offset = offset;
  timestamp = stamped_time append_time r.timestamp;
}

unfoldable pub stamp_all : ℤ → ℤ → List RecordView → List RecordView
stamp_all append_time base [] = []
stamp_all append_time base (r ∷ rs) =
    restamp append_time base r ∷ stamp_all append_time (base +ℤ pos 1) rs

-- The offset and the greatest timestamp after the records.
unfoldable pub end_offset : ℤ → List RecordView → ℤ
end_offset base [] = base
end_offset base (r ∷ rs) = end_offset (base +ℤ pos 1) rs

unfoldable pub latest : ℤ → ℤ → List RecordView → ℤ
latest append_time max_timestamp [] = max_timestamp
latest append_time max_timestamp (r ∷ rs) =
    latest append_time (max_ℤ max_timestamp (stamped_time append_time r.timestamp)) rs

length-rewritten :
    (r : RecordView) (t o : ℤ) → length (append_record (restamp t o r)) ≡ length (append_record r)
length-rewritten r t o = length-append_record (restamp t o r) ∙ sym (length-append_record r)

-- A record in the middle of the buffer is rewritten in place.
rewrite_at-append_record :
    (r : RecordView) (before after : Bytes) (offset timestamp : ℤ)
    → rewrite_at
        (before ++ (append_record r ++ after))
        (length before)
        (length before + encoded_record_size r.key r.value)
        offset
        timestamp
      ≡ before ++ (append_record (record r { offset = offset; timestamp = timestamp }) ++ after)
rewrite_at-append_record r before after offset timestamp =
    let size : length before + encoded_record_size r.key r.value - length before
        ≡ length (append_record r) =
      omega (arith, length-append_record r) in
    let behind : drop (length before + encoded_record_size r.key r.value)
          (before ++ (append_record r ++ after))
        ≡ after =
      sym (
        drop-drop (length before) (length (append_record r))
          (length before + encoded_record_size r.key r.value) (before ++ (append_record r ++ after))
          (omega (arith, length-append_record r)))
      ∙ ap (drop (length (append_record r))) (drop-append before (append_record r ++ after))
      ∙ drop-append (append_record r) after in
    simp (
      size,
      behind,
      take-append before (append_record r ++ after),
      drop-append before (append_record r ++ after),
      take-append (append_record r) after,
      rewrite_record_header-append_record offset timestamp r,
    )

abbrev pub batch : Bytes → ℤ → ℤ → ℕ → Batch
batch records offset max_timestamp seen = record {
  records = records;
  offset = offset;
  max_timestamp = max_timestamp;
  seen = seen;
}

module _ (t : ℤ) where
  -- One turn of the loop, on a record that was appended.
  stamp_loop_some :
      (turns : ℕ) (r : RecordView) (before after : Bytes) (o m : ℤ) (n : ℕ)
      → FitsRecord r
      → length (before ++ (append_record r ++ after)) < u64_mod
      → stamp_loop
          (suc turns)
          t
          (length before)
          (batch (before ++ (append_record r ++ after)) o m n)
        ≡ stamp_loop turns t (length (before ++ append_record (restamp t o r))) (
            batch
              ((before ++ append_record (restamp t o r)) ++ after)
              (o +ℤ pos 1)
              (max_ℤ m (stamped_time t r.timestamp))
              (n + 1))
  unfolding stamp_loop stamp_record
  stamp_loop_some turns r before after o m n fits short =
      let more : ltb (length before) (length (before ++ (append_record r ++ after))) ≡ true =
        ground (
          arith,
          length-append before (append_record r ++ after),
          length-append (append_record r) after,
          length-append_record r,
          size-ge r before after fits,
        ) in
      simp (more, parse_record-append_record r before after fits false short)
        (ap
            (λ (bytes : Bytes).
              stamp_loop turns t (length before + encoded_record_size r.key r.value)
                (batch bytes (o +ℤ pos 1) (max_ℤ m (stamped_time t r.timestamp)) (n + 1)))
            (rewrite_at-append_record r before after o (stamped_time t r.timestamp)
              ∙ sym (append_assoc before (append_record (restamp t o r)) after))
          ∙ ap
              (λ (p : ℕ). stamp_loop turns t p (
                batch ((before ++ append_record (restamp t o r)) ++ after) (o +ℤ pos 1)
                  (max_ℤ m (stamped_time t r.timestamp)) (n + 1)))
              {x = length before + encoded_record_size r.key r.value}
              {y = length (before ++ append_record (restamp t o r))}
              (omega (
                arith,
                length-append before (append_record (restamp t o r)),
                length-append_record (restamp t o r),
              )))

  stamp_loop_end :
      (turns : ℕ) (bytes : Bytes) (o m : ℤ) (n : ℕ)
      → stamp_loop turns t (length bytes) (batch bytes o m n) ≡ value_of_result (batch bytes o m n)
  unfolding stamp_loop
  stamp_loop_end zero bytes o m n = refl
  stamp_loop_end (suc turns) bytes o m n =
      let over : ltb (length bytes) (length bytes) ≡ false = ground arith in simp over

  stamp_loop_from :
      (turns : ℕ) (rs : List RecordView) (before : Bytes) (o m : ℤ) (n : ℕ)
      → length rs ≤ turns
      → All FitsRecord rs
      → length (before ++ append_records rs) < u64_mod
      → stamp_loop turns t (length before) (batch (before ++ append_records rs) o m n)
        ≡ value_of_result (
            batch
              (before ++ append_records (stamp_all t o rs))
              (end_offset o rs)
              (latest t m rs)
              (n + length rs))
  unfolding append_records stamp_all end_offset latest
  stamp_loop_from turns [] before o m n few fits short = rw (append-nil before) (
      stamp_loop_end turns before o m n
      ∙ ap (λ (k : ℕ). value_of_result (batch before o m k)) {x = n} {y = n + 0} (omega arith))
  stamp_loop_from zero (r ∷ rs) before o m n few fits short = absurd (omega (arith, few))
  stamp_loop_from (suc turns) (r ∷ rs) before o m n few (fit, fits) short =
      stamp_loop_some turns r before (append_records rs) o m n fit short
      ∙ stamp_loop_from turns rs (before ++ append_record (restamp t o r)) (o +ℤ pos 1)
          (max_ℤ m (stamped_time t r.timestamp)) (n + 1) (omega (arith, few)) fits
          (omega (
            arith,
            short,
            length-append (before ++ append_record (restamp t o r)) (append_records rs),
            length-append before (append_record (restamp t o r)),
            length-append before (append_record r ++ append_records rs),
            length-append (append_record r) (append_records rs),
            length-rewritten r t o,
          ))
      ∙ ap
          (λ (bytes : Bytes). value_of_result (
            batch bytes (end_offset (o +ℤ pos 1) rs)
              (latest t (max_ℤ m (stamped_time t r.timestamp)) rs) (n + 1 + length rs)))
          (append_assoc before (append_record (restamp t o r))
            (append_records (stamp_all t (o +ℤ pos 1) rs)))
      ∙ ap
          (λ (k : ℕ). value_of_result (
            batch
              (before
                ++ (append_record (restamp t o r) ++ append_records (stamp_all t (o +ℤ pos 1) rs)))
              (end_offset (o +ℤ pos 1) rs) (latest t (max_ℤ m (stamped_time t r.timestamp)) rs) k))
          {x = n + 1 + length rs} {y = n + suc (length rs)} (omega arith)

pub end_offset_lem : (o : ℤ) (rs : List RecordView) → end_offset o rs ≡ o +ℤ pos (length rs)
unfolding end_offset
end_offset_lem o [] = eq_of_parts o (o +ℤ pos 0) (omega (arith, +ℤ_parts o (pos 0)))
end_offset_lem o (r ∷ rs) =
    end_offset_lem (o +ℤ pos 1) rs
    ∙ eq_of_parts ((o +ℤ pos 1) +ℤ pos (length rs)) (o +ℤ pos (suc (length rs))) (
        omega (
          arith,
          +ℤ_parts (o +ℤ pos 1) (pos (length rs)),
          +ℤ_parts o (pos 1),
          +ℤ_parts o (pos (suc (length rs))),
        ))

pub length-append_records :
    (rs : List RecordView) → All FitsRecord rs → length rs ≤ length (append_records rs)
unfolding append_records
length-append_records [] fits = omega arith
length-append_records (r ∷ rs) (fit, fits) = omega (
  arith,
  length-append (append_record r) (append_records rs),
  length-append_record r,
  size-ge r [] [] fit,
  length-append_records rs fits,
)

-- From a batch of well-formed records the leader makes the same records with consecutive offsets from its
-- next offset on, with the time of the append where a record has none, and with checksums that fit. The
-- offset after them is the next offset and their number.
pub assign_offsets-append_records :
    (append_time base : ℤ) (rs : List RecordView)
    → All FitsRecord rs
    → length (append_records rs) < u64_mod
    → assign_offsets append_time base (length rs) (append_records rs)
      ≡ value_of_result (record {
        records = append_records (stamp_all append_time base rs);
        offset = base +ℤ pos (length rs);
        max_timestamp = latest append_time (negsuc 0) rs;
        seen = length rs;
      })
unfolding assign_offsets
assign_offsets-append_records t base rs fits short =
    ap (counted (text "produce") (length rs)) (
      stamp_loop_from t (length (append_records rs)) rs [] base (negsuc 0) 0
        (length-append_records rs fits) fits short
      ∙ tidy)
    ∙ accepted
  where
    tidy :
        ◌≡◌ {A = Result Batch}
          (value_of_result (
            batch
              (append_records (stamp_all t base rs))
              (end_offset base rs)
              (latest t (negsuc 0) rs)
              (0 + length rs)))
          (value_of_result (
            batch
              (append_records (stamp_all t base rs))
              (base +ℤ pos (length rs))
              (latest t (negsuc 0) rs)
              (length rs)))
    tidy =
        ap
          (λ (o : ℤ). value_of_result (
            batch (append_records (stamp_all t base rs)) o (latest t (negsuc 0) rs)
              (0 + length rs)))
          (end_offset_lem base rs)
        ∙ ap
            (λ (k : ℕ). value_of_result (
              batch (append_records (stamp_all t base rs)) (base +ℤ pos (length rs))
                (latest t (negsuc 0) rs) k))
            {x = 0 + length rs} {y = length rs} (omega arith)

    accepted :
        counted (text "produce") (length rs) (
          value_of_result (
            batch
              (append_records (stamp_all t base rs))
              (base +ℤ pos (length rs))
              (latest t (negsuc 0) rs)
              (length rs)))
        ≡ value_of_result (
            batch
              (append_records (stamp_all t base rs))
              (base +ℤ pos (length rs))
              (latest t (negsuc 0) rs)
              (length rs))
    accepted = simp (same (length rs))
