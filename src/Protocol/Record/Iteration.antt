-- ===== src/Protocol/Record/Iteration.antt =====
-- `RecordIterator` over a run of records, and what a record that is parsed keeps to.
use pulse_log.Base.{
  ℕ, zero, suc, ◌+◌, ◌<◌, ◌≡◌, ◌∙◌, ap, sym, subst, arith, Bool, true, false, leb, length, List, [],
  ◌∷◌, ◌++◌, Option, some, none, length-append, All,
}
use mathlib.Core.List.{append_assoc, append-nil}
use pulse_log.Base.Keys.{Bytes}
use pulse_log.Base.Status.{ok_status}
use pulse_log.Protocol.Codec.{u64_mod}
use pulse_log.Protocol.Record.{
  RecordView, encoded_record_size, append_record, RecordIterator, iterate, next_record,
}
use pulse_log.Protocol.Record.Layout.{length-append_record}
use pulse_log.Protocol.Record.Parsing.{FitsRecord, parse_record-append_record, size-ge}

-- A produce request, a range of a segment or the body of a fetch response.
unfoldable pub append_records : List RecordView → Bytes
append_records [] = []
append_records (r ∷ rs) = append_record r ++ append_records rs

-- The records that calls of `Next` give, `turns` of them at most, up to the first `false`.
abbrev pub collected :
    (RecordIterator → List RecordView × RecordIterator)
    → Option RecordView × RecordIterator
    → List RecordView × RecordIterator
collected more (none, it) = ([], it)
collected more (some r, it) = (r ∷ (more it).0, (more it).1)

unfoldable pub collect : ℕ → RecordIterator → List RecordView × RecordIterator
collect zero it = ([], it)
collect (suc turns) it = collected (λ (next : RecordIterator). collect turns next) (next_record it)

-- An iterator over `input` that has read `n` records and stands at `position`.
abbrev pub standing : Bytes → Bool → ℕ → ℕ → RecordIterator
standing input verify_crc position n = record {
  input = input;
  verify_crc = verify_crc;
  position = position;
  records_read = n;
  status = ok_status;
}

pub next_record_end :
    (input : Bytes) (v : Bool) (n : ℕ)
    → next_record (standing input v (length input) n) ≡ (none, standing input v (length input) n)
unfolding next_record
next_record_end input v n =
    let over : leb (length input) (length input) ≡ true = ground arith in simp over

pub next_record-some :
    (r : RecordView) (before after : Bytes) (v : Bool) (n : ℕ)
    → FitsRecord r
    → length (before ++ (append_record r ++ after)) < u64_mod
    → next_record (standing (before ++ (append_record r ++ after)) v (length before) n) ≡ (
      some r,
      standing
          (before ++ (append_record r ++ after))
          v
          (length before + encoded_record_size r.key r.value)
          (n + 1),
    )
unfolding next_record
next_record-some r before after v n fits short =
    let more : leb (length (before ++ (append_record r ++ after))) (length before) ≡ false =
      ground (
        arith,
        length-append before (append_record r ++ after),
        length-append (append_record r) after,
        length-append_record r,
        size-ge r before after fits,
      ) in
    simp (more, parse_record-append_record r before after fits v short)

-- The iterator in the middle of a run.
collect_from :
    (rs : List RecordView) (before : Bytes) (v : Bool) (n : ℕ)
    → All FitsRecord rs
    → length (before ++ append_records rs) < u64_mod
    → collect (suc (length rs)) (standing (before ++ append_records rs) v (length before) n) ≡ (
      rs,
      standing
          (before ++ append_records rs)
          v
          (length (before ++ append_records rs))
          (n + length rs),
    )
unfolding collect append_records
collect_from [] before v n fits short = rw (append-nil before) (
    ap (collected (λ (next : RecordIterator). ([], next))) (next_record_end before v n)
    ∙ ap (λ (m : ℕ). ([], standing before v (length before) m)) {x = n} {y = n + 0} (omega arith))
collect_from (r ∷ rs) before v n (fit, fits) short =
    ap (collected (collect (suc (length rs))))
      (next_record-some r before (append_records rs) v n fit short ∙ start)
    ∙ ap (λ (c : List RecordView × RecordIterator). (r ∷ c.0, c.1))
        (collect_from rs (before ++ append_record r) v (n + 1) fits shorter)
    ∙ ap (λ (t : Bytes). (r ∷ rs, standing t v (length t) (n + 1 + length rs))) assoc
    ∙ ap
        (λ (m : ℕ). (
          r ∷ rs,
          standing (before ++ (append_record r ++ append_records rs)) v
              (length (before ++ (append_record r ++ append_records rs))) m,
        ))
        {x = n + 1 + length rs} {y = n + suc (length rs)} (omega arith)
  where
    assoc :
        (before ++ append_record r) ++ append_records rs
        ≡ before ++ (append_record r ++ append_records rs)
    assoc = append_assoc before (append_record r) (append_records rs)

    shorter : length ((before ++ append_record r) ++ append_records rs) < u64_mod
    shorter = subst (λ (t : Bytes). length t < u64_mod) (sym assoc) short

    start :
        ◌≡◌ {A = Option RecordView × RecordIterator}
          (
            some r,
            standing
                (before ++ (append_record r ++ append_records rs))
                v
                (length before + encoded_record_size r.key r.value)
                (n + 1),
          )
          (
            some r,
            standing
                ((before ++ append_record r) ++ append_records rs)
                v
                (length (before ++ append_record r))
                (n + 1),
          )
    start =
        ap
          (λ (p : ℕ).
            (some r, standing (before ++ (append_record r ++ append_records rs)) v p (n + 1)))
          {x = length before + encoded_record_size r.key r.value}
          {y = length (before ++ append_record r)}
          (omega (arith, length-append before (append_record r), length-append_record r))
        ∙ ap (λ (t : Bytes). (some r, standing t v (length (before ++ append_record r)) (n + 1)))
            (sym assoc)

-- The iterator gives the records of a run in order, and then stops without an error at its end.
pub collect-append_records :
    (rs : List RecordView) (verify_crc : Bool)
    → All FitsRecord rs
    → length (append_records rs) < u64_mod
    → collect (suc (length rs)) (iterate (append_records rs) verify_crc)
      ≡ (rs, standing (append_records rs) verify_crc (length (append_records rs)) (length rs))
collect-append_records rs v fits short =
    collect_from rs [] v 0 fits short
    ∙ ap (λ (m : ℕ). (rs, standing (append_records rs) v (length (append_records rs)) m))
        {x = 0 + length rs} {y = length rs} (omega arith)
