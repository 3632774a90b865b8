-- ===== src/Storage/Log/Chain.antt =====
-- The segments of a log follow one another without a gap, from the log's start to its end.
use pulse_log.Base.{
  ℕ, ◌+◌, ◌≡◌, ◌∙◌, refl, sym, subst, arith, Bool, ◌||◌, ◌&&◌, ltb, ◌==◌, List, [], ◌∷◌, ◌++◌,
  Bool-cases, inl, inr,
}
use pulse_log.Base.Int.{ℤ, pos, ◌-ℤ◌, ◌≤ℤ◌, ltb_ℤ, leb_ℤ, eqb_ℤ}
use pulse_log.Base.Status.{error_is_ok}
use pulse_log.Storage.Segment.{Files, Segment, sync_segment}
use pulse_log.Storage.Log.{PartitionLog, roll_segment, maybe_roll, sync_if_behind, sync_all, flush}

-- From `start` the segments follow one another up to `end`.
abbrev pub Chain : ℤ → List Segment → ℤ → Type 0
Chain start [] end = start ≡ end
Chain start (s ∷ ss) end =
    (s.base_offset ≡ start) × (s.base_offset ≤ℤ s.next_offset) × Chain s.next_offset ss end

abbrev pub IsLog : PartitionLog → Type 0
IsLog log =
    Chain log.log_start_offset log.sealed log.active.base_offset
    × (log.active.base_offset ≤ℤ log.active.next_offset)
    × (log.active.next_offset ≡ log.log_end_offset)
    × (log.flushed_offset ≤ℤ log.log_end_offset)

pub Chain-append :
    (start b n : ℤ) (ss : List Segment) (s : Segment)
    → s.base_offset ≡ b
    → s.next_offset ≡ n
    → Chain start ss b
    → b ≤ℤ n
    → Chain start (ss ++ (s ∷ [])) n
Chain-append start b n [] s p q c h = (
  p ∙ sym c,
  subst (λ (x : ℤ). x ≤ℤ s.next_offset) (sym p) (subst (λ (y : ℤ). b ≤ℤ y) (sym q) h),
  q,
)
Chain-append start b n (x ∷ ss) s p q (xb, xn, c) h =
    (xb, xn, Chain-append x.next_offset b n ss s p q c h)

-- A sync changes no offset.
sync_segment-offsets :
    (files : Files) (s : Segment)
    → ((sync_segment files s).1.base_offset ≡ s.base_offset)
      × ((sync_segment files s).1.next_offset ≡ s.next_offset)
unfolding sync_segment
sync_segment-offsets files s = elim (Bool-cases (s.end_position == s.synced_position)) [
  | inl e ↦ rw e (refl, refl)
  | inr e ↦ elim (Bool-cases (error_is_ok (files.synced s.base_offset).code)) [
    | inl ok ↦ rw (e, ok) (refl, refl)
    | inr failed ↦ rw (e, failed) (refl, refl)
  ]
]

pub roll_segment-IsLog :
    (files : Files) (now : ℤ) (log : PartitionLog)
    → IsLog log
    → IsLog (roll_segment files now log).1
unfolding roll_segment
roll_segment-IsLog files now log (c, n, e, f) = elim (Bool-cases (error_is_ok files.opened.code)) [
  | inr failed ↦ rw failed (c, n, e, f)
  | inl opened ↦ elim (Bool-cases (error_is_ok (sync_segment files log.active).0.code)) [
    | inr failed ↦ rw (opened, failed) (c, n, e, f)
    | inl synced ↦
        rw (opened, synced)
          (
            Chain-append log.log_start_offset log.active.base_offset log.active.next_offset
                log.sealed (sync_segment files log.active).1
                (sync_segment-offsets files log.active).0 (sync_segment-offsets files log.active).1
                c n,
            omega arith,
            e,
            f,
          )
  ]
]

pub maybe_roll-IsLog :
    (files : Files) (now : ℤ) (incoming : ℕ) (log : PartitionLog)
    → IsLog log
    → IsLog (maybe_roll files now incoming log).1
unfolding maybe_roll
maybe_roll-IsLog files now incoming log ok = elim (Bool-cases (rolls log.active.end_position)) [
  | inl e ↦ rw e (roll_segment-IsLog files now log ok)
  | inr e ↦ rw e ok
]
  where
    rolls : ℕ → Bool
    rolls size =
        ltb_ℤ (pos 0) log.options.segment_bytes
          && ltb_ℤ log.options.segment_bytes (pos (size + incoming))
          && ltb 0 size
        || (ltb_ℤ (pos 0) log.options.segment_ms
            && ltb 0 size
            && leb_ℤ log.options.segment_ms (now -ℤ log.active.created_at))
        || ltb 4294967295 (size + incoming)

-- Another segment with the same offsets.
ordered :
    (s s' : Segment)
    → s'.base_offset ≡ s.base_offset
    → s'.next_offset ≡ s.next_offset
    → s.base_offset ≤ℤ s.next_offset
    → s'.base_offset ≤ℤ s'.next_offset
ordered s s' p q n =
    subst (λ (x : ℤ). x ≤ℤ s'.next_offset) (sym p) (subst (λ (y : ℤ). s.base_offset ≤ℤ y) (sym q) n)

sync_if_behind-offsets :
    (files : Files) (s : Segment)
    → ((sync_if_behind files s).1.base_offset ≡ s.base_offset)
      × ((sync_if_behind files s).1.next_offset ≡ s.next_offset)
sync_if_behind-offsets files s = elim (Bool-cases (ltb s.synced_position s.end_position)) [
  | inl e ↦ rw e (sync_segment-offsets files s)
  | inr e ↦ rw e (refl, refl)
]

sync_all-Chain :
    (files : Files) (start end : ℤ) (ss : List Segment)
    → Chain start ss end
    → Chain start (sync_all files ss).1 end
unfolding sync_all
sync_all-Chain files start end [] c = c
sync_all-Chain files start end (s ∷ ss) (b, n, c) =
    elim (Bool-cases (error_is_ok (sync_if_behind files s).0.code)) [
      | inl e ↦ rw e (moved (sync_all files ss).1 (sync_all-Chain files s.next_offset end ss c))
      | inr e ↦ rw e (moved ss c)
    ]
  where
    synced : Segment
    synced = (sync_if_behind files s).1

    moved : (rest : List Segment) → Chain s.next_offset rest end → Chain start (synced ∷ rest) end
    moved rest d =
        let same = sync_if_behind-offsets files s in
        (
          same.0 ∙ b,
          ordered s synced same.0 same.1 n,
          subst (λ (x : ℤ). Chain x rest end) (sym same.1) d,
        )

pub flush-IsLog :
    (files : Files) (now : ℤ) (log : PartitionLog) → IsLog log → IsLog (flush files now log).1
unfolding flush
flush-IsLog files now log (c, n, e, f) =
    elim (Bool-cases (eqb_ℤ log.log_end_offset log.flushed_offset)) [
      | inl up_to_date ↦ rw up_to_date (c, n, e, f)
      | inr behind ↦ elim (Bool-cases (error_is_ok (sync_all files log.sealed).0.code)) [
        | inr failed ↦ rw (behind, failed) (chained, n, e, f)
        | inl ok ↦ elim (Bool-cases (error_is_ok (sync_if_behind files log.active).0.code)) [
          | inr failed ↦ rw (behind, ok, failed) (chained, n, e, f)
          | inl fine ↦
              rw (behind, ok, fine)
                (
                  subst (λ (x : ℤ). Chain log.log_start_offset (sync_all files log.sealed).1 x)
                      (sym same.0) chained,
                  ordered log.active (sync_if_behind files log.active).1 same.0 same.1 n,
                  same.1 ∙ e,
                  omega arith,
                )
        ]
      ]
    ]
  where
    chained : Chain log.log_start_offset (sync_all files log.sealed).1 log.active.base_offset
    chained = sync_all-Chain files log.log_start_offset log.active.base_offset log.sealed c

    same :
        ((sync_if_behind files log.active).1.base_offset ≡ log.active.base_offset)
        × ((sync_if_behind files log.active).1.next_offset ≡ log.active.next_offset)
    same = sync_if_behind-offsets files log.active
