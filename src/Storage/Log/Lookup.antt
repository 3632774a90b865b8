-- ===== src/Storage/Log/Lookup.antt =====
-- The segment that `Read` starts from is the one that holds the offset.
use pulse_log.Base.{
  ◌+◌, ◌≡◌, refl, sym, subst, arith, Bool, true, leb→le, leb-gt, List, [], ◌∷◌, Bool-cases, inl,
  inr, Option, some, none, get_elem?,
}
use pulse_log.Base.Int.{ℤ, pos_part, neg_part, ◌≤ℤ◌, ◌<ℤ◌, leb_ℤ}
use pulse_log.Base.Search.{partition_point}
use pulse_log.Storage.Index.{before}
use pulse_log.Storage.Segment.{Segment}
use pulse_log.Storage.Log.{PartitionLog, segments, segment_for_offset}
use pulse_log.Storage.Log.Chain.{Chain, IsLog, Chain-append}

-- The offset is one of the segment's.
abbrev pub Holds : ℤ → Option Segment → Type 0
Holds offset none = ⊥
Holds offset (some s) = (s.base_offset ≤ℤ offset) × (offset <ℤ s.next_offset)

module _ (offset : ℤ) where
  abbrev starts : Segment → Bool
  starts s = leb_ℤ s.base_offset offset

  get_elem-Holds :
      (s : Segment) (ss : List Segment) (end : ℤ)
      → s.base_offset ≤ℤ offset
      → Chain s.next_offset ss end
      → offset <ℤ end
      → Holds offset (get_elem? (s ∷ ss) (partition_point starts ss))
  unfolding partition_point
  get_elem-Holds s [] end h c below = (h, subst (λ (x : ℤ). offset <ℤ x) (sym c) below)
  get_elem-Holds s (t ∷ ss) end h (b, n, c) below = elim (Bool-cases (leb_ℤ t.base_offset offset)) [
    | inl e ↦ rw e (
        get_elem-Holds t ss end
          (leb→le (pos_part t.base_offset + neg_part offset)
            (pos_part offset + neg_part t.base_offset) e)
          c below)
    | inr e ↦ rw e (
      h,
      subst (λ (x : ℤ). offset <ℤ x) b
          (leb-gt (pos_part t.base_offset + neg_part offset)
            (pos_part offset + neg_part t.base_offset) e),
    )
  ]

  before-Holds :
      (start end : ℤ) (ss : List Segment)
      → Chain start ss end
      → start ≤ℤ offset
      → offset <ℤ end
      → Holds offset (before ss (partition_point starts ss))
  unfolding partition_point
  before-Holds start end [] c above below =
      absurd (omega (arith, subst (λ (x : ℤ). offset <ℤ x) (sym c) below, above))
  before-Holds start end (s ∷ ss) (b, n, c) above below =
      let at : s.base_offset ≤ℤ offset = subst (λ (x : ℤ). x ≤ℤ offset) (sym b) above in
      let first : leb_ℤ s.base_offset offset ≡ true = ground arith in
      rw first (get_elem-Holds s ss end at c below)

-- From the start of the log and before its end every offset is held by the segment that the search finds.
pub segment_for_offset-Holds :
    (offset : ℤ) (log : PartitionLog)
    → IsLog log
    → log.log_start_offset ≤ℤ offset
    → offset <ℤ log.log_end_offset
    → Holds offset (segment_for_offset offset log)
unfolding segment_for_offset
segment_for_offset-Holds offset log (c, n, e, f) above below =
    before-Holds offset log.log_start_offset log.log_end_offset (segments log)
      (subst (λ (x : ℤ). Chain log.log_start_offset (segments log) x) e
        (Chain-append log.log_start_offset log.active.base_offset log.active.next_offset log.sealed
          log.active refl refl c n))
      above below
