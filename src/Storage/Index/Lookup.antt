-- ===== src/Storage/Index/Lookup.antt =====
-- What `LookupFloor` finds and `TruncateFrom` keeps, against the definitions of a floor and of a cut.
use pulse_log.Base.{
  ℕ, suc, ◌+◌, ◌≤◌, ◌<◌, ◌≡◌, ltb→lt, keep, keep_agree, ◌∙◌, refl, ap, subst, arith, Bool, true,
  leb, leb→le, leb-gt, ltb-ge, inl, inr, Bool-cases, List, [], ◌∷◌, length, get_elem?, Option, none,
  some, All, All-map, All-of, is_empty,
}
use mathlib.Core.Bool.{false≢true}
use pulse_log.Base.Int.{
  ℤ, pos, negsuc, neg_part, pos_part, ◌+ℤ◌, ◌-ℤ◌, ◌<ℤ◌, ◌≤ℤ◌, ltb_ℤ, +ℤ_parts, -ℤ_parts,
}
use pulse_log.Base.Search.{partition_point, partition_point-All, Splits, take-partition_point}
use pulse_log.Storage.Index.{
  OffsetIndexEntry, OffsetIndex, uint32_max, back, before, lookup_floor, index_truncate, to_number,
}
use pulse_log.Storage.Index.Order.{IsIndex, Ascends, FitsEntry, pos-to_number}

Ascends-All :
    (lo : ℤ) (es : List OffsetIndexEntry)
    → Ascends lo es
    → All (λ e. lo <ℤ pos e.relative_offset) es
Ascends-All lo [] a = tt
Ascends-All lo (e ∷ es) (h, a) = (
  h,
  All-map (λ d. pos e.relative_offset <ℤ pos d.relative_offset) (λ d g. omega arith) es
      (Ascends-All (pos e.relative_offset) es a),
)

abbrev pub Occurs : OffsetIndexEntry → List OffsetIndexEntry → Type 0
Occurs e es = (i : ℕ) × (get_elem? es i ≡ some e)

-- The greatest entry that is at most `n`.
abbrev IsFloorAt : ℕ → List OffsetIndexEntry → Option OffsetIndexEntry → Type 0
IsFloorAt n es none = All (λ e. n < e.relative_offset) es
IsFloorAt n es (some f) =
    Occurs f es
    × (f.relative_offset ≤ n)
    × All (λ e. e.relative_offset ≤ n → e.relative_offset ≤ f.relative_offset) es

module _ (n : ℕ) where
  abbrev reaches : OffsetIndexEntry → Bool
  reaches e = leb e.relative_offset n

  IsFloorAt-cons :
      (x y : OffsetIndexEntry) (ys : List OffsetIndexEntry) (o : Option OffsetIndexEntry)
      → x.relative_offset ≤ y.relative_offset
      → y.relative_offset ≤ n
      → IsFloorAt n (y ∷ ys) o
      → IsFloorAt n (x ∷ (y ∷ ys)) o
  IsFloorAt-cons x y ys none xy yn h = absurd (omega (arith, h.0))
  IsFloorAt-cons x y ys (some f) xy yn (occurs, fn, all) =
      ((suc occurs.0, occurs.1), fn, ((λ h. omega (arith, all.0 yn)), all))

  get_elem-IsFloorAt :
      (x : OffsetIndexEntry) (xs : List OffsetIndexEntry)
      → x.relative_offset ≤ n
      → Ascends (pos x.relative_offset) xs
      → IsFloorAt n (x ∷ xs) (get_elem? (x ∷ xs) (partition_point reaches xs))
  unfolding partition_point
  get_elem-IsFloorAt x [] h a = ((0, refl), h, ((λ g. omega arith), tt))
  get_elem-IsFloorAt x (y ∷ ys) h (xy, a) = elim (Bool-cases (leb y.relative_offset n)) [
    | inl e ↦ rw e (
        IsFloorAt-cons x y ys (get_elem? (y ∷ ys) (partition_point reaches ys)) (omega arith)
          (leb→le y.relative_offset n e) (get_elem-IsFloorAt y ys (leb→le y.relative_offset n e) a))
    | inr e ↦ rw e (
      (0, refl),
      h,
      (
        (λ g. omega arith),
        (
          (λ g. omega (arith, leb-gt y.relative_offset n e)),
          All-map (λ d. pos y.relative_offset <ℤ pos d.relative_offset)
              (λ d g k. omega (arith, leb-gt y.relative_offset n e)) ys
              (Ascends-All (pos y.relative_offset) ys a),
        ),
      ),
    )
  ]

  before-IsFloorAt :
      (es : List OffsetIndexEntry)
      → Ascends (negsuc 0) es
      → IsFloorAt n es (before es (partition_point reaches es))
  unfolding partition_point
  before-IsFloorAt [] a = tt
  before-IsFloorAt (x ∷ xs) (lo, a) = elim (Bool-cases (leb x.relative_offset n)) [
    | inl e ↦ rw e (get_elem-IsFloorAt x xs (leb→le x.relative_offset n e) a)
    | inr e ↦ rw e (
      leb-gt x.relative_offset n e,
      All-map (λ d. pos x.relative_offset <ℤ pos d.relative_offset)
          (λ d g. omega (arith, leb-gt x.relative_offset n e)) xs
          (Ascends-All (pos x.relative_offset) xs a),
    )
  ]

get_elem-length :
    (x : OffsetIndexEntry) (xs : List OffsetIndexEntry)
    → get_elem? (x ∷ xs) (length xs) ≡ back (x ∷ xs)
unfolding back
get_elem-length x [] = refl
get_elem-length x (y ∷ ys) = get_elem-length y ys

before-length : (es : List OffsetIndexEntry) → before es (length es) ≡ back es
before-length [] = unfold back in refl
before-length (x ∷ xs) = get_elem-length x xs

back-IsFloorAt :
    (n : ℕ) (es : List OffsetIndexEntry)
    → Ascends (negsuc 0) es
    → All FitsEntry es
    → uint32_max < n
    → IsFloorAt n es (back es)
back-IsFloorAt n es a f far =
    subst (IsFloorAt n es)
      (ap (before es)
          (partition_point-All (reaches n) es (All-map FitsEntry (λ e g. ground arith) es f))
        ∙ before-length es)
      (before-IsFloorAt n es a)

-- The offset that an entry stands for.
abbrev pub entry_offset : ℤ → OffsetIndexEntry → ℤ
entry_offset base e = base +ℤ pos e.relative_offset

-- The entry with the greatest offset that is at most `target`.
abbrev pub IsFloor : ℤ → OffsetIndex → Option OffsetIndexEntry → Type 0
IsFloor target index none = All (λ e. target <ℤ entry_offset index.base_offset e) index.entries
IsFloor target index (some f) =
    Occurs f index.entries
    × (entry_offset index.base_offset f ≤ℤ target)
    × All (λ e. entry_offset index.base_offset e ≤ℤ target → e.relative_offset ≤ f.relative_offset)
        index.entries

module _ (target base : ℤ) (es : List OffsetIndexEntry) (n : ℕ) (r : pos n ≡ target -ℤ base) where
  IsFloorAt→IsFloor :
      (o : Option OffsetIndexEntry)
      → IsFloorAt n es o
      → IsFloor target (record { base_offset = base; entries = es }) o
  IsFloorAt→IsFloor none h =
      All-map (λ e. n < e.relative_offset)
        (λ e g. omega (
          arith,
          ap pos_part r,
          ap neg_part r,
          +ℤ_parts base (pos e.relative_offset),
          -ℤ_parts target base,
        ))
        es h
  IsFloorAt→IsFloor (some f) (occurs, fn, all) = (
    occurs,
    omega (
      arith,
      ap pos_part r,
      ap neg_part r,
      +ℤ_parts base (pos f.relative_offset),
      -ℤ_parts target base,
    ),
    All-map (λ e. e.relative_offset ≤ n → e.relative_offset ≤ f.relative_offset)
        (λ e g k. g (
          omega (
            arith,
            ap pos_part r,
            ap neg_part r,
            +ℤ_parts base (pos e.relative_offset),
            -ℤ_parts target base,
          )))
        es all,
  )

All-of_empty :
    (P : OffsetIndexEntry → Type 0) (es : List OffsetIndexEntry) → is_empty es ≡ true → All P es
All-of_empty P [] h = tt
All-of_empty P (e ∷ es) h = absurd (false≢true h)

-- `LookupFloor` gives the entry with the greatest offset that is at most the target, and nothing if every
-- entry is above the target.
pub lookup_floor-IsFloor :
    (target : ℤ) (index : OffsetIndex)
    → IsIndex index
    → IsFloor target index (lookup_floor target index)
unfolding lookup_floor
lookup_floor-IsFloor target index (a, f) = elim (Bool-cases (is_empty index.entries)) [
  | inl e ↦ rw e (All-of_empty (λ e. target <ℤ entry_offset index.base_offset e) index.entries e)
  | inr full ↦ elim (Bool-cases (ltb_ℤ target index.base_offset)) [
    | inl low ↦
        rw (full, low)
          (All-of (λ e. target <ℤ entry_offset index.base_offset e)
            (λ e. omega (
              arith,
              +ℤ_parts index.base_offset (pos e.relative_offset),
              ltb→lt (pos_part target + neg_part index.base_offset)
                  (pos_part index.base_offset + neg_part target) low,
            ))
            index.entries)
    | inr high ↦ elim (Bool-cases (ltb_ℤ (pos uint32_max) (target -ℤ index.base_offset))) [
      | inl far ↦
          rw (full, high, far)
            (IsFloorAt→IsFloor target index.base_offset index.entries n
              (is_n (
                ltb-ge (pos_part target + neg_part index.base_offset)
                  (pos_part index.base_offset + neg_part target) high))
              (back index.entries)
              (back-IsFloorAt n index.entries a f (
                ground (
                  arith,
                  is_n (
                      ltb-ge (pos_part target + neg_part index.base_offset)
                        (pos_part index.base_offset + neg_part target) high),
                ))))
      | inr near ↦
          rw (full, high, near)
            (IsFloorAt→IsFloor target index.base_offset index.entries n
              (is_n (
                ltb-ge (pos_part target + neg_part index.base_offset)
                  (pos_part index.base_offset + neg_part target) high))
              (before index.entries (partition_point (reaches n) index.entries))
              (before-IsFloorAt n index.entries a))
    ]
  ]
]
  where
    n : ℕ
    n = to_number (target -ℤ index.base_offset)

    is_n : index.base_offset ≤ℤ target → pos n ≡ target -ℤ index.base_offset
    is_n h =
        pos-to_number (target -ℤ index.base_offset)
          (omega (arith, -ℤ_parts target index.base_offset))

module _ (offset base : ℤ) where
  abbrev below : OffsetIndexEntry → Bool
  below e = ltb_ℤ (pos e.relative_offset) (offset -ℤ base)

  Ascends-Splits : (lo : ℤ) (es : List OffsetIndexEntry) → Ascends lo es → Splits below es
  Ascends-Splits lo [] a = tt
  Ascends-Splits lo (e ∷ es) (h, a) = (
    (λ k.
        All-map (λ d. pos e.relative_offset <ℤ pos d.relative_offset) (λ d g. ground arith) es
          (Ascends-All (pos e.relative_offset) es a)),
    Ascends-Splits (pos e.relative_offset) es a,
  )

-- `TruncateFrom` keeps exactly the entries below the offset.
pub index_truncate-keep :
    (offset : ℤ) (index : OffsetIndex)
    → IsIndex index
    → (index_truncate offset index).entries
      ≡ keep (λ e. ltb_ℤ (entry_offset index.base_offset e) offset) index.entries
unfolding index_truncate
index_truncate-keep offset index (a, f) =
    take-partition_point (below offset index.base_offset) index.entries
      (Ascends-Splits offset index.base_offset (negsuc 0) index.entries a)
    ∙ keep_agree (below offset index.base_offset)
        (λ e. ltb_ℤ (entry_offset index.base_offset e) offset) index.entries
        (All-of
          (λ e. below offset index.base_offset e ≡ ltb_ℤ (entry_offset index.base_offset e) offset)
          (λ e. ground (
            arith,
            +ℤ_parts index.base_offset (pos e.relative_offset),
            -ℤ_parts offset index.base_offset,
          ))
          index.entries)
