-- ===== src/Storage/TimeIndex/Order.antt =====
-- The timestamps of the time index do not fall, and what `LookupCeiling` finds.
use pulse_log.Base.{
  ℕ, zero, suc, ◌+◌, ◌/◌, ◌≡◌, refl, ap, arith, ltb-ge, ltb→lt, inl, inr, Bool-cases, Bool, false,
  if◌then◌else◌, List, [], ◌∷◌, ◌++◌, length, take, drop, get_elem?, is_empty, Option, none, some,
  All, ◌||◌,
}
use pulse_log.Base.Int.{ℤ, pos, negsuc, pos_part, neg_part, ◌-ℤ◌, ◌+ℤ◌, ◌≤ℤ◌, ◌<ℤ◌, ltb_ℤ}
use pulse_log.Base.Keys.{Bytes}
use pulse_log.Base.Search.{partition_point}
use pulse_log.Base.Status.{Status, error_is_ok}
use pulse_log.Storage.Index.{back, to_number, uint32_max}
use pulse_log.Storage.TimeIndex.{
  TimeIndexEntry, TimeIndex, decode_time_entry, load_time_entries, open_time_index, regresses,
  append_time_entry, time_append, found_offset, lookup_ceiling, time_truncate,
}

-- From `lo` on, not falling.
abbrev pub Rises : ℤ → List TimeIndexEntry → Type 0
Rises lo [] = Unit
Rises lo (e ∷ es) = (lo ≤ℤ e.timestamp) × Rises e.timestamp es

-- Each timestamp is at least the one before it.
abbrev pub IsRising : List TimeIndexEntry → Type 0
IsRising [] = Unit
IsRising (e ∷ es) = Rises e.timestamp es

load_time_entries-Rises :
    (count : ℕ) (lo : ℤ) (raw : Bytes) → Rises lo (load_time_entries count lo raw)
unfolding load_time_entries
load_time_entries-Rises zero lo raw = tt
load_time_entries-Rises (suc count) lo raw =
    elim (Bool-cases (ltb_ℤ (decode_time_entry raw).timestamp lo)) [
      | inl e ↦ rw e tt
      | inr e ↦ rw e (
        ltb-ge (pos_part (decode_time_entry raw).timestamp + neg_part lo)
            (pos_part lo + neg_part (decode_time_entry raw).timestamp) e,
        load_time_entries-Rises count (decode_time_entry raw).timestamp (drop 12 raw),
      )
    ]

Rises-IsRising : (lo : ℤ) (es : List TimeIndexEntry) → Rises lo es → IsRising es
Rises-IsRising lo [] h = tt
Rises-IsRising lo (e ∷ es) h = h.1

pub open_time_index-IsRising :
    (base : ℤ) (file : Bytes) → IsRising (open_time_index base file).entries
unfolding open_time_index
open_time_index-IsRising base file =
    Rises-IsRising (negsuc 0) (load_time_entries (length file / 12) (negsuc 0) file)
      (load_time_entries-Rises (length file / 12) (negsuc 0) file)

Rises-append :
    (x : TimeIndexEntry) (xs : List TimeIndexEntry) (e : TimeIndexEntry)
    → Rises x.timestamp xs
    → regresses e.timestamp (back (x ∷ xs)) ≡ false
    → Rises x.timestamp (xs ++ (e ∷ []))
unfolding back
Rises-append x [] e a h = (
  ltb-ge (pos_part e.timestamp + neg_part x.timestamp) (pos_part x.timestamp + neg_part e.timestamp)
      h,
  tt,
)
Rises-append x (y ∷ ys) e (xy, a) h = (xy, Rises-append y ys e a h)

IsRising-append :
    (es : List TimeIndexEntry) (e : TimeIndexEntry)
    → IsRising es
    → regresses e.timestamp (back es) ≡ false
    → IsRising (es ++ (e ∷ []))
IsRising-append [] e a h = tt
IsRising-append (x ∷ xs) e a h = Rises-append x xs e a h

append_time_entry-IsRising :
    (written : Status) (e : TimeIndexEntry) (index : TimeIndex)
    → IsRising index.entries
    → regresses e.timestamp (back index.entries) ≡ false
    → IsRising (append_time_entry written e index).1.entries
unfolding append_time_entry
append_time_entry-IsRising written e index a h = elim (Bool-cases (error_is_ok written.code)) [
  | inl ok ↦ rw ok (IsRising-append index.entries e a h)
  | inr failed ↦ rw failed a
]

-- `Append` keeps the timestamps of the index from falling, whatever timestamp and offset it is given.
pub time_append-IsRising :
    (written : Status) (timestamp offset : ℤ) (index : TimeIndex)
    → IsRising index.entries
    → IsRising (time_append written timestamp offset index).1.entries
unfolding time_append
time_append-IsRising written timestamp offset index a =
    elim (Bool-cases (regresses timestamp (back index.entries))) [
      | inl e ↦ rw e a
      | inr e ↦ elim (Bool-cases (ltb_ℤ relative (pos 0) || ltb_ℤ (pos uint32_max) relative)) [
        | inl out ↦ rw (e, out) a
        | inr in_range ↦
            rw (e, in_range)
              (append_time_entry-IsRising written
                (record { timestamp = timestamp; relative_offset = to_number relative }) index a e)
      ]
    ]
  where
    relative : ℤ
    relative = offset -ℤ index.base_offset

Rises-take : (n : ℕ) (lo : ℤ) (es : List TimeIndexEntry) → Rises lo es → Rises lo (take n es)
Rises-take zero lo es a = tt
Rises-take (suc n) lo [] a = tt
Rises-take (suc n) lo (e ∷ es) a = (a.0, Rises-take n e.timestamp es a.1)

pub time_truncate-IsRising :
    (offset : ℤ) (index : TimeIndex)
    → IsRising index.entries
    → IsRising (time_truncate offset index).entries
unfolding time_truncate
time_truncate-IsRising offset index a =
    IsRising-take
      (partition_point (λ e. ltb_ℤ (pos e.relative_offset) (offset -ℤ index.base_offset))
        index.entries)
      index.entries a
  where
    IsRising-take : (n : ℕ) (es : List TimeIndexEntry) → IsRising es → IsRising (take n es)
    IsRising-take zero es a = tt
    IsRising-take (suc n) [] a = tt
    IsRising-take (suc n) (e ∷ es) a = Rises-take n e.timestamp es a

abbrev earlier : ℤ → TimeIndexEntry → Bool
earlier t e = ltb_ℤ e.timestamp t

IsRising-late :
    (t : ℤ) (e : TimeIndexEntry) (es : List TimeIndexEntry)
    → Rises e.timestamp es
    → t ≤ℤ e.timestamp
    → All (λ x. t ≤ℤ x.timestamp) es
IsRising-late t e [] a h = tt
IsRising-late t e (x ∷ es) (b, a) h =
    let k : t ≤ℤ x.timestamp = omega arith in (k, IsRising-late t x es a k)

-- No entry is at or after `t`; or the answer is the offset, from the base, of an entry, and `t` is after
-- the entries before that one and not after it and those behind it.
abbrev pub IsCeiling : ℤ → TimeIndex → Option ℤ → Type 0
IsCeiling t index none = All (λ e. e.timestamp <ℤ t) index.entries
IsCeiling t index (some offset) =
    (before : List TimeIndexEntry) × (e : TimeIndexEntry) × (after : List TimeIndexEntry)
    × (index.entries ≡ before ++ (e ∷ after))
    × (offset ≡ index.base_offset +ℤ pos e.relative_offset)
    × All (λ x. x.timestamp <ℤ t) before
    × All (λ x. t ≤ℤ x.timestamp) (e ∷ after)

IsCeiling-cons :
    (t base : ℤ) (x : TimeIndexEntry) (es : List TimeIndexEntry) (o : Option ℤ)
    → x.timestamp <ℤ t
    → IsCeiling t (record { base_offset = base; entries = es }) o
    → IsCeiling t (record { base_offset = base; entries = x ∷ es }) o
IsCeiling-cons t base x es none h c = (h, c)
IsCeiling-cons t base x es (some offset) h (before, e, after, split, at, early, late) =
    (x ∷ before, e, after, ap (λ (l : List TimeIndexEntry). x ∷ l) split, at, (h, early), late)

found_offset-IsCeiling :
    (t base : ℤ) (es : List TimeIndexEntry)
    → IsRising es
    → IsCeiling t
        (record { base_offset = base; entries = es })
        (found_offset base (get_elem? es (partition_point (earlier t) es)))
unfolding partition_point
found_offset-IsCeiling t base [] a = tt
found_offset-IsCeiling t base (e ∷ es) a = elim (Bool-cases (ltb_ℤ e.timestamp t)) [
  | inl early ↦ rw early (
      IsCeiling-cons t base e es (found_offset base (get_elem? es (partition_point (earlier t) es)))
        (ltb→lt _ _ early) (found_offset-IsCeiling t base es (Rises-IsRising e.timestamp es a)))
  | inr late ↦
      let k = ltb-ge (pos_part e.timestamp + neg_part t) (pos_part t + neg_part e.timestamp) late in
      rw late ([], e, es, refl, refl, tt, (k, IsRising-late t e es a k))
]

-- `LookupCeiling` gives the offset of the first entry whose timestamp is at least the one asked for, that
-- is the base offset and what the entry says; the timestamps behind it are no earlier. It gives nothing
-- if every entry is earlier.
pub lookup_ceiling-IsCeiling :
    (t : ℤ) (index : TimeIndex)
    → IsRising index.entries
    → IsCeiling t index (lookup_ceiling t index)
unfolding lookup_ceiling partition_point
lookup_ceiling-IsCeiling t index a = from index.entries a
  where
    from :
        (es : List TimeIndexEntry)
        → IsRising es
        → IsCeiling t
            (record { base_offset = index.base_offset; entries = es })
            (if is_empty es
              then none
              else found_offset index.base_offset (get_elem? es (partition_point (earlier t) es)))
    from [] h = tt
    from (e ∷ es) h = found_offset-IsCeiling t index.base_offset (e ∷ es) h
