-- ===== src/Storage/Index/Order.antt =====
-- The order of the entries of an index: what `Open` makes of a file, and that the operations keep it.
use pulse_log.Base.{
  ℕ, zero, suc, ◌+◌, ◌*◌, ◌/◌, ◌≤◌, ◌<◌, ◌≡◌, ltb→lt, ◌↔◌, ◌⊎◌, ◌||◌, not, ◌∙◌, refl, sym, ap,
  if◌then◌else◌, subst, arith, false, ltb, ltb-ge, leb-gt, inl, inr, Bool-cases, List, [], ◌∷◌,
  ◌++◌, length, take, drop, length-append, length-take, All-take, All-drop, All-append, Option,
  none, some, All,
}
use mathlib.Core.Bool.{false≢true}
use native.Mathlib.Nat.{pow-le-pow_right}
use pulse_log.Base.Int.{ℤ, pos, negsuc, neg_part, pos_part, ◌-ℤ◌, ◌<ℤ◌, ◌≤ℤ◌, ltb_ℤ, leb_ℤ}
use pulse_log.Base.Keys.{Bytes}
use pulse_log.Base.Types.{ErrorCode}
use pulse_log.Base.Search.{partition_point}
use pulse_log.Base.Status.{Status, ok_status, error_is_ok}
use pulse_log.Protocol.Codec.{store_le, load_le, u32_mod}
use pulse_log.Protocol.Codec.Fields.{load_le-store_le, AreBytes, load_le-lt}
use pulse_log.Storage.Index.{
  OffsetIndexEntry, OffsetIndex, uint32_max, back, encode_entry, decode_entry, load_entries,
  open_index, index_append, index_truncate, append_entry, to_number, follows_back,
}

-- Both numbers of an entry have 32 bits.
abbrev pub FitsEntry : OffsetIndexEntry → Type 0
FitsEntry e = (e.relative_offset < u32_mod) × (e.file_position < u32_mod)

-- Above `lo`, strictly ascending.
abbrev pub Ascends : ℤ → List OffsetIndexEntry → Type 0
Ascends lo [] = Unit
Ascends lo (e ∷ es) = (lo <ℤ pos e.relative_offset) × Ascends (pos e.relative_offset) es

abbrev pub IsIndex : OffsetIndex → Type 0
IsIndex index = Ascends (negsuc 0) index.entries × All FitsEntry index.entries

unfoldable pub encode_entries : List OffsetIndexEntry → Bytes
encode_entries [] = []
encode_entries (e ∷ es) = encode_entry e ++ encode_entries es

length-encode_entry : (e : OffsetIndexEntry) → length (encode_entry e) ≡ 8
unfolding encode_entry store_le
length-encode_entry e = refl

length-encode_entries : (es : List OffsetIndexEntry) → length (encode_entries es) ≡ 8 * length es
unfolding encode_entries
length-encode_entries [] = refl
length-encode_entries (e ∷ es) = omega (
  arith,
  length-append (encode_entry e) (encode_entries es),
  length-encode_entry e,
  length-encode_entries es,
)

decode_entry-encode_entry :
    (e : OffsetIndexEntry) (rest : Bytes) → FitsEntry e → decode_entry (encode_entry e ++ rest) ≡ e
unfolding decode_entry encode_entry store_le
decode_entry-encode_entry e rest h i = record {
  relative_offset = load_le-store_le 4 e.relative_offset h.0 i;
  file_position = load_le-store_le 4 e.file_position h.1 i;
}

drop-encode_entry : (e : OffsetIndexEntry) (rest : Bytes) → drop 8 (encode_entry e ++ rest) ≡ rest
unfolding encode_entry store_le
drop-encode_entry e rest = refl

load_entries_more :
    (count : ℕ) (lo : ℤ) (raw more : Bytes) (e : OffsetIndexEntry)
    → decode_entry raw ≡ e
    → drop 8 raw ≡ more
    → leb_ℤ (pos e.relative_offset) lo ≡ false
    → load_entries (suc count) lo raw ≡ e ∷ load_entries count (pos e.relative_offset) more
unfolding load_entries
load_entries_more count lo raw more e d m h = simp (d, m, h)

load_entries-encode_entries :
    (es : List OffsetIndexEntry) (lo : ℤ) (torn : Bytes)
    → Ascends lo es
    → All FitsEntry es
    → load_entries (length es) lo (encode_entries es ++ torn) ≡ es
unfolding encode_entry store_le
load_entries-encode_entries [] lo torn a f = unfold load_entries in refl
load_entries-encode_entries (e ∷ es) lo torn (lt, a) (f, fs) =
    load_entries_more (length es) lo (encode_entries (e ∷ es) ++ torn) (encode_entries es ++ torn) e
      (unfold encode_entries in decode_entry-encode_entry e (encode_entries es ++ torn) f)
      (unfold encode_entries in drop-encode_entry e (encode_entries es ++ torn)) (ground arith)
    ∙ ap (λ (t : List OffsetIndexEntry). e ∷ t)
        (load_entries-encode_entries es (pos e.relative_offset) torn a fs)

decode_entry-FitsEntry : (raw : Bytes) → AreBytes raw → FitsEntry (decode_entry raw)
unfolding decode_entry
decode_entry-FitsEntry raw h =
    (quarter raw h, quarter (drop 4 raw) (All-drop (λ b. b < 256) 4 raw h))
  where
    quarter : (raw : Bytes) → AreBytes raw → load_le (take 4 raw) < u32_mod
    quarter raw h =
        let few : length (take 4 raw) ≤ 4 = omega (arith, length-take 4 raw) in
        omega (
          arith,
          load_le-lt (take 4 raw) (All-take (λ b. b < 256) 4 raw h),
          pow-le-pow_right {n = 256} (omega arith) few,
        )

load_entries-Ascends : (count : ℕ) (lo : ℤ) (raw : Bytes) → Ascends lo (load_entries count lo raw)
unfolding load_entries
load_entries-Ascends zero lo raw = tt
load_entries-Ascends (suc count) lo raw =
    elim (Bool-cases (leb_ℤ (pos (decode_entry raw).relative_offset) lo)) [
      | inl e ↦ rw e tt
      | inr e ↦ rw e (
        omega
            (arith, leb-gt ((decode_entry raw).relative_offset + neg_part lo) (pos_part lo + 0) e),
        load_entries-Ascends count (pos (decode_entry raw).relative_offset) (drop 8 raw),
      )
    ]

load_entries-FitsEntry :
    (count : ℕ) (lo : ℤ) (raw : Bytes) → AreBytes raw → All FitsEntry (load_entries count lo raw)
unfolding load_entries
load_entries-FitsEntry zero lo raw h = tt
load_entries-FitsEntry (suc count) lo raw h =
    elim (Bool-cases (leb_ℤ (pos (decode_entry raw).relative_offset) lo)) [
      | inl e ↦ rw e tt
      | inr e ↦ rw e (
        decode_entry-FitsEntry raw h,
        load_entries-FitsEntry count (pos (decode_entry raw).relative_offset) (drop 8 raw)
            (All-drop (λ b. b < 256) 8 raw h),
      )
    ]

-- `Open` of the entries that were written, with an entry torn at the end of the file, gives the entries.
pub open_index-encode_entries :
    (base : ℤ) (es : List OffsetIndexEntry) (torn : Bytes)
    → Ascends (negsuc 0) es
    → All FitsEntry es
    → length torn < 8
    → open_index base (encode_entries es ++ torn) ≡ record { base_offset = base; entries = es }
unfolding open_index
open_index-encode_entries base es torn a f short =
    let count : length (encode_entries es ++ torn) / 8 ≡ length es =
      omega (arith, length-append (encode_entries es) torn, length-encode_entries es) in
    rw count (
      ap (λ (t : List OffsetIndexEntry). record { base_offset = base; entries = t })
        (load_entries-encode_entries es (negsuc 0) torn a f))

-- Whatever bytes the file holds.
pub open_index-IsIndex : (base : ℤ) (file : Bytes) → AreBytes file → IsIndex (open_index base file)
unfolding open_index
open_index-IsIndex base file h = (
  load_entries-Ascends (length file / 8) (negsuc 0) file,
  load_entries-FitsEntry (length file / 8) (negsuc 0) file h,
)

-- The number that the last entry gives, or `lo`.
abbrev last_offset : ℤ → Option OffsetIndexEntry → ℤ
last_offset lo none = lo
last_offset lo (some e) = pos e.relative_offset

last_offset-back :
    (lo lo' : ℤ) (e : OffsetIndexEntry) (es : List OffsetIndexEntry)
    → last_offset lo (back (e ∷ es)) ≡ last_offset lo' (back (e ∷ es))
unfolding back
last_offset-back lo lo' e [] = refl
last_offset-back lo lo' e (x ∷ es) = last_offset-back lo lo' x es

Ascends-append :
    (lo : ℤ) (es : List OffsetIndexEntry) (e : OffsetIndexEntry)
    → Ascends lo es
    → last_offset lo (back es) <ℤ pos e.relative_offset
    → Ascends lo (es ++ (e ∷ []))
unfolding back
Ascends-append lo [] e a h = (h, tt)
Ascends-append lo (x ∷ []) e a h = (a.0, (h, tt))
Ascends-append lo (x ∷ (y ∷ es)) e a h = (
  a.0,
  Ascends-append (pos x.relative_offset) (y ∷ es) e a.1 (
      subst (λ (b : ℤ). b <ℤ pos e.relative_offset)
        (last_offset-back lo (pos x.relative_offset) y es) h),
)

Ascends-take :
    (n : ℕ) (lo : ℤ) (es : List OffsetIndexEntry) → Ascends lo es → Ascends lo (take n es)
Ascends-take zero lo es a = tt
Ascends-take (suc n) lo [] a = tt
Ascends-take (suc n) lo (e ∷ es) a = (a.0, Ascends-take n (pos e.relative_offset) es a.1)

pub index_truncate-IsIndex :
    (offset : ℤ) (index : OffsetIndex) → IsIndex index → IsIndex (index_truncate offset index)
unfolding index_truncate
index_truncate-IsIndex offset index (a, f) =
    let cut =
      partition_point (λ e. ltb_ℤ (pos e.relative_offset) (offset -ℤ index.base_offset))
        index.entries in
    (Ascends-take cut (negsuc 0) index.entries a, All-take FitsEntry cut index.entries f)

-- What `Append` asks: the offset and the position are in range, and the offset is above the last entry.
abbrev pub Accepts : ℤ → ℕ → OffsetIndex → Type 0
Accepts offset position index =
    (pos 0 ≤ℤ offset -ℤ index.base_offset)
    × (offset -ℤ index.base_offset ≤ℤ pos uint32_max)
    × (position ≤ uint32_max)
    × (last_offset (negsuc 0) (back index.entries) <ℤ offset -ℤ index.base_offset)

in_range_iff :
    (r : ℤ)
    → ((ltb_ℤ r (pos 0) || ltb_ℤ (pos uint32_max) r) ≡ false)
      ↔ ((pos 0 ≤ℤ r) × (r ≤ℤ pos uint32_max))
in_range_iff (pos n) = ground arith
in_range_iff (negsuc n) = ground arith

follows_back_iff :
    (r : ℤ) (o : Option OffsetIndexEntry)
    → pos 0 ≤ℤ r
    → (not (follows_back (to_number r) o) ≡ false) ↔ (last_offset (negsuc 0) o <ℤ r)
follows_back_iff (pos n) none h = ground arith
follows_back_iff (pos n) (some e) h = ground arith
follows_back_iff (negsuc n) o h = absurd (omega arith)

pub pos-to_number : (r : ℤ) → pos 0 ≤ℤ r → pos (to_number r) ≡ r
pos-to_number (pos n) h = refl
pos-to_number (negsuc n) h = absurd (omega arith)

append_entry-IsIndex :
    (written : Status) (relative position : ℕ) (index : OffsetIndex)
    → IsIndex index
    → relative ≤ uint32_max
    → position ≤ uint32_max
    → last_offset (negsuc 0) (back index.entries) <ℤ pos relative
    → IsIndex
        (append_entry written
          (record { relative_offset = relative; file_position = position })
          index).1
unfolding append_entry
append_entry-IsIndex written relative position index (a, f) r p above =
    elim (Bool-cases (error_is_ok written.code)) [
      | inl e ↦ rw e (
        Ascends-append (negsuc 0) index.entries
            (record { relative_offset = relative; file_position = position }) a above,
        All-append FitsEntry index.entries
            (record { relative_offset = relative; file_position = position } ∷ []) f
            ((omega arith, omega arith), tt),
      )
      | inr e ↦ rw e (a, f)
    ]

module _ (written : Status) (offset : ℤ) (position : ℕ) (index : OffsetIndex) where
  append_or_refuse :
      (Accepts offset position index
        × (index_append written offset position index
            ≡ append_entry written
                (record {
                  relative_offset = to_number (offset -ℤ index.base_offset);
                  file_position = position;
                })
                index))
      ⊎ ((¬ Accepts offset position index)
          × (index_append written offset position index).1 ≡ index
          × (index_append written offset position index).0.code ≡ ErrorCode.invalid_argument)
  unfolding index_append
  append_or_refuse = elim (Bool-cases (ltb_ℤ relative (pos 0) || ltb_ℤ (pos uint32_max) relative)) [
    | inl out ↦
        rw out (
          inr ((λ ok. false≢true (sym ((in_range_iff relative).1 (ok.0, ok.1)) ∙ out)), refl, refl))
    | inr in_range ↦ elim (Bool-cases (ltb uint32_max position)) [
      | inl far ↦
          rw (in_range, far)
            (inr ((λ ok. omega (arith, ltb→lt uint32_max position far, ok.2)), refl, refl))
      | inr near ↦
          elim (Bool-cases (not (follows_back (to_number relative) (back index.entries)))) [
            | inl back_too_high ↦
                rw (in_range, near, back_too_high)
                  (inr (
                    (λ ok. false≢true (
                        sym ((follows_back_iff relative (back index.entries) ok.0).1 ok.3)
                        ∙ back_too_high)),
                    refl,
                    refl,
                  ))
            | inr follows ↦
                let bounds = (in_range_iff relative).0 in_range in
                rw (in_range, near, follows)
                  (inl (
                    (
                      bounds.0,
                      bounds.1,
                      ltb-ge uint32_max position near,
                      (follows_back_iff relative (back index.entries) bounds.0).0 follows,
                    ),
                    refl,
                  ))
          ]
    ]
  ]
    where
      relative : ℤ
      relative = offset -ℤ index.base_offset

  -- `Append` takes an entry exactly if its offset is at or above the base offset, at most 2^32 - 1 above it
  -- and above the last entry, and its position has 32 bits. Then the entry, with that offset and position,
  -- is put behind the entries if its write succeeds; if the write fails the index stays and the answer is
  -- that of the write. Otherwise the answer is INVALID_ARGUMENT and the index stays.
  pub index_append_cases :
      (Accepts offset position index
        × ((e : OffsetIndexEntry) × (pos e.relative_offset ≡ offset -ℤ index.base_offset)
            × (e.file_position ≡ position)
            × (index_append written offset position index ≡ (
                if error_is_ok written.code
                then (
                  ok_status,
                  record { base_offset = index.base_offset; entries = index.entries ++ (e ∷ []) },
                )
                else (written, index)))))
      ⊎ ((¬ Accepts offset position index)
          × (index_append written offset position index).1 ≡ index
          × (index_append written offset position index).0.code ≡ ErrorCode.invalid_argument)
  unfolding append_entry
  index_append_cases = elim append_or_refuse [
    | inl (ok, e) ↦ inl (
      ok,
      (
        record {
          relative_offset = to_number (offset -ℤ index.base_offset);
          file_position = position;
        },
        pos-to_number (offset -ℤ index.base_offset) ok.0,
        refl,
        e,
      ),
    )
    | inr refused ↦ inr refused
  ]

  -- Append keeps the index well formed, whatever offset and position it is given and whether or not the
  -- write of the entry succeeds: the offsets of the entries ascend strictly and fit into 32 bits.
  pub index_append-IsIndex : IsIndex index → IsIndex (index_append written offset position index).1
  index_append-IsIndex (a, f) = elim append_or_refuse [
    | inl (ok, e) ↦ rw e (
        append_entry-IsIndex written (to_number (offset -ℤ index.base_offset)) position index (a, f)
          (ground (arith, pos-to_number (offset -ℤ index.base_offset) ok.0)) (omega (arith, ok.2))
          (subst (λ (r : ℤ). last_offset (negsuc 0) (back index.entries) <ℤ r)
            (sym (pos-to_number (offset -ℤ index.base_offset) ok.0)) ok.3))
    | inr (refused, e, code) ↦ rw e (a, f)
  ]
