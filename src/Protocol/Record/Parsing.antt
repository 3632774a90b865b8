-- ===== src/Protocol/Record/Parsing.antt =====
-- `ParseRecord` on a record that was appended, at any place of the data.
use pulse_log.Base.{
  ℕ, ◌+◌, ◌-◌, ◌%◌, ◌<◌, ◌≤◌, ◌≡◌, ◌==◌, ◌&&◌, ◌∙◌, refl, ap, sym, subst, arith, Bool, true, false,
  ltb, length, take, drop, take-append, drop-append, take-append-drop, drop-drop, ◌++◌, Option,
  some, none, length-append,
}
use mathlib.Core.List.{append_assoc}
use pulse_log.Base.Int.{ℤ}
use pulse_log.Base.Keys.{Bytes}
use pulse_log.Base.Status.{value_of_result}
use pulse_log.Protocol.Codec.{load_le, store_le, to_signed, to_unsigned, u32_mod, u64_mod}
use pulse_log.Protocol.Codec.Fields.{
  load_le-store_le, FitsSigned, to_signed-to_unsigned_64, to_unsigned-lt,
}
use pulse_log.Protocol.Crc.{crc32c}
use pulse_log.Protocol.Crc.Slices.{crc32c-lt}
use pulse_log.Protocol.Frame.{field_at}
use pulse_log.Protocol.Frame.Layout.{same}
use pulse_log.Protocol.Record.{
  RecordView, max_record_bytes, write_var_uint, key_field, key_bytes, encoded_record_size,
  record_body, append_record, parse_parts, parse_checked, parse_record,
}
use pulse_log.Protocol.Record.Layout.{
  length-record_body, length-append_record, read_var_uint-write_var_uint,
}

-- The numbers of a record have their types' ranges, and the record is not above the largest size.
abbrev pub FitsRecord : RecordView → Type 0
FitsRecord r =
    FitsSigned u64_mod r.offset
    × FitsSigned u64_mod r.timestamp
    × (r.attributes < 256)
    × (encoded_record_size r.key r.value ≤ max_record_bytes + 4)

module _ (position total : ℕ) (before after : Bytes) (offset timestamp : ℤ) (attributes : ℕ)
    (value : Bytes) where
  abbrev at_key : Option Bytes → Bytes
  at_key key = before ++ (key_bytes key ++ (value ++ after))

  parse_parts_lem :
      (key : Option Bytes)
      → position + total ≡ length before + length (key_bytes key) + length value
      → position + total < u64_mod
      → 0 < length before
      → to_signed u64_mod (field_at 8 8 (drop position (at_key key))) ≡ offset
      → to_signed u64_mod (field_at 16 8 (drop position (at_key key))) ≡ timestamp
      → field_at 24 1 (drop position (at_key key)) ≡ attributes
      → parse_parts (at_key key) position total (length before) (key_field key) (length value)
        ≡ value_of_result (
          record {
            offset = offset;
            timestamp = timestamp;
            attributes = attributes;
            key = key;
            value = value;
          },
          position + total,
        )
  unfolding parse_parts
  parse_parts_lem none size small apart o t a =
      let key_end : (length before + 0) % u64_mod ≡ length before = omega (arith, size) in
      let value_end : (length before + 0 + length value) % u64_mod ≡ position + total =
        omega (arith, size) in
      let inside : ltb (position + total) (length before) ≡ false = ground (arith, size) in
      let exact : ltb (position + total) (position + total) ≡ false = ground arith in
      simp (
        key_end,
        value_end,
        inside,
        exact,
        same (position + total),
        o,
        t,
        a,
        drop-append before (value ++ after),
        take-append value after,
      )
  parse_parts_lem (some k) size small apart o t a =
      let field : (length k + 1) % u64_mod ≡ length k + 1 = omega (arith, size) in
      let full : (length k + 1 == 0) ≡ false = ground arith in
      let key_len : length k + 1 - 1 ≡ length k = omega arith in
      let key_end : (length before + length k) % u64_mod ≡ length before + length k =
        omega (arith, size) in
      let value_end : (length before + length k + length value) % u64_mod ≡ position + total =
        omega (arith, size) in
      let inside : ltb (position + total) (length before + length k) ≡ false =
        ground (arith, size) in
      let exact : ltb (position + total) (position + total) ≡ false = ground arith in
      let behind : drop (length before + length k) (at_key (some k)) ≡ value ++ after =
        sym (drop-drop (length before) (length k) (length before + length k) (at_key (some k)) refl)
        ∙ ap (drop (length k)) (drop-append before (k ++ (value ++ after)))
        ∙ drop-append k (value ++ after) in
      simp (
        field,
        full,
        key_len,
        key_end,
        value_end,
        inside,
        exact,
        same (position + total),
        o,
        t,
        a,
        behind,
        drop-append before (k ++ (value ++ after)),
        take-append k (value ++ after),
        take-append value after,
      )

key_field-lt : (key : Option Bytes) → key_field key < u64_mod
key_field-lt none = omega arith
key_field-lt (some key) = omega arith

no_test : (b : Bool) → (b && false) ≡ false
no_test true = refl
no_test false = refl

module _ (r : RecordView) (before after : Bytes) (fits : FitsRecord r) where
  abbrev input : Bytes
  input = before ++ (append_record r ++ after)

  base_lem : drop (length before) input ≡ append_record r ++ after
  base_lem = drop-append before (append_record r ++ after)

  size-le : encoded_record_size r.key r.value - 4 < u32_mod
  size-le = omega (arith, fits.3)

  size_at : field_at 0 4 (append_record r ++ after) ≡ encoded_record_size r.key r.value - 4
  unfolding append_record store_le field_at
  size_at =
      load_le-store_le 4 ((encoded_record_size r.key r.value - 4) % u32_mod) (omega arith) ∙ cut
    where
      cut :
          (encoded_record_size r.key r.value - 4) % u32_mod ≡ encoded_record_size r.key r.value - 4
      cut = omega (arith, size-le)

  crc_at : field_at 4 4 (append_record r ++ after) ≡ crc32c (record_body r)
  unfolding append_record store_le field_at
  crc_at = load_le-store_le 4 (crc32c (record_body r)) (crc32c-lt (record_body r))

  body_at :
      take (encoded_record_size r.key r.value - 8) (drop 8 (append_record r ++ after))
      ≡ record_body r
  unfolding append_record store_le
  body_at =
      ap (λ (n : ℕ). take n (record_body r ++ after)) {x = encoded_record_size r.key r.value - 8}
        {y = length (record_body r)} (omega (arith, length-record_body r))
      ∙ take-append (record_body r) after

  offset_at : to_signed u64_mod (field_at 8 8 (append_record r ++ after)) ≡ r.offset
  unfolding append_record record_body store_le field_at
  offset_at =
      ap (to_signed u64_mod) (
        load_le-store_le 8 (to_unsigned u64_mod r.offset)
          (to_unsigned-lt u64_mod r.offset (omega arith)))
      ∙ to_signed-to_unsigned_64 r.offset fits.0

  timestamp_at : to_signed u64_mod (field_at 16 8 (append_record r ++ after)) ≡ r.timestamp
  unfolding append_record record_body store_le field_at
  timestamp_at =
      ap (to_signed u64_mod) (
        load_le-store_le 8 (to_unsigned u64_mod r.timestamp)
          (to_unsigned-lt u64_mod r.timestamp (omega arith)))
      ∙ to_signed-to_unsigned_64 r.timestamp fits.1

  attributes_at : field_at 24 1 (append_record r ++ after) ≡ r.attributes
  unfolding append_record record_body store_le field_at load_le
  attributes_at = omega (arith, fits.2)

  -- The key and the value with what follows, and what stands before them.
  abbrev parts : Bytes
  parts = key_bytes r.key ++ (r.value ++ after)

  varints_at :
      drop 25 (append_record r ++ after)
      ≡ write_var_uint (key_field r.key) ++ (write_var_uint (length r.value) ++ parts)
  unfolding append_record record_body store_le
  varints_at = simp append_assoc

  abbrev head : Bytes
  head = take 25 (append_record r ++ after)

  abbrev front : Bytes
  front = before ++ (head ++ (write_var_uint (key_field r.key) ++ write_var_uint (length r.value)))

  input_split : input ≡ front ++ parts
  input_split =
      ap (λ (t : Bytes). before ++ t)
        (sym (take-append-drop 25 (append_record r ++ after))
          ∙ ap (λ (t : Bytes). head ++ t) varints_at)
      ∙ sym (
          append_assoc before
            (head ++ (write_var_uint (key_field r.key) ++ write_var_uint (length r.value))) parts
          ∙ ap (λ (t : Bytes). before ++ t)
              (append_assoc head
                  (write_var_uint (key_field r.key) ++ write_var_uint (length r.value)) parts
                ∙ ap (λ (t : Bytes). head ++ t)
                    (append_assoc (write_var_uint (key_field r.key))
                      (write_var_uint (length r.value)) parts)))

  pub size-ge : 25 + length (key_bytes r.key) + length r.value ≤ encoded_record_size r.key r.value
  unfolding encoded_record_size
  size-ge = omega arith

  lengths :
      length before + encoded_record_size r.key r.value
      ≡ length front + length (key_bytes r.key) + length r.value
  lengths = omega (
    arith,
    length-append before (append_record r ++ after),
    length-append (append_record r) after,
    length-append_record r,
    ap (λ (t : Bytes). length t) input_split,
    length-append front parts,
    length-append (key_bytes r.key) (r.value ++ after),
    length-append r.value after,
  )

  varints_behind :
      drop (length before + 25) input
      ≡ write_var_uint (key_field r.key) ++ (write_var_uint (length r.value) ++ parts)
  varints_behind =
      sym (drop-drop (length before) 25 (length before + 25) input refl)
      ∙ ap (drop 25) base_lem
      ∙ varints_at

  parts_lem :
      length input < u64_mod
      → parse_parts input
          (length before)
          (encoded_record_size r.key r.value)
          (length input - length parts)
          (key_field r.key)
          (length r.value)
        ≡ value_of_result (r, length before + encoded_record_size r.key r.value)
  parts_lem short =
      subst
        (λ (whole : Bytes).
          parse_parts whole (length before) (encoded_record_size r.key r.value)
            (length input - length parts) (key_field r.key) (length r.value)
          ≡ value_of_result (r, length before + encoded_record_size r.key r.value))
        (sym input_split)
        (subst
          (λ (cursor : ℕ).
            parse_parts (front ++ parts) (length before) (encoded_record_size r.key r.value) cursor
              (key_field r.key) (length r.value)
            ≡ value_of_result (r, length before + encoded_record_size r.key r.value))
          {x = length front} {y = length input - length parts}
          (omega (arith, ap (λ (t : Bytes). length t) input_split, length-append front parts))
          (parse_parts_lem (length before) (encoded_record_size r.key r.value) front after r.offset
            r.timestamp r.attributes r.value r.key lengths
            (omega (
              arith,
              short,
              length-append before (append_record r ++ after),
              length-append (append_record r) after,
              length-append_record r,
            ))
            (omega (arith, lengths, size-ge))
            (based (λ (base : Bytes). to_signed u64_mod (field_at 8 8 base) ≡ r.offset) offset_at)
            (based (λ (base : Bytes). to_signed u64_mod (field_at 16 8 base) ≡ r.timestamp)
              timestamp_at)
            (based (λ (base : Bytes). field_at 24 1 base ≡ r.attributes) attributes_at)))
    where
      based :
          (P : Bytes → Type 0)
          → P (append_record r ++ after)
          → P (drop (length before) (front ++ parts))
      based P h = subst P (sym base_lem ∙ ap (drop (length before)) input_split) h

  checked_lem :
      (verify_crc : Bool)
      → length input < u64_mod
      → parse_checked input (length before) verify_crc (encoded_record_size r.key r.value)
        ≡ value_of_result (r, length before + encoded_record_size r.key r.value)
  unfolding parse_checked
  checked_lem verify_crc short =
      let key_fits : key_field r.key < u64_mod = key_field-lt r.key in
      let value_fits : length r.value < u64_mod = omega (arith, size-ge, fits.3) in
      simp (
        base_lem,
        crc_at,
        body_at,
        same (crc32c (record_body r)),
        no_test verify_crc,
        varints_behind,
        read_var_uint-write_var_uint (key_field r.key) (write_var_uint (length r.value) ++ parts)
            key_fits,
        read_var_uint-write_var_uint (length r.value) parts value_fits,
        parts_lem short,
      )

  -- A record that was appended is parsed wherever it stands, with or without its checksum, and what is
  -- behind it does not matter.
  pub parse_record-append_record :
      (verify_crc : Bool)
      → length input < u64_mod
      → parse_record input (length before) verify_crc
        ≡ value_of_result (r, length before + encoded_record_size r.key r.value)
  unfolding parse_record
  parse_record-append_record verify_crc short =
      let whole : length input ≡ length before + encoded_record_size r.key r.value + length after =
        omega (
          arith,
          length-append before (append_record r ++ after),
          length-append (append_record r) after,
          length-append_record r,
        ) in
      let sized : field_at 0 4 (drop (length before) input)
          ≡ encoded_record_size r.key r.value - 4 =
        ap (field_at 0 4) base_lem ∙ size_at in
      let header : ltb (length input) (length before + 25) ≡ false =
        ground (arith, whole, size-ge) in
      let least : ltb (encoded_record_size r.key r.value - 4) 21 ≡ false =
        ground (arith, size-ge) in
      let most : ltb max_record_bytes (encoded_record_size r.key r.value - 4) ≡ false =
        ground (arith, fits.3) in
      let again : encoded_record_size r.key r.value - 4 + 4 ≡ encoded_record_size r.key r.value =
        omega (arith, size-ge) in
      let present : ltb (length input) (length before + encoded_record_size r.key r.value) ≡ false =
        ground (arith, whole) in
      simp (sized, header, least, most, again, present, checked_lem verify_crc short)
