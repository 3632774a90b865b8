-- ===== src/Protocol/Frame/Layout.antt =====
-- A header that was encoded is read back, field by field.
use pulse_log.Base.{ℕ, ◌<◌, ◌≤◌, ◌≡◌, ◌==◌, ◌||◌, refl, arith, true, false, ltb, length, take, ◌++◌}
use pulse_log.Base.Keys.{Bytes}
use pulse_log.Base.Status.{value_of_result}
use pulse_log.Protocol.Codec.{store_le, load_le, u16_mod, u32_mod, u64_mod}
use pulse_log.Protocol.Codec.Fields.{load_le-store_le}
use pulse_log.Protocol.Crc.{crc32c}
use pulse_log.Protocol.Crc.Slices.{crc32c-lt}
use pulse_log.Protocol.Opcode.{
  opcode_number, is_known, opcode_number-lt, opcode_of_number-opcode_number,
}
use pulse_log.Protocol.Frame.{
  FrameHeader, frame_magic, header_fields, encode_frame_header, field_at, decode_frame_header,
  decode_sizes,
}

-- A header that this version of the protocol can carry.
abbrev pub FitsHeader : FrameHeader → Type 0
FitsHeader h =
    (h.version ≡ 1)
    × (is_known h.opcode ≡ true)
    × (h.request_id < u64_mod)
    × (h.payload_len < u32_mod)
    × (h.flags < u16_mod)
    × (h.payload_crc < u32_mod)

pub same : (n : ℕ) → (n == n) ≡ true
same n = ground arith

module _ (h : FrameHeader) (rest : Bytes) where
  pub length-encode_frame_header : length (encode_frame_header h) ≡ 32
  unfolding encode_frame_header header_fields store_le
  length-encode_frame_header = refl

  magic_at : field_at 0 4 (encode_frame_header h ++ rest) ≡ frame_magic
  unfolding encode_frame_header header_fields store_le field_at load_le
  magic_at = refl

  version_at : h.version < u16_mod → field_at 4 2 (encode_frame_header h ++ rest) ≡ h.version
  unfolding encode_frame_header header_fields store_le field_at
  version_at k = load_le-store_le 2 h.version k

  opcode_at : field_at 6 2 (encode_frame_header h ++ rest) ≡ opcode_number h.opcode
  unfolding encode_frame_header header_fields store_le field_at
  opcode_at = load_le-store_le 2 (opcode_number h.opcode) (opcode_number-lt h.opcode)

  request_at : h.request_id < u64_mod → field_at 8 8 (encode_frame_header h ++ rest) ≡ h.request_id
  unfolding encode_frame_header header_fields store_le field_at
  request_at k = load_le-store_le 8 h.request_id k

  pub length_at :
      h.payload_len < u32_mod → field_at 16 4 (encode_frame_header h ++ rest) ≡ h.payload_len
  unfolding encode_frame_header header_fields store_le field_at
  length_at k = load_le-store_le 4 h.payload_len k

  flags_at : h.flags < u16_mod → field_at 20 2 (encode_frame_header h ++ rest) ≡ h.flags
  unfolding encode_frame_header header_fields store_le field_at
  flags_at k = load_le-store_le 2 h.flags k

  reserved_at : field_at 22 2 (encode_frame_header h ++ rest) ≡ 0
  unfolding encode_frame_header header_fields store_le field_at load_le
  reserved_at = refl

  payload_crc_at :
      h.payload_crc < u32_mod → field_at 24 4 (encode_frame_header h ++ rest) ≡ h.payload_crc
  unfolding encode_frame_header header_fields store_le field_at
  payload_crc_at k = load_le-store_le 4 h.payload_crc k

  fields_at : take 28 (encode_frame_header h ++ rest) ≡ header_fields h
  unfolding encode_frame_header header_fields store_le
  fields_at = refl

  crc_at : field_at 28 4 (encode_frame_header h ++ rest) ≡ crc32c (header_fields h)
  unfolding encode_frame_header header_fields store_le field_at
  crc_at = load_le-store_le 4 (crc32c (header_fields h)) (crc32c-lt (header_fields h))

  pub decode_frame_header-encode_frame_header :
      (max_payload : ℕ)
      → FitsHeader h
      → h.payload_len ≤ max_payload
      → decode_frame_header max_payload (encode_frame_header h ++ rest) ≡ value_of_result h
  unfolding decode_frame_header decode_sizes
  decode_frame_header-encode_frame_header max_payload (v, known, id, len, flags, crc) fits =
      let one : ltb h.version 1 || ltb 1 h.version ≡ false = ground (arith, v) in
      let small : ltb max_payload h.payload_len ≡ false = ground arith in
      simp (
        magic_at,
        fields_at,
        crc_at,
        same (crc32c (header_fields h)),
        reserved_at,
        version_at (omega (arith, v)),
        one,
        opcode_at,
        opcode_of_number-opcode_number h.opcode known,
        request_at id,
        length_at len,
        small,
        flags_at flags,
        payload_crc_at crc,
      )
