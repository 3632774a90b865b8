-- ===== src/Protocol/Frame/Safety.antt =====
-- What a decoder never does: it hands out no frame that its checksums do not cover, and none after an
-- error.
use pulse_log.Base.{
  ℕ, ◌+◌, ◌≤◌, ◌≡◌, Option, none, some, length, take, drop, is_empty, if◌then◌else◌,
}
use pulse_log.Base.Keys.{Bytes}
use pulse_log.Base.Status.{Result, failed_with, value_of_result}
use pulse_log.Protocol.Codec.{load_le}
use pulse_log.Protocol.Crc.{crc32c}
use pulse_log.Protocol.Opcode.{OpCode, opcode_number}
use pulse_log.Protocol.Frame.{FrameHeader, Frame, FrameState, need_more, frame, error, FrameDecoder}

-- The header is what the first 32 bytes of the input say, and their checksum agrees.
pub record IsHeader (max_payload : ℕ) (input : Bytes) (header : FrameHeader) : Type 0 where
  pub magic : load_le (take 4 input) ≡ 0x47534c50
  pub checksum : load_le (take 4 (drop 28 input)) ≡ crc32c (take 28 input)
  pub reserved : load_le (take 2 (drop 22 input)) ≡ 0
  pub version : (header.version ≡ 1) × (load_le (take 2 (drop 4 input)) ≡ 1)
  pub opcode : opcode_number header.opcode ≡ load_le (take 2 (drop 6 input))
  pub request_id : header.request_id ≡ load_le (take 8 (drop 8 input))
  pub payload_len : header.payload_len ≡ load_le (take 4 (drop 16 input))
  pub flags : header.flags ≡ load_le (take 2 (drop 20 input))
  pub payload_crc : header.payload_crc ≡ load_le (take 4 (drop 24 input))
  pub limit : header.payload_len ≤ max_payload

abbrev Decoded : ℕ → Bytes → Result FrameHeader → Type 0
Decoded max_payload input (failed_with status) = Unit
Decoded max_payload input (value_of_result header) = IsHeader max_payload input header

abbrev Found : ℕ → Option OpCode → Type 0
Found raw none = Unit
Found raw (some op) = opcode_number op ≡ raw

-- The frame is what the input starts with, and its checksums agree.
abbrev pub Checked : Bytes → FrameDecoder → Frame → Type 0
Checked input decoder f =
    IsHeader decoder.max_payload input f.header
    × (f.total_size ≡ 32 + f.header.payload_len)
    × (f.total_size ≤ length input)
    × (f.payload ≡ take f.header.payload_len (drop 32 input))
    × (f.header.payload_crc ≡ (if is_empty f.payload then 0 else crc32c f.payload))

abbrev pub Sound : Bytes → FrameDecoder → FrameState → Type 0
Sound input decoder need_more = Unit
Sound input decoder error = Unit
Sound input decoder (frame f) = Checked input decoder f
