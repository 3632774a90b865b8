-- ===== src/Protocol/Frame.antt =====
-- protocol/frame.{h,cc}: the frames of the stream, with the checksums of their header and payload. What
-- `EncodeFrame` appends to its buffer is a list of bytes. The decoder is given the bytes that its
-- connection holds; a payload is a copy of the bytes where the source has a view of them.
pub mod Layout
pub mod Decoding
pub mod Safety
pub mod Errors
use pulse_log.Base.{
  ℕ, ◌+◌, ◌-◌, ◌%◌, Bool, true, false, ◌&&◌, ◌||◌, not, ltb, leb, ◌==◌, if◌then◌else◌, Option, none,
  some, List, [], ◌∷◌, ◌++◌, length, take, drop, is_empty,
}
use pulse_log.Base.Keys.{Bytes}
use pulse_log.Base.Text.{text, decimal}
use pulse_log.Base.Types.{ErrorCode}
use pulse_log.Base.Status.{
  Status, ok_status, error_status, error_is_ok, Result, failed_with, value_of_result,
}
use pulse_log.Protocol.Codec.{store_le, load_le, u32_mod}
use pulse_log.Protocol.Crc.{crc32c}
use pulse_log.Protocol.Opcode.{OpCode, opcode_number, opcode_of_number, opcode_name}

abbrev pub frame_header_size : ℕ
frame_header_size = 32

abbrev pub frame_magic : ℕ
frame_magic = 0x47534c50

abbrev pub protocol_version : ℕ
protocol_version = 1

abbrev pub min_supported_version : ℕ
min_supported_version = 1

pub record FrameHeader : Type 0 where
  pub version : ℕ
  pub opcode : OpCode
  pub request_id : ℕ
  pub payload_len : ℕ
  pub flags : ℕ
  pub payload_crc : ℕ

-- The header's bytes before its checksum.
unfoldable pub header_fields : FrameHeader → Bytes
header_fields header =
    store_le 4 frame_magic
    ++ store_le 2 header.version
    ++ store_le 2 (opcode_number header.opcode)
    ++ store_le 8 header.request_id
    ++ store_le 4 header.payload_len
    ++ store_le 2 header.flags
    ++ store_le 2 0
    ++ store_le 4 header.payload_crc

-- `EncodeFrameHeader`
unfoldable pub encode_frame_header : FrameHeader → Bytes
encode_frame_header header = header_fields header ++ store_le 4 (crc32c (header_fields header))

-- The integer of `n` bytes at `offset` of the header.
unfoldable pub field_at : ℕ → ℕ → Bytes → ℕ
field_at offset n src = load_le (take n (drop offset src))

abbrev pub protocol_error : Bytes → Status
protocol_error message = error_status ErrorCode.protocol_error message

-- The fields after the operation.
unfoldable pub decode_sizes : ℕ → Bytes → ℕ → OpCode → Result FrameHeader
decode_sizes max_payload src version opcode =
    let payload_len = field_at 16 4 src in
    if ltb max_payload payload_len
    then failed_with (
        error_status ErrorCode.resource_exhausted (
          text "payload length "
          ++ decimal payload_len
          ++ text " exceeds limit "
          ++ decimal max_payload))
    else value_of_result (record {
      version = version;
      opcode = opcode;
      request_id = field_at 8 8 src;
      payload_len = payload_len;
      flags = field_at 20 2 src;
      payload_crc = field_at 24 4 src;
    })

abbrev pub decode_known : ℕ → Bytes → ℕ → ℕ → Option OpCode → Result FrameHeader
decode_known max_payload src version raw_opcode none =
    failed_with (protocol_error (text "unknown opcode " ++ decimal raw_opcode))
decode_known max_payload src version raw_opcode (some opcode) =
    decode_sizes max_payload src version opcode

-- `DecodeFrameHeader`
unfoldable pub decode_frame_header : ℕ → Bytes → Result FrameHeader
decode_frame_header max_payload src =
    let magic = field_at 0 4 src in
    let reserved = field_at 22 2 src in
    let version = field_at 4 2 src in
    let raw_opcode = field_at 6 2 src in
    if not (magic == frame_magic)
    then failed_with (
        protocol_error (
          text "bad frame magic: expected 0x"
          ++ decimal frame_magic
          ++ text ", got 0x"
          ++ decimal magic))
    else if not (field_at 28 4 src == crc32c (take 28 src))
    then failed_with (error_status ErrorCode.corruption (text "frame header checksum mismatch"))
    else if not (reserved == 0)
    then failed_with (
        protocol_error
          (text "reserved header bits must be zero (got " ++ decimal reserved ++ text ")"))
    else if ltb version min_supported_version || ltb protocol_version version
    then failed_with (
        error_status ErrorCode.unsupported_version (
          text "unsupported protocol version "
          ++ decimal version
          ++ text " (this build speaks "
          ++ decimal min_supported_version
          ++ text ".."
          ++ decimal protocol_version
          ++ text ")"))
    else decode_known max_payload src version raw_opcode (opcode_of_number raw_opcode)

-- The header that `EncodeFrame` completes: the length and the checksum of the payload.
unfoldable pub complete_header : FrameHeader → Bytes → FrameHeader
complete_header header payload = record header {
  payload_len = length payload % u32_mod;
  payload_crc = if is_empty payload then 0 else crc32c payload;
}

-- `EncodeFrame`. An empty payload is not appended, which is the same.
unfoldable pub encode_frame : FrameHeader → Bytes → Bytes
encode_frame header payload = encode_frame_header (complete_header header payload) ++ payload

pub record Frame : Type 0 where
  pub header : FrameHeader
  pub payload : Bytes
  pub total_size : ℕ

-- `FrameDecoder::State`, with the frame that `kFrame` fills in.
pub data FrameState : Type 0 where
  need_more : FrameState
  frame : Frame → FrameState
  error : FrameState

pub record FrameDecoder : Type 0 where
  pub max_payload : ℕ
  pub error_of_stream : Status

abbrev pub fail_with : Status → FrameDecoder → FrameState × FrameDecoder
fail_with status decoder = (error, record decoder { error_of_stream = status })

-- The payload against the checksum of the header.
unfoldable pub check_payload : FrameHeader → Bytes → FrameDecoder → FrameState × FrameDecoder
check_payload header payload decoder =
    if not (is_empty payload) && not (crc32c payload == header.payload_crc)
    then fail_with
        (error_status ErrorCode.corruption (
          text "frame payload checksum mismatch (opcode "
          ++ opcode_name header.opcode
          ++ text ", "
          ++ decimal (length payload)
          ++ text " bytes)"))
        decoder
    else if is_empty payload && not (header.payload_crc == 0)
    then fail_with (protocol_error (text "empty payload must carry a zero checksum")) decoder
    else (
      frame (record {
        header = header;
        payload = payload;
        total_size = frame_header_size + header.payload_len;
      }),
      decoder,
    )

unfoldable pub next_with : Result FrameHeader → Bytes → FrameDecoder → FrameState × FrameDecoder
next_with (failed_with status) input decoder = fail_with status decoder
next_with (value_of_result header) input decoder =
    if ltb (length input) (frame_header_size + header.payload_len)
    then (need_more, decoder)
    else check_payload header (take header.payload_len (drop frame_header_size input)) decoder

-- `FrameDecoder::Next`
unfoldable pub next : Bytes → FrameDecoder → FrameState × FrameDecoder
next input decoder =
    if not (error_is_ok decoder.error_of_stream.code)
    then (error, decoder)
    else if ltb (length input) frame_header_size
    then (need_more, decoder)
    else next_with (decode_frame_header decoder.max_payload input) input decoder

-- `FrameDecoder::BytesNeeded`
unfoldable pub bytes_needed : Bytes → ℕ
bytes_needed input =
    if ltb (length input) frame_header_size
    then frame_header_size - length input
    else let total = frame_header_size + field_at 16 4 input in
      if leb total (length input) then 0 else total - length input

-- `FrameDecoder::Reset`
abbrev pub reset : FrameDecoder → FrameDecoder
reset decoder = record decoder { error_of_stream = ok_status }
