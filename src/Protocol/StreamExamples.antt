-- ===== src/Protocol/StreamExamples.antt =====
-- Examples of checksums, frames and records.
use pulse_log.Base.{
  ℕ, ◌+◌, ◌≡◌, refl, arith, Bool, true, false, some, none, List, [], ◌∷◌, ◌++◌, length, take,
  length-append, All, ◌<◌,
}
use pulse_log.Base.Int.{pos, negsuc}
use pulse_log.Base.Keys.{Bytes}
use pulse_log.Base.Types.{ErrorCode}
use pulse_log.Base.Status.{ok_status, error_status, Result, failed_with, value_of_result}
use pulse_log.Protocol.Crc.{complement, crc32c_from}
use pulse_log.Protocol.Crc.Slices.{remainder_of, crc32c_from-remainder_of}
use pulse_log.Protocol.Opcode.{OpCode}
use pulse_log.Protocol.Frame.{
  FrameHeader, encode_frame_header, complete_header, encode_frame, need_more, frame, error,
  FrameDecoder, next,
}
use pulse_log.Protocol.Frame.Decoding.{Sendable, framed, next-encode_frame, next-take}
use pulse_log.Protocol.Frame.Errors.{next_after_error, next_damage}
use pulse_log.Protocol.Record.{
  RecordView, encoded_record_size, count_groups, append_record, parse_record, parse_checked,
  parse_parts, read_var_uint, read_groups, iterate,
}
use pulse_log.Protocol.Frame.{field_at}
use pulse_log.Protocol.Codec.{load_le, u64_mod}
use pulse_log.Protocol.Codec.Fields.{AreBytes}
use pulse_log.Protocol.Record.Layout.{length-append_record}
use pulse_log.Protocol.Record.Parsing.{FitsRecord, parse_record-append_record}
use pulse_log.Protocol.Record.Iteration.{append_records, collect, standing, collect-append_records}

abbrev nine_bytes : Bytes
nine_bytes = 1 ∷ 2 ∷ 3 ∷ 4 ∷ 5 ∷ 6 ∷ 7 ∷ 8 ∷ 9 ∷ []

nine_AreBytes : AreBytes nine_bytes
nine_AreBytes = (
  omega arith,
  (
    omega arith,
    (
      omega arith,
      (omega arith, (omega arith, (omega arith, (omega arith, (omega arith, (omega arith, tt)))))),
    ),
  ),
)

crc32c_from-remainder_of_example :
    crc32c_from 0 nine_bytes ≡ complement (remainder_of (complement 0) nine_bytes)
crc32c_from-remainder_of_example = crc32c_from-remainder_of 0 nine_bytes nine_AreBytes

abbrev request : FrameHeader
request = record {
  version = 1;
  opcode = OpCode.fetch;
  request_id = 77;
  payload_len = 0;
  flags = 0;
  payload_crc = 0;
}

abbrev small_decoder : FrameDecoder
small_decoder = record { max_payload = 16; error_of_stream = ok_status }

abbrev request_payload : Bytes
request_payload = 5 ∷ 6 ∷ 7 ∷ []

request-Sendable : Sendable request request_payload small_decoder
request-Sendable = (refl, refl, omega arith, omega arith, omega arith, omega arith)

next-encode_frame_example :
    next (encode_frame request request_payload ++ (9 ∷ [])) small_decoder
    ≡ (frame (framed request request_payload), small_decoder)
next-encode_frame_example =
    next-encode_frame request request_payload small_decoder request-Sendable (9 ∷ []) refl

next-take_example :
    next (take 33 (encode_frame request request_payload)) small_decoder ≡ (need_more, small_decoder)
next-take_example =
    next-take request request_payload small_decoder request-Sendable 33 (omega arith) refl

abbrev closed_decoder : FrameDecoder
closed_decoder = record { max_payload = 16; error_of_stream = error_status ErrorCode.corruption [] }

closed_error : (next [] closed_decoder).0 ≡ error
unfolding next
closed_error = refl

next_after_error_example :
    next nine_bytes (next [] closed_decoder).1 ≡ (error, (next [] closed_decoder).1)
next_after_error_example = next_after_error [] nine_bytes closed_decoder closed_error

next_damage_example :
    ((next
        (encode_frame_header (complete_header request request_payload)
          ++ ((5 ∷ 8 ∷ 7 ∷ []) ++ nine_bytes))
        small_decoder).0
      ≡ error)
    × ((next
          (encode_frame_header (complete_header request request_payload)
            ++ ((5 ∷ 8 ∷ 7 ∷ []) ++ nine_bytes))
          small_decoder).1.error_of_stream.code
        ≡ ErrorCode.corruption)
next_damage_example =
    next_damage request (5 ∷ []) (7 ∷ []) nine_bytes 6 8 small_decoder request-Sendable refl
      (omega arith, tt) (omega arith, tt) (omega arith) (omega arith) (omega arith)

abbrev keyed : RecordView
keyed = record {
  offset = pos 4;
  timestamp = pos 1000;
  attributes = 0;
  key = some (1 ∷ 2 ∷ []);
  value = nine_bytes;
}

abbrev unkeyed : RecordView
unkeyed = record { offset = pos 5; timestamp = negsuc 0; attributes = 4; key = none; value = [] }

keyed-FitsRecord : FitsRecord keyed
unfolding encoded_record_size count_groups
keyed-FitsRecord = (omega arith, omega arith, omega arith, omega arith)

unkeyed-FitsRecord : FitsRecord unkeyed
unfolding encoded_record_size count_groups
unkeyed-FitsRecord = (omega arith, omega arith, omega arith, omega arith)

parse_record-append_record_example :
    parse_record (nine_bytes ++ (append_record keyed ++ nine_bytes)) 9 true
    ≡ value_of_result (keyed, 9 + encoded_record_size keyed.key keyed.value)
parse_record-append_record_example =
    parse_record-append_record keyed nine_bytes nine_bytes keyed-FitsRecord true (
      omega (
        arith,
        length-append (append_record keyed) nine_bytes,
        length-append_record keyed,
        keyed-FitsRecord.3,
      ))

abbrev two_records : List RecordView
two_records = keyed ∷ unkeyed ∷ []

two_FitsRecord : All FitsRecord two_records
two_FitsRecord = (keyed-FitsRecord, (unkeyed-FitsRecord, tt))

two_records_short : length (append_records two_records) < u64_mod
unfolding append_records
two_records_short = omega (
  arith,
  length-append (append_record keyed) (append_record unkeyed ++ []),
  length-append (append_record unkeyed) [],
  length-append_record keyed,
  length-append_record unkeyed,
  keyed-FitsRecord.3,
  unkeyed-FitsRecord.3,
)

collect-append_records_example : collect 3 (iterate (append_records two_records) true) ≡ (
  two_records,
  standing (append_records two_records) true (length (append_records two_records)) 2,
)
collect-append_records_example =
    collect-append_records two_records true two_FitsRecord two_records_short

-- A record whose key length is 2^64 - 2, so that the sum of the lengths wraps around.
abbrev overlong : Bytes
overlong =
    32 ∷ 0 ∷ 0 ∷ 0 ∷ 0 ∷ 0 ∷ 0 ∷ 0 ∷ 0 ∷ 0 ∷ 0 ∷ 0 ∷ 0 ∷ 0 ∷ 0 ∷ 0 ∷ 0 ∷ 0 ∷ 0 ∷ 0 ∷ 0 ∷ 0 ∷ 0 ∷ 0
    ∷ 0 ∷ 255 ∷ 255 ∷ 255 ∷ 255 ∷ 255 ∷ 255 ∷ 255 ∷ 255 ∷ 255 ∷ 1 ∷ 2 ∷ []

abbrev is_parsed : Result (RecordView × ℕ) → Bool
is_parsed (failed_with status) = false
is_parsed (value_of_result r) = true

overlong-is_parsed : is_parsed (parse_record overlong 0 false) ≡ true
unfolding parse_record parse_checked parse_parts read_var_uint read_groups field_at load_le
overlong-is_parsed = refl
