-- ===== src/Protocol/DataMessages/RoundTrip.antt =====
-- protocol/messages_data.cc: what is decoded is what was encoded.
use pulse_log.Base.{◌<◌, length}
use pulse_log.Protocol.Codec.{u32_mod, u64_mod}
use pulse_log.Protocol.Wire.{put_records, choose, ack_number, isolation_number}
use mathlib.Core.List.{append_assoc}
use pulse_log.Protocol.Codec.Fields.{
  Reads, FitsSigned, get_u8-put_u8, get_u32-put_u32, get_i32-put_i32, get_i64-put_i64,
  get_string-put_string,
}
use pulse_log.Protocol.Wire.Steps.{
  IsName, IsIndex, ReadsAll, mod_u32, records_remain, get_records_lem, decode_header-encode_header,
  ack_number-lt, ack_of_number-ack_number, isolation_number-lt,
  isolation_of_number-isolation_number,
}
use pulse_log.Protocol.DataMessages.{
  ProduceRequest, encode_produce_request, decode_produce_request, ProduceResponse,
  encode_produce_response, decode_produce_response, FetchRequest, encode_fetch_request,
  decode_fetch_request, FetchResponse, encode_fetch_response, decode_fetch_response,
  ListOffsetsRequest, encode_list_offsets_request, decode_list_offsets_request, ListOffsetsResponse,
  encode_list_offsets_response, decode_list_offsets_response,
}

-- A ProduceRequest whose texts are shorter than 64 KiB, whose integers fit their fields, whose
-- partition index is not negative, whose records are shorter than 4 GiB, is read back from its
-- encoding, whatever bytes follow, and the reader is then at the end.
pub decode_produce_request-encode_produce_request :
    (m : ProduceRequest)
    → IsName m.topic
    → IsIndex m.partition
    → FitsSigned u32_mod m.timeout_ms
    → m.record_count < u32_mod
    → length m.records < u32_mod
    → ReadsAll decode_produce_request (encode_produce_request m) m
unfolding decode_produce_request encode_produce_request choose put_records
decode_produce_request-encode_produce_request m is_topic is_partition is_timeout_ms is_record_count
      is_records rest =
    simp (
      append_assoc,
      get_string-put_string m.topic is_topic,
      get_i32-put_i32 m.partition is_partition.1,
      is_partition.0,
      get_u8-put_u8 (ack_number m.acks) (ack_number-lt m.acks),
      ack_of_number-ack_number m.acks,
      get_i32-put_i32 m.timeout_ms is_timeout_ms,
      get_u32-put_u32 m.record_count is_record_count,
      mod_u32 (length m.records) is_records,
      get_u32-put_u32 (length m.records) is_records,
      records_remain m.records,
      get_records_lem m.records,
    )

-- A ProduceResponse whose texts are shorter than 64 KiB, whose integers fit their fields, is
-- read back from its encoding, and the reader then stands at the bytes that follow.
pub decode_produce_response-encode_produce_response :
    (m : ProduceResponse)
    → IsName m.header.error_message
    → FitsSigned u64_mod m.base_offset
    → FitsSigned u64_mod m.last_offset
    → FitsSigned u64_mod m.append_time
    → FitsSigned u64_mod m.high_water_mark
    → Reads decode_produce_response (encode_produce_response m) m
unfolding decode_produce_response encode_produce_response choose
decode_produce_response-encode_produce_response m is_header is_base_offset is_last_offset
      is_append_time is_high_water_mark rest =
    simp (
      append_assoc,
      decode_header-encode_header m.header is_header,
      get_i64-put_i64 m.base_offset is_base_offset,
      get_i64-put_i64 m.last_offset is_last_offset,
      get_i64-put_i64 m.append_time is_append_time,
      get_i64-put_i64 m.high_water_mark is_high_water_mark,
    )

-- A FetchRequest whose texts are shorter than 64 KiB, whose integers fit their fields, whose
-- partition index is not negative, is read back from its encoding, and the reader then stands
-- at the bytes that follow.
pub decode_fetch_request-encode_fetch_request :
    (m : FetchRequest)
    → IsName m.topic
    → IsIndex m.partition
    → FitsSigned u64_mod m.fetch_offset
    → m.max_bytes < u32_mod
    → m.min_bytes < u32_mod
    → FitsSigned u32_mod m.max_wait_ms
    → Reads decode_fetch_request (encode_fetch_request m) m
unfolding decode_fetch_request encode_fetch_request choose
decode_fetch_request-encode_fetch_request m is_topic is_partition is_fetch_offset is_max_bytes
      is_min_bytes is_max_wait_ms rest =
    simp (
      append_assoc,
      get_string-put_string m.topic is_topic,
      get_i32-put_i32 m.partition is_partition.1,
      is_partition.0,
      get_i64-put_i64 m.fetch_offset is_fetch_offset,
      get_u32-put_u32 m.max_bytes is_max_bytes,
      get_u32-put_u32 m.min_bytes is_min_bytes,
      get_i32-put_i32 m.max_wait_ms is_max_wait_ms,
      get_u8-put_u8 (isolation_number m.isolation) (isolation_number-lt m.isolation),
      isolation_of_number-isolation_number m.isolation,
    )

-- A FetchResponse whose texts are shorter than 64 KiB, whose integers fit their fields, whose
-- records are shorter than 4 GiB, is read back from its encoding, whatever bytes follow, and
-- the reader is then at the end.
pub decode_fetch_response-encode_fetch_response :
    (m : FetchResponse)
    → IsName m.header.error_message
    → FitsSigned u64_mod m.high_water_mark
    → FitsSigned u64_mod m.log_start_offset
    → FitsSigned u64_mod m.base_offset
    → m.record_count < u32_mod
    → length m.records < u32_mod
    → ReadsAll decode_fetch_response (encode_fetch_response m) m
unfolding decode_fetch_response encode_fetch_response choose put_records
decode_fetch_response-encode_fetch_response m is_header is_high_water_mark is_log_start_offset
      is_base_offset is_record_count is_records rest =
    simp (
      append_assoc,
      decode_header-encode_header m.header is_header,
      get_i64-put_i64 m.high_water_mark is_high_water_mark,
      get_i64-put_i64 m.log_start_offset is_log_start_offset,
      get_i64-put_i64 m.base_offset is_base_offset,
      get_u32-put_u32 m.record_count is_record_count,
      mod_u32 (length m.records) is_records,
      get_u32-put_u32 (length m.records) is_records,
      records_remain m.records,
      get_records_lem m.records,
    )

-- A ListOffsetsRequest whose texts are shorter than 64 KiB, whose integers fit their fields,
-- whose partition index is not negative, is read back from its encoding, and the reader then
-- stands at the bytes that follow.
pub decode_list_offsets_request-encode_list_offsets_request :
    (m : ListOffsetsRequest)
    → IsName m.topic
    → IsIndex m.partition
    → FitsSigned u64_mod m.timestamp
    → Reads decode_list_offsets_request (encode_list_offsets_request m) m
unfolding decode_list_offsets_request encode_list_offsets_request choose
decode_list_offsets_request-encode_list_offsets_request m is_topic is_partition is_timestamp rest =
    simp (
      append_assoc,
      get_string-put_string m.topic is_topic,
      get_i32-put_i32 m.partition is_partition.1,
      is_partition.0,
      get_i64-put_i64 m.timestamp is_timestamp,
    )

-- A ListOffsetsResponse whose texts are shorter than 64 KiB, whose integers fit their fields,
-- is read back from its encoding, and the reader then stands at the bytes that follow.
pub decode_list_offsets_response-encode_list_offsets_response :
    (m : ListOffsetsResponse)
    → IsName m.header.error_message
    → FitsSigned u64_mod m.offset
    → FitsSigned u64_mod m.timestamp
    → Reads decode_list_offsets_response (encode_list_offsets_response m) m
unfolding decode_list_offsets_response encode_list_offsets_response choose
decode_list_offsets_response-encode_list_offsets_response m is_header is_offset is_timestamp rest =
    simp (
      append_assoc,
      decode_header-encode_header m.header is_header,
      get_i64-put_i64 m.offset is_offset,
      get_i64-put_i64 m.timestamp is_timestamp,
    )
