-- ===== src/Protocol/DataMessages.antt =====
-- protocol/messages_data.cc: the requests and responses of the data plane.
pub mod RoundTrip
use pulse_log.Base.{
  ℕ, zero, suc, ◌+◌, ◌*◌, ◌/◌, ◌%◌, ◌≤◌, ◌<◌, ◌≡◌, refl, sym, ap, ◌∙◌, arith, Bool, true, false,
  Option, none, some, List, [], ◌∷◌, ◌++◌, length, All, length-append,
}
use pulse_log.Base.Int.{ℤ, pos, negsuc, leb_ℤ}
use pulse_log.Base.Keys.{Bytes}
use pulse_log.Base.Types.{Compression, AckMode, AssignmentStrategy, TopicPartition}
use pulse_log.Protocol.Codec.{
  u16_mod, u32_mod, u64_mod, put_u8, put_u16, put_u32, put_u64, put_i16, put_i32, put_i64, put_bool,
  put_string, get_u8, get_u16, get_u32, get_i16, get_i32, get_i64, get_bool, get_string, reader,
  Get, continue, ◌>>=◌, ◌>>◌, pure, guard, refuse,
}
use pulse_log.Protocol.Wire.{
  put_array, get_array, put_records, get_records, has_remaining, ResponseHeader, encode_header,
  decode_header, choose, IsolationLevel, ack_number, ack_of_number, isolation_number,
  isolation_of_number, compression_number, compression_of_number, strategy_number,
  strategy_of_number,
}

pub record ProduceRequest : Type 0 where
  pub topic : Bytes
  pub partition : ℤ
  pub acks : AckMode
  pub timeout_ms : ℤ
  pub record_count : ℕ
  pub records : Bytes

unfoldable pub encode_produce_request : ProduceRequest → Bytes
encode_produce_request m =
    put_string m.topic
    ++ put_i32 m.partition
    ++ put_u8 (ack_number m.acks)
    ++ put_i32 m.timeout_ms
    ++ put_u32 m.record_count
    ++ put_records m.records

unfoldable pub decode_produce_request : Get ProduceRequest
decode_produce_request = do
  topic ← get_string
  partition ← get_i32
  acks_raw ← get_u8
  timeout_ms ← get_i32
  record_count ← get_u32
  records_len ← get_u32
  enough ← has_remaining records_len
  guard enough
  acks ← choose (ack_of_number acks_raw)
  guard (leb_ℤ (pos 0) partition)
  records ← get_records records_len
  pure (record {
    topic = topic;
    partition = partition;
    acks = acks;
    timeout_ms = timeout_ms;
    record_count = record_count;
    records = records;
  })

pub record ProduceResponse : Type 0 where
  pub header : ResponseHeader
  pub base_offset : ℤ
  pub last_offset : ℤ
  pub append_time : ℤ
  pub high_water_mark : ℤ

unfoldable pub encode_produce_response : ProduceResponse → Bytes
encode_produce_response m =
    encode_header m.header
    ++ put_i64 m.base_offset
    ++ put_i64 m.last_offset
    ++ put_i64 m.append_time
    ++ put_i64 m.high_water_mark

unfoldable pub decode_produce_response : Get ProduceResponse
decode_produce_response = do
  header ← decode_header
  base_offset ← get_i64
  last_offset ← get_i64
  append_time ← get_i64
  high_water_mark ← get_i64
  pure (record {
    header = header;
    base_offset = base_offset;
    last_offset = last_offset;
    append_time = append_time;
    high_water_mark = high_water_mark;
  })

pub record FetchRequest : Type 0 where
  pub topic : Bytes
  pub partition : ℤ
  pub fetch_offset : ℤ
  pub max_bytes : ℕ
  pub min_bytes : ℕ
  pub max_wait_ms : ℤ
  pub isolation : IsolationLevel

unfoldable pub encode_fetch_request : FetchRequest → Bytes
encode_fetch_request m =
    put_string m.topic
    ++ put_i32 m.partition
    ++ put_i64 m.fetch_offset
    ++ put_u32 m.max_bytes
    ++ put_u32 m.min_bytes
    ++ put_i32 m.max_wait_ms
    ++ put_u8 (isolation_number m.isolation)

unfoldable pub decode_fetch_request : Get FetchRequest
decode_fetch_request = do
  topic ← get_string
  partition ← get_i32
  fetch_offset ← get_i64
  max_bytes ← get_u32
  min_bytes ← get_u32
  max_wait_ms ← get_i32
  isolation_raw ← get_u8
  guard (leb_ℤ (pos 0) partition)
  isolation ← choose (isolation_of_number isolation_raw)
  pure (record {
    topic = topic;
    partition = partition;
    fetch_offset = fetch_offset;
    max_bytes = max_bytes;
    min_bytes = min_bytes;
    max_wait_ms = max_wait_ms;
    isolation = isolation;
  })

pub record FetchResponse : Type 0 where
  pub header : ResponseHeader
  pub high_water_mark : ℤ
  pub log_start_offset : ℤ
  pub base_offset : ℤ
  pub record_count : ℕ
  pub records : Bytes

unfoldable pub encode_fetch_response : FetchResponse → Bytes
encode_fetch_response m =
    encode_header m.header
    ++ put_i64 m.high_water_mark
    ++ put_i64 m.log_start_offset
    ++ put_i64 m.base_offset
    ++ put_u32 m.record_count
    ++ put_records m.records

unfoldable pub decode_fetch_response : Get FetchResponse
decode_fetch_response = do
  header ← decode_header
  high_water_mark ← get_i64
  log_start_offset ← get_i64
  base_offset ← get_i64
  record_count ← get_u32
  records_len ← get_u32
  enough ← has_remaining records_len
  guard enough
  records ← get_records records_len
  pure (record {
    header = header;
    high_water_mark = high_water_mark;
    log_start_offset = log_start_offset;
    base_offset = base_offset;
    record_count = record_count;
    records = records;
  })

pub record ListOffsetsRequest : Type 0 where
  pub topic : Bytes
  pub partition : ℤ
  pub timestamp : ℤ

unfoldable pub encode_list_offsets_request : ListOffsetsRequest → Bytes
encode_list_offsets_request m = put_string m.topic ++ put_i32 m.partition ++ put_i64 m.timestamp

unfoldable pub decode_list_offsets_request : Get ListOffsetsRequest
decode_list_offsets_request = do
  topic ← get_string
  partition ← get_i32
  guard (leb_ℤ (pos 0) partition)
  timestamp ← get_i64
  pure (record { topic = topic; partition = partition; timestamp = timestamp })

pub record ListOffsetsResponse : Type 0 where
  pub header : ResponseHeader
  pub offset : ℤ
  pub timestamp : ℤ

unfoldable pub encode_list_offsets_response : ListOffsetsResponse → Bytes
encode_list_offsets_response m = encode_header m.header ++ put_i64 m.offset ++ put_i64 m.timestamp

unfoldable pub decode_list_offsets_response : Get ListOffsetsResponse
decode_list_offsets_response = do
  header ← decode_header
  offset ← get_i64
  timestamp ← get_i64
  pure (record { header = header; offset = offset; timestamp = timestamp })
