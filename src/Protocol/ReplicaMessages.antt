-- ===== src/Protocol/ReplicaMessages.antt =====
-- protocol/messages_group.cc: the requests and responses between brokers.
pub mod RoundTrip
use pulse_log.Base.{
  ℕ, zero, suc, ◌+◌, ◌*◌, ◌/◌, ◌%◌, ◌≤◌, ◌<◌, ◌≡◌, refl, sym, ap, ◌∙◌, arith, Bool, true, false,
  Option, none, some, List, [], ◌∷◌, ◌++◌, length, All, length-append,
}
use pulse_log.Base.Int.{ℤ, pos, negsuc, leb_ℤ}
use pulse_log.Base.Keys.{Bytes}
use pulse_log.Base.Types.{Compression, AckMode, AssignmentStrategy, TopicPartition}
use pulse_log.Protocol.Codec.{
  u16_mod, u32_mod, u64_mod, put_u8, put_u16, put_u32, put_u64, put_i16, put_i32, put_i64, put_bool,
  put_string, get_u8, get_u16, get_u32, get_i16, get_i32, get_i64, get_bool, get_string, reader,
  Get, continue, ◌>>=◌, ◌>>◌, pure, guard, refuse,
}
use pulse_log.Protocol.Wire.{
  put_array, get_array, put_records, get_records, has_remaining, ResponseHeader, encode_header,
  decode_header, choose, IsolationLevel, ack_number, ack_of_number, isolation_number,
  isolation_of_number, compression_number, compression_of_number, strategy_number,
  strategy_of_number,
}

pub record ReplicateRequest : Type 0 where
  pub topic : Bytes
  pub partition : ℤ
  pub leader_id : ℤ
  pub leader_epoch : ℤ
  pub base_offset : ℤ
  pub prev_offset : ℤ
  pub leader_high_water_mark : ℤ
  pub leader_log_start_offset : ℤ
  pub record_count : ℕ
  pub records : Bytes

unfoldable pub encode_replicate_request : ReplicateRequest → Bytes
encode_replicate_request m =
    put_string m.topic
    ++ put_i32 m.partition
    ++ put_i32 m.leader_id
    ++ put_i64 m.leader_epoch
    ++ put_i64 m.base_offset
    ++ put_i64 m.prev_offset
    ++ put_i64 m.leader_high_water_mark
    ++ put_i64 m.leader_log_start_offset
    ++ put_u32 m.record_count
    ++ put_records m.records

unfoldable pub decode_replicate_request : Get ReplicateRequest
decode_replicate_request = do
  topic ← get_string
  partition ← get_i32
  leader_id ← get_i32
  guard (leb_ℤ (pos 0) partition)
  leader_epoch ← get_i64
  base_offset ← get_i64
  prev_offset ← get_i64
  leader_high_water_mark ← get_i64
  leader_log_start_offset ← get_i64
  record_count ← get_u32
  records_len ← get_u32
  enough ← has_remaining records_len
  guard enough
  records ← get_records records_len
  pure (record {
    topic = topic;
    partition = partition;
    leader_id = leader_id;
    leader_epoch = leader_epoch;
    base_offset = base_offset;
    prev_offset = prev_offset;
    leader_high_water_mark = leader_high_water_mark;
    leader_log_start_offset = leader_log_start_offset;
    record_count = record_count;
    records = records;
  })

pub record ReplicateResponse : Type 0 where
  pub header : ResponseHeader
  pub follower_id : ℤ
  pub log_end_offset : ℤ
  pub flushed_offset : ℤ
  pub leader_epoch : ℤ

unfoldable pub encode_replicate_response : ReplicateResponse → Bytes
encode_replicate_response m =
    encode_header m.header
    ++ put_i32 m.follower_id
    ++ put_i64 m.log_end_offset
    ++ put_i64 m.flushed_offset
    ++ put_i64 m.leader_epoch

unfoldable pub decode_replicate_response : Get ReplicateResponse
decode_replicate_response = do
  header ← decode_header
  follower_id ← get_i32
  log_end_offset ← get_i64
  flushed_offset ← get_i64
  leader_epoch ← get_i64
  pure (record {
    header = header;
    follower_id = follower_id;
    log_end_offset = log_end_offset;
    flushed_offset = flushed_offset;
    leader_epoch = leader_epoch;
  })

pub record ReplicaFetchRequest : Type 0 where
  pub topic : Bytes
  pub partition : ℤ
  pub follower_id : ℤ
  pub leader_epoch : ℤ
  pub fetch_offset : ℤ
  pub max_bytes : ℕ

unfoldable pub encode_replica_fetch_request : ReplicaFetchRequest → Bytes
encode_replica_fetch_request m =
    put_string m.topic
    ++ put_i32 m.partition
    ++ put_i32 m.follower_id
    ++ put_i64 m.leader_epoch
    ++ put_i64 m.fetch_offset
    ++ put_u32 m.max_bytes

unfoldable pub decode_replica_fetch_request : Get ReplicaFetchRequest
decode_replica_fetch_request = do
  topic ← get_string
  partition ← get_i32
  follower_id ← get_i32
  guard (leb_ℤ (pos 0) partition)
  leader_epoch ← get_i64
  fetch_offset ← get_i64
  max_bytes ← get_u32
  pure (record {
    topic = topic;
    partition = partition;
    follower_id = follower_id;
    leader_epoch = leader_epoch;
    fetch_offset = fetch_offset;
    max_bytes = max_bytes;
  })

pub record ReplicaFetchResponse : Type 0 where
  pub header : ResponseHeader
  pub leader_epoch : ℤ
  pub high_water_mark : ℤ
  pub log_start_offset : ℤ
  pub base_offset : ℤ
  pub record_count : ℕ
  pub records : Bytes

unfoldable pub encode_replica_fetch_response : ReplicaFetchResponse → Bytes
encode_replica_fetch_response m =
    encode_header m.header
    ++ put_i64 m.leader_epoch
    ++ put_i64 m.high_water_mark
    ++ put_i64 m.log_start_offset
    ++ put_i64 m.base_offset
    ++ put_u32 m.record_count
    ++ put_records m.records

unfoldable pub decode_replica_fetch_response : Get ReplicaFetchResponse
decode_replica_fetch_response = do
  header ← decode_header
  leader_epoch ← get_i64
  high_water_mark ← get_i64
  log_start_offset ← get_i64
  base_offset ← get_i64
  record_count ← get_u32
  records_len ← get_u32
  enough ← has_remaining records_len
  guard enough
  records ← get_records records_len
  pure (record {
    header = header;
    leader_epoch = leader_epoch;
    high_water_mark = high_water_mark;
    log_start_offset = log_start_offset;
    base_offset = base_offset;
    record_count = record_count;
    records = records;
  })

pub record ReplicaAckRequest : Type 0 where
  pub topic : Bytes
  pub partition : ℤ
  pub follower_id : ℤ
  pub leader_epoch : ℤ
  pub log_end_offset : ℤ
  pub flushed_offset : ℤ

unfoldable pub encode_replica_ack_request : ReplicaAckRequest → Bytes
encode_replica_ack_request m =
    put_string m.topic
    ++ put_i32 m.partition
    ++ put_i32 m.follower_id
    ++ put_i64 m.leader_epoch
    ++ put_i64 m.log_end_offset
    ++ put_i64 m.flushed_offset

unfoldable pub decode_replica_ack_request : Get ReplicaAckRequest
decode_replica_ack_request = do
  topic ← get_string
  partition ← get_i32
  follower_id ← get_i32
  guard (leb_ℤ (pos 0) partition)
  leader_epoch ← get_i64
  log_end_offset ← get_i64
  flushed_offset ← get_i64
  pure (record {
    topic = topic;
    partition = partition;
    follower_id = follower_id;
    leader_epoch = leader_epoch;
    log_end_offset = log_end_offset;
    flushed_offset = flushed_offset;
  })

pub record ReplicaAckResponse : Type 0 where
  pub header : ResponseHeader
  pub high_water_mark : ℤ

unfoldable pub encode_replica_ack_response : ReplicaAckResponse → Bytes
encode_replica_ack_response m = encode_header m.header ++ put_i64 m.high_water_mark

unfoldable pub decode_replica_ack_response : Get ReplicaAckResponse
decode_replica_ack_response = do
  header ← decode_header
  high_water_mark ← get_i64
  pure (record { header = header; high_water_mark = high_water_mark })
