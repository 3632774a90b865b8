-- ===== src/Protocol/ReplicaMessages/RoundTrip.antt =====
-- protocol/messages_group.cc: what is decoded is what was encoded.
use pulse_log.Base.{◌<◌, length}
use pulse_log.Protocol.Codec.{u32_mod, u64_mod}
use pulse_log.Protocol.Wire.{put_records, choose}
use mathlib.Core.List.{append_assoc}
use pulse_log.Protocol.Codec.Fields.{
  Reads, FitsSigned, get_u32-put_u32, get_i32-put_i32, get_i64-put_i64, get_string-put_string,
}
use pulse_log.Protocol.Wire.Steps.{
  IsName, IsIndex, ReadsAll, mod_u32, records_remain, get_records_lem, decode_header-encode_header,
}
use pulse_log.Protocol.ReplicaMessages.{
  ReplicateRequest, encode_replicate_request, decode_replicate_request, ReplicateResponse,
  encode_replicate_response, decode_replicate_response, ReplicaFetchRequest,
  encode_replica_fetch_request, decode_replica_fetch_request, ReplicaFetchResponse,
  encode_replica_fetch_response, decode_replica_fetch_response, ReplicaAckRequest,
  encode_replica_ack_request, decode_replica_ack_request, ReplicaAckResponse,
  encode_replica_ack_response, decode_replica_ack_response,
}

-- A ReplicateRequest whose texts are shorter than 64 KiB, whose integers fit their fields,
-- whose partition index is not negative, whose records are shorter than 4 GiB, is read back
-- from its encoding, whatever bytes follow, and the reader is then at the end.
pub decode_replicate_request-encode_replicate_request :
    (m : ReplicateRequest)
    → IsName m.topic
    → IsIndex m.partition
    → FitsSigned u32_mod m.leader_id
    → FitsSigned u64_mod m.leader_epoch
    → FitsSigned u64_mod m.base_offset
    → FitsSigned u64_mod m.prev_offset
    → FitsSigned u64_mod m.leader_high_water_mark
    → FitsSigned u64_mod m.leader_log_start_offset
    → m.record_count < u32_mod
    → length m.records < u32_mod
    → ReadsAll decode_replicate_request (encode_replicate_request m) m
unfolding decode_replicate_request encode_replicate_request choose put_records
decode_replicate_request-encode_replicate_request m is_topic is_partition is_leader_id
      is_leader_epoch is_base_offset is_prev_offset is_leader_high_water_mark
      is_leader_log_start_offset is_record_count is_records rest =
    simp (
      append_assoc,
      get_string-put_string m.topic is_topic,
      get_i32-put_i32 m.partition is_partition.1,
      is_partition.0,
      get_i32-put_i32 m.leader_id is_leader_id,
      get_i64-put_i64 m.leader_epoch is_leader_epoch,
      get_i64-put_i64 m.base_offset is_base_offset,
      get_i64-put_i64 m.prev_offset is_prev_offset,
      get_i64-put_i64 m.leader_high_water_mark is_leader_high_water_mark,
      get_i64-put_i64 m.leader_log_start_offset is_leader_log_start_offset,
      get_u32-put_u32 m.record_count is_record_count,
      mod_u32 (length m.records) is_records,
      get_u32-put_u32 (length m.records) is_records,
      records_remain m.records,
      get_records_lem m.records,
    )

-- A ReplicateResponse whose texts are shorter than 64 KiB, whose integers fit their fields, is
-- read back from its encoding, and the reader then stands at the bytes that follow.
pub decode_replicate_response-encode_replicate_response :
    (m : ReplicateResponse)
    → IsName m.header.error_message
    → FitsSigned u32_mod m.follower_id
    → FitsSigned u64_mod m.log_end_offset
    → FitsSigned u64_mod m.flushed_offset
    → FitsSigned u64_mod m.leader_epoch
    → Reads decode_replicate_response (encode_replicate_response m) m
unfolding decode_replicate_response encode_replicate_response choose
decode_replicate_response-encode_replicate_response m is_header is_follower_id is_log_end_offset
      is_flushed_offset is_leader_epoch rest =
    simp (
      append_assoc,
      decode_header-encode_header m.header is_header,
      get_i32-put_i32 m.follower_id is_follower_id,
      get_i64-put_i64 m.log_end_offset is_log_end_offset,
      get_i64-put_i64 m.flushed_offset is_flushed_offset,
      get_i64-put_i64 m.leader_epoch is_leader_epoch,
    )

-- A ReplicaFetchRequest whose texts are shorter than 64 KiB, whose integers fit their fields,
-- whose partition index is not negative, is read back from its encoding, and the reader then
-- stands at the bytes that follow.
pub decode_replica_fetch_request-encode_replica_fetch_request :
    (m : ReplicaFetchRequest)
    → IsName m.topic
    → IsIndex m.partition
    → FitsSigned u32_mod m.follower_id
    → FitsSigned u64_mod m.leader_epoch
    → FitsSigned u64_mod m.fetch_offset
    → m.max_bytes < u32_mod
    → Reads decode_replica_fetch_request (encode_replica_fetch_request m) m
unfolding decode_replica_fetch_request encode_replica_fetch_request choose
decode_replica_fetch_request-encode_replica_fetch_request m is_topic is_partition is_follower_id
      is_leader_epoch is_fetch_offset is_max_bytes rest =
    simp (
      append_assoc,
      get_string-put_string m.topic is_topic,
      get_i32-put_i32 m.partition is_partition.1,
      is_partition.0,
      get_i32-put_i32 m.follower_id is_follower_id,
      get_i64-put_i64 m.leader_epoch is_leader_epoch,
      get_i64-put_i64 m.fetch_offset is_fetch_offset,
      get_u32-put_u32 m.max_bytes is_max_bytes,
    )

-- A ReplicaFetchResponse whose texts are shorter than 64 KiB, whose integers fit their fields,
-- whose records are shorter than 4 GiB, is read back from its encoding, whatever bytes follow,
-- and the reader is then at the end.
pub decode_replica_fetch_response-encode_replica_fetch_response :
    (m : ReplicaFetchResponse)
    → IsName m.header.error_message
    → FitsSigned u64_mod m.leader_epoch
    → FitsSigned u64_mod m.high_water_mark
    → FitsSigned u64_mod m.log_start_offset
    → FitsSigned u64_mod m.base_offset
    → m.record_count < u32_mod
    → length m.records < u32_mod
    → ReadsAll decode_replica_fetch_response (encode_replica_fetch_response m) m
unfolding decode_replica_fetch_response encode_replica_fetch_response choose put_records
decode_replica_fetch_response-encode_replica_fetch_response m is_header is_leader_epoch
      is_high_water_mark is_log_start_offset is_base_offset is_record_count is_records rest =
    simp (
      append_assoc,
      decode_header-encode_header m.header is_header,
      get_i64-put_i64 m.leader_epoch is_leader_epoch,
      get_i64-put_i64 m.high_water_mark is_high_water_mark,
      get_i64-put_i64 m.log_start_offset is_log_start_offset,
      get_i64-put_i64 m.base_offset is_base_offset,
      get_u32-put_u32 m.record_count is_record_count,
      mod_u32 (length m.records) is_records,
      get_u32-put_u32 (length m.records) is_records,
      records_remain m.records,
      get_records_lem m.records,
    )

-- A ReplicaAckRequest whose texts are shorter than 64 KiB, whose integers fit their fields,
-- whose partition index is not negative, is read back from its encoding, and the reader then
-- stands at the bytes that follow.
pub decode_replica_ack_request-encode_replica_ack_request :
    (m : ReplicaAckRequest)
    → IsName m.topic
    → IsIndex m.partition
    → FitsSigned u32_mod m.follower_id
    → FitsSigned u64_mod m.leader_epoch
    → FitsSigned u64_mod m.log_end_offset
    → FitsSigned u64_mod m.flushed_offset
    → Reads decode_replica_ack_request (encode_replica_ack_request m) m
unfolding decode_replica_ack_request encode_replica_ack_request choose
decode_replica_ack_request-encode_replica_ack_request m is_topic is_partition is_follower_id
      is_leader_epoch is_log_end_offset is_flushed_offset rest =
    simp (
      append_assoc,
      get_string-put_string m.topic is_topic,
      get_i32-put_i32 m.partition is_partition.1,
      is_partition.0,
      get_i32-put_i32 m.follower_id is_follower_id,
      get_i64-put_i64 m.leader_epoch is_leader_epoch,
      get_i64-put_i64 m.log_end_offset is_log_end_offset,
      get_i64-put_i64 m.flushed_offset is_flushed_offset,
    )

-- A ReplicaAckResponse whose texts are shorter than 64 KiB, whose integers fit their fields, is
-- read back from its encoding, and the reader then stands at the bytes that follow.
pub decode_replica_ack_response-encode_replica_ack_response :
    (m : ReplicaAckResponse)
    → IsName m.header.error_message
    → FitsSigned u64_mod m.high_water_mark
    → Reads decode_replica_ack_response (encode_replica_ack_response m) m
unfolding decode_replica_ack_response encode_replica_ack_response choose
decode_replica_ack_response-encode_replica_ack_response m is_header is_high_water_mark rest = simp (
  append_assoc,
  decode_header-encode_header m.header is_header,
  get_i64-put_i64 m.high_water_mark is_high_water_mark,
)
