-- ===== src/Protocol/GroupMessages/RoundTrip.antt =====
-- protocol/messages_group.cc: what is decoded is what was encoded.
use pulse_log.Base.{◌≤◌, arith, List, length, length-append}
use pulse_log.Base.Types.{TopicPartition}
use pulse_log.Protocol.Codec.{u32_mod, u64_mod}
use pulse_log.Protocol.Wire.{put_array, get_array, choose, strategy_number}
use mathlib.Core.List.{append_assoc}
use pulse_log.Protocol.Codec.Fields.{
  Reads, FitsSigned, get_u8-put_u8, get_i32-put_i32, get_i64-put_i64, get_bool-put_bool,
  get_string-put_string,
}
use pulse_log.Protocol.Wire.Steps.{
  IsName, IsIndex, IsArray, decode_header-encode_header, get_names, get_elements, two_le_string,
  length-put_i32, length-put_i64, length-put_u16, strategy_number-lt,
  strategy_of_number-strategy_number,
}
use pulse_log.Protocol.GroupMessages.{
  put_topic_partition, get_topic_partition, JoinGroupRequest, encode_join_group_request,
  decode_join_group_request, JoinGroupResponse, encode_join_group_response,
  decode_join_group_response, HeartbeatRequest, encode_heartbeat_request, decode_heartbeat_request,
  HeartbeatResponse, encode_heartbeat_response, decode_heartbeat_response, LeaveGroupRequest,
  encode_leave_group_request, decode_leave_group_request, CommitOffsetRequest,
  encode_commit_offset_request, decode_commit_offset_request, FetchOffsetRequest,
  encode_fetch_offset_request, decode_fetch_offset_request, FetchOffsetResponse,
  encode_fetch_offset_response, decode_fetch_offset_response,
}

abbrev pub IsWirePartition : TopicPartition → Type 0
IsWirePartition m = (IsName m.topic) × ((IsIndex m.partition))

get_topic_partition-put_topic_partition :
    (m : TopicPartition) → IsWirePartition m → Reads get_topic_partition (put_topic_partition m) m
unfolding get_topic_partition put_topic_partition
get_topic_partition-put_topic_partition m h rest =
    simp (append_assoc, get_string-put_string m.topic h.0, get_i32-put_i32 m.partition h.1.1, h.1.0)

length-put_topic_partition : (m : TopicPartition) → 6 ≤ length (put_topic_partition m)
unfolding put_topic_partition
length-put_topic_partition m =
    simp (length-append, length-put_i32, length-put_i64, length-put_u16)
      (omega (arith, two_le_string m.topic))

get_tps :
    (ms : List TopicPartition)
    → IsArray IsWirePartition ms
    → Reads (get_array 6 get_topic_partition) (put_array put_topic_partition ms) ms
get_tps =
    get_elements 6 put_topic_partition get_topic_partition IsWirePartition (omega arith)
      get_topic_partition-put_topic_partition length-put_topic_partition

-- A JoinGroupRequest whose texts are shorter than 64 KiB, whose integers fit their fields,
-- whose arrays have 2^20 elements at most and elements of the same kind, is read back from its
-- encoding, and the reader then stands at the bytes that follow.
pub decode_join_group_request-encode_join_group_request :
    (m : JoinGroupRequest)
    → IsName m.group_id
    → IsName m.member_id
    → IsArray IsName m.topics
    → FitsSigned u32_mod m.session_timeout_ms
    → Reads decode_join_group_request (encode_join_group_request m) m
unfolding decode_join_group_request encode_join_group_request choose
decode_join_group_request-encode_join_group_request m is_group_id is_member_id is_topics
      is_session_timeout_ms rest =
    simp (
      append_assoc,
      get_string-put_string m.group_id is_group_id,
      get_string-put_string m.member_id is_member_id,
      get_names m.topics is_topics,
      get_i32-put_i32 m.session_timeout_ms is_session_timeout_ms,
      get_u8-put_u8 (strategy_number m.strategy) (strategy_number-lt m.strategy),
      strategy_of_number-strategy_number m.strategy,
    )

-- A JoinGroupResponse whose texts are shorter than 64 KiB, whose integers fit their fields,
-- whose arrays have 2^20 elements at most and elements of the same kind, is read back from its
-- encoding, and the reader then stands at the bytes that follow.
pub decode_join_group_response-encode_join_group_response :
    (m : JoinGroupResponse)
    → IsName m.header.error_message
    → FitsSigned u32_mod m.generation
    → IsName m.member_id
    → IsName m.leader_id
    → IsArray IsWirePartition m.assignment
    → Reads decode_join_group_response (encode_join_group_response m) m
unfolding decode_join_group_response encode_join_group_response choose
decode_join_group_response-encode_join_group_response m is_header is_generation is_member_id
      is_leader_id is_assignment rest =
    simp (
      append_assoc,
      decode_header-encode_header m.header is_header,
      get_i32-put_i32 m.generation is_generation,
      get_string-put_string m.member_id is_member_id,
      get_string-put_string m.leader_id is_leader_id,
      get_tps m.assignment is_assignment,
    )

-- A HeartbeatRequest whose texts are shorter than 64 KiB, whose integers fit their fields, is
-- read back from its encoding, and the reader then stands at the bytes that follow.
pub decode_heartbeat_request-encode_heartbeat_request :
    (m : HeartbeatRequest)
    → IsName m.group_id
    → IsName m.member_id
    → FitsSigned u32_mod m.generation
    → Reads decode_heartbeat_request (encode_heartbeat_request m) m
unfolding decode_heartbeat_request encode_heartbeat_request choose
decode_heartbeat_request-encode_heartbeat_request m is_group_id is_member_id is_generation rest =
    simp (
      append_assoc,
      get_string-put_string m.group_id is_group_id,
      get_string-put_string m.member_id is_member_id,
      get_i32-put_i32 m.generation is_generation,
    )

-- A HeartbeatResponse whose texts are shorter than 64 KiB, whose integers fit their fields, is
-- read back from its encoding, and the reader then stands at the bytes that follow.
pub decode_heartbeat_response-encode_heartbeat_response :
    (m : HeartbeatResponse)
    → IsName m.header.error_message
    → FitsSigned u32_mod m.generation
    → Reads decode_heartbeat_response (encode_heartbeat_response m) m
unfolding decode_heartbeat_response encode_heartbeat_response choose
decode_heartbeat_response-encode_heartbeat_response m is_header is_generation rest = simp (
  append_assoc,
  decode_header-encode_header m.header is_header,
  get_i32-put_i32 m.generation is_generation,
  get_bool-put_bool m.rejoin_required,
)

-- A LeaveGroupRequest whose texts are shorter than 64 KiB, is read back from its encoding, and
-- the reader then stands at the bytes that follow.
pub decode_leave_group_request-encode_leave_group_request :
    (m : LeaveGroupRequest)
    → IsName m.group_id
    → IsName m.member_id
    → Reads decode_leave_group_request (encode_leave_group_request m) m
unfolding decode_leave_group_request encode_leave_group_request choose
decode_leave_group_request-encode_leave_group_request m is_group_id is_member_id rest = simp (
  append_assoc,
  get_string-put_string m.group_id is_group_id,
  get_string-put_string m.member_id is_member_id,
)

-- A CommitOffsetRequest whose texts are shorter than 64 KiB, whose integers fit their fields,
-- whose partition index is not negative, is read back from its encoding, and the reader then
-- stands at the bytes that follow.
pub decode_commit_offset_request-encode_commit_offset_request :
    (m : CommitOffsetRequest)
    → IsName m.group_id
    → IsName m.member_id
    → FitsSigned u32_mod m.generation
    → IsName m.topic
    → IsIndex m.partition
    → FitsSigned u64_mod m.offset
    → IsName m.metadata
    → Reads decode_commit_offset_request (encode_commit_offset_request m) m
unfolding decode_commit_offset_request encode_commit_offset_request choose
decode_commit_offset_request-encode_commit_offset_request m is_group_id is_member_id is_generation
      is_topic is_partition is_offset is_metadata rest =
    simp (
      append_assoc,
      get_string-put_string m.group_id is_group_id,
      get_string-put_string m.member_id is_member_id,
      get_i32-put_i32 m.generation is_generation,
      get_string-put_string m.topic is_topic,
      get_i32-put_i32 m.partition is_partition.1,
      is_partition.0,
      get_i64-put_i64 m.offset is_offset,
      get_string-put_string m.metadata is_metadata,
    )

-- A FetchOffsetRequest whose texts are shorter than 64 KiB, whose integers fit their fields,
-- whose partition index is not negative, is read back from its encoding, and the reader then
-- stands at the bytes that follow.
pub decode_fetch_offset_request-encode_fetch_offset_request :
    (m : FetchOffsetRequest)
    → IsName m.group_id
    → IsName m.topic
    → IsIndex m.partition
    → Reads decode_fetch_offset_request (encode_fetch_offset_request m) m
unfolding decode_fetch_offset_request encode_fetch_offset_request choose
decode_fetch_offset_request-encode_fetch_offset_request m is_group_id is_topic is_partition rest =
    simp (
      append_assoc,
      get_string-put_string m.group_id is_group_id,
      get_string-put_string m.topic is_topic,
      get_i32-put_i32 m.partition is_partition.1,
      is_partition.0,
    )

-- A FetchOffsetResponse whose texts are shorter than 64 KiB, whose integers fit their fields,
-- is read back from its encoding, and the reader then stands at the bytes that follow.
pub decode_fetch_offset_response-encode_fetch_offset_response :
    (m : FetchOffsetResponse)
    → IsName m.header.error_message
    → FitsSigned u64_mod m.offset
    → IsName m.metadata
    → Reads decode_fetch_offset_response (encode_fetch_offset_response m) m
unfolding decode_fetch_offset_response encode_fetch_offset_response choose
decode_fetch_offset_response-encode_fetch_offset_response m is_header is_offset is_metadata rest =
    simp (
      append_assoc,
      decode_header-encode_header m.header is_header,
      get_i64-put_i64 m.offset is_offset,
      get_string-put_string m.metadata is_metadata,
    )
