-- ===== src/Protocol/GroupMessages.antt =====
-- protocol/messages_group.cc: the requests and responses of the consumer groups.
pub mod RoundTrip
use pulse_log.Base.{
  ℕ, zero, suc, ◌+◌, ◌*◌, ◌/◌, ◌%◌, ◌≤◌, ◌<◌, ◌≡◌, refl, sym, ap, ◌∙◌, arith, Bool, true, false,
  Option, none, some, List, [], ◌∷◌, ◌++◌, length, All, length-append,
}
use pulse_log.Base.Int.{ℤ, pos, negsuc, leb_ℤ}
use pulse_log.Base.Keys.{Bytes}
use pulse_log.Base.Types.{Compression, AckMode, AssignmentStrategy, TopicPartition}
use pulse_log.Protocol.Codec.{
  u16_mod, u32_mod, u64_mod, put_u8, put_u16, put_u32, put_u64, put_i16, put_i32, put_i64, put_bool,
  put_string, get_u8, get_u16, get_u32, get_i16, get_i32, get_i64, get_bool, get_string, reader,
  Get, continue, ◌>>=◌, ◌>>◌, pure, guard, refuse,
}
use pulse_log.Protocol.Wire.{
  put_array, get_array, put_records, get_records, has_remaining, ResponseHeader, encode_header,
  decode_header, choose, IsolationLevel, ack_number, ack_of_number, isolation_number,
  isolation_of_number, compression_number, compression_of_number, strategy_number,
  strategy_of_number,
}

unfoldable pub put_topic_partition : TopicPartition → Bytes
put_topic_partition m = put_string m.topic ++ put_i32 m.partition

unfoldable pub get_topic_partition : Get TopicPartition
get_topic_partition = do
  topic ← get_string
  partition ← get_i32
  guard (leb_ℤ (pos 0) partition)
  pure (record { topic = topic; partition = partition })

pub record JoinGroupRequest : Type 0 where
  pub group_id : Bytes
  pub member_id : Bytes
  pub topics : List Bytes
  pub session_timeout_ms : ℤ
  pub strategy : AssignmentStrategy

unfoldable pub encode_join_group_request : JoinGroupRequest → Bytes
encode_join_group_request m =
    put_string m.group_id
    ++ put_string m.member_id
    ++ put_array put_string m.topics
    ++ put_i32 m.session_timeout_ms
    ++ put_u8 (strategy_number m.strategy)

unfoldable pub decode_join_group_request : Get JoinGroupRequest
decode_join_group_request = do
  group_id ← get_string
  member_id ← get_string
  topics ← get_array 2 get_string
  session_timeout_ms ← get_i32
  strategy_raw ← get_u8
  strategy ← choose (strategy_of_number strategy_raw)
  pure (record {
    group_id = group_id;
    member_id = member_id;
    topics = topics;
    session_timeout_ms = session_timeout_ms;
    strategy = strategy;
  })

pub record JoinGroupResponse : Type 0 where
  pub header : ResponseHeader
  pub generation : ℤ
  pub member_id : Bytes
  pub leader_id : Bytes
  pub assignment : List TopicPartition

unfoldable pub encode_join_group_response : JoinGroupResponse → Bytes
encode_join_group_response m =
    encode_header m.header
    ++ put_i32 m.generation
    ++ put_string m.member_id
    ++ put_string m.leader_id
    ++ put_array put_topic_partition m.assignment

unfoldable pub decode_join_group_response : Get JoinGroupResponse
decode_join_group_response = do
  header ← decode_header
  generation ← get_i32
  member_id ← get_string
  leader_id ← get_string
  assignment ← get_array 6 get_topic_partition
  pure (record {
    header = header;
    generation = generation;
    member_id = member_id;
    leader_id = leader_id;
    assignment = assignment;
  })

pub record HeartbeatRequest : Type 0 where
  pub group_id : Bytes
  pub member_id : Bytes
  pub generation : ℤ

unfoldable pub encode_heartbeat_request : HeartbeatRequest → Bytes
encode_heartbeat_request m = put_string m.group_id ++ put_string m.member_id ++ put_i32 m.generation

unfoldable pub decode_heartbeat_request : Get HeartbeatRequest
decode_heartbeat_request = do
  group_id ← get_string
  member_id ← get_string
  generation ← get_i32
  pure (record { group_id = group_id; member_id = member_id; generation = generation })

pub record HeartbeatResponse : Type 0 where
  pub header : ResponseHeader
  pub generation : ℤ
  pub rejoin_required : Bool

unfoldable pub encode_heartbeat_response : HeartbeatResponse → Bytes
encode_heartbeat_response m =
    encode_header m.header ++ put_i32 m.generation ++ put_bool m.rejoin_required

unfoldable pub decode_heartbeat_response : Get HeartbeatResponse
decode_heartbeat_response = do
  header ← decode_header
  generation ← get_i32
  rejoin_required ← get_bool
  pure (record { header = header; generation = generation; rejoin_required = rejoin_required })

pub record LeaveGroupRequest : Type 0 where
  pub group_id : Bytes
  pub member_id : Bytes

unfoldable pub encode_leave_group_request : LeaveGroupRequest → Bytes
encode_leave_group_request m = put_string m.group_id ++ put_string m.member_id

unfoldable pub decode_leave_group_request : Get LeaveGroupRequest
decode_leave_group_request = do
  group_id ← get_string
  member_id ← get_string
  pure (record { group_id = group_id; member_id = member_id })

pub record CommitOffsetRequest : Type 0 where
  pub group_id : Bytes
  pub member_id : Bytes
  pub generation : ℤ
  pub topic : Bytes
  pub partition : ℤ
  pub offset : ℤ
  pub metadata : Bytes

unfoldable pub encode_commit_offset_request : CommitOffsetRequest → Bytes
encode_commit_offset_request m =
    put_string m.group_id
    ++ put_string m.member_id
    ++ put_i32 m.generation
    ++ put_string m.topic
    ++ put_i32 m.partition
    ++ put_i64 m.offset
    ++ put_string m.metadata

unfoldable pub decode_commit_offset_request : Get CommitOffsetRequest
decode_commit_offset_request = do
  group_id ← get_string
  member_id ← get_string
  generation ← get_i32
  topic ← get_string
  partition ← get_i32
  guard (leb_ℤ (pos 0) partition)
  offset ← get_i64
  metadata ← get_string
  pure (record {
    group_id = group_id;
    member_id = member_id;
    generation = generation;
    topic = topic;
    partition = partition;
    offset = offset;
    metadata = metadata;
  })

pub record FetchOffsetRequest : Type 0 where
  pub group_id : Bytes
  pub topic : Bytes
  pub partition : ℤ

unfoldable pub encode_fetch_offset_request : FetchOffsetRequest → Bytes
encode_fetch_offset_request m = put_string m.group_id ++ put_string m.topic ++ put_i32 m.partition

unfoldable pub decode_fetch_offset_request : Get FetchOffsetRequest
decode_fetch_offset_request = do
  group_id ← get_string
  topic ← get_string
  partition ← get_i32
  guard (leb_ℤ (pos 0) partition)
  pure (record { group_id = group_id; topic = topic; partition = partition })

pub record FetchOffsetResponse : Type 0 where
  pub header : ResponseHeader
  pub offset : ℤ
  pub metadata : Bytes

unfoldable pub encode_fetch_offset_response : FetchOffsetResponse → Bytes
encode_fetch_offset_response m = encode_header m.header ++ put_i64 m.offset ++ put_string m.metadata

unfoldable pub decode_fetch_offset_response : Get FetchOffsetResponse
decode_fetch_offset_response = do
  header ← decode_header
  offset ← get_i64
  metadata ← get_string
  pure (record { header = header; offset = offset; metadata = metadata })
