-- ===== src/Protocol/ControlMessages.antt =====
-- protocol/messages_control.cc: topics, metadata, health and the cluster.
pub mod RoundTrip
use pulse_log.Base.{
  ℕ, zero, suc, ◌+◌, ◌*◌, ◌/◌, ◌%◌, ◌≤◌, ◌<◌, ◌≡◌, refl, sym, ap, ◌∙◌, arith, Bool, true, false,
  Option, none, some, List, [], ◌∷◌, ◌++◌, length, All, length-append,
}
use pulse_log.Base.Int.{ℤ, pos, negsuc, leb_ℤ}
use pulse_log.Base.Keys.{Bytes}
use pulse_log.Base.Types.{Compression, AckMode, AssignmentStrategy, TopicPartition}
use pulse_log.Protocol.Codec.{
  u16_mod, u32_mod, u64_mod, put_u8, put_u16, put_u32, put_u64, put_i16, put_i32, put_i64, put_bool,
  put_string, get_u8, get_u16, get_u32, get_i16, get_i32, get_i64, get_bool, get_string, reader,
  Get, continue, ◌>>=◌, ◌>>◌, pure, guard, refuse,
}
use pulse_log.Protocol.Wire.{
  put_array, get_array, put_records, get_records, has_remaining, ResponseHeader, encode_header,
  decode_header, choose, IsolationLevel, ack_number, ack_of_number, isolation_number,
  isolation_of_number, compression_number, compression_of_number, strategy_number,
  strategy_of_number,
}

pub record BrokerEndpoint : Type 0 where
  pub id : ℤ
  pub host : Bytes
  pub port : ℕ

unfoldable pub put_broker : BrokerEndpoint → Bytes
put_broker m = put_i32 m.id ++ put_string m.host ++ put_u16 m.port

unfoldable pub get_broker : Get BrokerEndpoint
get_broker = do
  id ← get_i32
  host ← get_string
  port ← get_u16
  pure (record { id = id; host = host; port = port })

pub record PartitionMetadata : Type 0 where
  pub index : ℤ
  pub leader : ℤ
  pub leader_epoch : ℤ
  pub replicas : List ℤ
  pub in_sync_replicas : List ℤ

unfoldable pub put_partition : PartitionMetadata → Bytes
put_partition m =
    put_i32 m.index
    ++ put_i32 m.leader
    ++ put_i64 m.leader_epoch
    ++ put_array put_i32 m.replicas
    ++ put_array put_i32 m.in_sync_replicas

unfoldable pub get_partition : Get PartitionMetadata
get_partition = do
  index ← get_i32
  leader ← get_i32
  leader_epoch ← get_i64
  replicas ← get_array 4 get_i32
  in_sync_replicas ← get_array 4 get_i32
  pure (record {
    index = index;
    leader = leader;
    leader_epoch = leader_epoch;
    replicas = replicas;
    in_sync_replicas = in_sync_replicas;
  })

pub record TopicMetadata : Type 0 where
  pub name : Bytes
  pub partitions : List PartitionMetadata

unfoldable pub put_topic : TopicMetadata → Bytes
put_topic m = put_string m.name ++ put_array put_partition m.partitions

unfoldable pub get_topic : Get TopicMetadata
get_topic = do
  name ← get_string
  partitions ← get_array 24 get_partition
  pure (record { name = name; partitions = partitions })

pub record TopicSummary : Type 0 where
  pub name : Bytes
  pub partitions : ℤ
  pub total_bytes : ℤ
  pub total_records : ℤ

unfoldable pub put_summary : TopicSummary → Bytes
put_summary m =
    put_string m.name ++ put_i32 m.partitions ++ put_i64 m.total_bytes ++ put_i64 m.total_records

unfoldable pub get_summary : Get TopicSummary
get_summary = do
  name ← get_string
  partitions ← get_i32
  total_bytes ← get_i64
  total_records ← get_i64
  pure (record {
    name = name;
    partitions = partitions;
    total_bytes = total_bytes;
    total_records = total_records;
  })

pub record CreateTopicRequest : Type 0 where
  pub topic : Bytes
  pub partitions : ℤ
  pub replication_factor : ℤ
  pub retention_ms : ℤ
  pub segment_bytes : ℤ
  pub compression : Compression
  pub from_controller : Bool

unfoldable pub encode_create_topic_request : CreateTopicRequest → Bytes
encode_create_topic_request m =
    put_string m.topic
    ++ put_i32 m.partitions
    ++ put_i16 m.replication_factor
    ++ put_i64 m.retention_ms
    ++ put_i64 m.segment_bytes
    ++ put_u8 (compression_number m.compression)
    ++ put_bool m.from_controller

unfoldable pub decode_create_topic_request : Get CreateTopicRequest
decode_create_topic_request = do
  topic ← get_string
  partitions ← get_i32
  replication_factor ← get_i16
  retention_ms ← get_i64
  segment_bytes ← get_i64
  compression_raw ← get_u8
  compression ← choose (compression_of_number compression_raw)
  from_controller ← get_bool
  pure (record {
    topic = topic;
    partitions = partitions;
    replication_factor = replication_factor;
    retention_ms = retention_ms;
    segment_bytes = segment_bytes;
    compression = compression;
    from_controller = from_controller;
  })

pub record CreateTopicResponse : Type 0 where
  pub header : ResponseHeader
  pub partitions : ℤ

unfoldable pub encode_create_topic_response : CreateTopicResponse → Bytes
encode_create_topic_response m = encode_header m.header ++ put_i32 m.partitions

unfoldable pub decode_create_topic_response : Get CreateTopicResponse
decode_create_topic_response = do
  header ← decode_header
  partitions ← get_i32
  pure (record { header = header; partitions = partitions })

pub record MetadataRequest : Type 0 where
  pub topics : List Bytes

unfoldable pub encode_metadata_request : MetadataRequest → Bytes
encode_metadata_request m = put_array put_string m.topics

unfoldable pub decode_metadata_request : Get MetadataRequest
decode_metadata_request = do topics ← get_array 2 get_string; pure (record { topics = topics })

pub record MetadataResponse : Type 0 where
  pub header : ResponseHeader
  pub controller_id : ℤ
  pub brokers : List BrokerEndpoint
  pub topics : List TopicMetadata

unfoldable pub encode_metadata_response : MetadataResponse → Bytes
encode_metadata_response m =
    encode_header m.header
    ++ put_i32 m.controller_id
    ++ put_array put_broker m.brokers
    ++ put_array put_topic m.topics

unfoldable pub decode_metadata_response : Get MetadataResponse
decode_metadata_response = do
  header ← decode_header
  controller_id ← get_i32
  brokers ← get_array 8 get_broker
  topics ← get_array 6 get_topic
  pure (record {
    header = header;
    controller_id = controller_id;
    brokers = brokers;
    topics = topics;
  })

pub record ListTopicsResponse : Type 0 where
  pub header : ResponseHeader
  pub topics : List TopicSummary

unfoldable pub encode_list_topics_response : ListTopicsResponse → Bytes
encode_list_topics_response m = encode_header m.header ++ put_array put_summary m.topics

unfoldable pub decode_list_topics_response : Get ListTopicsResponse
decode_list_topics_response = do
  header ← decode_header
  topics ← get_array 22 get_summary
  pure (record { header = header; topics = topics })

pub record HealthResponse : Type 0 where
  pub header : ResponseHeader
  pub broker_id : ℤ
  pub uptime_ms : ℤ
  pub hosted_partitions : ℤ
  pub leader_partitions : ℤ
  pub ready : Bool
  pub version : Bytes

unfoldable pub encode_health_response : HealthResponse → Bytes
encode_health_response m =
    encode_header m.header
    ++ put_i32 m.broker_id
    ++ put_i64 m.uptime_ms
    ++ put_i32 m.hosted_partitions
    ++ put_i32 m.leader_partitions
    ++ put_bool m.ready
    ++ put_string m.version

unfoldable pub decode_health_response : Get HealthResponse
decode_health_response = do
  header ← decode_header
  broker_id ← get_i32
  uptime_ms ← get_i64
  hosted_partitions ← get_i32
  leader_partitions ← get_i32
  ready ← get_bool
  version ← get_string
  pure (record {
    header = header;
    broker_id = broker_id;
    uptime_ms = uptime_ms;
    hosted_partitions = hosted_partitions;
    leader_partitions = leader_partitions;
    ready = ready;
    version = version;
  })

pub record DescribeClusterResponse : Type 0 where
  pub header : ResponseHeader
  pub controller_id : ℤ
  pub brokers : List BrokerEndpoint
  pub live_brokers : List ℤ

unfoldable pub encode_describe_cluster_response : DescribeClusterResponse → Bytes
encode_describe_cluster_response m =
    encode_header m.header
    ++ put_i32 m.controller_id
    ++ put_array put_broker m.brokers
    ++ put_array put_i32 m.live_brokers

unfoldable pub decode_describe_cluster_response : Get DescribeClusterResponse
decode_describe_cluster_response = do
  header ← decode_header
  controller_id ← get_i32
  brokers ← get_array 8 get_broker
  live_brokers ← get_array 4 get_i32
  pure (record {
    header = header;
    controller_id = controller_id;
    brokers = brokers;
    live_brokers = live_brokers;
  })
