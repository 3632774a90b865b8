-- ===== src/Protocol/ControlMessages/RoundTrip.antt =====
-- protocol/messages_control.cc: what is decoded is what was encoded.
use pulse_log.Base.{◌≤◌, ◌<◌, arith, List, length, length-append}
use pulse_log.Protocol.Codec.{u16_mod, u32_mod, u64_mod, put_i32}
use pulse_log.Protocol.Wire.{put_array, get_array, choose, compression_number}
use mathlib.Core.List.{append_assoc}
use pulse_log.Protocol.Codec.Fields.{
  Reads, FitsSigned, get_u8-put_u8, get_u16-put_u16, get_i16-put_i16, get_i32-put_i32,
  get_i64-put_i64, get_bool-put_bool, get_string-put_string,
}
use pulse_log.Protocol.Wire.Steps.{
  IsName, IsId, IsArray, decode_header-encode_header, get_names, get_ids, get_elements,
  two_le_string, four_le_array, length-put_i32, length-put_i64, length-put_u16,
  compression_number-lt, compression_of_number-compression_number,
}
use pulse_log.Protocol.ControlMessages.{
  BrokerEndpoint, put_broker, get_broker, PartitionMetadata, put_partition, get_partition,
  TopicMetadata, put_topic, get_topic, TopicSummary, put_summary, get_summary, CreateTopicRequest,
  encode_create_topic_request, decode_create_topic_request, CreateTopicResponse,
  encode_create_topic_response, decode_create_topic_response, MetadataRequest,
  encode_metadata_request, decode_metadata_request, MetadataResponse, encode_metadata_response,
  decode_metadata_response, ListTopicsResponse, encode_list_topics_response,
  decode_list_topics_response, HealthResponse, encode_health_response, decode_health_response,
  DescribeClusterResponse, encode_describe_cluster_response, decode_describe_cluster_response,
}

abbrev pub IsBroker : BrokerEndpoint → Type 0
IsBroker m = (FitsSigned u32_mod m.id) × ((IsName m.host) × ((m.port < u16_mod)))

get_broker-put_broker : (m : BrokerEndpoint) → IsBroker m → Reads get_broker (put_broker m) m
unfolding get_broker put_broker
get_broker-put_broker m h rest = simp (
  append_assoc,
  get_i32-put_i32 m.id h.0,
  get_string-put_string m.host h.1.0,
  get_u16-put_u16 m.port h.1.1,
)

length-put_broker : (m : BrokerEndpoint) → 8 ≤ length (put_broker m)
unfolding put_broker
length-put_broker m =
    simp (length-append, length-put_i32, length-put_i64, length-put_u16)
      (omega (arith, two_le_string m.host))

get_brokers :
    (ms : List BrokerEndpoint)
    → IsArray IsBroker ms
    → Reads (get_array 8 get_broker) (put_array put_broker ms) ms
get_brokers =
    get_elements 8 put_broker get_broker IsBroker (omega arith) get_broker-put_broker
      length-put_broker

abbrev pub IsPartition : PartitionMetadata → Type 0
IsPartition m =
    (FitsSigned u32_mod m.index)
    × ((FitsSigned u32_mod m.leader)
        × ((FitsSigned u64_mod m.leader_epoch)
            × ((IsArray IsId m.replicas) × ((IsArray IsId m.in_sync_replicas)))))

get_partition-put_partition :
    (m : PartitionMetadata) → IsPartition m → Reads get_partition (put_partition m) m
unfolding get_partition put_partition
get_partition-put_partition m h rest = simp (
  append_assoc,
  get_i32-put_i32 m.index h.0,
  get_i32-put_i32 m.leader h.1.0,
  get_i64-put_i64 m.leader_epoch h.1.1.0,
  get_ids m.replicas h.1.1.1.0,
  get_ids m.in_sync_replicas h.1.1.1.1,
)

length-put_partition : (m : PartitionMetadata) → 24 ≤ length (put_partition m)
unfolding put_partition
length-put_partition m =
    simp (length-append, length-put_i32, length-put_i64, length-put_u16)
      (omega (arith, four_le_array put_i32 m.replicas, four_le_array put_i32 m.in_sync_replicas))

get_parts :
    (ms : List PartitionMetadata)
    → IsArray IsPartition ms
    → Reads (get_array 24 get_partition) (put_array put_partition ms) ms
get_parts =
    get_elements 24 put_partition get_partition IsPartition (omega arith)
      get_partition-put_partition length-put_partition

abbrev pub IsTopic : TopicMetadata → Type 0
IsTopic m = (IsName m.name) × ((IsArray IsPartition m.partitions))

get_topic-put_topic : (m : TopicMetadata) → IsTopic m → Reads get_topic (put_topic m) m
unfolding get_topic put_topic
get_topic-put_topic m h rest =
    simp (append_assoc, get_string-put_string m.name h.0, get_parts m.partitions h.1)

length-put_topic : (m : TopicMetadata) → 6 ≤ length (put_topic m)
unfolding put_topic
length-put_topic m =
    simp (length-append, length-put_i32, length-put_i64, length-put_u16)
      (omega (arith, two_le_string m.name, four_le_array put_partition m.partitions))

get_topics :
    (ms : List TopicMetadata)
    → IsArray IsTopic ms
    → Reads (get_array 6 get_topic) (put_array put_topic ms) ms
get_topics =
    get_elements 6 put_topic get_topic IsTopic (omega arith) get_topic-put_topic length-put_topic

abbrev pub IsSummary : TopicSummary → Type 0
IsSummary m =
    (IsName m.name)
    × ((FitsSigned u32_mod m.partitions)
        × ((FitsSigned u64_mod m.total_bytes) × ((FitsSigned u64_mod m.total_records))))

get_summary-put_summary : (m : TopicSummary) → IsSummary m → Reads get_summary (put_summary m) m
unfolding get_summary put_summary
get_summary-put_summary m h rest = simp (
  append_assoc,
  get_string-put_string m.name h.0,
  get_i32-put_i32 m.partitions h.1.0,
  get_i64-put_i64 m.total_bytes h.1.1.0,
  get_i64-put_i64 m.total_records h.1.1.1,
)

length-put_summary : (m : TopicSummary) → 22 ≤ length (put_summary m)
unfolding put_summary
length-put_summary m =
    simp (length-append, length-put_i32, length-put_i64, length-put_u16)
      (omega (arith, two_le_string m.name))

get_summaries :
    (ms : List TopicSummary)
    → IsArray IsSummary ms
    → Reads (get_array 22 get_summary) (put_array put_summary ms) ms
get_summaries =
    get_elements 22 put_summary get_summary IsSummary (omega arith) get_summary-put_summary
      length-put_summary

-- A CreateTopicRequest whose texts are shorter than 64 KiB, whose integers fit their fields, is
-- read back from its encoding, and the reader then stands at the bytes that follow.
pub decode_create_topic_request-encode_create_topic_request :
    (m : CreateTopicRequest)
    → IsName m.topic
    → FitsSigned u32_mod m.partitions
    → FitsSigned u16_mod m.replication_factor
    → FitsSigned u64_mod m.retention_ms
    → FitsSigned u64_mod m.segment_bytes
    → Reads decode_create_topic_request (encode_create_topic_request m) m
unfolding decode_create_topic_request encode_create_topic_request choose
decode_create_topic_request-encode_create_topic_request m is_topic is_partitions
      is_replication_factor is_retention_ms is_segment_bytes rest =
    simp (
      append_assoc,
      get_string-put_string m.topic is_topic,
      get_i32-put_i32 m.partitions is_partitions,
      get_i16-put_i16 m.replication_factor is_replication_factor,
      get_i64-put_i64 m.retention_ms is_retention_ms,
      get_i64-put_i64 m.segment_bytes is_segment_bytes,
      get_u8-put_u8 (compression_number m.compression) (compression_number-lt m.compression),
      compression_of_number-compression_number m.compression,
      get_bool-put_bool m.from_controller,
    )

-- A CreateTopicResponse whose texts are shorter than 64 KiB, whose integers fit their fields,
-- is read back from its encoding, and the reader then stands at the bytes that follow.
pub decode_create_topic_response-encode_create_topic_response :
    (m : CreateTopicResponse)
    → IsName m.header.error_message
    → FitsSigned u32_mod m.partitions
    → Reads decode_create_topic_response (encode_create_topic_response m) m
unfolding decode_create_topic_response encode_create_topic_response choose
decode_create_topic_response-encode_create_topic_response m is_header is_partitions rest = simp (
  append_assoc,
  decode_header-encode_header m.header is_header,
  get_i32-put_i32 m.partitions is_partitions,
)

-- A MetadataRequest whose texts are shorter than 64 KiB, whose arrays have 2^20 elements at
-- most and elements of the same kind, is read back from its encoding, and the reader then
-- stands at the bytes that follow.
pub decode_metadata_request-encode_metadata_request :
    (m : MetadataRequest)
    → IsArray IsName m.topics
    → Reads decode_metadata_request (encode_metadata_request m) m
unfolding decode_metadata_request encode_metadata_request choose
decode_metadata_request-encode_metadata_request m is_topics rest =
    simp (append_assoc, get_names m.topics is_topics)

-- A MetadataResponse whose texts are shorter than 64 KiB, whose integers fit their fields,
-- whose arrays have 2^20 elements at most and elements of the same kind, is read back from its
-- encoding, and the reader then stands at the bytes that follow.
pub decode_metadata_response-encode_metadata_response :
    (m : MetadataResponse)
    → IsName m.header.error_message
    → FitsSigned u32_mod m.controller_id
    → IsArray IsBroker m.brokers
    → IsArray IsTopic m.topics
    → Reads decode_metadata_response (encode_metadata_response m) m
unfolding decode_metadata_response encode_metadata_response choose
decode_metadata_response-encode_metadata_response m is_header is_controller_id is_brokers is_topics
      rest =
    simp (
      append_assoc,
      decode_header-encode_header m.header is_header,
      get_i32-put_i32 m.controller_id is_controller_id,
      get_brokers m.brokers is_brokers,
      get_topics m.topics is_topics,
    )

-- A ListTopicsResponse whose texts are shorter than 64 KiB, whose arrays have 2^20 elements at
-- most and elements of the same kind, is read back from its encoding, and the reader then
-- stands at the bytes that follow.
pub decode_list_topics_response-encode_list_topics_response :
    (m : ListTopicsResponse)
    → IsName m.header.error_message
    → IsArray IsSummary m.topics
    → Reads decode_list_topics_response (encode_list_topics_response m) m
unfolding decode_list_topics_response encode_list_topics_response choose
decode_list_topics_response-encode_list_topics_response m is_header is_topics rest =
    simp (
      append_assoc,
      decode_header-encode_header m.header is_header,
      get_summaries m.topics is_topics,
    )

-- A HealthResponse whose texts are shorter than 64 KiB, whose integers fit their fields, is
-- read back from its encoding, and the reader then stands at the bytes that follow.
pub decode_health_response-encode_health_response :
    (m : HealthResponse)
    → IsName m.header.error_message
    → FitsSigned u32_mod m.broker_id
    → FitsSigned u64_mod m.uptime_ms
    → FitsSigned u32_mod m.hosted_partitions
    → FitsSigned u32_mod m.leader_partitions
    → IsName m.version
    → Reads decode_health_response (encode_health_response m) m
unfolding decode_health_response encode_health_response choose
decode_health_response-encode_health_response m is_header is_broker_id is_uptime_ms
      is_hosted_partitions is_leader_partitions is_version rest =
    simp (
      append_assoc,
      decode_header-encode_header m.header is_header,
      get_i32-put_i32 m.broker_id is_broker_id,
      get_i64-put_i64 m.uptime_ms is_uptime_ms,
      get_i32-put_i32 m.hosted_partitions is_hosted_partitions,
      get_i32-put_i32 m.leader_partitions is_leader_partitions,
      get_bool-put_bool m.ready,
      get_string-put_string m.version is_version,
    )

-- A DescribeClusterResponse whose texts are shorter than 64 KiB, whose integers fit their
-- fields, whose arrays have 2^20 elements at most and elements of the same kind, is read back
-- from its encoding, and the reader then stands at the bytes that follow.
pub decode_describe_cluster_response-encode_describe_cluster_response :
    (m : DescribeClusterResponse)
    → IsName m.header.error_message
    → FitsSigned u32_mod m.controller_id
    → IsArray IsBroker m.brokers
    → IsArray IsId m.live_brokers
    → Reads decode_describe_cluster_response (encode_describe_cluster_response m) m
unfolding decode_describe_cluster_response encode_describe_cluster_response choose
decode_describe_cluster_response-encode_describe_cluster_response m is_header is_controller_id
      is_brokers is_live_brokers rest =
    simp (
      append_assoc,
      decode_header-encode_header m.header is_header,
      get_i32-put_i32 m.controller_id is_controller_id,
      get_brokers m.brokers is_brokers,
      get_ids m.live_brokers is_live_brokers,
    )
