-- ===== src/Protocol/Examples.antt =====
-- Examples of the messages that are read back.
use pulse_log.Base.{◌≡◌, arith, some, [], ◌∷◌, ◌++◌}
use pulse_log.Base.Int.{pos, negsuc}
use pulse_log.Base.Keys.{Bytes}
use pulse_log.Base.Types.{ErrorCode}
use pulse_log.Protocol.Codec.{reader, get_string, put_string}
use pulse_log.Protocol.Codec.ZigZag.{put_var_int, get_var_int, get_var_int-put_var_int}
use pulse_log.Protocol.Codec.Fields.{get_string-put_string_any}
use pulse_log.Protocol.Wire.{ResponseHeader}
use pulse_log.Protocol.Wire.Steps.{IsArray}
use pulse_log.Protocol.ControlMessages.{
  MetadataResponse, encode_metadata_response, decode_metadata_response, BrokerEndpoint,
  PartitionMetadata, TopicMetadata,
}
use pulse_log.Protocol.ControlMessages.RoundTrip.{
  decode_metadata_response-encode_metadata_response, IsBroker, IsTopic,
}

abbrev orders : Bytes
orders = b'o' ∷ b'r' ∷ b'd' ∷ []

abbrev failed_header : ResponseHeader
failed_header = record { error = ErrorCode.not_leader; error_message = orders }

abbrev sample_broker : BrokerEndpoint
sample_broker = record { id = pos 1; host = orders; port = 9092 }

abbrev sample_partition : PartitionMetadata
sample_partition = record {
  index = pos 0;
  leader = pos 1;
  leader_epoch = pos 4;
  replicas = pos 1 ∷ pos 2 ∷ [];
  in_sync_replicas = pos 1 ∷ [];
}

abbrev sample_topic : TopicMetadata
sample_topic = record { name = orders; partitions = sample_partition ∷ [] }

sample_brokers_are : IsArray IsBroker (sample_broker ∷ [])
sample_brokers_are = (omega arith, ((omega arith, (omega arith, omega arith)), tt))

sample_topics_are : IsArray IsTopic (sample_topic ∷ [])
sample_topics_are = (
  omega arith,
  (
    (
      omega arith,
      (
        omega arith,
        (
          (
            omega arith,
            (
              omega arith,
              (
                omega arith,
                ((omega arith, (omega arith, (omega arith, tt))), (omega arith, (omega arith, tt))),
              ),
            ),
          ),
          tt,
        ),
      ),
    ),
    tt,
  ),
)

get_var_int-put_var_int_example :
    get_var_int (reader (put_var_int (negsuc 149) ++ (7 ∷ [])))
    ≡ (some (negsuc 149), reader (7 ∷ []))
get_var_int-put_var_int_example = get_var_int-put_var_int (negsuc 149) (omega arith) (7 ∷ [])

get_string-put_string_any_example :
    get_string (reader (put_string orders ++ (7 ∷ []))) ≡ (some orders, reader (7 ∷ []))
get_string-put_string_any_example = get_string-put_string_any orders (7 ∷ [])

abbrev sample_metadata_response : MetadataResponse
sample_metadata_response = record {
  header = failed_header;
  controller_id = negsuc 0;
  brokers = (sample_broker ∷ []);
  topics = (sample_topic ∷ []);
}

decode_metadata_response-encode_metadata_response_example :
    decode_metadata_response
      (reader (encode_metadata_response sample_metadata_response ++ (7 ∷ [])))
    ≡ (some sample_metadata_response, reader (7 ∷ []))
decode_metadata_response-encode_metadata_response_example =
    decode_metadata_response-encode_metadata_response sample_metadata_response (omega arith)
      (omega arith) sample_brokers_are sample_topics_are (7 ∷ [])
