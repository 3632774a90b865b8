-- ===== src/Protocol/Wire.antt =====
-- The parts that the messages of protocol/messages.h share: the response header, the bytes of the
-- enumerations, and the loops that decode arrays.
pub mod Steps
use pulse_log.Base.{
  ℕ, zero, suc, ◌/◌, ◌%◌, ◌≡◌, refl, ltb, leb, ◌==◌, if◌then◌else◌, Bool, true, false, Option, none,
  some, List, [], ◌∷◌, ◌++◌, length, take, get_elem?,
}
use pulse_log.Base.Int.{ℤ}
use pulse_log.Base.Keys.{Bytes}
use pulse_log.Base.Types.{Compression, AckMode, AssignmentStrategy, ErrorCode}
use pulse_log.Protocol.Codec.{
  u32_mod, put_u16, put_u32, put_string, put_array_len, PayloadReader, Get, continue, ◌>>=◌, ◌>>◌,
  pure, guard, refuse, get_u16, get_u32, get_string, get_array_len, get_remaining, remaining,
}

abbrev pub max_array_elements : ℕ
max_array_elements = 1048576

-- `ElementBudget`: the count of an array is bounded by the bytes that remain.
unfoldable pub element_budget : ℕ → PayloadReader → ℕ
element_budget min_element_bytes r =
    let budget = remaining r / (if min_element_bytes == 0 then 1 else min_element_bytes) in
    if ltb budget max_array_elements then budget else max_array_elements

-- `for (i = 0; i < count; ++i) { … if (!…) return false; out.push_back(…); }`
unfoldable pub get_list : {A : Type 0} → ℕ → Get A → Get (List A)
get_list zero get = pure []
get_list (suc count) get = do a ← get; others ← get_list count get; pure (a ∷ others)

-- The count, checked against the budget of the reader before it, and the elements.
unfoldable pub get_array : {A : Type 0} → ℕ → Get A → Get (List A)
get_array min_element_bytes get r =
    (do count ← get_array_len (element_budget min_element_bytes r); get_list count get) r

unfoldable pub put_list : {A : Type 0} → (A → Bytes) → List A → Bytes
put_list put [] = []
put_list put (a ∷ others) = put a ++ put_list put others

unfoldable pub put_array : {A : Type 0} → (A → Bytes) → List A → Bytes
put_array put elements = put_array_len (length elements) ++ put_list put elements

-- The length of the records and the records, at the end of a payload.
unfoldable pub put_records : Bytes → Bytes
put_records records = put_u32 (length records % u32_mod) ++ records

-- `if (r.Remaining() < records_len) return false;`
abbrev pub has_remaining : ℕ → Get Bool
has_remaining n r = (some (leb n (remaining r)), r)

-- `r.GetRemaining().subspan(0, records_len)`, once the guards that stand before it are passed.
unfoldable pub get_records : ℕ → Get Bytes
get_records records_len = do bytes ← get_remaining; pure (take records_len bytes)

abbrev pub error_codes : List ErrorCode
error_codes =
    ErrorCode.ok ∷ ErrorCode.unknown ∷ ErrorCode.invalid_argument ∷ ErrorCode.not_found
    ∷ ErrorCode.already_exists ∷ ErrorCode.out_of_range ∷ ErrorCode.corruption ∷ ErrorCode.io_error
    ∷ ErrorCode.unavailable ∷ ErrorCode.timeout ∷ ErrorCode.backpressure ∷ ErrorCode.not_leader
    ∷ ErrorCode.not_enough_replicas ∷ ErrorCode.protocol_error ∷ ErrorCode.unsupported_version
    ∷ ErrorCode.permission_denied ∷ ErrorCode.resource_exhausted ∷ ErrorCode.rebalance_in_progress
    ∷ ErrorCode.unknown_member ∷ ErrorCode.illegal_generation ∷ ErrorCode.closed
    ∷ ErrorCode.would_block ∷ ErrorCode.internal ∷ []

unfoldable pub error_number : ErrorCode → ℕ
error_number ErrorCode.ok = 0
error_number ErrorCode.unknown = 1
error_number ErrorCode.invalid_argument = 2
error_number ErrorCode.not_found = 3
error_number ErrorCode.already_exists = 4
error_number ErrorCode.out_of_range = 5
error_number ErrorCode.corruption = 6
error_number ErrorCode.io_error = 7
error_number ErrorCode.unavailable = 8
error_number ErrorCode.timeout = 9
error_number ErrorCode.backpressure = 10
error_number ErrorCode.not_leader = 11
error_number ErrorCode.not_enough_replicas = 12
error_number ErrorCode.protocol_error = 13
error_number ErrorCode.unsupported_version = 14
error_number ErrorCode.permission_denied = 15
error_number ErrorCode.resource_exhausted = 16
error_number ErrorCode.rebalance_in_progress = 17
error_number ErrorCode.unknown_member = 18
error_number ErrorCode.illegal_generation = 19
error_number ErrorCode.closed = 20
error_number ErrorCode.would_block = 21
error_number ErrorCode.internal = 22

-- `none` past `kInternal`.
unfoldable pub error_of_number : ℕ → Option ErrorCode
error_of_number raw = get_elem? error_codes raw

unfoldable pub error_or_unknown : Option ErrorCode → ErrorCode
error_or_unknown none = ErrorCode.unknown
error_or_unknown (some code) = code

pub record ResponseHeader : Type 0 where
  pub error : ErrorCode
  pub error_message : Bytes

unfoldable pub encode_header : ResponseHeader → Bytes
encode_header h = put_u16 (error_number h.error) ++ put_string h.error_message

unfoldable pub decode_header : Get ResponseHeader
decode_header = do
  raw ← get_u16
  error_message ← get_string
  pure (record { error = error_or_unknown (error_of_number raw); error_message = error_message })

pub data IsolationLevel : Type 0 where
  read_uncommitted read_replicated : IsolationLevel

unfoldable pub ack_number : AckMode → ℕ
ack_number AckMode.none = 0
ack_number AckMode.leader = 1
ack_number AckMode.quorum = 2

unfoldable pub isolation_number : IsolationLevel → ℕ
isolation_number IsolationLevel.read_uncommitted = 0
isolation_number IsolationLevel.read_replicated = 1

unfoldable pub compression_number : Compression → ℕ
compression_number Compression.none = 0
compression_number Compression.lz4_like = 1

unfoldable pub strategy_number : AssignmentStrategy → ℕ
strategy_number AssignmentStrategy.range = 0
strategy_number AssignmentStrategy.round_robin = 1

-- The casts from a byte, with the test against the last enumerator: `none` past it.
unfoldable pub ack_of_number : ℕ → Option AckMode
ack_of_number raw = get_elem? (AckMode.none ∷ AckMode.leader ∷ AckMode.quorum ∷ []) raw

unfoldable pub isolation_of_number : ℕ → Option IsolationLevel
isolation_of_number raw =
    get_elem? (IsolationLevel.read_uncommitted ∷ IsolationLevel.read_replicated ∷ []) raw

unfoldable pub compression_of_number : ℕ → Option Compression
compression_of_number raw = get_elem? (Compression.none ∷ Compression.lz4_like ∷ []) raw

unfoldable pub strategy_of_number : ℕ → Option AssignmentStrategy
strategy_of_number raw =
    get_elem? (AssignmentStrategy.range ∷ AssignmentStrategy.round_robin ∷ []) raw

-- `return false` for a byte that is no enumerator.
unfoldable pub choose : {A : Type 0} → Option A → Get A
choose none = refuse
choose (some a) = pure a
