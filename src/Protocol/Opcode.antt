-- ===== src/Protocol/Opcode.antt =====
-- protocol/opcode.{h,cc}: the operations of the protocol and their numbers.
use pulse_log.Base.{
  ℕ, ◌≡◌, refl, ◌==◌, leb, ltb, ◌<◌, arith, Bool, true, false, ◌&&◌, if◌then◌else◌, Option, none,
  some, List, [], ◌∷◌,
}
use mathlib.Core.Bool.{false≢true}
use pulse_log.Base.Keys.{Bytes}
use pulse_log.Base.Text.{text}

pub data OpCode : Type 0 where
  unknown produce fetch list_offsets create_topic metadata commit_offset fetch_offset join_group
        heartbeat leave_group health list_topics replicate replica_ack replica_fetch delete_topic
        describe_cluster :
      OpCode

unfoldable pub opcode_number : OpCode → ℕ
opcode_number OpCode.unknown = 0
opcode_number OpCode.produce = 1
opcode_number OpCode.fetch = 2
opcode_number OpCode.list_offsets = 3
opcode_number OpCode.create_topic = 20
opcode_number OpCode.metadata = 21
opcode_number OpCode.commit_offset = 22
opcode_number OpCode.fetch_offset = 23
opcode_number OpCode.join_group = 24
opcode_number OpCode.heartbeat = 25
opcode_number OpCode.leave_group = 26
opcode_number OpCode.health = 27
opcode_number OpCode.list_topics = 28
opcode_number OpCode.replicate = 40
opcode_number OpCode.replica_ack = 41
opcode_number OpCode.replica_fetch = 42
opcode_number OpCode.delete_topic = 60
opcode_number OpCode.describe_cluster = 61

-- `OpCodeName`
unfoldable pub opcode_name : OpCode → Bytes
opcode_name OpCode.unknown = text "UNKNOWN"
opcode_name OpCode.produce = text "PRODUCE"
opcode_name OpCode.fetch = text "FETCH"
opcode_name OpCode.list_offsets = text "LIST_OFFSETS"
opcode_name OpCode.create_topic = text "CREATE_TOPIC"
opcode_name OpCode.metadata = text "METADATA"
opcode_name OpCode.commit_offset = text "COMMIT_OFFSET"
opcode_name OpCode.fetch_offset = text "FETCH_OFFSET"
opcode_name OpCode.join_group = text "JOIN_GROUP"
opcode_name OpCode.heartbeat = text "HEARTBEAT"
opcode_name OpCode.leave_group = text "LEAVE_GROUP"
opcode_name OpCode.health = text "HEALTH"
opcode_name OpCode.list_topics = text "LIST_TOPICS"
opcode_name OpCode.replicate = text "REPLICATE"
opcode_name OpCode.replica_ack = text "REPLICA_ACK"
opcode_name OpCode.replica_fetch = text "REPLICA_FETCH"
opcode_name OpCode.delete_topic = text "DELETE_TOPIC"
opcode_name OpCode.describe_cluster = text "DESCRIBE_CLUSTER"

-- The operations that `IsKnownOpCode` lists.
abbrev pub opcodes : List OpCode
opcodes =
    OpCode.produce ∷ OpCode.fetch ∷ OpCode.list_offsets ∷ OpCode.create_topic ∷ OpCode.metadata
    ∷ OpCode.commit_offset ∷ OpCode.fetch_offset ∷ OpCode.join_group ∷ OpCode.heartbeat
    ∷ OpCode.leave_group ∷ OpCode.health ∷ OpCode.list_topics ∷ OpCode.replicate
    ∷ OpCode.replica_ack ∷ OpCode.replica_fetch ∷ OpCode.delete_topic ∷ OpCode.describe_cluster ∷ []

unfoldable pub find_opcode : ℕ → List OpCode → Option OpCode
find_opcode raw [] = none
find_opcode raw (op ∷ ops) =
    let later = find_opcode raw ops in if opcode_number op == raw then some op else later

-- `IsKnownOpCode` and the cast that follows it: `none` for a number that is not known.
unfoldable pub opcode_of_number : ℕ → Option OpCode
opcode_of_number raw = find_opcode raw opcodes

-- `IsInterBroker`
unfoldable pub is_inter_broker : OpCode → Bool
is_inter_broker op = leb 40 (opcode_number op) && ltb (opcode_number op) 60

abbrev pub is_known : OpCode → Bool
is_known OpCode.unknown = false
is_known op = true

pub opcode_number-lt : (op : OpCode) → opcode_number op < 65536
unfolding opcode_number
opcode_number-lt = elim [
  | OpCode.unknown ↦ omega arith
  | OpCode.produce ↦ omega arith
  | OpCode.fetch ↦ omega arith
  | OpCode.list_offsets ↦ omega arith
  | OpCode.create_topic ↦ omega arith
  | OpCode.metadata ↦ omega arith
  | OpCode.commit_offset ↦ omega arith
  | OpCode.fetch_offset ↦ omega arith
  | OpCode.join_group ↦ omega arith
  | OpCode.heartbeat ↦ omega arith
  | OpCode.leave_group ↦ omega arith
  | OpCode.health ↦ omega arith
  | OpCode.list_topics ↦ omega arith
  | OpCode.replicate ↦ omega arith
  | OpCode.replica_ack ↦ omega arith
  | OpCode.replica_fetch ↦ omega arith
  | OpCode.delete_topic ↦ omega arith
  | OpCode.describe_cluster ↦ omega arith
]

pub opcode_of_number-opcode_number :
    (op : OpCode) → is_known op ≡ true → opcode_of_number (opcode_number op) ≡ some op
unfolding opcode_of_number opcode_number find_opcode
opcode_of_number-opcode_number OpCode.unknown h = absurd (false≢true h)
opcode_of_number-opcode_number OpCode.produce h = refl
opcode_of_number-opcode_number OpCode.fetch h = refl
opcode_of_number-opcode_number OpCode.list_offsets h = refl
opcode_of_number-opcode_number OpCode.create_topic h = refl
opcode_of_number-opcode_number OpCode.metadata h = refl
opcode_of_number-opcode_number OpCode.commit_offset h = refl
opcode_of_number-opcode_number OpCode.fetch_offset h = refl
opcode_of_number-opcode_number OpCode.join_group h = refl
opcode_of_number-opcode_number OpCode.heartbeat h = refl
opcode_of_number-opcode_number OpCode.leave_group h = refl
opcode_of_number-opcode_number OpCode.health h = refl
opcode_of_number-opcode_number OpCode.list_topics h = refl
opcode_of_number-opcode_number OpCode.replicate h = refl
opcode_of_number-opcode_number OpCode.replica_ack h = refl
opcode_of_number-opcode_number OpCode.replica_fetch h = refl
opcode_of_number-opcode_number OpCode.delete_topic h = refl
opcode_of_number-opcode_number OpCode.describe_cluster h = refl
