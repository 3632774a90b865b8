-- ===== src/Consumer/Coordinator.antt =====
-- consumer/group_coordinator.{h,cc}: the consumer groups, their members and generations. A generation
-- is an unbounded integer here. `std::map` and `std::unordered_map` are maps in the order of the keys.
pub mod Requests
pub mod Calls
pub mod Changes
pub mod Generations
pub mod Owners
pub mod Joins
pub mod Sessions
pub mod Fencing
use Prim.Native.Nat.{◌^◌}
use pulse_log.Base.{
  ℕ, suc, ◌+◌, ◌%◌, ◌≡◌, Bool, true, false, ◌&&◌, ◌||◌, not, if◌then◌else◌, Option, none, some,
  List, [], ◌∷◌, ◌++◌, map, keep, length, is_empty,
}
use pulse_log.Base.Int.{ℤ, pos, negsuc, ◌+ℤ◌, ◌-ℤ◌, ltb_ℤ, eqb_ℤ}
use pulse_log.Base.Keys.{Bytes, bytes_eq, bytes_lt, bytes_key}
use pulse_log.Base.Maps.{Map, keys, find, assign, erase, contains_key}
use pulse_log.Base.Order.{elem}
use pulse_log.Base.Sorting.{sort, unique}
use pulse_log.Base.Text.{text, decimal}
use pulse_log.Base.Types.{ErrorCode, AssignmentStrategy, TopicPartition, partition_key}
use pulse_log.Base.Status.{Status, error_is_ok}
use pulse_log.Consumer.Assignor.{Assignment, divide, entry}
use pulse_log.Consumer.OffsetStore.{
  CommittedOffset, OffsetKey, OffsetStore, commit_offset, get_offset,
}
use pulse_log.Protocol.GroupMessages.{
  JoinGroupRequest, JoinGroupResponse, HeartbeatRequest, HeartbeatResponse, LeaveGroupRequest,
  CommitOffsetRequest, FetchOffsetRequest, FetchOffsetResponse,
}
use pulse_log.Protocol.Wire.{ResponseHeader}

pub record GroupMember : Type 0 where
  pub member_id : Bytes
  pub topics : List Bytes
  pub session_timeout_ms : ℤ
  pub last_heartbeat_ms : ℤ
  pub assignment : List TopicPartition

pub data GroupState : Type 0 where
  empty rebalancing stable : GroupState

abbrev pub is_stable : GroupState → Bool
is_stable GroupState.stable = true
is_stable _ = false

pub record Group : Type 0 where
  pub group_id : Bytes
  pub state : GroupState
  pub generation : ℤ
  pub leader_id : Bytes
  pub strategy : AssignmentStrategy
  pub members : Map Bytes GroupMember
  pub last_rebalance_ms : ℤ

abbrev pub new_group : Group
new_group = record {
  group_id = [];
  state = GroupState.empty;
  generation = pos 0;
  leader_id = [];
  strategy = AssignmentStrategy.range;
  members = [];
  last_rebalance_ms = pos 0;
}

abbrev pub new_member : GroupMember
new_member = record {
  member_id = [];
  topics = [];
  session_timeout_ms = pos 10000;
  last_heartbeat_ms = pos 0;
  assignment = [];
}

-- `PartitionLookup`, which is null where there is none.
abbrev pub PartitionLookup : Type 0
PartitionLookup = Option (List Bytes → List TopicPartition)

pub record GroupCoordinator : Type 0 where
  pub groups : Map Bytes Group
  pub offsets : OffsetStore
  pub lookup : PartitionLookup
  pub default_session_timeout_ms : ℤ
  pub member_counter : ℕ

abbrev pub header_ok : ResponseHeader
header_ok = record { error = ErrorCode.ok; error_message = [] }

abbrev pub header_error : ErrorCode → Bytes → ResponseHeader
header_error code message = record { error = code; error_message = message }

abbrev pub value_or {ℓ} : {V : Type ℓ} → V → Option V → V
value_or v none = v
value_or v (some w) = w

-- `operator[]`, where `v` is the value of a missing key.
abbrev pub entry_of {ℓ} : {V : Type ℓ} → V → Bytes → Map Bytes V → V
entry_of v k m = value_or v (find k m)

unfoldable pub allocate_member_id : Bytes → ℕ → Bytes × ℕ
allocate_member_id group_id counter =
    let next = (counter + 1) % 2 ^ 64 in (group_id ++ text "-" ++ decimal next, next)

unfoldable pub subscribed : Map Bytes GroupMember → List Bytes
subscribed [] = []
subscribed ((id, member) ∷ members) = member.topics ++ subscribed members

unfoldable pub partitions_of : PartitionLookup → List Bytes → List TopicPartition
partitions_of none topics = []
partitions_of (some lookup) topics = lookup topics

unfoldable pub hand_out : Assignment → Map Bytes GroupMember → Map Bytes GroupMember
hand_out division = map (λ e. (e.0, record e.1 { assignment = entry e.0 division }))

unfoldable pub least : Bytes → List Bytes → Bytes
least a [] = a
least a (b ∷ bs) = if bytes_lt b a then least b bs else least a bs

unfoldable pub leader_of : List Bytes → Bytes
leader_of [] = []
leader_of (a ∷ ids) = least a ids

-- `RebalanceLocked`
unfoldable pub rebalance : PartitionLookup → ℤ → Group → Group
rebalance lookup now_ms group =
    let next = group.generation +ℤ pos 1 in
    if is_empty group.members
    then record group {
      generation = next;
      last_rebalance_ms = now_ms;
      state = GroupState.empty;
      leader_id = [];
    }
    else let member_ids = keys group.members in
      let topics = unique bytes_eq (sort bytes_lt (subscribed group.members)) in
      record group {
        generation = next;
        last_rebalance_ms = now_ms;
        members =
            hand_out (divide group.strategy member_ids (partitions_of lookup topics)) group.members;
        leader_id = leader_of member_ids;
        state = GroupState.stable;
      }

-- The group that a request joins: `groups_[group_id]`, given its name and strategy when it is new.
unfoldable pub joined_group : JoinGroupRequest → Map Bytes Group → Group
joined_group request groups =
    let group = entry_of new_group request.group_id groups in
    if is_empty group.group_id
    then record group { group_id = request.group_id; strategy = request.strategy }
    else group

-- `==` of two vectors of strings.
abbrev pub topics_eq : List Bytes → List Bytes → Bool
topics_eq [] [] = true
topics_eq (a ∷ others) (b ∷ rest) = bytes_eq a b && topics_eq others rest
topics_eq _ _ = false

-- A member takes its place in a group; `is_new` is whether its id was given just now.
unfoldable pub admit : GroupCoordinator → JoinGroupRequest → ℤ → Bool → Bytes → Group → Group
admit c request now_ms is_new member_id group =
    let member = entry_of new_member member_id group.members in
    let entered = record group {
      members =
          assign member_id
            (record member {
              member_id = member_id;
              topics = request.topics;
              session_timeout_ms =
                  if ltb_ℤ (pos 0) request.session_timeout_ms
                  then request.session_timeout_ms
                  else c.default_session_timeout_ms;
              last_heartbeat_ms = now_ms;
            })
            group.members;
    } in
    if is_new || (not (topics_eq member.topics request.topics) || not (is_stable group.state))
    then rebalance c.lookup now_ms entered
    else entered

unfoldable pub join_as :
    GroupCoordinator
    → JoinGroupRequest
    → ℤ
    → Bool
    → Bytes × ℕ
    → JoinGroupResponse × GroupCoordinator
join_as c request now_ms is_new (member_id, counter) =
    let group = admit c request now_ms is_new member_id (joined_group request c.groups) in
    (
      record {
        header = header_ok;
        generation = group.generation;
        member_id = member_id;
        leader_id = group.leader_id;
        assignment = (entry_of new_member member_id group.members).assignment;
      },
      record c { groups = assign request.group_id group c.groups; member_counter = counter },
    )

abbrev pub join_refused : Bytes → JoinGroupResponse
join_refused message = record {
  header = header_error ErrorCode.invalid_argument message;
  generation = negsuc 0;
  member_id = [];
  leader_id = [];
  assignment = [];
}

-- `Join`
unfoldable pub join : JoinGroupRequest → ℤ → GroupCoordinator → JoinGroupResponse × GroupCoordinator
join request now_ms c =
    if is_empty request.group_id
    then (join_refused (text "group id must not be empty"), c)
    else if is_empty request.topics
    then (join_refused (text "a member must subscribe to at least one topic"), c)
    else let group = joined_group request c.groups in
      let is_new =
        is_empty request.member_id || not (contains_key request.member_id group.members) in
      join_as c request now_ms is_new (
        if is_new
        then allocate_member_id request.group_id c.member_counter
        else (request.member_id, c.member_counter))
