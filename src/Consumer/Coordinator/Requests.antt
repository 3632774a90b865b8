-- ===== src/Consumer/Coordinator/Requests.antt =====
-- consumer/group_coordinator.cc: `Heartbeat`, `Leave`, `Commit`, `FetchOffset` and `ExpireSessions`.
use pulse_log.Base.{
  ℕ, ◌+◌, Bool, true, false, not, if◌then◌else◌, Option, none, some, [], ◌∷◌, ◌++◌, keep, length,
  is_empty,
}
use pulse_log.Base.Int.{ℤ, pos, negsuc, ◌-ℤ◌, ltb_ℤ, eqb_ℤ}
use pulse_log.Base.Keys.{Bytes, bytes_key}
use pulse_log.Base.Maps.{Map, find, assign, erase, contains_key}
use pulse_log.Base.Order.{elem}
use pulse_log.Base.Text.{text, to_string}
use pulse_log.Base.Types.{ErrorCode, TopicPartition, partition_key}
use pulse_log.Consumer.Coordinator.{
  GroupMember, Group, PartitionLookup, GroupCoordinator, header_ok, header_error, rebalance,
}
use pulse_log.Consumer.OffsetStore.{CommittedOffset, LogAnswer, commit_offset, get_offset}
use pulse_log.Protocol.GroupMessages.{
  HeartbeatRequest, HeartbeatResponse, LeaveGroupRequest, CommitOffsetRequest, FetchOffsetRequest,
  FetchOffsetResponse,
}
use pulse_log.Protocol.Wire.{ResponseHeader}

abbrev pub stale_message : ℤ → ℤ → Bytes
stale_message requested current =
    text "generation " ++ to_string requested ++ text " is stale; current is " ++ to_string current

abbrev pub unknown_group : Bytes → Bytes
unknown_group group_id = text "unknown group '" ++ group_id ++ text "'"

-- The member's session is renewed.
unfoldable pub renew : Bytes → GroupMember → ℤ → Group → Group
renew member_id member now_ms group = record group {
  members = assign member_id (record member { last_heartbeat_ms = now_ms }) group.members;
}

unfoldable pub heartbeat_member :
    HeartbeatRequest
    → ℤ
    → Group
    → Option GroupMember
    → GroupCoordinator
    → HeartbeatResponse × GroupCoordinator
heartbeat_member request now_ms group none c = (
  record {
    header =
        header_error ErrorCode.unknown_member
          (text "member '" ++ request.member_id ++ text "' is not in the group");
    generation = group.generation;
    rejoin_required = true;
  },
  c,
)
heartbeat_member request now_ms group (some member) c =
    if not (eqb_ℤ request.generation group.generation)
    then (
      record {
        header =
            header_error ErrorCode.rebalance_in_progress
              (stale_message request.generation group.generation);
        generation = group.generation;
        rejoin_required = true;
      },
      c,
    )
    else (
      record { header = header_ok; generation = group.generation; rejoin_required = false },
      record c {
        groups = assign request.group_id (renew request.member_id member now_ms group) c.groups;
      },
    )

unfoldable pub heartbeat_group :
    HeartbeatRequest → ℤ → Option Group → GroupCoordinator → HeartbeatResponse × GroupCoordinator
heartbeat_group request now_ms none c = (
  record {
    header = header_error ErrorCode.not_found (unknown_group request.group_id);
    generation = negsuc 0;
    rejoin_required = false;
  },
  c,
)
heartbeat_group request now_ms (some group) c =
    heartbeat_member request now_ms group (find request.member_id group.members) c

-- `Heartbeat`
unfoldable pub heartbeat :
    HeartbeatRequest → ℤ → GroupCoordinator → HeartbeatResponse × GroupCoordinator
heartbeat request now_ms c = heartbeat_group request now_ms (find request.group_id c.groups) c

unfoldable pub leave_group :
    LeaveGroupRequest → ℤ → Option Group → GroupCoordinator → ResponseHeader × GroupCoordinator
leave_group request now_ms none c = (header_error ErrorCode.not_found (text "unknown group"), c)
leave_group request now_ms (some group) c =
    if contains_key request.member_id group.members
    then (
      header_ok,
      record c {
        groups =
            assign request.group_id
              (rebalance c.lookup now_ms
                (record group { members = erase request.member_id group.members }))
              c.groups;
      },
    )
    else (header_error ErrorCode.unknown_member (text "member is not in the group"), c)

-- `Leave`
unfoldable pub leave : LeaveGroupRequest → ℤ → GroupCoordinator → ResponseHeader × GroupCoordinator
leave request now_ms c = leave_group request now_ms (find request.group_id c.groups) c

abbrev pub partition_text : TopicPartition → Bytes
partition_text p = p.topic ++ text "-" ++ to_string p.partition

unfoldable pub fence_member :
    CommitOffsetRequest → Group → Option GroupMember → Option ResponseHeader
fence_member request group none =
    some (header_error ErrorCode.unknown_member (text "member is not in the group"))
fence_member request group (some member) =
    let target : TopicPartition = record { topic = request.topic; partition = request.partition } in
    if not (eqb_ℤ request.generation group.generation)
    then some (
        header_error ErrorCode.illegal_generation
          (stale_message request.generation group.generation))
    else if elem target member.assignment
    then none
    else some (
        header_error ErrorCode.illegal_generation
          (text "partition " ++ partition_text target ++ text " is not assigned to this member"))

unfoldable pub fence_group : CommitOffsetRequest → Option Group → Option ResponseHeader
fence_group request none = some (header_error ErrorCode.not_found (unknown_group request.group_id))
fence_group request (some group) = fence_member request group (find request.member_id group.members)

-- The checks of `Commit`: the error that refuses the request, or `none`.
unfoldable pub fence : CommitOffsetRequest → GroupCoordinator → Option ResponseHeader
fence request c =
    if ltb_ℤ request.offset (pos 0)
    then some
        (header_error ErrorCode.invalid_argument (text "committed offset must not be negative"))
    else if is_empty request.member_id
    then none
    else fence_group request (find request.group_id c.groups)

unfoldable pub store_commit :
    LogAnswer
    → CommitOffsetRequest
    → ℤ
    → Option ResponseHeader
    → GroupCoordinator
    → ResponseHeader × GroupCoordinator
store_commit appended request now_ms (some header) c = (header, c)
store_commit appended request now_ms none c =
    let stored =
      commit_offset appended
        (record {
          group_id = request.group_id;
          topic = request.topic;
          partition = request.partition;
        })
        (record { offset = request.offset; metadata = request.metadata; commit_time = now_ms })
        c.offsets in
    (header_error stored.0.code stored.0.message, record c { offsets = stored.1 })

-- `Commit`, with what the journal does with the record.
unfoldable pub commit :
    LogAnswer → CommitOffsetRequest → ℤ → GroupCoordinator → ResponseHeader × GroupCoordinator
commit appended request now_ms c = store_commit appended request now_ms (fence request c) c

unfoldable pub committed_response : Option CommittedOffset → FetchOffsetResponse
committed_response none = record { header = header_ok; offset = negsuc 0; metadata = [] }
committed_response (some v) = record {
  header = header_ok;
  offset = v.offset;
  metadata = v.metadata;
}

-- `FetchOffset`
unfoldable pub fetch_offset : FetchOffsetRequest → GroupCoordinator → FetchOffsetResponse
fetch_offset request c = committed_response (
    get_offset
      (record { group_id = request.group_id; topic = request.topic; partition = request.partition })
      c.offsets)

unfoldable pub is_expired : ℤ → Bytes × GroupMember → Bool
is_expired now_ms e = ltb_ℤ e.1.session_timeout_ms (now_ms -ℤ e.1.last_heartbeat_ms)

-- One group of `ExpireSessions`: the members that are silent too long leave it.
unfoldable pub expire_group : PartitionLookup → ℤ → Group → Group
expire_group lookup now_ms group =
    if is_empty (keep (is_expired now_ms) group.members)
    then group
    else rebalance lookup now_ms
        (record group { members = keep (λ e. not (is_expired now_ms e)) group.members })

unfoldable pub expire_groups : PartitionLookup → ℤ → Map Bytes Group → ℕ × Map Bytes Group
expire_groups lookup now_ms [] = (0, [])
expire_groups lookup now_ms ((group_id, group) ∷ groups) =
    let rest = expire_groups lookup now_ms groups in
    (
      length (keep (is_expired now_ms) group.members) + rest.0,
      (group_id, expire_group lookup now_ms group) ∷ rest.1,
    )

-- `ExpireSessions`: how many members are evicted.
unfoldable pub expire_sessions : ℤ → GroupCoordinator → ℕ × GroupCoordinator
expire_sessions now_ms c =
    let done = expire_groups c.lookup now_ms c.groups in (done.0, record c { groups = done.1 })
