-- ===== src/Consumer/Examples.antt =====
-- Two members divide a topic of three partitions, and one of them commits an offset.
use pulse_log.Base.{◌≡◌, refl, arith, true, some, List, [], ◌∷◌, ◌⊎◌, keep}
use pulse_log.Base.Int.{ℤ, pos, ◌≤ℤ◌}
use pulse_log.Base.Keys.{Bytes, bytes_key}
use pulse_log.Base.Maps.{find, assign, replace, insert}
use pulse_log.Base.Order.{elem}
use pulse_log.Base.Sorting.{insert_sorted, sort, unique_from, unique}
use pulse_log.Base.Text.{text, digits, decimal}
use pulse_log.Base.Types.{ErrorCode, AssignmentStrategy, TopicPartition, partition_key}
use pulse_log.Base.Status.{ok_status, error_status}
use pulse_log.Consumer.Assignor.{
  divide, assign_range, sorted_members, sorted_partitions, start, push_back, by_topic, deal_blocks,
  deal_topics,
}
use pulse_log.Consumer.OffsetStore.{
  offset_key, OffsetKey, CommittedOffset, OffsetStore, LogAnswer, is_logged, is_acknowledged,
  open_store, get_offset,
}
use pulse_log.Consumer.OffsetStore.Journal.{commits, put_all, open_store-commits}
use pulse_log.Consumer.Coordinator.{
  GroupMember, GroupState, Group, GroupCoordinator, header_ok, join, join_as, joined_group, admit,
  allocate_member_id, rebalance, hand_out, subscribed, partitions_of, leader_of, least,
}
use pulse_log.Consumer.Coordinator.Requests.{commit, fetch_offset}
use pulse_log.Consumer.Coordinator.Calls.{Call, joined, swept, call, run}
use pulse_log.Consumer.Coordinator.Changes.{assigned, group_at}
use pulse_log.Consumer.Coordinator.Generations.{Follows, call-Follows}
use pulse_log.Consumer.Coordinator.Owners.{run-exclusive}
use pulse_log.Consumer.Coordinator.Joins.{Agrees, join-Agrees}
use pulse_log.Base.{All}
use pulse_log.Base.Int.{◌-ℤ◌}
use pulse_log.Base.Maps.{keys}
use pulse_log.Consumer.Coordinator.Requests.{expire_sessions}
use pulse_log.Consumer.Coordinator.Sessions.{alive, expire_sessions-evicts}
use pulse_log.Consumer.Coordinator.Fencing.{
  MayCommit, key_of, value_of, commit-fenced, fetch_offset-commit,
}
use pulse_log.Protocol.GroupMessages.{JoinGroupRequest, CommitOffsetRequest}

abbrev ann : Bytes
ann = b'a' ∷ []

abbrev bob : Bytes
bob = b'b' ∷ []

abbrev orders : Bytes
orders = b'o' ∷ []

abbrev join_request : Bytes → JoinGroupRequest
join_request member_id = record {
  group_id = orders;
  member_id = member_id;
  topics = orders ∷ [];
  session_timeout_ms = pos 30;
  strategy = AssignmentStrategy.range;
}

abbrev topic_partitions : List Bytes → List TopicPartition
topic_partitions topics =
    record { topic = orders; partition = pos 0 } ∷ record { topic = orders; partition = pos 1 } ∷ []

abbrev store : OffsetStore
store = record { journal = []; offsets = []; replayed_records = 0 }

abbrev fresh : GroupCoordinator
fresh = record {
  groups = [];
  offsets = store;
  lookup = some topic_partitions;
  default_session_timeout_ms = pos 10000;
  member_counter = 0;
}

-- What two joins leave.
abbrev member : Bytes → ℤ → List TopicPartition → GroupMember
member id heard assignment = record {
  member_id = id;
  topics = orders ∷ [];
  session_timeout_ms = pos 30;
  last_heartbeat_ms = heard;
  assignment = assignment;
}

abbrev group : Group
group = record {
  group_id = orders;
  state = GroupState.stable;
  generation = pos 2;
  leader_id = ann;
  strategy = AssignmentStrategy.range;
  members =
      (ann, member ann (pos 5) (record { topic = orders; partition = pos 0 } ∷ []))
      ∷ (bob, member bob (pos 40) (record { topic = orders; partition = pos 1 } ∷ []))
      ∷ [];
  last_rebalance_ms = pos 40;
}

abbrev settled : GroupCoordinator
settled = record {
  groups = (orders, group) ∷ [];
  offsets = store;
  lookup = some topic_partitions;
  default_session_timeout_ms = pos 10000;
  member_counter = 2;
}

abbrev request : CommitOffsetRequest
request = record {
  group_id = orders;
  member_id = bob;
  generation = pos 2;
  topic = orders;
  partition = pos 1;
  offset = pos 7;
  metadata = [];
}

abbrev took : LogAnswer
took = record { status = ok_status; written = true }

call-Follows_example :
    Follows (group_at orders settled) (group_at orders (call (pos 60) swept settled))
call-Follows_example = call-Follows (pos 60) swept settled orders

commit-fenced_example :
    (get_offset (key_of request) (commit took request (pos 50) settled).1.offsets
      ≡ get_offset (key_of request) store)
    ⊎ ((pos 0 ≤ℤ pos 7)
        × (MayCommit request settled
            × ((true ≡ true)
                × ((key_of request ≡ key_of request)
                    × (get_offset (key_of request) (commit took request (pos 50) settled).1.offsets
                        ≡ some (value_of request (pos 50)))))))
commit-fenced_example = commit-fenced took request (pos 50) settled (key_of request) refl

fetch_offset-commit_example :
    ((commit took request (pos 50) settled).0 ≡ header_ok)
    × (fetch_offset
          (record { group_id = orders; topic = orders; partition = pos 1 })
          (commit took request (pos 50) settled).1
        ≡ record { header = header_ok; offset = pos 7; metadata = [] })
unfolding find assigned elem
fetch_offset-commit_example =
    fetch_offset-commit took request (pos 50) settled refl (omega arith) (refl, refl) refl

-- The flush failed after the write.
abbrev unsynced : LogAnswer
unsynced = record { status = error_status ErrorCode.io_error []; written = true }

-- The second commit is in the journal and was not acknowledged.
abbrev two_commits : List (LogAnswer × (OffsetKey × CommittedOffset))
two_commits =
    (took, (key_of request, value_of request (pos 50)))
    ∷ (unsynced, (key_of request, value_of request (pos 60)))
    ∷ []

open_store-commits_example :
    ((open_store (commits two_commits (open_store [])).journal).offsets
      ≡ put_all (keep (λ c. is_logged c.0) two_commits) [])
    × ((commits two_commits (open_store [])).offsets
        ≡ put_all (keep (λ c. is_acknowledged c.0) two_commits) [])
open_store-commits_example = open_store-commits two_commits (
  ((omega arith, (omega arith, (refl, omega arith))), (omega arith, (omega arith, omega arith))),
  (
    ((omega arith, (omega arith, (refl, omega arith))), (omega arith, (omega arith, omega arith))),
    tt,
  ),
)

abbrev two_joins : List (ℤ × Call)
two_joins = (pos 1, joined (join_request [])) ∷ (pos 2, joined (join_request [])) ∷ []

-- The first member's id, `o-1`.
abbrev first_id : Bytes
first_id = b'o' ∷ b'-' ∷ b'1' ∷ []

run-exclusive_example : first_id ≡ first_id
unfolding run call join join_as joined_group admit allocate_member_id rebalance hand_out subscribed
    partitions_of leader_of least divide assign_range sorted_members sorted_partitions start
    push_back by_topic deal_blocks deal_topics find assigned assign replace insert unique sort
    unique_from insert_sorted elem text decimal digits
run-exclusive_example =
    run-exclusive two_joins fresh refl orders first_id first_id
      (record { topic = orders; partition = pos 0 }) refl refl

join-Agrees_example : Agrees orders (join (join_request []) (pos 50) settled)
join-Agrees_example = join-Agrees (join_request []) (pos 50) settled refl refl

expire_sessions-evicts_example :
    (keys (group_at orders (expire_sessions (pos 60) settled).1).members
      ≡ keys (alive (pos 60) group.members))
    × All
        (λ e. (pos 60 -ℤ e.1.last_heartbeat_ms) ≤ℤ e.1.session_timeout_ms)
        (group_at orders (expire_sessions (pos 60) settled).1).members
unfolding find
expire_sessions-evicts_example = expire_sessions-evicts (pos 60) settled orders
