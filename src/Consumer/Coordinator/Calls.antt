-- ===== src/Consumer/Coordinator/Calls.antt =====
-- The calls of a coordinator, in the order in which its mutex lets them run.
use pulse_log.Base.{List, [], ◌∷◌}
use pulse_log.Base.Int.{ℤ}
use pulse_log.Base.Keys.{bytes_key}
use pulse_log.Base.Types.{partition_key}
use pulse_log.Protocol.GroupMessages.{
  JoinGroupRequest, HeartbeatRequest, LeaveGroupRequest, CommitOffsetRequest,
}
use pulse_log.Consumer.OffsetStore.{LogAnswer}
use pulse_log.Consumer.Coordinator.{GroupCoordinator, join}
use pulse_log.Consumer.Coordinator.Requests.{heartbeat, leave, commit, expire_sessions}

pub data Call : Type 0 where
  joined : JoinGroupRequest → Call
  beat : HeartbeatRequest → Call
  left : LeaveGroupRequest → Call
  -- The status is the journal's.
  committed : LogAnswer → CommitOffsetRequest → Call
  swept : Call

unfoldable pub call : ℤ → Call → GroupCoordinator → GroupCoordinator
call now_ms (joined request) c = (join request now_ms c).1
call now_ms (beat request) c = (heartbeat request now_ms c).1
call now_ms (left request) c = (leave request now_ms c).1
call now_ms (committed appended request) c = (commit appended request now_ms c).1
call now_ms swept c = (expire_sessions now_ms c).1

unfoldable pub run : List (ℤ × Call) → GroupCoordinator → GroupCoordinator
run [] c = c
run ((now_ms, a) ∷ calls) c = run calls (call now_ms a c)
