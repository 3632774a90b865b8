-- ===== src/Lib.antt =====
-- PulseLog: the replicated log broker. Modelled are the log of a partition with its indexes and the
-- format of its records, the leader's side of a partition's replication, the consumer groups with their
-- committed offsets, and the wire protocol: frames, opcodes, checksums and the payloads of messages.
--
-- The parts and their files:
--   Base                 shared: native numbers, `std::map` as an association list in key order,
--                        byte strings, include/pulselog/base/types.h, base/status.h (Base.Status);
--                        the partition point of a list (Base.Search), exclusive or (Base.Xor).
--   Broker.State, Broker.Replica
--                        include/pulselog/broker/partition_replica.h, src/broker/partition_replica.cc.
--                        `PartitionReplica` is the state; `on_leader_append`, `on_follower_progress`,
--                        `mark_follower_out_of_sync`, `add_waiter`, `complete_satisfied_waiters`,
--                        `expire_waiters`, `fail_all_waiters` and `set_assignment` are the methods of
--                        those names. Each runs under the replica's mutex, so a history
--                        (Broker.Replica.Steps) is a sequence of calls. The callbacks, which run after
--                        the lock is released, are the completions that a call returns.
--   Consumer.Assignor    src/consumer/assignor.cc: `divide` is `Assign`.
--   Consumer.OffsetStore src/consumer/offset_store.cc: the map of committed offsets and its journal.
--   Consumer.Coordinator src/consumer/group_coordinator.cc: `join`, `heartbeat`, `leave`, `commit`,
--                        `fetch_offset`, `expire_sessions`, and `rebalance` for `RebalanceLocked`.
--                        It divides partitions by the assignor and keeps offsets in the store.
--   Protocol.Codec       include/pulselog/protocol/codec.h and base/endian.h: a payload is a list of
--                        bytes, a reader is the bytes that are left with its failure flag.
--   Protocol.Wire, Protocol.{Data,Group,Replica,Control}Messages
--                        include/pulselog/protocol/messages.h, src/protocol/messages_data.cc,
--                        messages_group.cc and messages_control.cc: `encode_…` and `decode_…` of each
--                        message. The coordinator takes its requests from here.
--   Protocol.Crc         src/base/crc32c.cc: the tables, the loop over blocks of eight bytes and the
--                        loop over bytes.
--   Protocol.Opcode      src/protocol/opcode.cc.
--   Protocol.Frame       include/pulselog/protocol/frame.h, src/protocol/frame.cc: `encode_frame` and
--                        the `FrameDecoder` with its buffer, for a stream cut at any place.
--   Protocol.Record      include/pulselog/protocol/record.h, src/protocol/record.cc: `append_record`,
--                        `parse_record`, the rewriting of a record in place and `RecordIterator`.
--   Storage.Index, Storage.TimeIndex
--                        src/storage/offset_index.cc: the entries in memory and their bytes in the file.
--   Storage.Segment      include/pulselog/storage/segment.h, src/storage/segment.cc: the counters and
--                        the indexes of a segment, append and sync.
--   Storage.Batch        the loops over a batch in src/storage/partition_log.cc: the leader's, which
--                        assigns offsets, and the follower's, which checks them.
--   Storage.Log          src/storage/partition_log.cc: `append_assigning` is `AppendAssigningOffsets`
--                        (the loop of Storage.Batch, rolling, the append to the segment, flushing);
--                        `enforce_retention` and the lookups of segments and timestamps. A batch is
--                        records of Protocol.Record; a record is sealed by Protocol.Crc.
--
-- Parameters: the two offsets that a replica reads of its log (`LogView`), the clock, what the
-- journal's log does with an append (`LogAnswer`), the lookup that says which partitions a topic has, which
-- the coordinator keeps while the program reads metadata that changes between calls, the answers
-- of the files to opening, writing and syncing (`Files`), and of the disk to the test for free space.
--
-- Bounds: offsets, times and generations are integers without a bound, where the program has 64 bits,
-- and 32 for a generation; the fields of the wire have their widths, and reading and writing them cuts
-- as the casts do. The member counter wraps at 2^64. Recursion is on the lists and on the counts of
-- arrays. `digits` has fuel, one more than the number, which has no more digits than that;
-- `put_groups` has ten turns, enough for 64 bits, and `get_groups` the ten that the loop takes. The loop
-- over a batch has a turn for each of its bytes, and each turn passes a record, which has more than one.
-- The block loop of the checksum and the loading of an index have as many turns as the blocks and the
-- entries of their bytes. Sums over a record's claimed length wrap at 2^64, as in the program.
--
-- Not modelled: the bytes of a segment's file with reads, recovery and truncation; of the partition log
-- loading, reading and truncation, the append of several pieces, and the change of state by a follower's
-- append; failures to close and delete a segment in retention; the checksum instructions of a processor;
-- the replicator, cluster metadata, the dispatch of requests, sockets, queues, metrics, logging and
-- configuration. Of the group coordinator the members that only read or pass on to the log (`Describe`,
-- `GroupCount`, `CommittedOffsets`, `Flush`, `Close`). A race between threads inside one call is not
-- modelled: `GroupCoordinator::Commit`, which releases its mutex before it calls the offset store, is one
-- step here, and so is a flush of the log.

pub mod Base
pub mod Broker
pub mod Protocol
pub mod Consumer
pub mod Storage
