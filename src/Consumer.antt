-- ===== src/Consumer.antt =====
-- The consumer groups: how partitions are divided, the committed offsets and the coordinator.
pub mod Assignor
pub mod OffsetStore
pub mod Coordinator
mod Examples
