-- ===== src/Broker.antt =====
-- The broker's own state: the replicas of its partitions.
pub mod State
pub mod Replica
mod Examples
