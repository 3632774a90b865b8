-- ===== src/Storage.antt =====
-- The storage engine: the indexes of a segment.
pub mod Index
pub mod TimeIndex
pub mod Batch
pub mod Segment
pub mod Log
mod Examples
