-- ===== src/MapReduce.antt =====
-- crates/mcp-server/src/mapreduce.rs: distributed map/reduce jobs.
pub mod Partition
pub mod Job
mod Examples
