-- ===== src/Executor.antt =====
-- `execute` of crates/mcp-server/src/executor/mod.rs: what an agent does with a command of a peer,
-- with the functions of files.rs and transfer.rs that it calls. Each call that leaves the executor
-- (the file system, processes, git, the stores) is an `Effect`; a run is the effects in order and
-- the outcome.
pub mod Types
pub mod Walk
pub mod Files
pub mod Execute
pub mod Gates
mod Examples
