-- ===== src/Safety.antt =====
-- safety.rs: which commands and which paths the current policy permits.
pub mod Words
pub mod Git
pub mod Commands
pub mod Paths
pub mod Examples
