-- ===== src/Relay.antt =====
-- crates/relay: the relay that peers connect to, its rooms and its message routing.
pub mod Types
pub mod Room
pub mod Routing
pub mod Handler
pub mod Server
mod Examples
