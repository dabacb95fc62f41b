-- ===== src/Udp.antt =====
-- crates/shared/src/udp.rs: the packets of the direct UDP channel.
pub mod Bytes
pub mod Packet
pub mod Candidates
pub mod Fragment
pub mod Reassembler
pub mod Channel
mod Examples
