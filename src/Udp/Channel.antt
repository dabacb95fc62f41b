-- ===== src/Udp/Channel.antt =====
-- `UdpChannel` of crates/shared/src/udp_channel.rs in its ARQ mode (`quic_active` is false): the
-- state, sending, receiving, retransmission. Times are milliseconds. The cipher is a parameter, as
-- is the estimate of the round trip, which is in floating point. A function returns the new state
-- and the datagrams that it sent, in order.
pub mod State
pub mod Send
pub mod Recv
pub mod Tick
pub mod Sound
pub mod Window
pub mod Deadline
pub mod Retries
pub mod Acks
pub mod Delivery
mod Examples
