-- ===== src/Udp/Packet.antt =====
-- The packet header of udp.rs (`UdpPacketType`, `UdpPacketHeader`), and the packet that
-- `send_reliable_packet` of crates/shared/src/udp_channel.rs builds.
pub mod Wire
use tunshell_mcp_agents.Prelude.{
  ℕ, zero, suc, ◌+◌, ◌%◌, List, [], ◌∷◌, Option, none, some, ltb, nat_beq, if◌then◌else◌, length,
  drop, replicate, set,
}
use tunshell_mcp_agents.Udp.Bytes.{
  Bytes, to_be_u16, to_be_u32, from_be_u16, from_be_u32, byte_at, copy_at,
}

pub data UdpPacketType : Type 0 where
  probe probe_ack ping pong data_packet data_ack data_unreliable data_fragment close : UdpPacketType

-- `packet_type as u8`
pub to_u8 : UdpPacketType → ℕ
to_u8 probe = 0x01
to_u8 probe_ack = 0x02
to_u8 ping = 0x03
to_u8 pong = 0x04
to_u8 data_packet = 0x10
to_u8 data_ack = 0x11
to_u8 data_unreliable = 0x12
to_u8 data_fragment = 0x13
to_u8 close = 0xFF

pub try_from : ℕ → Option UdpPacketType
try_from value =
    if nat_beq value 0x01
    then some probe
    else if nat_beq value 0x02
    then some probe_ack
    else if nat_beq value 0x03
    then some ping
    else if nat_beq value 0x04
    then some pong
    else if nat_beq value 0x10
    then some data_packet
    else if nat_beq value 0x11
    then some data_ack
    else if nat_beq value 0x12
    then some data_unreliable
    else if nat_beq value 0x13
    then some data_fragment
    else if nat_beq value 0xFF
    then some close
    else none

abbrev pub udp_header_size : ℕ
udp_header_size = 7

abbrev pub udp_max_payload : ℕ
udp_max_payload = 1200

abbrev pub udp_max_packet : ℕ
udp_max_packet = 1207

pub record UdpPacketHeader : Type 0 where
  pub packet_type : UdpPacketType
  pub sequence : ℕ
  pub payload_len : ℕ

pub parse : Bytes → Option UdpPacketHeader
parse buf = if ltb (length buf) udp_header_size then none else elim (try_from (byte_at buf 0)) [
  | none ↦ none
  | some t ↦ some (record {
    packet_type = t;
    sequence = from_be_u32 (byte_at buf 1) (byte_at buf 2) (byte_at buf 3) (byte_at buf 4);
    payload_len = from_be_u16 (byte_at buf 5) (byte_at buf 6);
  })
]

pub write : UdpPacketHeader → Bytes → Bytes
write h buf =
    copy_at 5 (to_be_u16 h.payload_len)
      (copy_at 1 (to_be_u32 h.sequence) (set buf 0 (to_u8 h.packet_type)))

-- The bytes that `send_reliable_packet` puts on the wire; `payload.len() as u16` wraps.
pub build_packet : UdpPacketType → ℕ → Bytes → Bytes
build_packet packet_type seq payload = copy_at udp_header_size payload (
    write
      (record { packet_type = packet_type; sequence = seq; payload_len = length payload % 65536 })
      (replicate (udp_header_size + length payload) 0))
