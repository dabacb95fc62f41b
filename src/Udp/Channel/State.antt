-- ===== src/Udp/Channel/State.antt =====
-- The state of a channel, its constants and what it does with one packet that is pending.
use tunshell_mcp_agents.Prelude.{
  ℕ, ◌+◌, ◌-◌, ◌/◌, max, List, [], ◌∷◌, Option, none, some, Bool, true, false, ◌&&◌, not, ltb,
  nat_eq, if◌then◌else◌, replicate, select,
}
use tunshell_mcp_agents.Assoc.{Assoc}
use tunshell_mcp_agents.Udp.Bytes.{Bytes}
use tunshell_mcp_agents.Udp.Packet.{UdpPacketType, data_fragment, close, udp_header_size, write}
use tunshell_mcp_agents.Udp.Candidates.{Endpoint}
use tunshell_mcp_agents.Udp.Reassembler.{FragmentReassembler}

abbrev pub min_cwnd : ℕ
min_cwnd = 4

abbrev pub init_cwnd : ℕ
init_cwnd = 32

abbrev pub max_cwnd : ℕ
max_cwnd = 4096

abbrev pub dupack_threshold : ℕ
dupack_threshold = 3

pub data SendError : Type 0 where
  closed_channel crypto invalid_packet message_too_large : SendError

pub record PendingPacket : Type 0 where
  pub content : Bytes
  pub sequence : ℕ
  pub sent_at : ℕ
  pub retries : ℕ
  pub fast_rtx : Bool

pub data ChannelState : Type 0 where
  disconnected offering answering probing connected fallback closed : ChannelState

pub record UdpConfig : Type 0 where
  pub probe_timeout_ms : ℕ
  pub probe_interval_ms : ℕ
  pub max_probe_attempts : ℕ
  pub keepalive_interval_ms : ℕ
  pub rto_ms : ℕ
  pub max_retransmissions : ℕ

-- `Cipher` of crypto.rs: encryption draws a nonce, which is its first argument here.
pub record Cipher : Type 0 where
  pub encrypt_bytes : ℕ → Bytes → Option Bytes
  pub decrypt_bytes : Bytes → Option Bytes

-- The smoothed round trip: `update_rtt` and `current_rto`.
pub record RttEstimator (E : Type 0) : Type 0 where
  pub update_rtt : E → ℕ → E
  pub current_rto : E → ℕ → ℕ

pub record UdpChannel (E : Type 0) : Type 0 where
  pub peer_endpoint : Option Endpoint
  pub state : ChannelState
  pub send_seq : ℕ
  pub pending : Assoc ℕ PendingPacket
  pub delivered : List Bytes
  pub frag_msg_id : ℕ
  pub reassembler : FragmentReassembler
  pub cwnd : ℕ
  pub rtt : E

-- `send_to`: the bytes and where they go.
pub record Datagram : Type 0 where
  pub content : Bytes
  pub to : Endpoint

abbrev pub is_connected : ChannelState → Bool
is_connected connected = true
is_connected _ = false

-- What `send_reliable` hands to `send_reliable_packet`, one after the other.
pub data Sending (E : Type 0) : Type 0 where
  fails : SendError → Sending E
  sends : UdpChannel E → List (UdpPacketType × Bytes) → Endpoint → Sending E

abbrev pub halve : ℕ → ℕ
halve cwnd = max (cwnd / 2) min_cwnd

-- A header alone.
unfoldable pub control_packet : UdpPacketType → ℕ → Bytes
control_packet t seq =
    write (record { packet_type = t; sequence = seq; payload_len = 0 })
      (replicate udp_header_size 0)

abbrev pub as_fragment : Bytes → UdpPacketType × Bytes
as_fragment payload = (data_fragment, payload)

unfoldable pub is_lost : ℕ → PendingPacket → Bool
is_lost acked pkt =
    not pkt.fast_rtx && (ltb pkt.sequence acked && ltb dupack_threshold (acked - pkt.sequence))

unfoldable pub fast_retransmit : ℕ → ℕ → PendingPacket → PendingPacket
unfolding is_lost
fast_retransmit now acked pkt =
    if is_lost acked pkt
    then record pkt { fast_rtx = true; retries = pkt.retries + 1; sent_at = now }
    else pkt

abbrev pub on_value : (PendingPacket → PendingPacket) → ℕ × PendingPacket → ℕ × PendingPacket
on_value f p = (p.0, f p.1)

unfoldable pub lost_packets : ℕ → Assoc ℕ PendingPacket → List (ℕ × PendingPacket)
unfolding is_lost
lost_packets acked pending = select (λ p. is_lost acked p.1) pending

abbrev pub is_none_lost : List (ℕ × PendingPacket) → Bool
is_none_lost [] = true
is_none_lost (p ∷ ps) = false

abbrev pub answer : UdpPacketType → ℕ → Endpoint → List Datagram
answer t seq from = record { content = control_packet t seq; to = from } ∷ []

abbrev pub is_closed : ChannelState → Bool
is_closed closed = true
is_closed _ = false

unfoldable pub is_expired : ℕ → ℕ → PendingPacket → Bool
is_expired now rto pkt = ltb rto (now - pkt.sent_at)

abbrev pub close_packets : Option Endpoint → List Datagram
close_packets none = []
close_packets (some peer) = record { content = control_packet close 0; to = peer } ∷ []
