-- ===== src/Udp/Channel/Recv.antt =====
-- One round of `recv_loop`. The two locked sections of an acknowledgement are one step.
use tunshell_mcp_agents.Prelude.{
  ℕ, ◌+◌, ◌-◌, min, List, [], ◌∷◌, ◌++◌, map, Option, none, some, nat_beq, nat_eq, if◌then◌else◌,
  drop, take,
}
use tunshell_mcp_agents.Assoc.{lookup, remove}
use tunshell_mcp_agents.Udp.Bytes.{Bytes}
use tunshell_mcp_agents.Udp.Packet.{
  UdpPacketType, UdpPacketHeader, probe, probe_ack, ping, pong, data_packet, data_ack,
  data_unreliable, data_fragment, close, udp_header_size, udp_max_packet, parse,
}
use tunshell_mcp_agents.Udp.Candidates.{Endpoint}
use tunshell_mcp_agents.Udp.Reassembler.{insert_payload}
use tunshell_mcp_agents.Udp.Channel.State.{
  PendingPacket, UdpConfig, Cipher, RttEstimator, UdpChannel, Datagram, closed, max_cwnd, halve,
  fast_retransmit, on_value, lost_packets, is_none_lost, answer,
}

module _ {E : Type 0} (est : RttEstimator E) (cfg : UdpConfig) (cipher : Cipher) where
  unfoldable pub adopt_peer : Endpoint → UdpChannel E → UdpChannel E
  adopt_peer from ch = record ch { peer_endpoint = some from }

  -- `decrypt_bytes`, and what is done with a valid message.
  unfoldable pub deliver : Endpoint → Option Bytes → UdpChannel E → UdpChannel E
  unfolding adopt_peer
  deliver from none ch = ch
  deliver from (some message) ch = record (adopt_peer from ch) {
    delivered = ch.delivered ++ message ∷ [];
  }

  unfoldable pub on_data : Endpoint → Bytes → UdpChannel E → UdpChannel E
  unfolding deliver
  on_data from [] ch = ch
  on_data from (b ∷ payload) ch = deliver from (cipher.decrypt_bytes (b ∷ payload)) ch

  unfoldable pub deliver_body : Endpoint → Option Bytes → UdpChannel E → UdpChannel E
  unfolding deliver
  deliver_body from none ch = ch
  deliver_body from (some body) ch = deliver from (cipher.decrypt_bytes body) ch

  unfoldable pub on_fragment : Endpoint → Bytes → UdpChannel E → UdpChannel E
  unfolding deliver_body
  on_fragment from [] ch = ch
  on_fragment from (b ∷ payload) ch =
      let (r, completed) = insert_payload ch.reassembler (b ∷ payload) in
      deliver_body from completed (record ch { reassembler = r })

  -- Karn's rule: a packet that was sent again gives no sample.
  abbrev pub sample_rtt : ℕ → Option PendingPacket → E → E
  sample_rtt now none rtt = rtt
  sample_rtt now (some pkt) rtt =
      if nat_beq pkt.retries 0 then est.update_rtt rtt (now - pkt.sent_at) else rtt

  unfoldable pub on_ack : ℕ → Endpoint → ℕ → UdpChannel E → UdpChannel E × List Datagram
  unfolding lookup remove fast_retransmit lost_packets
  on_ack now from acked ch =
      let remaining = remove acked ch.pending in
      let fast = lost_packets acked remaining in
      let grown = min (ch.cwnd + 1) max_cwnd in
      (
        record ch {
          pending = map (on_value (fast_retransmit now acked)) remaining;
          rtt = sample_rtt now (lookup acked ch.pending) ch.rtt;
          cwnd = if is_none_lost fast then grown else halve grown;
        },
        map (λ p. record { content = (p.1).content; to = from }) fast,
      )

  unfoldable pub on_packet :
      UdpPacketType → ℕ → Endpoint → ℕ → Bytes → UdpChannel E → UdpChannel E × List Datagram
  unfolding on_data on_fragment on_ack
  on_packet data_packet now from seq payload ch =
      (on_data from payload ch, answer data_ack seq from)
  on_packet data_fragment now from seq payload ch =
      (on_fragment from payload ch, answer data_ack seq from)
  on_packet data_unreliable now from seq payload ch = (on_data from payload ch, [])
  on_packet data_ack now from seq payload ch = on_ack now from seq ch
  on_packet ping now from seq payload ch = (ch, answer pong seq from)
  on_packet close now from seq payload ch = (record ch { state = closed }, [])
  on_packet probe now from seq payload ch = (ch, [])
  on_packet probe_ack now from seq payload ch = (ch, [])
  on_packet pong now from seq payload ch = (ch, [])

  unfoldable pub on_header :
      Option UdpPacketHeader → ℕ → Endpoint → Bytes → UdpChannel E → UdpChannel E × List Datagram
  unfolding on_packet
  on_header none now from buf ch = (ch, [])
  on_header (some h) now from buf ch =
      on_packet h.packet_type now from h.sequence (drop udp_header_size buf) ch

  -- One round of `recv_loop`, on a datagram: `recv_from` drops what its buffer cannot hold. The
  -- loop looks at the state before it waits, so that a packet is also handled after `close`.
  unfoldable pub recv_packet : ℕ → Endpoint → Bytes → UdpChannel E → UdpChannel E × List Datagram
  unfolding on_header
  recv_packet now from datagram ch =
      let buf = take udp_max_packet datagram in on_header (parse buf) now from buf ch
