-- ===== src/Udp/Channel/Send.antt =====
-- The sending side: `send_reliable`, and `send_reliable_packet` in two parts, the test of the window
-- and the registration. The packets that `send_reliable` makes are registered one after the other.
use tunshell_mcp_agents.Prelude.{
  ℕ, ◌+◌, ◌%◌, List, [], ◌∷◌, map, Option, none, some, Bool, false, not, ltb, leb, nat_eq,
  if◌then◌else◌, length,
}
use tunshell_mcp_agents.Assoc.{insert}
use tunshell_mcp_agents.Udp.Bytes.{Bytes}
use tunshell_mcp_agents.Udp.Packet.{UdpPacketType, data_packet, udp_max_payload, build_packet}
use tunshell_mcp_agents.Udp.Fragment.{split_into_fragments}
use tunshell_mcp_agents.Udp.Candidates.{Endpoint}
use tunshell_mcp_agents.Udp.Reassembler.{with_capacity, max_partial_messages}
use tunshell_mcp_agents.Udp.Channel.State.{
  UdpConfig, Cipher, RttEstimator, UdpChannel, Datagram, Sending, closed_channel, crypto,
  message_too_large, disconnected, fails, sends, init_cwnd, is_connected, as_fragment,
}

module _ {E : Type 0} (est : RttEstimator E) (cfg : UdpConfig) (cipher : Cipher) where
  unfoldable pub new_channel : E → UdpChannel E
  unfolding with_capacity
  new_channel rtt = record {
    peer_endpoint = none;
    state = disconnected;
    send_seq = 0;
    pending = [];
    delivered = [];
    frag_msg_id = 0;
    reassembler = with_capacity max_partial_messages;
    cwnd = init_cwnd;
    rtt = rtt;
  }

  -- The test of the loop that paces a sender.
  unfoldable pub window_open : UdpChannel E → Bool
  window_open ch = ltb (length ch.pending) ch.cwnd

  -- The rest of `send_reliable_packet`: the sequence number, the packet, its registration.
  unfoldable pub register_packet :
      ℕ → UdpPacketType → Bytes → Endpoint → UdpChannel E → UdpChannel E × Datagram
  unfolding insert
  register_packet now t payload peer ch =
      let seq = ch.send_seq in
      let packet = build_packet t seq payload in
      (
        record ch {
          send_seq = (seq + 1) % 4294967296;
          pending =
              insert seq
                (record {
                  content = packet;
                  sequence = seq;
                  sent_at = now;
                  retries = 0;
                  fast_rtx = false;
                })
                ch.pending;
        },
        record { content = packet; to = peer },
      )

  -- `send_reliable` for each of the packets, where the window is open for each.
  unfoldable pub register_all :
      ℕ → Endpoint → List (UdpPacketType × Bytes) → UdpChannel E → UdpChannel E × List Datagram
  unfolding register_packet
  register_all now peer [] ch = (ch, [])
  register_all now peer (p ∷ packets) ch =
      let (ch', d) = register_packet now p.0 p.1 peer ch in
      let (ch'', ds) = register_all now peer packets ch' in (ch'', d ∷ ds)

  unfoldable pub send_fragments : Endpoint → UdpChannel E → Option (List Bytes) → Sending E
  send_fragments peer ch none = fails message_too_large
  send_fragments peer ch (some frags) = sends ch (map as_fragment frags) peer

  unfoldable pub send_encrypted : Endpoint → UdpChannel E → Option Bytes → Sending E
  unfolding send_fragments split_into_fragments
  send_encrypted peer ch none = fails crypto
  send_encrypted peer ch (some encrypted) =
      let msg_id = ch.frag_msg_id in
      let fragmented = record ch { frag_msg_id = (msg_id + 1) % 4294967296 } in
      if leb (length encrypted) udp_max_payload
      then sends ch ((data_packet, encrypted) ∷ []) peer
      else send_fragments peer fragmented (split_into_fragments encrypted msg_id)

  unfoldable pub send_to_peer : Option Endpoint → UdpChannel E → Option Bytes → Sending E
  unfolding send_encrypted
  send_to_peer none ch encrypted = fails closed_channel
  send_to_peer (some peer) ch encrypted = send_encrypted peer ch encrypted

  unfoldable pub send_reliable : ℕ → Bytes → UdpChannel E → Sending E
  unfolding send_to_peer
  send_reliable nonce message ch =
      if not (is_connected ch.state)
      then fails closed_channel
      else send_to_peer ch.peer_endpoint ch (cipher.encrypt_bytes nonce message)
