-- ===== src/Udp/Channel/Acks.antt =====
-- A packet between two channels: its acknowledgement, and what a duplicate does.
use tunshell_mcp_agents.Prelude.{
  ℕ, take, drop, length, ◌≤◌, ◌<◌, ◌≡◌, ◌≢◌, refl, ap, ◌∙◌, [], ◌∷◌, ◌++◌, none, some, nat_eq,
  nat_beq_iff, arith, replicate, length-replicate, append_assoc,
}
use tunshell_mcp_agents.Assoc.{lookup, remove}
use tunshell_mcp_agents.Assoc.Laws.{lookup-remove}
use tunshell_mcp_agents.Udp.Bytes.{Bytes}
use tunshell_mcp_agents.Udp.Packet.{
  UdpPacketType, data_packet, data_ack, data_fragment, udp_header_size, udp_max_payload,
  udp_max_packet, parse, build_packet,
}
use tunshell_mcp_agents.Udp.Packet.Wire.{
  parse-write, parse-build_packet_any, parse-take, take_all, drop-take,
}
use tunshell_mcp_agents.Udp.Candidates.{Endpoint}
use tunshell_mcp_agents.Udp.Channel.State.{
  UdpConfig, Cipher, RttEstimator, UdpChannel, control_packet, fast_retransmit,
}
use tunshell_mcp_agents.Udp.Channel.Send.{register_packet}
use tunshell_mcp_agents.Udp.Channel.Recv.{
  adopt_peer, deliver, on_data, on_ack, on_packet, on_header, recv_packet,
}
use tunshell_mcp_agents.Udp.Channel.Sound.{lookup_mapped}

-- The packets that are acknowledged.
pub data IsReliable : UdpPacketType → Type 0 where
  whole : IsReliable data_packet
  part : IsReliable data_fragment

parse-control_packet :
    (t : UdpPacketType) (seq : ℕ)
    → seq < 4294967296
    → parse (control_packet t seq)
      ≡ some (record { packet_type = t; sequence = seq; payload_len = 0 })
unfolding control_packet
parse-control_packet t seq h =
    (parse-write (record { packet_type = t; sequence = seq; payload_len = 0 })
      (replicate udp_header_size 0) h (omega arith) (omega (arith, length-replicate {A = ℕ} 7 0))).0

module _ {E : Type 0} (est : RttEstimator E) (cfg : UdpConfig) (cipher : Cipher) where
  -- What a channel does with a packet that was built: of the payload it sees what fits.
  recv-build_packet_any :
      (now : ℕ) (from : Endpoint) (t : UdpPacketType) (seq : ℕ) (payload : Bytes)
      (ch : UdpChannel E)
      → seq < 4294967296
      → recv_packet est cfg cipher now from (build_packet t seq payload) ch
        ≡ on_packet est cfg cipher t now from seq (take udp_max_payload payload) ch
  unfolding recv_packet on_header
  recv-build_packet_any now from t seq payload ch hs =
      let packet = build_packet t seq payload in
      let (p, d) = parse-build_packet_any t seq payload hs in
      let rest : drop udp_header_size (take udp_max_packet packet) ≡ take udp_max_payload payload =
        drop-take udp_header_size udp_max_payload packet ∙ ap (λ b. take udp_max_payload b) d in
      rw (parse-take packet, p) (rw (rest, on_packet) refl)

  -- What fits is seen whole.
  pub recv-build_packet :
      (now : ℕ) (from : Endpoint) (t : UdpPacketType) (seq : ℕ) (payload : Bytes)
      (ch : UdpChannel E)
      → seq < 4294967296
      → length payload ≤ udp_max_payload
      → recv_packet est cfg cipher now from (build_packet t seq payload) ch
        ≡ on_packet est cfg cipher t now from seq payload ch
  recv-build_packet now from t seq payload ch hs fits =
      recv-build_packet_any now from t seq payload ch hs
      ∙ ap (λ b. on_packet est cfg cipher t now from seq b ch)
          (take_all udp_max_payload payload fits)

  answers-ack :
      (now : ℕ) (from : Endpoint) (t : UdpPacketType) (seq : ℕ) (payload : Bytes)
      (ch : UdpChannel E)
      → IsReliable t
      → (on_packet est cfg cipher t now from seq payload ch).1
        ≡ record { content = control_packet data_ack seq; to = from } ∷ []
  unfolding on_packet
  answers-ack now from _ seq payload ch whole = refl
  answers-ack now from _ seq payload ch part = refl

  ack-clears :
      (now : ℕ) (from : Endpoint) (seq : ℕ) (ch : UdpChannel E)
      → seq < 4294967296
      → lookup seq (recv_packet est cfg cipher now from (control_packet data_ack seq) ch).0.pending
        ≡ none
  unfolding recv_packet on_header on_packet on_ack
  ack-clears now from seq ch hs =
      rw (parse-take (control_packet data_ack seq), parse-control_packet data_ack seq hs)
        (lookup_mapped (fast_retransmit now seq) seq (remove seq ch.pending)
          (lookup-remove seq seq ch.pending ∙ ground (arith, nat_beq_iff seq seq)))

  -- A packet that is registered and sent, and arrives, is answered with one
  -- datagram to where it came from; when that reaches the sender, the packet is no longer pending.
  pub ack_round_trip :
      (now : ℕ) (t : UdpPacketType) (payload : Bytes) (peer : Endpoint) (sender : UdpChannel E)
      (later : ℕ) (from : Endpoint) (receiver : UdpChannel E) (last : ℕ) (back : Endpoint)
      → IsReliable t
      → sender.send_seq < 4294967296
      → let (sender', sent) = register_packet est cfg cipher now t payload peer sender in
        (ack : Bytes) × ((recv_packet est cfg cipher later from sent.content receiver).1
          ≡ record { content = ack; to = from } ∷ [])
        × (lookup sender.send_seq (recv_packet est cfg cipher last back ack sender').0.pending
            ≡ none)
  unfolding register_packet
  ack_round_trip now t payload peer sender later from receiver last back r hs = (
    control_packet data_ack sender.send_seq,
    ap (λ x. x.1) (recv-build_packet_any later from t sender.send_seq payload receiver hs)
        ∙ answers-ack later from t sender.send_seq (take udp_max_payload payload) receiver r,
    ack-clears last back sender.send_seq _ hs,
  )

  pub data_step :
      (now : ℕ) (from : Endpoint) (seq : ℕ) (payload message : Bytes) (ch : UdpChannel E)
      → seq < 4294967296
      → cipher.decrypt_bytes payload ≡ some message
      → payload ≢ []
      → length payload ≤ udp_max_payload
      → (recv_packet est cfg cipher now from (build_packet data_packet seq payload) ch).0
        ≡ record ch { peer_endpoint = some from; delivered = ch.delivered ++ message ∷ [] }
  unfolding on_packet on_data deliver adopt_peer
  data_step now from seq [] message ch hs d full fits = absurd (full refl)
  data_step now from seq (b ∷ payload) message ch hs d full fits =
      ap (λ x. x.0) (recv-build_packet now from data_packet seq (b ∷ payload) ch hs fits)
      ∙ rw d refl

  -- A duplicate of a whole message, which fits a datagram, is delivered again: the receiver keeps no record of the
  -- sequence numbers that it has seen.
  pub duplicate-delivered_twice :
      (now : ℕ) (from : Endpoint) (seq : ℕ) (payload message : Bytes) (ch : UdpChannel E)
      → seq < 4294967296
      → cipher.decrypt_bytes payload ≡ some message
      → payload ≢ []
      → length payload ≤ udp_max_payload
      → let packet = build_packet data_packet seq payload in
        let once = (recv_packet est cfg cipher now from packet ch).0 in
        (recv_packet est cfg cipher now from packet once).0.delivered
        ≡ ch.delivered ++ message ∷ message ∷ []
  duplicate-delivered_twice now from seq payload message ch hs d full fits =
      let packet = build_packet data_packet seq payload in
      let once = record ch {
        peer_endpoint = some from;
        delivered = ch.delivered ++ message ∷ [];
      } in
      ap (λ c. (recv_packet est cfg cipher now from packet c).0.delivered)
        (data_step now from seq payload message ch hs d full fits)
      ∙ ap (λ c. c.delivered) (data_step now from seq payload message once hs d full fits)
      ∙ append_assoc ch.delivered (message ∷ []) (message ∷ [])
