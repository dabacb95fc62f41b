-- ===== src/Udp/Channel/Sound.antt =====
-- What every step on a channel keeps: the window within its bounds, the bookkeeping of the packets
-- in flight.
use tunshell_mcp_agents.Prelude.{
  ℕ, take, ◌+◌, ◌≤◌, ◌≡◌, refl, [], ◌∷◌, map, Option, none, some, nat_beq, nat_eq, if◌then◌else◌,
  length, length-map, All, arith, Bool-cases, inl, inr,
}
use tunshell_mcp_agents.Assoc.{Assoc, lookup, insert, remove, UniqueKeys}
use tunshell_mcp_agents.Assoc.Keys.{insert-UniqueKeys, remove-UniqueKeys, length-remove}
use tunshell_mcp_agents.Udp.Bytes.{Bytes}
use tunshell_mcp_agents.Udp.Packet.{
  UdpPacketType, UdpPacketHeader, probe, probe_ack, ping, pong, data_packet, data_ack,
  data_unreliable, data_fragment, close, udp_max_packet, parse,
}
use tunshell_mcp_agents.Udp.Candidates.{Endpoint}
use tunshell_mcp_agents.Udp.Reassembler.{insert_payload}
use tunshell_mcp_agents.Udp.Channel.State.{
  PendingPacket, UdpConfig, Cipher, RttEstimator, UdpChannel, min_cwnd, max_cwnd, is_lost,
  fast_retransmit, on_value, is_closed, is_expired,
}
use tunshell_mcp_agents.Udp.Channel.Send.{new_channel, register_packet}
use tunshell_mcp_agents.Udp.Channel.Recv.{
  adopt_peer, deliver, on_data, deliver_body, on_fragment, on_ack, on_packet, on_header,
  recv_packet,
}
use tunshell_mcp_agents.Udp.Channel.Tick.{
  tick_peer, retransmit_tick, is_abandoned, is_resent, retransmit, tick_pending,
}

-- A pending packet stands under its sequence number, and was sent again at most
-- `max_retransmissions` times by the timer and once more by a fast retransmission.
unfoldable pub IsTracked : UdpConfig → ℕ × PendingPacket → Type 0
IsTracked cfg p =
    (p.1.sequence ≡ p.0) × (p.1.retries ≤ cfg.max_retransmissions + (if p.1.fast_rtx then 1 else 0))

-- A map over the values that keeps what is asked of an entry.
module _ (f : PendingPacket → PendingPacket) where
  pub lookup_mapped :
      (k : ℕ) (m : Assoc ℕ PendingPacket) → lookup k m ≡ none → lookup k (map (on_value f) m) ≡ none
  unfolding lookup
  lookup_mapped k [] h = refl
  lookup_mapped k (p ∷ m) h = ground (arith, lookup_mapped k m)

  map-UniqueKeys : (m : Assoc ℕ PendingPacket) → UniqueKeys m → UniqueKeys (map (on_value f) m)
  map-UniqueKeys [] u = tt
  map-UniqueKeys (p ∷ m) u = (lookup_mapped p.0 m u.0, map-UniqueKeys m u.1)

  map-All :
      (P : ℕ × PendingPacket → Type 0) (m : Assoc ℕ PendingPacket)
      → ((p : ℕ × PendingPacket) → P p → P (on_value f p))
      → All P m
      → All P (map (on_value f) m)
  map-All P [] keeps a = tt
  map-All P (p ∷ m) keeps a = (keeps p a.0, map-All P m keeps a.1)

module _ (P : ℕ × PendingPacket → Type 0) where
  insert-All :
      (k : ℕ) (pkt : PendingPacket) (m : Assoc ℕ PendingPacket)
      → P (k, pkt)
      → All P m
      → All P (insert k pkt m)
  unfolding insert
  insert-All k pkt [] h a = (h, tt)
  insert-All k pkt (p ∷ m) h a = elim (Bool-cases (nat_beq p.0 k)) [
    | inl e ↦ rw e (let same : p.0 ≡ k = ground (arith, e) in rw same (h, a.1))
    | inr e ↦ rw e (a.0, insert-All k pkt m h a.1)
  ]

  remove-All : (k : ℕ) (m : Assoc ℕ PendingPacket) → All P m → All P (remove k m)
  unfolding remove
  remove-All k [] a = tt
  remove-All k (p ∷ m) a = elim (Bool-cases (nat_beq p.0 k)) [
    | inl e ↦ rw e (remove-All k m a.1)
    | inr e ↦ rw e (a.0, remove-All k m a.1)
  ]

module _ (cfg : UdpConfig) where
  pub lookup_ticked :
      (now rto k : ℕ) (m : Assoc ℕ PendingPacket)
      → lookup k m ≡ none
      → lookup k (tick_pending cfg now rto m) ≡ none
  unfolding lookup tick_pending
  lookup_ticked now rto k [] h = refl
  lookup_ticked now rto k (p ∷ m) h = ground (arith, lookup_ticked now rto k m)

  pub tick_pending-UniqueKeys :
      (now rto : ℕ) (m : Assoc ℕ PendingPacket)
      → UniqueKeys m
      → UniqueKeys (tick_pending cfg now rto m)
  unfolding tick_pending
  tick_pending-UniqueKeys now rto [] u = tt
  tick_pending-UniqueKeys now rto (p ∷ m) u = elim (Bool-cases (is_abandoned cfg now rto p.1)) [
    | inl e ↦ rw e (tick_pending-UniqueKeys now rto m u.1)
    | inr e ↦ rw e (lookup_ticked now rto p.0 m u.0, tick_pending-UniqueKeys now rto m u.1)
  ]

module _ {E : Type 0} (est : RttEstimator E) (cfg : UdpConfig) (cipher : Cipher) where
  pub record IsSound (ch : UdpChannel E) : Type 0 where
    pub not_small : min_cwnd ≤ ch.cwnd
    pub not_large : ch.cwnd ≤ max_cwnd
    pub keys : UniqueKeys ch.pending
    pub packets : All (IsTracked cfg) ch.pending

  fast_retransmit-IsTracked :
      (now acked : ℕ) (p : ℕ × PendingPacket)
      → IsTracked cfg p
      → IsTracked cfg (on_value (fast_retransmit now acked) p)
  unfolding IsTracked fast_retransmit is_lost
  fast_retransmit-IsTracked now acked p h = ground arith

  retransmit-IsTracked :
      (now rto : ℕ) (p : ℕ × PendingPacket)
      → IsTracked cfg p
      → IsTracked cfg (on_value (retransmit cfg now rto) p)
  unfolding IsTracked retransmit is_resent is_expired
  retransmit-IsTracked now rto p h = ground arith

  tick_pending-All :
      (now rto : ℕ) (m : Assoc ℕ PendingPacket)
      → All (IsTracked cfg) m
      → All (IsTracked cfg) (tick_pending cfg now rto m)
  unfolding tick_pending
  tick_pending-All now rto [] a = tt
  tick_pending-All now rto (p ∷ m) a = elim (Bool-cases (is_abandoned cfg now rto p.1)) [
    | inl e ↦ rw e (tick_pending-All now rto m a.1)
    | inr e ↦ rw e (retransmit-IsTracked now rto p a.0, tick_pending-All now rto m a.1)
  ]

  length-tick_pending :
      (now rto : ℕ) (m : Assoc ℕ PendingPacket) → length (tick_pending cfg now rto m) ≤ length m
  unfolding tick_pending
  length-tick_pending now rto [] = omega arith
  length-tick_pending now rto (p ∷ m) = ground (arith, length-tick_pending now rto m)

  pub new_channel-IsSound : (rtt : E) → IsSound (new_channel est cfg cipher rtt)
  unfolding new_channel
  new_channel-IsSound rtt = record {
    not_small = omega arith;
    not_large = omega arith;
    keys = tt;
    packets = tt;
  }

  pub register_packet-IsSound :
      (now : ℕ) (t : UdpPacketType) (payload : Bytes) (peer : Endpoint) (ch : UdpChannel E)
      → IsSound ch
      → IsSound (register_packet est cfg cipher now t payload peer ch).0
  unfolding register_packet IsTracked
  register_packet-IsSound now t payload peer ch s = record {
    not_small = s.not_small;
    not_large = s.not_large;
    keys = insert-UniqueKeys ch.send_seq _ ch.pending s.keys;
    packets = insert-All (IsTracked cfg) ch.send_seq _ ch.pending (refl, omega arith) s.packets;
  }

  on_ack-IsSound :
      (now : ℕ) (from : Endpoint) (acked : ℕ) (ch : UdpChannel E)
      → IsSound ch
      → IsSound (on_ack est cfg cipher now from acked ch).0
  unfolding on_ack
  on_ack-IsSound now from acked ch s = record {
    not_small = ground (arith, s.not_small, s.not_large);
    not_large = ground (arith, s.not_small, s.not_large);
    keys =
        map-UniqueKeys (fast_retransmit now acked) (remove acked ch.pending)
          (remove-UniqueKeys acked ch.pending s.keys);
    packets =
        map-All (fast_retransmit now acked) (IsTracked cfg) (remove acked ch.pending)
          (fast_retransmit-IsTracked now acked)
          (remove-All (IsTracked cfg) acked ch.pending s.packets);
  }

  -- What delivery leaves alone.
  unfoldable pub SameFlight : UdpChannel E → UdpChannel E → Type 0
  SameFlight a b = (a.pending ≡ b.pending) × (a.cwnd ≡ b.cwnd)

  deliver-SameFlight :
      (from : Endpoint) (o : Option Bytes) (ch : UdpChannel E)
      → SameFlight (deliver est cfg cipher from o ch) ch
  unfolding SameFlight deliver adopt_peer
  deliver-SameFlight from none ch = (refl, refl)
  deliver-SameFlight from (some b) ch = (refl, refl)

  pub on_data-SameFlight :
      (from : Endpoint) (payload : Bytes) (ch : UdpChannel E)
      → SameFlight (on_data est cfg cipher from payload ch) ch
  unfolding SameFlight on_data
  on_data-SameFlight from [] ch = (refl, refl)
  on_data-SameFlight from (b ∷ payload) ch =
      deliver-SameFlight from (cipher.decrypt_bytes (b ∷ payload)) ch

  deliver_body-SameFlight :
      (from : Endpoint) (o : Option Bytes) (ch : UdpChannel E)
      → SameFlight (deliver_body est cfg cipher from o ch) ch
  unfolding SameFlight deliver_body
  deliver_body-SameFlight from none ch = (refl, refl)
  deliver_body-SameFlight from (some b) ch = deliver-SameFlight from (cipher.decrypt_bytes b) ch

  pub on_fragment-SameFlight :
      (from : Endpoint) (payload : Bytes) (ch : UdpChannel E)
      → SameFlight (on_fragment est cfg cipher from payload ch) ch
  unfolding SameFlight on_fragment
  on_fragment-SameFlight from [] ch = (refl, refl)
  on_fragment-SameFlight from (b ∷ payload) ch =
      deliver_body-SameFlight from (insert_payload ch.reassembler (b ∷ payload)).1 _

  same-IsSound : (a b : UdpChannel E) → SameFlight a b → IsSound b → IsSound a
  unfolding SameFlight
  same-IsSound a b e s = record {
    not_small = rw e.1 s.not_small;
    not_large = rw e.1 s.not_large;
    keys = rw e.0 s.keys;
    packets = rw e.0 s.packets;
  }

  length-on_ack :
      (now : ℕ) (from : Endpoint) (acked : ℕ) (ch : UdpChannel E)
      → IsSound ch
      → length (on_ack est cfg cipher now from acked ch).0.pending ≤ length ch.pending
  unfolding on_ack
  length-on_ack now from acked ch s = omega (
    arith,
    length-map (on_value (fast_retransmit now acked)) (remove acked ch.pending),
    length-remove acked ch.pending s.keys,
  )

  -- Whatever arrives, the channel stays sound and no packet is added.
  unfoldable pub Settles : UdpChannel E → UdpChannel E → Type 0
  Settles a b = IsSound a × (length a.pending ≤ length b.pending)

  same-Settles : (a b : UdpChannel E) → SameFlight a b → IsSound b → Settles a b
  unfolding SameFlight Settles
  same-Settles a b e s = (same-IsSound a b e s, rw e.0 (omega arith))

  on_packet-Settles :
      (t : UdpPacketType) (now : ℕ) (from : Endpoint) (seq : ℕ) (payload : Bytes)
      (ch : UdpChannel E)
      → IsSound ch
      → Settles (on_packet est cfg cipher t now from seq payload ch).0 ch
  unfolding on_packet SameFlight Settles
  on_packet-Settles data_packet now from seq payload ch s =
      same-Settles _ ch (on_data-SameFlight from payload ch) s
  on_packet-Settles data_fragment now from seq payload ch s =
      same-Settles _ ch (on_fragment-SameFlight from payload ch) s
  on_packet-Settles data_unreliable now from seq payload ch s =
      same-Settles _ ch (on_data-SameFlight from payload ch) s
  on_packet-Settles data_ack now from seq payload ch s =
      (on_ack-IsSound now from seq ch s, length-on_ack now from seq ch s)
  on_packet-Settles ping now from seq payload ch s = same-Settles ch ch (refl, refl) s
  on_packet-Settles close now from seq payload ch s = same-Settles _ ch (refl, refl) s
  on_packet-Settles probe now from seq payload ch s = same-Settles ch ch (refl, refl) s
  on_packet-Settles probe_ack now from seq payload ch s = same-Settles ch ch (refl, refl) s
  on_packet-Settles pong now from seq payload ch s = same-Settles ch ch (refl, refl) s

  on_header-Settles :
      (h : Option UdpPacketHeader) (now : ℕ) (from : Endpoint) (buf : Bytes) (ch : UdpChannel E)
      → IsSound ch
      → Settles (on_header est cfg cipher h now from buf ch).0 ch
  unfolding SameFlight on_header
  on_header-Settles none now from buf ch s = same-Settles ch ch (refl, refl) s
  on_header-Settles (some h) now from buf ch s =
      on_packet-Settles h.packet_type now from h.sequence _ ch s

  pub recv_packet-Settles :
      (now : ℕ) (from : Endpoint) (buf : Bytes) (ch : UdpChannel E)
      → IsSound ch
      → Settles (recv_packet est cfg cipher now from buf ch).0 ch
  unfolding recv_packet
  recv_packet-Settles now from buf ch s =
      let got = take udp_max_packet buf in on_header-Settles (parse got) now from got ch s

  tick_peer-Settles :
      (now : ℕ) (peer : Option Endpoint) (ch : UdpChannel E)
      → IsSound ch
      → Settles (tick_peer est cfg cipher now peer ch).0 ch
  unfolding tick_peer SameFlight Settles
  tick_peer-Settles now none ch s = same-Settles ch ch (refl, refl) s
  tick_peer-Settles now (some peer) ch s = (
    record {
      not_small = ground (arith, s.not_small, s.not_large);
      not_large = ground (arith, s.not_small, s.not_large);
      keys = tick_pending-UniqueKeys cfg now _ ch.pending s.keys;
      packets = tick_pending-All now _ ch.pending s.packets;
    },
    length-tick_pending now _ ch.pending,
  )

  pub retransmit_tick-Settles :
      (now : ℕ) (ch : UdpChannel E)
      → IsSound ch
      → Settles (retransmit_tick est cfg cipher now ch).0 ch
  unfolding retransmit_tick SameFlight
  retransmit_tick-Settles now ch s = elim (Bool-cases (is_closed ch.state)) [
    | inl e ↦ rw e (same-Settles ch ch (refl, refl) s)
    | inr e ↦ rw e (tick_peer-Settles now ch.peer_endpoint ch s)
  ]
