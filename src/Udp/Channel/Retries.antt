-- ===== src/Udp/Channel/Retries.antt =====
-- What becomes of a packet that is never acknowledged.
use tunshell_mcp_agents.Prelude.{
  ℕ, Option-cases, ◌+◌, ◌-◌, ◌≤◌, ◌<◌, ◌≡◌, ◌≢◌, refl, ◌*◌, sym, ap, drop, take, ◌∙◌, Option, none,
  some, false, nat_beq, nat_eq, if◌then◌else◌, arith, Bool-cases, inl, inr, subst,
}
use tunshell_mcp_agents.Assoc.{lookup, remove}
use tunshell_mcp_agents.Assoc.Laws.{lookup-insert, lookup-remove}
use tunshell_mcp_agents.Udp.Candidates.{Endpoint}
use tunshell_mcp_agents.Udp.Bytes.{Bytes}
use tunshell_mcp_agents.Udp.Packet.{
  UdpPacketType, UdpPacketHeader, probe, probe_ack, ping, pong, data_packet, data_ack,
  data_unreliable, data_fragment, close, udp_header_size, udp_max_packet, parse,
}
use tunshell_mcp_agents.Udp.Channel.Send.{register_packet}
use tunshell_mcp_agents.Udp.Channel.Recv.{
  recv_packet, on_ack, on_packet, on_header, on_data, on_fragment,
}
use tunshell_mcp_agents.Udp.Channel.State.{
  PendingPacket, UdpConfig, Cipher, RttEstimator, UdpChannel, closed, is_closed, fast_retransmit,
}
use tunshell_mcp_agents.Udp.Channel.Tick.{retransmit_tick}
use tunshell_mcp_agents.Udp.Channel.Deadline.{
  tick_entry, mapped, lookup-map, lookup-All, lookup-retransmit_tick, Hopeful, tick-Hopeful,
  fast-Hopeful, past_deadline,
}
use tunshell_mcp_agents.Udp.Channel.Sound.{
  SameFlight, on_data-SameFlight, on_fragment-SameFlight, Settles, retransmit_tick-Settles,
  recv_packet-Settles, register_packet-IsSound, IsTracked, IsSound,
}

module _ {E : Type 0} (est : RttEstimator E) (cfg : UdpConfig) (cipher : Cipher) where
  -- What becomes of a channel from a time on: ticks of the retransmission loop at most `step` apart,
  -- while the channel is open and has a peer, and between them packets that arrive and packets that
  -- are sent, these under other numbers than `k`. The number is the time of the last tick.
  pub data Runs (step k : ℕ) (start : UdpChannel E) (since : ℕ) : ℕ → UdpChannel E → Type 0 where
    begins : Runs step k start since since start
    ticks :
        (now last : ℕ) (ch : UdpChannel E) (peer : Endpoint)
        → Runs step k start since last ch
        → last ≤ now
        → now ≤ last + step
        → is_closed ch.state ≡ false
        → ch.peer_endpoint ≡ some peer
        → Runs step k start since now (retransmit_tick est cfg cipher now ch).0
    receives :
        (now last : ℕ) (from : Endpoint) (buf : Bytes) (ch : UdpChannel E)
        → Runs step k start since last ch
        → last ≤ now
        → now ≤ last + step
        → Runs step k start since last (recv_packet est cfg cipher now from buf ch).0
    sends :
        (now last : ℕ) (t : UdpPacketType) (payload : Bytes) (peer : Endpoint) (ch : UdpChannel E)
        → Runs step k start since last ch
        → ch.send_seq ≢ k
        → Runs step k start since last (register_packet est cfg cipher now t payload peer ch).0

  -- What is known at a time, while the packet may still be there.
  InTime : ℕ → ℕ → ℕ → ℕ → ℕ → UdpChannel E → Type 0
  InTime deadline longest step k last ch =
      IsSound est cfg cipher ch
      × ((p : PendingPacket)
          → lookup k ch.pending ≡ some p
          → Hopeful est cfg cipher deadline longest step last p)

  -- A channel whose packets in flight are the same.
  same-InTime :
      (deadline longest step k last : ℕ) (ch after : UdpChannel E)
      → IsSound est cfg cipher after
      → lookup k after.pending ≡ lookup k ch.pending
      → InTime deadline longest step k last ch
      → InTime deadline longest step k last after
  unfolding InTime
  same-InTime deadline longest step k last ch after sound same (s, hope) =
      (sound, λ p h. hope p (sym same ∙ h))

  lookup-on_ack :
      (now : ℕ) (from : Endpoint) (acked k : ℕ) (ch : UdpChannel E)
      → lookup k (on_ack est cfg cipher now from acked ch).0.pending ≡ (
          if nat_beq acked k
          then none
          else mapped (fast_retransmit now acked) (lookup k ch.pending))
  unfolding on_ack
  lookup-on_ack now from acked k ch = ground (
    arith,
    lookup-map (fast_retransmit now acked) k (remove acked ch.pending),
    lookup-remove acked k ch.pending,
  )

  ack-InTime :
      (deadline longest step k last now : ℕ) (from : Endpoint) (acked : ℕ) (ch : UdpChannel E)
      → last ≤ now
      → now ≤ last + step
      → IsSound est cfg cipher (on_ack est cfg cipher now from acked ch).0
      → InTime deadline longest step k last ch
      → InTime deadline longest step k last (on_ack est cfg cipher now from acked ch).0
  unfolding InTime
  ack-InTime deadline longest step k last now from acked ch late soon sound (s, hope) = (
    sound,
    λ p' h. elim (Option-cases (lookup k ch.pending)) [
      | inl gone ↦ absurd (ground (arith, gone, lookup-on_ack now from acked k ch, h))
      | inr (p, there) ↦
          let same : fast_retransmit now acked p ≡ p' =
            ground (arith, there, lookup-on_ack now from acked k ch, h) in
          subst (Hopeful est cfg cipher deadline longest step last) same (
            fast-Hopeful est cfg cipher deadline longest step last now acked k p late soon
              (lookup-All (IsTracked cfg) k ch.pending p s.packets there) (hope p there))
    ],
  )

  packet-InTime :
      (deadline longest step k last now : ℕ) (from : Endpoint) (t : UdpPacketType) (seq : ℕ)
      (payload : Bytes) (ch : UdpChannel E)
      → last ≤ now
      → now ≤ last + step
      → IsSound est cfg cipher (on_packet est cfg cipher t now from seq payload ch).0
      → InTime deadline longest step k last ch
      → InTime deadline longest step k last (on_packet est cfg cipher t now from seq payload ch).0
  unfolding on_packet SameFlight
  packet-InTime deadline longest step k last now from data_ack seq payload ch late soon sound i =
      ack-InTime deadline longest step k last now from seq ch late soon sound i
  packet-InTime deadline longest step k last now from data_packet seq payload ch late soon sound i =
      same-InTime deadline longest step k last ch (on_data est cfg cipher from payload ch) sound
        (ap (λ m. lookup k m) (on_data-SameFlight est cfg cipher from payload ch).0) i
  packet-InTime deadline longest step k last now from data_unreliable seq payload ch late soon sound
        i =
      same-InTime deadline longest step k last ch (on_data est cfg cipher from payload ch) sound
        (ap (λ m. lookup k m) (on_data-SameFlight est cfg cipher from payload ch).0) i
  packet-InTime deadline longest step k last now from data_fragment seq payload ch late soon sound
        i =
      same-InTime deadline longest step k last ch (on_fragment est cfg cipher from payload ch) sound
        (ap (λ m. lookup k m) (on_fragment-SameFlight est cfg cipher from payload ch).0) i
  packet-InTime deadline longest step k last now from close seq payload ch late soon sound i =
      same-InTime deadline longest step k last ch (record ch { state = closed }) sound refl i
  packet-InTime deadline longest step k last now from ping seq payload ch late soon sound i = i
  packet-InTime deadline longest step k last now from probe seq payload ch late soon sound i = i
  packet-InTime deadline longest step k last now from probe_ack seq payload ch late soon sound i = i
  packet-InTime deadline longest step k last now from pong seq payload ch late soon sound i = i

  header-InTime :
      (deadline longest step k last now : ℕ) (from : Endpoint) (h : Option UdpPacketHeader)
      (buf : Bytes) (ch : UdpChannel E)
      → last ≤ now
      → now ≤ last + step
      → IsSound est cfg cipher (on_header est cfg cipher h now from buf ch).0
      → InTime deadline longest step k last ch
      → InTime deadline longest step k last (on_header est cfg cipher h now from buf ch).0
  unfolding on_header
  header-InTime deadline longest step k last now from none buf ch late soon sound i = i
  header-InTime deadline longest step k last now from (some h) buf ch late soon sound i =
      packet-InTime deadline longest step k last now from h.packet_type h.sequence
        (drop udp_header_size buf) ch late soon sound i

  tick-InTime :
      (deadline longest step k last now : ℕ) (ch : UdpChannel E) (peer : Endpoint)
      → ((e : E) → est.current_rto e cfg.rto_ms ≤ longest)
      → last ≤ now
      → now ≤ last + step
      → is_closed ch.state ≡ false
      → ch.peer_endpoint ≡ some peer
      → InTime deadline longest step k last ch
      → InTime deadline longest step k now (retransmit_tick est cfg cipher now ch).0
  unfolding InTime Settles tick_entry
  tick-InTime deadline longest step k last now ch peer bound late soon live at (s, hope) =
      let entry = lookup-retransmit_tick est cfg cipher now ch peer k live at s.keys in
      let rto = est.current_rto ch.rtt cfg.rto_ms in
      (
        (retransmit_tick-Settles est cfg cipher now ch s).0,
        λ p' h. elim (Option-cases (lookup k ch.pending)) [
          | inl gone ↦ absurd (ground (arith, gone, entry, h))
          | inr (p, there) ↦
              tick-Hopeful est cfg cipher deadline longest step last now rto p p' (bound ch.rtt)
                late soon (hope p there)
                (ap (λ o. tick_entry cfg now rto o) (sym there) ∙ sym entry ∙ h)
        ],
      )

  lookup-register_packet :
      (now k : ℕ) (t : UdpPacketType) (payload : Bytes) (peer : Endpoint) (ch : UdpChannel E)
      → ch.send_seq ≢ k
      → lookup k (register_packet est cfg cipher now t payload peer ch).0.pending
        ≡ lookup k ch.pending
  unfolding register_packet
  lookup-register_packet now k t payload peer ch other = elim (Bool-cases (nat_beq ch.send_seq k)) [
    | inl e ↦ absurd (other (ground (arith, e)))
    | inr e ↦ lookup-insert ch.send_seq k _ ch.pending ∙ rw e refl
  ]

  Runs-InTime :
      (deadline longest step k since : ℕ) (start : UdpChannel E)
      → ((e : E) → est.current_rto e cfg.rto_ms ≤ longest)
      → InTime deadline longest step k since start
      → (last : ℕ) (ch : UdpChannel E) → Runs step k start since last ch
      → InTime deadline longest step k last ch
  unfolding InTime recv_packet Settles register_packet
  Runs-InTime deadline longest step k since start bound i _ _ begins = i
  Runs-InTime deadline longest step k since start bound i _ _
        (ticks now last ch peer r late soon live at) =
      tick-InTime deadline longest step k last now ch peer bound late soon live at
        (Runs-InTime deadline longest step k since start bound i last ch r)
  Runs-InTime deadline longest step k since start bound i _ _
        (receives now last from buf ch r late soon) =
      let known = Runs-InTime deadline longest step k since start bound i last ch r in
      let got = take udp_max_packet buf in
      header-InTime deadline longest step k last now from (parse got) got ch late soon
        (recv_packet-Settles est cfg cipher now from buf ch known.0).0 known
  Runs-InTime deadline longest step k since start bound i _ _
        (sends now last t payload peer ch r other) =
      let known = Runs-InTime deadline longest step k since start bound i last ch r in
      same-InTime deadline longest step k last ch
        (register_packet est cfg cipher now t payload peer ch).0
        (register_packet-IsSound est cfg cipher now t payload peer ch known.0)
        (lookup-register_packet now k t payload peer ch other) known

  -- A packet in flight does not stay there for ever. The channel starts in a state that it can reach
  -- (`IsSound`), is open and has a peer at every tick, no retransmission timeout is more than
  -- `longest`, and since the packet was sent last the retransmission loop has ticked at most `step`
  -- apart, whatever has arrived and whatever was sent in between, under other numbers. Once a tick
  -- comes later than `longest` and `step` together for each retransmission that is left, and twice
  -- more, the packet is in flight no more.
  pub unacked_given_up :
      (longest step k last : ℕ) (start ch : UdpChannel E) (pkt : PendingPacket)
      → ((e : E) → est.current_rto e cfg.rto_ms ≤ longest)
      → IsSound est cfg cipher start
      → lookup k start.pending ≡ some pkt
      → Runs step k start pkt.sent_at last ch
      → pkt.sent_at + (cfg.max_retransmissions + 2 - pkt.retries) * (longest + step) < last
      → lookup k ch.pending ≡ none
  unfolding InTime Hopeful IsTracked
  unacked_given_up longest step k last start ch pkt bound sound there r late =
      let slots = cfg.max_retransmissions + 2 - pkt.retries in
      let deadline = pkt.sent_at + slots * (longest + step) in
      let tracked = lookup-All (IsTracked cfg) k start.pending pkt sound.packets there in
      let few : slots + pkt.retries ≡ cfg.max_retransmissions + 2 = ground (arith, tracked.1) in
      let hopeful : Hopeful est cfg cipher deadline longest step pkt.sent_at pkt =
        (slots, few, omega arith, omega arith) in
      let (s, hope) =
        Runs-InTime deadline longest step k pkt.sent_at start bound
          (
            sound,
            λ p h.
                let same : pkt ≡ p = ground (arith, there, h) in
                subst (Hopeful est cfg cipher deadline longest step pkt.sent_at) same hopeful,
          )
          last ch r in
      elim (Option-cases (lookup k ch.pending)) [
        | inl gone ↦ gone
        | inr (p, h) ↦ absurd (
            past_deadline est cfg cipher deadline longest step last k p
              (lookup-All (IsTracked cfg) k ch.pending p s.packets h) late (hope p h))
      ]
