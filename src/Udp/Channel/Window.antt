-- ===== src/Udp/Channel/Window.antt =====
-- What bounds the packets in flight when several senders share a channel.
use tunshell_mcp_agents.Prelude.{
  ℕ, suc, ◌+◌, ◌≤◌, ◌<◌, ◌≡◌, some, Bool, true, false, nat_eq, if◌then◌else◌, length, arith,
}
use tunshell_mcp_agents.Assoc.{contains_key}
use tunshell_mcp_agents.Assoc.Keys.{length-insert}
use tunshell_mcp_agents.Udp.Bytes.{Bytes}
use tunshell_mcp_agents.Udp.Packet.{UdpPacketType}
use tunshell_mcp_agents.Udp.Candidates.{Endpoint}
use tunshell_mcp_agents.Udp.Channel.State.{
  UdpConfig, Cipher, RttEstimator, UdpChannel, connected, max_cwnd,
}
use tunshell_mcp_agents.Udp.Channel.Send.{new_channel, window_open, register_packet}
use tunshell_mcp_agents.Udp.Channel.Recv.{recv_packet}
use tunshell_mcp_agents.Udp.Channel.Tick.{retransmit_tick, close_channel}
use tunshell_mcp_agents.Udp.Channel.Sound.{
  IsSound, Settles, new_channel-IsSound, register_packet-IsSound, recv_packet-Settles,
  retransmit_tick-Settles,
}

module _ {E : Type 0} (est : RttEstimator E) (cfg : UdpConfig) (cipher : Cipher) where
  -- The interleavings of at most `senders` tasks in `send_reliable_packet` with the two loops. The
  -- second component counts the tasks that have passed the window test and not yet registered.
  pub data Reachable (senders : ℕ) : UdpChannel E → ℕ → Type 0 where
    starts : (rtt : E) → Reachable senders (new_channel est cfg cipher rtt) 0
    connects :
        (peer : Endpoint) (ch : UdpChannel E) (n : ℕ)
        → Reachable senders ch n
        → Reachable senders (record ch { peer_endpoint = some peer; state = connected }) n
    admits :
        (ch : UdpChannel E) (n : ℕ)
        → Reachable senders ch n
        → n < senders
        → window_open est cfg cipher ch ≡ true
        → Reachable senders ch (suc n)
    registers :
        (now : ℕ) (t : UdpPacketType) (payload : Bytes) (peer : Endpoint) (ch : UdpChannel E)
        (n : ℕ)
        → Reachable senders ch (suc n)
        → Reachable senders (register_packet est cfg cipher now t payload peer ch).0 n
    receives :
        (now : ℕ) (from : Endpoint) (buf : Bytes) (ch : UdpChannel E) (n : ℕ)
        → Reachable senders ch n
        → Reachable senders (recv_packet est cfg cipher now from buf ch).0 n
    ticks :
        (now : ℕ) (ch : UdpChannel E) (n : ℕ)
        → Reachable senders ch n
        → Reachable senders (retransmit_tick est cfg cipher now ch).0 n
    closes :
        (ch : UdpChannel E) (n : ℕ)
        → Reachable senders ch n
        → Reachable senders (close_channel est cfg cipher ch).0 n

  one_more : (b : Bool) (n : ℕ) → n + (if b then 0 else 1) ≤ suc n
  one_more true n = omega arith
  one_more false n = omega arith

  length-register_packet :
      (now : ℕ) (t : UdpPacketType) (payload : Bytes) (peer : Endpoint) (ch : UdpChannel E)
      → length (register_packet est cfg cipher now t payload peer ch).0.pending
        ≤ suc (length ch.pending)
  unfolding register_packet
  length-register_packet now t payload peer ch =
      rw (length-insert ch.send_seq _ ch.pending)
        (one_more (contains_key ch.send_seq ch.pending) (length ch.pending))

  -- In every state that a channel reaches while at most `senders` tasks send through it, in any
  -- interleaving with received packets and ticks of the retransmission loop: the window is between
  -- 4 and 4096, the pending packets stand under their own sequence numbers, each once, each sent
  -- again at most `max_retransmissions` times by the timer and once more early, and the packets in
  -- flight with the tasks that may yet add one are fewer than 4096 and the number of tasks.
  pub in_flight_bounded :
      (senders : ℕ) (ch : UdpChannel E) (n : ℕ)
      → Reachable senders ch n
      → IsSound est cfg cipher ch × (length ch.pending + n < max_cwnd + senders)
  unfolding Settles close_channel new_channel window_open
  in_flight_bounded senders _ _ (starts rtt) = (new_channel-IsSound est cfg cipher rtt, omega arith)
  in_flight_bounded senders _ n (connects peer ch _ r) =
      let (s, b) = in_flight_bounded senders ch n r in
      (
        record {
          not_small = s.not_small;
          not_large = s.not_large;
          keys = s.keys;
          packets = s.packets;
        },
        b,
      )
  in_flight_bounded senders ch _ (admits _ n r free space) =
      let (s, b) = in_flight_bounded senders ch n r in (s, ground (arith, s.not_large, free, space))
  in_flight_bounded senders _ n (registers now t payload peer ch _ r) =
      let (s, b) = in_flight_bounded senders ch (suc n) r in
      (
        register_packet-IsSound est cfg cipher now t payload peer ch s,
        omega (arith, length-register_packet now t payload peer ch, b),
      )
  in_flight_bounded senders _ n (receives now from buf ch _ r) =
      let (s, b) = in_flight_bounded senders ch n r in
      let (s', l) = recv_packet-Settles est cfg cipher now from buf ch s in
      (s', omega (arith, l, b))
  in_flight_bounded senders _ n (ticks now ch _ r) =
      let (s, b) = in_flight_bounded senders ch n r in
      let (s', l) = retransmit_tick-Settles est cfg cipher now ch s in (s', omega (arith, l, b))
  in_flight_bounded senders _ n (closes ch _ r) =
      let (s, b) = in_flight_bounded senders ch n r in
      (
        record {
          not_small = s.not_small;
          not_large = s.not_large;
          keys = s.keys;
          packets = s.packets;
        },
        b,
      )
