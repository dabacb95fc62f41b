-- ===== src/Udp/Channel/Tick.antt =====
-- One round of `retransmit_loop`, and `close`.
use tunshell_mcp_agents.Prelude.{
  ℕ, ◌+◌, List, [], ◌∷◌, map, Option, none, some, Bool, false, ◌&&◌, not, leb, nat_eq,
  if◌then◌else◌, select,
}
use tunshell_mcp_agents.Assoc.{Assoc}
use tunshell_mcp_agents.Udp.Candidates.{Endpoint}
use tunshell_mcp_agents.Udp.Channel.State.{
  PendingPacket, UdpConfig, Cipher, RttEstimator, UdpChannel, Datagram, closed, halve, on_value,
  is_none_lost, is_closed, is_expired, close_packets,
}

module _ (cfg : UdpConfig) where
  unfoldable pub is_abandoned : ℕ → ℕ → PendingPacket → Bool
  unfolding is_expired
  is_abandoned now rto pkt = is_expired now rto pkt && leb cfg.max_retransmissions pkt.retries

  unfoldable pub is_resent : ℕ → ℕ → PendingPacket → Bool
  unfolding is_expired
  is_resent now rto pkt = is_expired now rto pkt && not (leb cfg.max_retransmissions pkt.retries)

  unfoldable pub retransmit : ℕ → ℕ → PendingPacket → PendingPacket
  unfolding is_resent
  retransmit now rto pkt =
      if is_resent now rto pkt
      then record pkt { retries = pkt.retries + 1; sent_at = now; fast_rtx = false }
      else pkt

  unfoldable pub tick_pending : ℕ → ℕ → Assoc ℕ PendingPacket → Assoc ℕ PendingPacket
  unfolding is_abandoned retransmit
  tick_pending now rto [] = []
  tick_pending now rto (p ∷ pending) =
      let rest = tick_pending now rto pending in
      if is_abandoned now rto p.1 then rest else on_value (retransmit now rto) p ∷ rest

module _ {E : Type 0} (est : RttEstimator E) (cfg : UdpConfig) (cipher : Cipher) where
  unfoldable pub tick_peer : ℕ → Option Endpoint → UdpChannel E → UdpChannel E × List Datagram
  unfolding tick_pending is_resent
  tick_peer now none ch = (ch, [])
  tick_peer now (some peer) ch =
      let rto = est.current_rto ch.rtt cfg.rto_ms in
      let resent = select (λ p. is_resent cfg now rto p.1) ch.pending in
      (
        record ch {
          pending = tick_pending cfg now rto ch.pending;
          cwnd = if is_none_lost resent then ch.cwnd else halve ch.cwnd;
        },
        map (λ p. record { content = (p.1).content; to = peer }) resent,
      )

  -- One round of `retransmit_loop`.
  unfoldable pub retransmit_tick : ℕ → UdpChannel E → UdpChannel E × List Datagram
  unfolding tick_peer
  retransmit_tick now ch =
      if is_closed ch.state then (ch, []) else tick_peer now ch.peer_endpoint ch

  unfoldable pub close_channel : UdpChannel E → UdpChannel E × List Datagram
  close_channel ch = (record ch { state = closed }, close_packets ch.peer_endpoint)
