-- ===== src/Udp/Channel/Examples.antt =====
-- A channel with a cipher that puts one byte in front, and timeouts of 200 ms.
use tunshell_mcp_agents.Prelude.{
  ℕ, zero, suc, ◌+◌, ◌<◌, ◌≡◌, ◌≢◌, refl, nat_eq, List, [], ◌∷◌, ◌++◌, Option, none, some, true,
  false, arith, length,
}
use tunshell_mcp_agents.Assoc.{lookup}
use tunshell_mcp_agents.Udp.Bytes.{Bytes}
use tunshell_mcp_agents.Udp.Packet.{data_packet, build_packet}
use tunshell_mcp_agents.Udp.Candidates.{Endpoint}
use tunshell_mcp_agents.Udp.Examples.{reassembler, new-IsBounded, nothing_held}
use tunshell_mcp_agents.Udp.Channel.State.{
  PendingPacket, UdpConfig, Cipher, RttEstimator, UdpChannel, connected, is_closed, sends, max_cwnd,
}
use tunshell_mcp_agents.Udp.Channel.Send.{
  new_channel, window_open, register_packet, register_all, send_encrypted, send_to_peer,
  send_reliable,
}
use tunshell_mcp_agents.Udp.Channel.Recv.{recv_packet}
use tunshell_mcp_agents.Udp.Channel.Sound.{IsSound, IsTracked}
use tunshell_mcp_agents.Udp.Channel.Tick.{retransmit_tick, tick_peer}
use tunshell_mcp_agents.Udp.Channel.Window.{starts, connects, admits, registers, in_flight_bounded}
use tunshell_mcp_agents.Udp.Channel.Retries.{Runs, begins, ticks, unacked_given_up}
use tunshell_mcp_agents.Udp.Channel.Acks.{whole, ack_round_trip, duplicate-delivered_twice}
use tunshell_mcp_agents.Udp.Channel.Delivery.{arrive, deliver_any_order}

abbrev estimator : RttEstimator ℕ
estimator = record { update_rtt = λ e s. s; current_rto = λ e rto. 200 }

abbrev config : UdpConfig
config = record {
  probe_timeout_ms = 5000;
  probe_interval_ms = 100;
  max_probe_attempts = 50;
  keepalive_interval_ms = 10000;
  rto_ms = 200;
  max_retransmissions = 1;
}

abbrev unseal : Bytes → Option Bytes
unseal [] = none
unseal (b ∷ m) = some m

abbrev sealing : Cipher
sealing = record { encrypt_bytes = λ nonce m. some (9 ∷ m); decrypt_bytes = unseal }

abbrev peer : Endpoint
peer = record { addr = 1; port = 2 }

abbrev flight : List (ℕ × PendingPacket) → UdpChannel ℕ
flight pending = record {
  peer_endpoint = some peer;
  state = connected;
  send_seq = 0;
  pending = pending;
  delivered = [];
  frag_msg_id = 0;
  reassembler = reassembler;
  cwnd = 32;
  rtt = 0;
}

abbrev packet : PendingPacket
packet = record { content = []; sequence = 0; sent_at = 0; retries = 0; fast_rtx = false }

abbrev fresh : UdpChannel ℕ
fresh = record (new_channel estimator config sealing 0) {
  peer_endpoint = some peer;
  state = connected;
}

has_room : window_open estimator config sealing fresh ≡ true
unfolding window_open new_channel
has_room = refl

in_flight_bounded_example :
    let ch = (register_packet estimator config sealing 5 data_packet (7 ∷ []) peer fresh).0 in
    IsSound estimator config sealing ch × (length ch.pending + 0 < max_cwnd + 1)
in_flight_bounded_example = in_flight_bounded estimator config sealing 1 _ 0 (
    registers 5 data_packet (7 ∷ []) peer fresh 0 (
      admits fresh 0 (connects peer (new_channel estimator config sealing 0) 0 (starts 0))
        (omega arith) has_room))

abbrev time : ℕ → ℕ
time zero = 0
time (suc n) = time n + 25

tick_stays :
    (now : ℕ) (ch : UdpChannel ℕ)
    → is_closed ch.state ≡ false
    → ch.peer_endpoint ≡ some peer
    → (is_closed (retransmit_tick estimator config sealing now ch).0.state ≡ false)
      × ((retransmit_tick estimator config sealing now ch).0.peer_endpoint ≡ some peer)
unfolding retransmit_tick tick_peer
tick_stays now ch live at = rw (live, at) (live, refl)

looks_up : lookup 0 (flight ((0, packet) ∷ [])).pending ≡ some packet
unfolding lookup
looks_up = refl

-- The channel after ticks that are 25 ms apart.
unfoldable ticked : ℕ → UdpChannel ℕ
ticked zero = flight ((0, packet) ∷ [])
ticked (suc n) = (retransmit_tick estimator config sealing (time n + 25) (ticked n)).0

steady :
    (n : ℕ)
    → (is_closed (ticked n).state ≡ false)
      × ((ticked n).peer_endpoint ≡ some peer)
      × Runs estimator config sealing 25 0 (flight ((0, packet) ∷ [])) 0 (time n) (ticked n)
unfolding ticked
steady zero = (refl, refl, begins)
steady (suc n) =
    let (live, at, r) = steady n in
    let (live', at') = tick_stays (time n + 25) (ticked n) live at in
    (live', at', ticks (time n + 25) (time n) (ticked n) peer r (omega arith) (omega arith) live at)

flight-IsSound : IsSound estimator config sealing (flight ((0, packet) ∷ []))
unfolding IsTracked lookup
flight-IsSound = record {
  not_small = omega arith;
  not_large = omega arith;
  keys = (refl, tt);
  packets = ((refl, omega arith), tt);
}

unacked_given_up_example : lookup 0 (ticked 28).pending ≡ none
unacked_given_up_example =
    unacked_given_up estimator config sealing 200 25 0 (time 28) (flight ((0, packet) ∷ []))
      (ticked 28) packet (λ e. omega arith) flight-IsSound looks_up (steady 28).2 (omega arith)

ack_round_trip_example :
    let (sender', sent) =
      register_packet estimator config sealing 5 data_packet (7 ∷ []) peer (flight []) in
    (ack : Bytes) × ((recv_packet estimator config sealing 6 peer sent.content (flight [])).1
      ≡ record { content = ack; to = peer } ∷ [])
    × (lookup 0 (recv_packet estimator config sealing 7 peer ack sender').0.pending ≡ none)
ack_round_trip_example =
    ack_round_trip estimator config sealing 5 data_packet (7 ∷ []) peer (flight []) 6 peer
      (flight []) 7 peer whole (omega arith)

duplicate-delivered_twice_example :
    let once =
      (recv_packet estimator config sealing 6 peer
        (build_packet data_packet 3 (9 ∷ 7 ∷ []))
        (flight [])).0 in
    (recv_packet estimator config sealing 6 peer
      (build_packet data_packet 3 (9 ∷ 7 ∷ []))
      once).0.delivered
    ≡ (7 ∷ []) ∷ (7 ∷ []) ∷ []
duplicate-delivered_twice_example =
    duplicate-delivered_twice estimator config sealing 6 peer 3 (9 ∷ 7 ∷ []) (7 ∷ []) (flight [])
      (omega arith) refl (λ e. cc) (omega arith)

opens :
    (nonce : ℕ) (message c : Bytes)
    → some (9 ∷ message) ≡ some c
    → (unseal c ≡ some message) × (c ≢ [])
opens nonce message [] e = cc
opens nonce message (b ∷ c) e = (ground (arith, e), λ n. cc)

sends_one :
    send_reliable estimator config sealing 1 (7 ∷ []) (flight [])
    ≡ sends (flight []) ((data_packet, 9 ∷ 7 ∷ []) ∷ []) peer
unfolding send_reliable send_to_peer send_encrypted
sends_one = refl

deliver_any_order_example :
    let sent =
      (register_all estimator config sealing 5 peer
        ((data_packet, 9 ∷ 7 ∷ []) ∷ [])
        (flight [])).1 in
    (arrive estimator config sealing 6 peer sent ([] ++ 0 ∷ []) (flight [])).delivered
    ≡ [] ++ (7 ∷ []) ∷ []
deliver_any_order_example =
    deliver_any_order estimator config sealing opens 1 (7 ∷ []) (flight []) (flight []) (flight [])
      ((data_packet, 9 ∷ 7 ∷ []) ∷ []) peer peer 5 6 [] 0 sends_one (omega arith) (omega arith)
      new-IsBounded (nothing_held 0) tt (omega arith) refl (λ j below other. absurd (omega arith))
