-- ===== src/Udp/Channel/Deadline.antt =====
-- One packet in flight, from tick to tick: the retransmissions and the time it has left.
use tunshell_mcp_agents.Prelude.{
  ℕ, zero, suc, Bool, ◌+◌, ◌-◌, ◌≤◌, ◌<◌, ◌≡◌, refl, ◌*◌, All, map, [], ◌∷◌, Option, none, some,
  true, false, ltb, leb, nat_beq, nat_eq, if◌then◌else◌, arith, Bool-cases, inl, inr, subst,
}
use tunshell_mcp_agents.Assoc.{Assoc, lookup, UniqueKeys}
use tunshell_mcp_agents.Udp.Candidates.{Endpoint}
use tunshell_mcp_agents.Udp.Channel.State.{
  PendingPacket, UdpConfig, Cipher, RttEstimator, UdpChannel, is_closed, is_expired, on_value,
  fast_retransmit, is_lost,
}
use tunshell_mcp_agents.Udp.Channel.Tick.{
  tick_peer, retransmit_tick, is_abandoned, is_resent, retransmit, tick_pending,
}
use tunshell_mcp_agents.Udp.Channel.Sound.{lookup_ticked, IsTracked}

-- What a tick makes of one packet.
unfoldable pub tick_entry : UdpConfig → ℕ → ℕ → Option PendingPacket → Option PendingPacket
tick_entry cfg now rto none = none
tick_entry cfg now rto (some p) =
    if is_abandoned cfg now rto p then none else some (retransmit cfg now rto p)

lookup-tick_pending :
    (cfg : UdpConfig) (now rto k : ℕ) (m : Assoc ℕ PendingPacket)
    → UniqueKeys m
    → lookup k (tick_pending cfg now rto m) ≡ tick_entry cfg now rto (lookup k m)
unfolding lookup tick_pending tick_entry
lookup-tick_pending cfg now rto k [] u = refl
lookup-tick_pending cfg now rto k ((j, p) ∷ m) u = elim (Bool-cases (nat_beq j k)) [
  | inl e ↦
      let same : j ≡ k = ground (arith, e) in
      elim (Bool-cases (is_abandoned cfg now rto p)) [
        | inl a ↦
            rw (e, a) (lookup_ticked cfg now rto k m (subst (λ i. lookup i m ≡ none) same u.0))
        | inr a ↦ rw (a, e) (rw a refl)
      ]
  | inr e ↦ elim (Bool-cases (is_abandoned cfg now rto p)) [
    | inl a ↦ rw (e, a) (lookup-tick_pending cfg now rto k m u.1)
    | inr a ↦ rw (a, e) (lookup-tick_pending cfg now rto k m u.1)
  ]
]

-- What a map over the values makes of one packet.
abbrev pub mapped : (PendingPacket → PendingPacket) → Option PendingPacket → Option PendingPacket
mapped f none = none
mapped f (some p) = some (f p)

pub lookup-map :
    (f : PendingPacket → PendingPacket) (k : ℕ) (m : Assoc ℕ PendingPacket)
    → lookup k (map (on_value f) m) ≡ mapped f (lookup k m)
unfolding lookup
lookup-map f k [] = refl
lookup-map f k ((j, p) ∷ m) = ground (arith, lookup-map f k m)

pub lookup-All :
    (P : ℕ × PendingPacket → Type 0) (k : ℕ) (m : Assoc ℕ PendingPacket) (p : PendingPacket)
    → All P m
    → lookup k m ≡ some p
    → P (k, p)
unfolding lookup
lookup-All P k [] p a h = cc
lookup-All P k ((j, q) ∷ m) p a h = elim (Bool-cases (nat_beq j k)) [
  | inl e ↦
      let key : j ≡ k = ground (arith, e) in
      let value : q ≡ p = ground (arith, e, h) in
      subst (λ v. P (k, v)) value (subst (λ i. P (i, q)) key a.0)
  | inr e ↦ lookup-All P k m p a.1 (ground (arith, e, h))
]

module _ {E : Type 0} (est : RttEstimator E) (cfg : UdpConfig) (cipher : Cipher) where
  -- What a tick makes of a packet of a channel that is open and has a peer.
  pub lookup-retransmit_tick :
      (now : ℕ) (ch : UdpChannel E) (peer : Endpoint) (k : ℕ)
      → is_closed ch.state ≡ false
      → ch.peer_endpoint ≡ some peer
      → UniqueKeys ch.pending
      → lookup k (retransmit_tick est cfg cipher now ch).0.pending
        ≡ tick_entry cfg now (est.current_rto ch.rtt cfg.rto_ms) (lookup k ch.pending)
  unfolding retransmit_tick tick_peer
  lookup-retransmit_tick now ch peer k live at u =
      rw (live, at) (lookup-tick_pending cfg now _ k ch.pending u)

  -- A packet that is still in flight has retransmissions left, `slots`, and time for each.
  unfoldable pub Hopeful : ℕ → ℕ → ℕ → ℕ → PendingPacket → Type 0
  Hopeful deadline longest step last p =
      (slots : ℕ) × (slots + p.retries ≡ cfg.max_retransmissions + 2)
      × (p.sent_at + slots * (longest + step) ≤ deadline)
      × (last ≤ p.sent_at + longest)

  -- Sent again, it has one slot less.
  again-Hopeful :
      (deadline longest step last now : ℕ) (early : Bool) (p : PendingPacket)
      → last ≤ now
      → now ≤ last + step
      → p.retries ≤ cfg.max_retransmissions
      → Hopeful deadline longest step last p
      → Hopeful deadline longest step now
          (record p { retries = p.retries + 1; sent_at = now; fast_rtx = early })
  unfolding Hopeful
  again-Hopeful deadline longest step last now early p late soon few (zero, count, time, recent) =
      absurd (omega (arith, count, few))
  again-Hopeful deadline longest step last now early p late soon few (suc n, count, time, recent) =
      (n, omega (arith, count), omega (arith, time, recent, soon), omega arith)

  pub tick-Hopeful :
      (deadline longest step last now rto : ℕ) (p p' : PendingPacket)
      → rto ≤ longest
      → last ≤ now
      → now ≤ last + step
      → Hopeful deadline longest step last p
      → tick_entry cfg now rto (some p) ≡ some p'
      → Hopeful deadline longest step now p'
  unfolding Hopeful tick_entry is_abandoned retransmit is_resent is_expired
  tick-Hopeful deadline longest step last now rto p p' short late soon hope h =
      let again = record p { retries = p.retries + 1; sent_at = now; fast_rtx = false } in
      elim (Bool-cases (ltb rto (now - p.sent_at))) [
        | inr waits ↦
            let same : p ≡ p' = ground (arith, waits, h) in
            let (slots, count, time, recent) = hope in
            subst (Hopeful deadline longest step now) same
              (slots, count, time, ground (arith, waits, short))
        | inl expired ↦ elim (Bool-cases (leb cfg.max_retransmissions p.retries)) [
          | inl spent ↦ absurd (ground (arith, expired, spent, h))
          | inr left ↦
              let same : again ≡ p' = ground (arith, expired, left, h) in
              subst (Hopeful deadline longest step now) same (
                again-Hopeful deadline longest step last now false p late soon
                  (ground (arith, left)) hope)
        ]
      ]

  pub fast-Hopeful :
      (deadline longest step last now acked k : ℕ) (p : PendingPacket)
      → last ≤ now
      → now ≤ last + step
      → IsTracked cfg (k, p)
      → Hopeful deadline longest step last p
      → Hopeful deadline longest step last (fast_retransmit now acked p)
  unfolding Hopeful fast_retransmit is_lost IsTracked
  fast-Hopeful deadline longest step last now acked k p late soon tracked hope =
      elim (Bool-cases (is_lost acked p)) [
        | inr kept ↦ rw kept hope
        | inl lost ↦
            let (slots, count, time, recent) =
              again-Hopeful deadline longest step last now true p late soon
                (ground (arith, lost, tracked.1)) hope in
            rw lost (slots, count, time, omega (arith, recent, late))
      ]

  -- A tick as late as the deadline leaves no packet that has a slot.
  pub past_deadline :
      (deadline longest step last k : ℕ) (p : PendingPacket)
      → IsTracked cfg (k, p)
      → deadline < last
      → Hopeful deadline longest step last p
      → ⊥
  unfolding Hopeful IsTracked
  past_deadline deadline longest step last k p tracked late (zero, count, time, recent) =
      ground (arith, tracked.1, count)
  past_deadline deadline longest step last k p tracked late (suc n, count, time, recent) =
      omega (arith, late, time, recent)
