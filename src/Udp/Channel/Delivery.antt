-- ===== src/Udp/Channel/Delivery.antt =====
-- A message from `send_reliable` of one end to the queue of the other.
use tunshell_mcp_agents.Prelude.{
  ℕ, zero, suc, ◌<◌, ◌≤◌, ◌≡◌, ◌≢◌, refl, sym, ap, ◌∙◌, List, [], ◌∷◌, ◌++◌, map, Option, none,
  some, true, false, leb, nat_beq, nat_eq, length, arith, Bool-cases, inl, inr, ◌⊎◌, Option-cases,
  subst, replicate, get_elem?, All, All-append, any, append_assoc, append-nil, length-map,
}
use tunshell_mcp_agents.Assoc.{lookup}
use tunshell_mcp_agents.Udp.Bytes.{Bytes}
use tunshell_mcp_agents.Udp.Packet.{
  UdpPacketType, data_packet, data_fragment, udp_max_payload, build_packet,
}
use tunshell_mcp_agents.Udp.Fragment
use tunshell_mcp_agents.Udp.Fragment.{split_into_fragments}
use tunshell_mcp_agents.Udp.Candidates.{Endpoint}
use tunshell_mcp_agents.Udp.Reassembler.{FragmentReassembler, insert_payload, feed}
use tunshell_mcp_agents.Udp.Reassembler.Eviction.{IsBounded}
use tunshell_mcp_agents.Udp.Reassembler.AnyOrder.{
  reassemble_any_order, fragments_at, fragments_at-cons,
}
use tunshell_mcp_agents.Udp.Channel.State.{
  UdpConfig, Cipher, RttEstimator, UdpChannel, Datagram, sends, is_connected, as_fragment,
}
use tunshell_mcp_agents.Udp.Channel.Send.{
  register_packet, register_all, send_fragments, send_encrypted, send_to_peer, send_reliable,
}
use tunshell_mcp_agents.Udp.Channel.Recv.{
  adopt_peer, deliver, deliver_body, on_fragment, on_packet, recv_packet,
}
use tunshell_mcp_agents.Udp.Fragment.Size.{split-Short}
use tunshell_mcp_agents.Udp.Channel.Acks.{recv-build_packet, data_step}

get_elem?_inside :
    {A : Type 0} (i : ℕ) (xs : List A) → i < length xs → (x : A) × (get_elem? xs i ≡ some x)
get_elem?_inside i [] h = absurd (omega arith)
get_elem?_inside zero (x ∷ xs) h = (x, refl)
get_elem?_inside (suc i) (x ∷ xs) h = get_elem?_inside i xs (omega arith)

module _ {E : Type 0} (est : RttEstimator E) (cfg : UdpConfig) (cipher : Cipher) where
  -- What is delivered of the bodies that the reassembler returns.
  abbrev opened_body : Option Bytes → List Bytes
  opened_body none = []
  opened_body (some message) = message ∷ []

  opened : List (Option Bytes) → List Bytes
  opened [] = []
  opened (none ∷ outs) = opened outs
  opened (some body ∷ outs) = opened_body (cipher.decrypt_bytes body) ++ opened outs

  -- Datagrams that arrive, by their positions in what was sent.
  unfoldable pub arrive_one : ℕ → Endpoint → Option Datagram → UdpChannel E → UdpChannel E
  unfolding recv_packet
  arrive_one now from none ch = ch
  arrive_one now from (some d) ch = (recv_packet est cfg cipher now from d.content ch).0

  unfoldable pub arrive : ℕ → Endpoint → List Datagram → List ℕ → UdpChannel E → UdpChannel E
  unfolding arrive_one
  arrive now from sent [] ch = ch
  arrive now from sent (i ∷ order) ch =
      arrive now from sent order (arrive_one now from (get_elem? sent i) ch)

  get_elem?-register_all :
      (now : ℕ) (peer : Endpoint) (packets : List (UdpPacketType × Bytes)) (ch : UdpChannel E)
      (i : ℕ) (t : UdpPacketType) (payload : Bytes)
      → ch.send_seq < 4294967296
      → get_elem? packets i ≡ some (t, payload)
      → (seq : ℕ) × (seq < 4294967296)
        × (get_elem? (register_all est cfg cipher now peer packets ch).1 i
            ≡ some (record { content = build_packet t seq payload; to = peer }))
  unfolding register_all register_packet
  get_elem?-register_all now peer [] ch i t payload hs h = cc
  get_elem?-register_all now peer (p ∷ packets) ch zero t payload hs h =
      (ch.send_seq, hs, ground (arith, h))
  get_elem?-register_all now peer (p ∷ packets) ch (suc i) t payload hs h =
      get_elem?-register_all now peer packets (register_packet est cfg cipher now p.0 p.1 peer ch).0
        i t payload (omega arith) h

  -- What a channel holds after a body was handed on, or none was there.
  Follows : FragmentReassembler → Option Bytes → UdpChannel E → UdpChannel E → Type 0
  Follows r out ch next =
      (next.reassembler ≡ r) × (next.delivered ≡ ch.delivered ++ opened (out ∷ []))

  deliver-Follows :
      (from : Endpoint) (body : Bytes) (ch : UdpChannel E)
      → Follows ch.reassembler
          (some body)
          ch
          (deliver est cfg cipher from (cipher.decrypt_bytes body) ch)
  unfolding Follows deliver adopt_peer opened
  deliver-Follows from body ch = elim (Option-cases (cipher.decrypt_bytes body)) [
    | inl e ↦ rw e (refl, sym (append-nil ch.delivered))
    | inr (m, e) ↦ rw e (refl, refl)
  ]

  deliver_body-Follows :
      (from : Endpoint) (out : Option Bytes) (ch : UdpChannel E)
      → Follows ch.reassembler out ch (deliver_body est cfg cipher from out ch)
  unfolding Follows deliver_body opened
  deliver_body-Follows from none ch = (refl, sym (append-nil ch.delivered))
  deliver_body-Follows from (some body) ch = deliver-Follows from body ch

  on_fragment-Follows :
      (from : Endpoint) (payload : Bytes) (ch : UdpChannel E)
      → Follows
          (insert_payload ch.reassembler payload).0
          (insert_payload ch.reassembler payload).1
          ch
          (on_fragment est cfg cipher from payload ch)
  unfolding Follows on_fragment opened insert_payload Fragment.parse
  on_fragment-Follows from [] ch = (refl, sym (append-nil ch.delivered))
  on_fragment-Follows from (b ∷ payload) ch =
      deliver_body-Follows from (insert_payload ch.reassembler (b ∷ payload)).1
        (record ch { reassembler = (insert_payload ch.reassembler (b ∷ payload)).0 })

  -- The datagrams carry these fragments, each in its place.
  abbrev Carries : Endpoint → List Datagram → List Bytes → Type 0
  Carries peer sent frags =
      (i : ℕ) (payload : Bytes)
      → get_elem? frags i ≡ some payload
      → (seq : ℕ) × (seq < 4294967296)
        × (length payload ≤ udp_max_payload)
        × (get_elem? sent i
            ≡ some (record { content = build_packet data_fragment seq payload; to = peer }))

  opened-cons :
      (out : Option Bytes) (outs : List (Option Bytes))
      → opened (out ∷ []) ++ opened outs ≡ opened (out ∷ outs)
  unfolding opened
  opened-cons none outs = refl
  opened-cons (some body) outs =
      ap (λ m. m ++ opened outs) (append-nil (opened_body (cipher.decrypt_bytes body)))

  arrive-cons :
      (now : ℕ) (from peer : Endpoint) (sent : List Datagram) (order : List ℕ) (i seq : ℕ)
      (payload : Bytes) (ch : UdpChannel E)
      → seq < 4294967296
      → length payload ≤ udp_max_payload
      → get_elem? sent i
        ≡ some (record { content = build_packet data_fragment seq payload; to = peer })
      → arrive now from sent (i ∷ order) ch
        ≡ arrive now from sent order (on_fragment est cfg cipher from payload ch)
  unfolding arrive arrive_one on_packet
  arrive-cons now from peer sent order i seq payload ch hs fits here =
      ap (λ o. arrive now from sent order (arrive_one now from o ch)) here
      ∙ ap (λ x. arrive now from sent order x.0)
          (recv-build_packet est cfg cipher now from data_fragment seq payload ch hs fits)

  feed-cons :
      (r : FragmentReassembler) (frags : List Bytes) (order : List ℕ) (i : ℕ) (payload : Bytes)
      → get_elem? frags i ≡ some payload
      → (feed r (fragments_at frags (i ∷ order))).1
        ≡ (insert_payload r payload).1
          ∷ (feed (insert_payload r payload).0 (fragments_at frags order)).1
  unfolding feed
  feed-cons r frags order i payload at =
      ap (λ ps. (feed r ps).1) (fragments_at-cons frags order i payload at)

  arrive-fragments :
      (now : ℕ) (from peer : Endpoint) (sent : List Datagram) (frags : List Bytes)
      → Carries peer sent frags
      → (order : List ℕ) (ch : UdpChannel E) → All (λ i. i < length frags) order
      → (arrive now from sent order ch).delivered
        ≡ ch.delivered ++ opened (feed ch.reassembler (fragments_at frags order)).1
  unfolding arrive feed opened Follows
  arrive-fragments now from peer sent frags carries [] ch inside = sym (append-nil ch.delivered)
  arrive-fragments now from peer sent frags carries (i ∷ order) ch inside =
      let (payload, at) = get_elem?_inside i frags inside.0 in
      let (seq, hs, fits, here) = carries i payload at in
      let r = (insert_payload ch.reassembler payload).0 in
      let out = (insert_payload ch.reassembler payload).1 in
      let outs = (feed r (fragments_at frags order)).1 in
      let next = on_fragment est cfg cipher from payload ch in
      let (same, added) = on_fragment-Follows from payload ch in
      ap (λ x. x.delivered) (arrive-cons now from peer sent order i seq payload ch hs fits here)
      ∙ arrive-fragments now from peer sent frags carries order next inside.1
      ∙ ap (λ s. next.delivered ++ opened (feed s (fragments_at frags order)).1) same
      ∙ ap (λ d. d ++ opened outs) added
      ∙ append_assoc ch.delivered (opened (out ∷ [])) (opened outs)
      ∙ ap (λ m. ch.delivered ++ m) (opened-cons out outs)
      ∙ ap (λ os. ch.delivered ++ opened os)
          (sym (feed-cons ch.reassembler frags order i payload at))

  opened_last :
      (n : ℕ) (body message : Bytes)
      → cipher.decrypt_bytes body ≡ some message
      → opened (replicate n none ++ some body ∷ []) ≡ message ∷ []
  unfolding opened
  opened_last zero body message d = rw d refl
  opened_last (suc n) body message d = opened_last n body message d

  -- How `send_reliable` succeeds: with one packet, or with the fragments of the ciphertext.
  Sent : ℕ → Bytes → UdpChannel E → UdpChannel E → List (UdpPacketType × Bytes) → Type 0
  Sent nonce message ch ch' packets =
      (c : Bytes) × (cipher.encrypt_bytes nonce message ≡ some c)
      × (ch'.send_seq ≡ ch.send_seq)
      × (((packets ≡ (data_packet, c) ∷ []) × (length c ≤ udp_max_payload))
          ⊎ ((frags : List Bytes) × (split_into_fragments c ch.frag_msg_id ≡ some frags)
              × (packets ≡ map as_fragment frags)))

  send_encrypted-Sent :
      (nonce : ℕ) (message : Bytes) (to : Endpoint) (ch ch' : UdpChannel E)
      (packets : List (UdpPacketType × Bytes)) (peer : Endpoint) (o : Option Bytes)
      → cipher.encrypt_bytes nonce message ≡ o
      → send_encrypted est cfg cipher to ch o ≡ sends ch' packets peer
      → Sent nonce message ch ch' packets
  unfolding Sent send_encrypted send_fragments
  send_encrypted-Sent nonce message to ch ch' packets peer none e h = cc
  send_encrypted-Sent nonce message to ch ch' packets peer (some c) e h =
      elim (Bool-cases (leb (length c) udp_max_payload)) [
        | inl small ↦
            (c, e, ground (arith, small, h), inl (ground (arith, small, h), ground (arith, small)))
        | inr large ↦ elim (Option-cases (split_into_fragments c ch.frag_msg_id)) [
          | inl s ↦ absurd (ground (arith, large, h, s))
          | inr (frags, s) ↦
              (c, e, ground (arith, large, h, s), inr (frags, s, ground (arith, large, h, s)))
        ]
      ]

  send_reliable-Sent :
      (nonce : ℕ) (message : Bytes) (ch ch' : UdpChannel E) (packets : List (UdpPacketType × Bytes))
      (peer : Endpoint)
      → send_reliable est cfg cipher nonce message ch ≡ sends ch' packets peer
      → Sent nonce message ch ch' packets
  unfolding send_reliable send_to_peer
  send_reliable-Sent nonce message ch ch' packets peer h =
      elim (Bool-cases (is_connected ch.state)) [
        | inr off ↦ absurd (ground (arith, off, h))
        | inl on ↦ elim (Option-cases ch.peer_endpoint) [
          | inl nowhere ↦ absurd (ground (arith, on, nowhere, h))
          | inr (to, known) ↦
              let here : send_reliable est cfg cipher nonce message ch
                  ≡ send_encrypted est cfg cipher to ch (cipher.encrypt_bytes nonce message) =
                rw (on, known) refl in
              send_encrypted-Sent nonce message to ch ch' packets peer
                (cipher.encrypt_bytes nonce message) refl (sym here ∙ h)
        ]
      ]

  get_elem?-as_fragment :
      (frags : List Bytes) (i : ℕ) (payload : Bytes)
      → get_elem? frags i ≡ some payload
      → get_elem? (map as_fragment frags) i ≡ some (data_fragment, payload)
  get_elem?-as_fragment [] i payload h = cc
  get_elem?-as_fragment (f ∷ frags) zero payload h = ground (arith, h)
  get_elem?-as_fragment (f ∷ frags) (suc i) payload h = get_elem?-as_fragment frags i payload h

  whole_arrives :
      (sender receiver : UdpChannel E) (c message : Bytes) (peer from : Endpoint) (now later : ℕ)
      (order : List ℕ) (last : ℕ)
      → sender.send_seq < 4294967296
      → cipher.decrypt_bytes c ≡ some message
      → c ≢ []
      → length c ≤ udp_max_payload
      → All (λ i. i < 1) order
      → last < 1
      → any (nat_beq last) order ≡ false
      → (arrive later from
          (register_all est cfg cipher now peer ((data_packet, c) ∷ []) sender).1
          (order ++ last ∷ [])
          receiver).delivered
        ≡ receiver.delivered ++ message ∷ []
  unfolding arrive arrive_one register_all register_packet
  whole_arrives sender receiver c message peer from now later [] zero hs d full fits inside lt
        once =
      ap (λ x. x.delivered)
        (data_step est cfg cipher later from sender.send_seq c message receiver hs d full fits)
  whole_arrives sender receiver c message peer from now later [] (suc n) hs d full fits inside lt
        once =
      absurd (omega arith)
  whole_arrives sender receiver c message peer from now later (i ∷ order) last hs d full fits inside
        lt once =
      absurd (ground (arith, inside.0, once))

  parts_arrive :
      (sender receiver : UdpChannel E) (c message : Bytes) (id : ℕ) (frags : List Bytes)
      (peer from : Endpoint) (now later : ℕ) (order : List ℕ) (last : ℕ)
      → sender.send_seq < 4294967296
      → id < 4294967296
      → cipher.decrypt_bytes c ≡ some message
      → split_into_fragments c id ≡ some frags
      → IsBounded receiver.reassembler
      → lookup id receiver.reassembler.partial ≡ none
      → All (λ i. i < length frags) order
      → last < length frags
      → any (nat_beq last) order ≡ false
      → ((j : ℕ) → j < length frags → j ≢ last → any (nat_beq j) order ≡ true)
      → (arrive later from
          (register_all est cfg cipher now peer (map as_fragment frags) sender).1
          (order ++ last ∷ [])
          receiver).delivered
        ≡ receiver.delivered ++ message ∷ []
  parts_arrive sender receiver c message id frags peer from now later order last hs hid d split v
        free inside lt once rest =
      let packets = map as_fragment frags in
      let sent = (register_all est cfg cipher now peer packets sender).1 in
      let carries : Carries peer sent frags = λ i payload at.
        let (seq, hs', here) =
          get_elem?-register_all now peer packets sender i data_fragment payload hs
            (get_elem?-as_fragment frags i payload at) in
        (seq, hs', split-Short c id frags i payload split at, here) in
      arrive-fragments later from peer (register_all est cfg cipher now peer packets sender).1 frags
        carries (order ++ last ∷ []) receiver
        (All-append (λ i. i < length frags) order (last ∷ []) inside (lt, tt))
      ∙ ap (λ outs. receiver.delivered ++ opened outs)
          (reassemble_any_order receiver.reassembler c id frags order last v free hid split inside
            lt once rest)
      ∙ ap (λ m. receiver.delivered ++ m) (opened_last (length order) c message d)

  -- End to end, over a network that reorders and repeats: `send_reliable` at one end makes a list
  -- of packets, which are registered and sent. Let them arrive at a channel that holds
  -- nothing yet of a message with that id, in any order, each at least once, and the last to
  -- arrive for the first time then. After that the receiver has delivered exactly the message,
  -- once, behind what it had delivered before. The cipher opens what it sealed and seals nothing
  -- to an empty text; both counters are 32-bit numbers.
  pub deliver_any_order :
      ((nonce : ℕ) (message c : Bytes)
        → cipher.encrypt_bytes nonce message ≡ some c
        → (cipher.decrypt_bytes c ≡ some message) × (c ≢ []))
      → (nonce : ℕ) (message : Bytes) (sender sender' receiver : UdpChannel E)
        (packets : List (UdpPacketType × Bytes)) (peer from : Endpoint) (now later : ℕ)
        (order : List ℕ) (last : ℕ)
      → send_reliable est cfg cipher nonce message sender ≡ sends sender' packets peer
      → sender.send_seq < 4294967296
      → sender.frag_msg_id < 4294967296
      → IsBounded receiver.reassembler
      → lookup sender.frag_msg_id receiver.reassembler.partial ≡ none
      → All (λ i. i < length packets) order
      → last < length packets
      → any (nat_beq last) order ≡ false
      → ((j : ℕ) → j < length packets → j ≢ last → any (nat_beq j) order ≡ true)
      → let sent = (register_all est cfg cipher now peer packets sender').1 in
        (arrive later from sent (order ++ last ∷ []) receiver).delivered
        ≡ receiver.delivered ++ message ∷ []
  unfolding Sent
  deliver_any_order opens nonce message sender sender' receiver packets peer from now later order
        last h hs hid v free inside lt once rest =
      let (c, e, seq_same, how) = send_reliable-Sent nonce message sender sender' packets peer h in
      let (d, full) = opens nonce message c e in
      let hs' : sender'.send_seq < 4294967296 = rw seq_same hs in
      let Delivers : List (UdpPacketType × Bytes) → Type 0 = λ ps.
        All (λ i. i < length ps) order
        → last < length ps
        → ((j : ℕ) → j < length ps → j ≢ last → any (nat_beq j) order ≡ true)
        → (arrive later from (register_all est cfg cipher now peer ps sender').1
            (order ++ last ∷ []) receiver).delivered
          ≡ receiver.delivered ++ message ∷ [] in
      elim how [
        | inl (p, fits) ↦
            subst Delivers (sym p)
              (λ inside lt rest.
                whole_arrives sender' receiver c message peer from now later order last hs' d full
                  fits inside lt once)
              inside lt rest
        | inr (frags, split, p) ↦
            let n : length (map as_fragment frags) ≡ length frags = length-map as_fragment frags in
            subst Delivers (sym p)
              (λ inside lt rest.
                parts_arrive sender' receiver c message sender.frag_msg_id frags peer from now later
                  order last hs' hid d split v free (subst (λ k. All (λ i. i < k) order) n inside)
                  (subst (λ k. last < k) n lt) once (λ j below other. rest j (rw n below) other))
              inside lt rest
      ]
