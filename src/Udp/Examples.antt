-- ===== src/Udp/Examples.antt =====
-- Packets, a split body, a reassembler that receives it, and a set of candidates.
use tunshell_mcp_agents.Prelude.{
  ◌∷◌, [], ◌≡◌, ◌≢◌, refl, ap, sym, ◌∙◌, none, some, true, List, ℕ, Option, arith, ◌↔◌, ◌<◌, ◌≤◌,
  max, length, replicate, All, any, all, ltb, nat_beq, nat_eq, get_elem?,
}
use tunshell_mcp_agents.Assoc.{lookup}
use tunshell_mcp_agents.Assoc.Keys.{Values}
use tunshell_mcp_agents.Udp.Bytes.{Bytes, chunks, chunks_from}
use tunshell_mcp_agents.Udp.Packet.{UdpPacketHeader, ping}
use tunshell_mcp_agents.Udp.Candidates.{Endpoint}
use tunshell_mcp_agents.Udp.Fragment
use tunshell_mcp_agents.Udp.Fragment.{
  FragmentHeader, split_into_fragments, fragment_count, body_chunks, fragments_from, fragment,
  max_fragmented_body, u16_max,
}
use tunshell_mcp_agents.Udp.Fragment.Split.{split_into_fragments-total}
use tunshell_mcp_agents.Udp.Reassembler.{FragmentReassembler, with_capacity, feed}
use tunshell_mcp_agents.Udp.Reassembler.Bounds.{feed_bounded}
use tunshell_mcp_agents.Udp.Reassembler.Eviction.{IsBounded, IsOpen}
use tunshell_mcp_agents.Udp.Reassembler.Genuine.{IsFrom, AllReturn, feed_genuine}
use tunshell_mcp_agents.Udp.Reassembler.AnyOrder.{fragments_at, reassemble_any_order}

abbrev ping_header : UdpPacketHeader
ping_header = record { packet_type = ping; sequence = 9; payload_len = 1 }

abbrev buffer : Bytes
buffer = replicate 8 0

abbrev endpoint : ℕ → ℕ → Endpoint
endpoint addr port = record { addr = addr; port = port }

-- A body of two fragments.
abbrev body : Bytes
body = replicate 1200 7

split_into_fragments-total_example :
    ((split_into_fragments body 3 ≡ none) ↔ (max_fragmented_body < length body))
    × ((frags : List Bytes)
        → split_into_fragments body 3 ≡ some frags
        → (length frags ≡ fragment_count (length body)) × (length frags ≤ u16_max))
split_into_fragments-total_example = split_into_fragments-total body 3

abbrev frags : List Bytes
frags = fragments_from 3 2 0 (replicate 1192 7 ∷ replicate 8 7 ∷ [])

body_split : split_into_fragments body 3 ≡ some frags
unfolding split_into_fragments fragment_count body_chunks chunks chunks_from
body_split = refl

abbrev pub reassembler : FragmentReassembler
reassembler = with_capacity 4

pub new-IsBounded : IsBounded reassembler
unfolding with_capacity
new-IsBounded = record { unique = tt; within = omega arith; room = omega arith; parts_open = tt }

pub nothing_held : (id : ℕ) → lookup id reassembler.partial ≡ none
unfolding with_capacity lookup
nothing_held id = refl

two_fragments : length frags ≡ 2
unfolding fragments_from
two_fragments = refl

others_sent : (j : ℕ) → j < length frags → j ≢ 0 → any (nat_beq j) (1 ∷ []) ≡ true
others_sent j h ne = ground (arith, two_fragments, h, ne)

reassemble_any_order_example :
    (feed reassembler (fragments_at frags (1 ∷ 0 ∷ []))).1 ≡ none ∷ some body ∷ []
reassemble_any_order_example =
    reassemble_any_order reassembler body 3 frags (1 ∷ []) 0 new-IsBounded (nothing_held 3)
      (omega arith) body_split (omega (arith, two_fragments), tt) (omega (arith, two_fragments))
      refl others_sent

all_bytes : (bs : Bytes) → all (λ b. ltb b 256) bs ≡ true → All (λ b. b < 256) bs
all_bytes [] h = tt
all_bytes (b ∷ bs) h = (ground arith, all_bytes bs (ground arith))

feed_bounded_example :
    let r = (feed (with_capacity 0) ((1 ∷ 2 ∷ []) ∷ [])).0 in
    (length r.partial ≤ max 0 1) × Values IsOpen r.partial
feed_bounded_example = feed_bounded 0 ((1 ∷ 2 ∷ []) ∷ []) (all_bytes (1 ∷ 2 ∷ []) refl, tt)

-- The one fragment of the message 3 whose body is 5, 6.
abbrev payload : Bytes
payload = 0 ∷ 0 ∷ 0 ∷ 3 ∷ 0 ∷ 0 ∷ 0 ∷ 1 ∷ 5 ∷ 6 ∷ []

abbrev count_of : Option (FragmentHeader × Bytes) → ℕ
count_of none = 0
count_of (some (h, chunk)) = h.count

abbrev chunk_at : Option (FragmentHeader × Bytes) → Option Bytes
chunk_at none = none
chunk_at (some (h, chunk)) = get_elem? ((5 ∷ 6 ∷ []) ∷ []) h.index

abbrev only_chunk : Option (FragmentHeader × Bytes) → Option Bytes
only_chunk none = none
only_chunk (some (h, chunk)) = some chunk

payload-IsFrom : IsFrom 3 ((5 ∷ 6 ∷ []) ∷ []) payload
unfolding Fragment.parse
payload-IsFrom = record {
  fits = λ h chunk e m. (sym (ap count_of e), sym (ap chunk_at e) ∙ ap only_chunk e);
}

feed_genuine_example :
    AllReturn 3 (5 ∷ 6 ∷ []) (payload ∷ payload ∷ []) (feed reassembler (payload ∷ payload ∷ [])).1
feed_genuine_example =
    feed_genuine ((5 ∷ 6 ∷ []) ∷ []) 3 reassembler (payload ∷ payload ∷ []) new-IsBounded
      (all_bytes payload refl, (all_bytes payload refl, tt)) (payload-IsFrom, (payload-IsFrom, tt))
      (λ p e. absurd (ground (arith, nothing_held 3, e)))
