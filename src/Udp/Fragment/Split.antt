-- ===== src/Udp/Fragment/Split.antt =====
-- What the fragments of a body are, and which bodies are refused.
use tunshell_mcp_agents.Prelude.{
  ℕ, zero, suc, ◌+◌, ◌%◌, ◌≤◌, ◌<◌, List, [], ◌∷◌, ◌≡◌, refl, ◌∙◌, ap, none, some, arith, length,
  get_elem?, drop_all, concat, replicate, append-nil, length-replicate, ◌↔◌,
}
use tunshell_mcp_agents.Udp.Bytes.{
  Bytes, u16_roundtrip, u32_roundtrip, copy_at, concat-chunks, length-chunks,
}
use tunshell_mcp_agents.Udp.Fragment.{
  FragmentHeader, parse, write, fragment, fragments_from, body_chunks, fragment_count,
  split_into_fragments, fragment_header_size, fragment_chunk_size, u16_max, max_fragmented_body,
}

parse_buffer :
    (h : FragmentHeader) (chunk buf : Bytes)
    → h.msg_id < 4294967296
    → h.index < 65536
    → h.count < 65536
    → length buf ≡ fragment_header_size + length chunk
    → parse (copy_at fragment_header_size chunk (write h buf)) ≡ some (h, chunk)
unfolding parse write
parse_buffer h chunk (a ∷ b ∷ c ∷ d ∷ e ∷ f ∷ g ∷ k ∷ rest) hm hi hc hb =
    rw (drop_all (length chunk) rest (omega arith), append-nil chunk)
      (ground
        (arith, u32_roundtrip h.msg_id hm, u16_roundtrip h.index hi, u16_roundtrip h.count hc))
parse_buffer h chunk buf hm hi hc hb = absurd (omega arith)

-- A fragment is parsed back into its message, its position, the number of fragments and its chunk.
pub parse-fragment :
    (msg_id count i : ℕ) (chunk : Bytes)
    → msg_id < 4294967296
    → i < 65536
    → count < 65536
    → parse (fragment msg_id count i chunk)
      ≡ some (record { msg_id = msg_id; index = i; count = count }, chunk)
unfolding fragment
parse-fragment msg_id count i chunk hm hi hc = rw (let e : i % 65536 ≡ i = omega arith in e) (
    parse_buffer _ chunk (replicate (fragment_header_size + length chunk) 0) hm hi hc
      (length-replicate _ 0))

pub concat-body_chunks : (body : Bytes) → concat (body_chunks body) ≡ body
unfolding body_chunks
concat-body_chunks [] = refl
concat-body_chunks (b ∷ body) = concat-chunks fragment_chunk_size (b ∷ body) (omega arith)

pub length-body_chunks : (body : Bytes) → length (body_chunks body) ≡ fragment_count (length body)
unfolding body_chunks fragment_count
length-body_chunks [] = refl
length-body_chunks (b ∷ body) = ground (arith, length-chunks (b ∷ body))

pub fragment_count_pos : (n : ℕ) → 0 < fragment_count n
unfolding fragment_count
fragment_count_pos n = ground arith

pub length-fragments_from :
    (msg_id count i : ℕ) (cs : List Bytes) → length (fragments_from msg_id count i cs) ≡ length cs
unfolding fragments_from
length-fragments_from msg_id count i [] = refl
length-fragments_from msg_id count i (c ∷ cs) =
    ap suc (length-fragments_from msg_id count (i + 1) cs)

-- The fragment at a position is that of the chunk there.
pub get_elem?-fragments_from :
    (id n k i : ℕ) (cs : List Bytes) (c : Bytes)
    → get_elem? cs i ≡ some c
    → get_elem? (fragments_from id n k cs) i ≡ some (fragment id n (k + i) c)
unfolding fragments_from
get_elem?-fragments_from id n k i [] c e = cc
get_elem?-fragments_from id n k zero (d ∷ cs) c e = ground (arith, e)
get_elem?-fragments_from id n k (suc i) (d ∷ cs) c e =
    get_elem?-fragments_from id n (k + 1) i cs c e
    ∙ ap (λ j. some (fragment id n j c)) (omega arith)

too_many : (n : ℕ) → (u16_max < fragment_count n) ↔ (max_fragmented_body < n)
unfolding fragment_count
too_many n = (λ h. ground arith, λ h. ground arith)

-- A body is split exactly when it has at most `max_fragmented_body` bytes, and then into
-- `fragment_count` fragments, whose number fits the header's 16 bits.
pub split_into_fragments-total :
    (body : Bytes) (msg_id : ℕ)
    → ((split_into_fragments body msg_id ≡ none) ↔ (max_fragmented_body < length body))
      × ((frags : List Bytes)
          → split_into_fragments body msg_id ≡ some frags
          → (length frags ≡ fragment_count (length body)) × (length frags ≤ u16_max))
unfolding split_into_fragments
split_into_fragments-total body msg_id =
    let cs = body_chunks body in
    let n = length cs % 65536 in
    (
      (
        (λ h. (too_many (length body)).0 (ground arith)),
        (λ h. ground (arith, (too_many (length body)).1 h)),
      ),
      λ frags h. ground (arith, length-fragments_from msg_id n 0 cs, length-body_chunks body),
    )

-- The fragments of a body that is split, and that their number fits.
pub split-fragments :
    (body : Bytes) (msg_id : ℕ) (frags : List Bytes)
    → split_into_fragments body msg_id ≡ some frags
    → (length (body_chunks body) < 65536)
      × (frags ≡ fragments_from msg_id (length (body_chunks body)) 0 (body_chunks body))
unfolding split_into_fragments
split-fragments body msg_id frags h =
    let fits : length (body_chunks body) < 65536 = ground (arith, length-body_chunks body) in
    let e : length (body_chunks body) % 65536 ≡ length (body_chunks body) = omega arith in
    (fits, ground (arith, h, e))
