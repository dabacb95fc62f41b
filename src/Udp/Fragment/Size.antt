-- ===== src/Udp/Fragment/Size.antt =====
-- A fragment fits into a datagram.
use tunshell_mcp_agents.Prelude.{
  ℕ, zero, suc, ◌+◌, ◌≤◌, List, [], ◌∷◌, ◌≡◌, some, arith, length, All, get_elem?, drop, drop_all,
  replicate, append-nil, length-replicate, length-take, subst, sym,
}
use tunshell_mcp_agents.Udp.Bytes.{Bytes, copy_at, chunks_from, chunks}
use tunshell_mcp_agents.Udp.Packet.{udp_max_payload}
use tunshell_mcp_agents.Udp.Fragment.{
  FragmentHeader, write, fragment, fragments_from, body_chunks, split_into_fragments,
  fragment_header_size,
}
use tunshell_mcp_agents.Udp.Fragment.Split.{split-fragments}

length_buffer :
    (h : FragmentHeader) (chunk buf : Bytes)
    → length buf ≡ fragment_header_size + length chunk
    → length (copy_at fragment_header_size chunk (write h buf))
      ≡ fragment_header_size + length chunk
unfolding write
length_buffer h chunk (a ∷ b ∷ c ∷ d ∷ e ∷ f ∷ g ∷ k ∷ rest) hb =
    rw (drop_all (length chunk) rest (omega (arith, hb)), append-nil chunk) (omega arith)
length_buffer h chunk buf hb = absurd (omega arith)

length-fragment :
    (msg_id count i : ℕ) (chunk : Bytes)
    → length (fragment msg_id count i chunk) ≡ fragment_header_size + length chunk
unfolding fragment
length-fragment msg_id count i chunk =
    length_buffer _ chunk (replicate (fragment_header_size + length chunk) 0) (length-replicate _ 0)

chunks_from-Short :
    (fuel : ℕ) (body : Bytes) → All (λ c. length c ≤ 1192) (chunks_from fuel 1192 body)
unfolding chunks_from
chunks_from-Short zero body = tt
chunks_from-Short (suc fuel) [] = tt
chunks_from-Short (suc fuel) (b ∷ body) =
    (omega (arith, length-take 1192 (b ∷ body)), chunks_from-Short fuel (drop 1192 (b ∷ body)))

body_chunks-Short : (body : Bytes) → All (λ c. length c ≤ 1192) (body_chunks body)
unfolding body_chunks chunks
body_chunks-Short [] = (omega arith, tt)
body_chunks-Short (b ∷ body) = chunks_from-Short (length (b ∷ body)) (b ∷ body)

fragments_from-Short :
    (msg_id count i : ℕ) (cs : List Bytes)
    → All (λ c. length c ≤ 1192) cs
    → All (λ f. length f ≤ udp_max_payload) (fragments_from msg_id count i cs)
unfolding fragments_from
fragments_from-Short msg_id count i [] a = tt
fragments_from-Short msg_id count i (c ∷ cs) a = (
  omega (arith, length-fragment msg_id count i c, a.0),
  fragments_from-Short msg_id count (i + 1) cs a.1,
)

get_elem?-Short :
    (fs : List Bytes) (i : ℕ) (f : Bytes)
    → All (λ f. length f ≤ udp_max_payload) fs
    → get_elem? fs i ≡ some f
    → length f ≤ udp_max_payload
get_elem?-Short [] i f a h = cc
get_elem?-Short (g ∷ fs) zero f a h =
    let same : g ≡ f = ground (arith, h) in subst (λ x. length x ≤ udp_max_payload) same a.0
get_elem?-Short (g ∷ fs) (suc i) f a h = get_elem?-Short fs i f a.1 h

pub split-Short :
    (body : Bytes) (msg_id : ℕ) (frags : List Bytes) (i : ℕ) (f : Bytes)
    → split_into_fragments body msg_id ≡ some frags
    → get_elem? frags i ≡ some f
    → length f ≤ udp_max_payload
split-Short body msg_id frags i f split here =
    let (fits, same) = split-fragments body msg_id frags split in
    get_elem?-Short frags i f
      (subst (λ fs. All (λ f. length f ≤ udp_max_payload) fs) (sym same)
        (fragments_from-Short msg_id (length (body_chunks body)) 0 (body_chunks body)
          (body_chunks-Short body)))
      here
