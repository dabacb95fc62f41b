-- ===== src/Udp/Fragment.antt =====
-- Fragmentation of udp.rs: `FragmentHeader`, `fragment_count`, `split_into_fragments`.
pub mod Split
pub mod Size
use tunshell_mcp_agents.Prelude.{
  ℕ, zero, suc, ◌+◌, ◌-◌, ◌*◌, ◌/◌, ◌%◌, List, [], ◌∷◌, Option, none, some, ltb, nat_beq,
  if◌then◌else◌, length, drop, replicate,
}
use tunshell_mcp_agents.Udp.Bytes.{
  Bytes, to_be_u16, to_be_u32, from_be_u16, from_be_u32, byte_at, copy_at, chunks,
}

abbrev pub fragment_header_size : ℕ
fragment_header_size = 8

-- UDP_MAX_PAYLOAD - FRAGMENT_HEADER_SIZE
abbrev pub fragment_chunk_size : ℕ
fragment_chunk_size = 1192

abbrev pub u16_max : ℕ
u16_max = 65535

abbrev pub max_fragmented_body : ℕ
max_fragmented_body = 65535 * 1192

pub record FragmentHeader : Type 0 where
  pub msg_id : ℕ
  pub index : ℕ
  pub count : ℕ

unfoldable pub parse : Bytes → Option (FragmentHeader × Bytes)
parse buf =
    if ltb (length buf) fragment_header_size
    then none
    else some (
      record {
        msg_id = from_be_u32 (byte_at buf 0) (byte_at buf 1) (byte_at buf 2) (byte_at buf 3);
        index = from_be_u16 (byte_at buf 4) (byte_at buf 5);
        count = from_be_u16 (byte_at buf 6) (byte_at buf 7);
      },
      drop fragment_header_size buf,
    )

unfoldable pub write : FragmentHeader → Bytes → Bytes
write h buf =
    copy_at 6 (to_be_u16 h.count)
      (copy_at 4 (to_be_u16 h.index) (copy_at 0 (to_be_u32 h.msg_id) buf))

unfoldable pub fragment_count : ℕ → ℕ
fragment_count len =
    if nat_beq len 0 then 1 else (len + (fragment_chunk_size - 1)) / fragment_chunk_size

-- One fragment payload; `i as u16` and `chunks.len() as u16` wrap.
unfoldable pub fragment : ℕ → ℕ → ℕ → Bytes → Bytes
fragment msg_id count i chunk = copy_at fragment_header_size chunk (
    write (record { msg_id = msg_id; index = i % 65536; count = count })
      (replicate (fragment_header_size + length chunk) 0))

-- `enumerate().map(...)` from position `i`.
unfoldable pub fragments_from : ℕ → ℕ → ℕ → List Bytes → List Bytes
fragments_from msg_id count i [] = []
fragments_from msg_id count i (c ∷ rest) =
    fragment msg_id count i c ∷ fragments_from msg_id count (i + 1) rest

unfoldable pub body_chunks : Bytes → List Bytes
body_chunks [] = [] ∷ []
body_chunks (b ∷ body) = chunks fragment_chunk_size (b ∷ body)

unfoldable pub split_into_fragments : Bytes → ℕ → Option (List Bytes)
split_into_fragments body msg_id =
    if ltb u16_max (fragment_count (length body))
    then none
    else some (fragments_from msg_id (length (body_chunks body) % 65536) 0 (body_chunks body))
