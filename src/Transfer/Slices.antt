-- ===== src/Transfer/Slices.antt =====
-- The slices of a transfer: `stream_file` of transfer.rs cuts a file, `receive_chunk_raw` writes each
-- slice at its offset and cuts the file on the last. A file is the list of its bytes; it does not
-- change while it is sent.
pub mod Positions
pub mod AnyOrder
use tunshell_mcp_agents.Prelude.{
  ℕ, zero, suc, ◌+◌, ◌-◌, min, max, List, [], ◌∷◌, ◌++◌, Option, none, some, Bool, true, false, ltb,
  leb, if◌then◌else◌, length, take, drop, get_elem?, Option-cases,
}
use tunshell_mcp_agents.Udp.Bytes.{Bytes}

-- What is handed to `send_slice`.
pub record Slice : Type 0 where
  pub offset : ℕ
  pub content : Bytes
  pub eof : Bool

-- The bytes that `read_chunk_raw` returns for a range inside the file.
abbrev pub read_slice : Bytes → ℕ → ℕ → Bytes
read_slice content offset want = take want (drop offset content)

abbrev pub with_slice : Slice → Option (List Slice × ℕ) → Option (List Slice × ℕ)
with_slice s none = none
with_slice s (some (slices, last)) = some (s ∷ slices, last)

-- The loop of `stream_file` from an offset: the slices before the last one, and where that starts.
-- `none` is a loop that has run out of fuel.
unfoldable pub slices_from : ℕ → ℕ → Bytes → ℕ → Option (List Slice × ℕ)
slices_from zero chunk content offset = none
slices_from (suc fuel) chunk content offset =
    let size = length content in
    let want = min chunk (size - offset) in
    let rest = slices_from fuel chunk content (offset + want) in
    if ltb offset size
    then if leb size (offset + want)
      then some ([], offset)
      else with_slice
          (record { offset = offset; content = read_slice content offset want; eof = false }) rest
    else some ([], offset)

-- The last slice, which says how long the file is.
abbrev pub last_slice : Bytes → ℕ → Slice
last_slice content offset = record {
  offset = offset;
  content = read_slice content offset (length content - offset);
  eof = true;
}

unfoldable pub stream_slices : ℕ → Bytes → Option (List Slice × ℕ)
unfolding slices_from
stream_slices chunk content = slices_from (length content + 1) (max chunk 1) content 0

-- A write behind a seek: what lies between the end and the offset is filled with zeros.
unfoldable pub write_at : ℕ → Bytes → Bytes → Bytes
write_at zero bytes file = bytes ++ drop (length bytes) file
write_at (suc offset) bytes [] = 0 ∷ write_at offset bytes []
write_at (suc offset) bytes (b ∷ file) = b ∷ write_at offset bytes file

-- `write_all`, which makes no call for an empty slice.
unfoldable pub write_all : ℕ → Bytes → Bytes → Bytes
unfolding write_at
write_all offset [] file = file
write_all offset (b ∷ bytes) file = write_at offset (b ∷ bytes) file

unfoldable pub set_len : ℕ → Bytes → Bytes
set_len zero file = []
set_len (suc n) [] = 0 ∷ set_len n []
set_len (suc n) (b ∷ file) = b ∷ set_len n file

-- What `receive_chunk_raw` does to the file, once its checks have passed.
unfoldable pub write_slice : Slice → Bytes → Bytes
unfolding write_all set_len
write_slice s file =
    let written = write_all s.offset s.content file in
    if s.eof then set_len (s.offset + length s.content) written else written

-- Slices that are written in the order of the given positions.
unfoldable pub write_each : List Slice → List ℕ → Bytes → Bytes
unfolding write_slice
write_each slices [] file = file
write_each slices (i ∷ order) file =
    write_each slices order
      (elim (get_elem? slices i) [ none ↦ file | some s ↦ write_slice s file ])
