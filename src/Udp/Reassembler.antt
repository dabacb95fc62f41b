-- ===== src/Udp/Reassembler.antt =====
-- `FragmentReassembler` of udp.rs. The maps are association lists; `u64` ticks wrap.
pub mod Eviction
pub mod Bounds
pub mod Genuine
pub mod AnyOrder
use tunshell_mcp_agents.Prelude.{
  ℕ, zero, suc, ◌+◌, ◌%◌, ◌^◌, max, List, [], ◌∷◌, ◌++◌, Option, none, some, Bool, not, ◌&&◌, ◌||◌,
  ltb, leb, nat_beq, nat_eq, if◌then◌else◌, length,
}
use tunshell_mcp_agents.Assoc.{Assoc, lookup, insert, remove, contains_key}
use tunshell_mcp_agents.Udp.Bytes.{Bytes}
use tunshell_mcp_agents.Udp.Fragment
use tunshell_mcp_agents.Udp.Fragment.{FragmentHeader}

abbrev pub max_partial_messages : ℕ
max_partial_messages = 256

pub record Partial : Type 0 where
  pub count : ℕ
  pub parts : Assoc ℕ Bytes
  pub last_touched : ℕ

pub record FragmentReassembler : Type 0 where
  pub partial : Assoc ℕ Partial
  pub tick : ℕ
  pub max_messages : ℕ

unfoldable pub with_capacity : ℕ → FragmentReassembler
with_capacity max_messages = record { partial = []; tick = 0; max_messages = max max_messages 1 }

-- `min_by_key(last_touched)`: the first entry of the least tick.
pub oldest : Assoc ℕ Partial → Option (ℕ × ℕ)
oldest [] = none
oldest ((k, p) ∷ m) = elim (oldest m) [
  | none ↦ some (k, p.last_touched)
  | some (j, t) ↦ if leb p.last_touched t then some (k, p.last_touched) else some (j, t)
]

pub evict_oldest : Assoc ℕ Partial → Assoc ℕ Partial
evict_oldest m = elim (oldest m) [ none ↦ m | some (k, t) ↦ remove k m ]

-- The room that `insert` makes before a message that is not there yet.
pub make_room : FragmentReassembler → ℕ → Assoc ℕ Partial
make_room r msg_id =
    if not (contains_key msg_id r.partial) && leb r.max_messages (length r.partial)
    then evict_oldest r.partial
    else r.partial

-- `entry(msg_id).or_insert_with(..)`, then the reset on another count.
pub entry_for : Assoc ℕ Partial → FragmentHeader → ℕ → Partial
entry_for m h tick = elim (lookup h.msg_id m) [
  | none ↦ record { count = h.count; parts = []; last_touched = tick }
  | some p ↦ if nat_beq p.count h.count then p else record p { count = h.count; parts = [] }
]

pub add_part : Partial → FragmentHeader → Bytes → ℕ → Partial
add_part p h chunk tick = record p { parts = insert h.index chunk p.parts; last_touched = tick }

-- `for i in 0..count { body.extend_from_slice(partial.parts.get(&i)?) }`, from position `i`.
pub collect : ℕ → ℕ → Assoc ℕ Bytes → Option Bytes
collect zero i parts = some []
collect (suc n) i parts = elim (lookup i parts) [
  | none ↦ none
  | some c ↦ elim (collect n (i + 1) parts) [ none ↦ none | some rest ↦ some (c ++ rest) ]
]

-- The end of `insert`, once the entry has the new part.
pub finish :
    FragmentReassembler
    → Assoc ℕ Partial
    → FragmentHeader
    → Partial
    → FragmentReassembler × Option Bytes
finish r m h p =
    if not (nat_beq (length p.parts % 65536) h.count)
    then (record r { partial = insert h.msg_id p m }, none)
    else (record r { partial = remove h.msg_id (insert h.msg_id p m) }, collect p.count 0 p.parts)

pub accept : FragmentReassembler → FragmentHeader → Bytes → FragmentReassembler × Option Bytes
accept r h chunk =
    if nat_beq h.count 0 || leb h.count h.index
    then (r, none)
    else let tick = (r.tick + 1) % 2 ^ 64 in
      let m = make_room r h.msg_id in
      finish (record r { tick = tick }) m h (add_part (entry_for m h tick) h chunk tick)

unfoldable pub insert_payload : FragmentReassembler → Bytes → FragmentReassembler × Option Bytes
insert_payload r payload = elim (Fragment.parse payload) [
  | none ↦ (r, none)
  | some (h, chunk) ↦ accept r h chunk
]

-- `recv_loop` of udp_channel.rs hands every `DataFragment` payload to `insert`: the state at the
-- end, and what each call returned.
unfoldable pub feed : FragmentReassembler → List Bytes → FragmentReassembler × List (Option Bytes)
feed r [] = (r, [])
feed r (p ∷ ps) =
    let (r', out) = insert_payload r p in let (r'', outs) = feed r' ps in (r'', out ∷ outs)
