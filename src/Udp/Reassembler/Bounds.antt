-- ===== src/Udp/Reassembler/Bounds.antt =====
-- The memory that a peer can make the reassembler hold is bounded, whatever it sends.
use tunshell_mcp_agents.Prelude.{
  ℕ, zero, suc, ◌+◌, ◌%◌, ◌^◌, max, ◌≤◌, ◌<◌, List, [], ◌∷◌, ◌≡◌, refl, some, ◌||◌, leb, nat_beq,
  nat_eq, length, arith, Bool-cases, Option-cases, inl, inr, ◌∙◌, All,
}
use tunshell_mcp_agents.Assoc.Keys.{Values}
use tunshell_mcp_agents.Udp.Bytes.{Bytes, byte_at}
use tunshell_mcp_agents.Udp.Fragment
use tunshell_mcp_agents.Udp.Fragment.{FragmentHeader}
use tunshell_mcp_agents.Udp.Reassembler.{
  FragmentReassembler, with_capacity, make_room, entry_for, add_part, finish, accept,
  insert_payload, feed,
}
use tunshell_mcp_agents.Udp.Reassembler.Eviction.{
  IsOpen, IsBounded, make_room-UniqueKeys, make_room-IsOpen, make_room-length, IsReady-entry_for,
  IsReady-add_part, IsBounded-finish, add_part-count,
}

max_messages-insert_payload :
    (r : FragmentReassembler) (payload : Bytes)
    → (insert_payload r payload).0.max_messages ≡ r.max_messages
unfolding insert_payload accept finish
max_messages-insert_payload r payload = ground arith

pub accept-IsBounded :
    (r : FragmentReassembler) (h : FragmentHeader) (chunk : Bytes)
    → h.count < 65536
    → IsBounded r
    → IsBounded (accept r h chunk).0
unfolding accept
accept-IsBounded r h chunk small v = elim (Bool-cases (nat_beq h.count 0 || leb h.count h.index)) [
  | inl bad ↦ rw bad v
  | inr good ↦
      let tick = (r.tick + 1) % 2 ^ 64 in
      let m = make_room r h.msg_id in
      let ready = IsReady-entry_for m h tick (make_room-IsOpen r v h.msg_id) small in
      rw good (
        IsBounded-finish (record r { tick = tick }) m h (add_part (entry_for m h tick) h chunk tick)
          (make_room-UniqueKeys r v h.msg_id) (make_room-IsOpen r v h.msg_id)
          (make_room-length r v h.msg_id) v.room
          (IsReady-add_part (entry_for m h tick) h chunk tick (ground (arith, ready.1)) ready.0)
          (add_part-count _ h chunk tick ∙ ready.1))
]

byte_at-lt : (buf : Bytes) (i : ℕ) → All (λ b. b < 256) buf → byte_at buf i < 256
byte_at-lt [] i a = omega arith
byte_at-lt (b ∷ buf) zero a = a.0
byte_at-lt (b ∷ buf) (suc i) a = byte_at-lt buf i a.1

pub parse-count-lt :
    (buf : Bytes) (h : FragmentHeader) (chunk : Bytes)
    → All (λ b. b < 256) buf
    → Fragment.parse buf ≡ some (h, chunk)
    → h.count < 65536
unfolding Fragment.parse
parse-count-lt buf h chunk a e = ground (arith, byte_at-lt buf 6 a, byte_at-lt buf 7 a)

-- A payload of bytes, whatever it holds, keeps the reassembler within its bounds: at most
-- `max_messages` messages, each with distinct positions below its count and not all of them.
pub insert_payload-IsBounded :
    (r : FragmentReassembler) (payload : Bytes)
    → All (λ b. b < 256) payload
    → IsBounded r
    → IsBounded (insert_payload r payload).0
unfolding insert_payload
insert_payload-IsBounded r payload a v = elim (Option-cases (Fragment.parse payload)) [
  | inl e ↦ rw (e, insert_payload) v
  | inr (hc, e) ↦
      rw (e, insert_payload) (accept-IsBounded r hc.0 hc.1 (parse-count-lt payload hc.0 hc.1 a e) v)
]

feed-IsBounded :
    (r : FragmentReassembler) (payloads : List Bytes)
    → All (All (λ b. b < 256)) payloads
    → IsBounded r
    → IsBounded (feed r payloads).0
unfolding feed
feed-IsBounded r [] a v = v
feed-IsBounded r (p ∷ ps) a v =
    feed-IsBounded (insert_payload r p).0 ps a.1 (insert_payload-IsBounded r p a.0 v)

max_messages-feed :
    (r : FragmentReassembler) (payloads : List Bytes)
    → (feed r payloads).0.max_messages ≡ r.max_messages
unfolding feed
max_messages-feed r [] = refl
max_messages-feed r (p ∷ ps) =
    max_messages-feed (insert_payload r p).0 ps ∙ max_messages-insert_payload r p

-- Whatever payloads of bytes a peer sends to a new reassembler of capacity `n`, at most `max n 1`
-- messages are held, and each holds fewer parts than the 16-bit count that it states.
pub feed_bounded :
    (n : ℕ) (payloads : List Bytes)
    → All (All (λ b. b < 256)) payloads
    → let r = (feed (with_capacity n) payloads).0 in
      (length r.partial ≤ max n 1) × Values IsOpen r.partial
unfolding with_capacity
feed_bounded n payloads a =
    let v =
      feed-IsBounded (with_capacity n) payloads a
        (record { unique = tt; within = omega arith; room = omega arith; parts_open = tt }) in
    (ground (arith, v.within, max_messages-feed (with_capacity n) payloads), v.parts_open)
