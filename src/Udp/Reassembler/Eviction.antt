-- ===== src/Udp/Reassembler/Eviction.antt =====
-- Eviction and a new part keep the bounds of a reassembler of udp.rs.
use tunshell_mcp_agents.Prelude.{
  ℕ, ◌+◌, ◌%◌, ◌≤◌, ◌<◌, [], ◌∷◌, ◌≡◌, refl, none, some, not, ◌&&◌, leb, nat_beq, nat_beq_iff,
  nat_eq, if◌then◌else◌, length, arith, Bool-cases, Option-cases, inl, inr, true,
}
use tunshell_mcp_agents.Assoc.{Assoc, lookup, insert, remove, contains_key, UniqueKeys}
use tunshell_mcp_agents.Assoc.Laws.{lookup-remove}
use tunshell_mcp_agents.Assoc.Keys.{
  Below, insert-Below, remove-insert_self, length_bound, insert-UniqueKeys, remove-UniqueKeys,
  length-remove, length-insert, Values, insert-Values, remove-Values, lookup-Values,
}
use tunshell_mcp_agents.Udp.Bytes.{Bytes}
use tunshell_mcp_agents.Udp.Fragment.{FragmentHeader}
use tunshell_mcp_agents.Udp.Reassembler.{
  Partial, FragmentReassembler, oldest, evict_oldest, make_room, entry_for, add_part, finish,
}

-- A message being reassembled: distinct positions below the count, and not all of them yet.
pub record IsOpen (p : Partial) : Type 0 where
  pub unique : UniqueKeys p.parts
  pub below : Below p.count p.parts
  pub incomplete : length p.parts < p.count
  pub small : p.count < 65536

pub record IsBounded (r : FragmentReassembler) : Type 0 where
  pub unique : UniqueKeys r.partial
  pub within : length r.partial ≤ r.max_messages
  pub room : 0 < r.max_messages
  pub parts_open : Values IsOpen r.partial

-- The same before the new part is counted.
pub record IsReady (p : Partial) : Type 0 where
  pub unique : UniqueKeys p.parts
  pub below : Below p.count p.parts
  pub small : p.count < 65536

oldest-contains : (m : Assoc ℕ Partial) (k t : ℕ) → oldest m ≡ some (k, t) → contains_key k m ≡ true
unfolding oldest contains_key
oldest-contains [] k t h = cc
oldest-contains ((j, p) ∷ m) k t h = ground (arith, oldest-contains m k t, nat_beq_iff j k)

oldest-none : (m : Assoc ℕ Partial) → oldest m ≡ none → length m ≡ 0
unfolding oldest
oldest-none [] h = refl
oldest-none ((j, p) ∷ m) h = ground arith

evict_oldest-length :
    (m : Assoc ℕ Partial) → UniqueKeys m → 0 < length m → length m ≡ length (evict_oldest m) + 1
unfolding evict_oldest
evict_oldest-length m u h = elim (Option-cases (oldest m)) [
  | inl e ↦ absurd (omega (arith, oldest-none m e))
  | inr (kt, e) ↦
      rw (e, evict_oldest) (ground (arith, length-remove kt.0 m u, oldest-contains m kt.0 kt.1 e))
]

evict_oldest-UniqueKeys : (m : Assoc ℕ Partial) → UniqueKeys m → UniqueKeys (evict_oldest m)
unfolding evict_oldest
evict_oldest-UniqueKeys m u = elim (Option-cases (oldest m)) [
  | inl e ↦ rw (e, evict_oldest) u
  | inr (kt, e) ↦ rw (e, evict_oldest) (remove-UniqueKeys kt.0 m u)
]

evict_oldest-Values :
    (P : Partial → Type 0) (m : Assoc ℕ Partial) → Values P m → Values P (evict_oldest m)
unfolding evict_oldest
evict_oldest-Values P m u = elim (Option-cases (oldest m)) [
  | inl e ↦ rw (e, evict_oldest) u
  | inr (kt, e) ↦ rw (e, evict_oldest) (remove-Values P kt.0 m u)
]

-- Nothing appears by an eviction.
lookup-evict_oldest :
    (m : Assoc ℕ Partial) (j : ℕ) (p : Partial)
    → lookup j (evict_oldest m) ≡ some p
    → lookup j m ≡ some p
unfolding evict_oldest
lookup-evict_oldest m j p h = elim (Option-cases (oldest m)) [
  | inl e ↦ rw (e, evict_oldest) at h
  | inr (kt, e) ↦
      let h' : lookup j (remove kt.0 m) ≡ some p = rw (e, evict_oldest) at h in
      ground (arith, lookup-remove kt.0 j m, nat_beq_iff kt.0 j, h')
]

module _ (r : FragmentReassembler) (v : IsBounded r) (id : ℕ) where
  pub make_room-UniqueKeys : UniqueKeys (make_room r id)
  unfolding make_room
  make_room-UniqueKeys = ground (arith, evict_oldest-UniqueKeys r.partial v.unique, v.unique)

  pub make_room-IsOpen : Values IsOpen (make_room r id)
  unfolding make_room
  make_room-IsOpen =
      elim (Bool-cases (not (contains_key id r.partial) && leb r.max_messages (length r.partial))) [
        | inl e ↦ rw (e, make_room) (evict_oldest-Values IsOpen r.partial v.parts_open)
        | inr e ↦ rw (e, make_room) v.parts_open
      ]

  pub lookup-make_room :
      (j : ℕ) (p : Partial) → lookup j (make_room r id) ≡ some p → lookup j r.partial ≡ some p
  unfolding make_room
  lookup-make_room j p h = ground (arith, lookup-evict_oldest r.partial j p)

  -- The message of the fragment that arrives is not the one that makes room for it.
  pub lookup-make_room_self : lookup id (make_room r id) ≡ lookup id r.partial
  unfolding make_room contains_key
  lookup-make_room_self = elim (Option-cases (lookup id r.partial)) [
    | inr (p, e) ↦ ground arith
    | inl e ↦ elim (Option-cases (lookup id (evict_oldest r.partial))) [
      | inl e' ↦ ground arith
      | inr (p, e') ↦ ground (arith, lookup-evict_oldest r.partial id p e')
    ]
  ]

  pub make_room-length :
      length (make_room r id) + (if contains_key id (make_room r id) then 0 else 1) ≤ r.max_messages
  unfolding make_room contains_key
  make_room-length =
      ground
        (arith, v.within, v.room, lookup-make_room_self, evict_oldest-length r.partial v.unique)

pub IsReady-entry_for :
    (m : Assoc ℕ Partial) (h : FragmentHeader) (tick : ℕ)
    → Values IsOpen m
    → h.count < 65536
    → IsReady (entry_for m h tick) × ((entry_for m h tick).count ≡ h.count)
unfolding entry_for
IsReady-entry_for m h tick a small = elim (Option-cases (lookup h.msg_id m)) [
  | inl e ↦ rw (e, entry_for) (record { unique = tt; below = tt; small = small }, refl)
  | inr (p, e) ↦
      let o = lookup-Values IsOpen h.msg_id m p e a in
      elim (Bool-cases (nat_beq p.count h.count)) [
        | inl same ↦
            rw (e, entry_for)
              (rw same
                (record { unique = o.unique; below = o.below; small = o.small }, ground arith))
        | inr other ↦
            rw (e, entry_for) (rw other (record { unique = tt; below = tt; small = small }, refl))
      ]
]

pub IsReady-add_part :
    (p : Partial) (h : FragmentHeader) (chunk : Bytes) (tick : ℕ)
    → h.index < p.count
    → IsReady p
    → IsReady (add_part p h chunk tick)
unfolding add_part
IsReady-add_part p h chunk tick i o = record {
  unique = insert-UniqueKeys h.index chunk p.parts o.unique;
  below = insert-Below p.count h.index chunk p.parts i o.below;
  small = o.small;
}

pub IsBounded-finish :
    (r : FragmentReassembler) (m : Assoc ℕ Partial) (h : FragmentHeader) (p : Partial)
    → UniqueKeys m
    → Values IsOpen m
    → length m + (if contains_key h.msg_id m then 0 else 1) ≤ r.max_messages
    → 0 < r.max_messages
    → IsReady p
    → p.count ≡ h.count
    → IsBounded (finish r m h p).0
unfolding finish
IsBounded-finish r m h p u a l pos o same =
    let u' = insert-UniqueKeys h.msg_id p m u in
    let bound = length_bound p.count p.parts o.unique o.below in
    elim (Bool-cases (nat_beq (length p.parts % 65536) h.count)) [
      | inl full ↦
          rw (full, finish)
            (record {
              unique = remove-UniqueKeys h.msg_id (insert h.msg_id p m) u';
              within = rw remove-insert_self (omega (arith, length-remove h.msg_id m u));
              room = pos;
              parts_open = rw remove-insert_self (remove-Values IsOpen h.msg_id m a);
            })
      | inr part ↦
          rw (part, finish)
            (record {
              unique = u';
              within = omega (arith, length-insert h.msg_id p m);
              room = pos;
              parts_open =
                  insert-Values IsOpen h.msg_id p m
                    (record {
                      unique = o.unique;
                      below = o.below;
                      small = o.small;
                      incomplete = ground (arith, bound, o.small);
                    })
                    a;
            })
    ]

pub add_part-count :
    (p : Partial) (h : FragmentHeader) (chunk : Bytes) (tick : ℕ)
    → (add_part p h chunk tick).count ≡ p.count
unfolding add_part
add_part-count p h chunk tick = refl
