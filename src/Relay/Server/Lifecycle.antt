-- ===== src/Relay/Server/Lifecycle.antt =====
-- When rooms come into the map and leave it.
use tunshell_mcp_agents.Prelude.{
  ℕ, ◌<◌, String, ◌≡◌, ◌≢◌, refl, ◌∙◌, Option, none, some, Bool, true, false, ◌||◌, ◌&&◌, not, ◌==◌,
  [], ◌∷◌, ◌⊎◌, inl, inr, sym, string_eq, nat_eq, nat_beq_iff, arith, eq_iff,
}
use tunshell_mcp_agents.Assoc.{Assoc, lookup, insert, remove, contains_key}
use tunshell_mcp_agents.Assoc.Laws.{lookup-insert, lookup-remove}
use tunshell_mcp_agents.Relay.Types.{AgentInfo}
use tunshell_mcp_agents.Relay.Room.{Room, AgentSession, McpSession, is_empty, is_empty_map}
use tunshell_mcp_agents.Relay.Handler.Attributed.{present}
use tunshell_mcp_agents.Relay.Handler.{leave}
use tunshell_mcp_agents.Relay.Server.{RelayState, open_room, gc_room, leave_room, fail_handshake}

lookup-remove_self : (k : String) (m : Assoc String ℕ) → lookup k (remove k m) ≡ none
lookup-remove_self k m = lookup-remove k k m ∙ rw ((eq_iff k k).1 refl)

lookup-insert_self : (k : String) (p : ℕ) (m : Assoc String ℕ) → lookup k (insert k p m) ≡ some p
lookup-insert_self k p m = lookup-insert k k p m ∙ rw ((eq_iff k k).1 refl)

-- The session with that id is in the room after another one, or its other half, has left.
abbrev pub remains : Room → String → Option AgentInfo → String → Bool
remains room sid none o = contains_key o room.agents || (contains_key o room.mcp && not (sid == o))
remains room sid (some info) o =
    (contains_key o room.agents && not (sid == o)) || contains_key o room.mcp

present_left :
    (room : Room) (sid : String) (info : Option AgentInfo) (o : String)
    → present (leave room sid info).0 o ≡ remains room sid info o
unfolding leave contains_key
present_left room sid none o = ground (arith, lookup-remove sid o room.mcp)
present_left room sid (some info) o = ground (arith, lookup-remove sid o room.agents)

has_first :
    (k : String) (s : AgentSession) (m : Assoc String AgentSession)
    → contains_key k ((k, s) ∷ m) ≡ true
unfolding contains_key lookup
has_first k s m = ground (arith, eq_iff k k)

has_first_mcp :
    (k : String) (s : McpSession) (m : Assoc String McpSession) → contains_key k ((k, s) ∷ m) ≡ true
unfolding contains_key lookup
has_first_mcp k s m = ground (arith, eq_iff k k)

-- Two maps are empty exactly if neither has a key.
empty-keys :
    (agents : Assoc String AgentSession) (mcp : Assoc String McpSession)
    → ((is_empty_map agents && is_empty_map mcp ≡ true)
        × ((o : String) → contains_key o agents || contains_key o mcp ≡ false))
      ⊎ ((is_empty_map agents && is_empty_map mcp ≡ false)
          × (o : String) × (contains_key o agents || contains_key o mcp ≡ true))
unfolding contains_key lookup
empty-keys [] [] = inl (refl, λ o. refl)
empty-keys ((k, s) ∷ agents) mcp = inr (refl, k, ground (arith, has_first k s agents))
empty-keys [] ((k, s) ∷ mcp) = inr (refl, k, has_first_mcp k s mcp)

-- When a session leaves the room that its key maps to: if any other session, of an agent or an
-- observer, remains in the room, the room stays in the map; if none does, its key is gone from the
-- map. No other key is touched.
pub leave_room-collects :
    (s : RelayState) (key : String) (p : ℕ) (sid : String) (info : Option AgentInfo)
    → lookup key s.rooms ≡ some p
    → let after = (leave_room s key p sid info).0 in
      (((lookup key after.rooms ≡ none) × ((o : String) → remains (s.store p) sid info o ≡ false))
        ⊎ ((lookup key after.rooms ≡ some p)
            × (o : String) × (remains (s.store p) sid info o ≡ true)))
      × ((other : String) → other ≢ key → lookup other after.rooms ≡ lookup other s.rooms)
unfolding leave_room gc_room is_empty
leave_room-collects s key p sid info e =
    let left = present_left (s.store p) sid info in
    (
      let room = (leave (s.store p) sid info).0 in
          elim (empty-keys room.agents room.mcp) [
            | inl (none_there, nobody) ↦ inl (
              ground (arith, e, none_there, nat_beq_iff p p, lookup-remove_self key s.rooms),
              λ o. sym (left o) ∙ nobody o,
            )
            | inr (some_there, o, there) ↦
                inr (ground (arith, e, some_there, nat_beq_iff p p), o, sym (left o) ∙ there)
          ],
      λ other ne. ground (arith, e, lookup-remove key other s.rooms, eq_iff key other),
    )

-- A client that is the first of its room and is gone before `auth_ok` is sent leaves an empty room
-- behind, if the room's name is no key of the map: the collection that ran asked for the name.
pub fail_handshake-leaks :
    (s : RelayState) (key name : String)
    → lookup key s.rooms ≡ none
    → lookup name s.rooms ≡ none
    → name ≢ key
    → let after = fail_handshake s key name in
      (lookup key after.rooms ≡ some s.next_arc)
      × (is_empty (after.store s.next_arc) ≡ true)
      × (lookup key (gc_room (open_room s key name).0 key).rooms ≡ none)
unfolding fail_handshake gc_room open_room is_empty
fail_handshake-leaks s key name e f ne = (
  ground (
    arith,
    e,
    f,
    lookup-insert key name s.next_arc s.rooms,
    eq_iff key name,
    lookup-insert_self key s.next_arc s.rooms,
  ),
  ground (
    arith,
    e,
    f,
    lookup-insert key name s.next_arc s.rooms,
    eq_iff key name,
    nat_beq_iff s.next_arc s.next_arc,
  ),
  ground (
    arith,
    e,
    lookup-insert_self key s.next_arc s.rooms,
    nat_beq_iff s.next_arc s.next_arc,
    lookup-remove_self key (insert key s.next_arc s.rooms),
  ),
)

-- A client takes its room while the room's last session leaves, and the next client of the same
-- key comes after that: the two get different rooms.
pub open_room-splits :
    (s : RelayState) (key name : String) (p : ℕ) (last : String) (info : Option AgentInfo)
    → lookup key s.rooms ≡ some p
    → p < s.next_arc
    → is_empty (leave (s.store p) last info).0 ≡ true
    → let first = open_room s key name in
      let second = open_room (leave_room first.0 key p last info).0 key name in
      (first.1 ≡ p) × (second.1 ≢ p) × (lookup key second.0.rooms ≡ some second.1)
unfolding open_room leave_room gc_room
open_room-splits s key name p last info e lt gone = (
  ground (arith, e),
  ground (arith, e, gone, nat_beq_iff p p, lookup-remove_self key s.rooms),
  ground (
    arith,
    e,
    gone,
    nat_beq_iff p p,
    lookup-remove_self key s.rooms,
    lookup-insert_self key s.next_arc (remove key s.rooms),
  ),
)
