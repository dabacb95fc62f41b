-- ===== src/Relay/Server.antt =====
-- `RelayState` of crates/relay/src/state.rs and the life of a connection in `handle_socket` of
-- crates/relay/src/handler.rs. A room is behind an `Arc`: a number that points into the store, so
-- that a connection that has its room keeps it when the map lets go of it.
pub mod Lifecycle
use tunshell_mcp_agents.Prelude.{
  ℕ, ◌+◌, String, List, [], ◌∷◌, Option, none, some, Bool, true, false, if◌then◌else◌, ◌==◌,
  string_eq, nat_eq,
}
use tunshell_mcp_agents.Assoc.{Assoc, lookup, insert, remove}
use tunshell_mcp_agents.Relay.Types.{AgentInfo}
use tunshell_mcp_agents.Relay.Room.{Room, Tx, new_room, is_empty}
use tunshell_mcp_agents.Relay.Handler.{register, leave, Sends}

pub record RelayState : Type 0 where
  pub rooms : Assoc String ℕ
  pub store : ℕ → Room
  pub next_arc : ℕ
  pub token : Option String

abbrev pub write_room : (ℕ → Room) → ℕ → Room → ℕ → Room
write_room store p room q = if q == p then room else store q

-- `query_token.unwrap_or("")`
abbrev unwrap_or_empty : Option String → String
unwrap_or_empty none = ""
unwrap_or_empty (some t) = t

unfoldable pub auth_ok : RelayState → Option String → String → Bool
auth_ok s query_token auth_token = elim s.token [
  | some server ↦ auth_token == server
  | none ↦ unwrap_or_empty query_token == auth_token
]

-- `RelayState::room`
pub open_room : RelayState → String → String → RelayState × ℕ
open_room s key name = elim (lookup key s.rooms) [
  | some p ↦ (s, p)
  | none ↦ (
    record s {
      rooms = insert key s.next_arc s.rooms;
      store = write_room s.store s.next_arc (new_room name);
      next_arc = s.next_arc + 1;
    },
    s.next_arc,
  )
]

-- `remove_if(name, |_, room| room.is_empty())`
pub gc_room : RelayState → String → RelayState
gc_room s key = elim (lookup key s.rooms) [
  | none ↦ s
  | some p ↦ if is_empty (s.store p) then record s { rooms = remove key s.rooms } else s
]

-- The connection joins the room that its `Arc` points to.
pub join_room : RelayState → ℕ → String → Option AgentInfo → Tx → ℕ → RelayState × Sends
join_room s p sid info tx client_ip =
    let (room, sends) = register (s.store p) sid info tx client_ip in
    (record s { store = write_room s.store p room }, sends)

-- The connection leaves: section 5 of `handle_socket`.
pub leave_room : RelayState → String → ℕ → String → Option AgentInfo → RelayState × Sends
leave_room s key p sid info =
    let (room, sends) = leave (s.store p) sid info in
    (gc_room (record s { store = write_room s.store p room }) key, sends)

-- The client is gone when `auth_ok` is sent: `gc_room` is called with the room's name.
pub fail_handshake : RelayState → String → String → RelayState
fail_handshake s key name = gc_room (open_room s key name).0 name
