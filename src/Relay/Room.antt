-- ===== src/Relay/Room.antt =====
-- crates/relay/src/state.rs: a room and its sessions. A `Tx` is the number of a connection's
-- outbound channel; two senders are clones of one another when their numbers are equal.
use tunshell_mcp_agents.Prelude.{ℕ, String, List, [], ◌∷◌, Bool, false, true, ◌&&◌}
use tunshell_mcp_agents.Assoc.{Assoc}
use tunshell_mcp_agents.Relay.Types.{AgentInfo}

abbrev pub Tx : Type 0
Tx = ℕ

pub record AgentSession : Type 0 where
  pub info : AgentInfo
  pub tx : Tx

pub record McpSession : Type 0 where
  pub id : String
  pub tx : Tx

pub record Room : Type 0 where
  pub name : String
  pub agents : Assoc String AgentSession
  pub mcp : Assoc String McpSession
  pub pending : Assoc String String
  pub udp_offers : Assoc String String

abbrev pub new_room : String → Room
new_room name = record { name = name; agents = []; mcp = []; pending = []; udp_offers = [] }

abbrev pub is_empty_map {ℓ} : {A : Type ℓ} → List A → Bool
is_empty_map [] = true
is_empty_map (x ∷ xs) = false

unfoldable pub is_empty : Room → Bool
is_empty room = is_empty_map room.agents && is_empty_map room.mcp
