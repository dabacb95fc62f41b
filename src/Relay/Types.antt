-- ===== src/Relay/Types.antt =====
-- The values that the relay handles: crates/shared/src/types.rs, protocol.rs and udp.rs. A payload
-- is opaque to the relay; a nonce is its list of bytes.
use tunshell_mcp_agents.Prelude.{ℕ, String, List, Option, Bool}
use tunshell_mcp_agents.Udp.Candidates.{Endpoint}

pub data AgentMode : Type 0 where
  plan edit bypass disabled : AgentMode

pub record PlatformInfo : Type 0 where
  pub family : String
  pub arch : String
  pub distro : Option String
  pub kernel : Option String
  pub shell : Option String

pub record AgentInfo : Type 0 where
  pub id : String
  pub name : String
  pub mode : AgentMode
  pub os : String
  pub arch : String
  pub hostname : String
  pub tags : List String
  pub platform : PlatformInfo
  pub autonomous : Bool
  pub accepts_commands : Bool
  pub connected_at : ℕ
  pub version : String
  pub session_id : Option String
  pub update_available : Option String
  pub connections : Option ℕ

pub data Target : Type 0 where
  agent : String → Target
  all_agents : Target
  tagged : List String → Target
  platform_family : String → Target

pub data TaskStatus : Type 0 where
  queued running done failed : TaskStatus

pub data AgentEvent : Type 0 where
  task_completed : String → TaskStatus → AgentEvent

pub record UdpOffer : Type 0 where
  pub channel_id : String
  pub from_session : String
  pub to_session : String
  pub local_endpoint : Endpoint
  pub local_candidates : List Endpoint
  pub public_endpoint : Option Endpoint
  pub nonce : List ℕ

pub record UdpAnswer : Type 0 where
  pub channel_id : String
  pub from_session : String
  pub local_endpoint : Endpoint
  pub local_candidates : List Endpoint
  pub public_endpoint : Option Endpoint
  pub nonce : List ℕ
  pub accepted : Bool

pub record UdpChannelResult : Type 0 where
  pub channel_id : String
  pub success : Bool
  pub error : Option String

pub data ClientMessage : Type 0 where
  auth : String → String → Option AgentInfo → ClientMessage
  list_agents : ClientMessage
  command : String → Target → List ℕ → ClientMessage
  command_result : String → List ℕ → ClientMessage
  command_error : String → String → ClientMessage
  notify : AgentEvent → ClientMessage
  udp_offer : UdpOffer → ClientMessage
  udp_answer : UdpAnswer → ClientMessage
  udp_result : UdpChannelResult → ClientMessage
  ping : ClientMessage
  close : ClientMessage
  update_agent : AgentInfo → ClientMessage

pub data ServerMessage : Type 0 where
  auth_ok : String → ServerMessage
  auth_failed : String → ServerMessage
  agent_list : List AgentInfo → ServerMessage
  agent_joined : AgentInfo → ServerMessage
  agent_left : String → ServerMessage
  agent_mode_changed : String → AgentMode → ServerMessage
  command_to : String → String → List ℕ → ServerMessage
  result_from : String → String → List ℕ → ServerMessage
  error_from : String → String → String → ServerMessage
  event_from : String → AgentEvent → ServerMessage
  offer_from : String → UdpOffer → ServerMessage
  answer_from : String → UdpAnswer → ServerMessage
  udp_result_from : String → UdpChannelResult → ServerMessage
  your_endpoint : Endpoint → ServerMessage
  pong : ServerMessage
  error_message : String → ServerMessage
