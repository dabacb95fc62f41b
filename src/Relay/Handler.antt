-- ===== src/Relay/Handler.antt =====
-- crates/relay/src/handler.rs: what the relay does on each message of a session, and when a session
-- joins and leaves. A handler returns the new room and the messages it sends, in their order; log
-- lines are left out.
pub mod Attributed
pub mod Consistent
pub mod Replies
pub mod Leaving
pub mod History
use tunshell_mcp_agents.Prelude.{
  ℕ, String, List, [], ◌∷◌, ◌++◌, map, Option, none, some, Bool, true, false, not, if◌then◌else◌,
  find, any, select, ◌==◌, string_eq,
}
use tunshell_mcp_agents.Assoc.{Assoc, lookup, insert, remove}
use tunshell_mcp_agents.Udp.Candidates.{Endpoint}
use tunshell_mcp_agents.Relay.Types.{
  AgentInfo, ClientMessage, ServerMessage, UdpOffer, UdpAnswer, auth, list_agents, command,
  command_result, command_error, notify, udp_offer, udp_answer, udp_result, ping, close,
  update_agent, agent_list, agent_joined, agent_left, command_to, result_from, error_from,
  event_from, offer_from, answer_from, udp_result_from, your_endpoint, pong, Target,
}
use tunshell_mcp_agents.Relay.Room.{Room, AgentSession, McpSession, Tx}
use tunshell_mcp_agents.Relay.Routing.{dedup_agents, resolve_targets, find_session_tx, infos}

abbrev pub Sends : Type 0
Sends = List (Tx × ServerMessage)

pub record Outcome : Type 0 where
  pub room : Room
  pub sends : Sends
  pub closes : Bool

unfoldable pub broadcast_mcp : Assoc String McpSession → ServerMessage → Sends
broadcast_mcp [] msg = []
broadcast_mcp ((k, s) ∷ mcp) msg = (s.tx, msg) ∷ broadcast_mcp mcp msg

-- `Some(id) == except_id`
abbrev pub is_excepted : String → Option String → Bool
is_excepted id none = false
is_excepted id (some e) = id == e

unfoldable pub broadcast_agents : Assoc String AgentSession → ServerMessage → Option String → Sends
broadcast_agents [] msg except = []
broadcast_agents ((k, s) ∷ agents) msg except =
    let rest = broadcast_agents agents msg except in
    if is_excepted s.info.id except then rest else (s.tx, msg) ∷ rest

unfoldable pub agent_id_of : Option AgentInfo → String
agent_id_of none = ""
agent_id_of (some info) = info.id

-- `room.pending.get(request_id)`, then `find_session_tx`.
unfoldable pub origin_tx : Room → String → Option Tx
origin_tx room request_id = elim (lookup request_id room.pending) [
  | none ↦ none
  | some origin ↦ find_session_tx room origin
]

pub route_to_origin : Room → String → ServerMessage → Sends
route_to_origin room request_id msg = elim (origin_tx room request_id) [
  | none ↦ broadcast_mcp room.mcp msg
  | some tx ↦ (tx, msg) ∷ []
]

abbrev stay : Room → Sends → Outcome
stay room sends = record { room = room; sends = sends; closes = false }

abbrev pub to_targets : ServerMessage → Assoc String Tx → Sends
to_targets msg [] = []
to_targets msg ((id, tx) ∷ targets) = (tx, msg) ∷ to_targets msg targets

-- The room is written only when there are targets.
unfoldable pub dispatch : Room → String → Tx → String → List ℕ → Assoc String Tx → Outcome
dispatch room session_id self_tx request_id payload [] =
    stay room ((self_tx, error_from request_id "" "No matching agents found") ∷ [])
dispatch room session_id self_tx request_id payload (t ∷ targets) =
    stay (record room { pending = insert request_id session_id room.pending })
      (to_targets (command_to request_id session_id payload) (t ∷ targets))

pub on_offer : Room → String → UdpOffer → Outcome
on_offer room session_id offer =
    let room' = record room { udp_offers = insert offer.channel_id session_id room.udp_offers } in
    elim (find_session_tx room' offer.to_session) [
      | none ↦ stay room' []
      | some tx ↦ stay room' ((tx, offer_from session_id offer) ∷ [])
    ]

-- `offerer.and_then(|o| find_session_tx(room, &o))`
offerer_tx : Room → Option String → Option Tx
offerer_tx room none = none
offerer_tx room (some o) = find_session_tx room o

pub on_answer : Room → String → UdpAnswer → Outcome
unfolding offerer_tx
on_answer room session_id answer =
    let offerer = lookup answer.channel_id room.udp_offers in
    let room' = record room { udp_offers = remove answer.channel_id room.udp_offers } in
    let msg = answer_from session_id answer in
    elim (offerer_tx room' offerer) [
      | some tx ↦ stay room' ((tx, msg) ∷ [])
      | none ↦ stay room' (broadcast_mcp room'.mcp msg)
    ]

-- `dedup_agents(room).find(|a| a.id == id).unwrap_or(info)`
merged_info : Room → String → AgentInfo → AgentInfo
merged_info room id info = elim (find (λ a. a.id == id) (dedup_agents room)) [
  | none ↦ info
  | some a ↦ a
]

announce : Room → AgentInfo → Sends
unfolding merged_info
announce room info =
    let msg = agent_joined (merged_info room info.id info) in
    broadcast_mcp room.mcp msg ++ broadcast_agents room.agents msg (some info.id)

pub on_update : Room → String → AgentInfo → Outcome
unfolding announce
on_update room session_id new_info = elim (lookup session_id room.agents) [
  | none ↦ stay room []
  | some entry ↦
      let updated = record new_info { session_id = entry.info.session_id } in
      let room' = record room {
        agents = insert session_id (record entry { info = updated }) room.agents;
      } in
      stay room' (announce room' updated)
]

unfoldable pub handle_message : Room → String → Option AgentInfo → Tx → ClientMessage → Outcome
handle_message room sid info tx list_agents = stay room ((tx, agent_list (dedup_agents room)) ∷ [])
handle_message room sid info tx (command request_id target payload) =
    dispatch room sid tx request_id payload (resolve_targets room target)
handle_message room sid info tx (command_result request_id result) =
    stay room (route_to_origin room request_id (result_from request_id (agent_id_of info) result))
handle_message room sid info tx (command_error request_id error) =
    stay room (route_to_origin room request_id (error_from request_id (agent_id_of info) error))
handle_message room sid info tx (notify event) =
    stay room (broadcast_mcp room.mcp (event_from (agent_id_of info) event))
handle_message room sid info tx (udp_offer offer) = on_offer room sid offer
handle_message room sid info tx (udp_answer answer) = on_answer room sid answer
handle_message room sid info tx (udp_result result) =
    stay room (broadcast_mcp room.mcp (udp_result_from sid result))
handle_message room sid info tx ping = stay room ((tx, pong) ∷ [])
handle_message room sid info tx (auth name token agent_info) = stay room []
handle_message room sid info tx close = record { room = room; sends = []; closes = true }
handle_message room sid info tx (update_agent new_info) = on_update room sid new_info

-- A frame that is no message is ignored. `decode` is `ClientMessage::from_proto_bytes`.
pub handle_client_msg :
    (List ℕ → Option ClientMessage) → List ℕ → Room → String → Option AgentInfo → Tx → Outcome
handle_client_msg decode bytes room sid info tx = elim (decode bytes) [
  | none ↦ stay room []
  | some msg ↦ handle_message room sid info tx msg
]

-- Section 3 of `handle_socket`, after `your_endpoint` is sent. `client_ip` stands for the address.
unfoldable pub register : Room → String → Option AgentInfo → Tx → ℕ → Room × Sends
unfolding announce
register room sid none tx client_ip = (
  record room { mcp = insert sid (record { id = sid; tx = tx }) room.mcp },
  (tx, your_endpoint (record { addr = client_ip; port = 0 })) ∷ [],
)
register room sid (some info) tx client_ip =
    let info' = record info { session_id = some sid } in
    let room' = record room {
      agents = insert sid (record { info = info'; tx = tx }) room.agents;
    } in
    let peers = select (λ a. not (a.id == info.id)) (dedup_agents room') in
    (
      room',
      (tx, your_endpoint (record { addr = client_ip; port = 0 }))
          ∷ (tx, agent_list peers)
          ∷ announce room' info',
    )

-- `room.pending.retain(|_, origin| origin != &session_id)`
pub forget_origin : String → Assoc String String → Assoc String String
forget_origin sid [] = []
forget_origin sid ((r, o) ∷ pending) =
    let rest = forget_origin sid pending in if o == sid then rest else (r, o) ∷ rest

-- Section 5 of `handle_socket`, up to `gc_room`.
unfoldable pub leave : Room → String → Option AgentInfo → Room × Sends
leave room sid none =
    (record room { mcp = remove sid room.mcp; pending = forget_origin sid room.pending }, [])
leave room sid (some info) =
    let room' = record room { agents = remove sid room.agents } in
    let still_present = any (λ a. a.id == info.id) (infos room'.agents) in
    let left = agent_left info.id in
    (
      record room' { pending = forget_origin sid room.pending },
      if not still_present
          then broadcast_mcp room'.mcp left ++ broadcast_agents room'.agents left none
          else [],
    )
