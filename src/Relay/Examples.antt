-- ===== src/Relay/Examples.antt =====
-- A room with the two sessions of one machine and an observer.
use tunshell_mcp_agents.Prelude.{
  ◌∷◌, [], ◌≡◌, ◌≢◌, refl, none, some, true, false, ℕ, String, Bool, arith, ◌++◌, eq_iff, ◌⊎◌, find,
  any, length, ◌==◌, string_eq,
}
use tunshell_mcp_agents.Assoc.{lookup, insert, remove, contains_key, UniqueKeys}
use tunshell_mcp_agents.Udp.Candidates.{Endpoint}
use tunshell_mcp_agents.Relay.Types.{
  AgentInfo, plan, agent, all_agents, command, command_result, command_error, result_from,
  error_from, UdpOffer, UdpAnswer, udp_offer, udp_answer, answer_from, agent_left,
}
use tunshell_mcp_agents.Relay.Room.{Room, AgentSession, Tx, new_room, is_empty}
use tunshell_mcp_agents.Relay.Routing.{
  dedup_agents, infos, resolve_targets, selects, find_session_tx, max_of_id, routing_rank, score,
}
use tunshell_mcp_agents.Relay.Routing.Dedup.{dedup_agents-merges, UniqueIds, sessions_of}
use tunshell_mcp_agents.Relay.Routing.Targets.{
  resolve_targets-best, Verdict, pair, send_only_hijack,
}
use tunshell_mcp_agents.Relay.Handler.{
  register, handle_message, leave, broadcast_mcp, broadcast_agents, agent_id_of,
}
use tunshell_mcp_agents.Relay.Handler.Consistent.{
  Reach, here, next, joins, speaks, own_tx, find_session_tx-direct,
}
use tunshell_mcp_agents.Relay.Handler.History.{asker, asker_after, Addressed, pending_reply}
use tunshell_mcp_agents.Relay.Handler.Replies.{command_then_reply, offer_then_answer}
use tunshell_mcp_agents.Relay.Handler.Leaving.{leave-announces, has_other}
use tunshell_mcp_agents.Relay.Server.{RelayState, open_room, gc_room, leave_room, fail_handshake}
use tunshell_mcp_agents.Relay.Server.Lifecycle.{
  remains, leave_room-collects, open_room-splits, fail_handshake-leaks,
}

abbrev machine : String → Bool → Bool → ℕ → AgentInfo
machine id autonomous accepts_commands connected_at = record {
  id = id;
  name = id;
  mode = plan;
  os = "linux";
  arch = "x86_64";
  hostname = id;
  tags = [];
  platform = record {
    family = "debian";
    arch = "x86_64";
    distro = none;
    kernel = none;
    shell = none;
  };
  autonomous = autonomous;
  accepts_commands = accepts_commands;
  connected_at = connected_at;
  version = "1";
  session_id = none;
  update_available = none;
  connections = none;
}

abbrev worker : AgentInfo
worker = machine "w" false true 1

-- A machine joins as session `s`, then an observer as session `m`; the observer sends a command.
abbrev joined : Room
joined = (register (register (new_room "r") "s" (some worker) 7 0).0 "m" none 8 0).0

abbrev asked : Room
asked = (handle_message joined "m" none 8 (command "q" (agent "w") [])).room

joined_reached : Reach (new_room "r") joined
joined_reached =
    next (next here (joins (new_room "r") "s" (some worker) 7 0))
      (joins (register (new_room "r") "s" (some worker) 7 0).0 "m" none 8 0)

asked_reached : Reach (new_room "r") asked
unfolding register insert contains_key lookup
asked_reached = next joined_reached (speaks joined "m" none 8 (command "q" (agent "w") []) refl)

pending_reply_example :
    Addressed asked
      (asker "q" asked_reached)
      (result_from "q" "w" [])
      (handle_message asked "s" (some worker) 7 (command_result "q" [])).sends
    × Addressed asked
        (asker "q" asked_reached)
        (error_from "q" "w" "no")
        (handle_message asked "s" (some worker) 7 (command_error "q" "no")).sends
unfolding agent_id_of
pending_reply_example = pending_reply asked_reached "q" "s" (some worker) 7 [] "no"

-- The observer is the one who asked.
observer_asked : asker "q" asked_reached ≡ some "m"
unfolding asker asker_after asked_reached joined_reached resolve_targets max_of_id routing_rank
    score register insert lookup
observer_asked = refl

find_session_tx-direct_example : find_session_tx asked "s" ≡ own_tx asked "s"
find_session_tx-direct_example = find_session_tx-direct "s" asked_reached

resolve_targets-best_example :
    UniqueKeys (resolve_targets joined (agent "w"))
    × ((id : String)
        → Verdict
            (selects (agent "w"))
            id
            joined.agents
            (lookup id (resolve_targets joined (agent "w"))))
resolve_targets-best_example = resolve_targets-best joined (agent "w")

dedup_agents-merges_example :
    UniqueIds (dedup_agents joined)
    × ((id : String)
        → let mine = sessions_of id (infos joined.agents) in
          ((mine ≡ []) × (find (λ a. a.id == id) (dedup_agents joined) ≡ none))
          ⊎ ((rep : AgentInfo) × (mine ≢ [])
              × (find (λ a. a.id == id) (dedup_agents joined) ≡ some rep)
              × (rep.connections ≡ some (length mine))
              × (rep.autonomous ≡ any (λ a. a.autonomous) mine)
              × (rep.accepts_commands ≡ any (λ a. a.accepts_commands) mine)))
dedup_agents-merges_example = dedup_agents-merges joined

abbrev session : AgentInfo → Tx → AgentSession
session info tx = record { info = info; tx = tx }

abbrev sender : AgentInfo
sender = machine "w" true false 2

send_only_hijack_example :
    (resolve_targets (pair "r" ("a", session worker 7) ("b", session sender 9)) (agent "w")
      ≡ ("w", 9) ∷ [])
    × (resolve_targets (pair "r" ("b", session sender 9) ("a", session worker 7)) (agent "w")
        ≡ ("w", 9) ∷ [])
    × (resolve_targets (pair "r" ("a", session worker 7) ("b", session sender 9)) all_agents
        ≡ ("w", 7) ∷ [])
send_only_hijack_example =
    send_only_hijack "r" "a" "b" (session worker 7) (session sender 9) refl refl refl refl refl

observer_found : find_session_tx joined "m" ≡ some 8
unfolding register insert lookup find_session_tx
observer_found = refl

worker_found : resolve_targets joined (agent "w") ≡ ("w", 7) ∷ []
unfolding register insert resolve_targets max_of_id routing_rank score
worker_found = refl

some_target : resolve_targets joined (agent "w") ≢ []
some_target e = cc (worker_found, e)

command_then_reply_example :
    ((handle_message asked "s" (some worker) 7 (command_result "q" (1 ∷ []))).sends
      ≡ (8, result_from "q" "w" (1 ∷ [])) ∷ [])
    × ((handle_message asked "s" (some worker) 7 (command_error "q" "no")).sends
        ≡ (8, error_from "q" "w" "no") ∷ [])
unfolding agent_id_of
command_then_reply_example =
    command_then_reply joined "m" none 8 "q" (agent "w") [] (1 ∷ []) "no" "s" (some worker) 7
      observer_found some_target

abbrev place : Endpoint
place = record { addr = 1; port = 2 }

abbrev offered : UdpOffer
offered = record {
  channel_id = "c";
  from_session = "m";
  to_session = "s";
  local_endpoint = place;
  local_candidates = [];
  public_endpoint = none;
  nonce = [];
}

abbrev answered : UdpAnswer
answered = record {
  channel_id = "c";
  from_session = "s";
  local_endpoint = place;
  local_candidates = [];
  public_endpoint = none;
  nonce = [];
  accepted = true;
}

offer_then_answer_example :
    let room = (handle_message joined "m" none 8 (udp_offer offered)).room in
    let first = handle_message room "s" (some worker) 7 (udp_answer answered) in
    let second = handle_message first.room "s" (some worker) 7 (udp_answer answered) in
    (first.sends ≡ (8, answer_from "s" answered) ∷ [])
    × (second.sends ≡ broadcast_mcp joined.mcp (answer_from "s" answered))
offer_then_answer_example =
    offer_then_answer joined "m" none 8 offered "s" (some worker) 7 answered observer_found refl

leave-announces_example :
    let sends = (leave joined "s" (some worker)).1 in
    let listed = find (λ a. a.id == "w") (dedup_agents (leave joined "s" (some worker)).0) in
    ((has_other joined "s" "w" ≡ true) × (listed ≢ none) × (sends ≡ []))
    ⊎ ((has_other joined "s" "w" ≡ false)
        × (listed ≡ none)
        × (sends
            ≡ broadcast_mcp joined.mcp (agent_left "w")
              ++ broadcast_agents (remove "s" joined.agents) (agent_left "w") none))
leave-announces_example = leave-announces joined "s" worker

abbrev no_rooms : RelayState
no_rooms = record { rooms = []; store = λ p. new_room "r"; next_arc = 0; token = none }

abbrev one_room : RelayState
one_room = record { rooms = ("r:t", 0) ∷ []; store = λ p. joined; next_arc = 1; token = none }

abbrev idle_room : RelayState
idle_room = record {
  rooms = ("r:t", 0) ∷ [];
  store = λ p. new_room "r";
  next_arc = 1;
  token = none;
}

one_room_there : lookup "r:t" one_room.rooms ≡ some 0
unfolding lookup
one_room_there = refl

leave_room-collects_example :
    let after = (leave_room one_room "r:t" 0 "s" (some worker)).0 in
    (((lookup "r:t" after.rooms ≡ none)
        × ((o : String) → remains joined "s" (some worker) o ≡ false))
      ⊎ ((lookup "r:t" after.rooms ≡ some 0)
          × (o : String) × (remains joined "s" (some worker) o ≡ true)))
    × ((other : String) → other ≢ "r:t" → lookup other after.rooms ≡ lookup other one_room.rooms)
leave_room-collects_example = leave_room-collects one_room "r:t" 0 "s" (some worker) one_room_there

last_leaves : is_empty (leave (new_room "r") "m" none).0 ≡ true
unfolding is_empty leave remove
last_leaves = refl

open_room-splits_example :
    let first = open_room idle_room "r:t" "r" in
    let second = open_room (leave_room first.0 "r:t" 0 "m" none).0 "r:t" "r" in
    (first.1 ≡ 0) × (second.1 ≢ 0) × (lookup "r:t" second.0.rooms ≡ some second.1)
open_room-splits_example =
    open_room-splits idle_room "r:t" "r" 0 "m" none one_room_there (omega arith) last_leaves

key_is_no_name : ◌≢◌ {A = String} "r" "r:t"
key_is_no_name = ground (arith, eq_iff "r" "r:t")

fail_handshake-leaks_example :
    let after = fail_handshake no_rooms "r:t" "r" in
    (lookup "r:t" after.rooms ≡ some 0)
    × (is_empty (after.store 0) ≡ true)
    × (lookup "r:t" (gc_room (open_room no_rooms "r:t" "r").0 "r:t").rooms ≡ none)
unfolding lookup
fail_handshake-leaks_example = fail_handshake-leaks no_rooms "r:t" "r" refl refl key_is_no_name
