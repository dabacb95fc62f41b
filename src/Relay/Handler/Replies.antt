-- ===== src/Relay/Handler/Replies.antt =====
-- Answers find the way back: results and errors of a command, and the answer to a UDP offer.
use tunshell_mcp_agents.Prelude.{
  ℕ, String, List, [], ◌∷◌, ◌≡◌, ◌≢◌, refl, ◌∙◌, Option, none, some, string_eq, arith, eq_iff,
}
use tunshell_mcp_agents.Assoc.{Assoc, lookup, insert, remove}
use tunshell_mcp_agents.Assoc.Laws.{lookup-insert, lookup-remove}
use tunshell_mcp_agents.Relay.Types.{
  AgentInfo, Target, UdpOffer, UdpAnswer, command, command_result, command_error, udp_offer,
  udp_answer, result_from, error_from, answer_from, ServerMessage,
}
use tunshell_mcp_agents.Relay.Room.{Room, Tx}
use tunshell_mcp_agents.Relay.Routing.{find_session_tx, resolve_targets}
use tunshell_mcp_agents.Relay.Handler.Consistent.{room-on_offer, room-on_answer}
use tunshell_mcp_agents.Relay.Handler.{
  dispatch, on_answer, handle_message, route_to_origin, origin_tx, agent_id_of, broadcast_mcp,
}

route_to_origin-known :
    (room : Room) (q sid : String) (tx : Tx) (msg : ServerMessage)
    → lookup q room.pending ≡ some sid
    → find_session_tx room sid ≡ some tx
    → route_to_origin room q msg ≡ (tx, msg) ∷ []
unfolding route_to_origin origin_tx
route_to_origin-known room q sid tx msg e f = ground (arith, e, f)

lookup-insert_self : (k v : String) (m : Assoc String String) → lookup k (insert k v m) ≡ some v
lookup-insert_self k v m = lookup-insert k k v m ∙ rw ((eq_iff k k).1 refl)

lookup-remove_self : (k : String) (m : Assoc String String) → lookup k (remove k m) ≡ none
lookup-remove_self k m = lookup-remove k k m ∙ rw ((eq_iff k k).1 refl)

dispatch-route :
    (room : Room) (sid : String) (tx : Tx) (q : String) (payload : List ℕ) (ts : Assoc String Tx)
    (msg : ServerMessage)
    → ts ≢ []
    → find_session_tx room sid ≡ some tx
    → route_to_origin (dispatch room sid tx q payload ts).room q msg ≡ (tx, msg) ∷ []
unfolding dispatch find_session_tx
dispatch-route room sid tx q payload [] msg some_target found = absurd (some_target refl)
dispatch-route room sid tx q payload (t ∷ ts) msg some_target found =
    route_to_origin-known _ q sid tx msg (lookup-insert_self q sid room.pending) found

on_answer-known :
    (room : Room) (other : String) (answer : UdpAnswer) (o : String) (tx : Tx)
    → lookup answer.channel_id room.udp_offers ≡ some o
    → find_session_tx room o ≡ some tx
    → (on_answer room other answer).sends ≡ (tx, answer_from other answer) ∷ []
unfolding on_answer find_session_tx
on_answer-known room other answer o tx e f = ground (arith, e, f)

on_answer-unknown :
    (room : Room) (other : String) (answer : UdpAnswer)
    → lookup answer.channel_id room.udp_offers ≡ none
    → (on_answer room other answer).sends ≡ broadcast_mcp room.mcp (answer_from other answer)
unfolding on_answer
on_answer-unknown room other answer e = ground (arith, e)

-- A session whose channel is found sends a command that resolves to some machine. Then a result
-- and an error for its request, from whichever session, go to that session alone.
pub command_then_reply :
    (room : Room) (sid : String) (info : Option AgentInfo) (tx : Tx) (q : String) (target : Target)
    (payload result : List ℕ) (error : String) (other : String) (replier : Option AgentInfo)
    (other_tx : Tx)
    → find_session_tx room sid ≡ some tx
    → resolve_targets room target ≢ []
    → let room' = (handle_message room sid info tx (command q target payload)).room in
      ((handle_message room' other replier other_tx (command_result q result)).sends
        ≡ (tx, result_from q (agent_id_of replier) result) ∷ [])
      × ((handle_message room' other replier other_tx (command_error q error)).sends
          ≡ (tx, error_from q (agent_id_of replier) error) ∷ [])
unfolding handle_message
command_then_reply room sid info tx q target payload result error other replier other_tx found
      some_target =
    let back = λ (msg : ServerMessage).
      dispatch-route room sid tx q payload (resolve_targets room target) msg some_target found in
    (
      back (result_from q (agent_id_of replier) result),
      back (error_from q (agent_id_of replier) error),
    )

-- A session whose channel is found offers a UDP channel to whomever. The first answer on that
-- channel goes to that session alone, and a second one to the observers.
pub offer_then_answer :
    (room : Room) (sid : String) (info : Option AgentInfo) (tx : Tx) (offer : UdpOffer)
    (other : String) (answerer : Option AgentInfo) (other_tx : Tx) (answer : UdpAnswer)
    → find_session_tx room sid ≡ some tx
    → answer.channel_id ≡ offer.channel_id
    → let offered = (handle_message room sid info tx (udp_offer offer)).room in
      let first = handle_message offered other answerer other_tx (udp_answer answer) in
      let second = handle_message first.room other answerer other_tx (udp_answer answer) in
      (first.sends ≡ (tx, answer_from other answer) ∷ [])
      × (second.sends ≡ broadcast_mcp room.mcp (answer_from other answer))
unfolding handle_message find_session_tx
offer_then_answer room sid info tx offer other answerer other_tx answer found same =
    let offers = insert offer.channel_id sid room.udp_offers in
    let mine : lookup answer.channel_id offers ≡ some sid =
      rw same (lookup-insert_self offer.channel_id sid room.udp_offers) in
    rw (room-on_offer room sid offer) (
      on_answer-known (record room { udp_offers = offers }) other answer sid tx mine found,
      rw (room-on_answer (record room { udp_offers = offers }) other answer)
          (on_answer-unknown _ other answer (lookup-remove_self answer.channel_id offers)),
    )
