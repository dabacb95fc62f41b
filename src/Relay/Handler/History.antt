-- ===== src/Relay/Handler/History.antt =====
-- What a room knows of a request, told from the history of the room.
use tunshell_mcp_agents.Prelude.{
  ℕ, String, List, [], ◌∷◌, ◌≡◌, refl, ◌∙◌, Option, none, some, ◌==◌, string_eq, arith, Bool-cases,
  inl, inr, subst, eq_iff, if◌then◌else◌, ap,
}
use tunshell_mcp_agents.Assoc.{Assoc, lookup, UniqueKeys}
use tunshell_mcp_agents.Assoc.Keys.{insert-UniqueKeys}
use tunshell_mcp_agents.Assoc.Laws.{lookup-insert}
use tunshell_mcp_agents.Relay.Types.{
  AgentInfo, ServerMessage, command, command_result, command_error, udp_offer, udp_answer,
  update_agent, result_from, error_from,
}
use tunshell_mcp_agents.Relay.Room.{Room, Tx, new_room}
use tunshell_mcp_agents.Relay.Routing.{resolve_targets}
use tunshell_mcp_agents.Relay.Handler.{
  dispatch, on_offer, on_answer, on_update, handle_message, register, leave, route_to_origin,
  forget_origin, Sends, origin_tx, agent_id_of, broadcast_mcp,
}
use tunshell_mcp_agents.Relay.Handler.Consistent.{
  Step, joins, speaks, leaves, Reach, here, next, room-on_offer, room-on_answer, pending-found,
  own_tx,
}

-- The session that asked, unless there was nobody to ask.
abbrev pub asked_by : String → Assoc String Tx → Option String → Option String
asked_by sid [] before = before
asked_by sid (t ∷ ts) before = some sid

abbrev pub unless_left : String → Option String → Option String
unless_left sid none = none
unless_left sid (some o) = if o == sid then none else some o

-- Who a step makes the asker of the request `q`.
unfoldable pub asker_after :
    String → {room after : Room} → Step room after → Option String → Option String
asker_after q (joins room sid info tx ip) before = before
asker_after q (speaks room sid info tx (command q' target payload) there) before =
    if q' == q then asked_by sid (resolve_targets room target) before else before
asker_after q (speaks room sid info tx _ there) before = before
asker_after q (leaves room sid info) before = unless_left sid before

-- The session that last sent a command with the id `q` that found a machine, if it has not left
-- since.
unfoldable pub asker : String → {start room : Room} → Reach start room → Option String
unfolding asker_after
asker q here = none
asker q (next r st) = asker_after q st (asker q r)

absent-forget_origin :
    (sid q : String) (m : Assoc String String)
    → lookup q m ≡ none
    → lookup q (forget_origin sid m) ≡ none
unfolding lookup forget_origin
absent-forget_origin sid q [] h = refl
absent-forget_origin sid q ((j, o) ∷ m) h = ground (arith, absent-forget_origin sid q m)

lookup-forget_origin :
    (sid q : String) (m : Assoc String String)
    → UniqueKeys m
    → lookup q (forget_origin sid m) ≡ unless_left sid (lookup q m)
unfolding lookup forget_origin
lookup-forget_origin sid q [] u = refl
lookup-forget_origin sid q ((j, o) ∷ m) u = elim (Bool-cases (j == q)) [
  | inr miss ↦ ground (arith, miss, lookup-forget_origin sid q m u.1)
  | inl hit ↦ elim (Bool-cases (o == sid)) [
    | inr stays ↦ ground (arith, hit, stays)
    | inl gone ↦
        let absent : lookup q m ≡ none = subst (λ k. lookup k m ≡ none) ((eq_iff j q).0 hit) u.0 in
        ground (arith, hit, gone, absent-forget_origin sid q m absent)
  ]
]

forget_origin-UniqueKeys :
    (sid : String) (m : Assoc String String) → UniqueKeys m → UniqueKeys (forget_origin sid m)
unfolding forget_origin
forget_origin-UniqueKeys sid [] u = tt
forget_origin-UniqueKeys sid ((j, o) ∷ m) u = elim (Bool-cases (o == sid)) [
  | inl gone ↦ rw gone (forget_origin-UniqueKeys sid m u.1)
  | inr stays ↦ rw stays (absent-forget_origin sid j m u.0, forget_origin-UniqueKeys sid m u.1)
]

-- The requests of the second room are those of the first one, changed in the way a step says.
abbrev Follows : Room → Room → (String → Option String → Option String) → Type 0
Follows room after change =
    UniqueKeys room.pending
    → UniqueKeys after.pending
      × ((q : String) → lookup q after.pending ≡ change q (lookup q room.pending))

dispatch-Follows :
    (room : Room) (sid : String) (tx : Tx) (q : String) (payload : List ℕ) (ts : Assoc String Tx)
    → Follows room
        (dispatch room sid tx q payload ts).room
        (λ k before. if q == k then asked_by sid ts before else before)
unfolding dispatch
dispatch-Follows room sid tx q payload [] u = (u, λ k. ground arith)
dispatch-Follows room sid tx q payload (t ∷ ts) u =
    (insert-UniqueKeys q sid room.pending u, λ k. lookup-insert q k sid room.pending)

pending-on_update :
    (room : Room) (sid : String) (info : AgentInfo)
    → (on_update room sid info).room.pending ≡ room.pending
unfolding on_update
pending-on_update room sid info = ground arith

same-Follows :
    (room after : Room) → after.pending ≡ room.pending → Follows room after (λ q before. before)
same-Follows room after e u = (rw e u, λ q. ap (λ m. lookup q m) e)

Step-Follows :
    {room after : Room} (st : Step room after)
    → Follows room after (λ q before. asker_after q st before)
unfolding asker_after register leave handle_message
Step-Follows (joins room sid none tx ip) u = (u, λ q. refl)
Step-Follows (joins room sid (some info) tx ip) u = (u, λ q. refl)
Step-Follows (leaves room sid none) u =
    (forget_origin-UniqueKeys sid room.pending u, λ q. lookup-forget_origin sid q room.pending u)
Step-Follows (leaves room sid (some info)) u =
    (forget_origin-UniqueKeys sid room.pending u, λ q. lookup-forget_origin sid q room.pending u)
Step-Follows (speaks room sid info tx (command q target payload) there) u =
    dispatch-Follows room sid tx q payload (resolve_targets room target) u
Step-Follows (speaks room sid info tx (udp_offer offer) there) u =
    same-Follows room (on_offer room sid offer).room
      (ap (λ (r : Room). r.pending) (room-on_offer room sid offer)) u
Step-Follows (speaks room sid info tx (udp_answer answer) there) u =
    same-Follows room (on_answer room sid answer).room
      (ap (λ (r : Room). r.pending) (room-on_answer room sid answer)) u
Step-Follows (speaks room sid info tx (update_agent new_info) there) u =
    same-Follows room (on_update room sid new_info).room (pending-on_update room sid new_info) u
Step-Follows (speaks room sid info tx _ there) u = (u, λ q. refl)

pending-asker :
    {name : String} {room : Room} (r : Reach (new_room name) room)
    → UniqueKeys room.pending × ((q : String) → lookup q room.pending ≡ asker q r)
unfolding asker lookup
pending-asker here = (tt, λ q. refl)
pending-asker (next r st) =
    let (u, known) = pending-asker r in
    let (u', changed) = Step-Follows st u in
    (u', λ q. changed q ∙ ap (λ before. asker_after q st before) (known q))

-- The channels that a reply goes to: the asker's own one, or all observers when there is no asker.
abbrev pub Addressed : Room → Option String → ServerMessage → Sends → Type 0
Addressed room none msg sends = sends ≡ broadcast_mcp room.mcp msg
Addressed room (some sid) msg sends =
    (tx : Tx) × (own_tx room sid ≡ some tx) × (sends ≡ (tx, msg) ∷ [])

route_to_origin-Addressed :
    {name : String} {room : Room} (r : Reach (new_room name) room) (q : String)
    (msg : ServerMessage) (o : Option String)
    → lookup q room.pending ≡ o
    → Addressed room o msg (route_to_origin room q msg)
unfolding route_to_origin origin_tx
route_to_origin-Addressed r q msg none e = ground (arith, e)
route_to_origin-Addressed r q msg (some sid) e =
    let (tx, found, own) = pending-found q sid r e in (tx, own, ground (arith, e, found))

-- After any joins, messages of present sessions and departures, in any order, whoever sends a
-- result or an error for a request id: if the session that last sent a command with that id to some
-- machine has not left since, the reply goes to it alone, on its own channel; if there is no such
-- session, the reply goes to every observer.
pub pending_reply :
    {name : String} {room : Room} (r : Reach (new_room name) room) (q : String) (other : String)
    (replier : Option AgentInfo) (other_tx : Tx) (result : List ℕ) (error : String)
    → Addressed room
        (asker q r)
        (result_from q (agent_id_of replier) result)
        (handle_message room other replier other_tx (command_result q result)).sends
      × Addressed room
          (asker q r)
          (error_from q (agent_id_of replier) error)
          (handle_message room other replier other_tx (command_error q error)).sends
unfolding handle_message
pending_reply r q other replier other_tx result error =
    let known = (pending-asker r).1 q in
    (
      route_to_origin-Addressed r q (result_from q (agent_id_of replier) result) (asker q r) known,
      route_to_origin-Addressed r q (error_from q (agent_id_of replier) error) (asker q r) known,
    )
