-- ===== src/Relay/Handler/Consistent.antt =====
-- What holds of a room after any joins, messages and departures: agents stand under the session id
-- that the relay gave them, and every pending request has an originator that is still there.
use tunshell_mcp_agents.Prelude.{
  ℕ, String, List, [], ◌∷◌, ◌≡◌, refl, Option, none, some, Bool, true, ◌==◌, string_eq, arith,
  Bool-cases, Option-cases, inl, inr, subst,
}
use tunshell_mcp_agents.Assoc.{Assoc, lookup, insert, remove, contains_key}
use tunshell_mcp_agents.Relay.Types.{
  AgentInfo, ClientMessage, UdpOffer, UdpAnswer, command, udp_offer, udp_answer, update_agent,
}
use tunshell_mcp_agents.Relay.Room.{Room, AgentSession, Tx, new_room}
use tunshell_mcp_agents.Relay.Routing.{find_session_tx, find_by_session, resolve_targets}
use tunshell_mcp_agents.Relay.Handler.{
  dispatch, on_offer, on_answer, on_update, handle_message, register, leave,
}
use tunshell_mcp_agents.Relay.Handler.Attributed.{
  present, Attributed, Origins, IsConsistent, insert-Attributed, remove-Attributed,
  lookup-Attributed, mono-Origins, insert-Origins, forget-Origins, contains-insert,
  contains-insert_mcp, contains-remove, contains-remove_mcp,
}

dispatch-IsConsistent :
    (room : Room) (sid : String) (tx : Tx) (q : String) (payload : List ℕ) (ts : Assoc String Tx)
    → present room sid ≡ true
    → IsConsistent room
    → IsConsistent (dispatch room sid tx q payload ts).room
unfolding dispatch
dispatch-IsConsistent room sid tx q payload [] here v = v
dispatch-IsConsistent room sid tx q payload (t ∷ ts) here v = record {
  attributed = v.attributed;
  origins = insert-Origins (present room) q sid room.pending here v.origins;
}

on_update-IsConsistent :
    (room : Room) (sid : String) (info : AgentInfo)
    → IsConsistent room
    → IsConsistent (on_update room sid info).room
unfolding on_update
on_update-IsConsistent room sid info v = elim (Option-cases (lookup sid room.agents)) [
  | inl e ↦ rw (e, on_update) v
  | inr (entry, e) ↦
      rw (e, on_update)
        (record {
          attributed =
              insert-Attributed sid _ room.agents
                (lookup-Attributed sid room.agents entry v.attributed e) v.attributed;
          origins =
              mono-Origins (present room) _ room.pending
                (λ o h. ground (
                  arith,
                  h,
                  contains-insert sid o room.agents
                      (record entry { info = record info { session_id = entry.info.session_id } }),
                ))
                v.origins;
        })
]

-- Only the offers change.
with_offers-IsConsistent :
    (room : Room) (offers : Assoc String String)
    → IsConsistent room
    → IsConsistent (record room { udp_offers = offers })
with_offers-IsConsistent room offers v = record { attributed = v.attributed; origins = v.origins }

pub room-on_offer :
    (room : Room) (sid : String) (offer : UdpOffer)
    → (on_offer room sid offer).room
      ≡ record room { udp_offers = insert offer.channel_id sid room.udp_offers }
unfolding on_offer
room-on_offer room sid offer = ground arith

pub room-on_answer :
    (room : Room) (sid : String) (answer : UdpAnswer)
    → (on_answer room sid answer).room
      ≡ record room { udp_offers = remove answer.channel_id room.udp_offers }
unfolding on_answer
room-on_answer room sid answer = ground arith

-- A session that is there says something.
handle_message-IsConsistent :
    (room : Room) (sid : String) (info : Option AgentInfo) (tx : Tx) (msg : ClientMessage)
    → present room sid ≡ true
    → IsConsistent room
    → IsConsistent (handle_message room sid info tx msg).room
unfolding handle_message
handle_message-IsConsistent room sid info tx (command q target payload) here v =
    dispatch-IsConsistent room sid tx q payload (resolve_targets room target) here v
handle_message-IsConsistent room sid info tx (udp_offer offer) here v =
    rw (room-on_offer room sid offer) (with_offers-IsConsistent room _ v)
handle_message-IsConsistent room sid info tx (udp_answer answer) here v =
    rw (room-on_answer room sid answer) (with_offers-IsConsistent room _ v)
handle_message-IsConsistent room sid info tx (update_agent new_info) here v =
    on_update-IsConsistent room sid new_info v
handle_message-IsConsistent room sid info tx _ here v = v

register-IsConsistent :
    (room : Room) (sid : String) (info : Option AgentInfo) (tx : Tx) (client_ip : ℕ)
    → IsConsistent room
    → IsConsistent (register room sid info tx client_ip).0
unfolding register
register-IsConsistent room sid none tx client_ip v = record {
  attributed = v.attributed;
  origins =
      mono-Origins (present room) _ room.pending
        (λ o h.
          ground (arith, h, contains-insert_mcp sid o room.mcp (record { id = sid; tx = tx })))
        v.origins;
}
register-IsConsistent room sid (some info) tx client_ip v =
    let s : AgentSession = record { info = record info { session_id = some sid }; tx = tx } in
    record {
      attributed = insert-Attributed sid s room.agents refl v.attributed;
      origins =
          mono-Origins (present room) _ room.pending
            (λ o h. ground (arith, h, contains-insert sid o room.agents s)) v.origins;
    }

leave-IsConsistent :
    (room : Room) (sid : String) (info : Option AgentInfo)
    → IsConsistent room
    → IsConsistent (leave room sid info).0
unfolding leave
leave-IsConsistent room sid none v = record {
  attributed = v.attributed;
  origins =
      forget-Origins (present room) _ sid room.pending
        (λ o ne h. ground (arith, h, contains-remove_mcp sid o room.mcp ne)) v.origins;
}
leave-IsConsistent room sid (some info) v = record {
  attributed = remove-Attributed sid room.agents v.attributed;
  origins =
      forget-Origins (present room) _ sid room.pending
        (λ o ne h. ground (arith, h, contains-remove sid o room.agents ne)) v.origins;
}

-- What can happen to a room: a session joins, one that is there says something, one leaves.
pub data Step : Room → Room → Type 0 where
  joins :
      (room : Room) (sid : String) (info : Option AgentInfo) (tx : Tx) (client_ip : ℕ)
      → Step room (register room sid info tx client_ip).0
  speaks :
      (room : Room) (sid : String) (info : Option AgentInfo) (tx : Tx) (msg : ClientMessage)
      → present room sid ≡ true
      → Step room (handle_message room sid info tx msg).room
  leaves :
      (room : Room) (sid : String) (info : Option AgentInfo) → Step room (leave room sid info).0

pub data Reach (start : Room) : Room → Type 0 where
  here : Reach start start
  next : {room after : Room} → Reach start room → Step room after → Reach start after

Step-IsConsistent : {room after : Room} → Step room after → IsConsistent room → IsConsistent after
Step-IsConsistent (joins room sid info tx ip) v = register-IsConsistent room sid info tx ip v
Step-IsConsistent (speaks room sid info tx msg there) v =
    handle_message-IsConsistent room sid info tx msg there v
Step-IsConsistent (leaves room sid info) v = leave-IsConsistent room sid info v

Reach-IsConsistent : {name : String} {room : Room} → Reach (new_room name) room → IsConsistent room
Reach-IsConsistent here = record { attributed = tt; origins = tt }
Reach-IsConsistent (next r st) = Step-IsConsistent st (Reach-IsConsistent r)

lookup-Origins :
    (there : String → Bool) (m : Assoc String String) (q o : String)
    → Origins there m
    → lookup q m ≡ some o
    → there o ≡ true
unfolding lookup
lookup-Origins there [] q o h e = cc
lookup-Origins there ((j, w) ∷ m) q o h e = elim (Bool-cases (j == q)) [
  | inl hit ↦ let same : w ≡ o = ground (arith, hit, e) in subst (λ x. there x ≡ true) same h.0
  | inr miss ↦ lookup-Origins there m q o h.1 (ground (arith, miss, e))
]

-- A session that is there has its own channel found, an observer's before a peer's.
pub own_tx : Room → String → Option Tx
own_tx room sid = elim (lookup sid room.mcp) [
  | some m ↦ some m.tx
  | none ↦ elim (lookup sid room.agents) [ some s ↦ some s.tx | none ↦ none ]
]

present-find :
    (room : Room) (sid : String)
    → present room sid ≡ true
    → (tx : Tx) × (find_session_tx room sid ≡ some tx) × (own_tx room sid ≡ some tx)
unfolding find_session_tx contains_key own_tx
present-find room sid h = elim (Option-cases (lookup sid room.mcp)) [
  | inr (m, e) ↦ (m.tx, ground (arith, e), ground (arith, e))
  | inl e ↦ elim (Option-cases (lookup sid room.agents)) [
    | inr (s, f) ↦ (s.tx, ground (arith, e, f), ground (arith, e, f))
    | inl f ↦ absurd (ground (arith, h, e, f))
  ]
]

-- A request that is pending has its originator's channel found.
pub pending-found :
    {name : String} {room : Room} (q origin : String)
    → Reach (new_room name) room
    → lookup q room.pending ≡ some origin
    → (tx : Tx) × (find_session_tx room origin ≡ some tx) × (own_tx room origin ≡ some tx)
pending-found {name} {room} q origin r e =
    let v = Reach-IsConsistent r in
    present-find room origin (lookup-Origins (present room) room.pending q origin v.origins e)

-- The scan over the sessions' own ids that `find_session_tx` ends with.
absent-scan :
    (sid : String) (m : Assoc String AgentSession)
    → Attributed m
    → lookup sid m ≡ none
    → find_by_session sid m ≡ none
unfolding lookup find_by_session
absent-scan sid [] a e = refl
absent-scan sid ((k, s) ∷ m) a e = ground (arith, e, a.0, absent-scan sid m a.1)

-- In every reachable room that scan finds nothing that the two lookups by key have not found.
pub find_session_tx-direct :
    {name : String} {room : Room} (sid : String)
    → Reach (new_room name) room
    → find_session_tx room sid ≡ own_tx room sid
unfolding find_session_tx own_tx
find_session_tx-direct {name} {room} sid r =
    let v = Reach-IsConsistent r in ground (arith, absent-scan sid room.agents v.attributed)
