-- ===== src/Relay/Handler/Leaving.antt =====
-- A departure is announced exactly when the machine is no longer listed.
use tunshell_mcp_agents.Prelude.{
  String, List, [], ◌∷◌, ◌++◌, ◌≡◌, ◌≢◌, refl, none, some, true, false, ◌==◌, string_eq, Bool-cases,
  inl, inr, any, not, ◌&&◌, sym, ◌∙◌, Bool, find, ◌⊎◌,
}
use tunshell_mcp_agents.Relay.Types.{AgentInfo, agent_left}
use tunshell_mcp_agents.Relay.Room.{Room, AgentSession}
use tunshell_mcp_agents.Assoc.{Assoc, remove}
use tunshell_mcp_agents.Relay.Routing.{dedup_agents, infos}
use tunshell_mcp_agents.Relay.Routing.Dedup.{dedup_agents-merges, sessions_of}
use tunshell_mcp_agents.Relay.Handler.{leave, broadcast_mcp, broadcast_agents, forget_origin}

any-select :
    (id : String) (is : List AgentInfo)
    → ((any (λ a. a.id == id) is ≡ false) × (sessions_of id is ≡ []))
      ⊎ ((any (λ a. a.id == id) is ≡ true) × (sessions_of id is ≢ []))
any-select id [] = inl (refl, refl)
any-select id (i ∷ is) = elim (Bool-cases (i.id == id)) [
  | inl hit ↦ inr (rw hit refl, rw hit (λ e. cc))
  | inr miss ↦ rw miss (any-select id is)
]

-- The list does not depend on what is pending.
dedup-forget :
    (room : Room) (sid : String)
    → dedup_agents (record room { pending = forget_origin sid room.pending }) ≡ dedup_agents room
unfolding dedup_agents
dedup-forget room sid = refl

-- Another session of the machine is in the room.
abbrev pub has_other : Room → String → String → Bool
has_other room sid id = any (λ e. not (e.0 == sid) && e.1.info.id == id) room.agents

any-remove :
    (sid id : String) (m : Assoc String AgentSession)
    → any (λ a. a.id == id) (infos (remove sid m))
      ≡ any (λ e. not (e.0 == sid) && e.1.info.id == id) m
unfolding remove
any-remove sid id [] = refl
any-remove sid id ((k, s) ∷ m) = elim (Bool-cases (k == sid)) [
  | inl hit ↦ rw hit (any-remove sid id m)
  | inr miss ↦ rw (miss, any-remove sid id m) refl
]

-- When a session of an agent leaves: if another session of the same machine is in the room, the
-- machine is still listed and nobody is told; if none is, the machine is no longer listed, and
-- every observer and every remaining peer of the room is told once that it left.
pub leave-announces :
    (room : Room) (sid : String) (info : AgentInfo)
    → let sends = (leave room sid (some info)).1 in
      let listed = find (λ a. a.id == info.id) (dedup_agents (leave room sid (some info)).0) in
      ((has_other room sid info.id ≡ true) × (listed ≢ none) × (sends ≡ []))
      ⊎ ((has_other room sid info.id ≡ false)
          × (listed ≡ none)
          × (sends
              ≡ broadcast_mcp room.mcp (agent_left info.id)
                ++ broadcast_agents (remove sid room.agents) (agent_left info.id) none))
unfolding leave
leave-announces room sid info =
    let room' = (leave room sid (some info)).0 in
    let others = any-remove sid info.id room.agents in
    elim (any-select info.id (infos room'.agents)) [
      | inl (gone, empty) ↦ elim ((dedup_agents-merges room').1 info.id) [
        | inl (e, absent) ↦ inr (sym others ∙ gone, absent, rw gone)
        | inr (rep, mine, there, count, au, ac) ↦ absurd (mine empty)
      ]
      | inr (stays, more) ↦ elim ((dedup_agents-merges room').1 info.id) [
        | inl (e, absent) ↦ absurd (more e)
        | inr (rep, mine, there, count, au, ac) ↦ inl (sym others ∙ stays, (λ e. cc), rw stays)
      ]
    ]
