-- ===== src/Relay/Routing.antt =====
-- crates/relay/src/routing.rs: which connections a message goes to. Maps are visited in the order
-- of their lists. Text is compared with ASCII case folded by `eq_ignore_ascii_case`.
pub mod Merge
pub mod Dedup
pub mod Search
pub mod Targets
use Prim.Native.Char.{code}
use tunshell_mcp_agents.Prelude.{
  ℕ, ◌+◌, ◌-◌, String, List, [], ◌∷◌, map, Option, none, some, Bool, true, false, ◌&&◌, ◌||◌, not,
  if◌then◌else◌, ltb, leb, nat_beq, any, find, ◌==◌, string_eq,
}
use tunshell_mcp_agents.Assoc.{Assoc, lookup, insert, values}
use tunshell_mcp_agents.Relay.Types.{AgentInfo, Target, agent, all_agents, tagged, platform_family}
use tunshell_mcp_agents.Relay.Room.{Room, AgentSession, McpSession, Tx}

unfoldable pub score : AgentInfo → ℕ
score info = (if info.accepts_commands then 1 else 0) + (if info.autonomous then 2 else 0)

pub record Rank : Type 0 where
  pub capability : ℕ
  pub freshness : ℕ

unfoldable pub routing_rank : AgentInfo → Rank
unfolding score
routing_rank info = record { capability = score info; freshness = info.connected_at }

-- The order of Rust's tuples.
abbrev pub rank_le : Rank → Rank → Bool
rank_le a b =
    ltb a.capability b.capability
    || (nat_beq a.capability b.capability && leb a.freshness b.freshness)

-- One more session of a host: the more capable one represents it, with the flags of both.
pub merge : AgentInfo → AgentInfo → AgentInfo
merge rep info =
    let kept = if ltb (score rep) (score info) then info else rep in
    record kept {
      autonomous = rep.autonomous || info.autonomous;
      accepts_commands = rep.accepts_commands || info.accepts_commands;
    }

pub merge_into : Option AgentInfo → AgentInfo → AgentInfo
merge_into none info = info
merge_into (some rep) info = merge rep info

pub count_one : Option ℕ → ℕ
count_one none = 1
count_one (some n) = n + 1

pub collapse :
    Assoc String AgentInfo
    → Assoc String ℕ
    → List AgentInfo
    → Assoc String AgentInfo × Assoc String ℕ
collapse by_id counts [] = (by_id, counts)
collapse by_id counts (info ∷ infos) =
    collapse (insert info.id (merge_into (lookup info.id by_id) info) by_id)
      (insert info.id (count_one (lookup info.id counts)) counts) infos

-- `rep.connections = counts.get(id).copied()` for every entry, and `into_values`.
pub with_counts : Assoc String ℕ → Assoc String AgentInfo → List AgentInfo
with_counts counts [] = []
with_counts counts ((id, rep) ∷ by_id) =
    record rep { connections = lookup id counts } ∷ with_counts counts by_id

abbrev pub infos : Assoc String AgentSession → List AgentInfo
infos [] = []
infos ((k, s) ∷ agents) = s.info ∷ infos agents

unfoldable pub dedup_agents : Room → List AgentInfo
dedup_agents room =
    let (by_id, counts) = collapse [] [] (infos room.agents) in with_counts counts by_id

-- Whether the session replaces the best one so far: an equal rank does not.
pub better : Option (Rank × Tx) → Rank → Tx → Rank × Tx
better none rank tx = (rank, tx)
better (some (best, old)) rank tx = if rank_le rank best then (best, old) else (rank, tx)

pub best_by_id :
    (AgentInfo → Bool)
    → Assoc String (Rank × Tx)
    → Assoc String AgentSession
    → Assoc String (Rank × Tx)
best_by_id pred by_id [] = by_id
best_by_id pred by_id ((k, s) ∷ agents) =
    let id = s.info.id in
    best_by_id pred
      (if pred s.info
        then insert id (better (lookup id by_id) (routing_rank s.info) s.tx) by_id
        else by_id)
      agents

abbrev pub forget_rank : Assoc String (Rank × Tx) → Assoc String Tx
forget_rank [] = []
forget_rank ((id, (rank, tx)) ∷ m) = (id, tx) ∷ forget_rank m

pub dedup_targets : Room → (AgentInfo → Bool) → Assoc String Tx
dedup_targets room pred = forget_rank (best_by_id pred [] room.agents)

-- `max_by_key`: of equal maxima the last.
unfoldable pub max_of_id :
    String → Option (Rank × Tx) → Assoc String AgentSession → Option (Rank × Tx)
max_of_id id best [] = best
max_of_id id best ((k, s) ∷ agents) =
    let rank = routing_rank s.info in
    max_of_id id
      (if s.info.id == id
        then elim best [
          | none ↦ some (rank, s.tx)
          | some (r, old) ↦ if rank_le r rank then some (rank, s.tx) else some (r, old)
        ]
        else best)
      agents

to_ascii_lowercase : ℕ → ℕ
to_ascii_lowercase c = if leb 65 c && leb c 90 then c + 32 else c

unfoldable pub eq_ignore_ascii_case : String → String → Bool
unfolding to_ascii_lowercase
eq_ignore_ascii_case String.[] String.[] = true
eq_ignore_ascii_case String.[] (String.◌∷◌ d t) = false
eq_ignore_ascii_case (String.◌∷◌ c s) String.[] = false
eq_ignore_ascii_case (String.◌∷◌ c s) (String.◌∷◌ d t) =
    nat_beq (to_ascii_lowercase (code c)) (to_ascii_lowercase (code d)) && eq_ignore_ascii_case s t

pub platform_matches : AgentInfo → String → Bool
platform_matches info family =
    eq_ignore_ascii_case family info.platform.family || eq_ignore_ascii_case family info.os

-- The test that a broadcast target makes of a session.
pub selects : Target → AgentInfo → Bool
selects (agent id) i = i.id == id
selects all_agents i = i.accepts_commands
selects (tagged tags) i = i.accepts_commands && any (λ t. any (λ u. u == t) tags) i.tags
selects (platform_family family) i = i.accepts_commands && platform_matches i family

-- `.map(|e| vec![(id, tx)]).unwrap_or_default()`
abbrev pub only : String → Option (Rank × Tx) → Assoc String Tx
only id none = []
only id (some (rank, tx)) = (id, tx) ∷ []

unfoldable pub resolve_targets : Room → Target → Assoc String Tx
resolve_targets room (agent id) = only id (max_of_id id none room.agents)
resolve_targets room all_agents = dedup_targets room (selects all_agents)
resolve_targets room (tagged tags) = dedup_targets room (selects (tagged tags))
resolve_targets room (platform_family family) =
    dedup_targets room (selects (platform_family family))

unfoldable pub find_by_session : String → Assoc String AgentSession → Option Tx
find_by_session sid [] = none
find_by_session sid ((k, s) ∷ agents) =
    let rest = find_by_session sid agents in
    elim s.info.session_id [ none ↦ rest | some i ↦ if i == sid then some s.tx else rest ]

unfoldable pub find_session_tx : Room → String → Option Tx
find_session_tx room sid = elim (lookup sid room.mcp) [
  | some m ↦ some m.tx
  | none ↦ elim (lookup sid room.agents) [
    | some s ↦ some s.tx
    | none ↦ find_by_session sid room.agents
  ]
]
