-- ===== src/Relay/Routing/Targets.antt =====
-- Which session of a machine a message goes to.
use tunshell_mcp_agents.Prelude.{
  String, [], ◌∷◌, ◌≡◌, refl, ◌∙◌, ap, Option, none, some, Bool, true, false, if◌then◌else◌, ◌==◌,
  string_eq, arith, eq_iff, Bool-cases, inl, inr, subst,
}
use tunshell_mcp_agents.Assoc.{Assoc, lookup, insert, UniqueKeys}
use tunshell_mcp_agents.Assoc.Laws.{lookup-insert}
use tunshell_mcp_agents.Assoc.Keys.{insert-UniqueKeys}
use tunshell_mcp_agents.Relay.Types.{AgentInfo, Target, agent, all_agents, tagged, platform_family}
use tunshell_mcp_agents.Relay.Room.{Room, new_room, AgentSession, Tx}
use tunshell_mcp_agents.Relay.Routing.{
  Rank, routing_rank, rank_le, better, best_by_id, forget_rank, dedup_targets, max_of_id, selects,
  resolve_targets, only,
}
use tunshell_mcp_agents.Relay.Routing.Search.{
  IsBest, Every, Eligible, Replaces, first_max, first_max-Replaces, last_max, last_max-Replaces,
  hit, candidate, add, search_best, search_best-none,
}

abbrev improve :
    (AgentInfo → Bool) → Assoc String (Rank × Tx) → AgentSession → Assoc String (Rank × Tx)
improve pred m s =
    if pred s.info
    then insert s.info.id (better (lookup s.info.id m) (routing_rank s.info) s.tx) m
    else m

better-add :
    (pred : AgentInfo → Bool) (id : String) (o : Option (Rank × Tx)) (s : AgentSession)
    → some (better o (routing_rank s.info) s.tx) ≡ add first_max first_max-Replaces pred id o s
unfolding add candidate better
better-add pred id none s = refl
better-add pred id (some (r, old)) s = refl

lookup-improve :
    (pred : AgentInfo → Bool) (id : String) (m : Assoc String (Rank × Tx)) (s : AgentSession)
    → lookup id (improve pred m s) ≡ (
        if hit first_max first_max-Replaces pred id s
        then add first_max first_max-Replaces pred id (lookup id m) s
        else lookup id m)
unfolding hit
lookup-improve pred id m s = elim (Bool-cases (pred s.info)) [
  | inr miss ↦ rw miss
  | inl fits ↦ rw fits (
      lookup-insert s.info.id id _ m ∙ elim (Bool-cases (s.info.id == id)) [
        | inr other ↦ rw other
        | inl same ↦ rw same (
            ap (λ j. some (better (lookup j m) (routing_rank s.info) s.tx))
              ((eq_iff s.info.id id).0 same)
            ∙ better-add pred id (lookup id m) s)
      ])
]

abbrev take_max : String → Option (Rank × Tx) → AgentSession → Option (Rank × Tx)
take_max id best s =
    if s.info.id == id
    then elim best [
      | none ↦ some (routing_rank s.info, s.tx)
      | some (r, old) ↦
          if rank_le r (routing_rank s.info)
          then some (routing_rank s.info, s.tx)
          else some (r, old)
    ]
    else best

take_max-add :
    (id : String) (o : Option (Rank × Tx)) (s : AgentSession)
    → take_max id o s ≡ (
        if hit last_max last_max-Replaces (selects (agent id)) id s
        then add last_max last_max-Replaces (selects (agent id)) id o s
        else o)
unfolding hit add selects candidate last_max
take_max-add id none s = ground arith
take_max-add id (some (r, old)) s = ground arith

lookup-best_by_id :
    (pred : AgentInfo → Bool) (id : String) (m : Assoc String (Rank × Tx))
    (agents : Assoc String AgentSession)
    → lookup id (best_by_id pred m agents)
      ≡ search_best first_max first_max-Replaces pred id (lookup id m) agents
unfolding best_by_id search_best
lookup-best_by_id pred id m [] = refl
lookup-best_by_id pred id m ((k, s) ∷ agents) =
    lookup-best_by_id pred id (improve pred m s) agents
    ∙ ap (λ o. search_best first_max first_max-Replaces pred id o agents)
        (lookup-improve pred id m s)

best_by_id-UniqueKeys :
    (pred : AgentInfo → Bool) (m : Assoc String (Rank × Tx)) (agents : Assoc String AgentSession)
    → UniqueKeys m
    → UniqueKeys (best_by_id pred m agents)
unfolding best_by_id
best_by_id-UniqueKeys pred m [] u = u
best_by_id-UniqueKeys pred m ((k, s) ∷ agents) u =
    best_by_id-UniqueKeys pred (improve pred m s) agents (elim (Bool-cases (pred s.info)) [
      | inl hit ↦ rw hit (insert-UniqueKeys s.info.id _ m u)
      | inr miss ↦ rw miss u
    ])

max_of_id-search :
    (id : String) (o : Option (Rank × Tx)) (agents : Assoc String AgentSession)
    → max_of_id id o agents
      ≡ search_best last_max last_max-Replaces (selects (agent id)) id o agents
unfolding max_of_id search_best
max_of_id-search id o [] = refl
max_of_id-search id o ((k, s) ∷ agents) =
    max_of_id-search id (take_max id o s) agents
    ∙ ap (λ p. search_best last_max last_max-Replaces (selects (agent id)) id p agents)
        (take_max-add id o s)

abbrev channel : Option (Rank × Tx) → Option Tx
channel none = none
channel (some (r, tx)) = some tx

lookup-nil {ℓ} : {V : Type ℓ} (id : String) → lookup {V = V} id [] ≡ none
unfolding lookup
lookup-nil id = refl

lookup-forget_rank :
    (id : String) (m : Assoc String (Rank × Tx)) → lookup id (forget_rank m) ≡ channel (lookup id m)
unfolding lookup
lookup-forget_rank id [] = refl
lookup-forget_rank id ((k, (r, tx)) ∷ m) = elim (Bool-cases (k == id)) [
  | inl hit ↦ rw hit
  | inr miss ↦ rw miss (lookup-forget_rank id m)
]

forget_rank-UniqueKeys : (m : Assoc String (Rank × Tx)) → UniqueKeys m → UniqueKeys (forget_rank m)
forget_rank-UniqueKeys [] u = tt
forget_rank-UniqueKeys ((k, (r, tx)) ∷ m) u =
    (lookup-forget_rank k m ∙ ap channel u.0, forget_rank-UniqueKeys m u.1)

-- What a lookup among resolved targets says.
abbrev pub Verdict : (AgentInfo → Bool) → String → Assoc String AgentSession → Option Tx → Type 0
Verdict pred id agents none = Every (λ s. ¬ Eligible pred id s) agents
Verdict pred id agents (some tx) = IsBest pred id agents tx

search_best-Verdict :
    (choose : Rank × Tx → Rank × Tx → Rank × Tx)
    (replaces : (old new : Rank × Tx) → Replaces old new (choose old new)) (pred : AgentInfo → Bool)
    (id : String) (agents : Assoc String AgentSession)
    → Verdict pred id agents (channel (search_best choose replaces pred id none agents))
search_best-Verdict choose replaces pred id agents =
    elim (search_best-none choose replaces pred id agents) [
      | inl (e, absent) ↦ rw e absent
      | inr ((r, tx), e, f, top) ↦ rw e (record { rank = r; source = f; top = top })
    ]

dedup_targets-Verdict :
    (room : Room) (pred : AgentInfo → Bool) (id : String)
    → Verdict pred id room.agents (lookup id (dedup_targets room pred))
unfolding dedup_targets
dedup_targets-Verdict room pred id =
    rw
      (lookup-forget_rank id (best_by_id pred [] room.agents)
        ∙ ap channel (
            lookup-best_by_id pred id [] room.agents
            ∙ ap (λ o. search_best first_max first_max-Replaces pred id o room.agents)
                (lookup-nil id)))
      (search_best-Verdict first_max first_max-Replaces pred id room.agents)

lookup-only :
    (a id : String) (o : Option (Rank × Tx))
    → lookup id (only a o) ≡ (if a == id then channel o else none)
unfolding lookup
lookup-only a id none = ground arith
lookup-only a id (some (r, tx)) = refl

only-UniqueKeys : (a : String) (o : Option (Rank × Tx)) → UniqueKeys (only a o)
unfolding lookup
only-UniqueKeys a none = tt
only-UniqueKeys a (some (r, tx)) = (refl, tt)

lookup-resolve_agent :
    (room : Room) (a id : String)
    → lookup id (resolve_targets room (agent a))
      ≡ (if a == id then channel (max_of_id a none room.agents) else none)
unfolding resolve_targets
lookup-resolve_agent room a id = lookup-only a id (max_of_id a none room.agents)

none_elsewhere :
    (a id : String) (agents : Assoc String AgentSession)
    → (a == id) ≡ false
    → Every (λ s. ¬ Eligible (selects (agent a)) id s) agents
unfolding selects
none_elsewhere a id [] h = tt
none_elsewhere a id ((k, s) ∷ agents) h = (
  (λ e. ground (arith, h, e.0, e.1, eq_iff s.info.id a, eq_iff a id)),
  none_elsewhere a id agents h,
)

resolve_agent-Verdict :
    (room : Room) (a id : String)
    → Verdict (selects (agent a)) id room.agents (lookup id (resolve_targets room (agent a)))
resolve_agent-Verdict room a id = rw (lookup-resolve_agent room a id) (elim (Bool-cases (a == id)) [
  | inr other ↦ rw other (none_elsewhere a id room.agents other)
  | inl same ↦ rw same (
      subst
        (λ j. Verdict (selects (agent a)) j room.agents (channel (max_of_id a none room.agents)))
        ((eq_iff a id).0 same)
        (rw (max_of_id-search a none room.agents)
          (search_best-Verdict last_max last_max-Replaces (selects (agent a)) a room.agents)))
])

resolve_agent-UniqueKeys : (room : Room) (a : String) → UniqueKeys (resolve_targets room (agent a))
unfolding resolve_targets
resolve_agent-UniqueKeys room a = only-UniqueKeys a (max_of_id a none room.agents)

dedup_targets-UniqueKeys :
    (room : Room) (pred : AgentInfo → Bool) → UniqueKeys (dedup_targets room pred)
unfolding dedup_targets
dedup_targets-UniqueKeys room pred =
    forget_rank-UniqueKeys _ (best_by_id-UniqueKeys pred [] room.agents tt)

-- A command goes to a machine at most once, whatever the target. It goes to a machine exactly if
-- the machine has a session that the target selects, and then on the channel of such a session
-- that none of them outranks by capability and then by freshness.
pub resolve_targets-best :
    (room : Room) (target : Target)
    → UniqueKeys (resolve_targets room target)
      × ((id : String)
          → Verdict (selects target) id room.agents (lookup id (resolve_targets room target)))
unfolding resolve_targets
resolve_targets-best room (agent a) =
    (resolve_agent-UniqueKeys room a, λ id. resolve_agent-Verdict room a id)
resolve_targets-best room all_agents =
    (dedup_targets-UniqueKeys room _, λ id. dedup_targets-Verdict room _ id)
resolve_targets-best room (tagged tags) =
    (dedup_targets-UniqueKeys room _, λ id. dedup_targets-Verdict room _ id)
resolve_targets-best room (platform_family family) =
    (dedup_targets-UniqueKeys room _, λ id. dedup_targets-Verdict room _ id)

abbrev pub pair : String → String × AgentSession → String × AgentSession → Room
pair name a b = record (new_room name) { agents = a ∷ b ∷ [] }

-- Two sessions of one machine, one that accepts commands and is not autonomous, one that is
-- autonomous and send-only: a command to the machine goes to the send-only session, in whichever
-- order the sessions are visited, and a broadcast that visits the other first goes to the other.
pub send_only_hijack :
    (name : String) (k j : String) (worker sender : AgentSession)
    → worker.info.id ≡ sender.info.id
    → worker.info.accepts_commands ≡ true
    → worker.info.autonomous ≡ false
    → sender.info.accepts_commands ≡ false
    → sender.info.autonomous ≡ true
    → (resolve_targets (pair name (k, worker) (j, sender)) (agent worker.info.id)
        ≡ (worker.info.id, sender.tx) ∷ [])
      × (resolve_targets (pair name (j, sender) (k, worker)) (agent worker.info.id)
          ≡ (worker.info.id, sender.tx) ∷ [])
      × (resolve_targets (pair name (k, worker) (j, sender)) all_agents
          ≡ (worker.info.id, worker.tx) ∷ [])
unfolding resolve_targets max_of_id dedup_targets best_by_id selects routing_rank better lookup
    insert
send_only_hijack name k j worker sender same wa wu sa su = (
  ground (arith, eq_iff worker.info.id worker.info.id, eq_iff sender.info.id worker.info.id),
  ground (arith, eq_iff worker.info.id worker.info.id, eq_iff sender.info.id worker.info.id),
  ground (arith, eq_iff worker.info.id worker.info.id, eq_iff sender.info.id worker.info.id),
)
