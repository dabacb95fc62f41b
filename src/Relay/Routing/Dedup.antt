-- ===== src/Relay/Routing/Dedup.antt =====
-- What `dedup_agents` lists: every machine once, with the capabilities of all of its sessions.
use tunshell_mcp_agents.Prelude.{
  ℕ, String, List, [], ◌∷◌, ◌≡◌, ◌≢◌, refl, ◌∙◌, ap, ◌⊎◌, Option, none, some, any, find, select,
  length, ◌==◌, string_eq, arith, eq_iff, Bool-cases, inl, inr,
}
use mathlib.Core.Path.{ap₂}
use tunshell_mcp_agents.Assoc.{Assoc, lookup, UniqueKeys}
use tunshell_mcp_agents.Relay.Types.{AgentInfo}
use tunshell_mcp_agents.Relay.Room.{Room}
use tunshell_mcp_agents.Relay.Routing.{
  merge_into, count_one, collapse, with_counts, infos, dedup_agents,
}
use tunshell_mcp_agents.Relay.Routing.Merge.{
  merge_all, count_all, lookup-collapse, lookup-counts, Keyed, collapse-Keyed, merge_all-flags,
  count_all-some,
}

-- The sessions of one machine.
abbrev pub sessions_of : String → List AgentInfo → List AgentInfo
sessions_of id is = select (λ a. a.id == id) is

abbrev Entry : String → List AgentInfo → AgentInfo → Type 0
Entry id is r =
    (merge_all id none is ≡ some r)
    × (count_all id none is ≡ some (length (sessions_of id is)))
    × (r.autonomous ≡ any (λ a. a.autonomous) (sessions_of id is))
    × (r.accepts_commands ≡ any (λ a. a.accepts_commands) (sessions_of id is))
    × (sessions_of id is ≢ [])

Entry-cases :
    (id : String) (is : List AgentInfo)
    → ((sessions_of id is ≡ []) × (merge_all id none is ≡ none)) ⊎ ((r : AgentInfo) × Entry id is r)
unfolding merge_all count_all merge_into count_one
Entry-cases id [] = inl (refl, refl)
Entry-cases id (i ∷ is) = elim (Bool-cases (i.id == id)) [
  | inl hit ↦
      let (r, e, a, c) = merge_all-flags id i is in
      inr (
        r,
        (
          rw hit e,
          rw hit (ground (arith, count_all-some id 1 is)),
          rw hit a,
          rw hit c,
          rw hit (λ e. cc),
        ),
      )
  | inr miss ↦ elim (Entry-cases id is) [
    | inl (e, m) ↦ inl (rw miss e, rw miss m)
    | inr (r, (e, n, a, c, some_left)) ↦
        inr (r, (rw miss e, rw miss n, rw miss a, rw miss c, rw miss some_left))
  ]
]

lookup-nil {ℓ} : {V : Type ℓ} (id : String) → lookup {V = V} id [] ≡ none
unfolding lookup
lookup-nil id = refl

-- An entry with its count.
abbrev counted : Option ℕ → Option AgentInfo → Option AgentInfo
counted n none = none
counted n (some rep) = some (record rep { connections = n })

find-with_counts :
    (id : String) (c : Assoc String ℕ) (b : Assoc String AgentInfo)
    → Keyed b
    → find (λ a. a.id == id) (with_counts c b) ≡ counted (lookup id c) (lookup id b)
unfolding with_counts lookup
find-with_counts id c [] h = refl
find-with_counts id c ((k, rep) ∷ b) h = elim (Bool-cases (k == id)) [
  | inl hit ↦ rw hit (
      rw (ap (λ j. j == id) h.0 ∙ hit)
        (ap (λ j. some (record rep { connections = lookup j c })) ((eq_iff k id).0 hit)))
  | inr miss ↦ rw miss (rw (ap (λ j. j == id) h.0 ∙ miss) (find-with_counts id c b h.1))
]

-- No id stands twice.
abbrev pub UniqueIds : List AgentInfo → Type 0
UniqueIds [] = Unit
UniqueIds (a ∷ rest) = (find (λ b. b.id == a.id) rest ≡ none) × UniqueIds rest

with_counts-UniqueIds :
    (c : Assoc String ℕ) (b : Assoc String AgentInfo)
    → Keyed b
    → UniqueKeys b
    → UniqueIds (with_counts c b)
unfolding with_counts
with_counts-UniqueIds c [] h u = tt
with_counts-UniqueIds c ((k, rep) ∷ b) h u = (
  rw h.0 (find-with_counts k c b h.1 ∙ ap (counted (lookup k c)) u.0),
  with_counts-UniqueIds c b h.1 u.1,
)

-- `dedup_agents` lists every machine once. A machine without a session is not listed; one with
-- sessions is listed with the number of its sessions, as autonomous exactly if one of its sessions
-- is, and as accepting commands exactly if one of its sessions does.
pub dedup_agents-merges :
    (room : Room)
    → UniqueIds (dedup_agents room)
      × ((id : String)
          → let mine = sessions_of id (infos room.agents) in
            ((mine ≡ []) × (find (λ a. a.id == id) (dedup_agents room) ≡ none))
            ⊎ ((rep : AgentInfo) × (mine ≢ [])
                × (find (λ a. a.id == id) (dedup_agents room) ≡ some rep)
                × (rep.connections ≡ some (length mine))
                × (rep.autonomous ≡ any (λ a. a.autonomous) mine)
                × (rep.accepts_commands ≡ any (λ a. a.accepts_commands) mine)))
unfolding dedup_agents
dedup_agents-merges room =
    let is = infos room.agents in
    let (keyed, unique) = collapse-Keyed [] [] is (tt, tt) in
    (
      with_counts-UniqueIds (collapse [] [] is).1 (collapse [] [] is).0 keyed unique,
      λ id.
          let listed = find-with_counts id (collapse [] [] is).1 (collapse [] [] is).0 keyed in
          let entry = lookup-collapse id [] [] is ∙ ap (λ o. merge_all id o is) (lookup-nil id) in
          let count = lookup-counts id [] [] is ∙ ap (λ o. count_all id o is) (lookup-nil id) in
          elim (Entry-cases id is) [
            | inl (e, m) ↦ inl (e, listed ∙ ap (counted _) (entry ∙ m))
            | inr (r, (e, n, a, c, some_left)) ↦ inr (
              record r { connections = some (length (sessions_of id is)) },
              some_left,
              listed ∙ ap₂ counted (count ∙ n) (entry ∙ e),
              refl,
              a,
              c,
            )
          ],
    )
