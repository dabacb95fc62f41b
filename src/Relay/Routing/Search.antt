-- ===== src/Relay/Routing/Search.antt =====
-- The search for the best session of a machine, one session after another.
use tunshell_mcp_agents.Prelude.{
  String, [], ◌∷◌, ◌≡◌, refl, sym, ◌∙◌, ap, ◌⊎◌, Option, none, some, Bool, true, false, ◌&&◌,
  if◌then◌else◌, ◌==◌, string_eq, arith, eq_iff, Bool-cases, inl, inr,
}
use tunshell_mcp_agents.Assoc.{Assoc}
use tunshell_mcp_agents.Relay.Types.{AgentInfo}
use tunshell_mcp_agents.Relay.Room.{AgentSession, Tx}
use tunshell_mcp_agents.Relay.Routing.{Rank, routing_rank, rank_le, better}

-- Some entry of the map has the property.
abbrev Some : (AgentSession → Type 0) → Assoc String AgentSession → Type 0
Some P [] = ⊥
Some P ((k, s) ∷ m) = P s ⊎ Some P m

abbrev pub Every : (AgentSession → Type 0) → Assoc String AgentSession → Type 0
Every P [] = Unit
Every P ((k, s) ∷ m) = P s × Every P m

-- A session of machine `id` that the test selects.
abbrev pub Eligible : (AgentInfo → Bool) → String → AgentSession → Type 0
Eligible pred id s = (pred s.info ≡ true) × (s.info.id ≡ id)

-- `tx` is the channel of an eligible session that no eligible session of the machine outranks.
pub record IsBest (pred : AgentInfo → Bool) (id : String) (agents : Assoc String AgentSession)
    (tx : Tx) : Type 0 where
  pub rank : Rank
  pub source : Some (λ s. Eligible pred id s × (s.tx ≡ tx) × (routing_rank s.info ≡ rank)) agents
  pub top : Every (λ s. Eligible pred id s → rank_le (routing_rank s.info) rank ≡ true) agents

rank_le_refl : (a : Rank) → rank_le a a ≡ true
rank_le_refl a = ground arith

rank_le_trans : (a b c : Rank) → rank_le a b ≡ true → rank_le b c ≡ true → rank_le a c ≡ true
rank_le_trans a b c h k = ground arith

rank_le_total : (a b : Rank) → rank_le a b ≡ false → rank_le b a ≡ true
rank_le_total a b h = ground arith

-- One step of either search keeps the best so far, or takes the session, and loses neither rank.
abbrev pub Replaces : Rank × Tx → Rank × Tx → Rank × Tx → Type 0
Replaces old new res =
    ((res ≡ old) ⊎ (res ≡ new)) × (rank_le old.0 res.0 ≡ true) × (rank_le new.0 res.0 ≡ true)

abbrev pub first_max : Rank × Tx → Rank × Tx → Rank × Tx
first_max old new = better (some old) new.0 new.1

pub first_max-Replaces : (old new : Rank × Tx) → Replaces old new (first_max old new)
unfolding better
first_max-Replaces old new = elim (Bool-cases (rank_le new.0 old.0)) [
  | inl le ↦ rw le (inl refl, rank_le_refl old.0, le)
  | inr gt ↦ rw gt (inr refl, rank_le_total new.0 old.0 gt, rank_le_refl new.0)
]

unfoldable pub last_max : Rank × Tx → Rank × Tx → Rank × Tx
last_max old new = if rank_le old.0 new.0 then new else old

pub last_max-Replaces : (old new : Rank × Tx) → Replaces old new (last_max old new)
unfolding last_max
last_max-Replaces old new = elim (Bool-cases (rank_le old.0 new.0)) [
  | inl le ↦ rw le (inr refl, le, rank_le_refl new.0)
  | inr gt ↦ rw gt (inl refl, rank_le_refl old.0, rank_le_total old.0 new.0 gt)
]

-- The search of one machine: `choose` is the step.
module _ (choose : Rank × Tx → Rank × Tx → Rank × Tx)
    (replaces : (old new : Rank × Tx) → Replaces old new (choose old new)) (pred : AgentInfo → Bool)
    (id : String) where
  unfoldable pub hit : AgentSession → Bool
  hit s = pred s.info && (s.info.id == id)

  unfoldable pub candidate : AgentSession → Rank × Tx
  candidate s = (routing_rank s.info, s.tx)

  unfoldable pub add : Option (Rank × Tx) → AgentSession → Option (Rank × Tx)
  add none s = some (candidate s)
  add (some old) s = some (choose old (candidate s))

  unfoldable pub search_best : Option (Rank × Tx) → Assoc String AgentSession → Option (Rank × Tx)
  search_best o [] = o
  search_best o ((k, s) ∷ agents) = search_best (if hit s then add o s else o) agents

  abbrev Found : Rank × Tx → Assoc String AgentSession → Type 0
  Found best agents =
      Some (λ s. Eligible pred id s × (s.tx ≡ best.1) × (routing_rank s.info ≡ best.0)) agents

  abbrev Topped : Rank → Assoc String AgentSession → Type 0
  Topped rank = Every λ s. Eligible pred id s → rank_le (routing_rank s.info) rank ≡ true

  hit→Eligible : (s : AgentSession) → hit s ≡ true → Eligible pred id s
  unfolding hit
  hit→Eligible s h = (ground (arith, h), ground (arith, h, eq_iff s.info.id id))

  miss→not : (s : AgentSession) → hit s ≡ false → ¬ Eligible pred id s
  unfolding hit
  miss→not s h e = ground (arith, h, e.0, e.1, eq_iff s.info.id id)

  found :
      (s : AgentSession) (best : Rank × Tx)
      → Eligible pred id s
      → best ≡ candidate s
      → Eligible pred id s × (s.tx ≡ best.1) × (routing_rank s.info ≡ best.0)
  unfolding candidate
  found s best el e = (el, ap (λ (x : Rank × Tx). x.1) (sym e), ap (λ (x : Rank × Tx). x.0) (sym e))

  search_best-some :
      (old : Rank × Tx) (agents : Assoc String AgentSession)
      → (best : Rank × Tx) × (search_best (some old) agents ≡ some best)
        × (rank_le old.0 best.0 ≡ true)
        × ((best ≡ old) ⊎ Found best agents)
        × Topped best.0 agents
  unfolding search_best add candidate
  search_best-some old [] = (old, refl, rank_le_refl old.0, inl refl, tt)
  search_best-some old ((k, s) ∷ agents) = elim (Bool-cases (hit s)) [
    | inl h ↦
        let new = candidate s in
        let res = choose old new in
        let (which, up_old, up_new) = replaces old new in
        let (best, e, up, from, top) = search_best-some res agents in
        (
          best,
          rw h e,
          rank_le_trans old.0 res.0 best.0 up_old up,
          elim from [
            | inr f ↦ inr (inr f)
            | inl same ↦ elim which [
              | inl kept ↦ inl (same ∙ kept)
              | inr taken ↦ inr (inl (found s best (hit→Eligible s h) (same ∙ taken)))
            ]
          ],
          ((λ _. rank_le_trans new.0 res.0 best.0 up_new up), top),
        )
    | inr m ↦
        let (best, e, up, from, top) = search_best-some old agents in
        (
          best,
          rw m e,
          up,
          elim from [ inl same ↦ inl same | inr f ↦ inr (inr f) ],
          ((λ e. absurd (miss→not s m e)), top),
        )
  ]

  pub search_best-none :
      (agents : Assoc String AgentSession)
      → ((search_best none agents ≡ none) × Every (λ s. ¬ Eligible pred id s) agents)
        ⊎ ((best : Rank × Tx) × (search_best none agents ≡ some best)
            × Found best agents
            × Topped best.0 agents)
  unfolding search_best add candidate
  search_best-none [] = inl (refl, tt)
  search_best-none ((k, s) ∷ agents) = elim (Bool-cases (hit s)) [
    | inl h ↦
        let (best, e, up, from, top) = search_best-some (candidate s) agents in
        inr (
          best,
          rw h e,
          elim from [ inl same ↦ inl (found s best (hit→Eligible s h) same) | inr f ↦ inr f ],
          ((λ _. up), top),
        )
    | inr m ↦ elim (search_best-none agents) [
      | inl (e, absent) ↦ inl (rw m e, (miss→not s m, absent))
      | inr (best, e, f, top) ↦ inr (best, rw m e, inr f, ((λ e. absurd (miss→not s m e)), top))
    ]
  ]
