-- ===== src/Udp/Candidates.antt =====
-- Endpoints and hole-punch candidates of udp.rs. An address is a number, equal addresses being
-- equal numbers.
use tunshell_mcp_agents.Prelude.{
  ℕ, List, [], ◌∷◌, ◌++◌, ◌≡◌, refl, Option, none, some, Bool, true, false, not, ◌&&◌, ◌||◌,
  if◌then◌else◌, arith, any, nat_beq, nat_beq_iff, Bool-cases, inl, inr, ◌↔◌,
}

pub record Endpoint : Type 0 where
  pub addr : ℕ
  pub port : ℕ

abbrev pub endpoint_beq : Endpoint → Endpoint → Bool
endpoint_beq a b = nat_beq a.addr b.addr && nat_beq a.port b.port

-- The relay saw our TCP port, so only the address of what it reflects counts.
pub reflexive_endpoint : Option Endpoint → Endpoint → Option Endpoint
reflexive_endpoint none local = none
reflexive_endpoint (some r) local = some (record { addr = r.addr; port = local.port })

abbrev pub contains : List Endpoint → Endpoint → Bool
contains v ep = any (λ x. endpoint_beq x ep) v

push_new : Endpoint → List Endpoint → List Endpoint
push_new ep v = if not (contains v ep) then v ++ ep ∷ [] else v

push_all : List Endpoint → List Endpoint → List Endpoint
push_all [] v = v
push_all (e ∷ extra) v = push_all extra (push_new e v)

pub candidate_addrs_multi : Endpoint → List Endpoint → Option Endpoint → List Endpoint
candidate_addrs_multi local extra public =
    let v = push_new local (push_all extra []) in elim public [ none ↦ v | some p ↦ push_new p v ]

pub candidate_addrs : Endpoint → Option Endpoint → List Endpoint
candidate_addrs local public = candidate_addrs_multi local [] public

endpoint_beq_iff : (a b : Endpoint) → (endpoint_beq a b ≡ true) ↔ (a ≡ b)
endpoint_beq_iff a b = ground (arith, nat_beq_iff a.addr b.addr, nat_beq_iff a.port b.port)

-- No candidate stands twice.
abbrev pub Unrepeated : List Endpoint → Type 0
Unrepeated [] = Unit
Unrepeated (e ∷ v) = (contains v e ≡ false) × Unrepeated v

contains-append :
    (v w : List Endpoint) (e : Endpoint) → contains (v ++ w) e ≡ (contains v e || contains w e)
contains-append [] w e = refl
contains-append (x ∷ v) w e = ground (arith, contains-append v w e)

snoc-Unrepeated :
    (ep : Endpoint) (v : List Endpoint)
    → contains v ep ≡ false
    → Unrepeated v
    → Unrepeated (v ++ ep ∷ [])
snoc-Unrepeated ep [] h u = (refl, tt)
snoc-Unrepeated ep (x ∷ v) h u = ground (
  arith,
  contains-append v (ep ∷ []) x,
  snoc-Unrepeated ep v,
  endpoint_beq_iff x ep,
  endpoint_beq_iff ep x,
)

push_new-Unrepeated :
    (ep : Endpoint) (v : List Endpoint) → Unrepeated v → Unrepeated (push_new ep v)
unfolding push_new
push_new-Unrepeated ep v u = elim (Bool-cases (contains v ep)) [
  | inl old ↦ rw old u
  | inr new ↦ rw new (snoc-Unrepeated ep v new u)
]

push_all-Unrepeated : (extra v : List Endpoint) → Unrepeated v → Unrepeated (push_all extra v)
unfolding push_all
push_all-Unrepeated [] v u = u
push_all-Unrepeated (e ∷ extra) v u =
    push_all-Unrepeated extra (push_new e v) (push_new-Unrepeated e v u)

contains-push_new :
    (e ep : Endpoint) (v : List Endpoint)
    → contains (push_new ep v) e ≡ (endpoint_beq ep e || contains v e)
unfolding push_new
contains-push_new e ep v = ground (arith, contains-append v (ep ∷ []) e, endpoint_beq_iff ep e)

contains-push_all :
    (e : Endpoint) (extra v : List Endpoint)
    → contains (push_all extra v) e ≡ (contains extra e || contains v e)
unfolding push_all
contains-push_all e [] v = refl
contains-push_all e (x ∷ extra) v =
    ground (arith, contains-push_all e extra (push_new x v), contains-push_new e x v)

-- Whether an endpoint is the optional public one.
abbrev pub is_public : Endpoint → Option Endpoint → Bool
is_public e none = false
is_public e (some p) = endpoint_beq p e

-- The candidates are exactly the advertised ones, the local one and the public one, each once.
pub candidate_addrs_multi-exact :
    (local : Endpoint) (extra : List Endpoint) (public : Option Endpoint)
    → Unrepeated (candidate_addrs_multi local extra public)
      × ((e : Endpoint)
          → contains (candidate_addrs_multi local extra public) e
            ≡ (contains extra e || (endpoint_beq local e || is_public e public)))
unfolding candidate_addrs_multi
candidate_addrs_multi-exact local extra none =
    let u = push_new-Unrepeated local (push_all extra []) (push_all-Unrepeated extra [] tt) in
    (
      u,
      λ e.
          ground
            (arith, contains-push_new e local (push_all extra []), contains-push_all e extra []),
    )
candidate_addrs_multi-exact local extra (some p) =
    let u = push_new-Unrepeated local (push_all extra []) (push_all-Unrepeated extra [] tt) in
    (
      push_new-Unrepeated p _ u,
      λ e. ground (
        arith,
        contains-push_new e p (push_new local (push_all extra [])),
        contains-push_new e local (push_all extra []),
        contains-push_all e extra [],
      ),
    )
