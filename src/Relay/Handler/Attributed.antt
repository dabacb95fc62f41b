-- ===== src/Relay/Handler/Attributed.antt =====
-- Who a room's agents and requests belong to, and that its updates keep this.
use tunshell_mcp_agents.Prelude.{
  String, [], ◌∷◌, ◌≡◌, ◌≢◌, sym, ◌∙◌, ap, some, Bool, true, ◌||◌, ◌==◌, string_eq, arith, eq_iff,
  Bool-cases, inl, inr,
}
use tunshell_mcp_agents.Assoc.{Assoc, lookup, insert, remove, contains_key}
use tunshell_mcp_agents.Assoc.Laws.{lookup-insert, lookup-remove}
use tunshell_mcp_agents.Relay.Room.{Room, AgentSession, McpSession}
use tunshell_mcp_agents.Relay.Handler.{forget_origin}

abbrev pub present : Room → String → Bool
present room sid = contains_key sid room.agents || contains_key sid room.mcp

abbrev pub Attributed : Assoc String AgentSession → Type 0
Attributed [] = Unit
Attributed ((k, s) ∷ m) = (s.info.session_id ≡ some k) × Attributed m

abbrev pub Origins : (String → Bool) → Assoc String String → Type 0
Origins here [] = Unit
Origins here ((q, o) ∷ m) = (here o ≡ true) × Origins here m

pub record IsConsistent (room : Room) : Type 0 where
  pub attributed : Attributed room.agents
  pub origins : Origins (present room) room.pending

pub insert-Attributed :
    (k : String) (s : AgentSession) (m : Assoc String AgentSession)
    → s.info.session_id ≡ some k
    → Attributed m
    → Attributed (insert k s m)
unfolding insert
insert-Attributed k s [] e a = (e, tt)
insert-Attributed k s ((j, w) ∷ m) e a = elim (Bool-cases (j == k)) [
  | inl hit ↦ rw hit (e ∙ ap some (sym ((eq_iff j k).0 hit)), a.1)
  | inr miss ↦ rw miss (a.0, insert-Attributed k s m e a.1)
]

pub remove-Attributed :
    (k : String) (m : Assoc String AgentSession) → Attributed m → Attributed (remove k m)
unfolding remove
remove-Attributed k [] a = tt
remove-Attributed k ((j, w) ∷ m) a = elim (Bool-cases (j == k)) [
  | inl hit ↦ rw hit (remove-Attributed k m a.1)
  | inr miss ↦ rw miss (a.0, remove-Attributed k m a.1)
]

pub lookup-Attributed :
    (k : String) (m : Assoc String AgentSession) (s : AgentSession)
    → Attributed m
    → lookup k m ≡ some s
    → s.info.session_id ≡ some k
unfolding lookup
lookup-Attributed k [] s a e = cc
lookup-Attributed k ((j, w) ∷ m) s a e = elim (Bool-cases (j == k)) [
  | inl hit ↦
      let same : w ≡ s = ground (arith, hit, e) in
      ap (λ (x : AgentSession). x.info.session_id) (sym same) ∙ a.0 ∙ ap some ((eq_iff j k).0 hit)
  | inr miss ↦ lookup-Attributed k m s a.1 (ground (arith, miss, e))
]

-- The test of presence may grow.
pub mono-Origins :
    (here there : String → Bool) (m : Assoc String String)
    → ((o : String) → here o ≡ true → there o ≡ true)
    → Origins here m
    → Origins there m
mono-Origins here there [] up h = tt
mono-Origins here there ((q, o) ∷ m) up h = (up o h.0, mono-Origins here there m up h.1)

pub insert-Origins :
    (here : String → Bool) (q o : String) (m : Assoc String String)
    → here o ≡ true
    → Origins here m
    → Origins here (insert q o m)
unfolding insert
insert-Origins here q o [] e h = (e, tt)
insert-Origins here q o ((j, w) ∷ m) e h = elim (Bool-cases (j == q)) [
  | inl hit ↦ rw hit (e, h.1)
  | inr miss ↦ rw miss (h.0, insert-Origins here q o m e h.1)
]

-- Forgetting a session leaves the requests of the others.
pub forget-Origins :
    (here there : String → Bool) (sid : String) (m : Assoc String String)
    → ((o : String) → o ≢ sid → here o ≡ true → there o ≡ true)
    → Origins here m
    → Origins there (forget_origin sid m)
unfolding forget_origin
forget-Origins here there sid [] up h = tt
forget-Origins here there sid ((q, o) ∷ m) up h = elim (Bool-cases (o == sid)) [
  | inl hit ↦ rw hit (forget-Origins here there sid m up h.1)
  | inr miss ↦ rw miss (
    up o (λ e. ground (arith, miss, (eq_iff o sid).1 e)) h.0,
    forget-Origins here there sid m up h.1,
  )
]

pub contains-insert :
    (k j : String) (m : Assoc String AgentSession) (s : AgentSession)
    → contains_key j m ≡ true
    → contains_key j (insert k s m) ≡ true
unfolding contains_key
contains-insert k j m s h = ground (arith, lookup-insert k j s m)

pub contains-insert_mcp :
    (k j : String) (m : Assoc String McpSession) (s : McpSession)
    → contains_key j m ≡ true
    → contains_key j (insert k s m) ≡ true
unfolding contains_key
contains-insert_mcp k j m s h = ground (arith, lookup-insert k j s m)

pub contains-remove :
    (k j : String) (m : Assoc String AgentSession)
    → j ≢ k
    → contains_key j m ≡ true
    → contains_key j (remove k m) ≡ true
unfolding contains_key
contains-remove k j m ne h = ground (arith, lookup-remove k j m, eq_iff k j)

pub contains-remove_mcp :
    (k j : String) (m : Assoc String McpSession)
    → j ≢ k
    → contains_key j m ≡ true
    → contains_key j (remove k m) ≡ true
unfolding contains_key
contains-remove_mcp k j m ne h = ground (arith, lookup-remove k j m, eq_iff k j)
