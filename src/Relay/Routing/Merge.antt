-- ===== src/Relay/Routing/Merge.antt =====
-- How the sessions of one machine are merged, by its id.
use tunshell_mcp_agents.Prelude.{
  ℕ, ◌+◌, String, List, [], ◌∷◌, ◌≡◌, refl, sym, ◌∙◌, ap, Option, some, ◌||◌, if◌then◌else◌, any,
  select, length, ltb, ◌==◌, string_eq, arith, eq_iff, Bool-cases, Option-cases, inl, inr,
}
use tunshell_mcp_agents.Assoc.{Assoc, lookup, insert, UniqueKeys}
use tunshell_mcp_agents.Assoc.Laws.{lookup-insert}
use tunshell_mcp_agents.Assoc.Keys.{insert-UniqueKeys}
use tunshell_mcp_agents.Relay.Types.{AgentInfo}
use tunshell_mcp_agents.Relay.Routing.{score, merge, merge_into, count_one, collapse}

-- The entry and the count of one id, from its sessions alone.
unfoldable pub merge_all : String → Option AgentInfo → List AgentInfo → Option AgentInfo
merge_all id o [] = o
merge_all id o (i ∷ is) = merge_all id (if i.id == id then some (merge_into o i) else o) is

unfoldable pub count_all : String → Option ℕ → List AgentInfo → Option ℕ
count_all id o [] = o
count_all id o (i ∷ is) = count_all id (if i.id == id then some (count_one o) else o) is

abbrev grow : Assoc String AgentInfo → AgentInfo → Assoc String AgentInfo
grow b i = insert i.id (merge_into (lookup i.id b) i) b

abbrev tally : Assoc String ℕ → AgentInfo → Assoc String ℕ
tally c i = insert i.id (count_one (lookup i.id c)) c

pub lookup-collapse :
    (id : String) (b : Assoc String AgentInfo) (c : Assoc String ℕ) (is : List AgentInfo)
    → lookup id (collapse b c is).0 ≡ merge_all id (lookup id b) is
unfolding collapse merge_all
lookup-collapse id b c [] = refl
lookup-collapse id b c (i ∷ is) =
    lookup-collapse id (grow b i) (tally c i) is
    ∙ ap (λ o. merge_all id o is)
        (lookup-insert i.id id _ b ∙ elim (Bool-cases (i.id == id)) [
          | inl hit ↦ rw hit (ap (λ k. some (merge_into (lookup k b) i)) ((eq_iff i.id id).0 hit))
          | inr miss ↦ rw miss
        ])

pub lookup-counts :
    (id : String) (b : Assoc String AgentInfo) (c : Assoc String ℕ) (is : List AgentInfo)
    → lookup id (collapse b c is).1 ≡ count_all id (lookup id c) is
unfolding collapse count_all
lookup-counts id b c [] = refl
lookup-counts id b c (i ∷ is) =
    lookup-counts id (grow b i) (tally c i) is
    ∙ ap (λ o. count_all id o is)
        (lookup-insert i.id id _ c ∙ elim (Bool-cases (i.id == id)) [
          | inl hit ↦ rw hit (ap (λ k. some (count_one (lookup k c))) ((eq_iff i.id id).0 hit))
          | inr miss ↦ rw miss
        ])

-- Every entry stands under its own id.
abbrev pub Keyed : Assoc String AgentInfo → Type 0
Keyed [] = Unit
Keyed ((k, rep) ∷ m) = (rep.id ≡ k) × Keyed m

insert-Keyed :
    (k : String) (rep : AgentInfo) (m : Assoc String AgentInfo)
    → rep.id ≡ k
    → Keyed m
    → Keyed (insert k rep m)
unfolding insert
insert-Keyed k rep [] e h = (e, tt)
insert-Keyed k rep ((j, w) ∷ m) e h = elim (Bool-cases (j == k)) [
  | inl hit ↦ rw hit (e ∙ sym ((eq_iff j k).0 hit), h.1)
  | inr miss ↦ rw miss (h.0, insert-Keyed k rep m e h.1)
]

lookup-Keyed :
    (k : String) (m : Assoc String AgentInfo) (rep : AgentInfo)
    → Keyed m
    → lookup k m ≡ some rep
    → rep.id ≡ k
unfolding lookup
lookup-Keyed k [] rep h e = cc
lookup-Keyed k ((j, w) ∷ m) rep h e = elim (Bool-cases (j == k)) [
  | inl hit ↦
      let same : w ≡ rep = ground (arith, hit, e) in
      ap (λ (a : AgentInfo). a.id) (sym same) ∙ h.0 ∙ (eq_iff j k).0 hit
  | inr miss ↦ lookup-Keyed k m rep h.1 (ground (arith, miss, e))
]

merge-id : (rep info : AgentInfo) → rep.id ≡ info.id → (merge rep info).id ≡ info.id
unfolding merge
merge-id rep info h = elim (Bool-cases (ltb (score rep) (score info))) [
  | inl up ↦ rw up
  | inr keep ↦ rw keep h
]

merge_into-id :
    (m : Assoc String AgentInfo) (i : AgentInfo)
    → Keyed m
    → (merge_into (lookup i.id m) i).id ≡ i.id
unfolding merge_into
merge_into-id m i h = elim (Option-cases (lookup i.id m)) [
  | inl e ↦ rw (e, merge_into)
  | inr (rep, e) ↦ rw (e, merge_into) (merge-id rep i (lookup-Keyed i.id m rep h e))
]

pub collapse-Keyed :
    (b : Assoc String AgentInfo) (c : Assoc String ℕ) (is : List AgentInfo)
    → Keyed b × UniqueKeys b
    → Keyed (collapse b c is).0 × UniqueKeys (collapse b c is).0
unfolding collapse
collapse-Keyed b c [] h = h
collapse-Keyed b c (i ∷ is) h = collapse-Keyed (grow b i) (tally c i) is (
  insert-Keyed i.id (merge_into (lookup i.id b) i) b (merge_into-id b i h.0) h.0,
  insert-UniqueKeys i.id (merge_into (lookup i.id b) i) b h.1,
)

merge-flags :
    (rep info : AgentInfo)
    → ((merge rep info).autonomous ≡ (rep.autonomous || info.autonomous))
      × ((merge rep info).accepts_commands ≡ (rep.accepts_commands || info.accepts_commands))
unfolding merge
merge-flags rep info = (refl, refl)

pub merge_all-flags :
    (id : String) (rep : AgentInfo) (is : List AgentInfo)
    → (r : AgentInfo) × (merge_all id (some rep) is ≡ some r)
      × (r.autonomous ≡ (rep.autonomous || any (λ a. a.autonomous) (select (λ a. a.id == id) is)))
      × (r.accepts_commands
          ≡ (rep.accepts_commands || any (λ a. a.accepts_commands) (select (λ a. a.id == id) is)))
unfolding merge_all merge_into
merge_all-flags id rep [] = (rep, refl, ground arith, ground arith)
merge_all-flags id rep (i ∷ is) = elim (Bool-cases (i.id == id)) [
  | inl hit ↦
      let (r, e, a, c) = merge_all-flags id (merge rep i) is in
      let (a', c') = merge-flags rep i in
      (r, rw hit e, rw hit (ground (arith, a, a')), rw hit (ground (arith, c, c')))
  | inr miss ↦ let (r, e, a, c) = merge_all-flags id rep is in (r, rw miss e, rw miss a, rw miss c)
]

pub count_all-some :
    (id : String) (n : ℕ) (is : List AgentInfo)
    → count_all id (some n) is ≡ some (n + length (select (λ a. a.id == id) is))
unfolding count_all count_one
count_all-some id n [] = ground arith
count_all-some id n (i ∷ is) = elim (Bool-cases (i.id == id)) [
  | inl hit ↦ rw hit (ground (arith, count_all-some id (n + 1) is))
  | inr miss ↦ rw miss (count_all-some id n is)
]
