-- ===== src/Assoc/Keys.antt =====
-- Keys that stand once, and the pigeonhole principle for keys below a bound.
use tunshell_mcp_agents.Prelude.{
  ◌==◌, Bool-cases, inl, inr, subst, ℕ, zero, suc, ◌+◌, ◌≤◌, ◌<◌, [], ◌∷◌, ◌≡◌, refl, none, some,
  if◌then◌else◌, Eq, arith, true, nat_eq, length, All,
}
use native.Mathlib.Decide.{ℕ_discrete}
use tunshell_mcp_agents.Assoc.{Assoc, lookup, insert, remove, contains_key, UniqueKeys}
use tunshell_mcp_agents.Assoc.Laws.{lookup-insert, lookup-remove}

module _ {ℓ κ} {K : Type ℓ} {V : Type κ} ⦃e : Eq K⦄ where
  pub insert-UniqueKeys : (k : K) (v : V) (m : Assoc K V) → UniqueKeys m → UniqueKeys (insert k v m)
  unfolding insert lookup
  insert-UniqueKeys k v [] u = (refl, tt)
  insert-UniqueKeys k v ((j, w) ∷ m) u =
      ground
        (arith, e.beq_iff j k, e.beq_iff k j, lookup-insert k j v m, insert-UniqueKeys k v m u.1)

  pub remove-UniqueKeys : (k : K) (m : Assoc K V) → UniqueKeys m → UniqueKeys (remove k m)
  unfolding remove
  remove-UniqueKeys k [] u = tt
  remove-UniqueKeys k ((j, w) ∷ m) u =
      ground (arith, lookup-remove k j m, e.beq_iff j k, e.beq_iff k j, remove-UniqueKeys k m u.1)

  pub remove-insert_self : (k : K) (v : V) (m : Assoc K V) → remove k (insert k v m) ≡ remove k m
  unfolding remove insert
  remove-insert_self k v [] = ground (arith, e.beq_iff k k)
  remove-insert_self k v ((j, w) ∷ m) = ground (arith, remove-insert_self k v m)

  remove_absent : (k : K) (m : Assoc K V) → lookup k m ≡ none → remove k m ≡ m
  unfolding remove lookup
  remove_absent k [] h = refl
  remove_absent k ((j, w) ∷ m) h = ground (arith, remove_absent k m)

  pub length-remove :
      (k : K) (m : Assoc K V)
      → UniqueKeys m
      → length m ≡ length (remove k m) + (if contains_key k m then 1 else 0)
  unfolding remove contains_key
  length-remove k [] u = refl
  length-remove k ((j, w) ∷ m) u =
      ground (arith, remove_absent k m, length-remove k m u.1, e.beq_iff j k, e.beq_iff k j)

  pub length-insert :
      (k : K) (v : V) (m : Assoc K V)
      → length (insert k v m) ≡ length m + (if contains_key k m then 0 else 1)
  unfolding insert contains_key
  length-insert k v [] = refl
  length-insert k v ((j, w) ∷ m) = ground (arith, length-insert k v m)

module _ {κ} {V : Type κ} where
  abbrev pub Below : ℕ → Assoc ℕ V → Type 0
  Below n = All λ p. p.0 < n

  pub insert-Below : (n k : ℕ) (v : V) (m : Assoc ℕ V) → k < n → Below n m → Below n (insert k v m)
  unfolding insert
  insert-Below n k v [] h b = (h, tt)
  insert-Below n k v ((j, w) ∷ m) h b = ground (arith, insert-Below n k v m h b.1)

  remove-Below : (n : ℕ) (m : Assoc ℕ V) → Below (suc n) m → Below n (remove n m)
  unfolding remove
  remove-Below n [] b = tt
  remove-Below n ((j, w) ∷ m) b = ground (arith, remove-Below n m b.1)

  pub length_bound : (n : ℕ) (m : Assoc ℕ V) → UniqueKeys m → Below n m → length m ≤ n
  length_bound zero [] u b = omega arith
  length_bound zero (p ∷ m) u b = absurd (omega arith)
  length_bound (suc n) m u b = ground (
    arith,
    length-remove n m u,
    length_bound n (remove n m) (remove-UniqueKeys n m u) (remove-Below n m b),
  )

  present : (k : ℕ) (m : Assoc ℕ V) → contains_key k m ≡ true → (v : V) × (lookup k m ≡ some v)
  unfolding contains_key
  present k m h = ground arith

  -- As many distinct keys as the bound allows: every key is there.
  pub all_present :
      (n : ℕ) (m : Assoc ℕ V)
      → UniqueKeys m
      → Below n m
      → length m ≡ n
      → (i : ℕ) → i < n
      → (v : V) × (lookup i m ≡ some v)
  all_present zero m u b full i h = absurd (omega arith)
  all_present (suc n) m u b full i h =
      let u' = remove-UniqueKeys n m u in
      let b' = remove-Below n m b in
      let here = length-remove n m u in
      let full' : length (remove n m) ≡ n =
        ground (arith, here, length_bound n (remove n m) u' b') in
      elim (ℕ_discrete i n) [
        | yes top ↦ rw top (present n m (ground (arith, here)))
        | no below ↦
            let rest = all_present n (remove n m) u' b' full' i (omega arith) in
            (rest.0, ground (arith, rest.1, lookup-remove n i m))
      ]

-- A property of all values of a map.
module _ {ℓ κ μ} {K : Type ℓ} {V : Type κ} ⦃e : Eq K⦄ (P : V → Type μ) where
  abbrev pub Values : Assoc K V → Type μ
  Values [] = Unit
  Values ((k, v) ∷ m) = P v × Values m

  pub insert-Values : (k : K) (v : V) (m : Assoc K V) → P v → Values m → Values (insert k v m)
  unfolding insert
  insert-Values k v [] h a = (h, tt)
  insert-Values k v ((j, w) ∷ m) h a = elim (Bool-cases (j == k)) [
    | inl hit ↦ rw hit (h, a.1)
    | inr miss ↦ rw miss (a.0, insert-Values k v m h a.1)
  ]

  pub remove-Values : (k : K) (m : Assoc K V) → Values m → Values (remove k m)
  unfolding remove
  remove-Values k [] a = tt
  remove-Values k ((j, w) ∷ m) a = elim (Bool-cases (j == k)) [
    | inl hit ↦ rw hit (remove-Values k m a.1)
    | inr miss ↦ rw miss (a.0, remove-Values k m a.1)
  ]

  pub lookup-Values : (k : K) (m : Assoc K V) (v : V) → lookup k m ≡ some v → Values m → P v
  unfolding lookup
  lookup-Values k [] v h a = cc
  lookup-Values k ((j, w) ∷ m) v h a = elim (Bool-cases (j == k)) [
    | inl hit ↦ let same : w ≡ v = ground (arith, hit) in subst P same a.0
    | inr miss ↦ lookup-Values k m v (ground (arith, miss)) a.1
  ]
