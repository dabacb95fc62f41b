-- ===== src/Assoc/Laws.antt =====
-- How a lookup sees an insertion and a removal.
use tunshell_mcp_agents.Prelude.{[], ◌∷◌, ◌≡◌, refl, none, some, if◌then◌else◌, Eq, ◌==◌, arith}
use tunshell_mcp_agents.Assoc.{Assoc, lookup, insert, remove}

module _ {ℓ κ} {K : Type ℓ} {V : Type κ} ⦃e : Eq K⦄ where
  pub lookup-insert :
      (k j : K) (v : V) (m : Assoc K V)
      → lookup j (insert k v m) ≡ (if k == j then some v else lookup j m)
  unfolding lookup insert
  lookup-insert key other value [] = refl
  lookup-insert key other value ((first, w) ∷ rest) = ground (
    arith,
    lookup-insert key other value rest,
    e.beq_iff first key,
    e.beq_iff first other,
    e.beq_iff key other,
  )

  pub lookup-remove :
      (k j : K) (m : Assoc K V) → lookup j (remove k m) ≡ (if k == j then none else lookup j m)
  unfolding lookup remove
  lookup-remove k j [] = ground arith
  lookup-remove k j ((i, w) ∷ m) =
      ground (arith, e.beq_iff k j, e.beq_iff i k, e.beq_iff i j, lookup-remove k j m)
