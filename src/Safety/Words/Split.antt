-- ===== src/Safety/Words/Split.antt =====
-- `split` cuts a text at every separator and nowhere else.
use tunshell_mcp_agents.Prelude.{
  ℕ, ◌≡◌, refl, List, [], ◌∷◌, ◌++◌, Bool, true, false, any, arith, Bool-cases, inl, inr,
}
use tunshell_mcp_agents.Safety.Words.{Text, split, onto_first}

module _ (p : ℕ → Bool) where
  onto_first-append :
      (c : ℕ) (s : Text) (ws : List Text)
      → onto_first c (split p s ++ ws) ≡ onto_first c (split p s) ++ ws
  onto_first-append c [] ws = refl
  onto_first-append c (d ∷ s) ws = elim (Bool-cases (p d)) [
    | inl h ↦ rw h refl
    | inr h ↦ rw h (again (split p s))
  ]
    where
      again :
          (vs : List Text)
          → onto_first c (onto_first d vs ++ ws) ≡ onto_first c (onto_first d vs) ++ ws
      again [] = refl
      again (v ∷ vs) = refl

  pub split-separator :
      (s : Text) (sep : ℕ) (t : Text)
      → p sep ≡ true
      → split p (s ++ (sep ∷ t)) ≡ split p s ++ split p t
  split-separator [] sep t h = rw h refl
  split-separator (c ∷ s) sep t h = elim (Bool-cases (p c)) [
    | inl hc ↦ rw (hc, split-separator s sep t h) refl
    | inr hc ↦ rw (hc, split-separator s sep t h) (onto_first-append c s (split p t))
  ]

  -- A text without separators is one part.
  pub split_one : (s : Text) → any p s ≡ false → split p s ≡ s ∷ []
  split_one [] h = refl
  split_one (c ∷ s) h =
      let here : p c ≡ false = ground arith in
      let there : any p s ≡ false = ground arith in rw (here, split_one s there) refl
