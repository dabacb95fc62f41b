-- ===== src/Exclude/Sound.antt =====
-- The matcher of exclude.rs against a declarative reading of patterns, and that its loop ends.
use tunshell_mcp_agents.Prelude.{
  ℕ, zero, suc, ◌+◌, ◌*◌, ◌≤◌, ◌<◌, ◌≡◌, refl, ap, ◌∙◌, subst, [], ◌∷◌, Option, none, some, Bool,
  true, false, ◌&&◌, not, nat_beq, if◌then◌else◌, length, arith, Bool-cases, inl, inr,
}
use native.Mathlib.Nat.{suc-mul}
use tunshell_mcp_agents.Safety.Words.{Text}
use tunshell_mcp_agents.Exclude.{
  Star, only_stars, begins_star, tail, star_at, is_literal, blocks, Next, fails, goes_on, extend,
  extend_from, next, carry_on, glob_loop, fuel_for, or_false, glob_match,
}

-- What follows a star whose first character has been read: `**` is one star.
abbrev after : Text → Text
after pat = if begins_star pat then tail pat else pat

-- The texts that a pattern stands for: `*` absorbs any characters but `/`, `**` any, `?` one that
-- is no `/`, each other character itself. Without `slash_sensitive` a `/` is like any other.
pub data Matches (slash_sensitive : Bool) : Text → Text → Type 0 where
  ends : Matches slash_sensitive [] []
  literal :
      (q c : ℕ) (pat text : Text)
      → nat_beq q 42 ≡ false
      → is_literal slash_sensitive q c ≡ true
      → Matches slash_sensitive pat text
      → Matches slash_sensitive (q ∷ pat) (c ∷ text)
  skips :
      (pat text : Text)
      → Matches slash_sensitive (after pat) text
      → Matches slash_sensitive (42 ∷ pat) text
  absorbs :
      (c : ℕ) (pat text : Text)
      → not (begins_star pat) && (slash_sensitive && nat_beq c 47) ≡ false
      → Matches slash_sensitive (42 ∷ pat) text
      → Matches slash_sensitive (42 ∷ pat) (c ∷ text)

module _ (sens : Bool) where
  only_stars-Matches : (pat : Text) → only_stars pat ≡ true → Matches sens pat []
  unfolding only_stars
  only_stars-Matches [] h = ends
  only_stars-Matches (q ∷ []) h = let e : q ≡ 42 = ground (arith, h) in rw e (skips [] [] ends)
  only_stars-Matches (q ∷ r ∷ pat) h =
      let e : q ≡ 42 = ground (arith, h) in
      let e' : r ≡ 42 = ground (arith, h) in
      rw (e, e') (skips (42 ∷ pat) [] (only_stars-Matches pat (ground (arith, h))))

  module _ (G : Type 0) where
    -- A match of the star and what follows it, from the anchor on, is enough for the goal.
    Anchored : Option Star → Type 0
    Anchored none = Unit
    Anchored (some s) =
        (pat : Text) × (s.resume ≡ after pat)
        × (s.double ≡ begins_star pat)
        × (Matches sens (42 ∷ pat) s.from → G)

    Enough : Next → Type 0
    Enough fails = Unit
    Enough (goes_on pat text star) = (Matches sens pat text → G) × Anchored star

    extend_from-Enough :
        (s : Star) (from : Text) (pat : Text)
        → s.resume ≡ after pat
        → s.double ≡ begins_star pat
        → (Matches sens (42 ∷ pat) from → G)
        → Enough (extend_from sens s from)
    unfolding Enough Anchored extend_from
    extend_from-Enough s [] pat r d k = tt
    extend_from-Enough s (c ∷ rest) pat r d k = elim (Bool-cases (blocks sens s c)) [
      | inl e ↦ rw e tt
      | inr e ↦
          let free : not (begins_star pat) && (sens && nat_beq c 47) ≡ false =
            subst (λ b. not b && (sens && nat_beq c 47) ≡ false) d e in
          rw e (
            λ m.
                k (absorbs c pat rest free (skips pat rest (subst (λ p. Matches sens p rest) r m))),
            (pat, r, d, λ m. k (absorbs c pat rest free m)),
          )
    ]

    extend-Enough : (star : Option Star) → Anchored star → Enough (extend sens star)
    unfolding extend Anchored Enough
    extend-Enough none a = tt
    extend-Enough (some s) (pat, r, d, k) = extend_from-Enough s s.from pat r d k

    next-Enough :
        (pat : Text) (c : ℕ) (text : Text) (star : Option Star)
        → (Matches sens pat (c ∷ text) → G)
        → Anchored star
        → Enough (next sens pat c text star)
    unfolding next star_at Enough Anchored
    next-Enough [] c text star k a = extend-Enough star a
    next-Enough (q ∷ pat) c text star k a = elim (Bool-cases (nat_beq q 42)) [
      | inl e ↦
          let same : q ≡ 42 = ground (arith, e) in
          let k' : Matches sens (42 ∷ pat) (c ∷ text) → G =
            subst (λ n. Matches sens (n ∷ pat) (c ∷ text) → G) same k in
          rw e (λ m. k' (skips pat (c ∷ text) m), (pat, refl, refl, k'))
      | inr e ↦ elim (Bool-cases (is_literal sens q c)) [
        | inl l ↦ rw (e, l) (λ m. k (literal q c pat text e l m), a)
        | inr l ↦ rw (e, l) (extend-Enough star a)
      ]
    ]

    carry_on-Enough :
        (run : Text → Text → Option Star → Option Bool)
        → ((pat text : Text) (star : Option Star)
            → (Matches sens pat text → G)
            → Anchored star
            → run pat text star ≡ some true
            → G)
        → (n : Next) → Enough n
        → carry_on run n ≡ some true
        → G
    unfolding Enough
    carry_on-Enough run ih fails v h = absurd (ground arith)
    carry_on-Enough run ih (goes_on pat text star) v h = ih pat text star v.0 v.1 h

    glob_loop-Enough :
        (fuel : ℕ) (pat text : Text) (star : Option Star)
        → (Matches sens pat text → G)
        → Anchored star
        → glob_loop sens fuel pat text star ≡ some true
        → G
    unfolding glob_loop
    glob_loop-Enough zero pat text star k a h = absurd (ground arith)
    glob_loop-Enough (suc fuel) pat [] star k a h = k (only_stars-Matches pat (ground (arith, h)))
    glob_loop-Enough (suc fuel) pat (c ∷ text) star k a h =
        carry_on-Enough (λ p t s. glob_loop sens fuel p t s) (λ p t s. glob_loop-Enough fuel p t s)
          (next sens pat c text star) (next-Enough pat c text star k a) h

  -- The loop ends: what is left of the text behind the anchor, and of the pattern, goes down.
  Within : ℕ → ℕ → Text → Text → Option Star → Type 0
  Within m f pat text none = (length pat ≤ m) × (length text < f)
  Within m f pat text (some s) =
      (length pat ≤ m) × (length text ≤ length s.from) × (length s.from ≤ f) × (length s.resume ≤ m)

  Left : ℕ → ℕ → ℕ → Next → Type 0
  Left m f p fails = Unit
  Left m f p (goes_on pat text star) =
      (g : ℕ) × Within m g pat text star × (g * suc m + length pat < f * suc m + p)

  extend_from-Left :
      (m f p : ℕ) (s : Star) (from : Text)
      → length s.resume ≤ m
      → length from ≤ f
      → Left m f p (extend_from sens s from)
  unfolding Left Within extend_from
  extend_from-Left m f p s [] r l = tt
  extend_from-Left m zero p s (c ∷ rest) r l = absurd (omega arith)
  extend_from-Left m (suc f) p s (c ∷ rest) r l = elim (Bool-cases (blocks sens s c)) [
    | inl e ↦ rw e tt
    | inr e ↦ rw e (f, (r, omega arith, omega arith, r), omega (arith, suc-mul f (suc m)))
  ]

  extend-Left :
      (m f p : ℕ) (pat text : Text) (star : Option Star)
      → Within m f pat text star
      → Left m f p (extend sens star)
  unfolding extend Left Within
  extend-Left m f p pat text none w = tt
  extend-Left m f p pat text (some s) w = extend_from-Left m f p s s.from w.3 w.2

  length-after : (pat : Text) → length (after pat) ≤ length pat
  length-after [] = omega arith
  length-after (q ∷ pat) = ground arith

  Within-smaller :
      (m f q c : ℕ) (pat text : Text) (star : Option Star)
      → Within m f (q ∷ pat) (c ∷ text) star
      → Within m f pat text star
  unfolding Within
  Within-smaller m f q c pat text none w = (omega (arith, w.0), omega (arith, w.1))
  Within-smaller m f q c pat text (some s) w = (omega (arith, w.0), omega (arith, w.1), w.2, w.3)

  Within-starred :
      (m f q c : ℕ) (pat text : Text) (star : Option Star)
      → Within m f (q ∷ pat) (c ∷ text) star
      → Within m f (after pat) (c ∷ text) (some (star_at pat (c ∷ text)))
  unfolding Within star_at
  Within-starred m f q c pat text none w =
      let l = length-after pat in
      (omega (arith, l, w.0), omega arith, omega (arith, w.1), omega (arith, l, w.0))
  Within-starred m f q c pat text (some s) w =
      let l = length-after pat in
      (omega (arith, l, w.0), omega arith, omega (arith, w.1, w.2), omega (arith, l, w.0))

  next-Left :
      (m f : ℕ) (pat : Text) (c : ℕ) (text : Text) (star : Option Star)
      → Within m f pat (c ∷ text) star
      → Left m f (length pat) (next sens pat c text star)
  unfolding next star_at Left
  next-Left m f [] c text star w = extend-Left m f 0 [] (c ∷ text) star w
  next-Left m f (q ∷ pat) c text star w = elim (Bool-cases (nat_beq q 42)) [
    | inl e ↦ rw e (f, Within-starred m f q c pat text star w, omega (arith, length-after pat))
    | inr e ↦ elim (Bool-cases (is_literal sens q c)) [
      | inl l ↦ rw (e, l) (f, Within-smaller m f q c pat text star w, omega arith)
      | inr l ↦ rw (e, l) (extend-Left m f (length (q ∷ pat)) (q ∷ pat) (c ∷ text) star w)
    ]
  ]

  abbrev Answers : Option Bool → Type 0
  Answers o = (b : Bool) × (o ≡ some b)

  carry_on-Answers :
      (m f p : ℕ) (run : Text → Text → Option Star → Option Bool)
      → ((g : ℕ) (pat text : Text) (star : Option Star)
          → Within m g pat text star
          → g * suc m + length pat < f * suc m + p
          → Answers (run pat text star))
      → (n : Next) → Left m f p n
      → Answers (carry_on run n)
  unfolding Left
  carry_on-Answers m f p run ih fails v = (false, refl)
  carry_on-Answers m f p run ih (goes_on pat text star) (g, w, l) = ih g pat text star w l

  glob_loop-Answers :
      (m f fuel : ℕ) (pat text : Text) (star : Option Star)
      → Within m f pat text star
      → f * suc m + length pat < fuel
      → Answers (glob_loop sens fuel pat text star)
  unfolding glob_loop
  glob_loop-Answers m f zero pat text star w l = absurd (omega arith)
  glob_loop-Answers m f (suc fuel) pat [] star w l = (only_stars pat, refl)
  glob_loop-Answers m f (suc fuel) pat (c ∷ text) star w l =
      carry_on-Answers m f (length pat) (λ p t s. glob_loop sens fuel p t s)
        (λ g p t s v less. glob_loop-Answers m g fuel p t s v (omega (arith, less, l)))
        (next sens pat c text star) (next-Left m f pat c text star w)

  -- The matcher is total and sound: for every pattern and text the fuel of `glob_match` is enough
  -- for its loop to come to an answer, and where it says that the text matches, the pattern,
  -- read declaratively, stands for the text.
  pub glob_match-Matches :
      (pat text : Text)
      → (glob_loop sens (fuel_for pat text) pat text none ≡ some (glob_match sens pat text))
        × (glob_match sens pat text ≡ true → Matches sens pat text)
  unfolding glob_match Within Anchored
  glob_match-Matches pat text =
      let m = length pat in
      let n = length text in
      let product : (n + 2) * suc m ≡ suc n * suc m + suc m =
        let two : n + 2 ≡ suc (suc n) = omega arith in
        ap (λ k. k * suc m) two ∙ suc-mul (suc n) (suc m) in
      let one : m + 1 ≡ suc m = omega arith in
      let fuel : suc n * suc m + m < (n + 2) * (m + 1) = rw one (omega (arith, product)) in
      let (b, e) =
        glob_loop-Answers m (suc n) ((n + 2) * (m + 1)) pat text none (omega arith, omega arith)
          fuel in
      (
        rw e refl,
        λ h.
            glob_loop-Enough (Matches sens pat text) ((n + 2) * (m + 1)) pat text none (λ x. x) tt
              (e ∙ ap some (subst (λ o. or_false o ≡ true) e h)),
      )
