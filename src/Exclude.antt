-- ===== src/Exclude.antt =====
-- The patterns of crates/mcp-server/src/exclude.rs: `is_excluded`, `dir_excluded` and the matcher
-- below them. A position in the pattern or the text is the rest from there on. The loop of
-- `glob_match` runs on fuel and says `none` where that runs out.
pub mod Sound
mod Examples
use tunshell_mcp_agents.Prelude.{
  ℕ, zero, suc, ◌+◌, ◌*◌, List, [], ◌∷◌, ◌++◌, Option, none, some, Bool, true, false, ◌&&◌, ◌||◌,
  not, nat_beq, if◌then◌else◌, length, any,
}
use tunshell_mcp_agents.Safety.Words.{Text, is_empty, split, trim, contains_char}

-- The anchor: where the pattern goes on behind the star, what the star may absorb next, and
-- whether it is `**`.
pub record Star : Type 0 where
  pub resume : Text
  pub from : Text
  pub double : Bool

-- `while j < p.len() && p[j] == '*'`, then `j == p.len()`.
unfoldable pub only_stars : Text → Bool
only_stars [] = true
only_stars (q ∷ pat) = nat_beq q 42 && only_stars pat

abbrev pub begins_star : Text → Bool
begins_star [] = false
begins_star (q ∷ pat) = nat_beq q 42

abbrev pub tail : Text → Text
tail [] = []
tail (q ∷ pat) = pat

-- The star whose first character has been read.
unfoldable pub star_at : Text → Text → Star
star_at pat text = record {
  resume = if begins_star pat then tail pat else pat;
  from = text;
  double = begins_star pat;
}

-- What the loop does with a character: end, or go on with the rests and the anchor.
pub data Next : Type 0 where
  fails : Next
  goes_on : Text → Text → Option Star → Next

abbrev pub carry_on : (Text → Text → Option Star → Option Bool) → Next → Option Bool
carry_on run fails = some false
carry_on run (goes_on pat text star) = run pat text star

-- Two characters of fuel more than the text has, for each position in the pattern.
abbrev pub fuel_for : Text → Text → ℕ
fuel_for pat text = (length text + 2) * (length pat + 1)

abbrev pub or_false : Option Bool → Bool
or_false none = false
or_false (some b) = b

module _ (slash_sensitive : Bool) where
  abbrev pub is_literal : ℕ → ℕ → Bool
  is_literal q c = nat_beq q c || (nat_beq q 63 && not (slash_sensitive && nat_beq c 47))

  abbrev pub blocks : Star → ℕ → Bool
  blocks star c = not star.double && (slash_sensitive && nat_beq c 47)

  unfoldable pub extend_from : Star → Text → Next
  extend_from s [] = fails
  extend_from s (c ∷ rest) =
      if blocks s c then fails else goes_on s.resume rest (some (record s { from = rest }))

  -- The star absorbs the next character; `from` is not empty in a run of the loop.
  unfoldable pub extend : Option Star → Next
  unfolding extend_from
  extend none = fails
  extend (some star) = extend_from star star.from

  unfoldable pub next : Text → ℕ → Text → Option Star → Next
  unfolding star_at extend
  next [] c text star = extend star
  next (q ∷ pat) c text star =
      let s = star_at pat (c ∷ text) in
      if nat_beq q 42
      then goes_on s.resume (c ∷ text) (some s)
      else if is_literal q c
      then goes_on pat text star
      else extend star

  unfoldable pub glob_loop : ℕ → Text → Text → Option Star → Option Bool
  unfolding next only_stars
  glob_loop zero pat text star = none
  glob_loop (suc fuel) pat [] star = some (only_stars pat)
  glob_loop (suc fuel) pat (c ∷ text) star =
      carry_on (λ p t s. glob_loop fuel p t s) (next pat c text star)

  unfoldable pub glob_match : Text → Text → Bool
  unfolding glob_loop
  glob_match pat text = or_false (glob_loop (fuel_for pat text) pat text none)

unfoldable pub path_or_subtree : Text → Text → Bool
unfolding glob_match
path_or_subtree pat rel = glob_match true pat rel || glob_match true (pat ++ 47 ∷ 42 ∷ 42 ∷ []) rel

abbrev pub is_slash : ℕ → Bool
is_slash c = nat_beq c 47

-- `strip_suffix('/').unwrap_or(pat)`
unfoldable pub strip_slash : Text → Text
strip_slash [] = []
strip_slash (c ∷ []) = if is_slash c then [] else c ∷ []
strip_slash (c ∷ d ∷ pat) = c ∷ strip_slash (d ∷ pat)

unfoldable pub unanchored : Text → Text → Bool
unfolding path_or_subtree glob_match
unanchored pat rel =
    if contains_char pat 47
    then path_or_subtree pat rel
    else any (λ seg. glob_match false pat seg) (split is_slash rel)

unfoldable pub matches_stripped : Text → Text → Bool
unfolding path_or_subtree unanchored
matches_stripped rel [] = false
matches_stripped rel (c ∷ pat) =
    if is_slash c then path_or_subtree pat rel else unanchored (c ∷ pat) rel

unfoldable pub matches_pattern : Text → Text → Bool
unfolding trim strip_slash matches_stripped
matches_pattern rel pattern = matches_stripped rel (strip_slash (trim pattern))

unfoldable pub is_excluded : Text → List Text → Bool
unfolding matches_pattern
is_excluded rel_path patterns = any (matches_pattern rel_path) patterns

unfoldable pub dir_excluded : Text → List Text → Bool
unfolding matches_pattern
dir_excluded rel_dir patterns = not (is_empty rel_dir) && any (matches_pattern rel_dir) patterns
