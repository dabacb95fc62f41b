-- ===== src/Exclude/Examples.antt =====
-- A pattern and a path.
use tunshell_mcp_agents.Prelude.{◌≡◌, refl, none, some, true, false}
use tunshell_mcp_agents.Safety.Words.{text}
use tunshell_mcp_agents.Exclude.{
  glob_loop, fuel_for, glob_match, next, star_at, extend, extend_from, only_stars,
}
use tunshell_mcp_agents.Exclude.Sound.{Matches, glob_match-Matches}

glob_match-Matches_example :
    (glob_loop true
        (fuel_for (text "**/*.log") (text "a/b.log"))
        (text "**/*.log")
        (text "a/b.log")
        none
      ≡ some (glob_match true (text "**/*.log") (text "a/b.log")))
    × (glob_match true (text "**/*.log") (text "a/b.log") ≡ true
        → Matches true (text "**/*.log") (text "a/b.log"))
glob_match-Matches_example = glob_match-Matches true (text "**/*.log") (text "a/b.log")

matches : glob_match true (text "**/*.log") (text "a/b.log") ≡ true
unfolding glob_match glob_loop next star_at extend extend_from only_stars
matches = refl

misses : glob_match true (text "**/a*b") (text "x/ay/ab") ≡ false
unfolding glob_match glob_loop next star_at extend extend_from only_stars
misses = refl
