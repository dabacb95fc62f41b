-- ===== src/Sync/Examples.antt =====
-- A tree of one changed file, one that is the same and one that the source has no more.
use tunshell_mcp_agents.Prelude.{
  ◌∷◌, [], ◌≡◌, refl, none, true, false, List, String, ℕ, arith, All, ◌&&◌,
}
use tunshell_mcp_agents.Sync.{ManifestEntry, SyncOpts, diff_manifests, has_path}
use tunshell_mcp_agents.Sync.Exact.{diff_manifests-settles, diff_manifests-deletes_absent, IsSynced}

abbrev entry : String → ℕ → ℕ → ManifestEntry
entry rel_path size mtime_ms = record {
  rel_path = rel_path;
  size = size;
  mtime_ms = mtime_ms;
  sha256 = none;
}

abbrev quick : SyncOpts
quick = record { delete = true; checksum = false }

abbrev source : List ManifestEntry
source = entry "a" 10 5 ∷ entry "b" 20 5 ∷ []

abbrev destination : List ManifestEntry
destination = entry "a" 11 9 ∷ entry "b" 20 7 ∷ entry "c" 1 1 ∷ []

abbrev carried_out : List ManifestEntry
carried_out = entry "a" 10 12 ∷ entry "b" 20 7 ∷ []

first_plan :
    diff_manifests source destination true quick
    ≡ record { to_transfer = entry "a" 10 5 ∷ []; to_delete = "c" ∷ [] }
unfolding diff_manifests
first_plan = refl

synced : All (IsSynced quick destination carried_out) source
synced = (
  (λ h. (entry "a" 10 12, refl, (refl, omega arith)), λ h. absurd (ground arith)),
  ((λ h. absurd (ground arith), λ h. refl), tt),
)

diff_manifests-settles_example : (diff_manifests source carried_out true quick).to_transfer ≡ []
diff_manifests-settles_example =
    diff_manifests-settles source destination carried_out true quick refl synced

diff_manifests-deletes_absent_example :
    All
      (λ p. (has_path source p ≡ false) × (has_path destination p ≡ true))
      (diff_manifests source destination true quick).to_delete
    × (quick.delete && true ≡ false → (diff_manifests source destination true quick).to_delete ≡ [])
diff_manifests-deletes_absent_example = diff_manifests-deletes_absent source destination true quick
