-- ===== src/Sync.antt =====
-- sync.rs: the decision of a folder sync from the two manifests. Hashes are compared with ASCII
-- case folded.
pub mod Exact
mod Examples
use tunshell_mcp_agents.Prelude.{
  ℕ, String, List, [], ◌∷◌, map, Option, none, some, Bool, true, false, ◌&&◌, ◌||◌, not,
  if◌then◌else◌, nat_beq, ltb, any, select, ◌==◌, string_eq,
}
use tunshell_mcp_agents.Relay.Routing.{eq_ignore_ascii_case}

pub record ManifestEntry : Type 0 where
  pub rel_path : String
  pub size : ℕ
  pub mtime_ms : ℕ
  pub sha256 : Option String

pub record SyncOpts : Type 0 where
  pub delete : Bool
  pub checksum : Bool

pub record SyncPlan : Type 0 where
  pub to_transfer : List ManifestEntry
  pub to_delete : List String

abbrev pub or_this : String → ManifestEntry → Option ManifestEntry → Option ManifestEntry
or_this path d none = if d.rel_path == path then some d else none
or_this path d (some e) = some e

-- `dest.iter().map(..).collect::<HashMap<_, _>>()` and `get`: of two entries for one path the
-- later one stays.
abbrev pub dest_by : List ManifestEntry → String → Option ManifestEntry
dest_by [] path = none
dest_by (d ∷ ds) path = or_this path d (dest_by ds path)

abbrev pub hashes_differ : Option String → Option String → Bool
hashes_differ (some a) (some b) = not (eq_ignore_ascii_case a b)
hashes_differ (some a) none = true
hashes_differ none b = true

abbrev pub differs : SyncOpts → ManifestEntry → ManifestEntry → Bool
differs opts s d =
    if opts.checksum
    then hashes_differ s.sha256 d.sha256
    else not (nat_beq s.size d.size) || ltb d.mtime_ms s.mtime_ms

abbrev pub needs : SyncOpts → ManifestEntry → Option ManifestEntry → Bool
needs opts s none = true
needs opts s (some d) = differs opts s d

abbrev pub has_path : List ManifestEntry → String → Bool
has_path es path = any (λ e. e.rel_path == path) es

unfoldable pub diff_manifests : List ManifestEntry → List ManifestEntry → Bool → SyncOpts → SyncPlan
diff_manifests src dest dest_root_exists opts = record {
  to_transfer = select (λ s. needs opts s (dest_by dest s.rel_path)) src;
  to_delete =
      if opts.delete && dest_root_exists
      then map (λ d. d.rel_path) (select (λ d. not (has_path src d.rel_path)) dest)
      else [];
}
