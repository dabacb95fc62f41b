-- ===== src/Executor/Walk.antt =====
-- The loop of `walk_dir` of crates/mcp-server/src/files.rs: what is below a root is looked at, and
-- hashed if asked to, but for what the exclude patterns prune.
use tunshell_mcp_agents.Prelude.{List, [], ◌∷◌, ◌++◌, map, nat_beq, if◌then◌else◌, Bool}
use tunshell_mcp_agents.Safety.Words.{Text}
use tunshell_mcp_agents.Exclude.{is_excluded, dir_excluded}
use tunshell_mcp_agents.Executor.Types.{
  call, Environment, Run, Listing, end, link, regular, special, folder, reads_dir_below,
  stats_below, hashes_below,
}

abbrev pub child_path : Text → Text → Text
child_path [] name = name
child_path (c ∷ dir) name = (c ∷ dir) ++ 47 ∷ name

-- `replace('\\', "/")`
abbrev pub slashed : Text → Text
slashed rel_path = map (λ c. if nat_beq c 92 then 47 else c) rel_path

module _ (env : Environment) (root : Text) (with_hash : Bool) (exclude : List Text)
    {A : Type 0} where
  unfoldable pub hash_entry : Text → Run A → Run A
  unfolding call
  hash_entry rel_path k = if with_hash then call env (hashes_below root rel_path) k else k

  -- The entries of one directory, and what follows them.
  unfoldable pub scan_entries : Text → Listing → Run A → Run A
  unfolding call hash_entry is_excluded
  scan_entries dir end k = k
  scan_entries dir (link name rest) k =
      call env (stats_below root (child_path dir name)) (scan_entries dir rest k)
  scan_entries dir (special name rest) k =
      call env (stats_below root (child_path dir name)) (scan_entries dir rest k)
  scan_entries dir (folder name content rest) k =
      call env (stats_below root (child_path dir name)) (scan_entries dir rest k)
  scan_entries dir (regular name rest) k =
      let rel_path = child_path dir name in
      let next = scan_entries dir rest k in
      call env (stats_below root rel_path)
        (if is_excluded (slashed rel_path) exclude then next else hash_entry rel_path next)

  -- The directories that one directory has put on the stack: the last one is taken first, and all
  -- that is below it comes before the one that was put there earlier.
  unfoldable pub walk_stack : Text → Listing → Run A → Run A
  unfolding call scan_entries dir_excluded
  walk_stack dir end k = k
  walk_stack dir (link name rest) k = walk_stack dir rest k
  walk_stack dir (regular name rest) k = walk_stack dir rest k
  walk_stack dir (special name rest) k = walk_stack dir rest k
  walk_stack dir (folder name content rest) k =
      let rel_path = child_path dir name in
      let below = walk_stack rel_path content k in
      let inside = call env (reads_dir_below root rel_path) (scan_entries rel_path content below) in
      walk_stack dir rest (if dir_excluded (slashed rel_path) exclude then k else inside)

  unfoldable pub walk_entries : Listing → Run A → Run A
  unfolding scan_entries walk_stack
  walk_entries listing k = scan_entries [] listing (walk_stack [] listing k)
