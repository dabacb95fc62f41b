-- ===== src/Executor/Gates/Walk.antt =====
-- What a walk does below its root.
use tunshell_mcp_agents.Prelude.{
  ◌≡◌, refl, List, [], Bool, true, false, not, all, Bool-cases, inl, inr,
}
use tunshell_mcp_agents.Safety.Words.{Text}
use tunshell_mcp_agents.Exclude.{is_excluded, dir_excluded}
use tunshell_mcp_agents.Executor.Walk.{
  child_path, slashed, hash_entry, scan_entries, walk_stack, walk_entries,
}
use tunshell_mcp_agents.Executor.Gates.{call-All, if-All, path-All, require-All, return-Safe, Safe}
use tunshell_mcp_agents.Executor.Files.{walk_dir}
use tunshell_mcp_agents.Safety.Commands.{SecurityConfig}
use tunshell_mcp_agents.Executor.Types.{
  return, not_a_directory, reads_dir, Effect, Environment, Run, Listing, end, link, regular,
  special, folder, reads_dir_below, stats_below, hashes_below,
}

-- A test that the calls of a walk pass, those on entries that are not excluded.
pub record Passes (root : Text) (exclude : List Text) (P : Effect → Bool) : Type 0 where
  pub on_stat : (rel_path : Text) → P (stats_below root rel_path) ≡ true
  pub on_hash :
      (rel_path : Text)
      → is_excluded (slashed rel_path) exclude ≡ false
      → P (hashes_below root rel_path) ≡ true
  pub on_dir :
      (rel_path : Text)
      → dir_excluded (slashed rel_path) exclude ≡ false
      → P (reads_dir_below root rel_path) ≡ true

module _ (env : Environment) (root : Text) (with_hash : Bool) (exclude : List Text)
    (P : Effect → Bool) (passes : Passes root exclude P) {A : Type 0} where
  scan_entries-Safe :
      (dir : Text) (listing : Listing) (k : Run A)
      → Safe P k
      → Safe P (scan_entries env root with_hash exclude dir listing k)
  unfolding scan_entries hash_entry
  scan_entries-Safe dir end k h = h
  scan_entries-Safe dir (link name rest) k h =
      call-All P env _ _ (passes.on_stat (child_path dir name)) (scan_entries-Safe dir rest k h)
  scan_entries-Safe dir (special name rest) k h =
      call-All P env _ _ (passes.on_stat (child_path dir name)) (scan_entries-Safe dir rest k h)
  scan_entries-Safe dir (folder name content rest) k h =
      call-All P env _ _ (passes.on_stat (child_path dir name)) (scan_entries-Safe dir rest k h)
  scan_entries-Safe dir (regular name rest) k h =
      let rel_path = child_path dir name in
      let next = scan_entries-Safe dir rest k h in
      call-All P env _ _ (passes.on_stat rel_path)
        (elim (Bool-cases (is_excluded (slashed rel_path) exclude)) [
          | inl pruned ↦ rw pruned next
          | inr kept ↦
              rw kept (
                if-All P with_hash _ _ (call-All P env _ _ (passes.on_hash rel_path kept) next)
                  next)
        ])

  walk_stack-Safe :
      (dir : Text) (listing : Listing) (k : Run A)
      → Safe P k
      → Safe P (walk_stack env root with_hash exclude dir listing k)
  unfolding walk_stack
  walk_stack-Safe dir end k h = h
  walk_stack-Safe dir (link name rest) k h = walk_stack-Safe dir rest k h
  walk_stack-Safe dir (regular name rest) k h = walk_stack-Safe dir rest k h
  walk_stack-Safe dir (special name rest) k h = walk_stack-Safe dir rest k h
  walk_stack-Safe dir (folder name content rest) k h =
      let rel_path = child_path dir name in
      elim (Bool-cases (dir_excluded (slashed rel_path) exclude)) [
        | inl pruned ↦ rw pruned (walk_stack-Safe dir rest k h)
        | inr kept ↦ rw kept (
            walk_stack-Safe dir rest _ (
              call-All P env _ _ (passes.on_dir rel_path kept)
                (scan_entries-Safe rel_path content _ (walk_stack-Safe rel_path content k h))))
      ]

  pub walk_entries-Safe :
      (listing : Listing) (k : Run A)
      → Safe P k
      → Safe P (walk_entries env root with_hash exclude listing k)
  unfolding walk_entries
  walk_entries-Safe listing k h = scan_entries-Safe [] listing _ (walk_stack-Safe [] listing k h)

-- The call is not one on what the patterns prune.
unfoldable pub is_unpruned : List Text → Effect → Bool
is_unpruned exclude (hashes_below root rel_path) = not (is_excluded (slashed rel_path) exclude)
is_unpruned exclude (reads_dir_below root rel_path) = not (dir_excluded (slashed rel_path) exclude)
is_unpruned exclude _ = true

-- Whatever is below the root, `walk_dir` hashes no excluded file, and lists no excluded directory.
pub walk_dir-prunes :
    (env : Environment) (sec : SecurityConfig) (root : Text) (with_hash : Bool)
    (exclude : List Text)
    → all (is_unpruned exclude) (walk_dir env sec root with_hash exclude).effects ≡ true
unfolding Safe walk_dir is_unpruned
walk_dir-prunes env sec root with_hash exclude =
    let P = is_unpruned exclude in
    path-All P env sec root _ (λ a. require-All P (env.is_dir root) not_a_directory _ (λ d.
      call-All P env (reads_dir root) _ refl (
        walk_entries-Safe env root with_hash exclude P
          (record { on_stat = λ p. refl; on_hash = λ p h. rw h refl; on_dir = λ p h. rw h refl })
          (env.listing root) (return tt) (return-Safe P tt))))
