-- ===== src/Executor/Gates.antt =====
-- The gates of the executor: which mode, which paths and which commands an effect of a run needs.
pub mod Walk
pub mod Files
pub mod Arms
pub mod Modes
use tunshell_mcp_agents.Prelude.{
  ℕ, ◌≡◌, refl, List, [], ◌∷◌, Option, none, some, Bool, true, false, ◌&&◌, ◌||◌, not,
  if◌then◌else◌, all, select, length, arith, Bool-cases, Option-cases, inl, inr, ltb, leb,
}
use tunshell_mcp_agents.Relay.Types.{AgentMode, plan, edit, bypass, disabled}
use tunshell_mcp_agents.Safety.Words.{Text}
use tunshell_mcp_agents.Safety.Commands.{SecurityConfig, CommandError, check_command_allowed}
use tunshell_mcp_agents.Safety.Paths.{PathError, check_path_allowed, check_size}
use tunshell_mcp_agents.Executor.Files.{
  allowed_path, stat, read_chunk, read_chunk_raw, walk_dir, delete_all, delete_one, thumbnail,
  search, receive_chunk, receive_chunk_raw, receive_decoded, finish_file, verify_sha, is_allowed,
  passes, allowed_roots, search_roots, is_nil, in_u64,
}
use tunshell_mcp_agents.Executor.Execute.{
  execute, run_command, run_exec, run_read_file, run_write_file, run_list_dir, run_git_status,
  run_git, run_schedule_add, run_task_dispatch, run_task_get, run_session_get, run_session_search,
  run_session_resume, run_file_recv, run_transfer_get, run_dir_manifest, run_delete_paths,
  run_tunnel, run_compute_fn, run_map_task, run_reduce_task, recv_file_chunk, recv_file_chunk_raw,
  transfer_security, is_disabled_mode, command_policy, when_writable, transcript_window, join_lines,
}
use tunshell_mcp_agents.Executor.Types.{
  allows_write, return, bail, require, command_checked, path_checked, after_call, call, map_outcome,
  map_run, SearchKind, Command, Effect, ExecError, CommandResult, FileKind, Environment, AgentState,
  Outcome, Run, exec, read_file, write_file, list_dir, git_status, git_pull, git_commit, git_push,
  schedule_add, schedule_remove, schedule_list, task_dispatch, task_get, task_list, session_list,
  session_get, session_search, session_resume, session_terminate, file_stat, file_chunk, file_thumb,
  file_search, send_file_to, file_recv, transfer_get, dir_manifest, sync_dir_to, delete_paths,
  tunnel_start, tunnel_list, tunnel_stop, set_mode, get_info, map_task, reduce_task, runs,
  runs_with_stdin, stats, probes_size, probes_dir, reads, reads_slice, lists, reads_dir,
  decodes_image, searches, hashes, backs_up, writes, creates_parents, writes_at, sets_len, removes,
  reads_git_status, pulls, commits, pushes, adds_schedule, removes_schedule, lists_schedules,
  dispatches, resumes, gets_task, lists_tasks, scans_sessions, reads_transcript, searches_sessions,
  terminates, starts_tunnel, lists_tunnels, stops_tunnel, switches_mode, not_accepting, is_disabled,
  write_not_allowed, too_large, over_transfer_limit, empty_query, no_allowed_roots, not_a_directory,
  autonomous_off, unknown_runner, must_be_peer, no_task, no_transfer, command_refused, path_refused,
  call_failed, nonzero_exit, ok, exec_result, file, dir, info, git_status_result, git, schedule,
  task_queued, task, tasks, sessions, transcript, session_hits, file_meta, file_thumb_result,
  search_hits, transfer, tunnel_started, tunnels, mode_result, chunk_result, manifest_result,
  map_result, reduce_result, file_or_link, directory, missing, unreadable, returned, bailed,
  offset_past_end, offset_overflow, sha_mismatch, bad_base64,
}

-- The effects that change files, repositories or what is exposed of the host.
unfoldable pub is_write : Effect → Bool
is_write (backs_up path backup_dir versions) = true
is_write (writes path content) = true
is_write (creates_parents path) = true
is_write (writes_at path offset bytes) = true
is_write (sets_len path len) = true
is_write (removes path) = true
is_write (pulls repo remote branch) = true
is_write (commits repo message files) = true
is_write (pushes repo remote branch) = true
is_write (starts_tunnel target) = true
is_write (stops_tunnel id) = true
is_write _ = false

-- The paths that a call is given to look at or to change. Left out are two probes, which are made
-- before the path is checked (the size of a file, and whether a path is a directory), what a walk
-- meets below its root, the working directory of a command, and the directory for backups, which
-- the configuration names. What a call itself does below such a path, where it searches or lists,
-- and to the directories above it, where it makes them, does not show here.
unfoldable pub given_paths : Effect → List Text
given_paths (stats path) = path ∷ []
given_paths (reads path) = path ∷ []
given_paths (reads_slice path offset len) = path ∷ []
given_paths (lists path pattern) = path ∷ []
given_paths (reads_dir path) = path ∷ []
given_paths (decodes_image path max_px) = path ∷ []
given_paths (searches roots query kind max_results timeout) = roots
given_paths (hashes path) = path ∷ []
given_paths (backs_up path backup_dir versions) = path ∷ []
given_paths (writes path content) = path ∷ []
given_paths (creates_parents path) = path ∷ []
given_paths (writes_at path offset bytes) = path ∷ []
given_paths (sets_len path len) = path ∷ []
given_paths (removes path) = path ∷ []
given_paths (reads_git_status repo) = repo ∷ []
given_paths (pulls repo remote branch) = repo ∷ []
given_paths (commits repo message files) = repo ∷ []
given_paths (pushes repo remote branch) = repo ∷ []
given_paths _ = []

-- The shell commands that an effect runs, now or on a schedule.
unfoldable pub commands_of : Effect → List Text
commands_of (runs command cwd timeout) = command ∷ []
commands_of (runs_with_stdin command stdin timeout) = command ∷ []
commands_of (adds_schedule name cron command) = command ∷ []
commands_of _ = []

abbrev pub is_passed : Option CommandError → Bool
is_passed none = true
is_passed (some e) = false

unfoldable pub command_allowed : Environment → AgentMode → SecurityConfig → Text → Bool
command_allowed env mode sec command =
    is_passed (check_command_allowed env.to_lowercase command mode sec)

unfoldable pub permitted : Environment → AgentMode → SecurityConfig → Effect → Bool
permitted env mode sec e =
    (not (is_write e) || allows_write mode)
    && (all (is_allowed env sec) (given_paths e)
        && all (command_allowed env mode sec) (commands_of e))

-- Every effect of a run passes a test.
unfoldable pub Safe : {A : Type 0} → (Effect → Bool) → Run A → Type 0
Safe P run = all P run.effects ≡ true

module _ (P : Effect → Bool) {A : Type 0} where
  pub return-Safe : (a : A) → Safe P (return a)
  unfolding Safe
  return-Safe a = refl

  pub require-All :
      (b : Bool) (e : ExecError) (k : Run A) → (b ≡ true → Safe P k) → Safe P (require b e k)
  unfolding Safe require
  require-All true e k h = h refl
  require-All false e k h = refl

  pub call-All :
      (env : Environment) (e : Effect) (k : Run A) → P e ≡ true → Safe P k → Safe P (call env e k)
  unfolding Safe call after_call
  call-All env e k p h = elim (Bool-cases (env.succeeds e)) [
    | inl s ↦ rw s (rw p h)
    | inr s ↦ rw s (rw p refl)
  ]

  pub path-All :
      (env : Environment) (sec : SecurityConfig) (path : Text) (k : Run A)
      → (is_allowed env sec path ≡ true → Safe P k)
      → Safe P (allowed_path env sec path k)
  unfolding Safe allowed_path is_allowed path_checked
  path-All env sec path k h = elim (Option-cases (check_path_allowed env.cwd path sec)) [
    | inl e ↦ rw e (h (rw e refl))
    | inr (x, e) ↦ rw e refl
  ]

  pub command-All :
      (env : Environment) (mode : AgentMode) (sec : SecurityConfig) (command : Text) (k : Run A)
      → (command_allowed env mode sec command ≡ true → Safe P k)
      → Safe P (command_checked (check_command_allowed env.to_lowercase command mode sec) k)
  unfolding Safe command_allowed command_checked
  command-All env mode sec command k h =
      elim (Option-cases (check_command_allowed env.to_lowercase command mode sec)) [
        | inl e ↦ rw e (h (rw e refl))
        | inr (x, e) ↦ rw e refl
      ]

  pub if-All : (b : Bool) (j k : Run A) → Safe P j → Safe P k → Safe P (if b then j else k)
  if-All true j k hj hk = hj
  if-All false j k hj hk = hk

module _ (P : Effect → Bool) {A B : Type 0} where
  pub map_run-Safe : (f : A → B) (run : Run A) → Safe P run → Safe P (map_run f run)
  unfolding Safe map_run
  map_run-Safe f run h = h

-- A run that stops at once.
pub bail-Safe : (A : Type 0) (P : Effect → Bool) (e : ExecError) → Safe P (bail {A = A} e)
unfolding Safe
bail-Safe A P e = refl
