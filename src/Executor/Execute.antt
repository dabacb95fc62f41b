-- ===== src/Executor/Execute.antt =====
-- `execute` itself, one function for each group of arms, and `run_compute_fn` and
-- `recv_file_chunk`, which the connection loops call.
use tunshell_mcp_agents.Prelude.{
  ℕ, ◌*◌, List, [], ◌∷◌, ◌++◌, Option, none, some, Bool, true, false, ◌&&◌, not, if◌then◌else◌,
  ◌==◌,
}
use tunshell_mcp_agents.Relay.Types.{AgentMode, plan, edit, bypass, disabled}
use tunshell_mcp_agents.Safety.Words.{Text, text, text_eq, byte_len}
use tunshell_mcp_agents.Safety.Commands.{SecurityConfig, CommandError, check_command_allowed}
use tunshell_mcp_agents.Safety.Paths.{check_size}
use tunshell_mcp_agents.Executor.Files.{
  allowed_path, stat, read_chunk, walk_dir, delete_all, thumbnail, search, receive_chunk,
  receive_chunk_raw,
}
use tunshell_mcp_agents.Executor.Types.{
  allows_write, return, bail, require, command_checked, call, map_run, Command, Effect, ExecError,
  CommandResult, Environment, AgentState, Outcome, Run, exec, read_file, write_file, list_dir,
  git_status, git_pull, git_commit, git_push, schedule_add, schedule_remove, schedule_list,
  task_dispatch, task_get, task_list, session_list, session_get, session_search, session_resume,
  session_terminate, file_stat, file_chunk, file_thumb, file_search, send_file_to, file_recv,
  transfer_get, dir_manifest, sync_dir_to, delete_paths, tunnel_start, tunnel_list, tunnel_stop,
  set_mode, get_info, map_task, reduce_task, runs, runs_with_stdin, stats, probes_dir, reads, lists,
  backs_up, writes, reads_git_status, pulls, commits, pushes, adds_schedule, removes_schedule,
  lists_schedules, dispatches, resumes, gets_task, lists_tasks, scans_sessions, reads_transcript,
  searches_sessions, terminates, starts_tunnel, lists_tunnels, stops_tunnel, switches_mode,
  not_accepting, is_disabled, write_not_allowed, too_large, autonomous_off, unknown_runner,
  must_be_peer, no_task, no_transfer, nonzero_exit, ok, exec_result, file, dir, info,
  git_status_result, git, schedule, task_queued, task, tasks, sessions, transcript, session_hits,
  file_meta, file_thumb_result, search_hits, transfer, tunnel_started, tunnels, mode_result,
  chunk_result, manifest_result, map_result, reduce_result, returned, bailed,
}

abbrev or_else : ℕ → Option ℕ → ℕ
or_else n none = n
or_else n (some m) = m

-- `inputs.join("\n")`
abbrev pub join_lines : List Text → Text
join_lines [] = []
join_lines (x ∷ []) = x
join_lines (x ∷ y ∷ xs) = x ++ (10 ∷ join_lines (y ∷ xs))

-- `mode == AgentMode::Disabled`
abbrev pub is_disabled_mode : AgentMode → Bool
is_disabled_mode disabled = true
is_disabled_mode plan = false
is_disabled_mode edit = false
is_disabled_mode bypass = false

module _ (env : Environment) (st : AgentState) where
  unfoldable pub command_policy : Text → Option CommandError
  command_policy command = check_command_allowed env.to_lowercase command st.mode st.security

  unfoldable pub when_writable : {A : Type 0} → Run A → Run A
  unfolding require
  when_writable k = require (allows_write st.mode) write_not_allowed k

  unfoldable pub run_exec : Text → Option ℕ → Option Text → Run CommandResult
  unfolding command_checked call
  run_exec command timeout_ms cwd = command_checked (command_policy command) (
      call env (runs command cwd (or_else (st.security.command_timeout * 1000) timeout_ms))
        (return exec_result))

  unfoldable pub run_read_file : Text → Run CommandResult
  unfolding allowed_path require call
  run_read_file path = allowed_path env st.security path (
      call env (stats path) (
        require (check_size (env.file_size path) st.security) too_large
          (call env (reads path) (return file))))

  unfoldable pub run_write_file : Text → Text → Bool → Run CommandResult
  unfolding allowed_path require call when_writable
  run_write_file path content create_backup =
      let sec = st.security in
      let write = call env (writes path content) (return ok) in
      when_writable (
        allowed_path env sec path (
          require (check_size (byte_len content) sec) too_large (
            if create_backup && sec.backup_enabled && env.exists path
            then call env (backs_up path sec.backup_dir sec.max_backup_versions) write
            else write)))

  unfoldable pub run_list_dir : Text → Option Text → Run CommandResult
  unfolding allowed_path call
  run_list_dir path pattern =
      allowed_path env st.security path (call env (lists path pattern) (return dir))

  unfoldable pub run_git_status : Text → Run CommandResult
  unfolding allowed_path call
  run_git_status repo =
      allowed_path env st.security repo
        (call env (reads_git_status repo) (return git_status_result))

  -- `GitPull`, `GitCommit` and `GitPush`, which differ in the call that they make.
  unfoldable pub run_git : Text → Effect → Run CommandResult
  unfolding allowed_path call when_writable
  run_git repo operation =
      when_writable (allowed_path env st.security repo (call env operation (return git)))

  unfoldable pub run_schedule_add : Text → Text → Text → Run CommandResult
  unfolding command_checked call
  run_schedule_add name cron command =
      command_checked (command_policy command)
        (call env (adds_schedule name cron command) (return ok))

  unfoldable pub run_task_dispatch : Text → Option Text → Run CommandResult
  unfolding require call
  run_task_dispatch prompt initiator =
      require st.autonomous_enabled autonomous_off
        (call env (dispatches prompt initiator) (return task_queued))

  unfoldable pub run_task_get : Text → Run CommandResult
  unfolding require call
  run_task_get id = call env (gets_task id) (require (env.task_known id) (no_task id) (return task))

  -- The window around a message, where the command names one.
  abbrev pub transcript_window : Option ℕ → Option ℕ → Option (ℕ × ℕ)
  transcript_window none window = none
  transcript_window (some seq) window = some (seq, or_else 5 window)

  unfoldable pub run_session_get : Text → Text → Option ℕ → Option ℕ → Run CommandResult
  unfolding call
  run_session_get provider id around_seq window =
      call env (reads_transcript provider id (transcript_window around_seq window))
        (return transcript)

  unfoldable pub run_session_search : Text → List Text → Option ℕ → Run CommandResult
  unfolding call
  run_session_search query providers limit =
      call env (searches_sessions query providers (or_else 20 limit)) (return session_hits)

  unfoldable pub run_session_resume : Text → Text → Text → Run CommandResult
  unfolding require call
  run_session_resume provider id prompt =
      let cwd = if provider == text "claude" then env.claude_session_cwd id else none in
      require st.autonomous_enabled autonomous_off (
        require (env.resume_runner provider id) unknown_runner
          (call env (resumes provider id prompt cwd) (return task_queued)))

  unfoldable pub run_file_recv : Text → ℕ → Text → Bool → Option Text → Run CommandResult
  unfolding when_writable receive_chunk map_run
  run_file_recv dest_path offset bytes eof sha256 =
      when_writable
        (map_run (λ u. ok) (receive_chunk env st.security dest_path offset bytes eof sha256))

  unfoldable pub run_transfer_get : Text → Run CommandResult
  unfolding require
  run_transfer_get id = require (env.transfer_known id) (no_transfer id) (return transfer)

  unfoldable pub run_dir_manifest : Text → Bool → List Text → Run CommandResult
  unfolding walk_dir map_run
  run_dir_manifest path with_hash exclude =
      let walk =
        map_run (λ u. manifest_result true) (walk_dir env st.security path with_hash exclude) in
      record {
        effects = probes_dir path ∷ (if env.is_dir path then walk.effects else []);
        outcome = if env.is_dir path then walk.outcome else returned (manifest_result false);
      }

  unfoldable pub run_delete_paths : List Text → Run CommandResult
  unfolding when_writable delete_all map_run
  run_delete_paths paths = when_writable (map_run (λ n. ok) (delete_all env st.security paths))

  unfoldable pub run_tunnel : Effect → CommandResult → Run CommandResult
  unfolding when_writable call
  run_tunnel operation result = when_writable (call env operation (return result))

  abbrev pub compute_error : Outcome Bool → Option ExecError
  compute_error (returned true) = none
  compute_error (returned false) = some nonzero_exit
  compute_error (bailed e) = some e

  abbrev pub compute_success : Outcome Bool → Bool
  compute_success (returned b) = b
  compute_success (bailed e) = false

  -- `run_compute_fn`: whether the command came to an exit code of 0, or why not.
  unfoldable pub run_compute_fn : Text → Text → Run Bool
  unfolding command_checked call
  run_compute_fn func stdin_data =
      let operation = runs_with_stdin func stdin_data (st.security.command_timeout * 1000) in
      command_checked (command_policy func) (call env operation (return (env.exits_zero operation)))

  -- A failure of the function is a result, not an error of the command.
  unfoldable pub run_map_task : Text → ℕ → Text → Text → Run CommandResult
  unfolding run_compute_fn
  run_map_task job_id partition_id map_fn content =
      let run = run_compute_fn map_fn content in
      record {
        effects = run.effects;
        outcome = returned (
            map_result job_id partition_id (compute_success run.outcome)
              (compute_error run.outcome));
      }

  unfoldable pub run_reduce_task : Text → Text → List Text → Run CommandResult
  unfolding run_compute_fn
  run_reduce_task job_id reduce_fn inputs =
      let run = run_compute_fn reduce_fn (join_lines inputs) in
      record {
        effects = run.effects;
        outcome =
            returned
              (reduce_result job_id (compute_success run.outcome) (compute_error run.outcome));
      }

  -- The `match` of `execute`.
  unfoldable pub run_command : Command → Run CommandResult
  unfolding run_exec run_read_file run_write_file run_list_dir run_git_status run_git
      run_schedule_add run_task_dispatch run_task_get run_session_get run_session_search
      run_session_resume run_file_recv run_transfer_get run_dir_manifest run_delete_paths run_tunnel
      run_map_task run_reduce_task call map_run stat read_chunk thumbnail search
  run_command (exec command timeout_ms cwd) = run_exec command timeout_ms cwd
  run_command (read_file path) = run_read_file path
  run_command (write_file path content create_backup) = run_write_file path content create_backup
  run_command (list_dir path pattern) = run_list_dir path pattern
  run_command (set_mode mode) = call env (switches_mode mode) (return (mode_result mode))
  run_command get_info = return info
  run_command (git_status repo) = run_git_status repo
  run_command (git_pull repo remote branch) = run_git repo (pulls repo remote branch)
  run_command (git_commit repo message files) = run_git repo (commits repo message files)
  run_command (git_push repo remote branch) = run_git repo (pushes repo remote branch)
  run_command (schedule_add name cron command) = run_schedule_add name cron command
  run_command (schedule_remove name) = call env (removes_schedule name) (return ok)
  run_command schedule_list = call env lists_schedules (return schedule)
  run_command (task_dispatch prompt initiator) = run_task_dispatch prompt initiator
  run_command (task_get id) = run_task_get id
  run_command task_list = call env lists_tasks (return tasks)
  run_command session_list = call env scans_sessions (return sessions)
  run_command (session_get provider id around_seq window) =
      run_session_get provider id around_seq window
  run_command (session_search query providers limit) = run_session_search query providers limit
  run_command (session_resume provider id prompt) = run_session_resume provider id prompt
  run_command (session_terminate id) = call env (terminates id) (return ok)
  run_command (file_stat path) = map_run (λ u. file_meta) (stat env st.security path)
  run_command (file_chunk path offset len) =
      map_run chunk_result (read_chunk env st.security path offset len)
  run_command (file_thumb path max_px) =
      map_run (λ u. file_thumb_result) (thumbnail env st.security path max_px)
  run_command (file_search roots query kind) =
      map_run (λ u. search_hits) (search env st.security roots query kind)
  run_command (file_recv transfer_id dest_path offset bytes eof sha256) =
      run_file_recv dest_path offset bytes eof sha256
  run_command (transfer_get id) = run_transfer_get id
  run_command (send_file_to src_path dest_id dest_path) = bail must_be_peer
  run_command (sync_dir_to src_path dest_id dest_path delete checksum dry_run exclude) =
      bail must_be_peer
  run_command (dir_manifest path with_hash exclude) = run_dir_manifest path with_hash exclude
  run_command (delete_paths paths) = run_delete_paths paths
  run_command (tunnel_start target) = run_tunnel (starts_tunnel target) tunnel_started
  run_command tunnel_list = call env lists_tunnels (return tunnels)
  run_command (tunnel_stop id) = run_tunnel (stops_tunnel id) ok
  run_command (map_task job_id partition_id map_fn content) =
      run_map_task job_id partition_id map_fn content
  run_command (reduce_task job_id reduce_fn inputs) = run_reduce_task job_id reduce_fn inputs

  unfoldable pub execute : Command → Run CommandResult
  unfolding require run_command
  execute command =
      require st.accepts_commands not_accepting
        (require (not (is_disabled_mode st.mode)) is_disabled (run_command command))

  -- The limit on the size of a transfer protects the relay: a direct channel lifts it.
  abbrev pub transfer_security : Bool → SecurityConfig → SecurityConfig
  transfer_security false sec = sec
  transfer_security true sec = record sec { max_transfer_size = 0 }

  unfoldable pub recv_file_chunk : Text → ℕ → Text → Bool → Option Text → Bool → Run CommandResult
  unfolding require when_writable receive_chunk map_run
  recv_file_chunk dest_path offset bytes_b64 eof sha256 over_udp =
      require st.accepts_commands not_accepting (
        when_writable (
          map_run (λ u. ok)
            (receive_chunk env (transfer_security over_udp st.security) dest_path offset bytes_b64
              eof sha256)))

  unfoldable pub recv_file_chunk_raw :
      Text → ℕ → List ℕ → Bool → Option Text → Bool → Run CommandResult
  unfolding require when_writable receive_chunk_raw map_run
  recv_file_chunk_raw dest_path offset raw eof sha256 over_udp =
      require st.accepts_commands not_accepting (
        when_writable (
          map_run (λ u. ok)
            (receive_chunk_raw env (transfer_security over_udp st.security) dest_path offset raw eof
              sha256)))
