-- ===== src/Executor/Gates/Arms.antt =====
-- Every effect of `execute` and of the receiving functions is permitted.
use tunshell_mcp_agents.Prelude.{
  ℕ, ◌≡◌, refl, List, [], ◌∷◌, Option, none, Bool, true, false, ◌&&◌, not, if◌then◌else◌, all,
  arith, ◌==◌,
}
use tunshell_mcp_agents.Safety.Words.{Text, text, text_eq, byte_len}
use tunshell_mcp_agents.Safety.Paths.{check_size}
use tunshell_mcp_agents.Executor.Files.{
  allowed_path, stat, read_chunk, walk_dir, delete_all, thumbnail, search, receive_chunk,
}
use tunshell_mcp_agents.Executor.Execute.{
  execute, run_command, run_exec, run_read_file, run_write_file, run_list_dir, run_git_status,
  run_git, run_schedule_add, run_task_dispatch, run_task_get, run_session_get, run_session_search,
  run_session_resume, run_file_recv, run_transfer_get, run_dir_manifest, run_delete_paths,
  run_tunnel, run_compute_fn, run_map_task, run_reduce_task, is_disabled_mode, command_policy,
  when_writable, join_lines,
}
use tunshell_mcp_agents.Executor.Gates.{
  is_write, given_paths, commands_of, permitted, require-All, call-All, path-All, command-All,
  if-All, Safe, return-Safe, bail-Safe, map_run-Safe,
}
use tunshell_mcp_agents.Executor.Gates.Files.{
  writes_permitted, reads_permitted, stat-permitted, read_chunk-permitted, walk_dir-permitted,
  thumbnail-permitted, search-permitted, delete_all-permitted, receive_chunk-permitted,
}
use tunshell_mcp_agents.Executor.Types.{
  allows_write, return, require, call, map_run, Command, Effect, ExecError, CommandResult,
  Environment, AgentState, Run, exec, read_file, write_file, list_dir, git_status, git_pull,
  git_commit, git_push, schedule_add, schedule_remove, schedule_list, task_dispatch, task_get,
  task_list, session_list, session_get, session_search, session_resume, session_terminate,
  file_stat, file_chunk, file_thumb, file_search, send_file_to, file_recv, transfer_get,
  dir_manifest, sync_dir_to, delete_paths, tunnel_start, tunnel_list, tunnel_stop, set_mode,
  get_info, map_task, reduce_task, stats, reads, lists, backs_up, writes, reads_git_status, pulls,
  commits, pushes, removes_schedule, lists_schedules, dispatches, resumes, gets_task, lists_tasks,
  scans_sessions, reads_transcript, searches_sessions, terminates, starts_tunnel, lists_tunnels,
  stops_tunnel, switches_mode, not_accepting, is_disabled, write_not_allowed, too_large,
  autonomous_off, unknown_runner, must_be_peer, no_task, no_transfer, ok, file, dir, info,
  git_status_result, task_queued, task, file_meta, file_thumb_result, search_hits, transfer,
  tunnel_started, chunk_result,
}

module _ (env : Environment) (st : AgentState) where
  abbrev P : Effect → Bool
  P = permitted env st.mode st.security

  abbrev Gated : {A : Type 0} → Run A → Type 0
  Gated run = Safe P run

  -- A call that needs no check, and one that runs a command that was checked.
  free_call : {A : Type 0} (e : Effect) (k : A) → P e ≡ true → Gated (call env e (return k))
  free_call e k p = call-All P env e (return k) p (return-Safe P k)

  guarded_call :
      {A : Type 0} (b : Bool) (x : ExecError) (e : Effect) (k : A)
      → P e ≡ true
      → Gated (require b x (call env e (return k)))
  guarded_call b x e k p = require-All P b x (call env e (return k)) (λ h. free_call e k p)

  answered : {A : Type 0} (b : Bool) (x : ExecError) (k : A) → Gated (require b x (return k))
  answered b x k = require-All P b x (return k) (λ h. return-Safe P k)

  run_exec-gated :
      (command : Text) (timeout_ms : Option ℕ) (cwd : Option Text)
      → Gated (run_exec env st command timeout_ms cwd)
  unfolding run_exec command_policy permitted is_write given_paths commands_of
  run_exec-gated command timeout_ms cwd =
      command-All P env st.mode st.security command _
        (λ c. call-All P env _ _ (rw c refl) (return-Safe P _))

  run_schedule_add-gated :
      (name cron command : Text) → Gated (run_schedule_add env st name cron command)
  unfolding run_schedule_add command_policy permitted is_write given_paths commands_of
  run_schedule_add-gated name cron command =
      command-All P env st.mode st.security command _
        (λ c. call-All P env _ _ (rw c refl) (return-Safe P _))

  run_compute_fn-gated : (func stdin_data : Text) → Gated (run_compute_fn env st func stdin_data)
  unfolding run_compute_fn command_policy permitted is_write given_paths commands_of
  run_compute_fn-gated func stdin_data =
      command-All P env st.mode st.security func _
        (λ c. call-All P env _ _ (rw c refl) (return-Safe P _))

  run_read_file-gated : (path : Text) → Gated (run_read_file env st path)
  unfolding run_read_file is_write given_paths commands_of
  run_read_file-gated path = path-All P env st.security path _ (λ a.
      call-All P env (stats path) _
        (reads_permitted env st.mode st.security st.security (λ p a. a) (stats path) path refl refl
          refl a)
        (require-All P (check_size (env.file_size path) st.security) too_large
          (call env (reads path) (return file))
          (λ s.
            call-All P env (reads path) (return file)
              (reads_permitted env st.mode st.security st.security (λ p a. a) (reads path) path refl
                refl refl a)
              (return-Safe P _))))

  when_writable-gated :
      {A : Type 0} (k : Run A)
      → (allows_write st.mode ≡ true → Gated k)
      → Gated (when_writable env st k)
  unfolding when_writable
  when_writable-gated k h = require-All P (allows_write st.mode) write_not_allowed k h

  run_write_file-gated :
      (path content : Text) (create_backup : Bool)
      → Gated (run_write_file env st path content create_backup)
  unfolding run_write_file given_paths commands_of
  run_write_file-gated path content create_backup =
      let sec = st.security in
      let backed = create_backup && sec.backup_enabled && env.exists path in
      let write = call env (writes path content) (return ok) in
      let backup = call env (backs_up path sec.backup_dir sec.max_backup_versions) write in
      when_writable-gated _ (λ w. path-All P env sec path _ (λ a.
        let writing =
          call-All P env (writes path content) (return ok)
            (writes_permitted env st.mode sec sec (λ p a. a) (writes path content) path w refl refl
              a)
            (return-Safe P ok) in
        require-All P (check_size (byte_len content) sec) too_large
          (if backed then backup else write)
          (λ s.
            if-All P backed backup write
              (call-All P env (backs_up path sec.backup_dir sec.max_backup_versions) write
                (writes_permitted env st.mode sec sec (λ p a. a)
                  (backs_up path sec.backup_dir sec.max_backup_versions) path w refl refl a)
                writing)
              writing)))

  run_git-gated :
      (repo : Text) (e : Effect)
      → given_paths e ≡ repo ∷ []
      → commands_of e ≡ []
      → Gated (run_git env st repo e)
  unfolding run_git
  run_git-gated repo e t c = when_writable-gated _ (λ w. path-All P env st.security repo _ (λ a.
      call-All P env e _
        (writes_permitted env st.mode st.security st.security (λ p a. a) e repo w t c a)
        (return-Safe P _)))

  run_tunnel-gated :
      (e : Effect) (result : CommandResult)
      → given_paths e ≡ []
      → commands_of e ≡ []
      → Gated (run_tunnel env st e result)
  unfolding run_tunnel permitted
  run_tunnel-gated e result t c =
      when_writable-gated _
        (λ w. call-All P env e _ (ground (arith, w, t, c)) (return-Safe P result))

  one_path-gated :
      {A : Type 0} (e : Effect) (path : Text) (k : A)
      → is_write e ≡ false
      → given_paths e ≡ path ∷ []
      → commands_of e ≡ []
      → Gated (allowed_path env st.security path (call env e (return k)))
  one_path-gated e path k w t c = path-All P env st.security path _ (λ a.
      call-All P env e _
        (reads_permitted env st.mode st.security st.security (λ p a. a) e path w t c a)
        (return-Safe P _))

  if_effects : (b : Bool) (es : List Effect) → all P es ≡ true → all P (if b then es else []) ≡ true
  if_effects true es h = h
  if_effects false es h = refl

  run_dir_manifest-gated :
      (path : Text) (with_hash : Bool) (exclude : List Text)
      → Gated (run_dir_manifest env st path with_hash exclude)
  unfolding Safe run_dir_manifest map_run permitted is_write given_paths commands_of
  run_dir_manifest-gated path with_hash exclude =
      if_effects (env.is_dir path) (walk_dir env st.security path with_hash exclude).effects
        (walk_dir-permitted env st.mode st.security st.security (λ p a. a) path with_hash exclude)

  run_session_resume-gated :
      (provider id prompt : Text) → Gated (run_session_resume env st provider id prompt)
  unfolding run_session_resume permitted is_write given_paths commands_of
  run_session_resume-gated provider id prompt =
      let cwd = if provider == text "claude" then env.claude_session_cwd id else none in
      let resume = call env (resumes provider id prompt cwd) (return task_queued) in
      let known = env.resume_runner provider id in
      require-All P st.autonomous_enabled autonomous_off (require known unknown_runner resume)
        (λ a. guarded_call known unknown_runner (resumes provider id prompt cwd) task_queued refl)

  run_map_task-gated :
      (job_id : Text) (partition_id : ℕ) (map_fn content : Text)
      → Gated (run_map_task env st job_id partition_id map_fn content)
  unfolding Safe run_map_task
  run_map_task-gated job_id partition_id map_fn content = run_compute_fn-gated map_fn content

  run_reduce_task-gated :
      (job_id reduce_fn : Text) (inputs : List Text)
      → Gated (run_reduce_task env st job_id reduce_fn inputs)
  unfolding Safe run_reduce_task
  run_reduce_task-gated job_id reduce_fn inputs = run_compute_fn-gated reduce_fn (join_lines inputs)

  run_command-gated : (command : Command) → Gated (run_command env st command)
  unfolding run_command run_list_dir run_git_status run_task_dispatch run_task_get run_session_get
      run_session_search run_session_resume run_file_recv run_transfer_get run_delete_paths
      permitted is_write given_paths commands_of
  run_command-gated (exec command timeout_ms cwd) = run_exec-gated command timeout_ms cwd
  run_command-gated (read_file path) = run_read_file-gated path
  run_command-gated (write_file path content create_backup) =
      run_write_file-gated path content create_backup
  run_command-gated (list_dir path pattern) =
      one_path-gated (lists path pattern) path dir refl refl refl
  run_command-gated (set_mode mode) = free_call (switches_mode mode) _ refl
  run_command-gated get_info = return-Safe P info
  run_command-gated (git_status repo) =
      one_path-gated (reads_git_status repo) repo git_status_result refl refl refl
  run_command-gated (git_pull repo remote branch) =
      run_git-gated repo (pulls repo remote branch) refl refl
  run_command-gated (git_commit repo message files) =
      run_git-gated repo (commits repo message files) refl refl
  run_command-gated (git_push repo remote branch) =
      run_git-gated repo (pushes repo remote branch) refl refl
  run_command-gated (schedule_add name cron command) = run_schedule_add-gated name cron command
  run_command-gated (schedule_remove name) = free_call (removes_schedule name) _ refl
  run_command-gated schedule_list = free_call lists_schedules _ refl
  run_command-gated (task_dispatch prompt initiator) =
      guarded_call st.autonomous_enabled autonomous_off (dispatches prompt initiator) task_queued
        refl
  run_command-gated (task_get id) =
      call-All P env (gets_task id) (require (env.task_known id) (no_task id) (return task)) refl
        (answered (env.task_known id) (no_task id) task)
  run_command-gated task_list = free_call lists_tasks _ refl
  run_command-gated session_list = free_call scans_sessions _ refl
  run_command-gated (session_get provider id around_seq window) =
      free_call (reads_transcript provider id _) _ refl
  run_command-gated (session_search query providers limit) =
      free_call (searches_sessions query providers _) _ refl
  run_command-gated (session_resume provider id prompt) =
      run_session_resume-gated provider id prompt
  run_command-gated (session_terminate id) = free_call (terminates id) _ refl
  run_command-gated (file_stat path) =
      map_run-Safe P (λ u. file_meta) (stat env st.security path)
        (stat-permitted env st.mode st.security st.security (λ p a. a) path)
  run_command-gated (file_chunk path offset len) =
      map_run-Safe P chunk_result (read_chunk env st.security path offset len)
        (read_chunk-permitted env st.mode st.security st.security (λ p a. a) path offset len)
  run_command-gated (file_thumb path max_px) =
      map_run-Safe P (λ u. file_thumb_result) (thumbnail env st.security path max_px)
        (thumbnail-permitted env st.mode st.security st.security (λ p a. a) path max_px)
  run_command-gated (file_search roots query kind) =
      map_run-Safe P (λ u. search_hits) (search env st.security roots query kind)
        (search-permitted env st.mode st.security st.security (λ p a. a) roots query kind)
  run_command-gated (file_recv transfer_id dest_path offset bytes eof sha256) =
      let run = receive_chunk env st.security dest_path offset bytes eof sha256 in
      when_writable-gated (map_run (λ u. ok) run) (λ w.
        map_run-Safe P (λ u. ok) run
          (receive_chunk-permitted env st.mode st.security st.security (λ p a. a) w dest_path offset
            bytes eof sha256))
  run_command-gated (transfer_get id) = answered (env.transfer_known id) (no_transfer id) transfer
  run_command-gated (send_file_to src_path dest_id dest_path) = bail-Safe _ P must_be_peer
  run_command-gated (sync_dir_to src_path dest_id dest_path delete checksum dry_run exclude) =
      bail-Safe _ P must_be_peer
  run_command-gated (dir_manifest path with_hash exclude) =
      run_dir_manifest-gated path with_hash exclude
  run_command-gated (delete_paths paths) =
      let run = delete_all env st.security paths in
      when_writable-gated (map_run (λ n. ok) run) (λ w.
        map_run-Safe P (λ n. ok) run
          (delete_all-permitted env st.mode st.security st.security (λ p a. a) w paths))
  run_command-gated (tunnel_start target) =
      run_tunnel-gated (starts_tunnel target) tunnel_started refl refl
  run_command-gated tunnel_list = free_call lists_tunnels _ refl
  run_command-gated (tunnel_stop id) = run_tunnel-gated (stops_tunnel id) ok refl refl
  run_command-gated (map_task job_id partition_id map_fn content) =
      run_map_task-gated job_id partition_id map_fn content
  run_command-gated (reduce_task job_id reduce_fn inputs) =
      run_reduce_task-gated job_id reduce_fn inputs

pub execute_gated :
    (env : Environment) (st : AgentState) (command : Command)
    → all (permitted env st.mode st.security) (execute env st command).effects ≡ true
unfolding Safe execute
execute_gated env st command =
    let run = run_command env st command in
    let enabled = not (is_disabled_mode st.mode) in
    require-All (P env st) st.accepts_commands not_accepting (require enabled is_disabled run)
      (λ a. require-All (P env st) enabled is_disabled run (λ d. run_command-gated env st command))
