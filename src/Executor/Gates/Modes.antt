-- ===== src/Executor/Gates/Modes.antt =====
-- What the modes of an agent mean for what the executor does.
use tunshell_mcp_agents.Prelude.{
  ℕ, ◌≡◌, refl, List, Option, some, Bool, true, false, ◌&&◌, not, if◌then◌else◌, all, arith,
  Bool-cases, Option-cases, inl, inr, subst,
}
use tunshell_mcp_agents.Relay.Types.{AgentMode, plan, edit, bypass, disabled}
use tunshell_mcp_agents.Safety.Words.{Text, contains_char}
use tunshell_mcp_agents.Safety.Commands.{SecurityConfig, check_command_allowed}
use tunshell_mcp_agents.Safety.Commands.Plan.{plan-writes_nothing}
use tunshell_mcp_agents.Safety.Paths.{PathError, check_path_allowed}
use tunshell_mcp_agents.Executor.Files.{
  receive_chunk, receive_chunk_raw, is_allowed, walk_dir, allowed_path,
}
use tunshell_mcp_agents.Executor.Execute.{
  execute, run_command, run_dir_manifest, recv_file_chunk, recv_file_chunk_raw, transfer_security,
  is_disabled_mode, when_writable,
}
use tunshell_mcp_agents.Executor.Gates.{
  is_write, commands_of, permitted, command_allowed, Safe, require-All, map_run-Safe,
}
use tunshell_mcp_agents.Executor.Gates.Files.{
  receive_chunk-permitted, receive_chunk_raw-permitted, all_mono,
}
use tunshell_mcp_agents.Executor.Gates.Arms.{execute_gated}
use tunshell_mcp_agents.Executor.Types.{
  allows_write, bail, require, path_checked, map_run, Command, Effect, ExecError, Environment,
  AgentState, Run, dir_manifest, not_accepting, is_disabled, write_not_allowed, path_refused, ok,
  manifest_result, returned, bailed,
}

no_redirection :
    (env : Environment) (sec : SecurityConfig) (command : Text)
    → command_allowed env plan sec command ≡ true
    → not (contains_char command 62) ≡ true
unfolding command_allowed
no_redirection env sec command h =
    elim (Option-cases (check_command_allowed env.to_lowercase command plan sec)) [
      | inl e ↦ rw (plan-writes_nothing env.to_lowercase command sec e).0 refl
      | inr (x, e) ↦ absurd (ground (arith, e, h))
    ]

-- An effect that writes nothing, and whose commands have no `>`.
abbrev is_quiet : Effect → Bool
is_quiet e = not (is_write e) && all (λ c. not (contains_char c 62)) (commands_of e)

quiet :
    (env : Environment) (sec : SecurityConfig) (e : Effect)
    → permitted env plan sec e ≡ true
    → is_quiet e ≡ true
unfolding permitted allows_write
quiet env sec e h =
    let commands =
      all_mono (command_allowed env plan sec) (λ c. not (contains_char c 62)) (commands_of e)
        (no_redirection env sec) (ground (arith, h)) in
    ground (arith, h, commands)

-- In Plan mode, whatever a peer asks for, the executor writes and removes no file, takes no
-- backup, changes no git repository and starts or stops no tunnel, and no shell command that it
-- runs or schedules has a `>`.
pub plan_keeps_files :
    (env : Environment) (st : AgentState) (command : Command)
    → st.mode ≡ plan
    → all
        (λ e. not (is_write e) && all (λ c. not (contains_char c 62)) (commands_of e))
        (execute env st command).effects
      ≡ true
plan_keeps_files env st command m =
    all_mono (permitted env plan st.security) is_quiet (execute env st command).effects
      (quiet env st.security)
      (subst (λ mode. all (permitted env mode st.security) (execute env st command).effects ≡ true)
        m (execute_gated env st command))

-- A node that accepts no commands or whose agent is disabled does nothing for a peer: a command,
-- and a slice of a file in either encoding, fail before any call is made.
pub refuses_all :
    (env : Environment) (st : AgentState) (command : Command) (dest encoded : Text) (raw : List ℕ)
    (offset : ℕ) (eof : Bool) (sha256 : Option Text) (over_udp : Bool)
    → st.accepts_commands && not (is_disabled_mode st.mode) ≡ false
    → ((e : ExecError) × (execute env st command ≡ bail e))
      × ((e : ExecError) × (recv_file_chunk env st dest offset encoded eof sha256 over_udp
            ≡ bail e))
      × ((e : ExecError) × (recv_file_chunk_raw env st dest offset raw eof sha256 over_udp
            ≡ bail e))
unfolding execute recv_file_chunk recv_file_chunk_raw require when_writable allows_write
refuses_all env st command dest encoded raw offset eof sha256 over_udp h =
    elim (Bool-cases st.accepts_commands) [
      | inr a ↦ rw a ((not_accepting, refl), (not_accepting, refl), (not_accepting, refl))
      | inl a ↦
          rw (a, mode_disabled st.mode (ground (arith, a, h)))
            ((is_disabled, refl), (write_not_allowed, refl), (write_not_allowed, refl))
    ]
  where
    mode_disabled : (mode : AgentMode) → not (is_disabled_mode mode) ≡ false → mode ≡ disabled
    mode_disabled disabled k = refl
    mode_disabled plan k = absurd (ground arith)
    mode_disabled edit k = absurd (ground arith)
    mode_disabled bypass k = absurd (ground arith)

transfer_paths :
    (env : Environment) (st : AgentState) (over_udp : Bool) (path : Text)
    → is_allowed env (transfer_security env st over_udp st.security) path ≡ true
    → is_allowed env st.security path ≡ true
unfolding is_allowed check_path_allowed
transfer_paths env st false path h = h
transfer_paths env st true path h = h

received :
    (env : Environment) (st : AgentState) (run : Run Unit)
    → (allows_write st.mode ≡ true → Safe (permitted env st.mode st.security) run)
    → Safe
        (permitted env st.mode st.security)
        (require st.accepts_commands not_accepting (when_writable env st (map_run (λ u. ok) run)))
unfolding when_writable
received env st run h =
    let P = permitted env st.mode st.security in
    let writing = require (allows_write st.mode) write_not_allowed (map_run (λ u. ok) run) in
    require-All P st.accepts_commands not_accepting writing (λ a.
      require-All P (allows_write st.mode) write_not_allowed (map_run (λ u. ok) run)
        (λ w. map_run-Safe P (λ u. ok) run (h w)))

-- A slice of a file that arrives over the relay or the direct channel is handled within the same
-- gates as a command: in Edit and Bypass only, and at an allowed path. Lifting the size limit for
-- the direct channel lifts none of them.
pub recv_gated :
    (env : Environment) (st : AgentState) (dest encoded : Text) (raw : List ℕ) (offset : ℕ)
    (eof : Bool) (sha256 : Option Text) (over_udp : Bool)
    → (all
          (permitted env st.mode st.security)
          (recv_file_chunk env st dest offset encoded eof sha256 over_udp).effects
        ≡ true)
      × (all
            (permitted env st.mode st.security)
            (recv_file_chunk_raw env st dest offset raw eof sha256 over_udp).effects
          ≡ true)
unfolding Safe recv_file_chunk recv_file_chunk_raw
recv_gated env st dest encoded raw offset eof sha256 over_udp =
    let sec = transfer_security env st over_udp st.security in
    let agree = transfer_paths env st over_udp in
    (
      received env st (receive_chunk env sec dest offset encoded eof sha256) (λ w.
          receive_chunk-permitted env st.mode sec st.security agree w dest offset encoded eof
            sha256),
      received env st (receive_chunk_raw env sec dest offset raw eof sha256) (λ w.
          receive_chunk_raw-permitted env st.mode sec st.security agree w dest offset raw eof
            sha256),
    )

-- `DirManifest` asks whether its path is a directory before the path is checked: for a path that
-- the policy denies, an enabled node answers without an error exactly if it is no directory.
pub dir_manifest-discloses :
    (env : Environment) (st : AgentState) (path : Text) (with_hash : Bool) (exclude : List Text)
    (denied : PathError)
    → st.accepts_commands && not (is_disabled_mode st.mode) ≡ true
    → check_path_allowed env.cwd path st.security ≡ some denied
    → (execute env st (dir_manifest path with_hash exclude)).outcome
      ≡ (if env.is_dir path then bailed (path_refused denied) else returned (manifest_result false))
unfolding execute require run_command run_dir_manifest walk_dir allowed_path path_checked map_run
dir_manifest-discloses env st path with_hash exclude denied h p =
    elim (Bool-cases st.accepts_commands) [
      | inr a ↦ absurd (ground (arith, a, h))
      | inl a ↦ elim (Bool-cases (not (is_disabled_mode st.mode))) [
        | inr d ↦ absurd (ground (arith, a, d, h))
        | inl d ↦ rw (a, d, p) refl
      ]
    ]
