-- ===== src/Executor/Examples.antt =====
-- An agent in Plan mode, one in Edit mode and one that is disabled, on a small host.
use tunshell_mcp_agents.Prelude.{◌∷◌, [], ◌≡◌, refl, none, some, true, false, ◌&&◌, not, all}
use tunshell_mcp_agents.Relay.Types.{AgentMode, plan, edit, disabled}
use tunshell_mcp_agents.Safety.Words.{text, contains_char}
use tunshell_mcp_agents.Safety.Examples.{policy, same_text}
use tunshell_mcp_agents.Safety.Paths.{denied_by_policy}
use tunshell_mcp_agents.Safety.Paths.Policy.{check_path_allowed-below_denied}
use tunshell_mcp_agents.Executor.Execute.{execute, recv_file_chunk, recv_file_chunk_raw}
use tunshell_mcp_agents.Executor.Gates.{is_write, commands_of, permitted}
use tunshell_mcp_agents.Executor.Gates.Modes.{
  plan_keeps_files, refuses_all, recv_gated, dir_manifest-discloses,
}
use tunshell_mcp_agents.Executor.Types.{
  bail, ExecError, Environment, AgentState, exec, dir_manifest, get_info, manifest_result,
  file_or_link, returned, regular, end,
}

abbrev host : Environment
host = record {
  cwd = [];
  home_dir = none;
  to_lowercase = same_text;
  decode_base64 = λ s. some s;
  succeeds = λ e. true;
  exits_zero = λ e. true;
  file_size = λ p. 3;
  exists = λ p. true;
  is_dir = λ p. false;
  kind_of = λ p. file_or_link;
  listing = λ p. regular (text "a") end;
  sha256_file = λ p. [];
  resume_runner = λ p i. true;
  claude_session_cwd = λ i. none;
  task_known = λ i. true;
  transfer_known = λ i. false;
}

abbrev agent : AgentMode → AgentState
agent mode = record {
  mode = mode;
  accepts_commands = true;
  security = policy;
  autonomous_enabled = false;
}

plan_keeps_files_example :
    all
      (λ e. not (is_write e) && all (λ c. not (contains_char c 62)) (commands_of e))
      (execute host (agent plan) (exec (text "cat a|ls") none none)).effects
    ≡ true
plan_keeps_files_example =
    plan_keeps_files host (agent plan) (exec (text "cat a|ls") none none) refl

refuses_all_example :
    ((e : ExecError) × (execute host (agent disabled) get_info ≡ bail e))
    × ((e : ExecError) × (recv_file_chunk host
            (agent disabled)
            (text "/a")
            0
            (text "b")
            true
            none
            true
          ≡ bail e))
    × ((e : ExecError) × (recv_file_chunk_raw host
            (agent disabled)
            (text "/a")
            0
            (1 ∷ [])
            true
            none
            true
          ≡ bail e))
refuses_all_example =
    refuses_all host (agent disabled) get_info (text "/a") (text "b") (1 ∷ []) 0 true none true refl

recv_gated_example :
    (all
        (permitted host edit policy)
        (recv_file_chunk host (agent edit) (text "/a") 0 (text "b") true none true).effects
      ≡ true)
    × (all
          (permitted host edit policy)
          (recv_file_chunk_raw host (agent edit) (text "/a") 0 (1 ∷ []) true none true).effects
        ≡ true)
recv_gated_example = recv_gated host (agent edit) (text "/a") (text "b") (1 ∷ []) 0 true none true

dir_manifest-discloses_example :
    (execute host (agent plan) (dir_manifest (text "/etc/ssh/key") false [])).outcome
    ≡ returned (manifest_result false)
dir_manifest-discloses_example =
    dir_manifest-discloses host (agent plan) (text "/etc/ssh/key") false []
      (denied_by_policy (text "/etc/ssh/key")) refl
      (check_path_allowed-below_denied [] policy (text "/tmp" ∷ []) 47 (text "etc") []
        (text "ssh/key") refl tt)
