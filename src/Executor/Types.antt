-- ===== src/Executor/Types.antt =====
-- `Command` of shared/src/protocol.rs, and the calls that the executor makes for it. Paths,
-- commands, ids and contents are texts.
use tunshell_mcp_agents.Prelude.{ℕ, List, [], ◌∷◌, Option, none, some, Bool, true, false}
use tunshell_mcp_agents.Relay.Types.{AgentMode, plan, edit, bypass, disabled}
use tunshell_mcp_agents.Safety.Words.{Text}
use tunshell_mcp_agents.Safety.Commands.{SecurityConfig, CommandError}
use tunshell_mcp_agents.Safety.Paths.{PathError}

unfoldable pub allows_write : AgentMode → Bool
allows_write plan = false
allows_write edit = true
allows_write bypass = true
allows_write disabled = false

pub data SearchKind : Type 0 where
  name content image : SearchKind

pub data Command : Type 0 where
  exec : Text → Option ℕ → Option Text → Command
  read_file : Text → Command
  write_file : Text → Text → Bool → Command
  list_dir : Text → Option Text → Command
  git_status : Text → Command
  git_pull : Text → Text → Option Text → Command
  git_commit : Text → Text → List Text → Command
  git_push : Text → Text → Option Text → Command
  schedule_add : Text → Text → Text → Command
  schedule_remove : Text → Command
  schedule_list : Command
  task_dispatch : Text → Option Text → Command
  task_get : Text → Command
  task_list : Command
  session_list : Command
  session_get : Text → Text → Option ℕ → Option ℕ → Command
  session_search : Text → List Text → Option ℕ → Command
  session_resume : Text → Text → Text → Command
  session_terminate : Text → Command
  file_stat : Text → Command
  file_chunk : Text → ℕ → ℕ → Command
  file_thumb : Text → ℕ → Command
  file_search : List Text → Text → SearchKind → Command
  send_file_to : Text → Text → Text → Command
  file_recv : Text → Text → ℕ → Text → Bool → Option Text → Command
  transfer_get : Text → Command
  dir_manifest : Text → Bool → List Text → Command
  sync_dir_to : Text → Text → Text → Bool → Bool → Bool → List Text → Command
  delete_paths : List Text → Command
  tunnel_start : Text → Command
  tunnel_list : Command
  tunnel_stop : Text → Command
  set_mode : AgentMode → Command
  get_info : Command
  map_task : Text → ℕ → Text → Text → Command
  reduce_task : Text → Text → List Text → Command

-- The calls that leave the executor, named for what they do on the host.
pub data Effect : Type 0 where
  runs : Text → Option Text → ℕ → Effect
  runs_with_stdin : Text → Text → ℕ → Effect
  stats : Text → Effect
  probes_size : Text → Effect
  probes_dir : Text → Effect
  reads : Text → Effect
  reads_slice : Text → ℕ → ℕ → Effect
  lists : Text → Option Text → Effect
  reads_dir : Text → Effect
  reads_dir_below : (root rel_path : Text) → Effect
  stats_below : (root rel_path : Text) → Effect
  hashes_below : (root rel_path : Text) → Effect
  decodes_image : Text → ℕ → Effect
  searches : List Text → Text → SearchKind → ℕ → ℕ → Effect
  hashes : Text → Effect
  backs_up : Text → Text → ℕ → Effect
  writes : Text → Text → Effect
  creates_parents : Text → Effect
  writes_at : Text → ℕ → List ℕ → Effect
  sets_len : Text → ℕ → Effect
  removes : Text → Effect
  reads_git_status : Text → Effect
  pulls : Text → Text → Option Text → Effect
  commits : Text → Text → List Text → Effect
  pushes : Text → Text → Option Text → Effect
  adds_schedule : Text → Text → Text → Effect
  removes_schedule : Text → Effect
  lists_schedules : Effect
  dispatches : Text → Option Text → Effect
  resumes : Text → Text → Text → Option Text → Effect
  gets_task : Text → Effect
  lists_tasks : Effect
  scans_sessions : Effect
  reads_transcript : Text → Text → Option (ℕ × ℕ) → Effect
  searches_sessions : Text → List Text → ℕ → Effect
  terminates : Text → Effect
  starts_tunnel : Text → Effect
  lists_tunnels : Effect
  stops_tunnel : Text → Effect
  switches_mode : AgentMode → Effect

pub data ExecError : Type 0 where
  not_accepting is_disabled write_not_allowed too_large over_transfer_limit : ExecError
  offset_past_end offset_overflow sha_mismatch bad_base64 : ExecError
  empty_query no_allowed_roots not_a_directory : ExecError
  autonomous_off unknown_runner must_be_peer : ExecError
  no_task no_transfer : Text → ExecError
  command_refused : CommandError → ExecError
  path_refused : PathError → ExecError
  call_failed : Effect → ExecError
  nonzero_exit : ExecError

-- `CommandResult`, without the payloads that a call returned and the executor passes on.
pub data CommandResult : Type 0 where
  ok : CommandResult
  exec_result file dir info git_status_result git schedule : CommandResult
  task_queued task tasks sessions transcript session_hits : CommandResult
  file_meta file_thumb_result search_hits transfer tunnel_started tunnels : CommandResult
  mode_result : AgentMode → CommandResult
  chunk_result : (eof : Bool) → CommandResult
  manifest_result : (root_exists : Bool) → CommandResult
  map_result : Text → ℕ → Bool → Option ExecError → CommandResult
  reduce_result : Text → Bool → Option ExecError → CommandResult

-- What `symlink_metadata` says of a path.
pub data FileKind : Type 0 where
  file_or_link directory missing unreadable : FileKind

-- What is below a directory, in the order in which it is listed.
pub data Listing : Type 0 where
  end : Listing
  link : Text → Listing → Listing
  regular : Text → Listing → Listing
  special : Text → Listing → Listing
  folder : Text → Listing → Listing → Listing

-- What the host answers to the calls of one run, with the functions of third-party code (Unicode
-- lower case, base64) and the current directory.
pub record Environment : Type 0 where
  pub cwd : List Text
  pub home_dir : Option Text
  pub to_lowercase : Text → Text
  pub decode_base64 : Text → Option (List ℕ)
  pub succeeds : Effect → Bool
  pub exits_zero : Effect → Bool
  pub file_size : Text → ℕ
  pub exists : Text → Bool
  pub is_dir : Text → Bool
  pub kind_of : Text → FileKind
  pub listing : Text → Listing
  pub sha256_file : Text → Text
  pub resume_runner : Text → Text → Bool
  pub claude_session_cwd : Text → Option Text
  pub task_known : Text → Bool
  pub transfer_known : Text → Bool

-- The part of `AgentState` and its configuration that the executor reads.
pub record AgentState : Type 0 where
  pub mode : AgentMode
  pub accepts_commands : Bool
  pub security : SecurityConfig
  pub autonomous_enabled : Bool

-- `Result`, with the calls that were made before it.
pub data Outcome (A : Type 0) : Type 0 where
  returned : A → Outcome A
  bailed : ExecError → Outcome A

pub record Run (A : Type 0) : Type 0 where
  pub effects : List Effect
  pub outcome : Outcome A

module _ {A : Type 0} where
  abbrev pub return : A → Run A
  return a = record { effects = []; outcome = returned a }

  abbrev pub bail : ExecError → Run A
  bail e = record { effects = []; outcome = bailed e }

  -- `if !b { bail!(e) }`
  unfoldable pub require : Bool → ExecError → Run A → Run A
  require true e k = k
  require false e k = bail e

  -- `check_command_allowed(..)?` and `check_path_allowed(..)?`
  unfoldable pub command_checked : Option CommandError → Run A → Run A
  command_checked none k = k
  command_checked (some e) k = bail (command_refused e)

  unfoldable pub path_checked : Option PathError → Run A → Run A
  path_checked none k = k
  path_checked (some e) k = bail (path_refused e)

  -- A call, and what follows it when the call succeeds.
  unfoldable pub after_call : Bool → Effect → Run A → Run A
  after_call true e k = record { effects = e ∷ k.effects; outcome = k.outcome }
  after_call false e k = record { effects = e ∷ []; outcome = bailed (call_failed e) }

  unfoldable pub call : Environment → Effect → Run A → Run A
  call env e k = after_call (env.succeeds e) e k

module _ {A B : Type 0} where
  abbrev pub map_outcome : (A → B) → Outcome A → Outcome B
  map_outcome f (returned a) = returned (f a)
  map_outcome f (bailed e) = bailed e

  unfoldable pub map_run : (A → B) → Run A → Run B
  map_run f run = record { effects = run.effects; outcome = map_outcome f run.outcome }
