-- ===== src/Safety/Examples.antt =====
-- The default kind of policy on a few commands and paths.
use tunshell_mcp_agents.Prelude.{◌∷◌, [], ◌≡◌, ◌≢◌, refl, none, some, true}
use tunshell_mcp_agents.Relay.Types.{plan, bypass}
use tunshell_mcp_agents.Safety.Words.{
  Text, text, is_in, trim, trim_start, trim_end, split_whitespace, basename, is_whitespace,
}
use tunshell_mcp_agents.Safety.Git.{words}
use tunshell_mcp_agents.Safety.Commands.{
  SecurityConfig, check_command_allowed, check_segments, is_readonly_segment, first_program,
  split_segments, check_plan, words_readonly, arguments_readonly, base_of_first,
}
use tunshell_mcp_agents.Safety.Commands.Plan.{
  after_operator, end, plan-every_program, denylist_always,
}
use tunshell_mcp_agents.Safety.Paths.{normalize, check_path_allowed, denied_by_policy}
use tunshell_mcp_agents.Safety.Paths.Policy.{
  normalize-parent_cancels, check_path_allowed-below_denied,
}

-- A stand-in for the lower case of `str`: the examples have lower case only.
abbrev pub same_text : Text → Text
same_text s = s

abbrev pub policy : SecurityConfig
policy = record {
  mode = plan;
  backup_enabled = true;
  backup_dir = text "/bak";
  max_backup_versions = 3;
  max_transfer_size = 100;
  transfer_chunk_size = 10;
  search_roots = [];
  search_max_results = 50;
  search_timeout_secs = 30;
  command_timeout = 300;
  encryption_key = none;
  allowed_paths = [];
  denied_paths = words ("/tmp" ∷ "/etc" ∷ []);
  readonly_commands = words ("cat" ∷ "ls" ∷ "git" ∷ []);
  denied_commands = words ("shutdown" ∷ []);
  max_file_size = 0;
}

piped : check_command_allowed same_text (text "cat a|ls") plan policy ≡ none
unfolding check_command_allowed check_plan check_segments is_readonly_segment words_readonly
    arguments_readonly first_program split_segments trim trim_start trim_end split_whitespace
    basename is_whitespace
piped = refl

lists : first_program (trim (text "ls")) ≡ some (text "ls")
unfolding first_program base_of_first trim trim_start trim_end split_whitespace basename
    is_whitespace
lists = refl

plan-every_program_example : is_in policy.readonly_commands (text "ls") ≡ true
plan-every_program_example =
    plan-every_program same_text policy (text "cat a|") (text "ls") [] (text "ls")
      (after_operator (text "cat a") 124 refl) end refl lists piped

denylist_always_example :
    check_command_allowed same_text (text "sudo shutdown") bypass policy ≢ none
denylist_always_example =
    denylist_always same_text policy (text "sudo shutdown") bypass [] (text "shutdown") [] refl refl

normalize-parent_cancels_example : normalize [] (text "/a/b/../c") ≡ normalize [] (text "/a/c")
normalize-parent_cancels_example =
    normalize-parent_cancels [] 47 (text "a") (text "b") (text "c") refl

check_path_allowed-below_denied_example :
    check_path_allowed [] (text "/etc/ssh/key") policy
    ≡ some (denied_by_policy (text "/etc/ssh/key"))
check_path_allowed-below_denied_example =
    check_path_allowed-below_denied [] policy (words ("/tmp" ∷ [])) 47 (text "etc") []
      (text "ssh/key") refl tt
