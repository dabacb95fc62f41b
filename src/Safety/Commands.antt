-- ===== src/Safety/Commands.antt =====
-- `check_command_allowed` of safety.rs. `to_lowercase` is the case folding of `str`, which covers
-- all of Unicode; error texts are the constructors of `CommandError`.
pub mod Plan
use tunshell_mcp_agents.Prelude.{
  ℕ, List, [], ◌∷◌, ◌++◌, map, Option, none, some, Bool, true, false, ◌&&◌, ◌||◌, not,
  if◌then◌else◌, nat_beq, any, find, ◌==◌,
}
use tunshell_mcp_agents.Relay.Types.{AgentMode, plan, edit, bypass, disabled}
use tunshell_mcp_agents.Safety.Words.{
  Text, text, is_in, starts_with, contains, contains_char, is_empty, split, split_whitespace, trim,
  basename, text_eq,
}
use tunshell_mcp_agents.Safety.Git.{
  words, is_positional, git_is_readonly, find_is_readonly, sed_in_place,
}

pub record SecurityConfig : Type 0 where
  pub mode : AgentMode
  pub backup_enabled : Bool
  pub backup_dir : Text
  pub max_backup_versions : ℕ
  pub allowed_paths : List Text
  pub denied_paths : List Text
  pub denied_commands : List Text
  pub readonly_commands : List Text
  pub max_file_size : ℕ
  pub max_transfer_size : ℕ
  pub transfer_chunk_size : ℕ
  pub search_roots : List Text
  pub search_max_results : ℕ
  pub search_timeout_secs : ℕ
  pub command_timeout : ℕ
  pub encryption_key : Option Text

pub data CommandError : Type 0 where
  agent_disabled : CommandError
  denylisted : Text → CommandError
  redirection : CommandError
  substitution : CommandError
  not_readonly : Text → CommandError

abbrev pub hard_denied : List Text
hard_denied = words (
    "rm -rf /" ∷ "rm -rf /*" ∷ ":(){:|:&};:" ∷ "mkfs" ∷ "dd if=/dev/zero" ∷ "> /dev/sda"
    ∷ "> /dev/sdb" ∷ [])

abbrev pub cargo_ro : List Text
cargo_ro = words ("check" ∷ "tree" ∷ "metadata" ∷ "search" ∷ "fmt" ∷ [])

abbrev pub npm_ro : List Text
npm_ro = words ("ls" ∷ "list" ∷ "view" ∷ "outdated" ∷ "audit" ∷ "ping" ∷ [])

-- `|`, `;`, `&` and the line break.
abbrev pub is_operator : ℕ → Bool
is_operator c = nat_beq c 124 || nat_beq c 59 || nat_beq c 38 || nat_beq c 10

unfoldable pub split_segments : Text → List Text
split_segments command = split is_operator command

-- A `VAR=value` word.
abbrev pub is_assignment : Text → Bool
is_assignment tok = contains_char tok 61 && is_positional tok

-- The words from the program on.
abbrev pub skip_assignments : List Text → List Text
skip_assignments [] = []
skip_assignments (tok ∷ toks) =
    let rest = skip_assignments toks in if is_assignment tok then rest else tok ∷ toks

unfoldable pub base_of_first : List Text → Option Text
unfolding basename
base_of_first [] = none
base_of_first (tok ∷ toks) = some (basename tok)

unfoldable pub first_program : Text → Option Text
unfolding split_whitespace
first_program segment = base_of_first (skip_assignments (split_whitespace segment))

unfoldable pub is_cargo_readonly : Option Text → Bool
unfolding basename
is_cargo_readonly none = true
is_cargo_readonly (some t) = is_in cargo_ro (basename t)

unfoldable pub is_npm_readonly : Option Text → Bool
unfolding basename
is_npm_readonly none = false
is_npm_readonly (some t) = is_in npm_ro (basename t)

-- The `match prog` of `is_readonly_segment`.
unfoldable pub arguments_readonly : Text → Text → List Text → Bool
unfolding git_is_readonly find_is_readonly sed_in_place
arguments_readonly segment prog rest =
    let sub = find is_positional rest in
    if prog == text "git"
    then git_is_readonly rest
    else if prog == text "cargo"
    then is_cargo_readonly sub
    else if prog == text "npm"
    then is_npm_readonly sub
    else if prog == text "find"
    then find_is_readonly segment
    else if prog == text "sed"
    then not (sed_in_place segment)
    else if is_in (words ("awk" ∷ "gawk" ∷ "mawk" ∷ [])) prog
    then not (contains segment (text "system("))
    else true

unfoldable pub words_readonly : Text → SecurityConfig → List Text → Bool
unfolding basename
words_readonly segment sec [] = true
words_readonly segment sec (tok ∷ rest) =
    is_in sec.readonly_commands (basename tok) && arguments_readonly segment (basename tok) rest

unfoldable pub is_readonly_segment : Text → SecurityConfig → Bool
unfolding split_whitespace
is_readonly_segment segment sec =
    words_readonly segment sec (skip_assignments (split_whitespace segment))

abbrev pub or_unknown : Option Text → Text
or_unknown none = text "?"
or_unknown (some t) = t

-- The loop over the segments; `none` is `Ok(())`.
unfoldable pub check_segments : SecurityConfig → List Text → Option CommandError
unfolding trim is_readonly_segment first_program
check_segments sec [] = none
check_segments sec (segment ∷ segments) =
    let rest = check_segments sec segments in
    let seg = trim segment in
    if is_empty seg
    then rest
    else if not (is_readonly_segment seg sec)
    then some (not_readonly (or_unknown (first_program seg)))
    else rest

unfoldable pub check_plan : Text → SecurityConfig → Option CommandError
unfolding check_segments split_segments
check_plan command sec =
    if contains_char command 62
    then some redirection
    else if contains command (text "$(") || contains_char command 96 || contains command (text "<(")
    then some substitution
    else check_segments sec (split_segments command)

module _ (to_lowercase : Text → Text) where
  abbrev pub is_denied_by : Text → Text → Bool
  is_denied_by command pattern' =
      not (is_empty pattern') && contains (to_lowercase command) (to_lowercase pattern')

  -- The first pattern of the two denylists that stands in the command.
  abbrev pub denied_pattern : Text → SecurityConfig → Option Text
  denied_pattern command sec = find (is_denied_by command) (hard_denied ++ sec.denied_commands)

  abbrev pub by_mode : Text → AgentMode → SecurityConfig → Option CommandError
  by_mode command plan sec = check_plan command sec
  by_mode command edit sec = none
  by_mode command bypass sec = none
  by_mode command disabled sec = some agent_disabled

  abbrev pub unless_denied : Option Text → Option CommandError → Option CommandError
  unless_denied none rest = rest
  unless_denied (some p) rest = some (denylisted p)

  abbrev pub is_disabled : AgentMode → Bool
  is_disabled disabled = true
  is_disabled m = false

  unfoldable pub check_command_allowed : Text → AgentMode → SecurityConfig → Option CommandError
  check_command_allowed command mode sec =
      if is_disabled mode
      then some agent_disabled
      else unless_denied (denied_pattern command sec) (by_mode command mode sec)
