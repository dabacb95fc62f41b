-- ===== src/Safety/Paths.antt =====
-- `check_path_allowed`, `normalize` and `check_size` of safety.rs, on Unix, where a path has no
-- prefix component. `cwd` is the current directory, as its components under the root.
pub mod Policy
use tunshell_mcp_agents.Prelude.{
  ℕ, zero, List, [], ◌∷◌, ◌++◌, Option, none, some, Bool, true, false, ◌&&◌, not, if◌then◌else◌,
  nat_beq, ltb, any, ◌==◌,
}
use tunshell_mcp_agents.Safety.Words.{Text, text, is_empty, split, text_eq}
use tunshell_mcp_agents.Safety.Commands.{SecurityConfig}

-- `Component`; a path starts with `root_dir` exactly if it is absolute.
pub data Component : Type 0 where
  root_dir cur_dir parent_dir : Component
  normal : Text → Component

-- One part between separators: an empty part is no component. `Path::components` drops a `.` that
-- is not leading, which `normalize` skips in any case.
abbrev pub component : Text → List Component
component part =
    if is_empty part
    then []
    else if part == text "."
    then cur_dir ∷ []
    else if part == text ".."
    then parent_dir ∷ []
    else normal part ∷ []

abbrev pub components_of : List Text → List Component
components_of [] = []
components_of (part ∷ parts) = component part ++ components_of parts

abbrev pub is_absolute : Text → Bool
is_absolute [] = false
is_absolute (c ∷ p) = nat_beq c 47

abbrev pub components : Text → List Component
components path =
    let parts = components_of (split (λ c. nat_beq c 47) path) in
    if is_absolute path then root_dir ∷ parts else parts

-- `PathBuf::pop`: the root has no parent.
abbrev pub pop : List Text → List Text
pop [] = []
pop (c ∷ []) = []
pop (c ∷ d ∷ out) = c ∷ pop (d ∷ out)

abbrev pub step : List Text → Component → List Text
step out cur_dir = out
step out parent_dir = pop out
step out root_dir = []
step out (normal c) = out ++ (c ∷ [])

abbrev pub steps : List Text → List Component → List Text
steps out [] = out
steps out (comp ∷ comps) = steps (step out comp) comps

unfoldable pub normalize : List Text → Text → List Text
normalize cwd path = steps (if is_absolute path then [] else cwd) (components path)

-- `Path::starts_with`: whole components.
abbrev pub path_starts_with : List Text → List Text → Bool
path_starts_with path [] = true
path_starts_with [] (d ∷ base) = false
path_starts_with (c ∷ path) (d ∷ base) = c == d && path_starts_with path base

pub data PathError : Type 0 where
  denied_by_policy : Text → PathError
  not_in_allowed : Text → PathError

module _ (cwd : List Text) where
  unfoldable pub is_under : Text → Text → Bool
  unfolding normalize
  is_under path root = path_starts_with (normalize cwd path) (normalize cwd root)

  abbrev pub check_allowed : Text → List Text → Option PathError
  check_allowed path [] = none
  check_allowed path (root ∷ roots) =
      if any (is_under path) (root ∷ roots) then none else some (not_in_allowed path)

  -- `none` is `Ok(())`.
  unfoldable pub check_path_allowed : Text → SecurityConfig → Option PathError
  check_path_allowed path sec =
      if any (is_under path) sec.denied_paths
      then some (denied_by_policy path)
      else check_allowed path sec.allowed_paths

-- `check_size(..).is_ok()`; 0 is no limit.
pub check_size : ℕ → SecurityConfig → Bool
check_size bytes sec = not (ltb 0 sec.max_file_size && ltb sec.max_file_size bytes)
