-- ===== src/Safety/Git.antt =====
-- The checks of safety.rs on what follows a program that can both read and write: `git`, `find`
-- and `sed`.
use tunshell_mcp_agents.Prelude.{
  String, List, [], ◌∷◌, map, Option, none, some, Bool, true, false, ◌&&◌, ◌||◌, not, if◌then◌else◌,
  leb, length, any, find, select, ◌==◌,
}
use tunshell_mcp_agents.Safety.Words.{
  Text, text, is_in, starts_with, split_whitespace, basename, text_eq,
}

abbrev pub words : List String → List Text
words ws = map text ws

abbrev pub git_pure_ro : List Text
git_pure_ro = words (
    "status" ∷ "log" ∷ "diff" ∷ "show" ∷ "ls-files" ∷ "ls-tree" ∷ "rev-parse" ∷ "describe" ∷ "blame"
    ∷ "shortlog" ∷ "cat-file" ∷ "whatchanged" ∷ "grep" ∷ [])

abbrev pub git_branch_write_flags : List Text
git_branch_write_flags =
    words ("-d" ∷ "-D" ∷ "--delete" ∷ "-m" ∷ "-M" ∷ "--move" ∷ "-c" ∷ "-C" ∷ "--copy" ∷ [])

abbrev pub git_tag_write_flags : List Text
git_tag_write_flags = words (
    "-d" ∷ "--delete" ∷ "-a" ∷ "--annotate" ∷ "-s" ∷ "--sign" ∷ "-m" ∷ "--message" ∷ "-F" ∷ "--file"
    ∷ "-e" ∷ "--edit" ∷ "-f" ∷ "--force" ∷ [])

abbrev pub config_write : List Text
config_write = words (
    "--unset" ∷ "--unset-all" ∷ "--add" ∷ "--replace-all" ∷ "--rename-section" ∷ "--remove-section"
    ∷ "-e" ∷ "--edit" ∷ [])

abbrev pub config_read : List Text
config_read = words (
    "--get" ∷ "--get-all" ∷ "--get-regexp" ∷ "--get-urlmatch" ∷ "--list" ∷ "-l" ∷ "--get-color"
    ∷ "--get-colorbool" ∷ [])

abbrev pub find_write_actions : List Text
find_write_actions =
    words
      ("-exec" ∷ "-execdir" ∷ "-ok" ∷ "-okdir" ∷ "-delete" ∷ "-fprintf" ∷ "-fprint" ∷ "-fls" ∷ [])

-- `!t.starts_with('-')`
abbrev pub is_positional : Text → Bool
is_positional t = not (starts_with t (text "-"))

unfoldable pub git_branch_or_tag_ro : List Text → List Text → Bool
git_branch_or_tag_ro after write_flags =
    let has_write_flag = any (λ t. is_in write_flags t) after in
    let has_positional = any is_positional after in not has_write_flag && not has_positional

unfoldable pub git_config_ro : List Text → Bool
git_config_ro after =
    if any (λ t. is_in config_write t) after
    then false
    else if any (λ t. is_in config_read t) after
    then true
    else leb (length (select is_positional after)) 1

-- `None | Some("show") | Some(other)` of the first positional word.
abbrev pub shows_or : Text → Option Text → Bool
shows_or other none = true
shows_or other (some t) = basename t == text "show" || basename t == other

unfoldable pub git_remote_ro : List Text → Bool
unfolding basename
git_remote_ro after = shows_or (text "get-url") (find is_positional after)

unfoldable pub git_reflog_ro : List Text → Bool
unfolding basename
git_reflog_ro after = shows_or (text "exists") (find is_positional after)

-- The words from the first positional one on.
abbrev pub from_positional : List Text → List Text
from_positional [] = []
from_positional (t ∷ ts) = let rest = from_positional ts in if is_positional t then t ∷ ts else rest

unfoldable pub git_subcommand : Text → List Text → Bool
unfolding git_branch_or_tag_ro git_config_ro git_remote_ro git_reflog_ro
git_subcommand sub after =
    if is_in git_pure_ro sub
    then true
    else if sub == text "branch"
    then git_branch_or_tag_ro after git_branch_write_flags
    else if sub == text "tag"
    then git_branch_or_tag_ro after git_tag_write_flags
    else if sub == text "config"
    then git_config_ro after
    else if sub == text "remote"
    then git_remote_ro after
    else if sub == text "reflog"
    then git_reflog_ro after
    else false

unfoldable pub git_words : List Text → Bool
unfolding basename
git_words [] = false
git_words (t ∷ after) = git_subcommand (basename t) after

unfoldable pub git_is_readonly : List Text → Bool
git_is_readonly rest = git_words (from_positional rest)

unfoldable pub find_is_readonly : Text → Bool
unfolding split_whitespace
find_is_readonly segment = not (any (λ t. is_in find_write_actions t) (split_whitespace segment))

abbrev pub edits_in_place : Text → Bool
edits_in_place t =
    t == text "-i"
    || starts_with t (text "-i")
    || t == text "--in-place"
    || starts_with t (text "--in-place=")

unfoldable pub sed_in_place : Text → Bool
unfolding split_whitespace
sed_in_place segment = any edits_in_place (split_whitespace segment)
