-- ===== src/Safety/Commands/Plan.antt =====
-- Properties of the command policy of safety.rs, above all of the read-only mode `Plan`.
use tunshell_mcp_agents.Prelude.{
  ℕ, ◌≡◌, refl, subst, inl, inr, List, [], ◌∷◌, ◌++◌, Option, none, some, Bool, true, false, not,
  if◌then◌else◌, any, find, arith, Bool-cases, Option-cases, append-nil, append_assoc, ◌≢◌,
}
use tunshell_mcp_agents.Relay.Types.{AgentMode, plan, edit, bypass, disabled}
use tunshell_mcp_agents.Safety.Words.{
  Text, text, is_in, contains_char, contains, is_empty, split, split_whitespace, trim,
}
use tunshell_mcp_agents.Safety.Words.Split.{split-separator, split_one}
use tunshell_mcp_agents.Safety.Commands.{
  SecurityConfig, CommandError, agent_disabled, hard_denied, is_operator, split_segments,
  skip_assignments, base_of_first, first_program, words_readonly, is_readonly_segment,
  check_segments, check_plan, is_denied_by, denied_pattern, unless_denied, check_command_allowed,
}

-- A part of a command between two control operators, or between one and an end of the command.
pub data AtStart : Text → Type 0 where
  start : AtStart []
  after_operator : (s : Text) (op : ℕ) → is_operator op ≡ true → AtStart (s ++ (op ∷ []))

pub data AtEnd : Text → Type 0 where
  end : AtEnd []
  before_operator : (op : ℕ) (s : Text) → is_operator op ≡ true → AtEnd (op ∷ s)

segments-append :
    (sec : SecurityConfig) (xs ys : List Text)
    → check_segments sec (xs ++ ys) ≡ none
    → (check_segments sec xs ≡ none) × (check_segments sec ys ≡ none)
unfolding check_segments
segments-append sec [] ys h = (refl, h)
segments-append sec (x ∷ xs) ys h = ground (arith, segments-append sec xs ys)

-- The segments of a part are checked when the command is.
segments-AtStart :
    (sec : SecurityConfig) (before t : Text)
    → AtStart before
    → check_segments sec (split is_operator (before ++ t)) ≡ none
    → check_segments sec (split is_operator t) ≡ none
segments-AtStart sec _ t start h = h
segments-AtStart sec _ t (after_operator s op o) h =
    (segments-append sec (split is_operator s) (split is_operator t) (
      subst (λ ss. check_segments sec ss ≡ none) (split-separator is_operator s op t o)
        (subst (λ u. check_segments sec (split is_operator u) ≡ none) (append_assoc s (op ∷ []) t)
          h))).1

segments-AtEnd :
    (sec : SecurityConfig) (part after : Text)
    → AtEnd after
    → check_segments sec (split is_operator (part ++ after)) ≡ none
    → check_segments sec (split is_operator part) ≡ none
segments-AtEnd sec part _ end h =
    subst (λ s. check_segments sec (split is_operator s) ≡ none) (append-nil part) h
segments-AtEnd sec part _ (before_operator op s o) h =
    (segments-append sec (split is_operator part) (split is_operator s)
      (subst (λ ss. check_segments sec ss ≡ none) (split-separator is_operator part op s o) h)).0

-- The program, where there is one, is one of the read-only commands.
abbrev is_listed : SecurityConfig → Option Text → Bool
is_listed sec none = true
is_listed sec (some prog) = is_in sec.readonly_commands prog

words_program :
    (seg : Text) (sec : SecurityConfig) (ws : List Text)
    → words_readonly seg sec ws ≡ true
    → is_listed sec (base_of_first ws) ≡ true
unfolding base_of_first words_readonly
words_program seg sec [] h = refl
words_program seg sec (w ∷ ws) h = ground arith

readonly_program :
    (sec : SecurityConfig) (t : Text) (e : CommandError)
    → (if is_empty t then none else if not (is_readonly_segment t sec) then some e else none) ≡ none
    → is_listed sec (first_program t) ≡ true
unfolding first_program is_readonly_segment split_whitespace base_of_first
readonly_program sec [] e h = refl
readonly_program sec (c ∷ t) e h =
    words_program (c ∷ t) sec (skip_assignments (split_whitespace (c ∷ t))) (ground arith)

one_segment :
    (sec : SecurityConfig) (seg prog : Text)
    → check_segments sec (seg ∷ []) ≡ none
    → first_program (trim seg) ≡ some prog
    → is_in sec.readonly_commands prog ≡ true
unfolding check_segments
one_segment sec seg prog h p =
    subst (λ o. is_listed sec o ≡ true) p (readonly_program sec (trim seg) _ h)

-- What the checks before it leave of the check of Plan mode.
plan-checked :
    (to_lowercase : Text → Text) (command : Text) (sec : SecurityConfig)
    → check_command_allowed to_lowercase command plan sec ≡ none
    → check_plan command sec ≡ none
unfolding check_command_allowed
plan-checked to_lowercase command sec h = passed (denied_pattern to_lowercase command sec) h
  where
    passed :
        (o : Option Text)
        → unless_denied to_lowercase o (check_plan command sec) ≡ none
        → check_plan command sec ≡ none
    passed none k = k
    passed (some w) k = absurd (ground arith)

plan-segments :
    (command : Text) (sec : SecurityConfig)
    → check_plan command sec ≡ none
    → check_segments sec (split is_operator command) ≡ none
unfolding check_plan split_segments
plan-segments command sec h = ground arith

-- No program slips past the whitelist of Plan mode: where a command is let through in Plan mode,
-- and `part` is any part of it that stands between control operators (`|`, `;`, `&`, line break)
-- or the ends and has none inside, the program that the part starts, after its assignments and
-- without its directory, is one of the read-only commands of the configuration.
pub plan-every_program :
    (to_lowercase : Text → Text) (sec : SecurityConfig) (before part after prog : Text)
    → AtStart before
    → AtEnd after
    → any is_operator part ≡ false
    → first_program (trim part) ≡ some prog
    → check_command_allowed to_lowercase (before ++ (part ++ after)) plan sec ≡ none
    → is_in sec.readonly_commands prog ≡ true
plan-every_program to_lowercase sec before part after prog s e plain p h =
    one_segment sec part prog
      (subst (λ ss. check_segments sec ss ≡ none) (split_one is_operator part plain)
        (segments-AtEnd sec part after e (
          segments-AtStart sec before (part ++ after) s (
            plan-segments (before ++ (part ++ after)) sec
              (plan-checked to_lowercase (before ++ (part ++ after)) sec h)))))
      p

-- A command that is let through in Plan mode redirects no output and substitutes no command: it
-- has no `>`, no backquote, no `$(` and no `<(`.
pub plan-writes_nothing :
    (to_lowercase : Text → Text) (command : Text) (sec : SecurityConfig)
    → check_command_allowed to_lowercase command plan sec ≡ none
    → (contains_char command 62 ≡ false)
      × (contains_char command 96 ≡ false)
      × (contains command (text "$(") ≡ false)
      × (contains command (text "<(") ≡ false)
unfolding check_plan
plan-writes_nothing to_lowercase command sec h =
    let checked = plan-checked to_lowercase command sec h in
    (ground arith, ground arith, ground arith, ground arith)

-- The modes are ordered: what Plan lets through, Edit lets through, Edit and Bypass answer the
-- same, and Disabled refuses every command.
pub modes_ordered :
    (to_lowercase : Text → Text) (command : Text) (sec : SecurityConfig)
    → (check_command_allowed to_lowercase command plan sec ≡ none
        → check_command_allowed to_lowercase command edit sec ≡ none)
      × (check_command_allowed to_lowercase command edit sec
          ≡ check_command_allowed to_lowercase command bypass sec)
      × (check_command_allowed to_lowercase command disabled sec ≡ some agent_disabled)
unfolding check_command_allowed
modes_ordered to_lowercase command sec =
    elim (Option-cases (denied_pattern to_lowercase command sec)) [
      | inl n ↦ rw n (λ h. refl, refl, refl)
      | inr (w, n) ↦ rw n (λ h. h, refl, refl)
    ]

find-passes :
    (p : Text → Bool) (xs : List Text) (x : Text) (ys : List Text)
    → p x ≡ true
    → (w : Text) × (find p (xs ++ (x ∷ ys)) ≡ some w)
find-passes p [] x ys h = (x, rw h refl)
find-passes p (v ∷ xs) x ys h = elim (Bool-cases (p v)) [
  | inl t ↦ (v, rw t refl)
  | inr t ↦ rw t (find-passes p xs x ys h)
]

is_refused :
    (to_lowercase : Text → Text) (sec : SecurityConfig) (command w : Text) (mode : AgentMode)
    → denied_pattern to_lowercase command sec ≡ some w
    → check_command_allowed to_lowercase command mode sec ≢ none
unfolding check_command_allowed
is_refused to_lowercase sec command w disabled e h = ground arith
is_refused to_lowercase sec command w plan e h = ground (arith, e)
is_refused to_lowercase sec command w edit e h = ground (arith, e)
is_refused to_lowercase sec command w bypass e h = ground (arith, e)

-- The denylist of the configuration holds in every mode, Bypass included: a command whose lower
-- case contains that of a pattern of the list, not empty, is refused.
pub denylist_always :
    (to_lowercase : Text → Text) (sec : SecurityConfig) (command : Text) (mode : AgentMode)
    (before : List Text) (denied : Text) (after : List Text)
    → sec.denied_commands ≡ before ++ (denied ∷ after)
    → is_denied_by to_lowercase command denied ≡ true
    → check_command_allowed to_lowercase command mode sec ≢ none
denylist_always to_lowercase sec command mode before denied after p d =
    let (w, e) =
      find-passes (is_denied_by to_lowercase command) (hard_denied ++ before) denied after d in
    is_refused to_lowercase sec command w mode (rw p e)
