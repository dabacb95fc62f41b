-- ===== src/Safety/Paths/Policy.antt =====
-- Properties of the path policy of safety.rs.
use tunshell_mcp_agents.Prelude.{
  ℕ, ◌≡◌, refl, ap, List, [], ◌∷◌, ◌++◌, some, Bool, true, false, if◌then◌else◌, nat_beq, any,
  arith, append_assoc,
}
use tunshell_mcp_agents.Safety.Words.{Text, split, text_eq, text_beq_iff}
use tunshell_mcp_agents.Safety.Words.Split.{split-separator}
use tunshell_mcp_agents.Safety.Commands.{SecurityConfig}
use tunshell_mcp_agents.Safety.Paths.{
  Component, root_dir, cur_dir, parent_dir, normal, component, components_of, pop, step, steps,
  normalize, path_starts_with, denied_by_policy, is_under, check_path_allowed,
}

-- `steps` in two runs.
steps-append :
    (out : List Text) (cs ds : List Component) → steps out (cs ++ ds) ≡ steps (steps out cs) ds
steps-append out [] ds = refl
steps-append out (c ∷ cs) ds = steps-append (step out c) cs ds

pop-push : (out : List Text) (c : Text) → pop (out ++ (c ∷ [])) ≡ out
pop-push [] c = refl
pop-push (d ∷ []) c = refl
pop-push (d ∷ e ∷ out) c = ap (d ∷◌) (pop-push (e ∷ out) c)

components_of-append :
    (ps qs : List Text) → components_of (ps ++ qs) ≡ components_of ps ++ components_of qs
components_of-append [] qs = refl
components_of-append (p ∷ ps) qs =
    rw
      (components_of-append ps qs, append_assoc (component p) (components_of ps) (components_of qs))

abbrev pub parts : Text → List Component
parts s = components_of (split (λ d. nat_beq d 47) s)

parts-join : (s t : Text) → parts (s ++ (47 ∷ t)) ≡ parts s ++ parts t
parts-join s t =
    rw (split-separator (λ d. nat_beq d 47) s 47 t refl)
      (components_of-append (split (λ d. nat_beq d 47) s) (split (λ d. nat_beq d 47) t))

steps_from :
    (absolute : Bool) (cwd : List Text) (cs ds : List Component)
    → steps (if absolute then [] else cwd) (if absolute then root_dir ∷ cs ++ ds else cs ++ ds)
      ≡ steps (steps (if absolute then [] else cwd) (if absolute then root_dir ∷ cs else cs)) ds
steps_from true cwd cs ds = steps-append [] cs ds
steps_from false cwd cs ds = steps-append cwd cs ds

-- What follows a separator is walked from where the path before it ends, for any path before it
-- that is not empty.
pub normalize-join :
    (cwd : List Text) (c : ℕ) (path rest : Text)
    → normalize cwd (c ∷ path ++ (47 ∷ rest)) ≡ steps (normalize cwd (c ∷ path)) (parts rest)
unfolding normalize
normalize-join cwd c path rest =
    rw (parts-join (c ∷ path) rest) (steps_from (nat_beq c 47) cwd (parts (c ∷ path)) (parts rest))

-- A name and then `..` lead back: for a path that is not empty and a text `name` that is one
-- ordinary component, `path/name/../rest` normalizes as `path/rest` does, whatever `rest` is.
pub normalize-parent_cancels :
    (cwd : List Text) (c : ℕ) (path name rest : Text)
    → parts name ≡ normal name ∷ []
    → normalize cwd (c ∷ path ++ (47 ∷ name ++ (47 ∷ 46 ∷ 46 ∷ 47 ∷ rest)))
      ≡ normalize cwd (c ∷ path ++ (47 ∷ rest))
normalize-parent_cancels cwd c path name rest h =
    rw
      (
        normalize-join cwd c path rest,
        normalize-join cwd c path (name ++ (47 ∷ 46 ∷ 46 ∷ 47 ∷ rest)),
        parts-join name (46 ∷ 46 ∷ 47 ∷ rest),
        h,
      )
      (walk_back (normalize cwd (c ∷ path)))
  where
    walk_back :
        (out : List Text)
        → steps out (normal name ∷ parts (46 ∷ 46 ∷ 47 ∷ rest)) ≡ steps out (parts rest)
    walk_back out = ap (λ o. steps o (parts rest)) (pop-push out name)

-- Components that only lead down.
abbrev pub OnlyDown : List Component → Type 0
OnlyDown [] = Unit
OnlyDown (normal name ∷ cs) = OnlyDown cs
OnlyDown (cur_dir ∷ cs) = OnlyDown cs
OnlyDown (parent_dir ∷ cs) = ⊥
OnlyDown (root_dir ∷ cs) = ⊥

starts_with_refl : (path : List Text) → path_starts_with path path ≡ true
starts_with_refl [] = refl
starts_with_refl (c ∷ path) = ground (arith, starts_with_refl path, text_beq_iff c c)

starts_with-push :
    (path base : List Text) (name : Text)
    → path_starts_with path base ≡ true
    → path_starts_with (path ++ (name ∷ [])) base ≡ true
starts_with-push path [] name h = refl
starts_with-push [] (d ∷ base) name h = absurd (ground arith)
starts_with-push (c ∷ path) (d ∷ base) name h = ground (arith, starts_with-push path base name)

steps-down :
    (out base : List Text) (cs : List Component)
    → OnlyDown cs
    → path_starts_with out base ≡ true
    → path_starts_with (steps out cs) base ≡ true
steps-down out base [] down h = h
steps-down out base (normal name ∷ cs) down h =
    steps-down (out ++ (name ∷ [])) base cs down (starts_with-push out base name h)
steps-down out base (cur_dir ∷ cs) down h = steps-down out base cs down h
steps-down out base (root_dir ∷ cs) down h = absurd down
steps-down out base (parent_dir ∷ cs) down h = absurd down

any-append :
    (p : Text → Bool) (xs : List Text) (x : Text) (ys : List Text)
    → p x ≡ true
    → any p (xs ++ (x ∷ ys)) ≡ true
any-append p [] x ys h = ground arith
any-append p (w ∷ xs) x ys h = ground (arith, any-append p xs x ys h)

-- A denied directory is denied with everything below it: where a policy denies the path `d`, not
-- empty, the policy answers `denied_by_policy` for `d/rest`, if no component of `rest` is `..`,
-- and whatever the allow list says.
pub check_path_allowed-below_denied :
    (cwd : List Text) (sec : SecurityConfig) (before : List Text) (c : ℕ) (d : Text)
    (after : List Text) (rest : Text)
    → sec.denied_paths ≡ before ++ ((c ∷ d) ∷ after)
    → OnlyDown (parts rest)
    → check_path_allowed cwd (c ∷ d ++ (47 ∷ rest)) sec
      ≡ some (denied_by_policy (c ∷ d ++ (47 ∷ rest)))
unfolding check_path_allowed is_under
check_path_allowed-below_denied cwd sec before c d after rest p down =
    let under : is_under cwd (c ∷ d ++ (47 ∷ rest)) (c ∷ d) ≡ true =
      rw (normalize-join cwd c d rest) (
        steps-down (normalize cwd (c ∷ d)) (normalize cwd (c ∷ d)) (parts rest) down
          (starts_with_refl (normalize cwd (c ∷ d)))) in
    rw (p, any-append (is_under cwd (c ∷ d ++ (47 ∷ rest))) before (c ∷ d) after under) refl
