-- ===== src/Executor/Gates/Files.antt =====
-- What the functions of files.rs and transfer.rs do is permitted, those that write in the modes
-- that allow to.
use tunshell_mcp_agents.Prelude.{
  ℕ, ◌≡◌, refl, ◌+◌, ◌-◌, min, max, List, [], ◌∷◌, Option, none, some, Bool, true, false, ◌&&◌, not,
  all, select, length, map, ◌==◌, arith, Bool-cases, inl, inr, subst, ltb, leb,
}
use tunshell_mcp_agents.Relay.Types.{AgentMode}
use tunshell_mcp_agents.Safety.Words.{Text, trim, is_empty, text_eq}
use tunshell_mcp_agents.Safety.Commands.{SecurityConfig}
use tunshell_mcp_agents.Executor.Files.{
  stat, read_chunk, read_chunk_raw, walk_dir, delete_all, delete_one, thumbnail, search,
  receive_chunk, receive_chunk_raw, receive_decoded, finish_file, verify_sha, is_allowed,
  allowed_roots, search_roots, in_u64, is_nil, lower,
}
use tunshell_mcp_agents.Executor.Gates.{
  is_write, given_paths, commands_of, permitted, require-All, call-All, path-All, if-All, Safe,
  return-Safe, bail-Safe,
}
use tunshell_mcp_agents.Executor.Gates.Walk.{walk_entries-Safe}
use tunshell_mcp_agents.Executor.Types.{
  allows_write, return, require, call, map_run, SearchKind, Effect, FileKind, Environment, Run,
  stats, probes_size, reads_slice, reads_dir, decodes_image, searches, hashes, creates_parents,
  writes_at, sets_len, removes, over_transfer_limit, empty_query, no_allowed_roots, not_a_directory,
  file_or_link, directory, missing, unreadable, offset_past_end, offset_overflow, sha_mismatch,
  bad_base64,
}

pub all_mono :
    {A : Type 0} (p q : A → Bool) (xs : List A)
    → ((x : A) → p x ≡ true → q x ≡ true)
    → all p xs ≡ true
    → all q xs ≡ true
all_mono p q [] f h = refl
all_mono p q (x ∷ xs) f h = elim (Bool-cases (p x)) [
  | inl e ↦ rw (f x e) (all_mono p q xs f (subst (λ b. b && all p xs ≡ true) e h))
  | inr e ↦ absurd (ground (arith, e, h))
]

-- `sec` is the configuration that the functions are given, `policy` that of the agent.
module _ (env : Environment) (mode : AgentMode) (sec policy : SecurityConfig)
    (agree : (path : Text)
      → is_allowed env sec path ≡ true
      → is_allowed env policy path ≡ true) where
  abbrev P : Effect → Bool
  P = permitted env mode policy

  abbrev AllPermitted : {A : Type 0} → Run A → Type 0
  AllPermitted run = Safe P run

  -- An effect on one path.
  pub reads_permitted :
      (e : Effect) (path : Text)
      → is_write e ≡ false
      → given_paths e ≡ path ∷ []
      → commands_of e ≡ []
      → is_allowed env sec path ≡ true
      → P e ≡ true
  unfolding permitted
  reads_permitted e path w t c a = rw (w, t, c, agree path a) refl

  pub writes_permitted :
      (e : Effect) (path : Text)
      → allows_write mode ≡ true
      → given_paths e ≡ path ∷ []
      → commands_of e ≡ []
      → is_allowed env sec path ≡ true
      → P e ≡ true
  unfolding permitted
  writes_permitted e path w t c a = ground (arith, w, t, c, agree path a)

  pub stat-permitted : (path : Text) → AllPermitted (stat env sec path)
  unfolding stat is_write given_paths commands_of
  stat-permitted path = path-All P env sec path _ (λ a.
      call-All P env (stats path) _ (reads_permitted (stats path) path refl refl refl a)
        (return-Safe P _))

  read_chunk_raw-permitted :
      (path : Text) (offset len : ℕ) → AllPermitted (read_chunk_raw env sec path offset len)
  unfolding read_chunk_raw is_write given_paths commands_of
  read_chunk_raw-permitted path offset len = path-All P env sec path _ (λ a.
      call-All P env (stats path) _ (reads_permitted (stats path) path refl refl refl a) (
        require-All P (leb offset (env.file_size path)) offset_past_end _ (λ o.
          call-All P env _ _
            (reads_permitted (reads_slice path offset (min len (env.file_size path - offset))) path
              refl refl refl a)
            (return-Safe P _))))

  pub read_chunk-permitted :
      (path : Text) (offset len : ℕ) → AllPermitted (read_chunk env sec path offset len)
  unfolding read_chunk permitted is_write given_paths commands_of
  read_chunk-permitted path offset len =
      let chunk = read_chunk_raw-permitted path offset len in
      if-All P (ltb 0 sec.max_transfer_size) _ _
        (call-All P env (probes_size path) _ refl (
          require-All P (leb (env.file_size path) sec.max_transfer_size) over_transfer_limit _
            (λ l. chunk)))
        chunk

  pub walk_dir-permitted :
      (root : Text) (with_hash : Bool) (exclude : List Text)
      → AllPermitted (walk_dir env sec root with_hash exclude)
  unfolding walk_dir is_write given_paths commands_of permitted
  walk_dir-permitted root with_hash exclude = path-All P env sec root _ (λ a.
      require-All P (env.is_dir root) not_a_directory _ (λ d.
        call-All P env (reads_dir root) _ (reads_permitted (reads_dir root) root refl refl refl a) (
          walk_entries-Safe env root with_hash exclude P
            (record { on_stat = λ p. refl; on_hash = λ p h. refl; on_dir = λ p h. refl })
            (env.listing root) _ (return-Safe P _))))

  pub thumbnail-permitted :
      (path : Text) (max_px : ℕ) → AllPermitted (thumbnail env sec path max_px)
  unfolding thumbnail is_write given_paths commands_of
  thumbnail-permitted path max_px = path-All P env sec path _ (λ a.
      call-All P env (decodes_image path _) _
        (reads_permitted (decodes_image path _) path refl refl refl a) (return-Safe P _))

  all-select : (p : Text → Bool) (xs : List Text) → all p (select p xs) ≡ true
  all-select p [] = refl
  all-select p (x ∷ xs) = elim (Bool-cases (p x)) [
    | inl h ↦ rw h (rw h (all-select p xs))
    | inr h ↦ rw h (all-select p xs)
  ]

  -- A search sees the roots that the policy allows, and no other.
  pub search-permitted :
      (roots : List Text) (query : Text) (kind : SearchKind)
      → AllPermitted (search env sec roots query kind)
  unfolding search permitted is_write given_paths commands_of allowed_roots
  search-permitted roots query kind =
      let allowed = allowed_roots env sec roots in
      let found =
        call env
          (searches allowed query kind (max 1 sec.search_max_results) sec.search_timeout_secs)
          (return tt) in
      require-All P (not (is_empty (trim query))) empty_query
        (require (not (is_nil env sec allowed)) no_allowed_roots found)
        (λ q. require-All P (not (is_nil env sec allowed)) no_allowed_roots found (λ r.
          call-All P env
            (searches allowed query kind (max 1 sec.search_max_results) sec.search_timeout_secs)
            (return tt)
            (rw
              (all_mono (is_allowed env sec) (is_allowed env policy) allowed agree
                (all-select (is_allowed env sec) (search_roots env sec roots)))
              refl)
            (return-Safe P tt)))

  module _ (w : allows_write mode ≡ true) where
    delete_one-permitted :
        (path : Text) (kind : FileKind) (rest : Run ℕ)
        → is_allowed env sec path ≡ true
        → AllPermitted rest
        → AllPermitted (delete_one env sec path kind rest)
    unfolding Safe delete_one map_run is_write given_paths commands_of
    delete_one-permitted path file_or_link rest a h =
        call-All P env (stats path) _ (reads_permitted (stats path) path refl refl refl a)
          (call-All P env (removes path) _ (writes_permitted (removes path) path w refl refl a) h)
    delete_one-permitted path directory rest a h =
        call-All P env (stats path) _ (reads_permitted (stats path) path refl refl refl a) h
    delete_one-permitted path missing rest a h =
        rw (reads_permitted (stats path) path refl refl refl a) h
    delete_one-permitted path unreadable rest a h =
        rw (reads_permitted (stats path) path refl refl refl a) refl

    pub delete_all-permitted : (paths : List Text) → AllPermitted (delete_all env sec paths)
    unfolding delete_all
    delete_all-permitted [] = return-Safe P 0
    delete_all-permitted (p ∷ paths) = path-All P env sec p _ (λ a.
        delete_one-permitted p (env.kind_of p) (delete_all env sec paths) a
          (delete_all-permitted paths))

    verify_sha-permitted :
        (dest : Text) (expected : Option Text)
        → is_allowed env sec dest ≡ true
        → AllPermitted (verify_sha env sec dest expected)
    unfolding verify_sha is_write given_paths commands_of
    verify_sha-permitted dest none a = return-Safe P tt
    verify_sha-permitted dest (some expected) a =
        call-All P env (hashes dest) _ (reads_permitted (hashes dest) dest refl refl refl a) (
          require-All P (map (lower env sec) (env.sha256_file dest) == map (lower env sec) expected)
            sha_mismatch (return tt) (λ s. return-Safe P tt))

    finish_file-permitted :
        (eof : Bool) (dest : Text) (end : ℕ) (expected : Option Text)
        → is_allowed env sec dest ≡ true
        → AllPermitted (finish_file env sec eof dest end expected)
    unfolding finish_file given_paths commands_of
    finish_file-permitted false dest end expected a = return-Safe P tt
    finish_file-permitted true dest end expected a =
        call-All P env (sets_len dest end) _
          (writes_permitted (sets_len dest end) dest w refl refl a)
          (verify_sha-permitted dest expected a)

    pub receive_chunk_raw-permitted :
        (dest : Text) (offset : ℕ) (bytes : List ℕ) (eof : Bool) (expected : Option Text)
        → AllPermitted (receive_chunk_raw env sec dest offset bytes eof expected)
    unfolding receive_chunk_raw given_paths commands_of
    receive_chunk_raw-permitted dest offset bytes eof expected = path-All P env sec dest _ (λ a.
        require-All P _ offset_overflow _ (λ o.
          call-All P env (creates_parents dest) _
            (writes_permitted (creates_parents dest) dest w refl refl a)
            (call-All P env (writes_at dest offset bytes) _
              (writes_permitted (writes_at dest offset bytes) dest w refl refl a)
              (finish_file-permitted eof dest (offset + length bytes) expected a))))

    receive_decoded-permitted :
        (dest : Text) (offset : ℕ) (bytes : Option (List ℕ)) (eof : Bool) (expected : Option Text)
        → AllPermitted (receive_decoded env sec dest offset bytes eof expected)
    unfolding receive_decoded
    receive_decoded-permitted dest offset none eof expected = bail-Safe Unit P bad_base64
    receive_decoded-permitted dest offset (some bytes) eof expected =
        let chunk = receive_chunk_raw-permitted dest offset bytes eof expected in
        let end = offset + length bytes in
        let run = receive_chunk_raw env sec dest offset bytes eof expected in
        let within = leb end sec.max_transfer_size in
        if-All P (ltb 0 sec.max_transfer_size) _ _
          (require-All P (in_u64 env sec end) offset_overflow
            (require within over_transfer_limit run)
            (λ o. require-All P within over_transfer_limit run (λ l. chunk)))
          chunk

    pub receive_chunk-permitted :
        (dest : Text) (offset : ℕ) (bytes_b64 : Text) (eof : Bool) (expected : Option Text)
        → AllPermitted (receive_chunk env sec dest offset bytes_b64 eof expected)
    unfolding receive_chunk
    receive_chunk-permitted dest offset bytes_b64 eof expected =
        receive_decoded-permitted dest offset (env.decode_base64 bytes_b64) eof expected
