-- ===== src/Executor/Files.antt =====
-- The functions of files.rs and transfer.rs that the executor calls, with their own checks. A u64
-- is below 2 ^ 64: `checked_add` fails from there on.
use tunshell_mcp_agents.Prelude.{
  ℕ, ◌+◌, ◌-◌, ◌^◌, min, max, List, [], ◌∷◌, suc, Option, none, some, Bool, true, false, not, ◌&&◌,
  if◌then◌else◌, ltb, leb, length, select, ◌==◌, map,
}
use tunshell_mcp_agents.Safety.Words.{Text, is_empty, trim, text_eq}
use tunshell_mcp_agents.Safety.Commands.{SecurityConfig}
use tunshell_mcp_agents.Safety.Paths.{PathError, check_path_allowed}
use tunshell_mcp_agents.Executor.Walk.{walk_entries}
use tunshell_mcp_agents.Executor.Types.{
  return, bail, require, path_checked, call, map_run, SearchKind, FileKind, Environment, Run, stats,
  probes_size, reads_slice, reads_dir, decodes_image, searches, hashes, creates_parents, writes_at,
  sets_len, removes, over_transfer_limit, empty_query, no_allowed_roots, not_a_directory,
  call_failed, file_or_link, directory, missing, unreadable, bailed, offset_past_end,
  offset_overflow, sha_mismatch, bad_base64,
}

module _ (env : Environment) (sec : SecurityConfig) where
  unfoldable pub allowed_path : {A : Type 0} → Text → Run A → Run A
  unfolding check_path_allowed path_checked
  allowed_path path k = path_checked (check_path_allowed env.cwd path sec) k

  unfoldable pub stat : Text → Run Unit
  unfolding allowed_path call
  stat path = allowed_path path (call env (stats path) (return tt))

  -- Returns whether the slice ends the file; its bytes are those that the call reads.
  unfoldable pub read_chunk_raw : Text → ℕ → ℕ → Run Bool
  unfolding allowed_path require call
  read_chunk_raw path offset len =
      let size = env.file_size path in
      let to_read = min len (size - offset) in
      allowed_path path (
        call env (stats path) (
          require (leb offset size) offset_past_end
            (call env (reads_slice path offset to_read) (return (leb size (offset + to_read))))))

  unfoldable pub read_chunk : Text → ℕ → ℕ → Run Bool
  unfolding read_chunk_raw require call
  read_chunk path offset len =
      let chunk = read_chunk_raw path offset len in
      if ltb 0 sec.max_transfer_size
      then call env (probes_size path)
          (require (leb (env.file_size path) sec.max_transfer_size) over_transfer_limit chunk)
      else chunk

  unfoldable pub walk_dir : Text → Bool → List Text → Run Unit
  unfolding allowed_path require call walk_entries
  walk_dir root with_hash exclude = allowed_path root (
      require (env.is_dir root) not_a_directory (
        call env (reads_dir root)
          (walk_entries env root with_hash exclude (env.listing root) (return tt))))

  unfoldable pub delete_one : Text → FileKind → Run ℕ → Run ℕ
  unfolding call map_run
  delete_one p file_or_link rest =
      call env (stats p) (call env (removes p) (map_run (λ n. suc n) rest))
  delete_one p directory rest = call env (stats p) rest
  delete_one p missing rest = record { effects = stats p ∷ rest.effects; outcome = rest.outcome }
  delete_one p unreadable rest = record {
    effects = stats p ∷ [];
    outcome = bailed (call_failed (stats p));
  }

  -- Returns how many were removed.
  unfoldable pub delete_all : List Text → Run ℕ
  unfolding allowed_path delete_one
  delete_all [] = return 0
  delete_all (p ∷ paths) = allowed_path p (delete_one p (env.kind_of p) (delete_all paths))

  unfoldable pub thumbnail : Text → ℕ → Run Unit
  unfolding allowed_path call
  thumbnail path max_px =
      allowed_path path (call env (decodes_image path (min 1024 (max 16 max_px))) (return tt))

  abbrev pub home_root : Option Text → List Text
  home_root none = []
  home_root (some home) = home ∷ []

  unfoldable pub default_roots : List Text → List Text
  default_roots [] = home_root env.home_dir
  default_roots (root ∷ roots) = root ∷ roots

  unfoldable pub search_roots : List Text → List Text
  unfolding default_roots
  search_roots [] = default_roots sec.search_roots
  search_roots (root ∷ roots) = root ∷ roots

  abbrev pub passes : Option PathError → Bool
  passes none = true
  passes (some e) = false

  unfoldable pub is_allowed : Text → Bool
  unfolding check_path_allowed
  is_allowed path = passes (check_path_allowed env.cwd path sec)

  -- The roots that the policy allows.
  unfoldable pub allowed_roots : List Text → List Text
  unfolding search_roots is_allowed
  allowed_roots roots = select is_allowed (search_roots roots)

  abbrev pub is_nil : List Text → Bool
  is_nil [] = true
  is_nil (x ∷ xs) = false

  unfoldable pub search : List Text → Text → SearchKind → Run Unit
  unfolding require call allowed_roots trim
  search roots query kind =
      let allowed = allowed_roots roots in
      require (not (is_empty (trim query))) empty_query (
        require (not (is_nil allowed)) no_allowed_roots (
          call env
            (searches allowed query kind (max 1 sec.search_max_results) sec.search_timeout_secs)
            (return tt)))

  abbrev pub in_u64 : ℕ → Bool
  in_u64 n = ltb n (2 ^ 64)

  -- `to_ascii_lowercase`, as `eq_ignore_ascii_case` compares.
  abbrev pub lower : ℕ → ℕ
  lower c = if leb 65 c && leb c 90 then c + 32 else c

  -- The check of the hash, where the sender gave one.
  unfoldable pub verify_sha : Text → Option Text → Run Unit
  unfolding require call
  verify_sha dest none = return tt
  verify_sha dest (some expected) =
      call env (hashes dest)
        (require (map lower (env.sha256_file dest) == map lower expected) sha_mismatch (return tt))

  unfoldable pub finish_file : Bool → Text → ℕ → Option Text → Run Unit
  unfolding verify_sha call
  finish_file false dest end expected = return tt
  finish_file true dest end expected = call env (sets_len dest end) (verify_sha dest expected)

  unfoldable pub receive_chunk_raw : Text → ℕ → List ℕ → Bool → Option Text → Run Unit
  unfolding allowed_path require call finish_file
  receive_chunk_raw dest offset bytes eof expected =
      let end = offset + length bytes in
      allowed_path dest (
        require (in_u64 end) offset_overflow (
          call env (creates_parents dest)
            (call env (writes_at dest offset bytes) (finish_file eof dest end expected))))

  unfoldable pub receive_decoded : Text → ℕ → Option (List ℕ) → Bool → Option Text → Run Unit
  unfolding require receive_chunk_raw
  receive_decoded dest offset none eof expected = bail bad_base64
  receive_decoded dest offset (some bytes) eof expected =
      let end = offset + length bytes in
      let chunk = receive_chunk_raw dest offset bytes eof expected in
      if ltb 0 sec.max_transfer_size
      then require (in_u64 end) offset_overflow
          (require (leb end sec.max_transfer_size) over_transfer_limit chunk)
      else chunk

  unfoldable pub receive_chunk : Text → ℕ → Text → Bool → Option Text → Run Unit
  unfolding receive_decoded
  receive_chunk dest offset bytes_b64 eof expected =
      receive_decoded dest offset (env.decode_base64 bytes_b64) eof expected
