-- ===== src/Sync/Exact.antt =====
-- Properties of `diff_manifests` of sync.rs.
use tunshell_mcp_agents.Prelude.{
  ◌≤◌, ◌≡◌, refl, String, List, [], ◌∷◌, map, some, Bool, true, false, ◌&&◌, not, select, All,
  arith, Bool-cases, inl, inr, eq_iff,
}
use tunshell_mcp_agents.Sync.{ManifestEntry, SyncOpts, dest_by, needs, has_path, diff_manifests}

-- What a transfer leaves on the destination: the size of the source file and a modification time
-- that is not before the source's.
abbrev pub WasSent : ManifestEntry → ManifestEntry → Type 0
WasSent s d = (d.size ≡ s.size) × (s.mtime_ms ≤ d.mtime_ms)

-- `after` is a destination on which the plan was carried out, as far as one source file goes.
abbrev pub IsSynced : SyncOpts → List ManifestEntry → List ManifestEntry → ManifestEntry → Type 0
IsSynced opts dest after s =
    (needs opts s (dest_by dest s.rel_path) ≡ true
      → (d : ManifestEntry) × (dest_by after s.rel_path ≡ some d) × WasSent s d)
    × (needs opts s (dest_by dest s.rel_path) ≡ false
        → dest_by after s.rel_path ≡ dest_by dest s.rel_path)

settled :
    (opts : SyncOpts) (dest after : List ManifestEntry) (s : ManifestEntry)
    → opts.checksum ≡ false
    → IsSynced opts dest after s
    → needs opts s (dest_by after s.rel_path) ≡ false
settled opts dest after s q synced = elim (Bool-cases (needs opts s (dest_by dest s.rel_path))) [
  | inl n ↦ let (d, e, sent) = synced.0 n in rw (e, q) (ground (arith, sent.0, sent.1))
  | inr n ↦ rw (synced.1 n) n
]

none_selected :
    (opts : SyncOpts) (dest after src : List ManifestEntry)
    → opts.checksum ≡ false
    → All (IsSynced opts dest after) src
    → select (λ s. needs opts s (dest_by after s.rel_path)) src ≡ []
none_selected opts dest after [] q synced = refl
none_selected opts dest after (s ∷ src) q synced =
    rw (settled opts dest after s q synced.0, none_selected opts dest after src q synced.1) refl

-- A repeated sync sends nothing: where the plan of the quick check has been carried out, so that
-- each file of `to_transfer` is on the destination with the source's size and a modification time
-- not before the source's, and no other file of the source has changed there, the next plan for
-- the same source transfers no file.
pub diff_manifests-settles :
    (src dest after : List ManifestEntry) (dest_root_exists : Bool) (opts : SyncOpts)
    → opts.checksum ≡ false
    → All (IsSynced opts dest after) src
    → (diff_manifests src after dest_root_exists opts).to_transfer ≡ []
unfolding diff_manifests
diff_manifests-settles src dest after dest_root_exists opts q synced =
    none_selected opts dest after src q synced

paths_of :
    (src dest ds : List ManifestEntry)
    → ((p : String) → has_path ds p ≡ true → has_path dest p ≡ true)
    → All
        (λ p. (has_path src p ≡ false) × (has_path dest p ≡ true))
        (map (λ d. d.rel_path) (select (λ d. not (has_path src d.rel_path)) ds))
paths_of src dest [] within = tt
paths_of src dest (d ∷ ds) within =
    let rest = paths_of src dest ds (λ p h. within p (ground arith)) in
    elim (Bool-cases (has_path src d.rel_path)) [
      | inl h ↦ rw h rest
      | inr h ↦ rw h ((h, within d.rel_path (ground (arith, eq_iff d.rel_path d.rel_path))), rest)
    ]

-- A sync deletes no file of the source: every path of `to_delete` is absent from the source's
-- manifest and present in the destination's, and without the `delete` option, or where the
-- destination's root did not exist, nothing is deleted.
pub diff_manifests-deletes_absent :
    (src dest : List ManifestEntry) (dest_root_exists : Bool) (opts : SyncOpts)
    → All
        (λ p. (has_path src p ≡ false) × (has_path dest p ≡ true))
        (diff_manifests src dest dest_root_exists opts).to_delete
      × (opts.delete && dest_root_exists ≡ false
          → (diff_manifests src dest dest_root_exists opts).to_delete ≡ [])
unfolding diff_manifests
diff_manifests-deletes_absent src dest dest_root_exists opts =
    elim (Bool-cases (opts.delete && dest_root_exists)) [
      | inl h ↦ rw h (paths_of src dest dest (λ p b. b), λ p. absurd (ground arith))
      | inr h ↦ rw h (tt, λ p. refl)
    ]
