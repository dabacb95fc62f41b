-- ===== src/Transfer/Examples.antt =====
-- Two files of a sync, and two transfers side by side.
use tunshell_mcp_agents.Transfer.Slices.{Slice, stream_slices, last_slice, write_slice, write_each}
use tunshell_mcp_agents.Transfer.Slices.AnyOrder.{transfer_any_order}
use tunshell_mcp_agents.Prelude.{
  ℕ, List, any, nat_beq, true, length, ◌<◌, ◌∷◌, [], ◌≡◌, ◌≢◌, some, arith, eq_iff, String,
}
use tunshell_mcp_agents.Transfer.{start, set_totals, set_done, get, done, TransferState}
use tunshell_mcp_agents.Transfer.Progress.{sync_counts, files_done, counted}

sync_counts_example :
    ((state : TransferState) × (get "t"
          (files_done "t" (5 ∷ 7 ∷ []) (set_totals "t" 12 2 (start "t" 3 [])))
        ≡ some (counted "t" (5 ∷ 7 ∷ []) state)))
    × (get "t" (set_done "t" (files_done "t" (5 ∷ 7 ∷ []) (set_totals "t" 12 2 (start "t" 3 []))))
        ≡ some (counted "t" (5 ∷ 7 ∷ []) done))
sync_counts_example = sync_counts "t" 3 (5 ∷ 7 ∷ []) [] (omega arith) (omega arith)

not_same : ◌≢◌ {A = String} "t" "u"
not_same = ground (arith, eq_iff "t" "u")

transfer_any_order_example :
    (slices : List Slice) × (last : ℕ) × (stream_slices 2 (1 ∷ 2 ∷ 3 ∷ 4 ∷ 5 ∷ [])
      ≡ some (slices, last))
    × ((order : List ℕ)
        → ((j : ℕ) → j < length slices → any (nat_beq j) order ≡ true)
        → write_slice
            (last_slice (1 ∷ 2 ∷ 3 ∷ 4 ∷ 5 ∷ []) last)
            (write_each slices order (9 ∷ 9 ∷ []))
          ≡ 1 ∷ 2 ∷ 3 ∷ 4 ∷ 5 ∷ [])
transfer_any_order_example = transfer_any_order 2 (1 ∷ 2 ∷ 3 ∷ 4 ∷ 5 ∷ []) (9 ∷ 9 ∷ [])
