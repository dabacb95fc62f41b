-- ===== src/MapReduce/Examples.antt =====
-- Five items for two workers, and a job whose transport fails.
use tunshell_mcp_agents.Prelude.{
  ℕ, ◌/◌, ◌+◌, ◌≤◌, ◌≡◌, List, [], ◌∷◌, arith, min, length, concat, All,
}
use tunshell_mcp_agents.MapReduce.Partition.{partition, partition-balanced}

abbrev items : List ℕ
items = 1 ∷ 2 ∷ 3 ∷ 4 ∷ 5 ∷ []

partition-balanced_example :
    let parts = partition items 2 in
    let base = length items / min 2 (length items) in
    (concat parts ≡ items)
    × (length parts ≡ min 2 (length items))
    × (1 ≤ base)
    × All (λ p. (base ≤ length p) × (length p ≤ base + 1)) parts
partition-balanced_example = partition-balanced items 2 (omega arith) (omega arith)
