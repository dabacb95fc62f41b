-- ===== src/MapReduce/Partition.antt =====
-- `partition` of mapreduce.rs: balanced consecutive slices of the input.
use native.Mathlib.Nat.{div-add-mod}
use tunshell_mcp_agents.Prelude.{
  ℕ, zero, suc, ◌+◌, ◌-◌, ◌*◌, ◌/◌, ◌%◌, ◌≤◌, ◌<◌, min, List, [], ◌∷◌, ◌≡◌, refl, ap, Bool, false,
  ◌||◌, if◌then◌else◌, arith, length, take, drop, concat, All, ltb, nat_beq, length-take,
  length-drop, take-append-drop, ◌⊎◌,
}

-- `let len = base + if i < rem { 1 } else { 0 }`
pub part_len : ℕ → ℕ → ℕ → ℕ
part_len base rem i = base + (if ltb i rem then 1 else 0)

module _ {ℓ} {A : Type ℓ} where
  -- The loop over `i in 0..n`, with `left` rounds to go; `rest` is `items[start..]`.
  pub partition_loop : ℕ → ℕ → ℕ → ℕ → List A → List (List A)
  partition_loop base rem zero i rest = []
  partition_loop base rem (suc left) i rest =
      take (part_len base rem i) rest
      ∷ partition_loop base rem left (i + 1) (drop (part_len base rem i) rest)

  pub partition : List A → ℕ → List (List A)
  partition items workers =
      if nat_beq (length items) 0 || nat_beq workers 0
      then []
      else let n = min workers (length items) in
        partition_loop (length items / n) (length items % n) n 0 items

-- The items that the rounds from `i` on take.
abbrev remaining : ℕ → ℕ → ℕ → ℕ → ℕ
remaining base rem left i = left * base + (rem - i)

part_len_step :
    (base rem left i : ℕ)
    → rem ≤ i + suc left
    → remaining base rem (suc left) i ≡ part_len base rem i + remaining base rem left (i + 1)
unfolding part_len
part_len_step base rem left i h = grind arith

part_len_bounds : (base rem i : ℕ) → (base ≤ part_len base rem i) × (part_len base rem i ≤ base + 1)
unfolding part_len
part_len_bounds base rem i = ground arith

size_of :
    {base len total size : ℕ}
    → size ≡ min len total
    → (base ≤ len) × (len ≤ base + 1)
    → len ≤ total
    → (base ≤ size) × (size ≤ base + 1)
size_of e b h = (omega arith, omega arith)

division_facts :
    (n k : ℕ) → 0 < k → k ≤ n → (n ≡ remaining (n / k) (n % k) k 0) × (n % k ≤ 0 + k) × (1 ≤ n / k)
division_facts n k h le =
    let e = div-add-mod n k in
    let lt : n % k < k = grind arith in (grind (arith, e), omega arith, grind (arith, e))

module _ {ℓ} {A : Type ℓ} where
  length-partition_loop :
      (base rem left i : ℕ) (rest : List A) → length (partition_loop base rem left i rest) ≡ left
  unfolding partition_loop
  length-partition_loop base rem zero i rest = refl
  length-partition_loop base rem (suc left) i rest =
      ap suc (length-partition_loop base rem left (i + 1) _)

  concat-partition_loop :
      (base rem left i : ℕ) (rest : List A)
      → length rest ≡ remaining base rem left i
      → rem ≤ i + left
      → concat (partition_loop base rem left i rest) ≡ rest
  unfolding partition_loop
  concat-partition_loop base rem zero i [] h k = refl
  concat-partition_loop base rem zero i (x ∷ rest) h k = absurd (omega arith)
  concat-partition_loop base rem (suc left) i rest h k =
      let len = part_len base rem i in
      rw
        (concat-partition_loop base rem left (i + 1) (drop len rest)
          (omega (arith, length-drop len rest, part_len_step base rem left i k)) (omega arith))
        (take-append-drop len rest)

  -- Each slice has the length of its round, and so `base` or one more, and is not empty.
  sizes-partition_loop :
      (base rem left i : ℕ) (rest : List A)
      → length rest ≡ remaining base rem left i
      → rem ≤ i + left
      → All (λ p. (base ≤ length p) × (length p ≤ base + 1)) (partition_loop base rem left i rest)
  unfolding partition_loop
  sizes-partition_loop base rem zero i rest h k = tt
  sizes-partition_loop base rem (suc left) i rest h k =
      let len = part_len base rem i in
      let step = part_len_step base rem left i k in
      (
        size_of (length-take len rest) (part_len_bounds base rem i) (omega (arith, step)),
        sizes-partition_loop base rem left (i + 1) (drop len rest)
            (omega (arith, length-drop len rest, step)) (omega arith),
      )

  abbrev items_nonempty : List A → ℕ → Bool
  items_nonempty items workers = nat_beq (length items) 0 || nat_beq workers 0

  -- With workers and input, the slices make up the input in its order, there are as many slices as
  -- the smaller of the two numbers, none is empty, and their lengths differ by at most one.
  pub partition-balanced :
      (items : List A) (workers : ℕ)
      → 0 < length items
      → 0 < workers
      → let parts = partition items workers in
        let base = length items / min workers (length items) in
        (concat parts ≡ items)
        × (length parts ≡ min workers (length items))
        × (1 ≤ base)
        × All (λ p. (base ≤ length p) × (length p ≤ base + 1)) parts
  unfolding partition
  partition-balanced items workers hi hw =
      let n = min workers (length items) in
      let base = length items / n in
      let rem = length items % n in
      let facts = division_facts (length items) n (omega arith) (omega arith) in
      let go : items_nonempty items workers ≡ false = ground arith in
      let total : length items ≡ remaining base rem n 0 = facts.0 in
      let small : rem ≤ 0 + n = facts.1 in
      rw go (
        concat-partition_loop base rem n 0 items total small,
        length-partition_loop base rem n 0 items,
        facts.2,
        sizes-partition_loop base rem n 0 items total small,
      )

  -- No input or no worker, no slice.
  partition-none :
      (items : List A) (workers : ℕ)
      → (length items ≡ 0) ⊎ (workers ≡ 0)
      → partition items workers ≡ []
  unfolding partition
  partition-none items workers h = ground arith
