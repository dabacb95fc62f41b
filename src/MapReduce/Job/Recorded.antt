-- ===== src/MapReduce/Job/Recorded.antt =====
-- What a reply and a round of `run_job` of mapreduce.rs do to one partition.
use native.Mathlib.Decide.{ℕ_discrete}
use tunshell_mcp_agents.Prelude.{
  ℕ, zero, suc, ◌+◌, ◌≤◌, ◌<◌, ◌≡◌, ◌≢◌, refl, sym, ap, subst, ◌∙◌, ◌⊎◌, inl, inr, List, [], ◌∷◌,
  Option, none, some, Bool, true, false, length, get_elem?, set, any, nat_beq, arith, Option-cases,
  length-set, String, All,
}
use tunshell_mcp_agents.MapReduce.Job.{
  PartitionStatus, done, failed, JobState, Reply, ok, err, Command, Transport, is_failed, bump,
  with_reply, record_result, attempts_of, result_outcome, after_task, dispatch_round,
}

or_zero : Option ℕ → ℕ
or_zero none = 0
or_zero (some n) = n

attempts-or_zero : (job : JobState) (j : ℕ) → attempts_of job j ≡ or_zero (get_elem? job.attempts j)
unfolding attempts_of or_zero
attempts-or_zero job j = elim (get_elem? job.attempts j) [ none ↦ refl | some n ↦ refl ]

unfoldable pub failed_at : Option PartitionStatus → Bool
failed_at none = false
failed_at (some s) = is_failed s

get_elem?-set_other :
    {A : Type 0} (xs : List A) (i j : ℕ) (v : A) → i ≢ j → get_elem? (set xs i v) j ≡ get_elem? xs j
get_elem?-set_other [] i j v ne = refl
get_elem?-set_other (x ∷ xs) zero zero v ne = absurd (ne refl)
get_elem?-set_other (x ∷ xs) zero (suc j) v ne = refl
get_elem?-set_other (x ∷ xs) (suc i) zero v ne = refl
get_elem?-set_other (x ∷ xs) (suc i) (suc j) v ne =
    get_elem?-set_other xs i j v (λ p. ne (ap suc p))

bump_other : (as' : List ℕ) (i j : ℕ) → i ≢ j → get_elem? (bump as' i) j ≡ get_elem? as' j
unfolding bump
bump_other [] i j ne = refl
bump_other (a ∷ as') zero zero ne = absurd (ne refl)
bump_other (a ∷ as') zero (suc j) ne = refl
bump_other (a ∷ as') (suc i) zero ne = refl
bump_other (a ∷ as') (suc i) (suc j) ne = bump_other as' i j (λ p. ne (ap suc p))

bump_self :
    (as' : List ℕ) (i : ℕ)
    → i < length as'
    → or_zero (get_elem? (bump as' i) i) ≡ or_zero (get_elem? as' i) + 1
unfolding bump or_zero
bump_self [] i h = absurd (omega arith)
bump_self (a ∷ as') zero h = refl
bump_self (a ∷ as') (suc i) h = bump_self as' i (omega arith)

length-bump : (as' : List ℕ) (i : ℕ) → length (bump as' i) ≡ length as'
unfolding bump
length-bump [] i = refl
length-bump (a ∷ as') zero = refl
length-bump (a ∷ as') (suc i) = ap suc (length-bump as' i)

-- The lists of a job have the length `n`.
pub record IsSized (n : ℕ) (job : JobState) : Type 0 where
  pub parts : length job.partitions ≡ n
  pub tries : length job.attempts ≡ n

-- How one partition stands: whether it has failed, after how many attempts.
abbrev pub fails : JobState → ℕ → Bool
fails job j = failed_at (get_elem? job.partitions j)

record_result-IsSized :
    (n : ℕ) (job : JobState) (i : ℕ) (reply : Reply)
    → IsSized n job
    → IsSized n (record_result job i reply).0
unfolding record_result
record_result-IsSized n job i reply z = elim (Option-cases (get_elem? job.partitions i)) [
  | inl e ↦ rw (e, record_result) z
  | inr (old, e) ↦ rw (e, record_result) (replied reply)
]
  where
    replied : (reply : Reply) → IsSized n (with_reply job i reply)
    replied (ok output) = record {
      parts = length-set job.partitions i (done output) ∙ z.parts;
      tries = z.tries;
    }
    replied (err e) = record {
      parts = length-set job.partitions i (failed e) ∙ z.parts;
      tries = length-bump job.attempts i ∙ z.tries;
    }

-- What one reply does to the partition `j`.
abbrev Recorded : JobState → ℕ → JobState → ℕ → Type 0
Recorded job i after j =
    (attempts_of job j ≤ attempts_of after j)
    × (fails after j ≡ true
        → ((nat_beq j i ≡ true) × (attempts_of job j + 1 ≤ attempts_of after j))
          ⊎ ((nat_beq j i ≡ false)
              × (fails job j ≡ true)
              × (attempts_of after j ≡ attempts_of job j)))

get_elem?-in :
    {A : Type 0} (xs : List A) (i : ℕ) → i < length xs → (a : A) × (get_elem? xs i ≡ some a)
get_elem?-in [] i h = absurd (omega arith)
get_elem?-in (x ∷ xs) zero h = (x, refl)
get_elem?-in (x ∷ xs) (suc i) h = get_elem?-in xs i (omega arith)

get_elem?-set_self :
    {A : Type 0} (xs : List A) (i : ℕ) (v : A) → i < length xs → get_elem? (set xs i v) i ≡ some v
get_elem?-set_self [] i v h = absurd (omega arith)
get_elem?-set_self (x ∷ xs) zero v h = refl
get_elem?-set_self (x ∷ xs) (suc i) v h = get_elem?-set_self xs i v (omega arith)

attempts-bump_self :
    (n : ℕ) (job : JobState) (i : ℕ) (e : String)
    → IsSized n job
    → i < n
    → attempts_of (with_reply job i (err e)) i ≡ attempts_of job i + 1
attempts-bump_self n job i e z h =
    attempts-or_zero (with_reply job i (err e)) i
    ∙ bump_self job.attempts i (omega (arith, z.tries, h))
    ∙ ap (λ a. a + 1) (sym (attempts-or_zero job i))

with_reply_self :
    (n : ℕ) (job : JobState) (i : ℕ) (reply : Reply)
    → IsSized n job
    → i < n
    → Recorded job i (with_reply job i reply) i
unfolding attempts_of failed_at
with_reply_self n job i (ok output) z h = (
  omega arith,
  λ f. absurd (
      ground (
        arith,
        subst (λ o. failed_at o ≡ true)
            (get_elem?-set_self job.partitions i (done output) (omega (arith, z.parts, h))) f,
      )),
)
with_reply_self n job i (err e) z h =
    let more = attempts-bump_self n job i e z h in
    (omega (arith, more), λ f. inl (ground arith, omega (arith, more)))

with_reply-other :
    (job : JobState) (i : ℕ) (reply : Reply) (j : ℕ)
    → i ≢ j
    → Recorded job i (with_reply job i reply) j
unfolding attempts_of
with_reply-other job i (ok output) j ne = (
  omega arith,
  λ f. inr (
    ground (arith, ne, ap suc),
    subst (λ o. failed_at o ≡ true) (get_elem?-set_other job.partitions i j (done output) ne) f,
    refl,
  ),
)
with_reply-other job i (err e) j ne =
    let same : attempts_of (with_reply job i (err e)) j ≡ attempts_of job j =
      attempts-or_zero (with_reply job i (err e)) j
      ∙ ap or_zero (bump_other job.attempts i j ne)
      ∙ sym (attempts-or_zero job j) in
    (
      omega (arith, same),
      λ f. inr (
        ground (arith, ne),
        subst (λ o. failed_at o ≡ true) (get_elem?-set_other job.partitions i j (failed e) ne) f,
        same,
      ),
    )

record_result-Recorded :
    (n : ℕ) (job : JobState) (i : ℕ) (reply : Reply) (j : ℕ)
    → IsSized n job
    → i < n
    → Recorded job i (record_result job i reply).0 j
unfolding record_result attempts_of failed_at
record_result-Recorded n job i reply j z h =
    let (old, e) = get_elem?-in job.partitions i (omega (arith, z.parts, h)) in
    rw (e, record_result)
      (elim (ℕ_discrete i j) [
        | yes p ↦
            subst (λ k. Recorded job i (with_reply job i reply) k) p
              (with_reply_self n job i reply z h)
        | no ne ↦ with_reply-other job i reply j ne
      ])

-- What a round does to the partition `j`.
abbrev Dispatched : JobState → List ℕ → JobState → ℕ → Type 0
Dispatched job ids after j =
    (attempts_of job j ≤ attempts_of after j)
    × (fails after j ≡ true
        → ((any (nat_beq j) ids ≡ true) × (attempts_of job j + 1 ≤ attempts_of after j))
          ⊎ ((any (nat_beq j) ids ≡ false)
              × (fails job j ≡ true)
              × (attempts_of after j ≡ attempts_of job j)))

then-Dispatched :
    (job mid after : JobState) (i : ℕ) (ids : List ℕ) (j : ℕ)
    → Recorded job i mid j
    → Dispatched mid ids after j
    → Dispatched job (i ∷ ids) after j
then-Dispatched job mid after i ids j r d = (
  omega (arith, r.0, d.0),
  λ f. elim (d.1 f) [
    | inl (here, more) ↦ inl (ground (arith, here), omega (arith, r.0, more))
    | inr (away, still, same) ↦ elim (r.1 still) [
      | inl (here, more) ↦ inl (ground (arith, here), omega (arith, more, same))
      | inr (there, failed', same') ↦ inr (ground (arith, away, there), failed', same ∙ same')
    ]
  ],
)

module _ (dispatch : Command → Transport) (tasks : List Command) (n : ℕ)
    (all : length tasks ≡ n) where
  after_task-IsSized :
      (job : JobState) (i : ℕ) (o : Option Command)
      → IsSized n job
      → IsSized n (after_task dispatch job i o)
  unfolding after_task
  after_task-IsSized job i none z = z
  after_task-IsSized job i (some task) z =
      record_result-IsSized n job i (result_outcome (dispatch task)) z

  after_task-Recorded :
      (job : JobState) (i j : ℕ)
      → IsSized n job
      → i < n
      → Recorded job i (after_task dispatch job i (get_elem? tasks i)) j
  unfolding after_task
  after_task-Recorded job i j z h =
      let (task, e) = get_elem?-in tasks i (omega (arith, all, h)) in
      subst (λ o. Recorded job i (after_task dispatch job i o) j) (sym e) (of_some task)
    where
      of_some : (task : Command) → Recorded job i (after_task dispatch job i (some task)) j
      of_some task = record_result-Recorded n job i (result_outcome (dispatch task)) j z h

  pub dispatch_round-IsSized :
      (ids : List ℕ) (job : JobState)
      → IsSized n job
      → IsSized n (dispatch_round dispatch tasks job ids)
  unfolding dispatch_round
  dispatch_round-IsSized [] job z = z
  dispatch_round-IsSized (i ∷ ids) job z =
      dispatch_round-IsSized ids (after_task dispatch job i (get_elem? tasks i))
        (after_task-IsSized job i (get_elem? tasks i) z)

  pub dispatch_round-Dispatched :
      (ids : List ℕ) (job : JobState) (j : ℕ)
      → IsSized n job
      → All (λ i. i < n) ids
      → Dispatched job ids (dispatch_round dispatch tasks job ids) j
  unfolding dispatch_round
  dispatch_round-Dispatched [] job j z h = (omega arith, λ f. inr (refl, f, refl))
  dispatch_round-Dispatched (i ∷ ids) job j z h =
      then-Dispatched job (after_task dispatch job i (get_elem? tasks i)) _ i ids j
        (after_task-Recorded job i j z h.0)
        (dispatch_round-Dispatched ids (after_task dispatch job i (get_elem? tasks i)) j
          (after_task-IsSized job i (get_elem? tasks i) z) h.1)
