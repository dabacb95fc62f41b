-- ===== src/MapReduce/Job.antt =====
-- `JobState` and `run_job` of mapreduce.rs. `dispatch` is the transport: what it answers to a
-- command may depend on the round, as the answers of a network do. Formatted error texts are the
-- constructors of `JobError`; `to_json` is `serde_json::to_string`.

pub mod Recorded
pub mod Rounds
use tunshell_mcp_agents.Prelude.{
  ℕ, zero, suc, ◌+◌, String, List, [], ◌∷◌, map, Option, none, some, Bool, true, false, ◌&&◌, not,
  if◌then◌else◌, length, get_elem?, set, replicate, all, any, select, leb, ltb,
}
use tunshell_mcp_agents.MapReduce.Partition.{partition}

pub data PartitionStatus : Type 0 where
  pending : PartitionStatus
  done : String → PartitionStatus
  failed : String → PartitionStatus

pub record JobState : Type 0 where
  pub job_id : String
  pub partitions : List PartitionStatus
  pub attempts : List ℕ

pub data Reply : Type 0 where
  ok : String → Reply
  err : String → Reply

pub data Command : Type 0 where
  map_task : String → ℕ → String → String → Command
  reduce_task : String → String → List String → Command

-- `map_result` and `reduce_result` carry output, success and error; any other variant is known by
-- its debug text.
pub data CommandResult : Type 0 where
  map_result : String → Bool → Option String → CommandResult
  reduce_result : String → Bool → Option String → CommandResult
  other_result : String → CommandResult

pub data Transport : Type 0 where
  answered : CommandResult → Transport
  lost : String → Transport

pub data JobError : Type 0 where
  exhausted : String → List ℕ → ℕ → JobError
  stalled : String → JobError
  incomplete : String → JobError
  reported : String → JobError

pub data JobResult : Type 0 where
  finished : String → JobResult
  aborted : JobError → JobResult

pub new_job : String → ℕ → JobState
new_job job_id count = record {
  job_id = job_id;
  partitions = replicate count pending;
  attempts = replicate count 0;
}

abbrev pub is_failed : PartitionStatus → Bool
is_failed (failed e) = true
is_failed s = false

abbrev pub is_pending : PartitionStatus → Bool
is_pending pending = true
is_pending s = false

abbrev pub is_done : PartitionStatus → Bool
is_done (done o) = true
is_done s = false

-- `self.attempts[idx] += 1`
pub bump : List ℕ → ℕ → List ℕ
bump [] i = []
bump (a ∷ as') zero = (a + 1) ∷ as'
bump (a ∷ as') (suc i) = a ∷ bump as' i

abbrev with_reply : JobState → ℕ → Reply → JobState
with_reply job idx (ok output) = record job { partitions = set job.partitions idx (done output) }
with_reply job idx (err error) = record job {
  partitions = set job.partitions idx (failed error);
  attempts = bump job.attempts idx;
}

-- `record`: the new state, and whether the id is in range.
pub record_result : JobState → ℕ → Reply → JobState × Bool
record_result job idx reply = elim (get_elem? job.partitions idx) [
  | none ↦ (job, false)
  | some old ↦ (with_reply job idx reply, true)
]

-- `enumerate().filter(pred).map(index)` from position `i`.
pub ids_from : (PartitionStatus → Bool) → ℕ → List PartitionStatus → List ℕ
ids_from pred i [] = []
ids_from pred i (s ∷ ss) = let rest = ids_from pred (i + 1) ss in if pred s then i ∷ rest else rest

abbrev pub failed_ids : JobState → List ℕ
failed_ids job = ids_from is_failed 0 job.partitions

abbrev pub pending_ids : JobState → List ℕ
pending_ids job = ids_from is_pending 0 job.partitions

-- `attempts.get(id).copied().unwrap_or(0)`
pub attempts_of : JobState → ℕ → ℕ
attempts_of job id = elim (get_elem? job.attempts id) [ none ↦ 0 | some n ↦ n ]

pub redispatchable : JobState → ℕ → List ℕ
redispatchable job max_retries =
    select (λ id. leb (attempts_of job id) max_retries) (failed_ids job)

pub is_exhausted : JobState → ℕ → Bool
is_exhausted job max_retries = any (λ id. ltb max_retries (attempts_of job id)) (failed_ids job)

abbrev nonempty {ℓ} : {A : Type ℓ} → List A → Bool
nonempty [] = false
nonempty (x ∷ xs) = true

pub is_complete : JobState → Bool
is_complete job = nonempty job.partitions && all is_done job.partitions

abbrev output_of : PartitionStatus → String
output_of (done o) = o
output_of s = ""

pub outputs : JobState → Option (List String)
unfolding is_complete
outputs job = if not (is_complete job) then none else some (map output_of job.partitions)

abbrev or_text : Option String → String → String
or_text none t = t
or_text (some s) t = s

module _ (to_json : List String → Option String) where
  pub map_tasks : String → String → ℕ → List (List String) → List Command
  map_tasks job_id map_fn i [] = []
  map_tasks job_id map_fn i (p ∷ parts) =
      map_task job_id i map_fn (or_text (to_json p) "[]") ∷ map_tasks job_id map_fn (i + 1) parts

  pub plan_map_tasks : String → List String → String → ℕ → JobState × List Command
  plan_map_tasks job_id items map_fn workers =
      let parts = partition items workers in
      (new_job job_id (length parts), map_tasks job_id map_fn 0 parts)

pub build_reduce_task : JobState → String → Option Command
build_reduce_task job reduce_fn = elim (outputs job) [
  | none ↦ none
  | some inputs ↦ some (reduce_task job.job_id reduce_fn inputs)
]

abbrev folded : String → Bool → Option String → Reply
folded output success error =
    if success then ok output else err (or_text error "map/reduce reported failure")

pub result_outcome : Transport → Reply
result_outcome (answered (map_result output success error)) = folded output success error
result_outcome (answered (reduce_result output success error)) = folded output success error
result_outcome (answered (other_result text)) = err text
result_outcome (lost e) = err e

-- The reply to one command is recorded; an id is an index of `tasks`.
pub after_task : (Command → Transport) → JobState → ℕ → Option Command → JobState
unfolding result_outcome
after_task dispatch job id none = job
after_task dispatch job id (some task) = (record_result job id (result_outcome (dispatch task))).0

-- The replies of one round, recorded in the order of the ids.
pub dispatch_round : (Command → Transport) → List Command → JobState → List ℕ → JobState
unfolding after_task
dispatch_round dispatch tasks job [] = job
dispatch_round dispatch tasks job (id ∷ ids) =
    dispatch_round dispatch tasks (after_task dispatch job id (get_elem? tasks id)) ids

-- The retry loop, from round `round` on: the job when it is complete, with the number of the next
-- round, or the error. `none` means that the fuel ran out.
pub data Mapped : Type 0 where
  complete : ℕ → JobState → Mapped
  gave_up : JobError → Mapped

pub retry_loop : (ℕ → Command → Transport) → List Command → ℕ → ℕ → ℕ → JobState → Option Mapped
retry_loop dispatch tasks max_retries zero round job = none
retry_loop dispatch tasks max_retries (suc fuel) round job =
    let retry = redispatchable job max_retries in
    let again =
      retry_loop dispatch tasks max_retries fuel (round + 1)
        (dispatch_round (dispatch round) tasks job retry) in
    if is_complete job
    then some (complete round job)
    else if is_exhausted job max_retries
    then some (gave_up (exhausted job.job_id (failed_ids job) max_retries))
    else if not (nonempty retry)
    then some (gave_up (stalled job.job_id))
    else again

pub reduce_phase : (Command → Transport) → JobState → String → JobResult
reduce_phase dispatch job reduce_fn =
    elim (if nonempty job.partitions
      then build_reduce_task job reduce_fn
      else some (reduce_task job.job_id reduce_fn [])) [
        | none ↦ aborted (incomplete job.job_id)
        | some task ↦ elim (result_outcome (dispatch task)) [
          | ok output ↦ finished output
          | err e ↦ aborted (reported e)
        ]
      ]

-- What follows the retry loop: its error, or the reduce phase.
pub after_map : (ℕ → Command → Transport) → String → Option Mapped → Option JobResult
unfolding reduce_phase
after_map dispatch reduce_fn none = none
after_map dispatch reduce_fn (some (gave_up e)) = some (aborted e)
after_map dispatch reduce_fn (some (complete round job)) =
    some (reduce_phase (dispatch round) job reduce_fn)

-- `run_job`: round 0 dispatches every partition, the retries are rounds 1, 2, …
pub run_job :
    (List String → Option String)
    → (ℕ → Command → Transport)
    → ℕ
    → String
    → List String
    → String
    → String
    → ℕ
    → ℕ
    → Option JobResult
run_job to_json dispatch fuel job_id items map_fn reduce_fn workers max_retries =
    let (job, tasks) = plan_map_tasks to_json job_id items map_fn workers in
    if nonempty job.partitions
    then after_map dispatch reduce_fn (
        retry_loop dispatch tasks max_retries fuel 1
          (dispatch_round (dispatch 0) tasks job (pending_ids job)))
    else some (reduce_phase (dispatch 0) job reduce_fn)
