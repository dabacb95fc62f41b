-- ===== src/MapReduce/Job/Rounds.antt =====
-- The rounds of `run_job` of mapreduce.rs come to an end.
use tunshell_mcp_agents.Prelude.{ℕ, ◌≤◌, ◌≡◌, Option, none, some, Bool, true, false}
use tunshell_mcp_agents.MapReduce.Job.{PartitionStatus, JobState, attempts_of}
use tunshell_mcp_agents.MapReduce.Job.Recorded.{fails}

-- The ids that a test of the status keeps are the positions that pass it.
at_status : (PartitionStatus → Bool) → Option PartitionStatus → Bool
at_status pred none = false
at_status pred (some s) = pred s

-- After `r` rounds every partition that has failed was tried `r` times or more.
abbrev IsTried : ℕ → JobState → Type 0
IsTried r job = (j : ℕ) → fails job j ≡ true → r ≤ attempts_of job j
