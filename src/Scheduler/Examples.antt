-- ===== src/Scheduler/Examples.antt =====
-- A schedule of one task, with a cron library for which every expression means each minute.
use tunshell_mcp_agents.Prelude.{
  false, ℕ, ◌+◌, ◌≡◌, refl, String, [], ◌∷◌, Option, none, some, string_eq,
}
use tunshell_mcp_agents.Assoc.{Assoc, lookup}
use tunshell_mcp_agents.Scheduler.{ScheduledTask, Scheduler, db_failed, load, remove_task}
use tunshell_mcp_agents.Scheduler.Persistence.{
  IsKeyed, IsMirrored, seeds, adds, ticks, run_all, restart-recovers, remove_failure-returns,
}

abbrev each_minute : String → Option (ℕ → Option ℕ)
each_minute cron = some (λ t. some (t + 60000))

abbrev backup : ScheduledTask
backup = record {
  name = "backup";
  cron = "0 * * * * *";
  command = "true";
  last_run = none;
  run_count = 0;
}

abbrev table : Assoc String ScheduledTask
table = ("backup", backup) ∷ []

table-IsKeyed : IsKeyed table
unfolding lookup
table-IsKeyed = record { names = (refl, tt); unique = (refl, tt) }

restart-recovers_example :
    let s =
      run_all each_minute
        (seeds 1 ∷ adds 5 "log" "0 0 * * * *" "date" ∷ ticks 90000 ∷ [])
        (load table) in
    lookup "log" (load s.db).tasks ≡ lookup "log" s.tasks
restart-recovers_example =
    restart-recovers each_minute table
      (seeds 1 ∷ adds 5 "log" "0 0 * * * *" "date" ∷ ticks 90000 ∷ []) "log" table-IsKeyed

abbrev running : Scheduler
running = record { tasks = table; baseline = []; db = table }

running-IsMirrored : IsMirrored running
running-IsMirrored = record {
  agree = λ k. refl;
  tasks_keyed = table-IsKeyed;
  db_keyed = table-IsKeyed;
}

is_there : lookup "backup" running.tasks ≡ some backup
unfolding lookup
is_there = refl

remove_failure-returns_example :
    let (s', error) = remove_task each_minute false "backup" running in
    (error ≡ some db_failed)
    × (lookup "backup" s'.tasks ≡ none)
    × (lookup "backup" (load s'.db).tasks ≡ some backup)
remove_failure-returns_example =
    remove_failure-returns each_minute "backup" backup running running-IsMirrored is_there
