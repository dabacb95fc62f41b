-- ===== src/Scheduler.antt =====
-- `Scheduler` of crates/mcp-server/src/scheduler.rs: the tasks in memory, their baselines, and the
-- table that persists them. A task that is due is run to its end before the next one. Times are
-- milliseconds. The cron library is a parameter, and so is whether a statement on the table
-- succeeds. Casts between u64 and i64 change no number that occurs.
pub mod Persistence
mod Examples
use tunshell_mcp_agents.Prelude.{
  ℕ, ◌+◌, ◌%◌, ◌^◌, String, List, [], ◌∷◌, ◌++◌, Option, none, some, Bool, true, false, leb,
  string_eq, if◌then◌else◌, select,
}
use tunshell_mcp_agents.Assoc.{Assoc, lookup, insert, remove, values}

pub record ScheduledTask : Type 0 where
  pub name : String
  pub cron : String
  pub command : String
  pub last_run : Option ℕ
  pub run_count : ℕ

pub data ScheduleError : Type 0 where
  invalid_cron no_task db_failed : ScheduleError

-- The rows of `scheduled_tasks` stand under their primary key, the name.
pub record Scheduler : Type 0 where
  pub tasks : Assoc String ScheduledTask
  pub baseline : Assoc String ℕ
  pub db : Assoc String ScheduledTask

-- The loop of `load_all`.
unfoldable pub load_rows :
    List ScheduledTask → Assoc String ScheduledTask → Assoc String ScheduledTask
unfolding insert
load_rows [] map = map
load_rows (task ∷ rows) map = load_rows rows (insert task.name task map)

unfoldable pub load : Assoc String ScheduledTask → Scheduler
unfolding load_rows
load db = record { tasks = load_rows (values db) []; baseline = []; db = db }

abbrev pub or_now : ℕ → Option ℕ → ℕ
or_now now none = now
or_now now (some t) = t

-- `baseline.entry(name).or_insert(now)` for each task.
unfoldable pub seed_all : ℕ → Assoc String ScheduledTask → Assoc String ℕ → Assoc String ℕ
unfolding insert lookup
seed_all now [] baseline = baseline
seed_all now ((name, task) ∷ tasks) baseline =
    seed_all now tasks (insert name (or_now now (lookup name baseline)) baseline)

-- What `run` does before its first tick.
unfoldable pub seed : ℕ → Scheduler → Scheduler
unfolding seed_all
seed now s = record s { baseline = seed_all now s.tasks s.baseline }

-- `UPDATE scheduled_tasks SET .. WHERE name = ..`
abbrev pub set_stats : ℕ → ℕ → ScheduledTask → ScheduledTask
set_stats now count task = record task { last_run = some now; run_count = count }

unfoldable pub update_found :
    String → ℕ → ℕ → Option ScheduledTask → Assoc String ScheduledTask → Assoc String ScheduledTask
unfolding insert
update_found name now count none db = db
update_found name now count (some row) db = insert name (set_stats now count row) db

unfoldable pub db_update_stats :
    Bool → String → ℕ → ℕ → Assoc String ScheduledTask → Assoc String ScheduledTask
unfolding update_found lookup
db_update_stats ok name now count db =
    if ok then update_found name now count (lookup name db) db else db

-- A cron expression: `none` is one that does not parse, then the occurrence after a time.
module _ (cron_after : String → Option (ℕ → Option ℕ)) where
  abbrev pub is_parsed : Option (ℕ → Option ℕ) → Bool
  is_parsed none = false
  is_parsed (some sched) = true

  -- The state, and the error where there is one.
  unfoldable pub add :
      ℕ → Bool → String → String → String → Scheduler → Scheduler × Option ScheduleError
  unfolding insert
  add now db_ok name cron command s =
      let task : ScheduledTask = record {
        name = name;
        cron = cron;
        command = command;
        last_run = none;
        run_count = 0;
      } in
      let added = record s {
        db = insert name task s.db;
        tasks = insert name task s.tasks;
        baseline = insert name now s.baseline;
      } in
      if is_parsed (cron_after cron)
      then if db_ok then (added, none) else (s, some db_failed)
      else (s, some invalid_cron)

  unfoldable pub remove_found :
      Bool → String → Option ScheduledTask → Scheduler → Scheduler × Option ScheduleError
  unfolding remove
  remove_found db_ok name none s = (s, some no_task)
  remove_found db_ok name (some task) s =
      let forgotten = record s { tasks = remove name s.tasks; baseline = remove name s.baseline } in
      if db_ok
      then (record forgotten { db = remove name s.db }, none)
      else (forgotten, some db_failed)

  unfoldable pub remove_task : Bool → String → Scheduler → Scheduler × Option ScheduleError
  unfolding remove_found lookup
  remove_task db_ok name s = remove_found db_ok name (lookup name s.tasks) s

  abbrev pub or_else : Option ℕ → ℕ → ℕ
  or_else none n = n
  or_else (some m) n = m

  abbrev pub first_of : Option ℕ → Option ℕ → Option ℕ
  first_of none b = b
  first_of (some a) b = some a

  abbrev pub is_reached : ℕ → Option ℕ → Bool
  is_reached now none = false
  is_reached now (some next) = leb next now

  abbrev pub next_reached : ℕ → ℕ → Option (ℕ → Option ℕ) → Bool
  next_reached now after none = false
  next_reached now after (some sched) = is_reached now (sched after)

  -- The filter of `tick`: from the baseline, else the last run, else now.
  unfoldable pub is_due : ℕ → Scheduler → ScheduledTask → Bool
  unfolding lookup
  is_due now s task =
      let after = or_else (first_of (lookup task.name s.baseline) task.last_run) now in
      next_reached now after (cron_after task.cron)

  unfoldable pub record_run : ℕ → Bool → String → Option ScheduledTask → Scheduler → Scheduler
  unfolding insert db_update_stats
  record_run now db_ok name none s = s
  record_run now db_ok name (some t) s =
      let count = (t.run_count + 1) % 2 ^ 64 in
      record s {
        tasks = insert name (set_stats now count t) s.tasks;
        db = db_update_stats db_ok name now count s.db;
      }

  -- One task that is due: the baseline, the command, the statistics.
  unfoldable pub fire : ℕ → Bool → ScheduledTask → Scheduler → Scheduler
  unfolding record_run insert lookup
  fire now db_ok task s =
      let started = record s { baseline = insert task.name now s.baseline } in
      record_run now db_ok task.name (lookup task.name s.tasks) started

  unfoldable pub fire_all :
      ℕ → (String → Bool) → List ScheduledTask → Scheduler → Scheduler × List String
  unfolding fire
  fire_all now db_ok [] s = (s, [])
  fire_all now db_ok (task ∷ due) s =
      let (s', commands) = fire_all now db_ok due (fire now (db_ok task.name) task s) in
      (s', task.command ∷ commands)

  -- The state, and the commands that were run.
  unfoldable pub tick : ℕ → (String → Bool) → Scheduler → Scheduler × List String
  unfolding fire_all is_due
  tick now db_ok s = fire_all now db_ok (select (is_due now s) (values s.tasks)) s
