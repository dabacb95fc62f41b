-- ===== src/Scheduler/Persistence.antt =====
-- What the table keeps of the tasks in memory.
use tunshell_mcp_agents.Prelude.{
  ℕ, ◌+◌, ◌%◌, ◌^◌, ◌≡◌, refl, sym, ap, ◌∙◌, String, List, [], ◌∷◌, Option, none, some, true, false,
  string_eq, ◌==◌, if◌then◌else◌, select, All, arith, Bool-cases, Option-cases, inl, inr, subst,
}
use tunshell_mcp_agents.Assoc.{Assoc, lookup, insert, remove, values, UniqueKeys}
use tunshell_mcp_agents.Assoc.Laws.{lookup-insert, lookup-remove}
use tunshell_mcp_agents.Assoc.Keys.{insert-UniqueKeys, remove-UniqueKeys}
use tunshell_mcp_agents.Scheduler.{
  ScheduledTask, db_failed, Scheduler, load_rows, load, set_stats, update_found, db_update_stats,
  is_parsed, add, remove_found, remove_task, is_due, record_run, fire, fire_all, tick, seed,
}

-- A map whose tasks stand under their names, each once.
pub record IsKeyed (m : Assoc String ScheduledTask) : Type 0 where
  pub names : All (λ p. p.1.name ≡ p.0) m
  pub unique : UniqueKeys m

insert-names :
    (k : String) (t : ScheduledTask) (m : Assoc String ScheduledTask)
    → t.name ≡ k
    → All (λ p. p.1.name ≡ p.0) m
    → All (λ p. p.1.name ≡ p.0) (insert k t m)
unfolding insert
insert-names k t [] h a = (h, tt)
insert-names k t (p ∷ m) h a = elim (Bool-cases (p.0 == k)) [
  | inl e ↦
      let same : p.0 ≡ k = ground (arith, string_eq.beq_iff p.0 k, e) in rw e (h ∙ sym same, a.1)
  | inr e ↦ rw e (a.0, insert-names k t m h a.1)
]

remove-names :
    (k : String) (m : Assoc String ScheduledTask)
    → All (λ p. p.1.name ≡ p.0) m
    → All (λ p. p.1.name ≡ p.0) (remove k m)
unfolding remove
remove-names k [] a = tt
remove-names k (p ∷ m) a = elim (Bool-cases (p.0 == k)) [
  | inl e ↦ rw e (remove-names k m a.1)
  | inr e ↦ rw e (a.0, remove-names k m a.1)
]

insert-IsKeyed :
    (k : String) (t : ScheduledTask) (m : Assoc String ScheduledTask)
    → t.name ≡ k
    → IsKeyed m
    → IsKeyed (insert k t m)
insert-IsKeyed k t m h v = record {
  names = insert-names k t m h v.names;
  unique = insert-UniqueKeys k t m v.unique;
}

remove-IsKeyed : (k : String) (m : Assoc String ScheduledTask) → IsKeyed m → IsKeyed (remove k m)
remove-IsKeyed k m v = record {
  names = remove-names k m v.names;
  unique = remove-UniqueKeys k m v.unique;
}

lookup-name :
    (k : String) (m : Assoc String ScheduledTask) (t : ScheduledTask)
    → All (λ p. p.1.name ≡ p.0) m
    → lookup k m ≡ some t
    → t.name ≡ k
unfolding lookup
lookup-name k [] t a h = cc
lookup-name k (p ∷ m) t a h = elim (Bool-cases (p.0 == k)) [
  | inl e ↦ ground (arith, string_eq.beq_iff p.0 k, e, h, a.0)
  | inr e ↦ lookup-name k m t a.1 (ground (arith, e, h))
]

abbrev first_task : Option ScheduledTask → Option ScheduledTask → Option ScheduledTask
first_task none b = b
first_task (some a) b = some a

first_task-none : (o : Option ScheduledTask) → first_task o none ≡ o
first_task-none none = refl
first_task-none (some t) = refl

lookup-load_rows :
    (k : String) (m acc : Assoc String ScheduledTask)
    → All (λ p. p.1.name ≡ p.0) m
    → UniqueKeys m
    → lookup k (load_rows (values m) acc) ≡ first_task (lookup k m) (lookup k acc)
unfolding lookup load_rows
lookup-load_rows k [] acc a u = refl
lookup-load_rows k ((j, t) ∷ m) acc a u =
    let here = lookup-insert t.name k t acc in
    lookup-load_rows k m (insert t.name t acc) a.1 u.1 ∙ elim (Bool-cases (j == k)) [
      | inl e ↦
          let same : j ≡ k = ground (arith, string_eq.beq_iff j k, e) in
          let gone : lookup k m ≡ none = subst (λ i. lookup i m ≡ none) same u.0 in
          let named : (t.name == k) ≡ true = ap (λ n. n == k) a.0 ∙ e in
          rw (e, gone) (here ∙ rw named refl)
      | inr e ↦
          let named : (t.name == k) ≡ false = ap (λ n. n == k) a.0 ∙ e in
          rw e (ap (λ o. first_task (lookup k m) o) (here ∙ rw named refl))
    ]

-- What a restart finds under a name.
lookup-load :
    (k : String) (db : Assoc String ScheduledTask)
    → IsKeyed db
    → lookup k (load db).tasks ≡ lookup k db
unfolding load lookup
lookup-load k db v = lookup-load_rows k db [] v.names v.unique ∙ first_task-none (lookup k db)

load_rows-IsKeyed :
    (rows : List ScheduledTask) (acc : Assoc String ScheduledTask)
    → IsKeyed acc
    → IsKeyed (load_rows rows acc)
unfolding load_rows
load_rows-IsKeyed [] acc v = v
load_rows-IsKeyed (t ∷ rows) acc v =
    load_rows-IsKeyed rows (insert t.name t acc) (insert-IsKeyed t.name t acc refl v)

-- The table and the memory agree on every name.
pub record IsMirrored (s : Scheduler) : Type 0 where
  pub agree : (k : String) → lookup k s.db ≡ lookup k s.tasks
  pub tasks_keyed : IsKeyed s.tasks
  pub db_keyed : IsKeyed s.db

load-IsMirrored : (db : Assoc String ScheduledTask) → IsKeyed db → IsMirrored (load db)
unfolding load
load-IsMirrored db v = record {
  agree = λ k. sym (lookup-load k db v);
  tasks_keyed = load_rows-IsKeyed (values db) [] (record { names = tt; unique = tt });
  db_keyed = v;
}

insert-agree :
    (n : String) (t : ScheduledTask) (a b : Assoc String ScheduledTask)
    → ((k : String) → lookup k a ≡ lookup k b)
    → (k : String) → lookup k (insert n t a) ≡ lookup k (insert n t b)
insert-agree n t a b h k =
    lookup-insert n k t a
    ∙ ap (λ o. if n == k then some t else o) (h k)
    ∙ sym (lookup-insert n k t b)

remove-agree :
    (n : String) (a b : Assoc String ScheduledTask)
    → ((k : String) → lookup k a ≡ lookup k b)
    → (k : String) → lookup k (remove n a) ≡ lookup k (remove n b)
remove-agree n a b h k =
    lookup-remove n k a ∙ ap (λ o. if n == k then none else o) (h k) ∙ sym (lookup-remove n k b)

module _ (cron_after : String → Option (ℕ → Option ℕ)) where
  add-IsMirrored :
      (now : ℕ) (name cron command : String) (s : Scheduler)
      → IsMirrored s
      → IsMirrored (add cron_after now true name cron command s).0
  unfolding add
  add-IsMirrored now name cron command s v =
      elim (Bool-cases (is_parsed cron_after (cron_after cron))) [
        | inr e ↦ rw e v
        | inl e ↦
            let task : ScheduledTask = record {
              name = name;
              cron = cron;
              command = command;
              last_run = none;
              run_count = 0;
            } in
            rw e (record {
              agree = insert-agree name task s.db s.tasks v.agree;
              tasks_keyed = insert-IsKeyed name task s.tasks refl v.tasks_keyed;
              db_keyed = insert-IsKeyed name task s.db refl v.db_keyed;
            })
      ]

  remove_task-IsMirrored :
      (name : String) (s : Scheduler)
      → IsMirrored s
      → IsMirrored (remove_task cron_after true name s).0
  unfolding remove_task remove_found
  remove_task-IsMirrored name s v = elim (Option-cases (lookup name s.tasks)) [
    | inl e ↦ rw e v
    | inr (t, e) ↦ rw e (record {
      agree = remove-agree name s.db s.tasks v.agree;
      tasks_keyed = remove-IsKeyed name s.tasks v.tasks_keyed;
      db_keyed = remove-IsKeyed name s.db v.db_keyed;
    })
  ]

  fire-IsMirrored :
      (now : ℕ) (task : ScheduledTask) (s : Scheduler)
      → IsMirrored s
      → IsMirrored (fire cron_after now true task s)
  unfolding fire record_run db_update_stats update_found
  fire-IsMirrored now task s v = elim (Option-cases (lookup task.name s.tasks)) [
    | inl e ↦ rw e (record { agree = v.agree; tasks_keyed = v.tasks_keyed; db_keyed = v.db_keyed })
    | inr (t, e) ↦
        let row : lookup task.name s.db ≡ some t = v.agree task.name ∙ e in
        let named : t.name ≡ task.name = lookup-name task.name s.tasks t v.tasks_keyed.names e in
        let t' = set_stats now ((t.run_count + 1) % 2 ^ 64) t in
        rw (e, row)
          (record {
            agree = insert-agree task.name t' s.db s.tasks v.agree;
            tasks_keyed = insert-IsKeyed task.name t' s.tasks named v.tasks_keyed;
            db_keyed = insert-IsKeyed task.name t' s.db named v.db_keyed;
          })
  ]

  fire_all-IsMirrored :
      (now : ℕ) (due : List ScheduledTask) (s : Scheduler)
      → IsMirrored s
      → IsMirrored (fire_all cron_after now (λ n. true) due s).0
  unfolding fire_all
  fire_all-IsMirrored now [] s v = v
  fire_all-IsMirrored now (task ∷ due) s v =
      fire_all-IsMirrored now due (fire cron_after now true task s) (fire-IsMirrored now task s v)

  -- What peers and the clock do to the schedule; `seeds` is the start of `run`.
  pub data Operation : Type 0 where
    seeds : ℕ → Operation
    adds : ℕ → String → String → String → Operation
    removes : String → Operation
    ticks : ℕ → Operation

  -- A run in which every statement on the table succeeds.
  unfoldable pub run_all : List Operation → Scheduler → Scheduler
  unfolding add remove_task tick seed
  run_all [] s = s
  run_all (seeds now ∷ ops) s = run_all ops (seed now s)
  run_all (adds now name cron command ∷ ops) s =
      run_all ops (add cron_after now true name cron command s).0
  run_all (removes name ∷ ops) s = run_all ops (remove_task cron_after true name s).0
  run_all (ticks now ∷ ops) s = run_all ops (tick cron_after now (λ n. true) s).0

  run_all-IsMirrored :
      (ops : List Operation) (s : Scheduler) → IsMirrored s → IsMirrored (run_all ops s)
  unfolding run_all tick seed
  run_all-IsMirrored [] s v = v
  run_all-IsMirrored (seeds now ∷ ops) s v =
      run_all-IsMirrored ops (seed now s)
        (record { agree = v.agree; tasks_keyed = v.tasks_keyed; db_keyed = v.db_keyed })
  run_all-IsMirrored (adds now name cron command ∷ ops) s v =
      run_all-IsMirrored ops (add cron_after now true name cron command s).0
        (add-IsMirrored now name cron command s v)
  run_all-IsMirrored (removes name ∷ ops) s v =
      run_all-IsMirrored ops (remove_task cron_after true name s).0
        (remove_task-IsMirrored name s v)
  run_all-IsMirrored (ticks now ∷ ops) s v =
      run_all-IsMirrored ops (tick cron_after now (λ n. true) s).0
        (fire_all-IsMirrored now (select (is_due cron_after now s) (values s.tasks)) s v)

  -- The table implements the schedule: load it, seed the baselines, add, remove
  -- and fire tasks in any order, with no
  -- statement on the table failing, and stop; a restart then finds under each name the task that
  -- the memory held, with its statistics, and no other. The table's rows stand under their names,
  -- each once, when it is first loaded.
  pub restart-recovers :
      (db : Assoc String ScheduledTask) (ops : List Operation) (name : String)
      → IsKeyed db
      → lookup name (load (run_all ops (load db)).db).tasks
        ≡ lookup name (run_all ops (load db)).tasks
  restart-recovers db ops name v =
      let m = run_all-IsMirrored ops (load db) (load-IsMirrored db v) in
      lookup-load name (run_all ops (load db)).db m.db_keyed ∙ m.agree name

  -- `remove` forgets a task before it deletes the row. Where the deletion fails, the caller gets an
  -- error, the task is gone from memory, and the next restart brings it back.
  pub remove_failure-returns :
      (name : String) (task : ScheduledTask) (s : Scheduler)
      → IsMirrored s
      → lookup name s.tasks ≡ some task
      → let (s', error) = remove_task cron_after false name s in
        (error ≡ some db_failed)
        × (lookup name s'.tasks ≡ none)
        × (lookup name (load s'.db).tasks ≡ some task)
  unfolding remove_task remove_found
  remove_failure-returns name task s v h = rw h (
    refl,
    lookup-remove name name s.tasks ∙ ground (arith, string_eq.beq_iff name name),
    lookup-load name s.db v.db_keyed ∙ v.agree name ∙ h,
  )
