-- ===== src/Recurring/Once.antt =====
-- recurring_task.py: however many schedulers run, a recurring task has one job for each time.
use steady_queue.Prelude.{ℕ, String, ◌≡◌, some, [], ◌∷◌, ◌++◌}
use steady_queue.Env.{Env}
use steady_queue.Db.{Db, Job}
use steady_queue.Backend.{Task, steady_queue_task, attributes_of}
use steady_queue.Limits.Create.{created_db}
use steady_queue.Recurring.{RecurringTask, Tables, using}

module _ {A : Type 0} (env : Env) (recurring : RecurringTask) (run_at : ℕ) (task : Task A)
    (args : A) (limits : String → ℕ) (draft : Job)
    (made : attributes_of env (steady_queue_task (using recurring task)) args ≡ some draft) where
  abbrev recorded_tables : Tables → Tables
  recorded_tables s = record s {
    db = created_db env draft s.db;
    recurring_executions =
        s.recurring_executions
        ++ record { task_key = recurring.key; run_at = run_at; job_id = s.db.next_id } ∷ [];
  }
