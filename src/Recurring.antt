-- ===== src/Recurring.antt =====
-- steady_queue/models/recurring_task.py and recurring_execution.py, and the persistence of
-- steady_queue/recurring_schedule.py: the jobs of recurring tasks.
pub mod Once
pub mod Persisted
pub mod Configured
use steady_queue.Prelude.{
  ℕ, zero, suc, String, Bool, true, false, ◌&&◌, ◌||◌, not, Option, none, some, List, [], ◌∷◌, ◌++◌,
  map, ◌==◌, str_eq, if◌then◌else◌, filter, any,
}
use steady_queue.Prelude.Int.{ℤ}
use steady_queue.Db.{Db}
use steady_queue.Env.{Env}
use steady_queue.Backend.{Task, steady_queue_task, ResultStatus, enqueue}

-- `arguments` is the text of the JSON column.
pub record RecurringTask : Type 0 where
  pub key : String
  pub schedule : String
  pub command : Option String
  pub class_name : String
  pub arguments : Option String
  pub queue_name : Option String
  pub priority : ℤ
  pub static : Bool
  pub description : Option String

pub record RecurringExecution : Type 0 where
  pub task_key : String
  pub run_at : ℕ
  pub job_id : ℕ

-- The database with the tables of the recurring tasks.
pub record Tables : Type 0 where
  pub db : Db
  pub recurring_tasks : List RecurringTask
  pub recurring_executions : List RecurringExecution

abbrev pub same_run : String → ℕ → RecurringExecution → Bool
same_run key run_at e = str_eq e.task_key key && e.run_at == run_at

-- `RecurringExecutionQuerySet.record`: a `create` that the unique constraints refuse where the task
-- has been recorded for the time, or the job has been recorded; `none` is `AlreadyRecorded`.
unfoldable pub record_run :
    String → ℕ → (job_id : ℕ) → List RecurringExecution → Option (List RecurringExecution)
record_run key run_at job_id es =
    if any (same_run key run_at) es || any (λ e. e.job_id == job_id) es
    then none
    else some (es ++ record { task_key = key; run_at = run_at; job_id = job_id } ∷ [])

abbrev or_else : {A : Type 0} → Option A → Option A → Option A
or_else none b = b
or_else (some a) b = some a

-- `self.job_class.using(queue_name=..., priority=...)`: what is not none replaces the task's own.
unfoldable pub using : {A : Type 0} → RecurringTask → Task A → Task A
using recurring task = record task {
  queue_name = or_else recurring.queue_name task.queue_name;
  priority = some recurring.priority;
}

-- What `enqueue` comes to: the id and the status of a job, `False`, or an exception.
pub data Outcome : Type 0 where
  enqueued : (job_id : ℕ) → ResultStatus → Outcome
  already_recorded raised : Outcome

abbrev pub listed : List RecurringTask → String → Bool
listed tasks key = any (λ t. str_eq t.key key) tasks

-- The end of the transaction, which checks the foreign key of the new row.
abbrev pub committed : (task_exists : Bool) → ℕ × ResultStatus → Tables → Tables → Outcome × Tables
committed true result after before = (enqueued result.0 result.1, after)
committed false result after before = (raised, before)

abbrev pub recorded :
    String → Option (List RecurringExecution) → ℕ × ResultStatus → Db → Tables → Outcome × Tables
recorded key none result db before = (already_recorded, before)
recorded key (some es) result db before =
    committed (listed before.recurring_tasks key) result
      (record before { db = db; recurring_executions = es }) before

abbrev pub recording : String → ℕ → Option (ℕ × ResultStatus) → Db → Tables → Outcome × Tables
recording key run_at none db before = (raised, before)
recording key run_at (some result) db before =
    recorded key (record_run key run_at result.0 before.recurring_executions) result db before

-- `RecurringTask.enqueue`, with `enqueue_and_record`: one transaction, which an exception undoes.
-- `task` is what `job_class` gives and `args` the deserialised arguments; none of these exist where
-- their look-up raises.
unfoldable pub enqueue_run :
    {A : Type 0}
    → Env
    → RecurringTask
    → (run_at : ℕ) → Option (Task A × A)
    → Tables
    → Outcome × Tables
unfolding record_run using
enqueue_run env recurring run_at none before = (raised, before)
enqueue_run env recurring run_at (some (task, args)) before =
    let r = enqueue env (steady_queue_task (using recurring task)) args before.db in
    recording recurring.key run_at r.0 r.1 before

-- `create_or_update_all`: a row of a listed key takes the new columns, and new keys are added.
unfoldable pub upsert : RecurringTask → List RecurringTask → List RecurringTask
upsert task [] = task ∷ []
upsert task (t ∷ ts) =
    let rest = upsert task ts in if str_eq t.key task.key then task ∷ ts else t ∷ rest

unfoldable pub create_or_update_all : List RecurringTask → List RecurringTask → List RecurringTask
unfolding upsert
create_or_update_all [] rows = rows
create_or_update_all (t ∷ ts) rows = create_or_update_all ts (upsert t rows)

-- `RecurringSchedule.persist_tasks`: the static tasks that are not configured any more are deleted,
-- with their recurring executions.
unfoldable pub persist_tasks : List RecurringTask → Tables → Tables
unfolding create_or_update_all
persist_tasks configured before =
    let gone : RecurringTask → Bool = λ t. t.static && not (listed configured t.key) in
    record before {
      recurring_tasks =
          create_or_update_all configured (filter (λ t. not (gone t)) before.recurring_tasks);
      recurring_executions =
          filter (λ e. not (any (λ t. gone t && str_eq t.key e.task_key) before.recurring_tasks))
            before.recurring_executions;
    }
