-- ===== src/Executable.antt =====
-- steady_queue/models/executable.py and schedulable.py: how a job gets its execution.
use steady_queue.Prelude.{
  ℕ, suc, Bool, true, false, ◌&&◌, ◌||◌, not, none, some, List, [], ◌∷◌, ◌++◌, map, ◌==◌, leb,
  if◌then◌else◌, filter, any, update_where, elem,
}
use steady_queue.Db.{
  Db, Job, ReadyExecution, ScheduledExecution, has_ready, has_scheduled, delete_jobs,
}
use steady_queue.Env.{Env}
use steady_queue.Action.{
  Action, ok, err, integrity_error, does_not_exist, pure, modify, ◌>>=◌, ◌>>◌,
}
use steady_queue.Locks.{is_concurrency_limited, acquire_concurrency_lock, block}
use steady_queue.Blocked.{unblock_next_blocked_job}

-- `ReadyExecution.attributes_from_job`, with the job.
abbrev pub ready_of : Job → ReadyExecution
ready_of job = record { job_id = job.id; queue_name = job.queue_name; priority = job.priority }

-- The `ready` property: `get_or_create`.
unfoldable pub ready : Job → Db → Db
ready job db =
    if has_ready db job.id then db else record db { ready = db.ready ++ ready_of job ∷ [] }

abbrev pub scheduled_of : Job → ℕ → ScheduledExecution
scheduled_of job at = record {
  job_id = job.id;
  queue_name = job.queue_name;
  priority = job.priority;
  scheduled_at = at;
}

-- `schedule`: `get_or_create`; the column refuses a null time.
unfoldable pub schedule : Job → Action (Unit {0})
schedule job db = if has_scheduled db job.id then (ok tt, db) else elim job.scheduled_at [
  | none ↦ (err integrity_error, db)
  | some at ↦ (ok tt, record db { scheduled = db.scheduled ++ scheduled_of job at ∷ [] })
]

-- `ReadyExecutionQuerySet.create_all_from_jobs`: one `bulk_create`, refused as a whole if a job has
-- a row already or is listed twice.
unfoldable pub repeats : List Job → Bool
repeats [] = false
repeats (j ∷ js) = if any (λ k. k.id == j.id) js then true else repeats js

unfoldable pub create_all_from_jobs : List Job → Action (Unit {0})
create_all_from_jobs jobs db =
    if any (λ j. has_ready db j.id) jobs
    then (err integrity_error, db)
    else if repeats jobs
    then (err integrity_error, db)
    else (ok tt, record db { ready = db.ready ++ map ready_of jobs })

module _ (env : Env) where
  unfoldable pub is_due : Job → Bool
  is_due job = elim job.scheduled_at [ none ↦ true | some at ↦ leb at env.now ]

  unfoldable pub dispatch : Job → Action (Unit {0})
  dispatch job = do
    granted ← acquire_concurrency_lock env job
    if granted then modify (ready job) else block env job

  unfoldable pub prepare_for_execution : Job → Action (Unit {0})
  prepare_for_execution job = if is_due job then dispatch job else schedule job

  unfoldable pub dispatch_all_one_by_one : List Job → Action (Unit {0})
  dispatch_all_one_by_one [] = pure tt
  dispatch_all_one_by_one (j ∷ js) = do dispatch j; dispatch_all_one_by_one js

  -- `successfully_dispatched`: the jobs with a ready execution, and those with a scheduled one.
  unfoldable pub successfully_dispatched : List Job → Db → List Job
  successfully_dispatched jobs db =
      filter (λ j. elem j.id (map (λ k. k.id) jobs) && (has_ready db j.id || has_scheduled db j.id))
        db.jobs

  unfoldable pub dispatch_all : List Job → Action (List Job)
  dispatch_all jobs = do
    create_all_from_jobs (filter (λ j. not (is_concurrency_limited j)) jobs)
    dispatch_all_one_by_one (filter is_concurrency_limited jobs)
    λ db. (ok (successfully_dispatched jobs db), db)

  -- `Job.save` of a new job: the row, and then `prepare_for_execution`.
  unfoldable pub create : Job → Action ℕ
  create draft = do
    id ← λ db. (
      ok db.next_id,
      record db {
        next_id = suc db.next_id;
        jobs = db.jobs ++ record draft { id = db.next_id } ∷ [];
      },
    )
    prepare_for_execution (record draft { id = id })
    pure id

  -- `ConcurrencyControls.delete`. `is_ready` reads `self.ready_execution`, which raises
  -- `DoesNotExist` where there is no row.
  unfoldable pub delete : Job → Action (Unit {0})
  delete job =
      if is_concurrency_limited job
      then (λ db.
          if has_ready db job.id
          then (do unblock_next_blocked_job env job; modify (delete_jobs (λ i. i == job.id))) db
          else (err does_not_exist, db))
      else modify (delete_jobs (λ i. i == job.id))

  -- `Executable.finished`
  unfoldable pub finished : Job → Action (Unit {0})
  finished job =
      if env.preserve_finished_jobs
      then modify (λ db. record db {
        jobs =
            update_where (λ j. j.id == job.id) (λ j. record j { finished_at = some env.now })
              db.jobs;
      })
      else delete job
