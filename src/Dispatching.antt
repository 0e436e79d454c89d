-- ===== src/Dispatching.antt =====
-- steady_queue/models/dispatching.py, scheduled_execution.py and failed_execution.py: jobs that are
-- dispatched again, in batches or one by one.
use steady_queue.Prelude.{
  ℕ, Bool, ◌&&◌, ◌||◌, not, List, [], ◌∷◌, map, ◌==◌, ltb, leb, if◌then◌else◌, filter, find?, elem,
  take, sort_by, count_if,
}
use steady_queue.Prelude.Int.{ltb_ℤ}
use steady_queue.Db.{
  Db, Job, ScheduledExecution, FailedExecution, get_job, has_failed, delete_failed,
}
use steady_queue.Env.{Env}
use steady_queue.Action.{
  Action, ok, err, does_not_exist, pure, modify, gets, found, atomic, ◌>>=◌, ◌>>◌,
}
use steady_queue.Executable.{dispatch_all, prepare_for_execution}

abbrev pub ids : List Job → List ℕ
ids jobs = map (λ j. j.id) jobs

abbrev pub rows_of : List ℕ → Db → List Job
rows_of job_ids db = filter (λ j. elem j.id job_ids) db.jobs

-- `ScheduledExecutionQuerySet.due`, as a test on a row, and its `in_order`.
unfoldable pub due : (now : ℕ) → ScheduledExecution → Bool
due now s = leb s.scheduled_at now

abbrev pub scheduled_order : ScheduledExecution → ScheduledExecution → Bool
scheduled_order a b =
    ltb a.scheduled_at b.scheduled_at
    || (a.scheduled_at == b.scheduled_at
        && (ltb_ℤ b.priority a.priority
            || (not (ltb_ℤ a.priority b.priority) && leb a.job_id b.job_id)))

-- `cls.objects.filter(job_id__in=...).delete()`, with the number of rows deleted.
unfoldable pub delete_scheduled : List ℕ → Action ℕ
delete_scheduled gone db = (
  ok (count_if (λ s. elem s.job_id gone) db.scheduled),
  record db { scheduled = filter (λ s. not (elem s.job_id gone)) db.scheduled },
)

unfoldable pub delete_failed_of : List ℕ → Action ℕ
delete_failed_of gone db = (
  ok (count_if (λ f. elem f.job_id gone) db.failed),
  record db { failed = filter (λ f. not (elem f.job_id gone)) db.failed },
)

-- `BaseModel.lock` of models/base.py reads the row again, which raises if it is gone.
unfoldable pub lock_failed : FailedExecution → Action (Unit {0})
unfolding has_failed
lock_failed f db = if has_failed db f.job_id then (ok tt, db) else (err does_not_exist, db)

module _ (env : Env) where
  -- `next_batch(n).select_for_update(skip_locked=True)`, as the ids of the jobs.
  unfoldable pub next_batch : ℕ → Db → List ℕ
  unfolding due
  next_batch batch_size db =
      map (λ s. s.job_id)
        (take batch_size (
          sort_by scheduled_order
            (filter (λ s. due env.now s && not (env.locked_scheduled s.job_id)) db.scheduled)))

  -- `Dispatching.dispatch_jobs` of a scheduled execution; the number of rows deleted.
  unfoldable pub dispatch_scheduled : List ℕ → Action ℕ
  dispatch_scheduled job_ids = do
    dispatched ← λ db. dispatch_all env (rows_of job_ids db) db
    delete_scheduled (ids dispatched)

  unfoldable pub dispatch_batch : List ℕ → Action ℕ
  dispatch_batch [] = pure 0
  dispatch_batch (i ∷ is) = dispatch_scheduled (i ∷ is)

  unfoldable pub dispatch_next_batch : (batch_size : ℕ) → Action ℕ
  dispatch_next_batch batch_size =
      atomic (do job_ids ← gets (next_batch batch_size); dispatch_batch job_ids)

  -- `Dispatching.dispatch_jobs` of a failed execution.
  unfoldable pub dispatch_failed : List ℕ → Action ℕ
  dispatch_failed job_ids = do
    dispatched ← λ db. dispatch_all env (rows_of job_ids db) db
    delete_failed_of (ids dispatched)

  -- `retry_all`: `lock_all_from_jobs` gives the listed jobs that have failed.
  unfoldable pub retry_all : List Job → Action ℕ
  retry_all jobs = atomic (do
    job_ids ← gets (λ db. map (λ f. f.job_id) (filter (λ f. elem f.job_id (ids jobs)) db.failed))
    dispatch_failed job_ids)

  -- `FailedExecution.retry`. `reset_execution_counters` saves the columns of the job as they are.
  unfoldable pub retry : FailedExecution → Action (Unit {0})
  retry f = atomic (do
    lock_failed f
    job ← λ db. found (get_job f.job_id db.jobs) db
    prepare_for_execution env job
    modify (delete_failed f.job_id))

  -- `FailedExecutionQuerySet.retry` of the selected failed executions.
  unfoldable pub retry_selected : (selected : FailedExecution → Bool) → Action ℕ
  retry_selected selected = do
    jobs ← gets (λ db. rows_of (map (λ f. f.job_id) (filter selected db.failed)) db)
    retry_all jobs

  -- `Retryable.retry` of a job. Reading `self.failed_execution` raises `DoesNotExist` where there is
  -- no row, so that the test after it never fails.
  unfoldable pub retry_job : Job → Action (Unit {0})
  retry_job job = do f ← λ db. found (find? (λ r. r.job_id == job.id) db.failed) db; retry f
