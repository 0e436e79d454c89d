-- ===== src/Claimed.antt =====
-- steady_queue/models/claimed_execution.py, and `failed_with` of models/retryable.py.
use steady_queue.Prelude.{
  ℕ, String, Bool, true, false, ◌&&◌, none, some, List, [], ◌∷◌, ◌++◌, map, ◌==◌, str_eq,
  if◌then◌else◌, filter, any, elem,
}
use steady_queue.Db.{Job, ClaimedExecution, get_job, has_claimed, has_failed, delete_claimed}
use steady_queue.Env.{Env}
use steady_queue.Action.{
  Action, Error, ok, err, integrity_error, value_error, unknown_task_class, pure, raise, modify,
  gets, found, atomic, try_except, try_finally, ◌>>=◌, ◌>>◌,
}
use steady_queue.Blocked.{unblock_next_blocked_job}
use steady_queue.Executable
use steady_queue.Executable.{ready}

-- `orphaned`, as a test on a row.
unfoldable pub orphaned : ClaimedExecution → Bool
orphaned c = elim c.process_id [ none ↦ true | some p ↦ false ]

-- Does the row belong to the process?
unfoldable pub claimed_by : (process_id : ℕ) → ClaimedExecution → Bool
claimed_by p c = elim c.process_id [ none ↦ false | some q ↦ q == p ]

unfoldable pub repeated : List ℕ → Bool
repeated [] = false
repeated (i ∷ is) = if elem i is then true else repeated is

abbrev pub new_claim : (process_id : ℕ) → ℕ → ClaimedExecution
new_claim p i = record { job_id = i; process_id = some p }

-- `claiming`: one `bulk_create`, then the rows that the filter finds.
unfoldable pub claiming : List ℕ → (process_id : ℕ) → Action (List ClaimedExecution)
unfolding has_claimed repeated claimed_by
claiming job_ids p db =
    if any (has_claimed db) job_ids
    then (err integrity_error, db)
    else if repeated job_ids
    then (err integrity_error, db)
    else let rows = db.claimed ++ map (new_claim p) job_ids in
      (
        ok (filter (λ c. elem c.job_id job_ids && claimed_by p c) rows),
        record db { claimed = rows },
      )

-- `Retryable.failed_with`: `get_or_create` by the job and the text of the error.
unfoldable pub record_failure : ℕ → String → Action (Unit {0})
unfolding has_failed
record_failure i error db =
    if any (λ f. f.job_id == i && str_eq f.error error) db.failed
    then (ok tt, db)
    else if has_failed db i
    then (err integrity_error, db)
    else (ok tt, record db { failed = db.failed ++ record { job_id = i; error = error } ∷ [] })

-- `ClaimedExecution.failed_with`
unfoldable pub failed_with : ℕ → String → Action (Unit {0})
failed_with i error = atomic (do record_failure i error; modify (delete_claimed i))

-- `ClaimedExecution.release`: back to the ready queue, with no regard to the concurrency limits.
unfoldable pub release : ClaimedExecution → Action (Unit {0})
release c = atomic (do
  job ← λ db. found (get_job c.job_id db.jobs) db
  modify (ready job)
  modify (delete_claimed c.job_id))

-- `release_all`, over the rows of a queryset.
unfoldable pub release_each : List ClaimedExecution → Action (Unit {0})
release_each [] = pure tt
release_each (c ∷ cs) = do release c; release_each cs

unfoldable pub release_all : (ClaimedExecution → Bool) → Action (Unit {0})
release_all listed = do rows ← gets (λ db. filter listed db.claimed); release_each rows

-- What running the job's task comes to. `unreadable` is an exception of the two deserialisations,
-- which stand before the `try`; `raised` has the text of the exception of `task.func`.
pub data Outcome : Type 0 where
  unreadable returned : Outcome
  raised : String → Outcome

module _ (env : Env) where
  -- `ClaimedExecution.unblock_next_job`
  unfoldable pub unblock_next_job : ℕ → Action (Unit {0})
  unblock_next_job i = do job ← λ db. found (get_job i db.jobs) db; unblock_next_blocked_job env job

  unfoldable pub fail_each : String → List ClaimedExecution → Action (Unit {0})
  fail_each error [] = pure tt
  fail_each error (c ∷ cs) = do
    failed_with c.job_id error
    unblock_next_job c.job_id
    fail_each error cs

  -- `fail_all_with`, over the rows of a queryset.
  unfoldable pub fail_all_with : String → (ClaimedExecution → Bool) → Action (Unit {0})
  fail_all_with error listed = do rows ← gets (λ db. filter listed db.claimed); fail_each error rows

  -- `ClaimedExecution.finished`
  unfoldable pub finished : Job → Action (Unit {0})
  finished job = atomic (do Executable.finished env job; modify (delete_claimed job.id))

  -- The `try`, `except` and `finally` of `perform`; `text` is the text of a caught exception.
  -- `self.job` was read before: it is a value, and its row may be gone by the `finally`.
  unfoldable pub perform : (text : Error → String) → Outcome → Job → Action (Unit {0})
  perform text unreadable job = raise unknown_task_class
  perform text returned job =
      try_finally (try_except (finished job) (λ e. failed_with job.id (text e)))
        (unblock_next_blocked_job env job)
  perform text (raised error) job =
      try_finally (failed_with job.id error) (unblock_next_blocked_job env job)

-- `discard_in_batches` of a claimed queryset.
unfoldable pub discard_in_batches : Action ℕ
discard_in_batches = raise value_error
