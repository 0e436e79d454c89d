-- ===== src/Discarding.antt =====
-- steady_queue/models/execution.py: failed jobs are discarded in batches, as the admin site does.
pub mod Batches
use steady_queue.Prelude.{
  ℕ, zero, suc, ◌+◌, Bool, Option, none, some, List, map, ◌==◌, leb, if◌then◌else◌, filter,
  count_if, elem, take, sort_by,
}
use steady_queue.Db.{Db, FailedExecution, delete_jobs}

abbrev by_job : FailedExecution → FailedExecution → Bool
by_job a b = leb a.job_id b.job_id

-- `discard_jobs`: the number of the jobs that the deletion takes, without the rows it cascades to.
unfoldable pub discard_jobs : List ℕ → Db → ℕ × Db
unfolding delete_jobs
discard_jobs job_ids db =
    (count_if (λ j. elem j.id job_ids) db.jobs, delete_jobs (λ i. elem i job_ids) db)

module _ (selected : FailedExecution → Bool) (batch_size : ℕ) where
  -- `self.order_by("job_id").select_for_update()[:batch_size]`, as the ids of the jobs.
  unfoldable pub to_discard : Db → List ℕ
  to_discard db = map (λ f. f.job_id) (take batch_size (sort_by by_job (filter selected db.failed)))

  -- The loop, for at most `fuel` rounds. `counted` is `pending` at the start: it is 0 now where as
  -- many jobs are discarded.
  unfoldable pub discard_rounds : (fuel : ℕ) → (counted total_discarded : ℕ) → Db → Option (ℕ × Db)
  discard_rounds zero counted total_discarded db = none
  discard_rounds (suc fuel) counted total_discarded db =
      let discarded = discard_jobs (to_discard db) db in
      let total = total_discarded + discarded.0 in
      let rest = discard_rounds fuel counted total discarded.1 in
      if counted == total
      then some (total, discarded.1)
      else if discarded.0 == 0
      then some (total, discarded.1)
      else rest

  -- `discard_in_batches` of the selected failed executions.
  unfoldable pub discard_in_batches : (fuel : ℕ) → Db → Option (ℕ × Db)
  discard_in_batches fuel db = discard_rounds fuel (count_if selected db.failed) 0 db
