-- ===== src/Clearing.antt =====
-- steady_queue/models/clearable.py: finished jobs are deleted in batches.
pub mod Complete
use steady_queue.Prelude.{
  ℕ, zero, suc, ◌+◌, String, Bool, true, false, ◌&&◌, Option, none, some, List, map, ◌==◌, ltb,
  str_eq, if◌then◌else◌, filter, count_if, elem, take,
}
use steady_queue.Db.{Db, Job, delete_jobs}

abbrev finished_before : ℕ → Option ℕ → Bool
finished_before at none = false
finished_before at (some finished_at) = ltb finished_at at

abbrev of_class : Option String → String → Bool
of_class none name = true
of_class (some wanted) name = str_eq name wanted

-- The arguments that the loop passes to `clearable`. Without a time it is the clock less
-- `clear_finished_jobs_after`, which the argument holds already.
pub record Filter : Type 0 where
  pub finished_before : ℕ
  pub class_name : Option String

-- `clearable`, as a test on a row.
unfoldable pub clearable : Filter → Job → Bool
clearable f j =
    finished_before f.finished_before j.finished_at && of_class f.class_name j.class_name

-- `list(self.clearable(...)[:batch_size].values_list("pk"))`
unfoldable pub next_ids : Filter → (batch_size : ℕ) → Db → List ℕ
unfolding clearable
next_ids f batch_size db = map (λ j. j.id) (take batch_size (filter (clearable f) db.jobs))

-- The rows that the deletion of some jobs takes, in all tables.
unfoldable pub deleted_rows : List ℕ → Db → ℕ
deleted_rows gone db =
    count_if (λ j. elem j.id gone) db.jobs
    + count_if (λ r. elem r.job_id gone) db.ready
    + count_if (λ r. elem r.job_id gone) db.claimed
    + count_if (λ r. elem r.job_id gone) db.failed
    + count_if (λ r. elem r.job_id gone) db.scheduled
    + count_if (λ r. elem r.job_id gone) db.blocked

-- The loop, for at most `fuel` rounds; `none` where they do not suffice.
unfoldable pub clear_finished_in_batches : (fuel : ℕ) → Filter → (batch_size : ℕ) → Db → Option Db
unfolding next_ids deleted_rows delete_jobs
clear_finished_in_batches zero f batch_size db = none
clear_finished_in_batches (suc fuel) f batch_size db =
    let gone = next_ids f batch_size db in
    let after = delete_jobs (λ i. elem i gone) db in
    let rest = clear_finished_in_batches fuel f batch_size after in
    if deleted_rows gone db == 0 then some after else rest
