-- ===== src/Limits/Frame.antt =====
-- What unblocking leaves as it was: the jobs, their claimed, failed and scheduled executions, and
-- the processes.
use steady_queue.Prelude.{String, ◌≡◌, refl, Option, none, some, arith}
use steady_queue.Db.{Db, Job, BlockedExecution, get_job, delete_blocked}
use steady_queue.Env.{Env}
use steady_queue.Action.{gets, found, ◌>>=◌, pure}
use steady_queue.Action.Preserves.{Preserves, Preserves-atomic, Preserves-bind, Preserves-if}
use steady_queue.Locks.{wait_for, release_concurrency_lock}
use steady_queue.Blocked.{
  promote_to_ready, release, next_blocked, release_next, release_one, unblock_next_blocked_job,
  release_next_blocked_job,
}
use steady_queue.Claimed.{unblock_next_job}
use steady_queue.Prelude.{ℕ}

-- The tables that unblocking does not write.
pub record SameJobs (before db : Db) : Type 0 where
  pub jobs : db.jobs ≡ before.jobs
  pub next_id : db.next_id ≡ before.next_id
  pub claimed : db.claimed ≡ before.claimed
  pub failed : db.failed ≡ before.failed
  pub scheduled : db.scheduled ≡ before.scheduled
  pub processes : db.processes ≡ before.processes

pub SameJobs-refl : (db : Db) → SameJobs db db
SameJobs-refl db = record {
  jobs = refl;
  next_id = refl;
  claimed = refl;
  failed = refl;
  scheduled = refl;
  processes = refl;
}

module _ (before : Db) (env : Env) where
  promote_to_ready-SameJobs :
      (b : BlockedExecution) → Preserves (SameJobs before) (promote_to_ready b)
  unfolding promote_to_ready
  promote_to_ready-SameJobs b db same = ground arith

  wait_for-SameJobs : (job : Job) → Preserves (SameJobs before) (wait_for env job)
  unfolding wait_for
  wait_for-SameJobs job db same = ground arith

  release-SameJobs : (b : BlockedExecution) → Preserves (SameJobs before) (release env b)
  unfolding release delete_blocked promote_to_ready wait_for
  release-SameJobs b db same = ground arith

  release_next-SameJobs :
      (o : Option BlockedExecution) → Preserves (SameJobs before) (release_next env o)
  unfolding release_next
  release_next-SameJobs none db same = same
  release_next-SameJobs (some b) db same = release-SameJobs b db same

  release_one-SameJobs : (k : String) → Preserves (SameJobs before) (release_one env k)
  unfolding release_one
  release_one-SameJobs k =
      Preserves-atomic (SameJobs before) (gets (next_blocked env k) >>= release_next env)
        (λ db same. release_next-SameJobs (next_blocked env k db) db same)

  release_next_blocked_job-SameJobs :
      (o : Option String) → Preserves (SameJobs before) (release_next_blocked_job env o)
  unfolding release_next_blocked_job
  release_next_blocked_job-SameJobs none = λ db same. same
  release_next_blocked_job-SameJobs (some k) =
      Preserves-bind (SameJobs before) (release_one env k) _ (release_one-SameJobs k)
        (λ r db same. same)

  release_concurrency_lock-SameJobs :
      (job : Job) → Preserves (SameJobs before) (release_concurrency_lock env job)
  unfolding release_concurrency_lock
  release_concurrency_lock-SameJobs job db same = ground arith

  pub unblock_next-SameJobs :
      (job : Job) → Preserves (SameJobs before) (unblock_next_blocked_job env job)
  unfolding unblock_next_blocked_job
  unblock_next-SameJobs job =
      Preserves-bind (SameJobs before) (release_concurrency_lock env job) _
        (release_concurrency_lock-SameJobs job)
        (λ b.
          Preserves-if (SameJobs before) b (release_next_blocked_job env job.concurrency_key)
            (pure tt) (release_next_blocked_job-SameJobs job.concurrency_key) (λ db same. same))

  found-SameJobs :
      (i : ℕ) (o : Option Job)
      → Preserves (SameJobs before) (found o >>= unblock_next_blocked_job env)
  found-SameJobs i none db same = same
  found-SameJobs i (some job) db same = unblock_next-SameJobs job db same

  pub unblock_next_job-SameJobs : (i : ℕ) → Preserves (SameJobs before) (unblock_next_job env i)
  unfolding unblock_next_job
  unblock_next_job-SameJobs i db same = found-SameJobs i (get_job i db.jobs) db same
