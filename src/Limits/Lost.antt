-- ===== src/Limits/Lost.antt =====
-- blocked_execution.py: the queue and the priority of a job that was blocked.
use steady_queue.Prelude.{refl, String, ◌≡◌, true, false, some, [], ◌∷◌, ◌++◌}
use steady_queue.Prelude.Int.{pos}
use steady_queue.Db.{Db, Job, get_job, has_ready, has_blocked}
use steady_queue.Env.{Env}
use steady_queue.Action.{ok}
use steady_queue.Locks.{block, new_blocked, expires_at}
use steady_queue.Blocked.{release}
use steady_queue.Limits.Acquire.{expiry, acquired}
use steady_queue.Limits.Release.{release_lem, ready-released_db}

module _ (env : Env) (job : Job) (key : String) (db : Db) where
  block_lem :
      job.concurrency_key ≡ some key
      → expires_at env job ≡ ok (expiry env job)
      → has_blocked db job.id ≡ false
      → block env job db
        ≡ (ok tt, record db { blocked = db.blocked ++ new_blocked job key (expiry env job) ∷ [] })
  unfolding block
  block_lem keyed readable no_blocked = rw (no_blocked, keyed, readable) refl

  -- A limited job that is blocked, and then released when a slot is free, is ready in the queue ""
  -- with priority 0, whatever its own queue and priority are. It had no blocked and no ready
  -- execution before, and its class can be read.
  pub release-block :
      get_job job.id db.jobs ≡ some job
      → job.concurrency_key ≡ some key
      → expires_at env job ≡ ok (expiry env job)
      → has_blocked db job.id ≡ false
      → has_ready db job.id ≡ false
      → (acquired env job db.semaphores).0 ≡ true
      → (release env (new_blocked job key (expiry env job)) (block env job db).1).1.ready
        ≡ db.ready ++ record { job_id = job.id; queue_name = ""; priority = pos 0 } ∷ []
  unfolding has_ready
  release-block known keyed readable no_blocked no_ready free =
      let blocked_db : Db = record db {
        blocked = db.blocked ++ new_blocked job key (expiry env job) ∷ [];
      } in
      rw (
        block_lem keyed readable no_blocked,
        release_lem env (new_blocked job key (expiry env job)) job key blocked_db known keyed
            readable no_ready,
        ready-released_db env (new_blocked job key (expiry env job)) job blocked_db,
        free,
      )
