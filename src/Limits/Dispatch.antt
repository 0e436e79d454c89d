-- ===== src/Limits/Dispatch.antt =====
-- executable.py: what `dispatch` does to a job with no ready and no blocked execution.
use steady_queue.Prelude.{
  ℕ, ◌+◌, String, ◌≡◌, false, Option, none, some, List, [], ◌∷◌, ◌++◌, arith, ◌==◌, if◌then◌else◌,
  count_if-append, Bool-cases, Option-cases, inl, inr, refl,
}
use steady_queue.Db.{Db, Job, BlockedExecution, get_job, has_ready, has_blocked}
use steady_queue.Env.{Env}
use steady_queue.Action.{ok}
use steady_queue.Locks.{new_blocked, block}
use steady_queue.Executable.{ready_of, ready, dispatch}
use steady_queue.Limits.{key_of, holds, holders, executions, slot, Agrees, Core}
use steady_queue.Limits.Acquire.{
  IsReadable, expiry, acquired, acquire_concurrency_lock_lem, acquired-IsUnique, acquired-Fits,
}

module _ (env : Env) (job : Job) where
  abbrev blocked_rows : Option String → List BlockedExecution
  blocked_rows none = []
  blocked_rows (some k) = new_blocked job k (expiry env job) ∷ []

  -- The database after `dispatch`: a ready row if the lock was granted, or else a blocked one.
  pub dispatched : Db → Db
  dispatched db =
      let w = acquired env job db.semaphores in
      if w.0
      then record db { semaphores = w.1; ready = db.ready ++ ready_of job ∷ [] }
      else record db { semaphores = w.1; blocked = db.blocked ++ blocked_rows job.concurrency_key }

  block_lem :
      (db : Db)
      → has_blocked db job.id ≡ false
      → (k : String) → job.concurrency_key ≡ some k
      → IsReadable env job
      → block env job db
        ≡ (ok tt, record db { blocked = db.blocked ++ blocked_rows job.concurrency_key })
  unfolding block
  block_lem db no_blocked k keyed readable = rw (no_blocked, keyed, readable k keyed) refl

  -- Where a job has neither a ready nor a blocked execution, and its class can be read if it is
  -- limited, `dispatch` raises nothing. It adds a ready one if the job is not limited or gets a
  -- slot, and else a blocked one.
  pub dispatch_lem :
      (db : Db)
      → IsReadable env job
      → has_ready db job.id ≡ false
      → has_blocked db job.id ≡ false
      → dispatch env job db ≡ (ok tt, dispatched db)
  unfolding dispatch dispatched ready has_ready has_blocked
  dispatch_lem db readable no_ready no_blocked = elim (Option-cases job.concurrency_key) [
    | inl keyless ↦ rw (acquire_concurrency_lock_lem env job db readable, keyless, no_ready) refl
    | inr (k, keyed) ↦ elim (Bool-cases (acquired env job db.semaphores).0) [
      | inl granted ↦ rw (acquire_concurrency_lock_lem env job db readable, granted, no_ready) refl
      | inr denied ↦
          rw (acquire_concurrency_lock_lem env job db readable, denied)
            (block_lem (record db { semaphores = (acquired env job db.semaphores).1 }) no_blocked k
              keyed readable)
    ]
  ]

  pub executions-dispatched :
      (i : ℕ) (db : Db)
      → executions i (dispatched db) ≡ executions i db + (if job.id == i then 1 else 0)
  unfolding dispatched
  executions-dispatched i db = ground (
    arith,
    count_if-append (λ r. r.job_id == i) db.ready (ready_of job ∷ []),
    count_if-append (λ r. r.job_id == i) db.blocked (blocked_rows job.concurrency_key),
  )

  -- What `dispatch` leaves as it was.
  pub jobs-dispatched : (db : Db) → (dispatched db).jobs ≡ db.jobs
  unfolding dispatched
  jobs-dispatched db = ground arith

  pub next_id-dispatched : (db : Db) → (dispatched db).next_id ≡ db.next_id
  unfolding dispatched
  next_id-dispatched db = ground arith

  pub claimed-dispatched : (db : Db) → (dispatched db).claimed ≡ db.claimed
  unfolding dispatched
  claimed-dispatched db = ground arith

  pub failed-dispatched : (db : Db) → (dispatched db).failed ≡ db.failed
  unfolding dispatched
  failed-dispatched db = ground arith

  pub scheduled-dispatched : (db : Db) → (dispatched db).scheduled ≡ db.scheduled
  unfolding dispatched
  scheduled-dispatched db = ground arith

  semaphores-dispatched :
      (db : Db) → (dispatched db).semaphores ≡ (acquired env job db.semaphores).1
  unfolding dispatched
  semaphores-dispatched db = ground arith

  ready-dispatched :
      (db : Db)
      → (dispatched db).ready
        ≡ (if (acquired env job db.semaphores).0 then db.ready ++ ready_of job ∷ [] else db.ready)
  unfolding dispatched
  ready-dispatched db = ground arith

  holders-dispatched :
      (k : String) (db : Db)
      → key_of (get_job job.id db.jobs) ≡ job.concurrency_key
      → holders k (dispatched db)
        ≡ holders k db
          + (if (acquired env job db.semaphores).0 then slot k job.concurrency_key else 0)
  holders-dispatched k db known =
      rw (jobs-dispatched db, claimed-dispatched db, ready-dispatched db)
        (elim (Bool-cases (acquired env job db.semaphores).0) [
          | inl granted ↦ rw granted (
              ground (
                arith,
                known,
                count_if-append (λ r. holds k db.jobs r.job_id) db.ready (ready_of job ∷ []),
              ))
          | inr denied ↦ rw denied (omega arith)
        ])

module _ (limits : String → ℕ) (env : Env) (job : Job) (db : Db) where
  -- The slots of every key stay within its limit.
  pub dispatched-Core :
      Agrees env.job_class limits job
      → key_of (get_job job.id db.jobs) ≡ job.concurrency_key
      → Core env.job_class limits db
      → Core env.job_class limits (dispatched env job db)
  dispatched-Core agrees known core = record {
    unique =
        rw (semaphores-dispatched env job db) (acquired-IsUnique env job db.semaphores core.unique);
    agree = rw (jobs-dispatched env job db) core.agree;
    ids_below = rw (jobs-dispatched env job db, next_id-dispatched env job db) core.ids_below;
    fits = λ k.
        rw (semaphores-dispatched env job db, holders-dispatched env job k db known)
          (acquired-Fits limits env job db.semaphores (λ j. holders j db) agrees core.fits k);
  }
