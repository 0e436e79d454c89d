-- ===== src/Limits/Perform.antt =====
-- claimed_execution.py: `perform`, `fail_all_with` and `release_all` keep the invariant.
use steady_queue.Prelude.{
  ℕ, ◌<◌, String, ◌≡◌, refl, sym, subst, false, none, arith, Bool-cases, inl, inr,
}
use steady_queue.Db.{Db, Job, get_job}
use steady_queue.Env.{Env}
use steady_queue.Action.{
  Action, Error, Result, ok, err, does_not_exist, finish, try_except, try_finally,
}
use steady_queue.Blocked.{unblock_next_blocked_job}
use steady_queue.Locks.{is_concurrency_limited}
use steady_queue.Claimed
use steady_queue.Claimed.{
  Outcome, unreadable, returned, raised, perform, failed_with, unblock_next_job, fail_each,
  fail_all_with,
}
use steady_queue.Limits.{key_of, Agrees, Inv, Owed}
use steady_queue.Limits.Unblock.{unblock_next-Inv}
use steady_queue.Limits.Leave.{claims, failed_db, failed_with_lem, only_claimed, failed_db-Owed}
use steady_queue.Limits.Finish.{
  finished_db, finished_lem, finished_limited, finished_unlimited, deleted_db, finished_db-Owed,
  deleted_db-Owed,
}

-- The database of a `finally` does not depend on how it ended.
finish-db : {A : Type 0} (r : Result A) (s : Result (Unit {0})) (db : Db) → (finish r s db).1 ≡ db
finish-db r (ok u) db = refl
finish-db r (err e) db = refl

unlimited_none : (job : Job) → is_concurrency_limited job ≡ false → job.concurrency_key ≡ none
unfolding is_concurrency_limited
unlimited_none job h = ground arith

module _ (limits : String → ℕ) (env : Env) (text : Error → String) (job : Job) (db : Db)
    (inv : Inv env.job_class limits db) (agrees : Agrees env.job_class limits job)
    (known : key_of (get_job job.id db.jobs) ≡ job.concurrency_key)
    (present : 0 < claims job.id db) where
  -- What `finally` does after a body that leaves a slot to be given back.
  finally_unblocks :
      (m : Action (Unit {0})) (r : Result (Unit {0})) (after : Db)
      → m db ≡ (r, after)
      → Owed env.job_class limits job.concurrency_key after
      → Inv env.job_class limits (try_finally m (unblock_next_blocked_job env job) db).1
  finally_unblocks m r after e owed = rw e (
      rw
        (finish-db r (unblock_next_blocked_job env job after).0
          (unblock_next_blocked_job env job after).1)
        (unblock_next-Inv limits env job agrees after owed))

  failing : (error : String) → failed_with job.id error db ≡ (ok tt, failed_db job.id error db)
  failing error = failed_with_lem job.id error db (only_claimed limits env job.id db inv present).1

  failing-Owed :
      (error : String) → Owed env.job_class limits job.concurrency_key (failed_db job.id error db)
  failing-Owed error = rw known at (failed_db-Owed limits env job.id db inv error present)

  -- The body of a task that returned ends in one of three ways.
  perform_returned : Inv env.job_class limits (perform env text returned job db).1
  unfolding perform
  perform_returned = elim (Bool-cases env.preserve_finished_jobs) [
    | inl kept ↦
        finally_unblocks (try_except (Claimed.finished env job) (λ e. failed_with job.id (text e)))
          (ok tt) (finished_db env job db) (rw (finished_lem env job db kept))
          (rw known at (finished_db-Owed env job db limits inv present))
    | inr dropped ↦ elim (Bool-cases (is_concurrency_limited job)) [
      | inl limited ↦
          finally_unblocks
            (try_except (Claimed.finished env job) (λ e. failed_with job.id (text e))) (ok tt)
            (failed_db job.id (text does_not_exist) db)
            (rw
              (finished_limited env job db dropped limited
                (only_claimed limits env job.id db inv present).2)
              (failing (text does_not_exist)))
            (failing-Owed (text does_not_exist))
      | inr unlimited ↦
          finally_unblocks
            (try_except (Claimed.finished env job) (λ e. failed_with job.id (text e))) (ok tt)
            (deleted_db env job db) (rw (finished_unlimited env job db dropped unlimited))
            (subst (λ o. Owed env.job_class limits o (deleted_db env job db))
              (sym (unlimited_none job unlimited)) (deleted_db-Owed env job db limits inv))
    ]
  ]

  -- Running a claimed job keeps the invariant, whatever its task comes to.
  pub perform-Inv :
      (outcome : Outcome) → Inv env.job_class limits (perform env text outcome job db).1
  unfolding perform
  perform-Inv unreadable = inv
  perform-Inv returned = perform_returned
  perform-Inv (raised error) =
      finally_unblocks (failed_with job.id error) (ok tt) (failed_db job.id error db)
        (failing error) (failing-Owed error)
