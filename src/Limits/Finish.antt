-- ===== src/Limits/Finish.antt =====
-- claimed_execution.py: a claimed execution that finishes, where finished jobs are kept or not.
use mathlib.Core.Option
use steady_queue.Prelude.{
  ℕ, ◌+◌, ◌≤◌, ◌<◌, String, ◌≡◌, ◌≢◌, refl, ap, count_if-drop_one, true, false, Option, none, some,
  List, arith, ◌==◌, not, filter, find?, update_where, if◌then◌else◌, count_if, count_if-agree,
  count_if-dropped, count_if-filter-le, find?-drop, All-filter, All-update_where,
  find?-update_where,
}
use steady_queue.Semaphore.{get}
use steady_queue.Semaphore.Slots.{SlotsFit-mono}
use steady_queue.Db.{Db, Job, get_job, has_ready, delete_claimed, delete_jobs}
use steady_queue.Env.{Env}
use steady_queue.Action.{Error, ok, err, does_not_exist}
use steady_queue.Claimed
use steady_queue.Claimed.{returned, raised, perform, record_failure, failed_with}
use steady_queue.Locks.{is_concurrency_limited}
use steady_queue.Executable
use steady_queue.Executable.{delete}
use steady_queue.Limits.{key_is, key_of, holds, holders, executions, Agrees, Inv, Owed}
use steady_queue.Limits.Ids.{IdsBelow-filter, IdsBelow-update_where}
use steady_queue.Limits.Leave.{without, claims, holders-without, only_claimed}

module _ (env : Env) (job : Job) (db : Db) where
  abbrev stamp : Job → Job
  stamp j = record j { finished_at = some env.now }

  abbrev stamped : List Job
  stamped = update_where (λ j. j.id == job.id) stamp db.jobs

  -- The database after a claimed job has finished, where finished jobs are kept.
  abbrev pub finished_db : Db
  finished_db = record db { jobs = stamped; claimed = without job.id db.claimed }

  pub finished_lem :
      env.preserve_finished_jobs ≡ true → Claimed.finished env job db ≡ (ok tt, finished_db)
  unfolding Claimed.finished Executable.finished delete_claimed
  finished_lem kept = rw kept

  -- Where they are not kept, a limited job cannot be deleted: it has no ready execution to read.
  pub finished_limited :
      env.preserve_finished_jobs ≡ false
      → is_concurrency_limited job ≡ true
      → has_ready db job.id ≡ false
      → Claimed.finished env job db ≡ (err does_not_exist, db)
  unfolding Claimed.finished Executable.finished delete
  finished_limited dropped limited no_ready = ground arith

  -- Where finished jobs are not kept, a limited job without a ready execution whose task returned
  -- is left as if the task had raised, as a failed job: deleting it reads the ready execution.
  pub perform-finished_limited :
      (text : Error → String)
      → env.preserve_finished_jobs ≡ false
      → is_concurrency_limited job ≡ true
      → has_ready db job.id ≡ false
      → perform env text returned job db ≡ perform env text (raised (text does_not_exist)) job db
  unfolding perform
  perform-finished_limited text dropped limited no_ready =
      rw (finished_limited dropped limited no_ready)

  abbrev pub deleted_db : Db
  deleted_db =
      let gone = delete_jobs (λ i. i == job.id) db in
      record gone { claimed = without job.id gone.claimed }

  pub finished_unlimited :
      env.preserve_finished_jobs ≡ false
      → is_concurrency_limited job ≡ false
      → Claimed.finished env job db ≡ (ok tt, deleted_db)
  unfolding Claimed.finished Executable.finished delete delete_claimed
  finished_unlimited dropped unlimited = rw (dropped, unlimited)

  key_of-stamp :
      (o : Option Job)
      → key_of (Option.map (λ j. if j.id == job.id then stamp j else j) o) ≡ key_of o
  key_of-stamp none = refl
  key_of-stamp (some j) = ground arith

  key_of-stamped : (i : ℕ) → key_of (get_job i stamped) ≡ key_of (get_job i db.jobs)
  unfolding get_job
  key_of-stamped i =
      rw (find?-update_where (λ j. j.id == i) (λ j. j.id == job.id) stamp (λ j. refl) db.jobs)
        (key_of-stamp (find? (λ j. j.id == i) db.jobs))

  holders-finished_db :
      (k : String)
      → holders k finished_db ≡ holders k (record db { claimed = without job.id db.claimed })
  holders-finished_db k = simp key_of-stamped

  pub finished_db-Owed :
      (limits : String → ℕ)
      → Inv env.job_class limits db
      → 0 < claims job.id db
      → Owed env.job_class limits (key_of (get_job job.id db.jobs)) finished_db
  finished_db-Owed limits inv present = record {
    unique = inv.core.unique;
    agree =
        All-update_where (Agrees env.job_class limits) (λ j. j.id == job.id) stamp db.jobs
          (λ j a. a) inv.core.agree;
    ids_below =
        IdsBelow-update_where db.next_id (λ j. j.id == job.id) stamp (λ j. refl) db.jobs
          inv.core.ids_below;
    fits = λ k.
        rw
          (
            holders-finished_db k,
            holders-without job.id db k (only_claimed limits env job.id db inv present).0,
          )
          (inv.core.fits k);
    fresh = λ j h. omega (
      arith,
      inv.fresh j h,
      count_if-drop_one (λ r. r.job_id) (λ i. i == j) job.id db.claimed
          (only_claimed limits env job.id db inv present).0,
    );
    alone = λ j. omega (
      arith,
      inv.alone j,
      count_if-drop_one (λ r. r.job_id) (λ i. i == j) job.id db.claimed
          (only_claimed limits env job.id db inv present).0,
    );
  }

  key_of-deleted :
      (i : ℕ) → i ≢ job.id → key_of (get_job i deleted_db.jobs) ≡ key_of (get_job i db.jobs)
  unfolding get_job delete_jobs
  key_of-deleted i ne = ap key_of (find?-drop (λ j. j.id) i job.id db.jobs ne)

  -- Rows of other jobs have the key that they had.
  holders-dropped :
      {A : Type 0} (key : A → ℕ) (k : String) (rows : List A)
      → count_if (λ r. holds k deleted_db.jobs (key r)) (filter (λ r. not (key r == job.id)) rows)
        ≤ count_if (λ r. holds k db.jobs (key r)) rows
  holders-dropped key k rows =
      rw
        (count_if-agree key (holds k deleted_db.jobs) (holds k db.jobs) job.id
          (filter (λ r. not (key r == job.id)) rows) (λ i ne. ap (key_is k) (key_of-deleted i ne))
          (count_if-dropped key job.id rows))
        (count_if-filter-le (λ r. holds k db.jobs (key r)) (λ r. not (key r == job.id)) rows)

  pub holders-deleted_db-le : (k : String) → holders k deleted_db ≤ holders k db
  unfolding delete_jobs
  holders-deleted_db-le k = omega (
    arith,
    holders-dropped (λ r. r.job_id) k db.ready,
    holders-dropped (λ c. c.job_id) k db.claimed,
    count_if-filter-le (λ c. holds k deleted_db.jobs c.job_id) (λ c. not (c.job_id == job.id))
        (without job.id db.claimed),
  )

  pub executions-deleted_db-le : (i : ℕ) → executions i deleted_db ≤ executions i db
  unfolding delete_jobs
  executions-deleted_db-le i = omega (
    arith,
    count_if-filter-le (λ r. r.job_id == i) (λ r. not (r.job_id == job.id)) db.ready,
    count_if-filter-le (λ r. r.job_id == i) (λ r. not (r.job_id == job.id)) db.claimed,
    count_if-filter-le (λ r. r.job_id == i) (λ r. not (r.job_id == job.id))
        (without job.id db.claimed),
    count_if-filter-le (λ r. r.job_id == i) (λ r. not (r.job_id == job.id)) db.failed,
    count_if-filter-le (λ r. r.job_id == i) (λ r. not (r.job_id == job.id)) db.scheduled,
    count_if-filter-le (λ r. r.job_id == i) (λ r. not (r.job_id == job.id)) db.blocked,
  )

  pub deleted_db-Owed :
      (limits : String → ℕ)
      → Inv env.job_class limits db
      → Owed env.job_class limits none deleted_db
  unfolding delete_jobs
  deleted_db-Owed limits inv = record {
    unique = inv.core.unique;
    agree =
        All-filter (Agrees env.job_class limits) (λ j. not (j.id == job.id)) db.jobs inv.core.agree;
    ids_below = IdsBelow-filter db.next_id (λ j. not (j.id == job.id)) db.jobs inv.core.ids_below;
    fits = λ k.
        SlotsFit-mono (limits k) (holders k db) (holders k deleted_db + 0) (get k db.semaphores)
          (omega (arith, holders-deleted_db-le k)) (inv.core.fits k);
    fresh = λ i h. omega (arith, inv.fresh i h, executions-deleted_db-le i);
    alone = λ i. omega (arith, inv.alone i, executions-deleted_db-le i);
  }
