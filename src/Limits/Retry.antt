-- ===== src/Limits/Retry.antt =====
-- failed_execution.py: `retry` of one failed execution keeps the invariant.
use steady_queue.Prelude.{
  ℕ, ◌+◌, String, ◌≡◌, refl, true, false, none, some, [], ◌∷◌, ◌++◌, arith, ◌==◌, if◌then◌else◌,
  count_if, count_if-append, count_if-drop_one, any-eq-ltb-count_if, Bool-cases, Option-cases, inl,
  inr, All-find?, find?-test,
}
use steady_queue.Db.{
  Db, Job, FailedExecution, get_job, has_ready, has_failed, has_blocked, has_scheduled,
  delete_failed,
}
use steady_queue.Env.{Env}
use steady_queue.Action.{ok, err, does_not_exist}
use steady_queue.Executable.{is_due, schedule, scheduled_of, prepare_for_execution}
use steady_queue.Dispatching.{lock_failed, retry}
use steady_queue.Limits.{executions, Agrees, Core, Inv}
use steady_queue.Limits.Acquire.{IsReadable, agrees-IsReadable}
use steady_queue.Limits.Dispatch.{
  dispatched, dispatch_lem, dispatched-Core, executions-dispatched, next_id-dispatched,
  failed-dispatched,
}

module _ (env : Env) (f : FailedExecution) (db : Db) where
  retry_gone : has_failed db f.job_id ≡ false → retry env f db ≡ (err does_not_exist, db)
  unfolding retry lock_failed
  retry_gone gone = rw gone

  retry_unknown :
      get_job f.job_id db.jobs ≡ none
      → has_failed db f.job_id ≡ true
      → retry env f db ≡ (err does_not_exist, db)
  unfolding retry lock_failed
  retry_unknown unknown present = rw (present, unknown)

  retry_after :
      (job : Job) (mid : Db)
      → get_job f.job_id db.jobs ≡ some job
      → has_failed db f.job_id ≡ true
      → prepare_for_execution env job db ≡ (ok tt, mid)
      → retry env f db ≡ (ok tt, delete_failed f.job_id mid)
  unfolding retry lock_failed
  retry_after job mid known present e = rw (present, known, e)

  module _ (job : Job) (no_ready : has_ready db job.id ≡ false)
      (no_blocked : has_blocked db job.id ≡ false) (no_scheduled : has_scheduled db job.id ≡ false)
      (readable : IsReadable env job) where
    prepare_due :
        is_due env job ≡ true → prepare_for_execution env job db ≡ (ok tt, dispatched env job db)
    unfolding prepare_for_execution
    prepare_due due = rw due (dispatch_lem env job db readable no_ready no_blocked)

    abbrev waiting_db : ℕ → Db
    waiting_db at = record db { scheduled = db.scheduled ++ scheduled_of job at ∷ [] }

    prepare_later :
        is_due env job ≡ false
        → (at : ℕ) × (prepare_for_execution env job db ≡ (ok tt, waiting_db at))
    unfolding prepare_for_execution is_due schedule
    prepare_later later = elim (Option-cases job.scheduled_at) [
      | inl unset ↦ absurd (ground arith)
      | inr (at, set) ↦ (at, ground arith)
    ]

module _ (limits : String → ℕ) (env : Env) (f : FailedExecution) (db : Db)
    (inv : Inv env.job_class limits db) where
  only_failed :
      has_failed db f.job_id ≡ true
      → (count_if (λ r. r.job_id == f.job_id) db.failed ≡ 1)
        × (has_ready db f.job_id ≡ false)
        × (has_blocked db f.job_id ≡ false)
        × (has_scheduled db f.job_id ≡ false)
  unfolding has_failed has_ready has_blocked has_scheduled
  only_failed present = ground (
    arith,
    inv.alone f.job_id,
    any-eq-ltb-count_if (λ r. r.job_id == f.job_id) db.failed,
    any-eq-ltb-count_if (λ r. r.job_id == f.job_id) db.ready,
    any-eq-ltb-count_if (λ r. r.job_id == f.job_id) db.blocked,
    any-eq-ltb-count_if (λ r. r.job_id == f.job_id) db.scheduled,
  )

  -- The failed execution makes room for the one that was added.
  deleted-Inv :
      (mid : Db)
      → Core env.job_class limits mid
      → ((i : ℕ) → executions i mid ≡ executions i db + (if f.job_id == i then 1 else 0))
      → mid.next_id ≡ db.next_id
      → mid.failed ≡ db.failed
      → count_if (λ r. r.job_id == f.job_id) db.failed ≡ 1
      → Inv env.job_class limits (delete_failed f.job_id mid)
  unfolding delete_failed
  deleted-Inv mid core one_more same_id same_failed one =
      let once : count_if (λ r. r.job_id == f.job_id) mid.failed ≡ 1 = rw same_failed one in
      record {
        core = record {
          unique = core.unique;
          agree = core.agree;
          ids_below = core.ids_below;
          fits = core.fits;
        };
        fresh = λ i h. omega (
          arith,
          one_more i,
          inv.fresh i (rw same_id at h),
          count_if-drop_one (λ r. r.job_id) (λ j. j == i) f.job_id mid.failed once,
        );
        alone = λ i. omega (
          arith,
          one_more i,
          inv.alone i,
          count_if-drop_one (λ r. r.job_id) (λ j. j == i) f.job_id mid.failed once,
        );
      }

  retry_found-Inv :
      (job : Job)
      → get_job f.job_id db.jobs ≡ some job
      → has_failed db f.job_id ≡ true
      → job.id ≡ f.job_id
      → Inv env.job_class limits (retry env f db).1
  unfolding get_job
  retry_found-Inv job known present e =
      let (one, r, b, s) = only_failed present in
      let agrees =
        All-find? (Agrees env.job_class limits) (λ j. j.id == f.job_id) db.jobs job inv.core.agree
          known in
      let readable = agrees-IsReadable limits env job agrees in
      elim (Bool-cases (is_due env job)) [
        | inl due ↦
            rw
              (retry_after env f db job (dispatched env job db) known present
                (prepare_due env f db job (rw e r) (rw e b) (rw e s) readable due))
              (deleted-Inv (dispatched env job db)
                (dispatched-Core limits env job db agrees (rw (e, known)) inv.core)
                (λ i. rw (executions-dispatched env job i db, e)) (next_id-dispatched env job db)
                (failed-dispatched env job db) one)
        | inr later ↦
            let (at, after) =
              prepare_later env f db job (rw e r) (rw e b) (rw e s) readable later in
            rw
              (retry_after env f db job
                (waiting_db env f db job (rw e r) (rw e b) (rw e s) readable at) known present
                after)
              (deleted-Inv (record db { scheduled = db.scheduled ++ scheduled_of job at ∷ [] })
                (record {
                  unique = inv.core.unique;
                  agree = inv.core.agree;
                  ids_below = inv.core.ids_below;
                  fits = inv.core.fits;
                })
                (λ i. ground (
                  arith,
                  count_if-append (λ r. r.job_id == i) db.scheduled (scheduled_of job at ∷ []),
                ))
                refl refl one)
      ]

  pub retry-Inv : Inv env.job_class limits (retry env f db).1
  unfolding get_job
  retry-Inv = elim (Bool-cases (has_failed db f.job_id)) [
    | inr gone ↦ rw (retry_gone env f db gone) inv
    | inl present ↦ elim (Option-cases (get_job f.job_id db.jobs)) [
      | inl unknown ↦ rw (retry_unknown env f db unknown present) inv
      | inr (job, known) ↦
          retry_found-Inv job known present
            (ground (arith, find?-test (λ j. j.id == f.job_id) db.jobs job known))
    ]
  ]
