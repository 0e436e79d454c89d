-- ===== src/Limits/Create.antt =====
-- executable.py: a new job gets a fresh id and one execution, and the invariant is kept.
use steady_queue.Prelude.{
  refl, ℕ, suc, ◌+◌, ◌≤◌, String, ◌≡◌, ◌≢◌, ap, false, Option, none, some, [], ◌∷◌, ◌++◌, arith,
  ◌==◌, leb, if◌then◌else◌, count_if-append, count_if-agree, any-eq-ltb-count_if, find?-append,
  find?-above, All-append, Bool-cases, inl, inr,
}
use steady_queue.Db.{Db, Job, get_job, has_ready, has_blocked, has_scheduled}
use steady_queue.Env.{Env}
use steady_queue.Action.{ok}
use steady_queue.Executable.{create, is_due, prepare_for_execution, schedule, scheduled_of}
use steady_queue.Limits.{key_is, key_of, holds, holders, executions, Agrees, Core, Inv}
use steady_queue.Limits.Acquire.{agrees-IsReadable}
use steady_queue.Limits.Ids.{IdsBelow-append}
use steady_queue.Limits.Dispatch.{
  dispatched, dispatch_lem, dispatched-Core, executions-dispatched, claimed-dispatched,
  failed-dispatched, next_id-dispatched,
}

module _ (env : Env) (draft : Job) (db : Db) where
  abbrev pub new_job : Job
  new_job = record draft { id = db.next_id }

  abbrev pub saved_db : Db
  saved_db = record db { next_id = suc db.next_id; jobs = db.jobs ++ new_job ∷ [] }

  created_at : Option ℕ → Db
  created_at none = dispatched env new_job saved_db
  created_at (some at) =
      if leb at env.now
      then dispatched env new_job saved_db
      else record saved_db { scheduled = db.scheduled ++ scheduled_of new_job at ∷ [] }

  -- The database after `create`.
  pub created_db : Db
  unfolding created_at
  created_db = created_at draft.scheduled_at

  executions-created_at :
      (o : Option ℕ) (i : ℕ)
      → executions i (created_at o) ≡ executions i db + (if db.next_id == i then 1 else 0)
  unfolding created_at
  executions-created_at none i = executions-dispatched env new_job i saved_db
  executions-created_at (some at) i = ground (
    arith,
    executions-dispatched env new_job i saved_db,
    count_if-append (λ r. r.job_id == i) db.scheduled (scheduled_of new_job at ∷ []),
  )

  -- Enqueuing adds one execution, of the new job.
  pub executions-created_db :
      (i : ℕ) → executions i created_db ≡ executions i db + (if db.next_id == i then 1 else 0)
  unfolding created_db
  executions-created_db i = executions-created_at draft.scheduled_at i

  claimed-created_at :
      (o : Option ℕ) → ((created_at o).claimed ≡ db.claimed) × ((created_at o).failed ≡ db.failed)
  unfolding created_at
  claimed-created_at none =
      (claimed-dispatched env new_job saved_db, failed-dispatched env new_job saved_db)
  claimed-created_at (some at) = (
    ground (arith, claimed-dispatched env new_job saved_db),
    ground (arith, failed-dispatched env new_job saved_db),
  )

  pub claimed-created_db : (created_db.claimed ≡ db.claimed) × (created_db.failed ≡ db.failed)
  unfolding created_db
  claimed-created_db = claimed-created_at draft.scheduled_at

  create_after :
      (prepare_for_execution env new_job saved_db ≡ (ok tt, created_db))
      → create env draft db ≡ (ok db.next_id, created_db)
  unfolding create
  create_after e = rw e

  module _ (limits : String → ℕ) (inv : Inv env.job_class limits db) where
    no_rows : executions db.next_id db ≡ 0
    no_rows = inv.fresh db.next_id (omega arith)

    -- In a database that keeps the invariant, and with a class that can be read if the job is
    -- limited, `create` raises nothing, returns the id that the sequence gives, and ends in
    -- `created_db`: the new job has a scheduled row if it is not due, and else what `dispatch` gives
    -- it.
    pub create_lem :
        Agrees env.job_class limits draft → create env draft db ≡ (ok db.next_id, created_db)
    unfolding prepare_for_execution is_due schedule has_scheduled created_db has_ready has_blocked
    create_lem agrees = create_after (
        ground (
          arith,
          no_rows,
          dispatch_lem env new_job saved_db (agrees-IsReadable limits env new_job agrees),
          any-eq-ltb-count_if (λ r. r.job_id == db.next_id) db.ready,
          any-eq-ltb-count_if (λ r. r.job_id == db.next_id) db.blocked,
          any-eq-ltb-count_if (λ r. r.job_id == db.next_id) db.scheduled,
        ))

    get_new : get_job db.next_id saved_db.jobs ≡ some new_job
    unfolding get_job
    get_new = ground (
      arith,
      find?-append (λ j. j.id == db.next_id) db.jobs new_job,
      find?-above (λ j. j.id) db.next_id db.next_id db.jobs inv.core.ids_below.0 (omega arith),
    )

    get_old : (i : ℕ) → i ≢ db.next_id → get_job i saved_db.jobs ≡ get_job i db.jobs
    unfolding get_job
    get_old i ne = ground (arith, find?-append (λ j. j.id == i) db.jobs new_job)

    holders-saved_db : (k : String) → holders k saved_db ≡ holders k db
    holders-saved_db k = omega (
      arith,
      count_if-agree (λ r. r.job_id) (holds k saved_db.jobs) (holds k db.jobs) db.next_id db.ready
          (λ i ne. ap (λ o. key_is k (key_of o)) (get_old i ne)) (omega (arith, no_rows)),
      count_if-agree (λ r. r.job_id) (holds k saved_db.jobs) (holds k db.jobs) db.next_id db.claimed
          (λ i ne. ap (λ o. key_is k (key_of o)) (get_old i ne)) (omega (arith, no_rows)),
    )

    saved_db-Core : Agrees env.job_class limits draft → Core env.job_class limits saved_db
    saved_db-Core agrees = record {
      unique = inv.core.unique;
      agree =
          All-append (Agrees env.job_class limits) db.jobs (new_job ∷ []) inv.core.agree
            (agrees, tt);
      ids_below = IdsBelow-append db.next_id db.jobs new_job refl inv.core.ids_below;
      fits = λ k. rw (holders-saved_db k) (inv.core.fits k);
    }

    one_more : (i : ℕ) → executions i db + (if db.next_id == i then 1 else 0) ≤ 1
    one_more i = elim (Bool-cases (db.next_id == i)) [
      | inl same ↦ let e : i ≡ db.next_id = ground arith in rw same (rw e (omega (arith, no_rows)))
      | inr other ↦ rw other (omega (arith, inv.alone i))
    ]

    none_more :
        (i : ℕ) → suc db.next_id ≤ i → executions i db + (if db.next_id == i then 1 else 0) ≡ 0
    none_more i h =
        let ne : (db.next_id == i) ≡ false = ground arith in rw ne (omega (arith, inv.fresh i))

    dispatched-Inv :
        Agrees env.job_class limits draft
        → Inv env.job_class limits (dispatched env new_job saved_db)
    dispatched-Inv agrees = record {
      core = dispatched-Core limits env new_job saved_db agrees (rw get_new) (saved_db-Core agrees);
      fresh = λ i h.
          rw (executions-dispatched env new_job i saved_db)
            (none_more i (rw (next_id-dispatched env new_job saved_db) at h));
      alone = λ i. rw (executions-dispatched env new_job i saved_db) (one_more i);
    }

    abbrev later_db : ℕ → Db
    later_db at = record saved_db { scheduled = db.scheduled ++ scheduled_of new_job at ∷ [] }

    executions-later_db :
        (i at : ℕ)
        → executions i (later_db at) ≡ executions i db + (if db.next_id == i then 1 else 0)
    executions-later_db i at =
        omega
          (arith, count_if-append (λ r. r.job_id == i) db.scheduled (scheduled_of new_job at ∷ []))

    later_db-Inv :
        (at : ℕ) → Agrees env.job_class limits draft → Inv env.job_class limits (later_db at)
    later_db-Inv at agrees =
        let core = saved_db-Core agrees in
        record {
          core = record {
            unique = core.unique;
            agree = core.agree;
            ids_below = core.ids_below;
            fits = core.fits;
          };
          fresh = λ i h. rw (executions-later_db i at) (none_more i h);
          alone = λ i. rw (executions-later_db i at) (one_more i);
        }

    created_at-Inv :
        (o : Option ℕ) → Agrees env.job_class limits draft → Inv env.job_class limits (created_at o)
    unfolding created_at
    created_at-Inv none agrees = dispatched-Inv agrees
    created_at-Inv (some at) agrees = elim (Bool-cases (leb at env.now)) [
      | inl due ↦ rw due (dispatched-Inv agrees)
      | inr later ↦ rw later (later_db-Inv at agrees)
    ]

    created_db-Inv : Agrees env.job_class limits draft → Inv env.job_class limits created_db
    unfolding created_db
    created_db-Inv agrees = created_at-Inv draft.scheduled_at agrees

    -- Enqueuing a job keeps the invariant.
    pub create-Inv :
        Agrees env.job_class limits draft → Inv env.job_class limits (create env draft db).1
    create-Inv agrees = rw (create_lem agrees) (created_db-Inv agrees)
