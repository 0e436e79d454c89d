-- ===== src/Limits/Batch.antt =====
-- scheduled_execution.py: the dispatch of a batch of scheduled jobs keeps the invariant.
use native.Mathlib.Nat.{add-zero}
use steady_queue.Prelude.{
  ℕ, ◌+◌, ◌≤◌, ◌<◌, String, ◌≡◌, refl, ◌∙◌, ap, true, false, ◌&&◌, ◌||◌, not, List, [], ◌∷◌, ◌++◌,
  map, arith, ◌==◌, ltb, elem, any, filter, count_if, count_if-append, count_if-split,
  count_if-filter-le, any-eq-ltb-count_if, All, All-filter, Bool-cases, inl, inr, some,
}
use steady_queue.Db.{Db, Job, get_job, has_ready, has_blocked, has_scheduled}
use steady_queue.Env.{Env}
use steady_queue.Action.{ok, err, integrity_error}
use steady_queue.Locks.{is_concurrency_limited}
use steady_queue.Executable.{
  dispatch_all, dispatch_all_one_by_one, create_all_from_jobs, repeats, ready_of,
  successfully_dispatched,
}
use steady_queue.Dispatching.{ids, rows_of, delete_scheduled, dispatch_scheduled}
use steady_queue.Limits.{holds, executions, Agrees, Core, Inv, key_of}
use steady_queue.Limits.Rows.{elem-map, count_if-filter_key, get_job-All, count_if-ready_of}
use steady_queue.Limits.Acquire.{agrees-IsReadable}
use steady_queue.Limits.Dispatch.{
  dispatched, dispatch_lem, dispatched-Core, executions-dispatched, next_id-dispatched,
  jobs-dispatched, scheduled-dispatched,
}

abbrev named : ℕ → List Job → ℕ
named i jobs = count_if (λ j. j.id == i) jobs

abbrev pub waiting : ℕ → Db → ℕ
waiting i db = count_if (λ s. s.job_id == i) db.scheduled

module _ (limits : String → ℕ) (env : Env) (db : Db) (inv : Inv env.job_class limits db)
    (job_ids : List ℕ) (picked : (i : ℕ) → elem i job_ids ≡ true → 0 < waiting i db) where
  abbrev jobs : List Job
  jobs = rows_of job_ids db

  -- What holds of a job of the batch.
  abbrev InBatch : Job → Type 0
  InBatch j =
      (0 < waiting j.id db) × (Agrees env.job_class limits j × (get_job j.id db.jobs ≡ some j))

  jobs-InBatch : All InBatch jobs
  jobs-InBatch = go db.jobs inv.core.agree (get_job-All db.jobs inv.core.ids_below.1)
    where
      go :
          (js : List Job)
          → All (Agrees env.job_class limits) js
          → All (λ j. get_job j.id db.jobs ≡ some j) js
          → All InBatch (filter (λ j. elem j.id job_ids) js)
      go [] a g = tt
      go (j ∷ js) a g = elim (Bool-cases (elem j.id job_ids)) [
        | inl kept ↦ rw kept ((picked j.id kept, (a.0, g.0)), go js a.1 g.1)
        | inr dropped ↦ rw dropped (go js a.1 g.1)
      ]

  named-jobs-le : (i : ℕ) → named i jobs ≤ 1
  named-jobs-le i = omega (
    arith,
    count_if-filter-le (λ j. j.id == i) (λ j. elem j.id job_ids) db.jobs,
    inv.core.ids_below.1 i,
  )

  -- The database while the jobs of `rest` are still to be dispatched.
  record Midway (rest : List Job) (mid : Db) : Type 0 where
    core : Core env.job_class limits mid
    same_jobs : mid.jobs ≡ db.jobs
    same_next : mid.next_id ≡ db.next_id
    same_scheduled : mid.scheduled ≡ db.scheduled
    counts : (i : ℕ) → executions i mid + named i rest ≡ executions i db + named i jobs

  abbrev created_db : Db
  created_db = record db {
    ready = db.ready ++ map ready_of (filter (λ j. not (is_concurrency_limited j)) jobs);
  }

  unlimited-hold_none :
      (k : String) (js : List Job)
      → All InBatch js
      → count_if (λ j. holds k db.jobs j.id) (filter (λ j. not (is_concurrency_limited j)) js) ≡ 0
  unfolding is_concurrency_limited
  unlimited-hold_none k [] h = refl
  unlimited-hold_none k (j ∷ js) h = ground (arith, h.0.1.1, unlimited-hold_none k js h.1)

  created_db-Midway : Midway (filter is_concurrency_limited jobs) created_db
  created_db-Midway = record {
    core = record {
      unique = inv.core.unique;
      agree = inv.core.agree;
      ids_below = inv.core.ids_below;
      fits = λ k.
          rw
            (
              count_if-append (λ r. holds k db.jobs r.job_id) db.ready
                  (map ready_of (filter (λ j. not (is_concurrency_limited j)) jobs)),
              count_if-ready_of (holds k db.jobs)
                  (filter (λ j. not (is_concurrency_limited j)) jobs),
              unlimited-hold_none k jobs jobs-InBatch,
            )
            (rw add-zero (inv.core.fits k));
    };
    same_jobs = refl;
    same_next = refl;
    same_scheduled = refl;
    counts = λ i. omega (
      arith,
      count_if-append (λ r. r.job_id == i) db.ready
          (map ready_of (filter (λ j. not (is_concurrency_limited j)) jobs)),
      count_if-ready_of (λ n. n == i) (filter (λ j. not (is_concurrency_limited j)) jobs),
      count_if-split (λ j. j.id == i) is_concurrency_limited jobs,
    );
  }

  module _ (j : Job) (rest : List Job) (mid : Db) (m : Midway (j ∷ rest) mid) (f : InBatch j) where
    alone_midway : executions j.id mid ≤ 1
    alone_midway = ground (arith, m.counts j.id, inv.alone j.id, named-jobs-le j.id)

    waiting_midway : 0 < waiting j.id mid
    waiting_midway = rw m.same_scheduled f.0

    no_ready : has_ready mid j.id ≡ false
    unfolding has_ready
    no_ready =
        ground (
          arith,
          any-eq-ltb-count_if (λ r. r.job_id == j.id) mid.ready,
          alone_midway,
          waiting_midway,
        )

    no_blocked : has_blocked mid j.id ≡ false
    unfolding has_blocked
    no_blocked = ground (
      arith,
      any-eq-ltb-count_if (λ r. r.job_id == j.id) mid.blocked,
      alone_midway,
      waiting_midway,
    )

    dispatched-Midway : Midway rest (dispatched env j mid)
    dispatched-Midway = record {
      core = dispatched-Core limits env j mid f.1.0 (rw m.same_jobs (ap key_of f.1.1)) m.core;
      same_jobs = jobs-dispatched env j mid ∙ m.same_jobs;
      same_next = next_id-dispatched env j mid ∙ m.same_next;
      same_scheduled = scheduled-dispatched env j mid ∙ m.same_scheduled;
      counts = λ i. ground (arith, executions-dispatched env j i mid, m.counts i);
    }

  one_by_one :
      (rest : List Job) (mid : Db)
      → All InBatch rest
      → Midway rest mid
      → (after : Db) × ((dispatch_all_one_by_one env rest mid ≡ (ok tt, after)) × Midway [] after)
  unfolding dispatch_all_one_by_one
  one_by_one [] mid f m = (mid, (refl, m))
  one_by_one (j ∷ rest) mid f m =
      let (after, (e, done)) =
        one_by_one rest (dispatched env j mid) f.1 (dispatched-Midway j rest mid m f.0) in
      (
        after,
        (
          rw
              (dispatch_lem env j mid (agrees-IsReadable limits env j f.0.1.0)
                (no_ready j rest mid m f.0) (no_blocked j rest mid m f.0))
              e,
          done,
        ),
      )

  module _ (after : Db) (m : Midway [] after) where
    abbrev gone : List ℕ
    gone = ids (successfully_dispatched env jobs after)

    -- Every job of the batch is reported as dispatched: its scheduled row is still there.
    gone-jobs : (i : ℕ) → 0 < named i jobs → (elem i gone ≡ true) × (0 < waiting i db)
    unfolding successfully_dispatched has_scheduled
    gone-jobs i there =
        let listed : elem i job_ids ≡ true =
          ground (arith, count_if-filter_key (λ j. j.id) (λ n. elem n job_ids) i db.jobs) in
        let still : 0 < waiting i after = rw m.same_scheduled (picked i listed) in
        let known : 0 < named i after.jobs =
          rw m.same_jobs
            (omega (arith, count_if-filter-le (λ j. j.id == i) (λ j. elem j.id job_ids) db.jobs)) in
        (
          ground (
            arith,
            elem-map (λ j. j.id) i (successfully_dispatched env jobs after),
            count_if-filter_key (λ j. j.id)
                (λ n. elem n (ids jobs) && (has_ready after n || has_scheduled after n)) i
                after.jobs,
            elem-map (λ j. j.id) i jobs,
            any-eq-ltb-count_if (λ s. s.job_id == i) after.scheduled,
          ),
          picked i listed,
        )

    abbrev final_db : Db
    final_db = record after { scheduled = filter (λ s. not (elem s.job_id gone)) after.scheduled }

    executions-final_db-le : (i : ℕ) → executions i final_db ≤ executions i db
    executions-final_db-le i = elim (Bool-cases (ltb 0 (named i jobs))) [
      | inl there ↦
          let (dropped, one) = gone-jobs i (ground arith) in
          let still : 0 < waiting i after = rw m.same_scheduled one in
          let dropped_all : waiting i final_db ≡ 0 = ground (
            arith,
            count_if-filter_key (λ s. s.job_id) (λ n. not (elem n gone)) i after.scheduled,
          ) in
          omega (arith, dropped_all, m.counts i, named-jobs-le i)
      | inr absent ↦ ground (
        arith,
        m.counts i,
        count_if-filter-le (λ s. s.job_id == i) (λ s. not (elem s.job_id gone)) after.scheduled,
      )
    ]

    final_db-Inv : Inv env.job_class limits final_db
    final_db-Inv = record {
      core = record {
        unique = m.core.unique;
        agree = m.core.agree;
        ids_below = m.core.ids_below;
        fits = m.core.fits;
      };
      fresh = λ i h.
          let none_before : executions i db ≡ 0 = inv.fresh i (rw m.same_next at h) in
          omega (arith, none_before, executions-final_db-le i);
      alone = λ i. omega (arith, executions-final_db-le i, inv.alone i);
    }

  dispatch_after :
      (any (λ j. has_ready db j.id) (filter (λ j. not (is_concurrency_limited j)) jobs) ≡ false)
      → repeats (filter (λ j. not (is_concurrency_limited j)) jobs) ≡ false
      → Inv env.job_class limits (dispatch_scheduled env job_ids db).1
  unfolding dispatch_scheduled dispatch_all create_all_from_jobs delete_scheduled
  dispatch_after no_row once =
      let (after, (e, m)) =
        one_by_one (filter is_concurrency_limited jobs) created_db
          (All-filter InBatch is_concurrency_limited jobs jobs-InBatch) created_db-Midway in
      rw (no_row, once, e) (final_db-Inv after m)

  dispatch_refused :
      (any (λ j. has_ready db j.id) (filter (λ j. not (is_concurrency_limited j)) jobs) ≡ true)
      → dispatch_scheduled env job_ids db ≡ (err integrity_error, db)
  unfolding dispatch_scheduled dispatch_all create_all_from_jobs
  dispatch_refused taken = rw taken

  dispatch_repeated :
      (any (λ j. has_ready db j.id) (filter (λ j. not (is_concurrency_limited j)) jobs) ≡ false)
      → repeats (filter (λ j. not (is_concurrency_limited j)) jobs) ≡ true
      → dispatch_scheduled env job_ids db ≡ (err integrity_error, db)
  unfolding dispatch_scheduled dispatch_all create_all_from_jobs
  dispatch_repeated no_row twice = rw (no_row, twice)

  pub dispatch_scheduled-Inv : Inv env.job_class limits (dispatch_scheduled env job_ids db).1
  dispatch_scheduled-Inv =
      elim (Bool-cases
        (any (λ j. has_ready db j.id) (filter (λ j. not (is_concurrency_limited j)) jobs))) [
          | inl taken ↦ rw (dispatch_refused taken) inv
          | inr no_row ↦
              elim (Bool-cases (repeats (filter (λ j. not (is_concurrency_limited j)) jobs))) [
                | inl twice ↦ rw (dispatch_repeated no_row twice) inv
                | inr once ↦ dispatch_after no_row once
              ]
        ]
