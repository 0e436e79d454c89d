-- ===== src/Limits/Drain.antt =====
-- claimed_execution.py: `fail_all_with` and `release_all` over many claimed executions.
use native.Mathlib.Nat.{add-zero}
use steady_queue.Prelude.{
  ℕ, ◌≤◌, ◌<◌, String, ◌≡◌, subst, Bool, none, List, [], ◌∷◌, arith, ◌==◌, filter, count_if,
  count_if-drop_one, count_if-filter-le, Option-cases, inl, inr, All-find?,
}
use steady_queue.Db.{Db, ClaimedExecution, get_job}
use steady_queue.Env.{Env}
use steady_queue.Action.Preserves.{resume-keeps}
use steady_queue.Claimed.{unblock_next_job, fail_each, fail_all_with}
use steady_queue.Limits.{key_of, Agrees, Inv, Owed}
use steady_queue.Limits.Frame.{SameJobs-refl, unblock_next_job-SameJobs}
use steady_queue.Limits.Unblock.{unblock_next-Inv}
use steady_queue.Limits.Leave.{
  claims, without, failed_db, failed_with_lem, only_claimed, failed_db-Owed,
}

-- The rows are rows of the claimed table.
abbrev pub AreClaimed : List ClaimedExecution → Db → Type 0
AreClaimed rows db = (i : ℕ) → count_if (λ c. c.job_id == i) rows ≤ claims i db

module _ (limits : String → ℕ) (env : Env) where
  settled-Inv : (db : Db) → Owed env.job_class limits none db → Inv env.job_class limits db
  settled-Inv db owed = record {
    core = record {
      unique = owed.unique;
      agree = owed.agree;
      ids_below = owed.ids_below;
      fits = λ k. rw add-zero at (owed.fits k);
    };
    fresh = owed.fresh;
    alone = owed.alone;
  }

  -- The slot of the job of a row that has gone, if its job is known, is given back.
  pub unblock_next_job-Inv :
      (i : ℕ) (db : Db)
      → Owed env.job_class limits (key_of (get_job i db.jobs)) db
      → Inv env.job_class limits (unblock_next_job env i db).1
  unfolding unblock_next_job get_job
  unblock_next_job-Inv i db owed = elim (Option-cases (get_job i db.jobs)) [
    | inl unknown ↦
        rw unknown
          (settled-Inv db (subst (λ o. Owed env.job_class limits (key_of o) db) unknown owed))
    | inr (job, known) ↦ rw known (
        unblock_next-Inv limits env job
          (All-find? (Agrees env.job_class limits) (λ j. j.id == i) db.jobs job owed.agree known) db
          (subst (λ o. Owed env.job_class limits (key_of o) db) known owed))
  ]

  pub AreClaimed-rest :
      (c : ClaimedExecution) (cs : List ClaimedExecution) (db after : Db)
      → claims c.job_id db ≡ 1
      → after.claimed ≡ without c.job_id db.claimed
      → AreClaimed (c ∷ cs) db
      → AreClaimed cs after
  AreClaimed-rest c cs db after one e rows i = rw e (
      omega
        (arith, rows i, count_if-drop_one (λ r. r.job_id) (λ k. k == i) c.job_id db.claimed one))

  -- Every claimed row fails, and every slot is given back.
  pub fail_each-Inv :
      (error : String) (rows : List ClaimedExecution) (db : Db)
      → AreClaimed rows db
      → Inv env.job_class limits db
      → Inv env.job_class limits (fail_each env error rows db).1
  unfolding fail_each
  fail_each-Inv error [] db rows inv = inv
  fail_each-Inv error (c ∷ cs) db rows inv =
      let present : 0 < claims c.job_id db = ground (arith, rows c.job_id) in
      let alone = only_claimed limits env c.job_id db inv present in
      let failed = failed_db c.job_id error db in
      let r = unblock_next_job env c.job_id failed in
      let kept =
        unblock_next_job-Inv c.job_id failed
          (failed_db-Owed limits env c.job_id db inv error present) in
      let same = unblock_next_job-SameJobs failed env c.job_id failed (SameJobs-refl failed) in
      rw (failed_with_lem c.job_id error db alone.1) (
        resume-keeps (Inv env.job_class limits) (λ _. fail_each env error cs) r.0 r.1
          (λ _.
            fail_each-Inv error cs r.1 (AreClaimed-rest c cs db r.1 alone.0 same.claimed rows) kept)
          kept)

  pub fail_all_with-Inv :
      (error : String) (listed : ClaimedExecution → Bool) (db : Db)
      → Inv env.job_class limits db
      → Inv env.job_class limits (fail_all_with env error listed db).1
  unfolding fail_all_with
  fail_all_with-Inv error listed db inv =
      fail_each-Inv error (filter listed db.claimed) db
        (λ i. count_if-filter-le (λ c. c.job_id == i) listed db.claimed) inv
