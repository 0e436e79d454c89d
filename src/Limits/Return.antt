-- ===== src/Limits/Return.antt =====
-- claimed_execution.py: `release` and `release_all` bring claimed jobs back to the ready queue.
use steady_queue.Prelude.{
  ℕ, ◌<◌, String, ◌≡◌, refl, Bool, false, none, some, List, [], ◌∷◌, ◌++◌, arith, ◌==◌, filter,
  count_if-append, count_if-drop_one, count_if-filter-le, Option-cases, inl, inr, find?-test,
}
use steady_queue.Db.{Db, Job, ClaimedExecution, get_job, has_ready, delete_claimed}
use steady_queue.Env.{Env}
use steady_queue.Action.{ok, err, does_not_exist}
use steady_queue.Executable
use steady_queue.Executable.{ready_of}
use steady_queue.Claimed.{release, release_each, release_all}
use steady_queue.Limits.{holds, holders, executions, Inv}
use steady_queue.Limits.Leave.{claims, without, only_claimed}
use steady_queue.Limits.Drain.{AreClaimed, AreClaimed-rest}

module _ (c : ClaimedExecution) (db : Db) where
  abbrev pub returned_db : Job → Db
  returned_db job = record db {
    ready = db.ready ++ ready_of job ∷ [];
    claimed = without c.job_id db.claimed;
  }

  release_unknown : get_job c.job_id db.jobs ≡ none → release c db ≡ (err does_not_exist, db)
  unfolding release
  release_unknown unknown = ground arith

  -- A released job is ready again, with its own queue and priority.
  pub release_lem :
      (job : Job)
      → get_job c.job_id db.jobs ≡ some job
      → has_ready db job.id ≡ false
      → release c db ≡ (ok tt, returned_db job)
  unfolding release Executable.ready delete_claimed has_ready
  release_lem job known no_ready = ground arith

  id_of_known : (job : Job) → get_job c.job_id db.jobs ≡ some job → job.id ≡ c.job_id
  unfolding get_job
  id_of_known job known = ground (arith, find?-test (λ j. j.id == c.job_id) db.jobs job known)

  executions-returned_db :
      (job : Job) (i : ℕ)
      → job.id ≡ c.job_id
      → claims c.job_id db ≡ 1
      → executions i (returned_db job) ≡ executions i db
  executions-returned_db job i e one = ground (
    arith,
    count_if-append (λ r. r.job_id == i) db.ready (ready_of job ∷ []),
    count_if-drop_one (λ r. r.job_id) (λ k. k == i) c.job_id db.claimed one,
  )

  holders-returned_db :
      (job : Job) (k : String)
      → job.id ≡ c.job_id
      → claims c.job_id db ≡ 1
      → holders k (returned_db job) ≡ holders k db
  holders-returned_db job k e one = ground (
    arith,
    count_if-append (λ r. holds k db.jobs r.job_id) db.ready (ready_of job ∷ []),
    count_if-drop_one (λ r. r.job_id) (holds k db.jobs) c.job_id db.claimed one,
  )

module _ (limits : String → ℕ) (env : Env) where
  returned_db-Inv :
      (c : ClaimedExecution) (db : Db) (job : Job)
      → get_job c.job_id db.jobs ≡ some job
      → 0 < claims c.job_id db
      → Inv env.job_class limits db
      → Inv env.job_class limits (returned_db c db job)
  returned_db-Inv c db job known present inv =
      let one = (only_claimed limits env c.job_id db inv present).0 in
      let e = id_of_known c db job known in
      record {
        core = record {
          unique = inv.core.unique;
          agree = inv.core.agree;
          ids_below = inv.core.ids_below;
          fits = λ k. rw (holders-returned_db c db job k e one) (inv.core.fits k);
        };
        fresh = λ i h. rw (executions-returned_db c db job i e one) (inv.fresh i h);
        alone = λ i. rw (executions-returned_db c db job i e one) (inv.alone i);
      }

  -- The rows are released one after the other, up to one whose job is gone.
  pub release_each-Inv :
      (rows : List ClaimedExecution) (db : Db)
      → AreClaimed rows db
      → Inv env.job_class limits db
      → Inv env.job_class limits (release_each rows db).1
  unfolding release_each
  release_each-Inv [] db rows inv = inv
  release_each-Inv (c ∷ cs) db rows inv =
      let present : 0 < claims c.job_id db = ground (arith, rows c.job_id) in
      let alone = only_claimed limits env c.job_id db inv present in
      elim (Option-cases (get_job c.job_id db.jobs)) [
        | inl unknown ↦ rw (release_unknown c db unknown) inv
        | inr (job, known) ↦
            let no_ready : has_ready db job.id ≡ false = rw (id_of_known c db job known) alone.2 in
            rw (release_lem c db job known no_ready) (
              release_each-Inv cs (returned_db c db job)
                (AreClaimed-rest limits env c cs db (returned_db c db job) alone.0 refl rows)
                (returned_db-Inv c db job known present inv))
      ]

  pub release_all-Inv :
      (listed : ClaimedExecution → Bool) (db : Db)
      → Inv env.job_class limits db
      → Inv env.job_class limits (release_all listed db).1
  unfolding release_all
  release_all-Inv listed db inv =
      release_each-Inv (filter listed db.claimed) db
        (λ i. count_if-filter-le (λ c. c.job_id == i) listed db.claimed) inv
