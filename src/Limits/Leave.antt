-- ===== src/Limits/Leave.antt =====
-- claimed_execution.py: a claimed execution that fails or finishes leaves its slot to be given back.
use steady_queue.Prelude.{
  ℕ, ◌+◌, ◌<◌, String, ◌≡◌, refl, ◌∙◌, count_if-drop_one, false, List, [], ◌∷◌, ◌++◌, arith, ◌==◌,
  str_eq, ◌&&◌, any, not, filter, count_if, count_if-append, count_if-drop, any-eq-ltb-count_if,
}
use steady_queue.Db.{
  Db, ClaimedExecution, FailedExecution, get_job, has_ready, has_failed, delete_claimed,
}
use steady_queue.Env.{Env}
use steady_queue.Action.{ok}
use steady_queue.Claimed.{record_failure, failed_with}
use steady_queue.Limits.{key_of, holds, holders, executions, slot, Inv, Owed}

-- The rows of a claimed table without those of a job.
abbrev pub without : ℕ → List ClaimedExecution → List ClaimedExecution
without i rows = filter (λ r. not (r.job_id == i)) rows

abbrev pub claims : ℕ → Db → ℕ
claims i db = count_if (λ r. r.job_id == i) db.claimed

module _ (i : ℕ) (error : String) (db : Db) where
  abbrev pub failure : FailedExecution
  failure = record { job_id = i; error = error }

  abbrev pub failed_db : Db
  failed_db = record db { failed = db.failed ++ failure ∷ []; claimed = without i db.claimed }

  not_failed_at :
      (t : List FailedExecution)
      → any (λ r. r.job_id == i) t ≡ false
      → any (λ f. f.job_id == i && str_eq f.error error) t ≡ false
  not_failed_at [] h = refl
  not_failed_at (f ∷ t) h = ground (arith, not_failed_at t)

  -- A job without a failed execution gets one, and its claimed execution goes.
  pub failed_with_lem : has_failed db i ≡ false → failed_with i error db ≡ (ok tt, failed_db)
  unfolding failed_with record_failure has_failed delete_claimed
  failed_with_lem h = rw (not_failed_at db.failed h, h)

  executions-failed_db : (j : ℕ) → claims i db ≡ 1 → executions j (failed_db) ≡ executions j db
  executions-failed_db j one = omega (
    arith,
    count_if-append (λ r. r.job_id == j) db.failed (failure ∷ []),
    count_if-drop_one (λ r. r.job_id) (λ k. k == j) i db.claimed one,
  )

module _ (i : ℕ) (db : Db) where
  -- The holders of a key, before and after the claimed execution of a job has gone.
  pub holders-without :
      (k : String)
      → claims i db ≡ 1
      → holders k (record db { claimed = without i db.claimed })
          + slot k (key_of (get_job i db.jobs))
        ≡ holders k db
  holders-without k one =
      let back = count_if-drop (λ c. c.job_id) (holds k db.jobs) i db.claimed in
      ground (arith, back)

module _ (limits : String → ℕ) (env : Env) (i : ℕ) (db : Db)
    (inv : Inv env.job_class limits db) where
  -- A claimed execution is the only one of its job.
  pub only_claimed :
      0 < claims i db → (claims i db ≡ 1) × (has_failed db i ≡ false) × (has_ready db i ≡ false)
  unfolding has_failed has_ready
  only_claimed present = ground (
    arith,
    inv.alone i,
    any-eq-ltb-count_if (λ r. r.job_id == i) db.failed,
    any-eq-ltb-count_if (λ r. r.job_id == i) db.ready,
  )

  pub failed_db-Owed :
      (error : String)
      → 0 < claims i db
      → Owed env.job_class limits (key_of (get_job i db.jobs)) (failed_db i error db)
  failed_db-Owed error present = record {
    unique = inv.core.unique;
    agree = inv.core.agree;
    ids_below = inv.core.ids_below;
    fits = λ k. rw (holders-without i db k (only_claimed present).0) (inv.core.fits k);
    fresh = λ j h. executions-failed_db i error db j (only_claimed present).0 ∙ inv.fresh j h;
    alone = λ j. rw (executions-failed_db i error db j (only_claimed present).0) (inv.alone j);
  }
