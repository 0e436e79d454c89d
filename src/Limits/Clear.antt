-- ===== src/Limits/Clear.antt =====
-- clearable.py: the deletion of finished jobs keeps the invariant.
use steady_queue.Prelude.{
  ℕ, zero, suc, ◌≤◌, String, ◌≡◌, refl, ap, Bool, false, not, Option, none, some, List, [], ◌∷◌,
  arith, ◌==◌, elem, filter, if◌then◌else◌, count_if, count_if-filter-le, All-filter, Bool-cases,
  inl, inr, subst,
}
use steady_queue.Semaphore.{get}
use steady_queue.Semaphore.Slots.{SlotsFit-mono}
use steady_queue.Db.{Db, Job, get_job, delete_jobs}
use steady_queue.Env.{TaskClass}
use steady_queue.Clearing.{Filter, next_ids, deleted_rows, clear_finished_in_batches}
use steady_queue.Limits.{holds, holders, executions, key_is, key_of, Agrees, Inv}
use steady_queue.Limits.Ids.{IdsBelow-filter}

module _ (gone : ℕ → Bool) where
  get_job-filter :
      (i : ℕ) (jobs : List Job)
      → get_job i (filter (λ j. not (gone j.id)) jobs) ≡ (if gone i then none else get_job i jobs)
  unfolding get_job
  get_job-filter i [] = ground arith
  get_job-filter i (j ∷ js) = elim (Bool-cases (j.id == i)) [
    | inl same ↦ let e : j.id ≡ i = ground arith in rw e (ground (arith, get_job-filter i js))
    | inr other ↦ ground (arith, get_job-filter i js)
  ]

  -- What is counted of the rows that stay was counted before.
  count_if-stay-le :
      {A : Type 0} (key : A → ℕ) (q q' : ℕ → Bool)
      → ((i : ℕ) → gone i ≡ false → q' i ≡ q i)
      → (rows : List A)
      → count_if (λ r. q' (key r)) (filter (λ r. not (gone (key r))) rows)
        ≤ count_if (λ r. q (key r)) rows
  count_if-stay-le key q q' same [] = omega arith
  count_if-stay-le key q q' same (r ∷ rs) =
      ground (arith, same (key r), count_if-stay-le key q q' same rs)

  module _ (db : Db) where
    holds-stay :
        (k : String) (i : ℕ)
        → gone i ≡ false
        → holds k (delete_jobs gone db).jobs i ≡ holds k db.jobs i
    unfolding delete_jobs
    holds-stay k i stays =
        let same : get_job i (filter (λ j. not (gone j.id)) db.jobs) ≡ get_job i db.jobs =
          rw (get_job-filter i db.jobs, stays) refl in
        ap (λ o. key_is k (key_of o)) same

    holders-delete_jobs-le : (k : String) → holders k (delete_jobs gone db) ≤ holders k db
    unfolding delete_jobs
    holders-delete_jobs-le k = omega (
      arith,
      count_if-stay-le (λ r. r.job_id) (holds k db.jobs)
          (holds k (filter (λ j. not (gone j.id)) db.jobs)) (holds-stay k) db.ready,
      count_if-stay-le (λ r. r.job_id) (holds k db.jobs)
          (holds k (filter (λ j. not (gone j.id)) db.jobs)) (holds-stay k) db.claimed,
    )

    executions-delete_jobs-le : (i : ℕ) → executions i (delete_jobs gone db) ≤ executions i db
    unfolding delete_jobs
    executions-delete_jobs-le i = omega (
      arith,
      count_if-filter-le (λ r. r.job_id == i) (λ r. not (gone r.job_id)) db.ready,
      count_if-filter-le (λ r. r.job_id == i) (λ r. not (gone r.job_id)) db.claimed,
      count_if-filter-le (λ r. r.job_id == i) (λ r. not (gone r.job_id)) db.failed,
      count_if-filter-le (λ r. r.job_id == i) (λ r. not (gone r.job_id)) db.scheduled,
      count_if-filter-le (λ r. r.job_id == i) (λ r. not (gone r.job_id)) db.blocked,
    )

    -- Deleting jobs keeps the invariant: their slots are lost until the semaphore expires.
    pub delete_jobs-Inv :
        (classes : String → Option TaskClass) (limits : String → ℕ)
        → Inv classes limits db
        → Inv classes limits (delete_jobs gone db)
    unfolding delete_jobs
    delete_jobs-Inv classes limits inv = record {
      core = record {
        unique = inv.core.unique;
        agree = All-filter (Agrees classes limits) (λ j. not (gone j.id)) db.jobs inv.core.agree;
        ids_below = IdsBelow-filter db.next_id (λ j. not (gone j.id)) db.jobs inv.core.ids_below;
        fits = λ k.
            SlotsFit-mono (limits k) (holders k db) (holders k (delete_jobs gone db))
              (get k db.semaphores) (holders-delete_jobs-le k) (inv.core.fits k);
      };
      fresh = λ i h. omega (arith, executions-delete_jobs-le i, inv.fresh i h);
      alone = λ i. omega (arith, executions-delete_jobs-le i, inv.alone i);
    }

abbrev Kept : (String → Option TaskClass) → (String → ℕ) → Option Db → Type 0
Kept classes limits none = Unit
Kept classes limits (some db) = Inv classes limits db

clear-Kept :
    (classes : String → Option TaskClass) (limits : String → ℕ) (fuel : ℕ) (f : Filter) (n : ℕ)
    (db : Db)
    → Inv classes limits db
    → Kept classes limits (clear_finished_in_batches fuel f n db)
unfolding clear_finished_in_batches
clear-Kept classes limits zero f n db inv = tt
clear-Kept classes limits (suc fuel) f n db inv =
    let gone : ℕ → Bool = λ i. elem i (next_ids f n db) in
    let kept = delete_jobs-Inv gone db classes limits inv in
    elim (Bool-cases (deleted_rows (next_ids f n db) db == 0)) [
      | inl stopped ↦ rw stopped kept
      | inr going ↦ rw going (clear-Kept classes limits fuel f n (delete_jobs gone db) kept)
    ]

-- Clearing finished jobs keeps the invariant.
pub clear_finished_in_batches-Inv :
    (classes : String → Option TaskClass) (limits : String → ℕ) (fuel : ℕ) (f : Filter) (n : ℕ)
    (db after : Db)
    → clear_finished_in_batches fuel f n db ≡ some after
    → Inv classes limits db
    → Inv classes limits after
clear_finished_in_batches-Inv classes limits fuel f n db after e inv =
    subst (Kept classes limits) e (clear-Kept classes limits fuel f n db inv)
