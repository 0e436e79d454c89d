-- ===== src/Limits/Discards.antt =====
-- execution.py: discarding failed jobs in batches keeps the invariant.
use steady_queue.Prelude.{
  ℕ, zero, suc, ◌+◌, String, ◌≡◌, Bool, true, false, Option, none, some, ◌==◌, elem, if◌then◌else◌,
  count_if, subst,
}
use steady_queue.Db.{Db, FailedExecution}
use steady_queue.Env.{TaskClass}
use steady_queue.Limits.{Inv}
use steady_queue.Limits.Clear.{delete_jobs-Inv}
use steady_queue.Discarding.{discard_jobs, to_discard, discard_rounds, discard_in_batches}

module _ (classes : String → Option TaskClass) (limits : String → ℕ)
    (selected : FailedExecution → Bool) (batch_size : ℕ) where
  abbrev Kept : Option (ℕ × Db) → Type 0
  Kept none = Unit
  Kept (some r) = Inv classes limits r.1

  Kept-if : (b : Bool) (x y : Option (ℕ × Db)) → Kept x → Kept y → Kept (if b then x else y)
  Kept-if true x y kx ky = kx
  Kept-if false x y kx ky = ky

  discard_rounds-Kept :
      (fuel counted total : ℕ) (db : Db)
      → Inv classes limits db
      → Kept (discard_rounds selected batch_size fuel counted total db)
  unfolding discard_rounds discard_jobs
  discard_rounds-Kept zero counted total db inv = tt
  discard_rounds-Kept (suc fuel) counted total db inv =
      let discarded = discard_jobs (to_discard selected batch_size db) db in
      let kept =
        delete_jobs-Inv (λ i. elem i (to_discard selected batch_size db)) db classes limits inv in
      let later = discard_rounds-Kept fuel counted (total + discarded.0) discarded.1 kept in
      let stop : Option (ℕ × Db) = some (total + discarded.0, discarded.1) in
      let rest =
        discard_rounds selected batch_size fuel counted (total + discarded.0) discarded.1 in
      Kept-if (counted == total + discarded.0) stop (if discarded.0 == 0 then stop else rest) kept
        (Kept-if (discarded.0 == 0) stop rest kept later)

  pub discard_in_batches-Inv :
      (fuel : ℕ) (db : Db) (r : ℕ × Db)
      → discard_in_batches selected batch_size fuel db ≡ some r
      → Inv classes limits db
      → Inv classes limits r.1
  unfolding discard_in_batches
  discard_in_batches-Inv fuel db r e inv =
      subst Kept e (discard_rounds-Kept fuel (count_if selected db.failed) 0 db inv)
