-- ===== src/Limits/Dispatcher.antt =====
-- scheduled_execution.py: the dispatcher's next batch keeps the invariant.
use steady_queue.Prelude.{
  ℕ, ◌<◌, String, ◌≡◌, Bool, true, ◌&&◌, not, List, [], ◌∷◌, arith, ◌==◌, elem, take, sort_by,
  filter, count_if-filter-le, count_if-take-le, count_if-sort_by,
}
use steady_queue.Db.{Db, ScheduledExecution}
use steady_queue.Env.{Env}
use steady_queue.Action.Preserves.{Preserves-settle}
use steady_queue.Dispatching.{due, scheduled_order, next_batch, dispatch_batch, dispatch_next_batch}
use steady_queue.Limits.{Inv}
use steady_queue.Limits.Rows.{elem-map}
use steady_queue.Limits.Batch.{waiting, dispatch_scheduled-Inv}

module _ (limits : String → ℕ) (env : Env) (db : Db) (inv : Inv env.job_class limits db) where
  next_batch-picked : (n i : ℕ) → elem i (next_batch env n db) ≡ true → 0 < waiting i db
  unfolding next_batch
  next_batch-picked n i listed =
      let open_rows : ScheduledExecution → Bool =
        λ s. due env.now s && not (env.locked_scheduled s.job_id) in
      ground (
        arith,
        elem-map (λ s. s.job_id) i
            (take n (sort_by scheduled_order (filter open_rows db.scheduled))),
        count_if-take-le (λ s. s.job_id == i) n
            (sort_by scheduled_order (filter open_rows db.scheduled)),
        count_if-sort_by scheduled_order (λ s. s.job_id == i) (filter open_rows db.scheduled),
        count_if-filter-le (λ s. s.job_id == i) open_rows db.scheduled,
      )

  dispatch_batch-Inv :
      (job_ids : List ℕ)
      → ((i : ℕ) → elem i job_ids ≡ true → 0 < waiting i db)
      → Inv env.job_class limits (dispatch_batch env job_ids db).1
  unfolding dispatch_batch
  dispatch_batch-Inv [] picked = inv
  dispatch_batch-Inv (i ∷ is) picked = dispatch_scheduled-Inv limits env db inv (i ∷ is) picked

  -- The dispatcher's batch keeps the invariant.
  pub dispatch_next_batch-Inv :
      (batch_size : ℕ) → Inv env.job_class limits (dispatch_next_batch env batch_size db).1
  unfolding dispatch_next_batch
  dispatch_next_batch-Inv batch_size =
      Preserves-settle (Inv env.job_class limits) db
        (dispatch_batch env (next_batch env batch_size db) db).0
        (dispatch_batch env (next_batch env batch_size db) db).1 inv
        (dispatch_batch-Inv (next_batch env batch_size db) (next_batch-picked batch_size))
