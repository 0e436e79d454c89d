-- ===== src/Limits/Leaving.antt =====
-- process.py and prunable.py: a process that leaves keeps the concurrency limits.
use steady_queue.Prelude.{
  ℕ, String, ◌≡◌, refl, Bool, true, Option, List, [], ◌∷◌, map, arith, ◌==◌, count_if,
}
use steady_queue.Db.{Db, Process, ClaimedExecution}
use steady_queue.Env.{Env}
use steady_queue.Action.{Action, modify, pure}
use steady_queue.Action.Preserves.{Preserves, Preserves-bind, Preserves-atomic, Preserves-if}
use steady_queue.Claimed.{claimed_by, release_all, fail_all_with}
use steady_queue.Process.{
  without_process, supervisees, prunable_rows, delete_row, delete, delete_each, deregister,
  release_all_claimed_executions, fail_all_claimed_executions_with, is_claiming_executions, prune,
  prune_each, prune_all,
}
use steady_queue.Limits.{holds, Inv}
use steady_queue.Limits.Return.{release_all-Inv}
use steady_queue.Limits.Drain.{fail_all_with-Inv}

-- Which jobs are claimed does not depend on the processes.
count_if-set_null :
    (p : ℕ → Bool) (i : ℕ) (rows : List ClaimedExecution)
    → count_if (λ c. p c.job_id) (map (without_process i) rows) ≡ count_if (λ c. p c.job_id) rows
count_if-set_null p i [] = refl
count_if-set_null p i (c ∷ cs) = ground (arith, count_if-set_null p i cs)

module _ (limits : String → ℕ) (env : Env) where
  abbrev Keeps : {A : Type 0} → Action A → Type 0
  Keeps m = Preserves (Inv env.job_class limits) m

  delete_row-Inv :
      (i : ℕ) (db : Db) → Inv env.job_class limits db → Inv env.job_class limits (delete_row i db)
  unfolding delete_row
  delete_row-Inv i db inv = record {
    core = record {
      unique = inv.core.unique;
      agree = inv.core.agree;
      ids_below = inv.core.ids_below;
      fits = λ k. rw (count_if-set_null (holds k db.jobs) i db.claimed) (inv.core.fits k);
    };
    fresh = λ j h. rw (count_if-set_null (λ r. r == j) i db.claimed) (inv.fresh j h);
    alone = λ j. rw (count_if-set_null (λ r. r == j) i db.claimed) (inv.alone j);
  }

  delete-Inv : (p : Process) → Keeps (delete p)
  unfolding delete release_all_claimed_executions
  delete-Inv p =
      Preserves-bind (Inv env.job_class limits) (release_all_claimed_executions p)
        (λ _. modify (delete_row p.id))
        (Preserves-if (Inv env.job_class limits) (is_claiming_executions p)
          (release_all (claimed_by p.id)) (pure tt) (release_all-Inv limits env (claimed_by p.id))
          (λ db inv. inv))
        (λ _ db inv. delete_row-Inv p.id db inv)

  delete_each-Inv : (ps : List Process) → Keeps (delete_each ps)
  unfolding delete_each
  delete_each-Inv [] = λ db inv. inv
  delete_each-Inv (p ∷ ps) =
      Preserves-bind (Inv env.job_class limits) (delete p) (λ _. delete_each ps) (delete-Inv p)
        (λ _. delete_each-Inv ps)

  -- A process that leaves releases its claims, and so do those that it supervises.
  pub deregister-Inv : (pruned : Bool) (p : Process) → Keeps (deregister pruned p)
  unfolding deregister
  deregister-Inv pruned p db inv =
      Preserves-bind (Inv env.job_class limits) (delete p)
        (λ _. delete_each (supervisees pruned p db)) (delete-Inv p)
        (λ _. delete_each-Inv (supervisees pruned p db)) db inv

  prune-Inv : (error : ℕ → String) (p : Process) → Keeps (prune env error p)
  unfolding prune fail_all_claimed_executions_with
  prune-Inv error p =
      Preserves-bind (Inv env.job_class limits)
        (fail_all_claimed_executions_with env (error p.last_heartbeat_at) p)
        (λ _. deregister true p)
        (Preserves-if (Inv env.job_class limits) (is_claiming_executions p)
          (fail_all_with env (error p.last_heartbeat_at) (claimed_by p.id)) (pure tt)
          (fail_all_with-Inv limits env (error p.last_heartbeat_at) (claimed_by p.id))
          (λ db inv. inv))
        (λ _. deregister-Inv true p)

  prune_each-Inv : (error : ℕ → String) (ps : List Process) → Keeps (prune_each env error ps)
  unfolding prune_each
  prune_each-Inv error [] = λ db inv. inv
  prune_each-Inv error (p ∷ ps) =
      Preserves-bind (Inv env.job_class limits) (prune env error p) (λ _. prune_each env error ps)
        (prune-Inv error p) (λ _. prune_each-Inv error ps)

  -- Pruning fails the claimed jobs of the processes that are gone, and gives their slots back.
  pub prune_all-Inv :
      (error : ℕ → String) (excluding : Option ℕ) → Keeps (prune_all env error excluding)
  unfolding prune_all
  prune_all-Inv error excluding =
      Preserves-atomic (Inv env.job_class limits)
        (λ db. prune_each env error (prunable_rows env excluding db) db)
        (λ db. prune_each-Inv error (prunable_rows env excluding db) db)
