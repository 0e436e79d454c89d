-- ===== src/Process/Alive.antt =====
-- prunable.py: a process that is alive keeps its row when others are pruned.
use steady_queue.Prelude.{
  ℕ, ◌<◌, String, ◌≡◌, refl, ◌∙◌, true, false, not, Option, List, [], ◌∷◌, map, arith, ◌==◌, filter,
  count_if,
}
use steady_queue.Db.{Db, Process, ClaimedExecution, delete_claimed}
use steady_queue.Env.{Env}
use steady_queue.Action.{pure, modify, ◌>>◌}
use steady_queue.Action.Preserves.{Preserves, Preserves-bind, Preserves-atomic, Preserves-if}
use steady_queue.Executable.{ready}
use steady_queue.Claimed.{
  claimed_by, record_failure, failed_with, release, release_each, release_all, unblock_next_job,
  fail_each, fail_all_with,
}
use steady_queue.Limits.Frame.{SameJobs-refl, unblock_next_job-SameJobs}
use steady_queue.Process.{
  without_supervisor, delete_row, delete, delete_each, supervisees, deregister,
  is_claiming_executions, release_all_claimed_executions, fail_all_claimed_executions_with, prune,
  prune_each, prunable_rows, prune_all,
}

abbrev pub present : ℕ → List Process → ℕ
present i ps = count_if (λ q. q.id == i) ps

-- Work on the claims of a process does not touch the table of the processes.
module _ (env : Env) (ps : List Process) where
  abbrev Same : Db → Type 0
  Same db = db.processes ≡ ps

  failed_with-Same : (i : ℕ) (error : String) → Preserves Same (failed_with i error)
  unfolding failed_with record_failure delete_claimed
  failed_with-Same i error db same = ground arith

  release-Same : (c : ClaimedExecution) → Preserves Same (release c)
  unfolding release ready delete_claimed
  release-Same c db same = ground arith

  release_each-Same : (rows : List ClaimedExecution) → Preserves Same (release_each rows)
  unfolding release_each
  release_each-Same [] = λ db same. same
  release_each-Same (c ∷ cs) =
      Preserves-bind Same (release c) (λ _. release_each cs) (release-Same c)
        (λ _. release_each-Same cs)

  unblock_next_job-Same : (i : ℕ) → Preserves Same (unblock_next_job env i)
  unblock_next_job-Same i db same =
      (unblock_next_job-SameJobs db env i db (SameJobs-refl db)).processes ∙ same

  fail_each-Same :
      (error : String) (rows : List ClaimedExecution) → Preserves Same (fail_each env error rows)
  unfolding fail_each
  fail_each-Same error [] = λ db same. same
  fail_each-Same error (c ∷ cs) =
      Preserves-bind Same (failed_with c.job_id error)
        (λ _. unblock_next_job env c.job_id >> fail_each env error cs)
        (failed_with-Same c.job_id error)
        (λ _.
          Preserves-bind Same (unblock_next_job env c.job_id) (λ _. fail_each env error cs)
            (unblock_next_job-Same c.job_id) (λ _. fail_each-Same error cs))

  release_all_claimed-Same : (p : Process) → Preserves Same (release_all_claimed_executions p)
  unfolding release_all_claimed_executions release_all
  release_all_claimed-Same p =
      Preserves-if Same (is_claiming_executions p) (release_all (claimed_by p.id)) (pure tt)
        (λ db same. release_each-Same (filter (claimed_by p.id) db.claimed) db same)
        (λ db same. same)

  fail_all_claimed-Same :
      (error : String) (p : Process) → Preserves Same (fail_all_claimed_executions_with env error p)
  unfolding fail_all_claimed_executions_with fail_all_with
  fail_all_claimed-Same error p =
      Preserves-if Same (is_claiming_executions p) (fail_all_with env error (claimed_by p.id))
        (pure tt) (λ db same. fail_each-Same error (filter (claimed_by p.id) db.claimed) db same)
        (λ db same. same)

present-without :
    (i j : ℕ) (ps : List Process)
    → (j == i) ≡ false
    → present i (map (without_supervisor j) (filter (λ q. not (q.id == j)) ps)) ≡ present i ps
present-without i j [] ne = refl
present-without i j (q ∷ qs) ne = ground (arith, present-without i j qs ne)

module _ (env : Env) (i : ℕ) where
  abbrev Alive : Db → Type 0
  Alive db = 0 < present i db.processes

  release_all_claimed-Alive : (p : Process) → Preserves Alive (release_all_claimed_executions p)
  release_all_claimed-Alive p db alive =
      rw (release_all_claimed-Same env db.processes p db refl) alive

  fail_all_claimed-Alive :
      (error : String) (p : Process)
      → Preserves Alive (fail_all_claimed_executions_with env error p)
  fail_all_claimed-Alive error p db alive =
      rw (fail_all_claimed-Same env db.processes error p db refl) alive

  delete-Alive : (p : Process) → (p.id == i) ≡ false → Preserves Alive (delete p)
  unfolding delete delete_row
  delete-Alive p ne =
      Preserves-bind Alive (release_all_claimed_executions p) (λ _. modify (delete_row p.id))
        (release_all_claimed-Alive p)
        (λ _ db alive. rw (present-without i p.id db.processes ne) alive)

  -- A pruned process takes no supervised one with it.
  prune-Alive :
      (error : ℕ → String) (p : Process) → (p.id == i) ≡ false → Preserves Alive (prune env error p)
  unfolding prune deregister supervisees delete_each
  prune-Alive error p ne =
      Preserves-bind Alive (fail_all_claimed_executions_with env (error p.last_heartbeat_at) p)
        (λ _. deregister true p) (fail_all_claimed-Alive (error p.last_heartbeat_at) p)
        (λ _.
          Preserves-bind Alive (delete p) (λ _. delete_each []) (delete-Alive p ne)
            (λ _ db alive. alive))

  prune_each-Alive :
      (error : ℕ → String) (rows : List Process)
      → present i rows ≡ 0
      → Preserves Alive (prune_each env error rows)
  unfolding prune_each
  prune_each-Alive error [] none_of = λ db alive. alive
  prune_each-Alive error (p ∷ ps) none_of =
      Preserves-bind Alive (prune env error p) (λ _. prune_each env error ps)
        (prune-Alive error p (ground arith)) (λ _. prune_each-Alive error ps (ground arith))

  -- An id with a row, of which no row is prunable (a heartbeat is recent, or it is excluded or
  -- locked), still has one after the others have been pruned, even where that raises.
  pub prune_all-keeps :
      (error : ℕ → String) (excluding : Option ℕ) (db : Db)
      → present i (prunable_rows env excluding db) ≡ 0
      → 0 < present i db.processes
      → 0 < present i (prune_all env error excluding db).1.processes
  unfolding prune_all
  prune_all-keeps error excluding db none_of alive =
      Preserves-atomic Alive (prune_each env error (prunable_rows env excluding db))
        (prune_each-Alive error (prunable_rows env excluding db) none_of) db alive
