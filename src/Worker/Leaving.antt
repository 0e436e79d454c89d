-- ===== src/Worker/Leaving.antt =====
-- worker.py, poller.py, registrable.py and process.py: a worker that ends leaves its claims.
use Prim.{absurd}
use steady_queue.Prelude.{
  ℕ, zero, suc, ◌-◌, String, ◌≡◌, refl, true, false, Option, none, some, List, [], ◌∷◌, map, arith,
  count_if, count_if-append, length, subst,
}
use steady_queue.Db.{Db, Process}
use steady_queue.Env.{Env}
use steady_queue.Action.{Result, ok, err, gets, ◌>>=◌}
use steady_queue.Action.Preserves.{Preserves, Preserves-bind, Preserves-atomic}
use steady_queue.Claimed.{orphaned, new_claim}
use steady_queue.QueueSelector.{Relation, scoped_relations}
use steady_queue.Ready.{
  lock_candidates, select_candidates, select_and_lock, claim_from, claim_scoped, claim,
}
use steady_queue.Limits.Claim.{lock_candidates-cases}
use steady_queue.Process.{deregister, is_claiming_executions, is_supervised}
use steady_queue.Runnable
use steady_queue.Runnable.{Runnable, deregister_row}
use steady_queue.Runnable.Leaving.{IsGone, shutdown-IsGone}
use steady_queue.Runnable.Orphans.{orphans, NoOrphans, deregister-NoOrphans}
use steady_queue.Poller.{Turn, ended}
use steady_queue.Poller.Last.{start_loop-last}
use steady_queue.Worker.{Pool, idle_limit, poll, process_id, shutdown_worker, run_worker}

orphaned-new_claims : (p : ℕ) (is : List ℕ) → count_if orphaned (map (new_claim p) is) ≡ 0
unfolding orphaned
orphaned-new_claims p [] = refl
orphaned-new_claims p (i ∷ is) = ground (arith, orphaned-new_claims p is)

module _ (env : Env) where
  select_and_lock-NoOrphans :
      (rel : Relation) (p limit : ℕ) → Preserves NoOrphans (select_and_lock env rel p limit)
  unfolding select_and_lock
  select_and_lock-NoOrphans rel p zero = λ db kept. kept
  select_and_lock-NoOrphans rel p (suc n) =
      Preserves-atomic NoOrphans (gets (select_candidates env rel (suc n)) >>= lock_candidates p)
        (λ db kept.
          let rows = select_candidates env rel (suc n) db in
          lock_candidates-cases p db NoOrphans rows kept (
            ground (
              arith,
              kept,
              count_if-append orphaned db.claimed (map (new_claim p) (map (λ r. r.job_id) rows)),
              orphaned-new_claims p (map (λ r. r.job_id) rows),
            )))

  claim_from-NoOrphans :
      (qs : List Relation) (p limit : ℕ) → Preserves NoOrphans (claim_from env qs p limit)
  unfolding claim_from
  claim_from-NoOrphans [] p limit = λ db kept. kept
  claim_from-NoOrphans (q ∷ qs) p limit =
      Preserves-bind NoOrphans (select_and_lock env q p limit) _
        (select_and_lock-NoOrphans q p limit)
        (λ locked.
          Preserves-bind NoOrphans (claim_from env qs p (limit - length locked)) _
            (claim_from-NoOrphans qs p (limit - length locked)) (λ rest db kept. kept))

  claim_scoped-NoOrphans :
      (r : Result (List Relation)) (p limit : ℕ) → Preserves NoOrphans (claim_scoped env r p limit)
  unfolding claim_scoped
  claim_scoped-NoOrphans (ok qs) p limit = claim_from-NoOrphans qs p limit
  claim_scoped-NoOrphans (err e) p limit = λ db kept. kept

  -- Every claim has the process that made it.
  claim-NoOrphans :
      (queues : List String) (limit : ℕ) (p : Option ℕ)
      → Preserves NoOrphans (claim env queues limit p)
  unfolding claim
  claim-NoOrphans queues limit none db kept = kept
  claim-NoOrphans queues limit (some p) db kept =
      claim_scoped-NoOrphans (scoped_relations queues db.ready db.pauses) p limit db kept

-- What a worker with a row leaves behind; `p` is that row.
pub record HasLeft (p : Process) (db : Db) : Type 0 where
  pub is_gone : IsGone p.id db
  pub no_orphans : orphans db ≡ 0

module _ (p : Process) (claiming : is_claiming_executions p ≡ true)
    (supervised : is_supervised p ≡ true) where
  abbrev Left : Runnable → Pool × Db → Type 0
  Left r w = r.process ≡ some p → HasLeft p w.1

  registered-NoOrphans :
      (o : Option Process) (db : Db)
      → o ≡ some p
      → orphans db ≡ 0
      → (deregister_row o db).0 ≡ ok tt
      → orphans (deregister_row o db).1 ≡ 0
  registered-NoOrphans none db registered kept returned = absurd (ground (arith, registered))
  registered-NoOrphans (some q) db registered kept returned =
      let same : p ≡ q = ground (arith, registered) in
      subst (λ x. (deregister false x db).0 ≡ ok tt → orphans (deregister false x db).1 ≡ 0) same
        (deregister-NoOrphans p claiming db supervised kept) returned

  shutdown_worker-Left :
      (r : Runnable) (w : Pool × Db)
      → orphans w.1 ≡ 0
      → (shutdown_worker r w).0 ≡ ok tt
      → Left (shutdown_worker r w).1.0 (shutdown_worker r w).1.1
  unfolding shutdown_worker Runnable.shutdown Runnable.deregister
  shutdown_worker-Left r w kept returned registered = record {
    is_gone = shutdown-IsGone r p w.1 registered returned;
    no_orphans = registered-NoOrphans r.process w.1 registered kept returned;
  }

  -- A supervised worker that ends its loop without an exception, whatever reached it while it ran,
  -- and has still a row at the end, leaves neither that row nor a claimed execution of its own,
  -- and no claimed execution that is without a process, if there was none at the start.
  pub run_worker-HasLeft :
      (env : Env) (queues : List String) (polling_interval : ℕ) (ts : List Turn) (r : Runnable)
      (w : Pool × Db)
      → orphans w.1 ≡ 0
      → (run_worker env queues polling_interval ts r w).ending ≡ ended (ok tt)
      → (run_worker env queues polling_interval ts r w).runnable.process ≡ some p
      → HasLeft p (run_worker env queues polling_interval ts r w).world.1
  unfolding run_worker poll
  run_worker-HasLeft env queues polling_interval ts r w kept over registered =
      start_loop-last _ _ _ Left (λ v. orphans v.1 ≡ 0)
        (λ s v. claim-NoOrphans env queues (idle_limit v.0) (process_id s) v.1) shutdown_worker-Left
        ts r w kept over registered
