-- ===== src/Runnable/Leaving.antt =====
-- registrable.py and process.py: what a process leaves in the tables when it has shut down.
use Prim.{absurd}
use steady_queue.Prelude.{
  ℕ, ◌≡◌, refl, subst, Bool, false, not, Option, none, some, List, [], ◌∷◌, map, arith, ◌==◌,
  filter, count_if, count_if-filter-le,
}
use steady_queue.Db.{Db, Process, ClaimedExecution, delete_claimed}
use steady_queue.Action.{Action, Result, ok, err, modify, pure, resume}
use steady_queue.Action.Preserves.{Preserves, Preserves-bind, Preserves-if}
use steady_queue.Executable.{ready}
use steady_queue.Claimed.{claimed_by, release, release_each, release_all}
use steady_queue.Process.{
  without_process, without_supervisor, delete_row, delete, delete_each, supervisees, deregister,
  is_claiming_executions, release_all_claimed_executions,
}
use steady_queue.Runnable
use steady_queue.Runnable.{Runnable, deregister_row, shutdown}
use steady_queue.Process.Alive.{present}

-- No row of a process, and no claim of its own.
pub record IsGone (i : ℕ) (db : Db) : Type 0 where
  pub no_row : present i db.processes ≡ 0
  pub no_claim : count_if (claimed_by i) db.claimed ≡ 0

present-delete_row :
    (i j : ℕ) (ps : List Process)
    → present i ps ≡ 0
    → present i (map (without_supervisor j) (filter (λ q. not (q.id == j)) ps)) ≡ 0
present-delete_row i j [] h = refl
present-delete_row i j (p ∷ ps) h = ground (arith, present-delete_row i j ps)

present-deleted :
    (i : ℕ) (ps : List Process)
    → present i (map (without_supervisor i) (filter (λ q. not (q.id == i)) ps)) ≡ 0
present-deleted i [] = refl
present-deleted i (p ∷ ps) = ground (arith, present-deleted i ps)

claimed_by-set_null :
    (i j : ℕ) (rows : List ClaimedExecution)
    → count_if (claimed_by i) rows ≡ 0
    → count_if (claimed_by i) (map (without_process j) rows) ≡ 0
unfolding claimed_by
claimed_by-set_null i j [] h = refl
claimed_by-set_null i j (c ∷ cs) h = ground (arith, claimed_by-set_null i j cs)

claimed_by-deleted :
    (i : ℕ) (rows : List ClaimedExecution)
    → count_if (claimed_by i) (map (without_process i) rows) ≡ 0
unfolding claimed_by
claimed_by-deleted i [] = refl
claimed_by-deleted i (c ∷ cs) = ground (arith, claimed_by-deleted i cs)

module _ (i : ℕ) where
  abbrev Keeps : {A : Type 0} → Action A → Type 0
  Keeps m = Preserves (IsGone i) m

  delete_row-IsGone : (j : ℕ) (db : Db) → IsGone i db → IsGone i (delete_row j db)
  unfolding delete_row
  delete_row-IsGone j db gone = record {
    no_row = present-delete_row i j db.processes gone.no_row;
    no_claim = claimed_by-set_null i j db.claimed gone.no_claim;
  }

  row_deleted : (db : Db) → IsGone i (delete_row i db)
  unfolding delete_row
  row_deleted db = record {
    no_row = present-deleted i db.processes;
    no_claim = claimed_by-deleted i db.claimed;
  }

  release-IsGone : (c : ClaimedExecution) → Keeps (release c)
  unfolding release ready delete_claimed
  release-IsGone c db gone =
      ground (arith, count_if-filter-le (claimed_by i) (λ r. not (r.job_id == c.job_id)) db.claimed)

  release_each-IsGone : (rows : List ClaimedExecution) → Keeps (release_each rows)
  unfolding release_each
  release_each-IsGone [] = λ db gone. gone
  release_each-IsGone (c ∷ cs) =
      Preserves-bind (IsGone i) (release c) (λ _. release_each cs) (release-IsGone c)
        (λ _. release_each-IsGone cs)

  release_all-IsGone : (listed : ClaimedExecution → Bool) → Keeps (release_all listed)
  unfolding release_all
  release_all-IsGone listed db = release_each-IsGone (filter listed db.claimed) db

  delete-IsGone : (p : Process) → Keeps (delete p)
  unfolding delete release_all_claimed_executions
  delete-IsGone p =
      Preserves-bind (IsGone i) (release_all_claimed_executions p) (λ _. modify (delete_row p.id))
        (Preserves-if (IsGone i) (is_claiming_executions p) (release_all (claimed_by p.id))
          (pure tt) (release_all-IsGone (claimed_by p.id)) (λ db gone. gone))
        (λ _ db gone. delete_row-IsGone p.id db gone)

  delete_each-IsGone : (ps : List Process) → Keeps (delete_each ps)
  unfolding delete_each
  delete_each-IsGone [] = λ db gone. gone
  delete_each-IsGone (p ∷ ps) =
      Preserves-bind (IsGone i) (delete p) (λ _. delete_each ps) (delete-IsGone p)
        (λ _. delete_each-IsGone ps)

module _ (p : Process) where
  row_after :
      (r : Result (Unit {0})) (db : Db)
      → (resume (λ _. modify (delete_row p.id)) r db).0 ≡ ok tt
      → IsGone p.id (resume (λ _. modify (delete_row p.id)) r db).1
  row_after (ok u) db returned = row_deleted p.id db
  row_after (err e) db returned = absurd (ground (arith, returned))

  delete-IsGone_own : (db : Db) → (delete p db).0 ≡ ok tt → IsGone p.id (delete p db).1
  unfolding delete
  delete-IsGone_own db returned =
      row_after (release_all_claimed_executions p db).0 (release_all_claimed_executions p db).1
        returned

  each_after :
      (rows : List Process) (r : Result (Unit {0})) (db : Db)
      → (r ≡ ok tt → IsGone p.id db)
      → (resume (λ _. delete_each rows) r db).0 ≡ ok tt
      → IsGone p.id (resume (λ _. delete_each rows) r db).1
  each_after rows (ok u) db gone returned = delete_each-IsGone p.id rows db (gone refl)
  each_after rows (err e) db gone returned = absurd (ground (arith, returned))

  pub deregister-IsGone :
      (pruned : Bool) (db : Db)
      → (deregister pruned p db).0 ≡ ok tt
      → IsGone p.id (deregister pruned p db).1
  unfolding deregister
  deregister-IsGone pruned db returned =
      each_after (supervisees pruned p db) (delete p db).0 (delete p db).1 (delete-IsGone_own db)
        returned

registered-IsGone :
    (o : Option Process) (p : Process) (db : Db)
    → o ≡ some p
    → (deregister_row o db).0 ≡ ok tt
    → IsGone p.id (deregister_row o db).1
registered-IsGone none p db registered returned = absurd (ground (arith, registered))
registered-IsGone (some q) p db registered returned =
    let same : q ≡ p = ground (arith, registered) in
    subst (λ x. IsGone x.id (deregister_row (some q) db).1) same
      (deregister-IsGone q false db returned)

-- A shutdown that raises nothing leaves neither the row of the process nor a claim of its own.
pub shutdown-IsGone :
    (r : Runnable) (p : Process) (db : Db)
    → r.process ≡ some p
    → (shutdown r db).0 ≡ ok tt
    → IsGone p.id (shutdown r db).1.1
unfolding shutdown Runnable.deregister
shutdown-IsGone r p db registered returned = registered-IsGone r.process p db registered returned
