-- ===== src/Runnable/Orphans.antt =====
-- process.py, executor.py and claimed_execution.py: a worker that leaves gives back its claims, and
-- leaves none of them without a process.
use Prim.{absurd}
use steady_queue.Prelude.{
  ℕ, ◌≡◌, refl, Bool, true, false, ◌&&◌, not, List, [], ◌∷◌, map, arith, ◌==◌, filter, elem,
  count_if, count_if-filter-le, Option-cases, inl, inr,
}
use steady_queue.Db.{Db, Process, ClaimedExecution, delete_claimed, get_job}
use steady_queue.Action.{Result-cases, ok}
use steady_queue.Action.Preserves.{Preserves, Preserves-bind}
use steady_queue.Executable.{ready}
use steady_queue.Claimed.{claimed_by, orphaned, release, release_each, release_all}
use steady_queue.Process.{
  without_process, delete_row, delete, supervisees, deregister, is_supervised,
  is_claiming_executions, release_all_claimed_executions, delete_each,
}

abbrev pub orphans : Db → ℕ
orphans db = count_if orphaned db.claimed

module _ (i : ℕ) where
  abbrev unlisted : List ClaimedExecution → ClaimedExecution → Bool
  unlisted rows c = claimed_by i c && not (elem c.job_id (map (λ r. r.job_id) rows))

  -- Every claim of the process is of a job of the rows.
  abbrev Covers : List ClaimedExecution → List ClaimedExecution → Type 0
  Covers rows claimed = count_if (unlisted rows) claimed ≡ 0

  Covers-more :
      (c : ClaimedExecution) (rows claimed : List ClaimedExecution)
      → Covers rows claimed
      → Covers (c ∷ rows) claimed
  Covers-more c rows [] h = refl
  Covers-more c rows (x ∷ xs) h = ground (arith, Covers-more c rows xs)

  Covers-filter : (claimed : List ClaimedExecution) → Covers (filter (claimed_by i) claimed) claimed
  Covers-filter [] = refl
  Covers-filter (c ∷ cs) =
      ground (arith, Covers-filter cs, Covers-more c (filter (claimed_by i) cs) cs)

  Covers-rest :
      (c : ClaimedExecution) (rows claimed : List ClaimedExecution)
      → Covers (c ∷ rows) claimed
      → Covers rows (filter (λ r. not (r.job_id == c.job_id)) claimed)
  Covers-rest c rows [] h = refl
  Covers-rest c rows (x ∷ xs) h = ground (arith, Covers-rest c rows xs)

  Covers-none :
      (claimed : List ClaimedExecution) → Covers [] claimed → count_if (claimed_by i) claimed ≡ 0
  Covers-none [] h = refl
  Covers-none (x ∷ xs) h = ground (arith, Covers-none xs)

  release-ok :
      (c : ClaimedExecution) (db : Db)
      → (release c db).0 ≡ ok tt
      → (release c db).1.claimed ≡ filter (λ r. not (r.job_id == c.job_id)) db.claimed
  unfolding release delete_claimed ready
  release-ok c db returned = elim (Option-cases (get_job c.job_id db.jobs)) [
    | inl unknown ↦ absurd (ground (arith, unknown, returned))
    | inr (job, known) ↦ ground (arith, known)
  ]

  release_each-none :
      (rows : List ClaimedExecution) (db : Db)
      → Covers rows db.claimed
      → (release_each rows db).0 ≡ ok tt
      → count_if (claimed_by i) (release_each rows db).1.claimed ≡ 0
  unfolding release_each
  release_each-none [] db covers returned = Covers-none db.claimed covers
  release_each-none (c ∷ cs) db covers returned = elim (Result-cases (release c db).0) [
    | inr (e, raised) ↦ absurd (ground (arith, raised, returned))
    | inl (u, released) ↦
        rw (released, release_each)
          (release_each-none cs (release c db).1
            (rw (release-ok c db released) (Covers-rest c cs db.claimed covers))
            (rw (released, release_each) at returned))
  ]

  -- Where releasing the claims of a process raises nothing, it has none left.
  release_all-none :
      (db : Db)
      → (release_all (claimed_by i) db).0 ≡ ok tt
      → count_if (claimed_by i) (release_all (claimed_by i) db).1.claimed ≡ 0
  unfolding release_all
  release_all-none db returned =
      release_each-none (filter (claimed_by i) db.claimed) db (Covers-filter db.claimed) returned

abbrev pub NoOrphans : Db → Type 0
NoOrphans db = orphans db ≡ 0

release-NoOrphans : (c : ClaimedExecution) → Preserves NoOrphans (release c)
unfolding release ready delete_claimed
release-NoOrphans c db none_yet =
    ground (arith, count_if-filter-le orphaned (λ r. not (r.job_id == c.job_id)) db.claimed)

release_each-NoOrphans : (rows : List ClaimedExecution) → Preserves NoOrphans (release_each rows)
unfolding release_each
release_each-NoOrphans [] = λ db none_yet. none_yet
release_each-NoOrphans (c ∷ cs) =
    Preserves-bind NoOrphans (release c) (λ _. release_each cs) (release-NoOrphans c)
      (λ _. release_each-NoOrphans cs)

release_all-NoOrphans :
    (listed : ClaimedExecution → Bool) → Preserves NoOrphans (release_all listed)
unfolding release_all
release_all-NoOrphans listed db = release_each-NoOrphans (filter listed db.claimed) db

orphaned-set_null :
    (i : ℕ) (rows : List ClaimedExecution)
    → count_if (claimed_by i) rows ≡ 0
    → count_if orphaned rows ≡ 0
    → count_if orphaned (map (without_process i) rows) ≡ 0
unfolding orphaned claimed_by
orphaned-set_null i [] none_of none_yet = refl
orphaned-set_null i (c ∷ cs) none_of none_yet = ground (arith, orphaned-set_null i cs)

module _ (p : Process) (claiming : is_claiming_executions p ≡ true) where
  delete-NoOrphans : (db : Db) → NoOrphans db → (delete p db).0 ≡ ok tt → NoOrphans (delete p db).1
  unfolding delete delete_row release_all_claimed_executions
  delete-NoOrphans db none_yet returned = elim (Result-cases (release_all (claimed_by p.id) db).0) [
    | inr (e, raised) ↦ absurd (ground (arith, raised, returned, claiming))
    | inl (u, released) ↦
        rw (claiming, released)
          (orphaned-set_null p.id (release_all (claimed_by p.id) db).1.claimed
            (release_all-none p.id db released)
            (release_all-NoOrphans (claimed_by p.id) db none_yet))
  ]

  -- A supervised worker that is deregistered without an exception leaves no orphan, if there was
  -- none.
  pub deregister-NoOrphans :
      (db : Db)
      → is_supervised p ≡ true
      → NoOrphans db
      → (deregister false p db).0 ≡ ok tt
      → NoOrphans (deregister false p db).1
  unfolding deregister supervisees delete_each
  deregister-NoOrphans db supervised none_yet returned = elim (Result-cases (delete p db).0) [
    | inr (e, raised) ↦ absurd (ground (arith, raised, returned))
    | inl (u, deleted) ↦ rw (supervised, deleted) (delete-NoOrphans db none_yet deleted)
  ]
