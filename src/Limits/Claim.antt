-- ===== src/Limits/Claim.antt =====
-- ready_execution.py: claiming moves ready executions to a process, and keeps the invariant.
use steady_queue.Prelude.{
  ℕ, zero, suc, ◌-◌, ◌+◌, ◌≤◌, String, ◌≡◌, refl, Bool, true, ◌&&◌, not, Option, none, some, List,
  [], ◌∷◌, map, arith, ◌==◌, filter, elem, sort_by, length, count_if, count_if-append,
  count_if-split, count_if-take-le, count_if-sort_by, count_if-filter-le, All, Bool-cases, inl, inr,
}
use steady_queue.Semaphore.{get}
use steady_queue.Semaphore.Slots.{SlotsFit-mono}
use steady_queue.Db.{Db, ReadyExecution}
use steady_queue.Env.{Env}
use steady_queue.Action.{Action, Result, ok, err, ◌>>=◌, gets}
use steady_queue.Action.Preserves.{Preserves, Preserves-bind, Preserves-atomic}
use steady_queue.Claimed.{new_claim}
use steady_queue.QueueSelector.{Relation, in_relation, scoped_relations}
use steady_queue.Ready.{
  job_ids, ready_order, lock_candidates, select_candidates, select_and_lock, claim_from,
  claim_scoped, claim,
}
use steady_queue.Ready.Lock.{
  elem_self, locked_db, refused, lock_candidates_lem, lock_candidates-refused,
}
use steady_queue.Limits.{holds, holders, executions, Inv}

count_if-map_claim :
    (q : ℕ → Bool) (p : ℕ) (rows : List ReadyExecution)
    → count_if (λ c. q c.job_id) (map (new_claim p) (job_ids rows))
      ≡ count_if (λ r. q r.job_id) rows
count_if-map_claim q p [] = refl
count_if-map_claim q p (r ∷ rs) = ground (arith, count_if-map_claim q p rs)

count_if-and :
    (q e : ReadyExecution → Bool) (rows : List ReadyExecution)
    → All (λ r. e r ≡ true) rows
    → count_if q rows ≡ count_if (λ r. e r && q r) rows
count_if-and q e [] h = refl
count_if-and q e (r ∷ rs) h = ground (arith, count_if-and q e rs)

count_if-filter :
    (q e : ReadyExecution → Bool) (rows : List ReadyExecution)
    → count_if q (filter e rows) ≡ count_if (λ r. e r && q r) rows
count_if-filter q e [] = refl
count_if-filter q e (r ∷ rs) = ground (arith, count_if-filter q e rs)

module _ (env : Env) (rel : Relation) (limit p : ℕ) (db : Db) where
  abbrev open_rows : ReadyExecution → Bool
  open_rows r = in_relation rel r && not (env.locked_ready r.job_id)

  -- No more rows are selected of a kind than there are, even with the others left in place.
  selected-le :
      (q : ReadyExecution → Bool)
      → count_if q (select_candidates env rel limit db) ≤ count_if q db.ready
  unfolding select_candidates
  selected-le q = omega (
    arith,
    count_if-take-le q limit (sort_by ready_order (filter open_rows db.ready)),
    count_if-sort_by ready_order q (filter open_rows db.ready),
    count_if-filter-le q open_rows db.ready,
  )

  abbrev rows : List ReadyExecution
  rows = select_candidates env rel limit db

  moved-le :
      (q : ℕ → Bool)
      → count_if (λ r. q r.job_id) rows
          + count_if (λ r. q r.job_id) (filter (λ r. not (elem r.job_id (job_ids rows))) db.ready)
        ≤ count_if (λ r. q r.job_id) db.ready
  moved-le q = omega (
    arith,
    count_if-and (λ r. q r.job_id) (λ r. elem r.job_id (job_ids rows)) rows (elem_self rows),
    selected-le (λ r. elem r.job_id (job_ids rows) && q r.job_id),
    count_if-split (λ r. q r.job_id) (λ r. elem r.job_id (job_ids rows)) db.ready,
    count_if-filter (λ r. q r.job_id) (λ r. elem r.job_id (job_ids rows)) db.ready,
  )

  executions-locked_db-le : (i : ℕ) → executions i (locked_db p rows db) ≤ executions i db
  executions-locked_db-le i = omega (
    arith,
    count_if-append (λ c. c.job_id == i) db.claimed (map (new_claim p) (job_ids rows)),
    count_if-map_claim (λ j. j == i) p rows,
    moved-le (λ j. j == i),
  )

  holders-locked_db-le : (k : String) → holders k (locked_db p rows db) ≤ holders k db
  holders-locked_db-le k = omega (
    arith,
    count_if-append (λ c. holds k db.jobs c.job_id) db.claimed (map (new_claim p) (job_ids rows)),
    count_if-map_claim (holds k db.jobs) p rows,
    moved-le (holds k db.jobs),
  )

  locked_db-Inv :
      (limits : String → ℕ)
      → Inv env.job_class limits db
      → Inv env.job_class limits (locked_db p rows db)
  locked_db-Inv limits inv = record {
    core = record {
      unique = inv.core.unique;
      agree = inv.core.agree;
      ids_below = inv.core.ids_below;
      fits = λ k.
          SlotsFit-mono (limits k) (holders k db) (holders k (locked_db p rows db))
            (get k db.semaphores) (holders-locked_db-le k) (inv.core.fits k);
    };
    fresh = λ i h. omega (arith, inv.fresh i h, executions-locked_db-le i);
    alone = λ i. omega (arith, inv.alone i, executions-locked_db-le i);
  }

module _ (p : ℕ) (db : Db) (Good : Db → Type 0) where
  -- Locking candidates either refuses them all or ends in `locked_db`.
  pub lock_candidates-cases :
      (rows : List ReadyExecution)
      → Good db
      → Good (locked_db p rows db)
      → Good (lock_candidates p rows db).1
  unfolding lock_candidates
  lock_candidates-cases [] here there = here
  lock_candidates-cases (r ∷ rs) here there = elim (Bool-cases (refused p (r ∷ rs) db)) [
    | inl taken ↦ rw (lock_candidates-refused p r rs db taken) here
    | inr free ↦ rw (lock_candidates_lem p r rs db free) there
  ]

module _ (limits : String → ℕ) (env : Env) where
  abbrev Keeps : {A : Type 0} → Action A → Type 0
  Keeps m = Preserves (Inv env.job_class limits) m

  select_and_lock-Inv : (rel : Relation) (p limit : ℕ) → Keeps (select_and_lock env rel p limit)
  unfolding select_and_lock
  select_and_lock-Inv rel p zero = λ db inv. inv
  select_and_lock-Inv rel p (suc n) =
      Preserves-atomic (Inv env.job_class limits)
        (gets (select_candidates env rel (suc n)) >>= lock_candidates p)
        (λ db inv.
          lock_candidates-cases p db (Inv env.job_class limits)
            (select_candidates env rel (suc n) db) inv
            (locked_db-Inv env rel (suc n) p db limits inv))

  pub claim_from-Inv : (qs : List Relation) (p limit : ℕ) → Keeps (claim_from env qs p limit)
  unfolding claim_from
  claim_from-Inv [] p limit = λ db inv. inv
  claim_from-Inv (q ∷ qs) p limit =
      Preserves-bind (Inv env.job_class limits) (select_and_lock env q p limit) _
        (select_and_lock-Inv q p limit)
        (λ locked.
          Preserves-bind (Inv env.job_class limits) (claim_from env qs p (limit - length locked)) _
            (claim_from-Inv qs p (limit - length locked)) (λ rest db inv. inv))

  claim_scoped-Inv : (r : Result (List Relation)) (p limit : ℕ) → Keeps (claim_scoped env r p limit)
  unfolding claim_scoped
  claim_scoped-Inv (ok qs) p limit = claim_from-Inv qs p limit
  claim_scoped-Inv (err e) p limit = λ db inv. inv

  pub claim-Inv :
      (queues : List String) (limit : ℕ) (process : Option ℕ)
      → Keeps (claim env queues limit process)
  unfolding claim
  claim-Inv queues limit none db inv = inv
  claim-Inv queues limit (some p) db inv =
      claim_scoped-Inv (scoped_relations queues db.ready db.pauses) p limit db inv
