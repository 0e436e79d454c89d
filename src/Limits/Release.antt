-- ===== src/Limits/Release.antt =====
-- blocked_execution.py: what `release` does to a blocked execution, and that it keeps the invariant.
use steady_queue.Prelude.{
  refl, ℕ, ◌+◌, ◌<◌, String, ◌≡◌, true, false, none, some, [], ◌∷◌, ◌++◌, arith, ◌==◌, not, filter,
  if◌then◌else◌, count_if, count_if-append, count_if-drop, any-eq-ltb-count_if, Bool-cases, inl,
  inr, Option-cases, All-find?,
}
use steady_queue.Db.{Db, Job, ReadyExecution, BlockedExecution, get_job, has_ready, delete_blocked}
use steady_queue.Env.{Env}
use steady_queue.Action.{ok, err, does_not_exist, Result-cases}
use steady_queue.Locks.{wait_for, expires_at}
use steady_queue.Blocked.{promote_to_ready, release}
use steady_queue.Limits.{holds, holders, executions, slot, Agrees, Inv}
use steady_queue.Limits.Acquire.{
  IsReadable, agrees-IsReadable, expiry, wait_for_lem, acquired, acquired-IsUnique, acquired-Fits,
}

-- The ready row that a blocked row becomes.
abbrev pub promoted_row : BlockedExecution → ReadyExecution
promoted_row b = record { job_id = b.job_id; queue_name = b.queue_name; priority = b.priority }

module _ (env : Env) (b : BlockedExecution) (job : Job) where
  -- The database after `release`, with the job that it finds.
  pub released_db : Db → Db
  released_db db =
      let w = acquired env job db.semaphores in
      if w.0
      then record db {
        semaphores = w.1;
        ready = db.ready ++ promoted_row b ∷ [];
        blocked = filter (λ r. not (r.job_id == b.job_id)) db.blocked;
      }
      else record db { semaphores = w.1 }

  pub release_lem :
      (key : String) (db : Db)
      → get_job b.job_id db.jobs ≡ some job
      → job.concurrency_key ≡ some key
      → expires_at env job ≡ ok (expiry env job)
      → has_ready db b.job_id ≡ false
      → release env b db ≡ (ok (acquired env job db.semaphores).0, released_db db)
  unfolding release promote_to_ready has_ready delete_blocked released_db
  release_lem key db known keyed readable no_ready =
      elim (Bool-cases (acquired env job db.semaphores).0) [
        | inl granted ↦
            rw (known, wait_for_lem env job db key keyed readable, granted, no_ready) refl
        | inr denied ↦ rw (known, wait_for_lem env job db key keyed readable, denied) refl
      ]

  semaphores-released_db :
      (db : Db) → (released_db db).semaphores ≡ (acquired env job db.semaphores).1
  unfolding released_db
  semaphores-released_db db = ground arith

  jobs-released_db : (db : Db) → (released_db db).jobs ≡ db.jobs
  unfolding released_db
  jobs-released_db db = ground arith

  next_id-released_db : (db : Db) → (released_db db).next_id ≡ db.next_id
  unfolding released_db
  next_id-released_db db = ground arith

  claimed-released_db : (db : Db) → (released_db db).claimed ≡ db.claimed
  unfolding released_db
  claimed-released_db db = ground arith

  pub ready-released_db :
      (db : Db)
      → (released_db db).ready
        ≡ (if (acquired env job db.semaphores).0 then db.ready ++ promoted_row b ∷ [] else db.ready)
  unfolding released_db
  ready-released_db db = ground arith

  released_db-granted :
      (db : Db)
      → (acquired env job db.semaphores).0 ≡ true
      → released_db db ≡ record db {
        semaphores = (acquired env job db.semaphores).1;
        ready = db.ready ++ promoted_row b ∷ [];
        blocked = filter (λ r. not (r.job_id == b.job_id)) db.blocked;
      }
  unfolding released_db
  released_db-granted db granted = ground arith

  released_db-denied :
      (db : Db)
      → (acquired env job db.semaphores).0 ≡ false
      → released_db db ≡ record db { semaphores = (acquired env job db.semaphores).1 }
  unfolding released_db
  released_db-denied db denied = ground arith

  moved :
      (i : ℕ) (db : Db)
      → count_if (λ r. r.job_id == b.job_id) db.blocked ≡ 1
      → (if b.job_id == i then 1 else 0)
        ≡ (if b.job_id == i then count_if (λ r. r.job_id == b.job_id) db.blocked else 0)
  moved i db one = rw one

  -- The job keeps its number of executions: its blocked row becomes a ready one, or stays.
  executions-released_db :
      (i : ℕ) (db : Db)
      → count_if (λ r. r.job_id == b.job_id) db.blocked ≡ 1
      → executions i (released_db db) ≡ executions i db
  executions-released_db i db one = elim (Bool-cases (acquired env job db.semaphores).0) [
    | inl granted ↦ rw (released_db-granted db granted) (
        omega (
          arith,
          count_if-append (λ r. r.job_id == i) db.ready (promoted_row b ∷ []),
          count_if-drop (λ r. r.job_id) (λ j. j == i) b.job_id db.blocked,
          moved i db one,
        ))
    | inr denied ↦ rw (released_db-denied db denied)
  ]

  holders-released_db :
      (k : String) (db : Db)
      → get_job b.job_id db.jobs ≡ some job
      → holders k (released_db db)
        ≡ holders k db
          + (if (acquired env job db.semaphores).0 then slot k job.concurrency_key else 0)
  holders-released_db k db known =
      rw (jobs-released_db db, claimed-released_db db, ready-released_db db)
        (elim (Bool-cases (acquired env job db.semaphores).0) [
          | inl granted ↦ rw granted (
              ground (
                arith,
                known,
                count_if-append (λ r. holds k db.jobs r.job_id) db.ready (promoted_row b ∷ []),
              ))
          | inr denied ↦ rw denied (omega arith)
        ])

release_unkeyed :
    (env : Env) (b : BlockedExecution) (job : Job) (db : Db)
    → get_job b.job_id db.jobs ≡ some job
    → job.concurrency_key ≡ none
    → (release env b db).1 ≡ db
unfolding release wait_for
release_unkeyed env b job db known keyless = elim (Result-cases (expires_at env job)) [
  | inl (at, read) ↦ rw (known, keyless, read) refl
  | inr (e, raised) ↦ rw (known, keyless, raised) refl
]

release_unknown :
    (env : Env) (b : BlockedExecution) (db : Db)
    → get_job b.job_id db.jobs ≡ none
    → release env b db ≡ (err does_not_exist, db)
unfolding release
release_unknown env b db unknown = ground arith

module _ (limits : String → ℕ) (env : Env) (b : BlockedExecution) (db : Db)
    (inv : Inv env.job_class limits db) where
  released_db-Inv :
      (job : Job)
      → get_job b.job_id db.jobs ≡ some job
      → count_if (λ r. r.job_id == b.job_id) db.blocked ≡ 1
      → Inv env.job_class limits (released_db env b job db)
  unfolding get_job
  released_db-Inv job known one = record {
    core = record {
      unique =
          rw (semaphores-released_db env b job db)
            (acquired-IsUnique env job db.semaphores inv.core.unique);
      agree = rw (jobs-released_db env b job db) inv.core.agree;
      ids_below =
          rw (jobs-released_db env b job db, next_id-released_db env b job db) inv.core.ids_below;
      fits = λ k.
          rw (semaphores-released_db env b job db, holders-released_db env b job k db known)
            (acquired-Fits limits env job db.semaphores (λ j. holders j db)
              (All-find? (Agrees env.job_class limits) (λ j. j.id == b.job_id) db.jobs job
                inv.core.agree known)
              inv.core.fits k);
    };
    fresh = λ i h.
        rw (executions-released_db env b job i db one)
          (inv.fresh i (rw (next_id-released_db env b job db) at h));
    alone = λ i. rw (executions-released_db env b job i db one) (inv.alone i);
  }

  only_blocked :
      0 < count_if (λ r. r.job_id == b.job_id) db.blocked
      → (count_if (λ r. r.job_id == b.job_id) db.blocked ≡ 1) × (has_ready db b.job_id ≡ false)
  unfolding has_ready
  only_blocked present =
      ground (arith, inv.alone b.job_id, any-eq-ltb-count_if (λ r. r.job_id == b.job_id) db.ready)

  readable : (job : Job) → get_job b.job_id db.jobs ≡ some job → IsReadable env job
  unfolding get_job
  readable job known = agrees-IsReadable limits env job (
      All-find? (Agrees env.job_class limits) (λ j. j.id == b.job_id) db.jobs job inv.core.agree
        known)

  -- Releasing a row of the table keeps the invariant, whatever `release` comes to.
  pub release-Inv :
      0 < count_if (λ r. r.job_id == b.job_id) db.blocked
      → Inv env.job_class limits (release env b db).1
  release-Inv present = elim (Option-cases (get_job b.job_id db.jobs)) [
    | inl unknown ↦ rw (release_unknown env b db unknown) inv
    | inr (job, known) ↦ elim (Option-cases job.concurrency_key) [
      | inl keyless ↦ rw (release_unkeyed env b job db known keyless) inv
      | inr (key, keyed) ↦
          rw
            (release_lem env b job key db known keyed (readable job known key keyed)
              (only_blocked present).1)
            (released_db-Inv job known (only_blocked present).0)
    ]
  ]
