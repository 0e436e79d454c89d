-- ===== src/Limits/Unblock.antt =====
-- blocked_execution.py and concurrency_controls.py: unblocking keeps the invariant.
use steady_queue.Prelude.{
  ℕ, ◌<◌, String, ◌≡◌, refl, Bool, Option, none, some, List, [], ◌∷◌, arith, ◌==◌, str_eq, ◌&&◌,
  not, filter, if◌then◌else◌, count_if, count_if-pos_of_first, count_if-filter-le,
}
use steady_queue.Db.{Db, Job, BlockedExecution}
use steady_queue.Env.{Env}
use steady_queue.Action.{Action, ◌>>=◌, pure, gets}
use steady_queue.Action.Preserves.{Preserves, Preserves-bind, Preserves-atomic, Preserves-if}
use steady_queue.Blocked.{
  next_blocked, release_next, release_one, release_many, expired_keys, unblock,
  unblock_next_blocked_job, release_next_blocked_job, blocked_order,
}
use steady_queue.Limits.{holders, Agrees, Inv, Owed}
use steady_queue.Limits.Acquire.{
  agrees-IsReadable, released, release_concurrency_lock_lem, released-IsUnique, released-Fits,
}
use steady_queue.Limits.Release.{release-Inv}

module _ (limits : String → ℕ) (env : Env) where
  abbrev Keeps : {A : Type 0} → Action A → Type 0
  Keeps m = Preserves (Inv env.job_class limits) m

  next_blocked-present :
      (k : String) (db : Db) (b : BlockedExecution)
      → next_blocked env k db ≡ some b
      → 0 < count_if (λ r. r.job_id == b.job_id) db.blocked
  unfolding next_blocked
  next_blocked-present k db b e = omega (
    arith,
    count_if-pos_of_first blocked_order (λ r. r.job_id == b.job_id)
        (filter (λ r. str_eq r.concurrency_key k && not (env.locked_blocked r.job_id)) db.blocked) b
        e (ground arith),
    count_if-filter-le (λ r. r.job_id == b.job_id)
        (λ r. str_eq r.concurrency_key k && not (env.locked_blocked r.job_id)) db.blocked,
  )

  release_next-Inv :
      (o : Option BlockedExecution) (db : Db)
      → ((b : BlockedExecution) → o ≡ some b → 0 < count_if (λ r. r.job_id == b.job_id) db.blocked)
      → Inv env.job_class limits db
      → Inv env.job_class limits (release_next env o db).1
  unfolding release_next
  release_next-Inv none db present inv = inv
  release_next-Inv (some b) db present inv = release-Inv limits env b db inv (present b refl)

  pub release_one-Inv : (k : String) → Keeps (release_one env k)
  unfolding release_one
  release_one-Inv k =
      Preserves-atomic (Inv env.job_class limits)
        (gets (next_blocked env k) >>= (λ b. release_next env b))
        (λ db inv. release_next-Inv (next_blocked env k db) db (next_blocked-present k db) inv)

  pub release_many-Inv : (ks : List String) → Keeps (release_many env ks)
  unfolding release_many
  release_many-Inv [] = λ db inv. inv
  release_many-Inv (k ∷ ks) =
      Preserves-bind (Inv env.job_class limits) (release_one env k) _ (release_one-Inv k) (λ r.
        Preserves-bind (Inv env.job_class limits) (release_many env ks) _ (release_many-Inv ks)
          (λ n db inv. inv))

  -- The maintenance that unblocks expired rows keeps the invariant.
  pub unblock-Inv : (limit : ℕ) → Keeps (unblock env limit)
  unfolding unblock
  unblock-Inv limit db inv = release_many-Inv (expired_keys env limit db) db inv

  module _ (job : Job) (agrees : Agrees env.job_class limits job) where
    -- The slot that is owed is given back.
    repaid : Db → Db
    repaid db = record db { semaphores = (released env job db.semaphores).1 }

    repaid-Inv :
        (db : Db)
        → Owed env.job_class limits job.concurrency_key db
        → Inv env.job_class limits (repaid db)
    unfolding repaid
    repaid-Inv db owed = record {
      core = record {
        unique = released-IsUnique env job db.semaphores owed.unique;
        agree = owed.agree;
        ids_below = owed.ids_below;
        fits =
            released-Fits limits env job db.semaphores (λ k. holders k db) agrees owed.unique
              owed.fits;
      };
      fresh = owed.fresh;
      alone = owed.alone;
    }

    release_next_blocked_job-Inv : (o : Option String) → Keeps (release_next_blocked_job env o)
    unfolding release_next_blocked_job
    release_next_blocked_job-Inv none = λ db inv. inv
    release_next_blocked_job-Inv (some key) =
        Preserves-bind (Inv env.job_class limits) (release_one env key) _ (release_one-Inv key)
          (λ r db inv. inv)

    then_unblock : Bool → Action (Unit {0})
    then_unblock b = if b then release_next_blocked_job env job.concurrency_key else pure tt

    then_unblock-Inv : (b : Bool) → Keeps (then_unblock b)
    unfolding then_unblock
    then_unblock-Inv b =
        Preserves-if (Inv env.job_class limits) b (release_next_blocked_job env job.concurrency_key)
          (pure tt) (release_next_blocked_job-Inv job.concurrency_key) (λ db inv. inv)

    unblock_next_lem :
        (db : Db)
        → unblock_next_blocked_job env job db
          ≡ then_unblock (released env job db.semaphores).0 (repaid db)
    unfolding unblock_next_blocked_job then_unblock repaid
    unblock_next_lem db =
        ground
          (arith, release_concurrency_lock_lem env job db (agrees-IsReadable limits env job agrees))

    -- Giving the slot of a job back, and unblocking the next job of its key.
    pub unblock_next-Inv :
        (db : Db)
        → Owed env.job_class limits job.concurrency_key db
        → Inv env.job_class limits (unblock_next_blocked_job env job db).1
    unblock_next-Inv db owed =
        rw (unblock_next_lem db)
          (then_unblock-Inv (released env job db.semaphores).0 (repaid db) (repaid-Inv db owed))
