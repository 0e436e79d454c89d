-- ===== src/Backend/Enqueued.antt =====
-- backend.py: a task that is enqueued has a job that is ready, for now or later.
use Prim.{absurd}
use steady_queue.Prelude.{
  ℕ, String, ◌≡◌, refl, Option, none, some, arith, ◌==◌, any-eq-ltb-count_if, Option-cases, inl,
  inr,
}
use steady_queue.Db.{Db, Job, has_ready, has_claimed, has_failed, has_scheduled, has_blocked}
use steady_queue.Env.{Env}
use steady_queue.Limits.{Agrees, Inv}
use steady_queue.Limits.Create.{created_db, create_lem, executions-created_db, claimed-created_db}
use steady_queue.Backend.{
  Task, GivenTask, steady_queue_task, other_task, with_key, key_for, ResultStatus, ready,
  attributes_from_django_task, attributes_of, execution, status, result_status, enqueue_job,
  enqueue,
}

module _ {A : Type 0} (env : Env) where
  with_key-unfinished :
      (task : Task A) (args : A) (key : Option (Option String)) (job : Job)
      → with_key env task args key ≡ some job
      → job.finished_at ≡ none
  with_key-unfinished task args none job made = absurd (ground (arith, made))
  with_key-unfinished task args (some key) job made = ground (arith, made)

  -- A task gives a job that has not finished.
  attributes_of-unfinished :
      (task : GivenTask A) (args : A) (job : Job)
      → attributes_of env task args ≡ some job
      → job.finished_at ≡ none
  unfolding attributes_of attributes_from_django_task
  attributes_of-unfinished (steady_queue_task task) args job made =
      with_key-unfinished task args (key_for task.concurrency_key args) job made
  attributes_of-unfinished other_task args job made = absurd (ground (arith, made))

module _ (env : Env) (db : Db) (limits : String → ℕ) (inv : Inv env.job_class limits db) where
  -- What enqueuing comes to, by the attributes of the job.
  abbrev pub enqueued_as : Option Job → Option (ℕ × ResultStatus) × Db
  enqueued_as none = (none, db)
  enqueued_as (some job) = (some (db.next_id, ready), created_db env job db)

  enqueue_job_lem :
      (job : Job)
      → job.finished_at ≡ none
      → Agrees env.job_class limits job
      → enqueue_job env (some job) db ≡ (some (db.next_id, ready), created_db env job db)
  unfolding status execution result_status has_ready has_claimed has_failed has_scheduled
      has_blocked
  enqueue_job_lem job unfinished agrees = rw (create_lem env job db limits inv agrees) (
      ground (
        arith,
        executions-created_db env job db db.next_id,
        inv.fresh db.next_id,
        claimed-created_db env job db,
        any-eq-ltb-count_if (λ r. r.job_id == db.next_id) (created_db env job db).ready,
        any-eq-ltb-count_if (λ r. r.job_id == db.next_id) (created_db env job db).claimed,
        any-eq-ltb-count_if (λ r. r.job_id == db.next_id) (created_db env job db).failed,
        any-eq-ltb-count_if (λ r. r.job_id == db.next_id) (created_db env job db).scheduled,
        any-eq-ltb-count_if (λ r. r.job_id == db.next_id) (created_db env job db).blocked,
      ))

  -- In a database that keeps the invariant, and where the class of a limited job is found, with a
  -- duration and the limit of its key, enqueuing raises only where the task is not one of the
  -- queue's, or its key or the serialisation of its arguments raises, and then nothing is written.
  -- Else the new job is created, and the result has its id and the status READY.
  pub enqueue_lem :
      {A : Type 0} (task : GivenTask A) (args : A)
      → ((job : Job) → attributes_of env task args ≡ some job → Agrees env.job_class limits job)
      → enqueue env task args db ≡ enqueued_as (attributes_of env task args)
  unfolding enqueue
  enqueue_lem task args agrees = elim (Option-cases (attributes_of env task args)) [
    | inl raised ↦ rw (raised, enqueue) refl
    | inr (job, made) ↦
        rw (made, enqueue)
          (enqueue_job_lem job (attributes_of-unfinished env task args job made) (agrees job made))
  ]
