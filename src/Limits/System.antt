-- ===== src/Limits/System.antt =====
-- The operations of steady_queue/models/ as steps of one database, in any order and any number.
use steady_queue.Prelude.{false, ℕ, ◌≤◌, ◌<◌, String, ◌≡◌, refl, Bool, Option, some, List, arith}
use steady_queue.Semaphore.{get}
use steady_queue.Semaphore.Slots.{SlotsFit, used-le}
use steady_queue.Db.{Db, Job, ClaimedExecution, FailedExecution, Process, get_job, empty}
use steady_queue.Env.{Env, TaskClass}
use steady_queue.Action.{Error}
use steady_queue.Blocked.{release_one, unblock}
use steady_queue.Claimed.{Outcome, perform, fail_all_with, release_all}
use steady_queue.Executable.{create}
use steady_queue.Dispatching.{dispatch_next_batch, retry}
use steady_queue.Clearing.{Filter, clear_finished_in_batches}
use steady_queue.Discarding.{discard_in_batches}
use steady_queue.Process.{register, heartbeat, deregister, prune_all}
use steady_queue.Queue.{pause, resume}
use steady_queue.Ready.{claim}
use steady_queue.Limits.{holders, executions, Agrees, Inv}
use steady_queue.Limits.Unblock.{release_one-Inv, unblock-Inv}
use steady_queue.Limits.Leave.{claims}
use steady_queue.Limits.Perform.{perform-Inv}
use steady_queue.Limits.Drain.{fail_all_with-Inv}
use steady_queue.Limits.Return.{release_all-Inv}
use steady_queue.Limits.Create.{create-Inv}
use steady_queue.Limits.Claim.{claim-Inv}
use steady_queue.Limits.Dispatcher.{dispatch_next_batch-Inv}
use steady_queue.Limits.Leaving.{deregister-Inv, prune_all-Inv}
use steady_queue.Limits.Clear.{clear_finished_in_batches-Inv}
use steady_queue.Limits.Discards.{discard_in_batches-Inv}
use steady_queue.Limits.Other.{register-Inv, heartbeat-Inv, pause-Inv, resume-Inv}
use steady_queue.Limits.Retry.{retry-Inv}

module _ (classes : String → Option TaskClass) (limits : String → ℕ) where
  abbrev pub on : Env → Env
  on env = record env { job_class = classes }

  -- The database after an operation that returned or raised. The environment is chosen anew at
  -- each step: the time, the settings and the rows that other transactions have locked.
  pub data Step (db : Db) : Db → Type 0 where
    enqueue :
        (env : Env) (draft : Job)
        → Agrees classes limits draft
        → Step db (create (on env) draft db).1
    claims_jobs :
        (env : Env) (queues : List String) (limit : ℕ) (process_id : Option ℕ)
        → Step db (claim (on env) queues limit process_id db).1
    performs :
        (env : Env) (text : Error → String) (outcome : Outcome) (job : Job)
        → get_job job.id db.jobs ≡ some job
        → 0 < claims job.id db
        → Agrees classes limits job
        → Step db (perform (on env) text outcome job db).1
    fails_all :
        (env : Env) (error : String) (listed : ClaimedExecution → Bool)
        → Step db (fail_all_with (on env) error listed db).1
    releases_all :
        (env : Env) (listed : ClaimedExecution → Bool) → Step db (release_all listed db).1
    unblocks : (env : Env) (limit : ℕ) → Step db (unblock (on env) limit db).1
    releases_one : (env : Env) (key : String) → Step db (release_one (on env) key db).1
    dispatches :
        (env : Env) (batch_size : ℕ) → Step db (dispatch_next_batch (on env) batch_size db).1
    deregisters : (env : Env) (p : Process) → Step db (deregister false p db).1
    prunes :
        (env : Env) (error : ℕ → String) (excluding : Option ℕ)
        → Step db (prune_all (on env) error excluding db).1
    clears :
        (f : Filter) (fuel batch_size : ℕ) (after : Db)
        → clear_finished_in_batches fuel f batch_size db ≡ some after
        → Step db after
    discards :
        (selected : FailedExecution → Bool) (fuel batch_size : ℕ) (r : ℕ × Db)
        → discard_in_batches selected batch_size fuel db ≡ some r
        → Step db r.1
    registers : (env : Env) (draft : Process) → Step db (register env draft db).1
    heartbeats : (env : Env) (p : Process) → Step db (heartbeat env p db).1
    pauses : (q : String) → Step db (pause q db)
    resumes : (q : String) → Step db (resume q db)
    retries : (env : Env) (f : FailedExecution) → Step db (retry (on env) f db).1

  pub data Reach (start : Db) : Db → Type 0 where
    here : Reach start start
    next : {db after : Db} → Reach start db → Step db after → Reach start after

  -- Every operation of `Step` keeps the invariant, on each of its branches, errors included: unique
  -- semaphores that cover the holders of their keys, unique job ids, and at most one execution for
  -- each job.
  pub Step-Inv : {db after : Db} → Step db after → Inv classes limits db → Inv classes limits after
  Step-Inv {db} (enqueue env draft a) inv = create-Inv (on env) draft db limits inv a
  Step-Inv {db} (claims_jobs env queues limit p) inv =
      claim-Inv limits (on env) queues limit p db inv
  Step-Inv {db} (performs env text outcome job known present a) inv =
      perform-Inv limits (on env) text job db inv a (rw known) present outcome
  Step-Inv {db} (fails_all env error listed) inv =
      fail_all_with-Inv limits (on env) error listed db inv
  Step-Inv {db} (releases_all env listed) inv = release_all-Inv limits (on env) listed db inv
  Step-Inv {db} (unblocks env limit) inv = unblock-Inv limits (on env) limit db inv
  Step-Inv {db} (releases_one env key) inv = release_one-Inv limits (on env) key db inv
  Step-Inv {db} (dispatches env batch_size) inv =
      dispatch_next_batch-Inv limits (on env) db inv batch_size
  Step-Inv {db} (deregisters env p) inv = deregister-Inv limits (on env) false p db inv
  Step-Inv {db} (prunes env error excluding) inv =
      prune_all-Inv limits (on env) error excluding db inv
  Step-Inv {db} (clears f fuel n after e) inv =
      clear_finished_in_batches-Inv classes limits fuel f n db after e inv
  Step-Inv {db} (discards selected fuel n r e) inv =
      discard_in_batches-Inv classes limits selected n fuel db r e inv
  Step-Inv {db} (registers env draft) inv = register-Inv classes limits db inv env draft
  Step-Inv {db} (heartbeats env p) inv = heartbeat-Inv classes limits db inv env p
  Step-Inv {db} (pauses q) inv = pause-Inv classes limits db inv q
  Step-Inv {db} (resumes q) inv = resume-Inv classes limits db inv q
  Step-Inv {db} (retries env f) inv = retry-Inv limits (on env) f db inv

  fits-empty : (k : String) → SlotsFit (limits k) (holders k empty) (get k empty.semaphores)
  unfolding get
  fits-empty k = refl

  pub Inv-empty : Inv classes limits empty
  Inv-empty = record {
    core = record {
      unique = tt;
      agree = tt;
      ids_below = (tt, λ i. omega arith);
      fits = fits-empty;
    };
    fresh = λ i h. omega arith;
    alone = λ i. omega arith;
  }

  pub Reach-Inv : {db : Db} → Reach empty db → Inv classes limits db
  Reach-Inv here = Inv-empty
  Reach-Inv (next r step) = Step-Inv step (Reach-Inv r)

  -- Whatever operations of `Step` led from the empty database to this one, in any order and whether
  -- they returned or raised, the jobs of a key that are ready or claimed are never more than the
  -- limit of the key. Each job enqueued or performed has a class whose limit is its key's.
  pub mutual_exclusion : {db : Db} → Reach empty db → (k : String) → holders k db ≤ limits k
  mutual_exclusion {db} r k =
      used-le (limits k) (holders k db) (get k db.semaphores) ((Reach-Inv r).core.fits k)

  -- Whatever operations of `Step` led from the empty database to this one, no job has two rows in
  -- the five execution tables.
  pub one_execution : {db : Db} → Reach empty db → (i : ℕ) → executions i db ≤ 1
  one_execution r i = (Reach-Inv r).alone i
