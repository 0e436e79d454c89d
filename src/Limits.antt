-- ===== src/Limits.antt =====
-- The concurrency limits of steady_queue/models/: the jobs that hold a slot of a key, the rows of a
-- job, and the invariant of the database that every operation keeps.
pub mod Ids
pub mod Acquire
pub mod Dispatch
pub mod Release
pub mod Unblock
pub mod Leave
pub mod Finish
pub mod Perform
pub mod Frame
pub mod Drain
pub mod Return
pub mod Create
pub mod Claim
pub mod Retry
pub mod Leaving
pub mod Rows
pub mod Batch
pub mod Dispatcher
pub mod Lost
pub mod Clear
pub mod Discards
pub mod Other
pub mod System
use steady_queue.Prelude.{
  ℕ, ◌+◌, ◌≤◌, ◌<◌, String, ◌≡◌, Bool, true, false, Option, none, some, List, ◌==◌, str_eq,
  if◌then◌else◌, All, count_if,
}
use steady_queue.Semaphore.{Semaphore, get, limit_of}
use steady_queue.Semaphore.Lookup.{IsUnique}
use steady_queue.Semaphore.Slots.{SlotsFit}
use steady_queue.Db.{Db, Job, get_job}
use steady_queue.Env.{TaskClass}

abbrev pub key_is : String → Option String → Bool
key_is k none = false
key_is k (some j) = str_eq j k

abbrev pub key_of : Option Job → Option String
key_of none = none
key_of (some j) = j.concurrency_key

-- The ids of the jobs are below the next one, and no two are the same.
abbrev pub IdsBelow : ℕ → List Job → Type 0
IdsBelow n jobs = All (λ j. j.id < n) jobs × ((i : ℕ) → count_if (λ j. j.id == i) jobs ≤ 1)

-- Is `i` a job of the key `k`?
abbrev pub holds : String → List Job → ℕ → Bool
holds k jobs i = key_is k (key_of (get_job i jobs))

-- The ready and the claimed executions of the jobs of a key: those that hold a slot.
abbrev pub holders : String → Db → ℕ
holders k db =
    count_if (λ r. holds k db.jobs r.job_id) db.ready
    + count_if (λ c. holds k db.jobs c.job_id) db.claimed

-- The execution rows of a job, in all five tables.
abbrev pub executions : ℕ → Db → ℕ
executions i db =
    count_if (λ r. r.job_id == i) db.ready
    + count_if (λ r. r.job_id == i) db.claimed
    + count_if (λ r. r.job_id == i) db.failed
    + count_if (λ r. r.job_id == i) db.scheduled
    + count_if (λ r. r.job_id == i) db.blocked

-- The slots of a key that are taken beyond the holders: by a job on its way in or out.
abbrev pub slot : String → Option String → ℕ
slot k key = if key_is k key then 1 else 0

module _ (classes : String → Option TaskClass) (limits : String → ℕ) where
  -- The class of a limited job is there, and has a duration and the limit of the job's key.
  abbrev pub Agrees : Job → Type 0
  Agrees job =
      (k : String)
      → job.concurrency_key ≡ some k
      → (task : TaskClass) × ((duration : ℕ) × ((classes job.class_name ≡ some task)
            × ((task.concurrency_duration ≡ some duration)
                × (limit_of task.concurrency_limit ≡ limits k))))

  abbrev pub Fits : (String → ℕ) → List Semaphore → Type 0
  Fits used t = (k : String) → SlotsFit (limits k) (used k) (get k t)

  -- The part of the invariant that does not bound the executions of a job.
  pub record Core (db : Db) : Type 0 where
    pub unique : IsUnique db.semaphores
    pub agree : All Agrees db.jobs
    pub ids_below : IdsBelow db.next_id db.jobs
    pub fits : Fits (λ k. holders k db) db.semaphores

  -- A job has at most one execution, and an unused id has none.
  pub record Inv (db : Db) : Type 0 where
    pub core : Core db
    pub fresh : (i : ℕ) → db.next_id ≤ i → executions i db ≡ 0
    pub alone : (i : ℕ) → executions i db ≤ 1

  -- The invariant with one slot of a key to be given back: the job that held it has left.
  pub record Owed (key : Option String) (db : Db) : Type 0 where
    pub unique : IsUnique db.semaphores
    pub agree : All Agrees db.jobs
    pub ids_below : IdsBelow db.next_id db.jobs
    pub fits : Fits (λ k. holders k db + slot k key) db.semaphores
    pub fresh : (i : ℕ) → db.next_id ≤ i → executions i db ≡ 0
    pub alone : (i : ℕ) → executions i db ≤ 1
