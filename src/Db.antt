-- ===== src/Db.antt =====
-- steady_queue/models/: the rows of the tables and the database that the operations share.
-- An execution row is named by its job: `job` is one-to-one in every execution table.
use steady_queue.Prelude.{ℕ, String, Bool, Option, List, [], ◌==◌, filter, find?, any, not}
use steady_queue.Prelude.Int.{ℤ}
use steady_queue.Semaphore.{Semaphore}

-- models/job.py. `arguments` is the JSON text that the column holds.
pub record Job : Type 0 where
  pub id : ℕ
  pub queue_name : String
  pub class_name : String
  pub arguments : String
  pub priority : ℤ
  pub scheduled_at : Option ℕ
  pub finished_at : Option ℕ
  pub concurrency_key : Option String

-- models/ready_execution.py
pub record ReadyExecution : Type 0 where
  pub job_id : ℕ
  pub queue_name : String
  pub priority : ℤ

-- models/claimed_execution.py
pub record ClaimedExecution : Type 0 where
  pub job_id : ℕ
  pub process_id : Option ℕ

-- models/failed_execution.py
pub record FailedExecution : Type 0 where
  pub job_id : ℕ
  pub error : String

-- models/scheduled_execution.py
pub record ScheduledExecution : Type 0 where
  pub job_id : ℕ
  pub queue_name : String
  pub priority : ℤ
  pub scheduled_at : ℕ

-- models/blocked_execution.py
pub record BlockedExecution : Type 0 where
  pub job_id : ℕ
  pub queue_name : String
  pub priority : ℤ
  pub concurrency_key : String
  pub expires_at : ℕ

-- models/process.py
pub record Process : Type 0 where
  pub id : ℕ
  pub kind : String
  pub last_heartbeat_at : ℕ
  pub supervisor_id : Option ℕ
  pub pid : ℕ
  pub hostname : Option String
  pub name : String

-- `next_id` is the sequence behind the primary key of the jobs, and
-- `next_process_id` that of the processes.
pub record Db : Type 0 where
  pub next_id : ℕ
  pub next_process_id : ℕ
  pub jobs : List Job
  pub ready : List ReadyExecution
  pub claimed : List ClaimedExecution
  pub failed : List FailedExecution
  pub scheduled : List ScheduledExecution
  pub blocked : List BlockedExecution
  pub semaphores : List Semaphore
  pub pauses : List String
  pub processes : List Process

abbrev pub empty : Db
empty = record {
  next_id = 1;
  next_process_id = 1;
  jobs = [];
  ready = [];
  claimed = [];
  failed = [];
  scheduled = [];
  blocked = [];
  semaphores = [];
  pauses = [];
  processes = [];
}

-- `Job.objects.get(pk=i)`
unfoldable pub get_job : ℕ → List Job → Option Job
get_job i jobs = find? (λ j. j.id == i) jobs

-- The accessors of the one-to-one fields, as tests: does the job have such a row?
unfoldable pub has_ready : Db → ℕ → Bool
has_ready db i = any (λ r. r.job_id == i) db.ready

unfoldable pub has_claimed : Db → ℕ → Bool
has_claimed db i = any (λ r. r.job_id == i) db.claimed

unfoldable pub has_failed : Db → ℕ → Bool
has_failed db i = any (λ r. r.job_id == i) db.failed

unfoldable pub has_scheduled : Db → ℕ → Bool
has_scheduled db i = any (λ r. r.job_id == i) db.scheduled

unfoldable pub has_blocked : Db → ℕ → Bool
has_blocked db i = any (λ r. r.job_id == i) db.blocked

-- `execution.delete()` of the claimed row of a job.
unfoldable pub delete_claimed : ℕ → Db → Db
delete_claimed i db = record db { claimed = filter (λ r. not (r.job_id == i)) db.claimed }

unfoldable pub delete_failed : ℕ → Db → Db
delete_failed i db = record db { failed = filter (λ r. not (r.job_id == i)) db.failed }

unfoldable pub delete_blocked : ℕ → Db → Db
delete_blocked i db = record db { blocked = filter (λ r. not (r.job_id == i)) db.blocked }

-- `Model.delete` of the jobs that pass a test: `on_delete=models.CASCADE` takes their executions.
unfoldable pub delete_jobs : (ℕ → Bool) → Db → Db
delete_jobs gone db = record db {
  jobs = filter (λ j. not (gone j.id)) db.jobs;
  ready = filter (λ r. not (gone r.job_id)) db.ready;
  claimed = filter (λ r. not (gone r.job_id)) db.claimed;
  failed = filter (λ r. not (gone r.job_id)) db.failed;
  scheduled = filter (λ r. not (gone r.job_id)) db.scheduled;
  blocked = filter (λ r. not (gone r.job_id)) db.blocked;
}
