-- ===== src/Env.antt =====
-- What an operation reads besides the database: the clock, the settings of steady_queue/__init__.py,
-- the task classes that `import_string` finds, and the rows that other transactions have locked.
use steady_queue.Prelude.{ℕ, String, Bool, Option}

-- The fields of steady_queue/task.py's `SteadyQueueTask` that concurrency controls read.
pub record TaskClass : Type 0 where
  pub concurrency_limit : Option ℕ
  pub concurrency_duration : Option ℕ

pub record Env : Type 0 where
  pub now : ℕ
  pub preserve_finished_jobs : Bool
  pub process_alive_threshold : ℕ
  -- `Job.job_class`: `import_string(self.class_name)`; none is `ImportError`
  pub job_class : String → Option TaskClass
  -- the database's order on keys, for `order_by("concurrency_key")`
  pub key_le : String → String → Bool
  -- rows, named by their jobs, that `select_for_update(skip_locked=True)` passes over
  pub locked_ready : ℕ → Bool
  pub locked_blocked : ℕ → Bool
  pub locked_scheduled : ℕ → Bool
  pub locked_process : ℕ → Bool
