-- ===== src/Backend.antt =====
-- steady_queue/backend.py, task.py and concurrency.py: enqueuing a task, and the status of a job.
pub mod Enqueued
use mathlib.Core.Option
use steady_queue.Prelude.{
  ℕ, zero, suc, String, Bool, true, false, Option, none, some, is_some, str_eq, if◌then◌else◌,
}
use steady_queue.Prelude.Int.{ℤ, pos, negsuc}
use steady_queue.Db.{Db, Job, has_ready, has_claimed, has_failed, has_scheduled, has_blocked}
use steady_queue.Env.{Env}
use steady_queue.Action.{Action, Result, ok, err, pure, ◌>>=◌, ◌>>◌}
use steady_queue.Executable.{create}

-- `concurrency_key` of a task: none, a text, or a callable on the arguments of type `A`, which gives
-- none where it raises.
pub data ConcurrencyKey (A : Type 0) : Type 0 where
  no_key : ConcurrencyKey A
  text : String → ConcurrencyKey A
  computed : (A → Option String) → ConcurrencyKey A

-- The fields of a `SteadyQueueTask` that enqueuing reads. A `concurrency_duration` of none is not
-- read for a task without a key.
pub record Task (A : Type 0) : Type 0 where
  pub module_path : String
  pub queue_name : Option String
  pub priority : Option ℤ
  pub run_after : Option ℕ
  pub concurrency_key : ConcurrencyKey A
  pub concurrency_limit : Option ℕ
  pub concurrency_duration : Option ℕ
  pub concurrency_group : Option String
  -- `task.serialize(args, kwargs)`, as the text of the column; none is an exception, as of arguments
  -- that `Arguments.serialize` refuses
  pub serialize : A → Option String

-- What the backend is given: `isinstance(task, SteadyQueueTask)`, or not.
pub data GivenTask (A : Type 0) : Type 0 where
  steady_queue_task : Task A → GivenTask A
  other_task : GivenTask A

-- `duration or default`: a duration of zero is false.
abbrev or_period : ℕ → Option ℕ → ℕ
or_period default none = default
or_period default (some zero) = default
or_period default (some (suc n)) = suc n

-- `group or task.module_path`
abbrev or_text : String → Option String → String
or_text default none = default
or_text default (some s) = if str_eq s "" then default else s

-- `limits_concurrency(key, to, duration, group)`, applied to a task.
unfoldable pub limits_concurrency :
    {A : Type 0}
    → (default_concurrency_control_period : ℕ) → ConcurrencyKey A
    → (to : ℕ) → (duration : Option ℕ) → (group : Option String) → Task A
    → Task A
limits_concurrency period key to duration group task = record task {
  concurrency_key = key;
  concurrency_limit = some to;
  concurrency_duration = some (or_period period duration);
  concurrency_group = some (or_text task.module_path group);
}

-- The outer none is an exception of the callable.
abbrev pub key_for : {A : Type 0} → ConcurrencyKey A → A → Option (Option String)
key_for no_key args = some none
key_for (text s) args = some (some s)
key_for (computed f) args = Option.map some (f args)

-- `task.priority or cls.DEFAULT_PRIORITY`: 0 either way.
abbrev or_zero : Option ℤ → ℤ
or_zero none = pos 0
or_zero (some p) = p

abbrev or_now : ℕ → Option ℕ → ℕ
or_now now none = now
or_now now (some at) = at

abbrev attributes :
    {A : Type 0} → Env → Task A → (arguments : String) → (concurrency_key : Option String) → Job
attributes env task arguments concurrency_key = record {
  id = 0;
  queue_name = or_text "default" task.queue_name;
  class_name = task.module_path;
  arguments = arguments;
  priority = or_zero task.priority;
  scheduled_at = some (or_now env.now task.run_after);
  finished_at = none;
  concurrency_key = concurrency_key;
}

abbrev pub with_key : {A : Type 0} → Env → Task A → A → Option (Option String) → Option Job
with_key env task args none = none
with_key env task args (some key) =
    Option.map (λ arguments. attributes env task arguments key) (task.serialize args)

-- `Job.attributes_from_django_task`, as a job that has no id yet; `none` is an exception.
unfoldable pub attributes_from_django_task : {A : Type 0} → Env → Task A → A → Option Job
attributes_from_django_task env task args =
    with_key env task args (key_for task.concurrency_key args)

-- The attributes of what is given; another task raises `ValueError`.
unfoldable pub attributes_of : {A : Type 0} → Env → GivenTask A → A → Option Job
unfolding attributes_from_django_task
attributes_of env (steady_queue_task task) args = attributes_from_django_task env task args
attributes_of env other_task args = none

-- The types that `status` gives, with `finished`.
pub data Status : Type 0 where
  is_finished is_ready is_claimed is_failed is_scheduled is_blocked : Status

-- `execution`: the first row that the job has; `none` is the job without one.
unfoldable pub execution : Db → ℕ → Option Status
unfolding has_ready has_claimed has_failed has_scheduled has_blocked
execution db i =
    if has_ready db i
    then some is_ready
    else if has_claimed db i
    then some is_claimed
    else if has_failed db i
    then some is_failed
    else if has_scheduled db i
    then some is_scheduled
    else if has_blocked db i
    then some is_blocked
    else none

-- `status`: `None.type` raises, which `none` stands for.
unfoldable pub status : Job → Db → Option Status
unfolding execution
status job db = if is_some job.finished_at then some is_finished else execution db job.id

-- `TaskResultStatus`
pub data ResultStatus : Type 0 where
  successful failed running ready : ResultStatus

-- The status of `to_task_result`.
unfoldable pub result_status : Status → ResultStatus
result_status is_finished = successful
result_status is_failed = failed
result_status is_claimed = running
result_status is_ready = ready
result_status is_scheduled = ready
result_status is_blocked = ready

abbrev to_result : Result ℕ → Job → Db → Option (ℕ × ResultStatus)
to_result (err e) job db = none
to_result (ok i) job db = elim (status (record job { id = i }) db) [
  | none ↦ none
  | some s ↦ some (i, result_status s)
]

abbrev pub enqueue_job : Env → Option Job → Db → Option (ℕ × ResultStatus) × Db
enqueue_job env none db = (none, db)
enqueue_job env (some job) db =
    let created = create env job db in (to_result created.0 job created.1, created.1)

-- `SteadyQueueBackend.enqueue`: the id and the status of its result; `none` is an exception.
unfoldable pub enqueue : {A : Type 0} → Env → GivenTask A → A → Db → Option (ℕ × ResultStatus) × Db
unfolding attributes_of status result_status
enqueue env task args db = enqueue_job env (attributes_of env task args) db
