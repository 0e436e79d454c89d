-- ===== src/Admin.antt =====
-- steady_queue/admin.py: the actions on failed executions, and the running tasks of a process. The
-- actions on queues are `Queue.pause_all` and `Queue.resume_all`.
use steady_queue.Prelude.{ℕ, Bool, Option, none, some, count_if, str_eq, if◌then◌else◌}
use steady_queue.Db.{Db, Process, FailedExecution}
use steady_queue.Env.{Env}
use steady_queue.Action.{Action}
use steady_queue.Claimed.{claimed_by}
use steady_queue.Dispatching.{retry_selected}
use steady_queue.Discarding.{discard_in_batches}

-- `FailedExecutionAdmin.retry`, with the count of its message.
unfoldable pub retry_action : Env → (selected : FailedExecution → Bool) → Action ℕ
retry_action env selected = retry_selected env selected

-- `FailedExecutionAdmin.discard`, with the count of its message: the batches have the default size.
unfoldable pub discard_action :
    (fuel : ℕ) → (selected : FailedExecution → Bool) → Db → Option (ℕ × Db)
discard_action fuel selected db = discard_in_batches selected 500 fuel db

-- `ProcessAdmin.job_count`
unfoldable pub job_count : Process → Db → Option ℕ
unfolding claimed_by
job_count p db =
    if str_eq p.kind "worker" then some (count_if (claimed_by p.id) db.claimed) else none
