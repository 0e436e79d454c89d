-- ===== src/Lib.antt =====
-- Steady Queue: a database-backed queue for Django tasks. A web process enqueues jobs; workers poll
-- the ready jobs of their queues, claim them and perform them; a dispatcher moves scheduled jobs to
-- the ready queue and maintains the concurrency limits; a supervisor fails the jobs of processes
-- that are gone. All of them meet in the tables of one database, which this library models as the
-- record `Db`, and every operation as a function on it.
--
-- Which file models which part, paths from the repository's root:
-- - Semaphore.antt: steady_queue/models/semaphore.py, the semaphores behind the concurrency limits,
--   and the expiry of steady_queue/processes/dispatcher.py. Semaphore/Lookup and Slots have the
--   lemmas, Contract the abstract semaphore and its refinement, Unique the unique key.
-- - Db.antt: the rows of steady_queue/models/job.py and of the five execution tables.
-- - Env.antt: the clock, the settings, the task classes, and the rows locked by others.
-- - Action.antt: exceptions, `transaction.atomic`, `try`, `except` and `finally` as functions.
-- - Locks.antt: steady_queue/models/concurrency_controls.py.
-- - Blocked.antt: steady_queue/models/blocked_execution.py.
-- - Executable.antt: steady_queue/models/executable.py and schedulable.py.
-- - Claimed.antt: steady_queue/models/claimed_execution.py and the failing of retryable.py.
-- - Dispatching.antt: dispatching.py, scheduled_execution.py and failed_execution.py of models.
-- - QueueSelector.antt: steady_queue/queue_selector.py and collections.py.
-- - Ready.antt: steady_queue/models/ready_execution.py, the poll of a worker.
-- - Limits.antt: the holders of a key, the executions of a job and the invariant; its children show
--   of each operation that it keeps the invariant, and Limits/System.antt puts them together.
-- - Process.antt: steady_queue/models/process.py, prunable.py and executor.py, the processes.
-- - Arguments.antt: steady_queue/arguments.py, the arguments of a task as JSON values.
-- - Configuration.antt: steady_queue/configuration.py, the options of a supervisor.
-- - Backend.antt: steady_queue/backend.py, task.py and concurrency.py, enqueuing and its result.
-- - Task.antt: steady_queue/task.py, what a job stores of its task, and the running of it.
-- - Queue.antt: steady_queue/models/queue.py, pausing and resuming.
-- - Clearing.antt: steady_queue/models/clearable.py, the deletion of finished jobs.
-- - Admin.antt: steady_queue/admin.py, the actions on failed executions.
-- - Connections.antt: steady_queue/app_executor.py, and the pools of steady_queue/processes/base.py.
-- - Runnable.antt: runnable.py, supervised.py, registrable.py and interruptible.py of
--   steady_queue/processes/, and the `stop` of base.py: a process that polls, and its pipe.
-- - Lifecycle.antt: the order of `boot` and `shutdown` through the classes of
--   steady_queue/processes/, and the start of a supervisor.
-- - Poller.antt: poller.py and scheduler.py of steady_queue/processes/, their loops.
-- - Dispatcher.antt: steady_queue/processes/dispatcher.py, its poll, maintenance and loop.
-- - Discarding.antt: steady_queue/models/execution.py, the discarding of failed jobs.
-- - Schedule.antt: steady_queue/recurring_schedule.py, the timers of the recurring tasks.
-- - Worker.antt: worker.py, pool.py and concurrent.py of steady_queue/processes/.
-- - Timer.antt: steady_queue/processes/timer.py, `wait_until` and the timer tasks.
-- - Supervisor.antt: steady_queue/processes/supervisor.py, the forks and their replacement;
--   Supervisor/Control has its termination and its loop, and steady_queue/processes/signals.py.
-- - Pidfile.antt: pidfile.py and pidfiled.py of steady_queue/processes/, the pid file.
-- - Recurring.antt: recurring_task.py and recurring_execution.py of steady_queue/models/, and the
--   persistence of steady_queue/recurring_schedule.py; Recurring/Configured has
--   steady_queue/recurring_task.py, the decorator.
-- - Router.antt: steady_queue/db_router.py.
-- - Prelude.antt: Boolean tests, lists, sorting and integers, shared by all.
-- - Examples.antt: concrete runs.
--
-- How the code is read:
-- - A table is the list of its rows in the order of their insertion, which is what an unordered query
--   gives. An execution row is named by its job, since `job` is one-to-one; a `create` that meets a
--   unique constraint raises, and a `get_or_create` gives the row that is there.
-- - A transaction that raises leaves the database as it was before, and foreign keys are checked at
--   its end. Operations of different
--   processes follow one another in any order: one operation is one step. What a transaction of
--   another process has locked is a parameter of the step, and the rows that a
--   `select_for_update(skip_locked=True)` passes over are those. `Semaphore.Proxy.wait` is also
--   modelled with a read that is older than its write (`wait_after`).
-- - The clock is read once for each operation.
-- - Times are numbers of a common unit, a JSON column is its text, and a concurrency limit is a
--   natural number; a limit of 0 counts as none, as `or 1` does. Arguments/Column has the values of
--   the column of the arguments, whose dicts have texts as keys.
-- - The class of a job may be missing, or have no duration: what reads it then raises.
-- - The body of a task, with the reading of its arguments, is an outcome that the step chooses; the
--   receivers of Django's signals do not raise.
-- - A loop that waits for the operating system goes over a list of turns: what the clock, `getppid`
--   and `waitpid` give, and the signals that come. A loop whose list is over has not ended. The pid
--   file is read, created, written and deleted by one call each, and other supervisors may act
--   between two calls.
-- - Every other loop is over a list, but for those with fuel: `clear_finished_in_batches`, for which
--   more rounds than there are jobs to clear are enough, `discard_in_batches`, likewise with the
--   selected executions, and `Pidfile.setup`, for which five calls are.
--
-- Not modelled: the threads and timers of the operating system, the display code of the admin site,
-- the migrations, logging, and the columns created_at, updated_at and django_task_id. The steps
-- leave out the expiry of semaphores, which gives slots away that are still held, and `retry_all`,
-- which keeps the failed execution of a job that it blocks.
pub mod Prelude
pub mod Semaphore
pub mod Db
pub mod Action
pub mod Env
pub mod Locks
pub mod Blocked
pub mod Executable
pub mod Claimed
pub mod Dispatching
pub mod QueueSelector
pub mod Ready
pub mod Limits
pub mod Arguments
pub mod Configuration
pub mod Process
pub mod Clearing
pub mod Discarding
pub mod Admin
pub mod Pidfile
pub mod Connections
pub mod Runnable
pub mod Lifecycle
pub mod Poller
pub mod Dispatcher
pub mod Timer
pub mod Queue
pub mod Backend
pub mod Task
pub mod Worker
pub mod Supervisor
pub mod Recurring
pub mod Schedule
pub mod Router
pub mod Examples
