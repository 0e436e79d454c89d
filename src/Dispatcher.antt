-- ===== src/Dispatcher.antt =====
-- steady_queue/processes/dispatcher.py: the poll of a dispatcher, its maintenance, and its loop.
use steady_queue.Prelude.{ℕ, Bool, List, ◌==◌, if◌then◌else◌, length}
use steady_queue.Db.{Db}
use steady_queue.Env.{Env}
use steady_queue.Action.{Action, Result, ok, pure, modify, ◌>>=◌, ◌>>◌}
use steady_queue.Semaphore.{expire_semaphores}
use steady_queue.Blocked.{unblock}
use steady_queue.Dispatching.{dispatch_next_batch}
use steady_queue.Runnable
use steady_queue.Runnable.{Runnable}
use steady_queue.Poller.{Turn, Loop, start_loop}

module _ (env : Env) (batch_size : ℕ) where
  -- `poll`: after a batch that dispatched a job the next one follows at once.
  unfoldable pub poll : (polling_interval : ℕ) → Action ℕ
  poll polling_interval = do
    batch ← dispatch_next_batch env batch_size
    pure (if batch == 0 then polling_interval else 0)

  -- `ConcurrencyMaintenance.run`; the result is that of `unblock`.
  unfoldable pub maintain : Action ℕ
  maintain = do
    modify (λ db. record db { semaphores = expire_semaphores env.now db.semaphores })
    unblock env batch_size

  abbrev no_scheduled : Db → Result Bool
  no_scheduled db = ok (length db.scheduled == 0)

  -- `start_loop` of a dispatcher. Its shutdown stops the maintenance first, which is a timer.
  unfoldable pub run_dispatcher : (polling_interval : ℕ) → List Turn → Runnable → Db → Loop Db
  run_dispatcher polling_interval =
      start_loop (λ r. poll polling_interval) no_scheduled Runnable.shutdown
