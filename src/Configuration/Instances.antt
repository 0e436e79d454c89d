-- ===== src/Configuration/Instances.antt =====
-- configuration.py, and the constructors and metadata of worker.py, dispatcher.py, scheduler.py and
-- poller.py of steady_queue/processes/: the process that a configured process becomes.
use Prim.Native.String.{◌++◌ as ◌<>◌}
use steady_queue.Prelude.{
  ℕ, zero, suc, ◌+◌, ◌≤◌, ◌≡◌, String, Bool, true, false, Option, none, some, List, [], ◌∷◌, ◌++◌,
  map, if◌then◌else◌, All, All-append,
}
use steady_queue.Configuration
use steady_queue.Configuration.{
  Process, Options, DatabaseConfig, worker, dispatcher, scheduler, repeat, worker_processes,
  is_valid, configured_processes, workers, dispatchers, schedulers,
}
use steady_queue.Configuration.Validation.{is_valid-pool}
use steady_queue.Recurring.Configured.{UnsavedTask, from_configuration}

-- `ConcurrencyMaintenance.__init__`
pub record ConcurrencyMaintenance : Type 0 where
  pub interval : ℕ
  pub batch_size : ℕ

pub record Worker : Type 0 where
  pub queues : List String
  pub polling_interval : ℕ
  pub pool_size : ℕ

pub record Dispatcher : Type 0 where
  pub batch_size : ℕ
  pub concurrency_maintenance : Option ConcurrencyMaintenance
  pub polling_interval : ℕ

pub data Instance : Type 0 where
  worker_of : Worker → Instance
  dispatcher_of : Dispatcher → Instance
  scheduler_of : (configured_tasks : List UnsavedTask) → Instance

unfoldable pub new_worker : Configuration.Worker → Worker
new_worker options = record {
  queues = options.queues;
  polling_interval = options.polling_interval;
  pool_size = options.threads;
}

unfoldable pub new_dispatcher : Configuration.Dispatcher → Dispatcher
new_dispatcher options = record {
  batch_size = options.batch_size;
  concurrency_maintenance =
      if options.concurrency_maintenance
      then some (record {
        interval = options.concurrency_maintenance_interval;
        batch_size = options.batch_size;
      })
      else none;
  polling_interval = options.polling_interval;
}

-- `Process.instantiate`. The tasks of a scheduler are wrapped by its `RecurringSchedule`.
unfoldable pub instantiate : Process → Instance
unfolding new_worker new_dispatcher
instantiate (worker options) = worker_of (new_worker options)
instantiate (dispatcher options) = dispatcher_of (new_dispatcher options)
instantiate (scheduler tasks) = scheduler_of (map from_configuration tasks)

-- `",".join(queues)`
unfoldable pub join : List String → String
join [] = ""
join (q ∷ []) = q
join (q ∷ r ∷ qs) = q <> ("," <> join (r ∷ qs))

-- A value of the dict of the metadata.
pub data Datum : Type 0 where
  duration number : ℕ → Datum
  text : String → Datum
  texts : List String → Datum
  null : Datum

abbrev pub interval_of : Option ConcurrencyMaintenance → Datum
interval_of none = null
interval_of (some m) = duration m.interval

unfoldable pub metadata : Instance → List (String × Datum)
unfolding join
metadata (worker_of w) =
    ("polling_interval", duration w.polling_interval)
    ∷ ("queues", text (join w.queues))
    ∷ ("thread_pool_size", number w.pool_size)
    ∷ []
metadata (dispatcher_of d) =
    ("polling_interval", duration d.polling_interval)
    ∷ ("batch_size", number d.batch_size)
    ∷ ("concurrency_maintenance_interval", interval_of d.concurrency_maintenance)
    ∷ []
metadata (scheduler_of tasks) = ("recurring_schedule", texts (map (λ t. t.key) tasks)) ∷ []

-- A worker has threads for its pool, its loop and its heartbeat at the same time.
unfoldable pub FitsPool : ℕ → Process → Type 0
unfolding instantiate new_worker
FitsPool max_size p = elim (instantiate p) [
  | worker_of w ↦ w.pool_size + 2 ≤ max_size
  | dispatcher_of d ↦ Unit
  | scheduler_of ts ↦ Unit
]

module _ (max_size : ℕ) where
  repeat-FitsPool :
      (w : Configuration.Worker) (n : ℕ)
      → w.threads + 2 ≤ max_size
      → All (FitsPool max_size) (repeat (worker w) n)
  unfolding FitsPool
  repeat-FitsPool w zero fits = tt
  repeat-FitsPool w (suc n) fits = (fits, repeat-FitsPool w n fits)

  worker_processes-FitsPool :
      (ws : List Configuration.Worker)
      → All (λ w. w.threads + 2 ≤ max_size) ws
      → All (FitsPool max_size) (worker_processes ws)
  unfolding worker_processes
  worker_processes-FitsPool [] fits = tt
  worker_processes-FitsPool (w ∷ ws) fits =
      All-append (FitsPool max_size) (repeat (worker w) w.processes) (worker_processes ws)
        (repeat-FitsPool w w.processes fits.0) (worker_processes-FitsPool ws fits.1)

  dispatchers-FitsPool :
      (ds : List Configuration.Dispatcher) → All (FitsPool max_size) (map dispatcher ds)
  unfolding FitsPool
  dispatchers-FitsPool [] = tt
  dispatchers-FitsPool (d ∷ ds) = (tt, dispatchers-FitsPool ds)

  parts-FitsPool :
      (options : Options) (only_work skipped : Bool)
      → All (λ w. w.threads + 2 ≤ max_size) options.workers
      → All (FitsPool max_size) (
          if only_work
          then workers options
          else if skipped
          then workers options ++ dispatchers options
          else workers options ++ (dispatchers options ++ schedulers options))
  unfolding workers dispatchers schedulers FitsPool
  parts-FitsPool options true skipped fits = worker_processes-FitsPool options.workers fits
  parts-FitsPool options false true fits =
      All-append (FitsPool max_size) (workers options) (dispatchers options)
        (worker_processes-FitsPool options.workers fits) (dispatchers-FitsPool options.dispatchers)
  parts-FitsPool options false false fits =
      All-append (FitsPool max_size) (workers options) (dispatchers options ++ schedulers options)
        (worker_processes-FitsPool options.workers fits)
        (All-append (FitsPool max_size) (dispatchers options) (schedulers options)
          (dispatchers-FitsPool options.dispatchers) (tt, tt))

-- On PostgreSQL with a pool of a given size, every process that a valid configuration starts fits
-- the pool: a worker has two threads fewer than the pool has connections, at least.
pub is_valid-FitsPool :
    (crontab import_string : Option String → Option String) (config : DatabaseConfig)
    (options : Options) (max_size : ℕ)
    → is_valid crontab import_string config options ≡ true
    → config.engine ≡ some "django.db.backends.postgresql"
    → config.pool_max_size ≡ some max_size
    → All (FitsPool max_size) (configured_processes options)
unfolding configured_processes
is_valid-FitsPool crontab import_string config options max_size valid engine size =
    parts-FitsPool max_size options options.only_work (Configuration.skip_recurring options)
      (is_valid-pool crontab import_string config options valid max_size engine size).1
