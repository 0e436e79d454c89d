-- ===== src/Configuration.antt =====
-- steady_queue/configuration.py: the processes that a supervisor starts and the validation of the
-- options. An interval is a number; a negative number of processes counts as 0.
pub mod Instances
pub mod Processes
pub mod Validation
use steady_queue.Prelude.{
  ℕ, zero, suc, ◌+◌, String, Bool, true, false, ◌||◌, Option, none, some, List, [], ◌∷◌, ◌++◌, map,
  ltb, ◌==◌, str_eq, if◌then◌else◌, length,
}
use steady_queue.Prelude.Int.{ℤ}

pub record Worker : Type 0 where
  pub queues : List String
  pub threads : ℕ
  pub processes : ℕ
  pub polling_interval : ℕ

pub record Dispatcher : Type 0 where
  pub polling_interval : ℕ
  pub batch_size : ℕ
  pub concurrency_maintenance : Bool
  pub concurrency_maintenance_interval : ℕ

-- `arguments` is the text of the JSON value.
pub record RecurringTask : Type 0 where
  pub key : String
  pub class_name : Option String
  pub command : Option String
  pub arguments : Option String
  pub schedule : Option String
  pub queue_name : Option String
  pub priority : Option ℤ
  pub description : Option String

pub record Options : Type 0 where
  pub workers : List Worker
  pub dispatchers : List Dispatcher
  pub recurring_tasks : List RecurringTask
  pub only_work : Bool
  pub skip_recurring : Bool

-- The defaults of the fields, in milliseconds.
abbrev pub default_worker : Worker
default_worker = record { queues = "*" ∷ []; threads = 3; processes = 1; polling_interval = 100 }

abbrev pub default_dispatcher : Dispatcher
default_dispatcher = record {
  polling_interval = 1000;
  batch_size = 500;
  concurrency_maintenance = true;
  concurrency_maintenance_interval = 300000;
}

abbrev or_default : {A : Type 0} → A → Option A → A
or_default a none = a
or_default a (some b) = b

-- `Options.__init__`; `discovered` is what `RecurringTask.discover` gives.
unfoldable pub new_options :
    (discovered : List RecurringTask)
    → Option (List Worker)
    → Option (List Dispatcher)
    → Option (List RecurringTask)
    → Bool
    → Bool
    → Options
new_options discovered workers dispatchers tasks only_work skip_recurring = record {
  workers = or_default (default_worker ∷ []) workers;
  dispatchers = or_default (default_dispatcher ∷ []) dispatchers;
  recurring_tasks = or_default discovered tasks;
  only_work = only_work;
  skip_recurring = skip_recurring;
}

-- `Configuration.Process`, by its kind.
pub data Process : Type 0 where
  worker : Worker → Process
  dispatcher : Dispatcher → Process
  scheduler : List RecurringTask → Process

-- `[p] * n`
abbrev pub repeat : {A : Type 0} → A → ℕ → List A
repeat a zero = []
repeat a (suc n) = a ∷ repeat a n

unfoldable pub worker_processes : List Worker → List Process
worker_processes [] = []
worker_processes (w ∷ ws) = repeat (worker w) w.processes ++ worker_processes ws

-- What the validation reports.
pub data ValidationError : Type 0 where
  no_processes : ValidationError
  pool_too_small : (threads max_size : ℕ) → ValidationError
  invalid_schedule invalid_class_name : (key message : String) → ValidationError
  command_not_supported : (key : String) → ValidationError

-- `max((w.threads for w in workers), default=1)`
unfoldable pub max_worker_threads : List Worker → ℕ
max_worker_threads [] = 1
max_worker_threads (w ∷ []) = w.threads
max_worker_threads (w ∷ v ∷ ws) =
    let rest = max_worker_threads (v ∷ ws) in if ltb w.threads rest then rest else w.threads

-- The entry of the queue's database in `settings.DATABASES`; the engine is none without an entry or
-- a name, and the size is none unless the pool's options are a dict with a whole number.
pub record DatabaseConfig : Type 0 where
  pub engine : Option String
  pub pool_max_size : Option ℕ

module _ (options : Options) where
  unfoldable pub skip_recurring : Bool
  skip_recurring = options.skip_recurring || options.only_work

  unfoldable pub workers : List Process
  workers = worker_processes options.workers

  unfoldable pub dispatchers : List Process
  dispatchers = map dispatcher options.dispatchers

  unfoldable pub schedulers : List Process
  schedulers = scheduler options.recurring_tasks ∷ []

  unfoldable pub configured_processes : List Process
  unfolding skip_recurring workers dispatchers schedulers
  configured_processes =
      if options.only_work
      then workers
      else if skip_recurring
      then workers ++ dispatchers
      else workers ++ (dispatchers ++ schedulers)

  unfoldable pub estimated_number_of_threads : ℕ
  estimated_number_of_threads = max_worker_threads options.workers + 2

  unfoldable pub validate_configured_processes : List ValidationError
  unfolding configured_processes
  validate_configured_processes = if length configured_processes == 0 then no_processes ∷ [] else []

  abbrev pub pool_errors : Option ℕ → List ValidationError
  pool_errors none = []
  pool_errors (some max_size) =
      if ltb max_size estimated_number_of_threads
      then pool_too_small estimated_number_of_threads max_size ∷ []
      else []

  abbrev pub is_postgresql : Option String → Bool
  is_postgresql none = false
  is_postgresql (some engine) = str_eq engine "django.db.backends.postgresql"

  unfoldable pub validate_database_pool_size : DatabaseConfig → List ValidationError
  unfolding estimated_number_of_threads
  validate_database_pool_size config =
      if length options.workers == 0
      then []
      else if is_postgresql config.engine
      then pool_errors config.pool_max_size
      else []

-- `CronTab(schedule)` and `import_string(class_name)`, by the text of the error that they raise.
module _ (crontab import_string : Option String → Option String) where
  -- `RecurringTask.clean`: the first check that fails.
  unfoldable pub clean : RecurringTask → Option ValidationError
  clean task = elim (crontab task.schedule) [
    | some message ↦ some (invalid_schedule task.key message)
    | none ↦ elim (import_string task.class_name) [
      | some message ↦ some (invalid_class_name task.key message)
      | none ↦ elim task.command [
        | some command ↦ some (command_not_supported task.key)
        | none ↦ none
      ]
    ]
  ]

  unfoldable pub errors_of : List RecurringTask → List ValidationError
  errors_of [] = []
  errors_of (t ∷ ts) = let rest = errors_of ts in elim (clean t) [ none ↦ rest | some e ↦ e ∷ rest ]

  unfoldable pub validate_recurring_tasks : Options → List ValidationError
  unfolding skip_recurring
  validate_recurring_tasks options =
      if skip_recurring options then [] else errors_of options.recurring_tasks

  unfoldable pub errors : DatabaseConfig → Options → List ValidationError
  unfolding validate_configured_processes validate_database_pool_size validate_recurring_tasks
  errors config options =
      validate_configured_processes options
      ++ (validate_database_pool_size options config ++ validate_recurring_tasks options)

  unfoldable pub is_valid : DatabaseConfig → Options → Bool
  unfolding errors
  is_valid config options = length (errors config options) == 0
