-- ===== src/Examples/Processes.antt =====
-- configuration.py and process.py: a supervisor's processes and the pruning of dead ones.
use steady_queue.Prelude.{
  ℕ, ◌+◌, ◌≤◌, ◌<◌, ◌≡◌, refl, String, true, false, Option, none, some, [], ◌∷◌, arith, count_if,
  length, ◌==◌, All, Bool,
}
use steady_queue.Db.{Db, Process, empty}
use steady_queue.Configuration.{
  Options, DatabaseConfig, default_worker, default_dispatcher, configured_processes, skip_recurring,
  is_valid, clean, errors, validate_configured_processes, validate_database_pool_size,
  validate_recurring_tasks, max_worker_threads, estimated_number_of_threads, worker_processes,
  workers, dispatchers, schedulers, errors_of, RecurringTask,
}
use steady_queue.Configuration.Processes.{count_if-configured_processes}
use steady_queue.Configuration
use steady_queue.Configuration.Validation.{is_valid-pool, is_valid-recurring}
use steady_queue.Process.{prunable, prunable_rows, prune_all}
use steady_queue.Process.Alive.{present, prune_all-keeps}
use steady_queue.Examples.{env}

abbrev nightly : RecurringTask
nightly = record {
  key = "nightly";
  class_name = some "shop.tasks.report";
  command = none;
  arguments = none;
  schedule = some "0 3 * * *";
  queue_name = none;
  priority = none;
  description = none;
}

abbrev options : Options
options = record {
  workers = record default_worker { processes = 2 } ∷ [];
  dispatchers = default_dispatcher ∷ [];
  recurring_tasks = nightly ∷ [];
  only_work = false;
  skip_recurring = false;
}

abbrev postgresql : DatabaseConfig
postgresql = record { engine = some "django.db.backends.postgresql"; pool_max_size = some 5 }

abbrev accepts : Option String → Option String
accepts text = none

-- The workers with five threads.
abbrev has_five : Configuration.Process → Bool
has_five (Configuration.worker w) = w.threads == 5
has_five (Configuration.dispatcher d) = false
has_five (Configuration.scheduler ts) = false

abbrev two_workers : Options
two_workers = record options {
  workers =
      record default_worker { processes = 2 }
      ∷ record default_worker { threads = 5; processes = 3 }
      ∷ [];
}

count_if-configured_processes_example : count_if has_five (configured_processes two_workers) ≡ 3
unfolding skip_recurring
count_if-configured_processes_example = count_if-configured_processes has_five two_workers

options_valid : is_valid accepts accepts postgresql options ≡ true
unfolding is_valid errors validate_configured_processes validate_database_pool_size
    validate_recurring_tasks max_worker_threads estimated_number_of_threads worker_processes workers
    dispatchers schedulers errors_of clean configured_processes skip_recurring
options_valid = refl

is_valid-pool_example :
    ((length (configured_processes options) == 0) ≡ false)
    × All (λ w. w.threads + 2 ≤ 5) options.workers
is_valid-pool_example = is_valid-pool accepts accepts postgresql options options_valid 5 refl refl

is_valid-recurring_example : All (λ t. clean accepts accepts t ≡ none) (nightly ∷ [])
unfolding skip_recurring
is_valid-recurring_example =
    is_valid-recurring accepts accepts postgresql options options_valid refl

abbrev worker : ℕ → ℕ → Process
worker i heartbeat = record {
  id = i;
  kind = "worker";
  last_heartbeat_at = heartbeat;
  supervisor_id = none;
  pid = i;
  hostname = none;
  name = "worker";
}

-- One process is alive, and one is not.
abbrev two_processes : Db
two_processes = record empty { processes = worker 1 8 ∷ worker 2 1 ∷ [] }

prune_all-keeps_example :
    0 < present 1 (prune_all env (λ at. "pruned") none two_processes).1.processes
unfolding prunable_rows prunable
prune_all-keeps_example =
    prune_all-keeps env 1 (λ at. "pruned") none two_processes refl (omega arith)

-- The other one is pruned.
prunable_rows_test : prunable_rows env none two_processes ≡ worker 2 1 ∷ []
unfolding prunable_rows prunable
prunable_rows_test = refl
