-- ===== src/Examples/Schedules.antt =====
-- recurring_task.py and db_router.py: a task that two schedulers enqueue, and the queue's database.
use steady_queue.Prelude.{
  All, filter, not, ◌&&◌, ◌≡◌, refl, String, true, false, not, none, some, [], ◌∷◌, str_eq,
  if◌then◌else◌,
}
use steady_queue.Prelude.Int.{pos}
use steady_queue.Db.{empty}
use steady_queue.Db.{Job}
use steady_queue.Backend.{Task, text}
use steady_queue.Recurring.{listed, persist_tasks, RecurringTask, Tables}
use steady_queue.Recurring.Persisted.{IsWanted, others, persist_tasks-rows}
use steady_queue.Recurring.Configured.{from_configuration, saved}
use steady_queue.Configuration
use steady_queue.Configuration.{is_valid}
use steady_queue.Router.{app_label, db_for_read, db_for_write, allow_migrate}
use steady_queue.Router.Agreement.{is_allowed, is_refused, is_database, allow_migrate-agrees}
use steady_queue.Examples.{payment}

abbrev hourly : RecurringTask
hourly = record {
  key = "hourly";
  schedule = "0 * * * *";
  command = none;
  class_name = "Pay";
  arguments = none;
  queue_name = none;
  priority = pos 0;
  static = true;
  description = none;
}

abbrev tables : Tables
tables = record { db = empty; recurring_tasks = hourly ∷ []; recurring_executions = [] }

abbrev pay : Task String
pay = record {
  module_path = "Pay";
  queue_name = some "billing";
  priority = none;
  run_after = none;
  concurrency_key = text "Pay/1";
  concurrency_limit = some 1;
  concurrency_duration = some 60;
  concurrency_group = none;
  serialize = λ a. some a;
}

abbrev pay_job : Job
pay_job = record payment { scheduled_at = some 10 }

allow_migrate-agrees_example :
    (is_allowed (allow_migrate "queue" "default" "shop")
      ≡ is_database "default" (db_for_write "queue" "shop"))
    × ((is_allowed (allow_migrate "queue" "default" "shop")
          ≡ is_database "default" (db_for_read "queue" "shop"))
        × (is_refused (allow_migrate "queue" "default" "shop") ≡ (
            if str_eq "shop" app_label
            then not (str_eq "default" "queue")
            else str_eq "default" "queue")))
allow_migrate-agrees_example = allow_migrate-agrees "queue" "default" "shop"

abbrev daily : RecurringTask
daily = record hourly { key = "daily"; schedule = "0 3 * * *" }

persist_tasks-rows_example :
    All (λ t. listed (persist_tasks (daily ∷ []) tables).recurring_tasks t.key ≡ true) (daily ∷ [])
    × (All (IsWanted (daily ∷ [])) (persist_tasks (daily ∷ []) tables).recurring_tasks
        × (others (daily ∷ []) (persist_tasks (daily ∷ []) tables).recurring_tasks
            ≡ filter (λ r. not r.static && not (listed (daily ∷ []) r.key)) (hourly ∷ [])))
persist_tasks-rows_example = persist_tasks-rows (daily ∷ []) tables

-- A configured task that nothing but its key, class and schedule is said of, as the fields' defaults
-- allow. It is valid, and the table refuses its row.
abbrev bare : Configuration.RecurringTask
bare = record {
  key = "bare";
  class_name = some "Pay";
  command = none;
  arguments = none;
  schedule = some "0 * * * *";
  queue_name = none;
  priority = none;
  description = none;
}

valid_not_saved :
    (is_valid
        (λ s. none)
        (λ c. none)
        (record { engine = none; pool_max_size = none })
        (Configuration.new_options (bare ∷ []) none none none false false)
      ≡ true)
    × (saved (from_configuration bare) ≡ none)
unfolding is_valid saved from_configuration Configuration.new_options Configuration.errors
    Configuration.validate_configured_processes Configuration.validate_database_pool_size
    Configuration.validate_recurring_tasks Configuration.configured_processes
    Configuration.skip_recurring Configuration.workers Configuration.worker_processes
    Configuration.errors_of Configuration.clean Configuration.schedulers Configuration.dispatchers
valid_not_saved = (refl, refl)
