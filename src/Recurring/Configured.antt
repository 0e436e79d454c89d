-- ===== src/Recurring/Configured.antt =====
-- steady_queue/recurring_task.py and steady_queue/models/recurring_task.py: the decorator
-- `recurring`, and the row that a configured task becomes.
use mathlib.Core.Option
use steady_queue.Prelude.{String, Bool, true, ◌≡◌, refl, Option, none, some, List, [], ◌∷◌, ◌++◌}
use steady_queue.Prelude.Int.{ℤ}
use steady_queue.Arguments.{Codec, Items, Entries}
use steady_queue.Backend.{Task}
use steady_queue.Task.{Settings, JobData, serialize}
use steady_queue.Configuration
use steady_queue.Recurring.{RecurringTask, using}

-- A `RecurringTask` that is not in the database yet: no column has been checked.
pub record UnsavedTask : Type 0 where
  pub key : String
  pub schedule : Option String
  pub command : Option String
  pub class_name : Option String
  pub arguments : Option String
  pub queue_name : Option String
  pub priority : Option ℤ
  pub static : Bool
  pub description : Option String

unfoldable pub from_configuration : Configuration.RecurringTask → UnsavedTask
from_configuration config = record {
  key = config.key;
  static = true;
  class_name = config.class_name;
  command = config.command;
  arguments = config.arguments;
  schedule = config.schedule;
  queue_name = config.queue_name;
  priority = config.priority;
  description = config.description;
}

-- The columns that are not null: the schedule, the class name and the priority. `none` is
-- `IntegrityError`.
abbrev pub complete : UnsavedTask → Option String → Option String → Option ℤ → Option RecurringTask
complete t (some schedule) (some class_name) (some priority) = some (record {
  key = t.key;
  schedule = schedule;
  command = t.command;
  class_name = class_name;
  arguments = t.arguments;
  queue_name = t.queue_name;
  priority = priority;
  static = t.static;
  description = t.description;
})
complete t (some schedule) (some class_name) none = none
complete t (some schedule) none priority = none
complete t none class_name priority = none

unfoldable pub saved : UnsavedTask → Option RecurringTask
saved t = complete t t.schedule t.class_name t.priority

-- The configuration that the decorator makes of its arguments and of what `serialize` gives, whose
-- text is `dumps job_data`.
abbrev pub configured :
    {c : Codec}
    → (dumps : JobData c → String) → (schedule : String) → (key : String)
    → (queue_name : Option String) → (priority : ℤ) → (description : Option String) → Settings c
    → JobData c
    → Configuration.RecurringTask
configured dumps schedule key queue_name priority description task job_data = record {
  key = key;
  class_name = some task.module_path;
  command = none;
  arguments = some (dumps job_data);
  schedule = some schedule;
  queue_name = queue_name;
  priority = some priority;
  description = description;
}

-- The decorator `recurring`, on the list `configurations`. The task is none where it has no
-- `module_path`, and so is the result where the decorator raises. Without `args` or `kwargs` these
-- are empty, which `serialize` does not tell from none.
unfoldable pub recurring :
    {c : Codec}
    → (dumps : JobData c → String) → (schedule : String) → (key : String) → Items c
    → Entries c
    → (queue_name : Option String) → (priority : ℤ) → (description : Option String)
    → Option (Settings c)
    → List Configuration.RecurringTask
    → Option (List Configuration.RecurringTask)
recurring dumps schedule key args kwargs queue_name priority description none configurations = none
recurring dumps schedule key args kwargs queue_name priority description (some task)
      configurations =
    Option.map
      (λ job_data.
        configurations
        ++ configured dumps schedule key queue_name priority description task job_data ∷ [])
      (serialize task args kwargs)

-- A task whose arguments can be serialised is registered once, at the end of the list; its row meets
-- the constraints of the table and is static. The row's priority, which is 0 unless the decorator
-- has another, takes the place of that of the task whenever it is enqueued.
pub recurring-saved :
    {c : Codec} {A : Type 0} (dumps : JobData c → String) (schedule key : String) (args : Items c)
    (kwargs : Entries c) (queue_name : Option String) (priority : ℤ) (description : Option String)
    (task : Settings c) (cs : List Configuration.RecurringTask) (job_data : JobData c) (t : Task A)
    → serialize task args kwargs ≡ some job_data
    → (config : Configuration.RecurringTask) × ((row : RecurringTask) × ((recurring dumps schedule
              key args kwargs queue_name priority description
              (some task)
              cs
            ≡ some (cs ++ config ∷ []))
          × ((saved (from_configuration config) ≡ some row)
              × ((row.static ≡ true)
                  × ((row.arguments ≡ some (dumps job_data))
                      × ((using row t).priority ≡ some priority))))))
unfolding recurring saved from_configuration using
recurring-saved dumps schedule key args kwargs queue_name priority description task cs job_data t
      given =
    (
      configured dumps schedule key queue_name priority description task job_data,
      (
        record {
          key = key;
          schedule = schedule;
          command = none;
          class_name = task.module_path;
          arguments = some (dumps job_data);
          queue_name = queue_name;
          priority = priority;
          static = true;
          description = description;
        },
        (rw given refl, (refl, (refl, (refl, refl)))),
      ),
    )
