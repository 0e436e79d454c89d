-- ===== src/Task.antt =====
-- steady_queue/task.py: the settings of a task, what a job stores of a task, and running it.
pub mod Restored
use mathlib.Core.Option
use steady_queue.Prelude.{String, Option, none, some}
use steady_queue.Prelude.Int.{ℤ}
use steady_queue.Arguments.{
  Codec, Value, Items, Entries, Call, map_two, serialize_args_and_kwargs,
  deserialize_args_and_kwargs,
}

-- The fields of a task that `using` replaces, with its module path.
pub record Settings (c : Codec) : Type 0 where
  pub module_path : String
  pub backend : String
  pub queue_name : String
  pub priority : ℤ
  pub run_after : Option (Codec.DateTime c)

pub data RunAfter (c : Codec) : Type 0 where
  moment : Codec.DateTime c → RunAfter c
  delay : Codec.TimeDelta c → RunAfter c

abbrev given : {A : Type 0} → Option A → A → A
given none old = old
given (some new) old = new

-- `Task.using` of django.tasks: what is not none replaces the task's own.
abbrev pub replaced :
    {c : Codec}
    → Option ℤ
    → Option String
    → Option (Codec.DateTime c)
    → Option String
    → Settings c
    → Settings c
replaced priority queue_name run_after backend task = record task {
  priority = given priority task.priority;
  queue_name = given queue_name task.queue_name;
  run_after = elim run_after [ none ↦ task.run_after | some t ↦ some t ];
  backend = given backend task.backend;
}

-- `now_plus d` is `timezone.now() + d`.
abbrev moment_of :
    {c : Codec}
    → (now_plus : Codec.TimeDelta c → Codec.DateTime c) → Option (RunAfter c)
    → Option (Codec.DateTime c)
moment_of now_plus none = none
moment_of now_plus (some (moment t)) = some t
moment_of now_plus (some (delay d)) = some (now_plus d)

-- `SteadyQueueTask.using`
unfoldable pub using :
    {c : Codec}
    → (now_plus : Codec.TimeDelta c → Codec.DateTime c) → (priority : Option ℤ)
    → (queue_name : Option String) → (run_after : Option (RunAfter c)) → (backend : Option String)
    → Settings c
    → Settings c
using now_plus priority queue_name run_after backend task =
    replaced priority queue_name (moment_of now_plus run_after) backend task

-- The dict of `serialize`, without the locale, the time zone and the time, which nothing reads.
pub record JobData (c : Codec) : Type 0 where
  pub class_name : String
  pub backend : String
  pub queue_name : String
  pub priority : ℤ
  pub arguments : Call c
  pub scheduled_at : Option String

abbrev pub isoformat_of : (c : Codec) → Option (Codec.DateTime c) → Option String
isoformat_of c none = none
isoformat_of c (some t) = some (c.datetime_isoformat t)

abbrev pub stored : {c : Codec} → Settings c → Call c → JobData c
stored {c} task call = record {
  class_name = task.module_path;
  backend = task.backend;
  queue_name = task.queue_name;
  priority = task.priority;
  arguments = call;
  scheduled_at = isoformat_of c task.run_after;
}

-- `serialize`; `none` is `SerializationError`.
unfoldable pub serialize : {c : Codec} → Settings c → Items c → Entries c → Option (JobData c)
serialize task args kwargs = Option.map (stored task) (serialize_args_and_kwargs args kwargs)

-- `fromisoformat` of a text that is there; the outer `none` is its exception.
abbrev pub parsed : (c : Codec) → Option String → Option (Option (Codec.DateTime c))
parsed c none = some none
parsed c (some s) = elim (c.datetime_fromisoformat s) [ none ↦ none | some t ↦ some (some t) ]

-- `deserialize`; `none` is an exception, `UnknownTaskClassError` among them.
unfoldable pub deserialize :
    {c : Codec} → (import_string : String → Option (Settings c)) → JobData c → Option (Settings c)
deserialize {c} import_string job_data =
    map_two
      (λ task at.
        replaced (some job_data.priority) (some job_data.queue_name) at (some job_data.backend)
          task)
      (import_string job_data.class_name) (parsed c job_data.scheduled_at)

-- `execute`, up to the call of the function: the task, and the arguments that it is called with.
unfoldable pub execute :
    {c : Codec}
    → (import_string : String → Option (Settings c)) → JobData c
    → Option ((Items c × Value c) × Settings c)
unfolding deserialize
execute import_string job_data =
    map_two (λ a t. (a, t)) (deserialize_args_and_kwargs job_data.arguments)
      (deserialize import_string job_data)
