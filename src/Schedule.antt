-- ===== src/Schedule.antt =====
-- steady_queue/recurring_schedule.py, and the dict of steady_queue/processes/concurrent.py: the timers
-- of the recurring tasks.
pub mod Cancelled
use steady_queue.Prelude.{
  ℕ, suc, String, Bool, true, false, not, Option, none, some, List, [], ◌∷◌, ◌++◌, map, ◌==◌,
  str_eq, if◌then◌else◌, filter, elem,
}

-- The threads' dict, whose order has no part: a key has the number of its timer.
abbrev pub Dict : Type 0
Dict = List (String × ℕ)

abbrev pub at_key : String → String × ℕ → Bool
at_key key e = str_eq e.0 key

unfoldable pub get_item : String → Dict → Option ℕ
get_item key [] = none
get_item key (e ∷ es) = if at_key key e then some e.1 else get_item key es

unfoldable pub del_item : String → Dict → Dict
del_item key es = filter (λ e. not (at_key key e)) es

unfoldable pub set_item : String → ℕ → Dict → Dict
unfolding del_item
set_item key i es = (key, i) ∷ del_item key es

abbrev pub values : Dict → List ℕ
values es = map (λ e. e.1) es

-- A `threading.Timer` that has started: the key of its task and the time that it enqueues for.
pub record Timer : Type 0 where
  pub id : ℕ
  pub key : String
  pub run_at : ℕ

-- `pending` timers have neither fired nor been cancelled; `called` are the callbacks that have not
-- scheduled the next execution yet, and `enqueuing` those that are to enqueue the current one.
pub record Schedule : Type 0 where
  pub next_id : ℕ
  pub scheduled_tasks : Dict
  pub pending : List Timer
  pub called : List Timer
  pub enqueuing : List Timer

abbrev pub fresh : Schedule
fresh = record { next_id = 0; scheduled_tasks = []; pending = []; called = []; enqueuing = [] }

-- `schedule_task`, with the start of the timer by `schedule`. `run_at` is `task.next_time`.
unfoldable pub schedule_task : (key : String) → (run_at : ℕ) → Schedule → Schedule
unfolding set_item
schedule_task key run_at s = record s {
  next_id = suc s.next_id;
  scheduled_tasks = set_item key s.next_id s.scheduled_tasks;
  pending = record { id = s.next_id; key = key; run_at = run_at } ∷ s.pending;
}

-- The loop of `schedule_tasks`, over the keys and the next times of the tasks.
unfoldable pub schedule_tasks : List (String × ℕ) → Schedule → Schedule
schedule_tasks [] s = s
schedule_tasks (t ∷ ts) s = schedule_tasks ts (schedule_task t.0 t.1 s)

-- `unschedule_tasks`: cancelling a timer that has fired does nothing.
unfoldable pub unschedule_tasks : Schedule → Schedule
unschedule_tasks s = record s {
  pending = filter (λ t. not (elem t.id (values s.scheduled_tasks))) s.pending;
  scheduled_tasks = [];
}

abbrev pub without : ℕ → List Timer → List Timer
without i ts = filter (λ t. not (t.id == i)) ts

-- A timer fires, which starts `timer_callback`.
unfoldable pub fire : Timer → Schedule → Schedule
fire t s = record s { pending = without t.id s.pending; called = t ∷ s.called }

-- The first half of `timer_callback`; the second is `RecurringTask.enqueue`.
unfoldable pub reschedule : Timer → (next_time : ℕ) → Schedule → Schedule
unfolding schedule_task
reschedule t next_time s =
    schedule_task t.key next_time
      (record s { called = without t.id s.called; enqueuing = t ∷ s.enqueuing })
