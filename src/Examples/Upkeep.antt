-- ===== src/Examples/Upkeep.antt =====
-- execution.py and recurring_schedule.py: discarded jobs and cancelled timers.
use steady_queue.Prelude.{
  ℕ, length, String, ◌≡◌, refl, arith, Bool, true, some, List, [], ◌∷◌, elem,
}
use steady_queue.Db.{Db, FailedExecution, empty, delete_jobs, has_ready, has_scheduled, has_blocked}
use steady_queue.Discarding.{discard_in_batches}
use steady_queue.Discarding.Batches.{IsConsistent, discard_in_batches-at_once}
use steady_queue.Schedule.{
  Timer, Schedule, fresh, schedule_task, schedule_tasks, unschedule_tasks, fire, reschedule,
  set_item, del_item,
}
use steady_queue.Schedule.Cancelled.{Reach, here, fires, reschedules, unschedule_tasks-pending}
use steady_queue.Semaphore.{
  attempt_creation, attempt_decrement, available, check_limit_or_decrement, get, limit_of,
  wait_after, wait,
}
use steady_queue.Locks.{is_concurrency_limited, proxy, wait_for, acquire_concurrency_lock, block}
use steady_queue.Executable.{
  ready, repeats, create_all_from_jobs, dispatch, dispatch_all_one_by_one, successfully_dispatched,
  dispatch_all,
}
use steady_queue.Dispatching.{retry_selected, retry_all, dispatch_failed, delete_failed_of}
use steady_queue.Examples.{env, payment, semaphore}

abbrev failed_twice : Db
failed_twice = record empty {
  next_id = 4;
  jobs = record payment { id = 1 } ∷ record payment { id = 2 } ∷ record payment { id = 3 } ∷ [];
  failed =
      record { job_id = 3; error = "Timeout: " } ∷ record { job_id = 1; error = "Timeout: " } ∷ [];
}

failed_twice-IsConsistent : IsConsistent failed_twice
failed_twice-IsConsistent = record { has_job = λ i. ground arith; once = λ i. ground arith }

abbrev everything : FailedExecution → Bool
everything f = true

-- Batches of one job, and three rounds.
discard_in_batches-at_once_example :
    discard_in_batches everything 1 3 failed_twice
    ≡ some (2, delete_jobs (λ i. elem i (3 ∷ 1 ∷ [])) failed_twice)
discard_in_batches-at_once_example =
    discard_in_batches-at_once everything 0 3 failed_twice failed_twice-IsConsistent (omega arith)

abbrev two_tasks : List (String × ℕ)
two_tasks = ("nightly", 100) ∷ ("hourly", 60) ∷ []

abbrev timer : ℕ → String → ℕ → Timer
timer i key run_at = record { id = i; key = key; run_at = run_at }

abbrev started : Schedule
started = schedule_tasks two_tasks fresh

-- The hourly task is enqueued, and scheduled again.
abbrev an_hour_later : Schedule
an_hour_later = reschedule (timer 1 "hourly" 60) 120 (fire (timer 1 "hourly" 60) started)

an_hour_later-Reach : Reach started an_hour_later
unfolding schedule_tasks schedule_task fire
an_hour_later-Reach =
    reschedules (timer 1 "hourly" 60) [] [] 120
      (fires (timer 1 "hourly" 60) [] (timer 0 "nightly" 100 ∷ []) here refl) refl

unschedule_tasks-pending_example : (unschedule_tasks an_hour_later).pending ≡ []
unfolding reschedule schedule_tasks schedule_task fire
unschedule_tasks-pending_example =
    unschedule_tasks-pending two_tasks an_hour_later (unschedule_tasks an_hour_later) refl
      an_hour_later-Reach refl here

-- A callback that the end of the scheduler finds before its first half leaves a timer behind.
abbrev left_behind : Schedule
left_behind =
    reschedule (timer 1 "hourly" 60) 120 (unschedule_tasks (fire (timer 1 "hourly" 60) started))

left_behind-pending : left_behind.pending ≡ timer 2 "hourly" 120 ∷ []
unfolding reschedule unschedule_tasks schedule_tasks schedule_task fire set_item del_item
left_behind-pending = refl

-- A failed job whose slot is taken blocks again, and its failed execution stays beside.
abbrev taken_slot : Db
taken_slot = record empty {
  next_id = 2;
  jobs = record payment { id = 1 } ∷ [];
  failed = record { job_id = 1; error = "Timeout: " } ∷ [];
  semaphores = semaphore 0 ∷ [];
}

abbrev retried : Db
retried = (retry_selected env everything taken_slot).1

retried_twice : (length retried.failed ≡ 1) × (length retried.blocked ≡ 1)
unfolding retry_selected retry_all dispatch_failed dispatch_all create_all_from_jobs
    is_concurrency_limited repeats dispatch_all_one_by_one dispatch acquire_concurrency_lock
    wait_for wait block has_blocked delete_failed_of successfully_dispatched has_ready has_scheduled
    ready proxy attempt_creation attempt_decrement available check_limit_or_decrement get limit_of
    wait_after
retried_twice = (refl, refl)
