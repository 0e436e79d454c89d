-- ===== src/Poller.antt =====
-- steady_queue/processes/poller.py and scheduler.py: the loops of the processes that poll.
pub mod Waking
pub mod Ends
pub mod Last
use steady_queue.Prelude.{
  ℕ, zero, suc, ◌+◌, Bool, true, false, Option, none, some, List, [], ◌∷◌, if◌then◌else◌,
}
use steady_queue.Action.{Result, Error, ok, err}
use steady_queue.Runnable.{
  Runnable, Pipe, wake_up, stop, interruptible_sleep, is_shutting_down, close_pipe,
}

-- What reaches a process from outside its loop: SIGINT or SIGTERM, a heartbeat that finds no row, and
-- `on_idle` of the pool.
pub data Event : Type 0 where
  signalled row_gone became_idle : Event

-- An event but for its write to the pipe.
abbrev pub mark : Event → Runnable → Runnable
mark signalled r = record r { stopped = true }
mark row_gone r = record r { process = none }
mark became_idle r = r

unfoldable pub event : Event → Runnable → Runnable
unfolding wake_up
event e r = wake_up (mark e r)

abbrev pub events : List Event → Runnable → Runnable
events [] r = r
events (e ∷ es) r = events es (event e r)

-- One turn of the loop: the parent's pid at the check, the events up to the sleep, and the next one
-- with its time after the start of the sleep.
pub record Turn : Type 0 where
  pub ppid : ℕ
  pub before : List Event
  pub asleep : Option (ℕ × Event)

abbrev pub time_of : Option (ℕ × Event) → Option ℕ
time_of none = none
time_of (some x) = some x.0

abbrev pub mark_asleep : Option (ℕ × Event) → Runnable → Runnable
mark_asleep none r = r
mark_asleep (some x) r = mark x.1 r

-- How long the process sleeps, and what it is then.
unfoldable pub sleep : (delay : ℕ) → Option (ℕ × Event) → Runnable → ℕ × Runnable
unfolding interruptible_sleep
sleep delay asleep r =
    let slept = interruptible_sleep delay (time_of asleep) r.pipe in
    (slept.0, mark_asleep asleep (record r { pipe = slept.1 }))

-- `going` is a loop whose turns are over, though it has not ended.
pub data Ending : Type 0 where
  going : Ending
  ended : Result (Unit {0}) → Ending

pub record Loop (W : Type 0) : Type 0 where
  pub ending : Ending
  pub polls : ℕ
  pub waited : ℕ
  pub runnable : Runnable
  pub world : W

-- The `finally` of the loop; an exception of `shutdown` wins.
abbrev pub either : Result (Unit {0}) → Result (Unit {0}) → Result (Unit {0})
either before (ok u) = before
either before (err e) = err e

module _ {W : Type 0} (poll : Runnable → W → Result ℕ × W) (is_all_work_completed : W → Result Bool)
    (shutdown : Runnable → W → Result (Unit {0}) × (Runnable × W)) where
  abbrev pub end_loop : Result (Unit {0}) → Runnable → W → Loop W
  end_loop before r w =
      let shut = shutdown r w in
      record {
        ending = ended (either before shut.0);
        polls = 0;
        waited = 0;
        runnable = shut.1.0;
        world = shut.1.1;
      }

  abbrev pub turned : (waited : ℕ) → Loop W → Loop W
  turned waited rest = record rest { polls = suc rest.polls; waited = waited + rest.waited }

  abbrev pub failed_poll : Loop W → Loop W
  failed_poll rest = record rest { polls = 1 }

  -- `Poller.start_loop`
  unfoldable pub start_loop : List Turn → Runnable → W → Loop W
  start_loop [] r w = record { ending = going; polls = 0; waited = 0; runnable = r; world = w }
  start_loop (t ∷ ts) r w = elim (is_shutting_down t.ppid (is_all_work_completed w) r) [
    | err e ↦ end_loop (err e) r w
    | ok over ↦ elim over [
      | true ↦ end_loop (ok tt) r w
      | false ↦ elim (poll r w).0 [
        | err e ↦ failed_poll (end_loop (err e) (events t.before r) (poll r w).1)
        | ok delay ↦
            let slept = sleep delay t.asleep (events t.before r) in
            turned slept.0 (start_loop ts slept.1 (poll r w).1)
      ]
    ]
  ]

abbrev pub sleep_interval : ℕ
sleep_interval = 60000

-- `Scheduler.run`: the same loop, which only sleeps; `is_empty` is that of its schedule.
unfoldable pub run_scheduler :
    {W : Type 0}
    → (is_empty : W → Bool) → (Runnable → W → Result (Unit {0}) × (Runnable × W))
    → List Turn
    → Runnable
    → W
    → Loop W
unfolding start_loop
run_scheduler is_empty shutdown =
    start_loop (λ r w. (ok sleep_interval, w)) (λ w. ok (is_empty w)) shutdown
