-- ===== src/Configuration/Processes.antt =====
-- configuration.py: which processes a supervisor starts, and how often.
use steady_queue.Prelude.{
  ℕ, zero, suc, ◌+◌, ◌≡◌, refl, Bool, List, [], ◌∷◌, ◌++◌, map, arith, if◌then◌else◌, count_if,
  count_if-append,
}
use steady_queue.Configuration.{
  Worker, Dispatcher, Options, Process, worker, dispatcher, scheduler, repeat, worker_processes,
  skip_recurring, workers, dispatchers, schedulers, configured_processes,
}

module _ (p : Process → Bool) where
  -- How many processes that pass the test the workers of a configuration ask for, and how many
  -- dispatchers pass it.
  abbrev pub asked : List Worker → ℕ
  asked [] = 0
  asked (w ∷ ws) = (if p (worker w) then w.processes else 0) + asked ws

  abbrev pub count_dispatchers : List Dispatcher → ℕ
  count_dispatchers [] = 0
  count_dispatchers (d ∷ ds) = (if p (dispatcher d) then 1 else 0) + count_dispatchers ds

  count_if-repeat : (a : Process) (n : ℕ) → count_if p (repeat a n) ≡ (if p a then n else 0)
  count_if-repeat a zero = ground arith
  count_if-repeat a (suc n) = ground (arith, count_if-repeat a n)

  count_if-worker_processes : (ws : List Worker) → count_if p (worker_processes ws) ≡ asked ws
  unfolding worker_processes
  count_if-worker_processes [] = refl
  count_if-worker_processes (w ∷ ws) = ground (
    arith,
    count_if-append p (repeat (worker w) w.processes) (worker_processes ws),
    count_if-repeat (worker w) w.processes,
    count_if-worker_processes ws,
  )

  count_if-dispatchers :
      (ds : List Dispatcher) → count_if p (map dispatcher ds) ≡ count_dispatchers ds
  count_if-dispatchers [] = refl
  count_if-dispatchers (d ∷ ds) = ground (arith, count_if-dispatchers ds)

  -- Whatever a test on the configured processes picks out, it counts every worker as often as it
  -- asks for, with its own options, and every dispatcher once, unless the supervisor only works, and
  -- one scheduler of the recurring tasks, unless it only works or skips them.
  pub count_if-configured_processes :
      (options : Options)
      → count_if p (configured_processes options)
        ≡ asked options.workers
          + (if options.only_work then 0 else count_dispatchers options.dispatchers)
          + (if skip_recurring options
              then 0
              else (if p (scheduler options.recurring_tasks) then 1 else 0))
  unfolding configured_processes skip_recurring workers dispatchers schedulers
  count_if-configured_processes options = ground (
    arith,
    count_if-worker_processes options.workers,
    count_if-dispatchers options.dispatchers,
    count_if-append p (worker_processes options.workers) (map dispatcher options.dispatchers),
    count_if-append p (worker_processes options.workers)
        (map dispatcher options.dispatchers ++ scheduler options.recurring_tasks ∷ []),
    count_if-append p (map dispatcher options.dispatchers) (scheduler options.recurring_tasks ∷ []),
  )
