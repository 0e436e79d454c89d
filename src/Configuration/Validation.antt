-- ===== src/Configuration/Validation.antt =====
-- configuration.py: what a valid configuration guarantees.
use Prim.{absurd}
use steady_queue.Prelude.{
  ℕ, ◌+◌, ◌≤◌, String, ◌≡◌, Bool, true, false, Option, none, some, List, [], ◌∷◌, ◌++◌, arith,
  length, length-append, All, All-map, eq_refl, Bool-cases, inl, inr, ◌==◌,
}
use steady_queue.Configuration.{
  Worker, RecurringTask, Options, DatabaseConfig, ValidationError, max_worker_threads,
  estimated_number_of_threads, validate_configured_processes, validate_database_pool_size,
  validate_recurring_tasks, errors, is_valid, clean, errors_of, skip_recurring,
  configured_processes,
}

max_worker_threads-All : (ws : List Worker) → All (λ w. w.threads ≤ max_worker_threads ws) ws
unfolding max_worker_threads
max_worker_threads-All [] = tt
max_worker_threads-All (w ∷ []) = (omega arith, tt)
max_worker_threads-All (w ∷ v ∷ ws) =
    (ground arith, All-map (v ∷ ws) (λ x h. ground arith) (max_worker_threads-All (v ∷ ws)))

All-of_none : (P : Worker → Type 0) (ws : List Worker) → (length ws == 0) ≡ true → All P ws
All-of_none P [] h = tt
All-of_none P (w ∷ ws) h = absurd (ground arith)

abbrev every_error : ValidationError → Bool
every_error e = true

module _ (crontab import_string : Option String → Option String) where
  errors_of-clean :
      (ts : List RecurringTask)
      → length (errors_of crontab import_string ts) ≡ 0
      → All (λ t. clean crontab import_string t ≡ none) ts
  unfolding errors_of
  errors_of-clean [] h = tt
  errors_of-clean (t ∷ ts) h = ground (arith, errors_of-clean ts)

  module _ (config : DatabaseConfig) (options : Options)
      (valid : is_valid crontab import_string config options ≡ true) where
    no_errors :
        (length (validate_configured_processes options) ≡ 0)
        × ((length (validate_database_pool_size options config) ≡ 0)
            × (length (validate_recurring_tasks crontab import_string options) ≡ 0))
    unfolding is_valid errors
    no_errors = ground (
      arith,
      length-append every_error (validate_configured_processes options) (
          validate_database_pool_size options config
          ++ validate_recurring_tasks crontab import_string options),
      length-append every_error (validate_database_pool_size options config)
          (validate_recurring_tasks crontab import_string options),
    )

    -- On PostgreSQL with a pool of a given size, a valid configuration starts some process, and every
    -- worker has at least two threads fewer than the pool has connections.
    pub is_valid-pool :
        (max_size : ℕ)
        → config.engine ≡ some "django.db.backends.postgresql"
        → config.pool_max_size ≡ some max_size
        → ((length (configured_processes options) == 0) ≡ false)
          × All (λ w. w.threads + 2 ≤ max_size) options.workers
    unfolding validate_configured_processes validate_database_pool_size estimated_number_of_threads
    is_valid-pool max_size engine size = (
      ground (arith, no_errors.0),
      elim (Bool-cases (length options.workers == 0)) [
        | inl none_configured ↦ All-of_none _ options.workers none_configured
        | inr some_configured ↦
            All-map options.workers
              (λ w h. ground (arith, no_errors.1.0, eq_refl "django.db.backends.postgresql"))
              (max_worker_threads-All options.workers)
      ],
    )

    -- A valid configuration that does not skip recurring tasks has none that fails its checks.
    pub is_valid-recurring :
        skip_recurring options ≡ false
        → All (λ t. clean crontab import_string t ≡ none) options.recurring_tasks
    unfolding validate_recurring_tasks
    is_valid-recurring kept =
        errors_of-clean options.recurring_tasks (ground (arith, no_errors.1.1))
