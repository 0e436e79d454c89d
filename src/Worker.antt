-- ===== src/Worker.antt =====
-- steady_queue/processes/worker.py, pool.py and the counter of concurrent.py: a worker claims as many
-- jobs as it has idle threads and posts them to its pool.
pub mod Capacity
pub mod Leaving
use steady_queue.Prelude.{
  ℕ, zero, suc, String, Bool, true, false, Option, none, some, List, [], ◌∷◌, ◌++◌, ◌==◌,
  if◌then◌else◌,
}
use steady_queue.Prelude.Int.{ℤ, pos, negsuc}
use steady_queue.Db.{Db, ClaimedExecution, Process}
use steady_queue.Env.{Env}
use steady_queue.Action.{Result, ok, err, map_result}
use steady_queue.Ready.{claim, aggregated_count_across_queues}
use steady_queue.Runnable
use steady_queue.Runnable.{Runnable}
use steady_queue.Poller.{Turn, Loop, start_loop}

-- `AtomicInteger.increment` and `decrement`
unfoldable pub increment : ℤ → ℤ
increment (pos n) = pos (suc n)
increment (negsuc zero) = pos 0
increment (negsuc (suc n)) = negsuc n

unfoldable pub decrement : ℤ → ℤ
decrement (pos zero) = negsuc 0
decrement (pos (suc n)) = pos n
decrement (negsuc n) = negsuc (suc n)

-- The counter of the pool, and the executions that are posted and have not ended.
pub record Pool : Type 0 where
  pub size : ℕ
  pub available_threads : ℤ
  pub posted : List ClaimedExecution

abbrev pub new_pool : ℕ → Pool
new_pool size = record { size = size; available_threads = pos size; posted = [] }

-- `post`, up to the call of the executor.
unfoldable pub post : ClaimedExecution → Pool → Pool
unfolding decrement
post execution pool = record pool {
  available_threads = decrement pool.available_threads;
  posted = pool.posted ++ execution ∷ [];
}

-- The `finally` of a posted execution, which leaves `rest` posted.
unfoldable pub ended : (rest : List ClaimedExecution) → Pool → Pool
unfolding increment
ended rest pool = record pool {
  available_threads = increment pool.available_threads;
  posted = rest;
}

unfoldable pub is_idle : Pool → Bool
is_idle pool = elim pool.available_threads [
  | pos n ↦ elim n [ zero ↦ false | suc m ↦ true ]
  | negsuc n ↦ false
]

-- `idle_threads` as the limit of a claim: a limit below 0 claims nothing, as 0 does.
unfoldable pub idle_limit : Pool → ℕ
idle_limit pool = elim pool.available_threads [ pos n ↦ n | negsuc n ↦ 0 ]

unfoldable pub post_all : List ClaimedExecution → Pool → Pool
unfolding post
post_all [] pool = pool
post_all (c ∷ cs) pool = post_all cs (post c pool)

abbrev pub ten_minutes : ℕ
ten_minutes = 600000

unfoldable pub posting :
    (polling_interval : ℕ) → Result (List ClaimedExecution) → Pool → Result ℕ × Pool
unfolding post_all is_idle
posting polling_interval (ok claimed) pool =
    let after = post_all claimed pool in
    (ok (if is_idle after then polling_interval else ten_minutes), after)
posting polling_interval (err e) pool = (err e, pool)

-- `poll`: the delay until the next one, the pool and the database.
unfoldable pub poll :
    Env
    → (queues : List String) → (process_id : Option ℕ) → (polling_interval : ℕ) → Pool
    → Db
    → (Result ℕ × Pool) × Db
unfolding posting idle_limit
poll env queues process_id polling_interval pool db =
    let claimed = claim env queues (idle_limit pool) process_id db in
    (posting polling_interval claimed.0 pool, claimed.1)

-- `shutdown`: the executor drops what it has not started, and its threads run on.
unfoldable pub shutdown_worker : Runnable → Pool × Db → Result (Unit {0}) × (Runnable × (Pool × Db))
shutdown_worker r w = let left = Runnable.shutdown r w.1 in (left.0, (left.1.0, (w.0, left.1.1)))

abbrev id_of : Option Process → Option ℕ
id_of none = none
id_of (some p) = some p.id

-- `Registrable.process_id`
unfoldable pub process_id : Runnable → Option ℕ
process_id r = id_of r.process

unfoldable pub is_all_work_completed : List String → Db → Result Bool
unfolding aggregated_count_across_queues
is_all_work_completed queues db =
    map_result (λ n. n == 0) (aggregated_count_across_queues queues db).0

-- `start_loop` of a worker.
unfoldable pub run_worker :
    Env
    → (queues : List String) → (polling_interval : ℕ) → List Turn
    → Runnable
    → Pool × Db
    → Loop (Pool × Db)
run_worker env queues polling_interval =
    start_loop
      (λ r w.
        let polled = poll env queues (process_id r) polling_interval w.0 w.1 in
        (polled.0.0, (polled.0.1, polled.1)))
      (λ w. is_all_work_completed queues w.1) shutdown_worker
