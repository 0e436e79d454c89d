-- ===== src/Locks.antt =====
-- steady_queue/models/concurrency_controls.py: a job and its semaphore.
use steady_queue.Prelude.{
  ℕ, ◌+◌, String, Bool, Option, true, false, none, some, is_some, List, [], ◌∷◌, ◌++◌,
  if◌then◌else◌,
}
use steady_queue.Prelude.Int.{pos}
use steady_queue.Semaphore
use steady_queue.Semaphore.{Semaphore, Proxy, limit_of}
use steady_queue.Db.{Job, BlockedExecution, has_blocked}
use steady_queue.Env.{Env, TaskClass}
use steady_queue.Action.{
  Action, Result, ok, err, integrity_error, import_error, type_error, pure, raise, map_result,
}

unfoldable pub is_concurrency_limited : Job → Bool
is_concurrency_limited job = is_some job.concurrency_key

-- Runs a method of the semaphore table.
abbrev pub on_semaphores : (List Semaphore → Bool × List Semaphore) → Action Bool
on_semaphores f db = let r = f db.semaphores in (ok (r.0), record db { semaphores = r.1 })

-- `timezone.now() + self.job.concurrency_duration`, where the sum with None raises.
abbrev pub expires_in : (now : ℕ) → Option ℕ → Result ℕ
expires_in now none = err type_error
expires_in now (some duration) = ok (now + duration)

abbrev pub expires_for : (now : ℕ) → Option TaskClass → Result ℕ
expires_for now none = err import_error
expires_for now (some task) = expires_in now task.concurrency_duration

-- The limit of a class that is not found is never read: the expiry raises.
abbrev pub limit_for : Option TaskClass → Option ℕ
limit_for none = none
limit_for (some task) = task.concurrency_limit

-- A null key is refused by the column of a new row, whose other columns are read before.
abbrev pub keyless : {A : Type 0} → Result ℕ → Action A
keyless (ok at) = raise integrity_error
keyless (err e) = raise e

-- `wait` where the expiry raises: it is not read if the semaphore has no slot.
abbrev pub wait_with : String → Result Proxy → Action Bool
wait_with key (ok p) = on_semaphores (Semaphore.wait p)
wait_with key (err e) = λ db. elim (Semaphore.get key db.semaphores) [
  | none ↦ (err e, db)
  | some s ↦ if Semaphore.available s then (err e, db) else (ok false, db)
]

abbrev pub signal_with : Result Proxy → Action Bool
signal_with (ok p) = on_semaphores (Semaphore.signal p)
signal_with (err e) = raise e

-- `BlockedExecution.save` fills the key and the expiry of a new row from the job. The queue name
-- and the priority are not set: they are the columns' defaults.
abbrev pub new_blocked : Job → String → (expires_at : ℕ) → BlockedExecution
new_blocked job key expires_at = record {
  job_id = job.id;
  queue_name = "";
  priority = pos 0;
  concurrency_key = key;
  expires_at = expires_at;
}

abbrev pub create_blocked : Job → Option String → Result ℕ → Action (Unit {0})
create_blocked job none at = keyless at
create_blocked job (some key) (ok at) =
    λ db. (ok tt, record db { blocked = db.blocked ++ new_blocked job key at ∷ [] })
create_blocked job (some key) (err e) = raise e

module _ (env : Env) where
  -- `set_expires_at` of a blocked execution, and `Semaphore.Proxy.expires_at`.
  unfoldable pub expires_at : Job → Result ℕ
  expires_at job = expires_for env.now (env.job_class job.class_name)

  abbrev pub proxy_at : Job → String → ℕ → Proxy
  proxy_at job key at = record {
    key = key;
    limit = limit_of (limit_for (env.job_class job.class_name));
    expires_at = at;
  }

  -- `Semaphore.Proxy(job)`, for a job whose key is `key`; an error is what reading it raises.
  unfoldable pub proxy : Job → String → Result Proxy
  unfolding expires_at
  proxy job key = map_result (proxy_at job key) (expires_at job)

  -- `Semaphore.objects.wait(job)`
  unfoldable pub wait_for : Job → Action Bool
  unfolding proxy expires_at
  wait_for job = elim job.concurrency_key [
    | none ↦ keyless (expires_at job)
    | some key ↦ wait_with key (proxy job key)
  ]

  unfoldable pub acquire_concurrency_lock : Job → Action Bool
  acquire_concurrency_lock job = if is_concurrency_limited job then wait_for job else pure true

  unfoldable pub release_concurrency_lock : Job → Action Bool
  unfolding proxy
  release_concurrency_lock job = elim job.concurrency_key [
    | none ↦ pure false
    | some key ↦ signal_with (proxy job key)
  ]

  -- `block`: `get_or_create`.
  unfoldable pub block : Job → Action (Unit {0})
  unfolding expires_at
  block job db =
      if has_blocked db job.id
      then (ok tt, db)
      else create_blocked job job.concurrency_key (expires_at job) db
