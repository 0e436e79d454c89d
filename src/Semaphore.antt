-- ===== src/Semaphore.antt =====
-- steady_queue/models/semaphore.py: the semaphore table and the proxy of a job. The table is the
-- list of its rows; a method that writes returns its result and the new table.
pub mod Lookup
pub mod Contract
pub mod Unique
pub mod Slots
use steady_queue.Prelude.{
  ℕ, zero, suc, ◌+◌, ◌-◌, String, Bool, true, false, ◌&&◌, Option, none, some, List, [], ◌∷◌, ◌++◌,
  ltb, leb, ◌==◌, str_eq, if◌then◌else◌, filter, find?, any, count_if, update_where, not,
}

pub record Semaphore : Type 0 where
  pub key : String
  pub value : ℕ
  pub expires_at : Option ℕ

-- `SemaphoreQuerySet.available` and `SemaphoreQuerySet.expired`, as tests on a row.
unfoldable pub available : Semaphore → Bool
available s = ltb 0 s.value

unfoldable pub expired : (now : ℕ) → Semaphore → Bool
expired now s = elim s.expires_at [ none ↦ false | some t ↦ leb t now ]

abbrev pub has_key : String → Semaphore → Bool
has_key k s = str_eq s.key k

-- `Semaphore.objects.get(key=k)`; `none` is `DoesNotExist`.
unfoldable pub get : String → List Semaphore → Option Semaphore
get k t = find? (has_key k) t

-- `Semaphore.Proxy.limit` of a task's `concurrency_limit`: `or 1`.
unfoldable pub limit_of : Option ℕ → ℕ
limit_of none = 1
limit_of (some zero) = 1
limit_of (some (suc n)) = suc n

-- The properties of a `Semaphore.Proxy`: what it reads from its job and the clock.
pub record Proxy : Type 0 where
  pub key : String
  pub limit : ℕ
  pub expires_at : ℕ

abbrev pub decrement : ℕ → Semaphore → Semaphore
decrement e s = record s { value = s.value - 1; expires_at = some e }

abbrev pub increment : ℕ → Semaphore → Semaphore
increment e s = record s { value = s.value + 1; expires_at = some e }

unfoldable pub attempt_decrement : Proxy → List Semaphore → Bool × List Semaphore
unfolding available
attempt_decrement p t =
    let free : Semaphore → Bool = λ s. available s && has_key p.key s in
    (ltb 0 (count_if free t), update_where free (decrement p.expires_at) t)

unfoldable pub attempt_increment : Proxy → List Semaphore → Bool × List Semaphore
attempt_increment p t =
    let room : Semaphore → Bool = λ s. has_key p.key s && leb s.value p.limit in
    (ltb 0 (count_if room t), update_where room (increment p.expires_at) t)

unfoldable pub check_limit_or_decrement : Proxy → List Semaphore → Bool × List Semaphore
unfolding attempt_decrement
check_limit_or_decrement p t = if p.limit == 1 then (false, t) else attempt_decrement p t

abbrev pub new_semaphore : Proxy → Semaphore
new_semaphore p = record { key = p.key; value = p.limit - 1; expires_at = some p.expires_at }

-- `get_or_create`: the row may be there by now, if another process has created it.
unfoldable pub attempt_creation : Proxy → List Semaphore → Bool × List Semaphore
unfolding get check_limit_or_decrement
attempt_creation p t = elim (get p.key t) [
  | none ↦ (true, t ++ new_semaphore p ∷ [])
  | some s ↦ check_limit_or_decrement p t
]

-- The rest of `wait` after its `get`, which may have read an older table.
unfoldable pub wait_after : Option Semaphore → Proxy → List Semaphore → Bool × List Semaphore
unfolding attempt_creation
wait_after (some s) p t = if ltb 0 s.value then attempt_decrement p t else (false, t)
wait_after none p t = attempt_creation p t

unfoldable pub wait : Proxy → List Semaphore → Bool × List Semaphore
unfolding wait_after
wait p t = wait_after (get p.key t) p t

unfoldable pub signal : Proxy → List Semaphore → Bool × List Semaphore
unfolding attempt_increment
signal p t = attempt_increment p t

-- `signal_all`: the keys of the jobs; the result is the number of rows updated.
unfoldable pub signal_all : List String → List Semaphore → ℕ × List Semaphore
signal_all keys t =
    let listed : Semaphore → Bool = λ s. any (λ k. str_eq s.key k) keys in
    (count_if listed t, update_where listed (λ s. record s { value = s.value + 1 }) t)

-- `ConcurrencyMaintenance.expire_semaphores` of steady_queue/processes/dispatcher.py.
unfoldable pub expire_semaphores : (now : ℕ) → List Semaphore → List Semaphore
unfolding expired
expire_semaphores now t = filter (λ s. not (expired now s)) t
