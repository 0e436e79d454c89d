-- ===== src/Examples/Semaphores.antt =====
-- semaphore.py: runs of the semaphore table.
use steady_queue.Prelude.{
  ◌≡◌, refl, String, true, false, none, some, List, [], ◌∷◌, str_eq, if◌then◌else◌, arith,
}
use mathlib.Core.Option
use steady_queue.Semaphore.{
  Semaphore, get, wait, wait_after, signal, expire_semaphores, attempt_creation, attempt_decrement,
  check_limit_or_decrement, available, expired,
}
use steady_queue.Semaphore.Lookup.{IsUnique}
use steady_queue.Semaphore.Contract.{
  grants, after_wait, wait_contract, signal_contract, stale_wait, signals, signals-saturate,
  signal-wait,
}
use steady_queue.Semaphore.Unique.{wait_after-IsUnique, expire_semaphores-IsUnique}
use steady_queue.Examples.{proxy_of, semaphore, other_semaphore}

abbrev table : List Semaphore
table = other_semaphore ∷ semaphore 1 ∷ []

table-IsUnique : IsUnique table
unfolding get
table-IsUnique = (refl, (refl, tt))

wait_contract_example :
    ((wait (proxy_of 2) table).0 ≡ true)
    × ((j : String)
        → get j (wait (proxy_of 2) table).1 ≡ (
            if str_eq "Pay/1" j
            then some (record { key = "Pay/1"; value = 0; expires_at = some 70 })
            else get j table))
unfolding get
wait_contract_example = wait_contract (proxy_of 2) table

signal_contract_example :
    ((signal (proxy_of 2) table).0 ≡ true)
    × ((j : String)
        → get j (signal (proxy_of 2) table).1 ≡ (
            if str_eq "Pay/1" j
            then some (record { key = "Pay/1"; value = 2; expires_at = some 70 })
            else get j table))
unfolding get
signal_contract_example = signal_contract (proxy_of 2) table table-IsUnique

late_grant : (wait_after none (proxy_of 2) table).0 ≡ true
unfolding wait_after attempt_creation check_limit_or_decrement attempt_decrement get available
late_grant = refl

stale_wait_example :
    (grants (get "Pay/1" table) ≡ true)
    × (get "Pay/1" (wait_after none (proxy_of 2) table).1
        ≡ after_wait (proxy_of 2) (get "Pay/1" table))
stale_wait_example = stale_wait none (proxy_of 2) table table-IsUnique late_grant

signals-saturate_example :
    (Option.map (λ r. r.value) (get "Pay/1" (signals 3 (proxy_of 1) table)) ≡ some 2)
    × ((j : String) → str_eq "Pay/1" j ≡ false → get j (signals 3 (proxy_of 1) table) ≡ get j table)
unfolding get
signals-saturate_example = signals-saturate 3 (proxy_of 1) table (semaphore 1) refl (omega arith)

signal-wait_example :
    Option.map (λ r. r.value) (get "Pay/1" (signal (proxy_of 2) (wait (proxy_of 2) table).1).1)
    ≡ some 1
unfolding get
signal-wait_example = signal-wait (proxy_of 2) table (semaphore 1) refl (omega arith) (omega arith)

wait_after-IsUnique_example :
    IsUnique (wait_after (some (semaphore 1)) (proxy_of 2) (other_semaphore ∷ [])).1
unfolding get
wait_after-IsUnique_example =
    wait_after-IsUnique (some (semaphore 1)) (proxy_of 2) (other_semaphore ∷ []) (refl, tt)

expire_semaphores-IsUnique_example : IsUnique (expire_semaphores 10 table)
expire_semaphores-IsUnique_example = expire_semaphores-IsUnique 10 table table-IsUnique

-- A semaphore that has expired is dropped.
expire_semaphores_test : expire_semaphores 10 table ≡ semaphore 1 ∷ []
unfolding expire_semaphores expired
expire_semaphores_test = refl
