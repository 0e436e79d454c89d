-- ===== src/Semaphore/Unique.antt =====
-- semaphore.py: no operation gives a key a second row.
use steady_queue.Prelude.{
  ℕ, String, ◌≡◌, refl, Bool, false, ◌&&◌, not, Option, none, some, List, [], ◌∷◌, ◌++◌, arith, leb,
  str_eq, eq_iff, if◌then◌else◌, filter, update_where, Option-cases, inl, inr,
}
use steady_queue.Semaphore.{
  Semaphore, Proxy, has_key, get, new_semaphore, available, decrement, increment, attempt_decrement,
  attempt_increment, check_limit_or_decrement, attempt_creation, wait_after, wait, signal, expired,
  expire_semaphores,
}
use steady_queue.Semaphore.Lookup.{IsUnique}

get-none-update_where :
    (p : Semaphore → Bool) (f : Semaphore → Semaphore)
    → ((s : Semaphore) → (f s).key ≡ s.key)
    → (k : String) (t : List Semaphore) → get k t ≡ none
    → get k (update_where p f t) ≡ none
unfolding get
get-none-update_where p f keeps k [] h = refl
get-none-update_where p f keeps k (s ∷ t) h =
    ground (arith, keeps s, get-none-update_where p f keeps k t)

update_where-IsUnique :
    (p : Semaphore → Bool) (f : Semaphore → Semaphore)
    → ((s : Semaphore) → (f s).key ≡ s.key)
    → (t : List Semaphore) → IsUnique t
    → IsUnique (update_where p f t)
update_where-IsUnique p f keeps [] u = tt
update_where-IsUnique p f keeps (s ∷ t) u =
    let same : (if p s then f s else s).key ≡ s.key = ground (arith, keeps s) in
    (rw same (get-none-update_where p f keeps s.key t u.0), update_where-IsUnique p f keeps t u.1)

get-none_append :
    (k : String) (s : Semaphore) (t : List Semaphore)
    → get k t ≡ none
    → str_eq s.key k ≡ false
    → get k (t ++ s ∷ []) ≡ none
unfolding get
get-none_append k s [] h ne = ground arith
get-none_append k s (r ∷ t) h ne = ground (arith, get-none_append k s t)

append-IsUnique :
    (s : Semaphore) (t : List Semaphore) → get s.key t ≡ none → IsUnique t → IsUnique (t ++ s ∷ [])
unfolding get
append-IsUnique s [] h u = (refl, tt)
append-IsUnique s (r ∷ t) h u = (
  get-none_append r.key s t u.0 (ground (arith, eq_iff s.key r.key, eq_iff r.key s.key)),
  append-IsUnique s t (ground arith) u.1,
)

get-none-filter :
    (p : Semaphore → Bool) (k : String) (t : List Semaphore)
    → get k t ≡ none
    → get k (filter p t) ≡ none
unfolding get
get-none-filter p k [] h = refl
get-none-filter p k (s ∷ t) h = ground (arith, get-none-filter p k t)

filter-IsUnique : (p : Semaphore → Bool) (t : List Semaphore) → IsUnique t → IsUnique (filter p t)
filter-IsUnique p [] u = tt
filter-IsUnique p (s ∷ t) u = ground (arith, get-none-filter p s.key t u.0, filter-IsUnique p t u.1)

attempt_decrement-IsUnique :
    (p : Proxy) (t : List Semaphore) → IsUnique t → IsUnique (attempt_decrement p t).1
unfolding attempt_decrement
attempt_decrement-IsUnique p t u =
    update_where-IsUnique (λ s. available s && has_key p.key s) (decrement p.expires_at) (λ s. refl)
      t u

-- A `wait` keeps the keys of the semaphores unique, whatever its `get` has read before.
pub wait_after-IsUnique :
    (seen : Option Semaphore) (p : Proxy) (t : List Semaphore)
    → IsUnique t
    → IsUnique (wait_after seen p t).1
unfolding wait_after attempt_creation check_limit_or_decrement
wait_after-IsUnique none p t u = elim (Option-cases (get p.key t)) [
  | inl e ↦ ground (arith, append-IsUnique (new_semaphore p) t)
  | inr (s, e) ↦ ground (arith, attempt_decrement-IsUnique p t)
]
wait_after-IsUnique (some s) p t u = ground (arith, attempt_decrement-IsUnique p t)

pub wait-IsUnique : (p : Proxy) (t : List Semaphore) → IsUnique t → IsUnique (wait p t).1
unfolding wait
wait-IsUnique p t u = wait_after-IsUnique (get p.key t) p t u

pub signal-IsUnique : (p : Proxy) (t : List Semaphore) → IsUnique t → IsUnique (signal p t).1
unfolding signal attempt_increment
signal-IsUnique p t u =
    update_where-IsUnique (λ s. has_key p.key s && leb s.value p.limit) (increment p.expires_at)
      (λ s. refl) t u

pub expire_semaphores-IsUnique :
    (now : ℕ) (t : List Semaphore) → IsUnique t → IsUnique (expire_semaphores now t)
unfolding expire_semaphores
expire_semaphores-IsUnique now t u = filter-IsUnique (λ s. not (expired now s)) t u
