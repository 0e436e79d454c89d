-- ===== src/Semaphore/Lookup.antt =====
-- semaphore.py: what each write leaves to be read at a key, with the unique key of the table.
use mathlib.Core.Option
use steady_queue.Prelude.{
  ◌<◌, String, ◌≡◌, refl, Bool, true, ◌&&◌, none, some, List, [], ◌∷◌, ◌++◌, arith, leb, str_eq,
  eq_iff, if◌then◌else◌, count_if, find?-update_where, find?-append, find?-test,
  count_if-pos_of_find?,
}
use steady_queue.Semaphore.{
  Semaphore, Proxy, available, has_key, get, decrement, increment, attempt_decrement,
  attempt_increment,
}

-- `uq_sq_semaphore_key`: no two rows have one key.
abbrev pub IsUnique : List Semaphore → Type 0
IsUnique [] = Unit
IsUnique (s ∷ t) = (get s.key t ≡ none) × IsUnique t

module _ (k : String) (p : Semaphore → Bool) where
  pub count_if-key_none :
      (t : List Semaphore) → get k t ≡ none → count_if (λ s. has_key k s && p s) t ≡ 0
  unfolding get
  count_if-key_none [] h = refl
  count_if-key_none (s ∷ t) h = ground (arith, count_if-key_none t)

  -- Only the row that `get` finds can count.
  pub count_if-key_some :
      (t : List Semaphore) (s : Semaphore)
      → IsUnique t
      → get k t ≡ some s
      → count_if (λ r. has_key k r && p r) t ≡ (if p s then 1 else 0)
  unfolding get
  count_if-key_some [] s u h = cc
  count_if-key_some (r ∷ t) s u h =
      ground (arith, count_if-key_some t s u.1, eq_iff r.key k, count_if-key_none t)

abbrev pub free : String → Semaphore → Bool
free k s = available s && has_key k s

pub get-attempt_decrement :
    (p : Proxy) (t : List Semaphore) (j : String)
    → get j (attempt_decrement p t).1
      ≡ Option.map (λ s. if free p.key s then decrement p.expires_at s else s) (get j t)
unfolding get attempt_decrement
get-attempt_decrement p t j =
    find?-update_where (has_key j) (free p.key) (decrement p.expires_at) (λ s. refl) t

pub get-attempt_increment :
    (p : Proxy) (t : List Semaphore) (j : String)
    → get j (attempt_increment p t).1
      ≡ Option.map
          (λ s. if has_key p.key s && leb s.value p.limit then increment p.expires_at s else s)
          (get j t)
unfolding get attempt_increment
get-attempt_increment p t j =
    find?-update_where (has_key j) (λ s. has_key p.key s && leb s.value p.limit)
      (increment p.expires_at) (λ s. refl) t

pub get-create :
    (s : Semaphore) (t : List Semaphore) (j : String)
    → get s.key t ≡ none
    → get j (t ++ s ∷ []) ≡ (if str_eq s.key j then some s else get j t)
unfolding get
get-create s t j h = ground (arith, find?-append (has_key j) t s, eq_iff s.key j)

pub key_of-get : (k : String) (t : List Semaphore) (s : Semaphore) → get k t ≡ some s → s.key ≡ k
unfolding get
key_of-get k t s h = (eq_iff s.key k).0 (find?-test (has_key k) t s h)

pub attempt_decrement-of_free :
    (p : Proxy) (t : List Semaphore) (s : Semaphore)
    → get p.key t ≡ some s
    → 0 < s.value
    → (attempt_decrement p t).0 ≡ true
unfolding attempt_decrement get available
attempt_decrement-of_free p t s h pos = ground (
  arith,
  find?-test (has_key p.key) t s h,
  count_if-pos_of_find? (has_key p.key) (free p.key) t s h,
)
