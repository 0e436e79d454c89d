-- ===== src/Semaphore/Contract.antt =====
-- semaphore.py: the contract of `wait` and `signal` on the row of a key, and what a stale read does.
use mathlib.Core.Option
use steady_queue.Prelude.{
  ℕ, zero, suc, ◌+◌, ◌≤◌, ◌<◌, String, ◌≡◌, refl, Bool, true, false, ◌&&◌, Option, none, some, List,
  [], ◌∷◌, arith, ltb, leb, str_eq, eq_iff, if◌then◌else◌, Option-cases, Bool-cases, fun_ext, sym,
  ◌∙◌, eq_refl, ltb→lt, inl, inr, ◌++◌,
}
use steady_queue.Semaphore.{
  Semaphore, Proxy, available, has_key, get, decrement, increment, new_semaphore, attempt_decrement,
  attempt_increment, check_limit_or_decrement, attempt_creation, wait_after, wait, signal,
}
use steady_queue.Semaphore.Lookup.{
  IsUnique, free, count_if-key_none, count_if-key_some, get-attempt_decrement,
  get-attempt_increment, get-create, key_of-get, attempt_decrement-of_free,
}

-- The abstract semaphore: the row of one key, or none.
abbrev pub grants : Option Semaphore → Bool
grants none = true
grants (some s) = ltb 0 s.value

abbrev pub after_wait : Proxy → Option Semaphore → Option Semaphore
after_wait p none = some (new_semaphore p)
after_wait p (some s) = some (if ltb 0 s.value then decrement p.expires_at s else s)

abbrev pub takes : Proxy → Option Semaphore → Bool
takes p none = false
takes p (some s) = leb s.value p.limit

abbrev pub after_signal : Proxy → Option Semaphore → Option Semaphore
after_signal p none = none
after_signal p (some s) = some (if leb s.value p.limit then increment p.expires_at s else s)

wait-none :
    (p : Proxy) (t : List Semaphore)
    → get p.key t ≡ none
    → wait p t ≡ (true, t ++ new_semaphore p ∷ [])
unfolding wait wait_after attempt_creation
wait-none p t e = ground arith

wait_free :
    (p : Proxy) (t : List Semaphore) (s : Semaphore)
    → get p.key t ≡ some s
    → 0 < s.value
    → wait p t ≡ attempt_decrement p t
unfolding wait wait_after
wait_free p t s e h = rw (e, wait_after) (ground arith)

wait_taken :
    (p : Proxy) (t : List Semaphore) (s : Semaphore)
    → get p.key t ≡ some s
    → ltb 0 s.value ≡ false
    → wait p t ≡ (false, t)
unfolding wait wait_after
wait_taken p t s e h = rw (e, wait_after) (ground arith)

-- The row at `j` after a decrement of `p.key`, which `get` finds in `s`.
decrement_at :
    (p : Proxy) (t : List Semaphore) (s : Semaphore) (j : String)
    → get p.key t ≡ some s
    → 0 < s.value
    → get j (attempt_decrement p t).1
      ≡ (if str_eq p.key j then some (decrement p.expires_at s) else get j t)
unfolding available
decrement_at p t s j e h = rw get-attempt_decrement (elim (Option-cases (get j t)) [
  | inl n ↦ rw n (ground (arith, eq_iff p.key j, n, e))
  | inr (r, q) ↦ rw q (
      ground (
        arith,
        eq_iff p.key j,
        eq_iff r.key p.key,
        key_of-get j t r q,
        key_of-get p.key t s e,
        q,
        e,
      ))
])

-- `wait` grants exactly when the abstract semaphore does: it has no row or a value above 0. It
-- moves its row as the abstract one does, and leaves the rows of all other keys as they are.
pub wait_contract :
    (p : Proxy) (t : List Semaphore)
    → ((wait p t).0 ≡ grants (get p.key t))
      × ((j : String)
          → get j (wait p t).1 ≡ (if str_eq p.key j then after_wait p (get p.key t) else get j t))
wait_contract p t = elim (Option-cases (get p.key t)) [
  | inl e ↦ rw (wait-none p t e) (rw e refl, λ j. rw e (get-create (new_semaphore p) t j e))
  | inr (s, e) ↦ elim (Bool-cases (ltb 0 s.value)) [
    | inl pos ↦ rw (wait_free p t s e (ltb→lt 0 s.value pos)) (
      rw (e, pos) (attempt_decrement-of_free p t s e (ltb→lt 0 s.value pos)),
      λ j. rw (e, pos) (decrement_at p t s j e (ltb→lt 0 s.value pos)),
    )
    | inr zero_left ↦
        rw (wait_taken p t s e zero_left)
          (rw e (ground arith), λ j. rw e (ground (arith, eq_iff p.key j, e)))
  ]
]

increment_none :
    (p : Proxy) (t : List Semaphore) → get p.key t ≡ none → (attempt_increment p t).0 ≡ false
unfolding attempt_increment
increment_none p t e = rw (count_if-key_none p.key (λ s. leb s.value p.limit) t e) (ground arith)

increment_some :
    (p : Proxy) (t : List Semaphore) (s : Semaphore)
    → IsUnique t
    → get p.key t ≡ some s
    → (attempt_increment p t).0 ≡ leb s.value p.limit
unfolding attempt_increment
increment_some p t s u e =
    rw (count_if-key_some p.key (λ r. leb r.value p.limit) t s u e) (ground arith)

increment_at :
    (p : Proxy) (t : List Semaphore) (j : String)
    → get j (attempt_increment p t).1
      ≡ (if str_eq p.key j then after_signal p (get p.key t) else get j t)
increment_at p t j = rw get-attempt_increment (elim (Option-cases (get j t)) [
  | inl n ↦ rw n (ground (arith, eq_iff p.key j, n))
  | inr (r, q) ↦ rw q (ground (arith, eq_iff p.key j, eq_iff r.key p.key, key_of-get j t r q, q))
])

-- With a unique key, `signal` reports an update exactly when the value of its row is at most the
-- limit, then adds one to it, and leaves the rows of all other keys as they are.
pub signal_contract :
    (p : Proxy) (t : List Semaphore)
    → IsUnique t
    → ((signal p t).0 ≡ takes p (get p.key t))
      × ((j : String)
          → get j (signal p t).1
            ≡ (if str_eq p.key j then after_signal p (get p.key t) else get j t))
unfolding signal
signal_contract p t u = elim (Option-cases (get p.key t)) [
  | inl e ↦ (rw e (increment_none p t e), increment_at p t)
  | inr (s, e) ↦ (rw e (increment_some p t s u e), increment_at p t)
]

free_comm : (k : String) → free k ≡ (λ s. has_key k s && available s)
free_comm k = fun_ext (λ s. ground arith)

decrement_none :
    (p : Proxy) (t : List Semaphore) → get p.key t ≡ none → (attempt_decrement p t).0 ≡ false
unfolding attempt_decrement
decrement_none p t e =
    rw (free_comm p.key) (rw (count_if-key_none p.key available t e) (ground arith))

decrement_some :
    (p : Proxy) (t : List Semaphore) (s : Semaphore)
    → IsUnique t
    → get p.key t ≡ some s
    → (attempt_decrement p t).0 ≡ ltb 0 s.value
unfolding attempt_decrement available
decrement_some p t s u e =
    rw (free_comm p.key) (rw (count_if-key_some p.key available t s u e) (ground arith))

decrement_granted :
    (p : Proxy) (t : List Semaphore)
    → IsUnique t
    → (attempt_decrement p t).0 ≡ true
    → (grants (get p.key t) ≡ true)
      × (get p.key (attempt_decrement p t).1 ≡ after_wait p (get p.key t))
decrement_granted p t u h = elim (Option-cases (get p.key t)) [
  | inl e ↦ cc (h, decrement_none p t e)
  | inr (s, e) ↦
      let pos : ltb 0 s.value ≡ true = sym (decrement_some p t s u e) ∙ h in
      (
        rw (e, pos) refl,
        rw (decrement_at p t s p.key e (ltb→lt 0 s.value pos)) (rw (e, pos, eq_refl p.key) refl),
      )
]

-- A `wait` whose `get` read another table, `seen`, than the one that its update meets: whenever it
-- grants, it has the effect of a `wait` on the table that it meets, and that one grants too.
pub stale_wait :
    (seen : Option Semaphore) (p : Proxy) (t : List Semaphore)
    → IsUnique t
    → (wait_after seen p t).0 ≡ true
    → (grants (get p.key t) ≡ true)
      × (get p.key (wait_after seen p t).1 ≡ after_wait p (get p.key t))
unfolding wait_after attempt_creation check_limit_or_decrement
stale_wait none p t u h = elim (Option-cases (get p.key t)) [
  | inl e ↦
      rw (e, attempt_creation) (refl, rw (get-create (new_semaphore p) t p.key e, eq_refl p.key))
  | inr (s, e) ↦ ground (arith, decrement_granted p t u)
]
stale_wait (some r) p t u h = ground (arith, decrement_granted p t u)

-- Signals for the same job, one after the other.
abbrev pub signals : ℕ → Proxy → List Semaphore → List Semaphore
signals zero p t = t
signals (suc n) p t = signals n p (signal p t).1

-- `n` signals for a job, to a semaphore whose value is at most one more than the limit, add `n` to
-- it, up to one more than the limit: they can give one slot too many, and never a second one. They
-- leave the rows of all other keys as they are.
pub signals-saturate :
    (n : ℕ) (p : Proxy) (t : List Semaphore) (s : Semaphore)
    → get p.key t ≡ some s
    → s.value ≤ p.limit + 1
    → (Option.map (λ r. r.value) (get p.key (signals n p t))
        ≡ some (if leb (s.value + n) p.limit then s.value + n else p.limit + 1))
      × ((j : String) → str_eq p.key j ≡ false → get j (signals n p t) ≡ get j t)
unfolding signal
signals-saturate zero p t s e le = (rw e (ground arith), λ j other. refl)
signals-saturate (suc n) p t s e le = elim (Bool-cases (leb s.value p.limit)) [
  | inl room ↦
      let raised : get p.key (signal p t).1 ≡ some (increment p.expires_at s) =
        increment_at p t p.key ∙ rw (eq_refl p.key, e, room) refl in
      let rest =
        signals-saturate n p (signal p t).1 (increment p.expires_at s) raised (ground arith) in
      (rest.0 ∙ ground arith, λ j other. rest.1 j other ∙ (increment_at p t j ∙ rw other refl))
  | inr full ↦
      let same : get p.key (signal p t).1 ≡ some s =
        increment_at p t p.key ∙ rw (eq_refl p.key, e, full) refl in
      let rest = signals-saturate n p (signal p t).1 s same le in
      (rest.0 ∙ ground arith, λ j other. rest.1 j other ∙ (increment_at p t j ∙ rw other refl))
]

-- A granted `wait` on a row whose value is at most the limit, and then a `signal` for the same job,
-- restore its value.
pub signal-wait :
    (p : Proxy) (t : List Semaphore) (s : Semaphore)
    → get p.key t ≡ some s
    → 0 < s.value
    → s.value ≤ p.limit
    → Option.map (λ r. r.value) (get p.key (signal p (wait p t).1).1) ≡ some s.value
unfolding signal
signal-wait p t s e pos le =
    let after : get p.key (wait p t).1 ≡ some (decrement p.expires_at s) =
      (wait_contract p t).1 p.key ∙ rw (eq_refl p.key, e) (ground arith) in
    rw (increment_at p (wait p t).1 p.key, eq_refl p.key, after) (ground arith)
