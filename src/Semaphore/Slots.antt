-- ===== src/Semaphore/Slots.antt =====
-- semaphore.py: the free slots of a semaphore beside a count of the slots in use.
use native.Mathlib.Nat.{add-zero}
use steady_queue.Prelude.{
  ℕ, zero, suc, ◌+◌, ◌≤◌, String, ◌≡◌, Bool, true, false, Option, none, some, List, arith, str_eq,
  eq_iff, eq_refl, if◌then◌else◌, Bool-cases, inl, inr,
}
use steady_queue.Semaphore.{Semaphore, Proxy, get, wait, signal, limit_of}
use steady_queue.Semaphore.Lookup.{IsUnique}
use steady_queue.Semaphore.Contract.{
  grants, after_wait, after_signal, wait_contract, signal_contract,
}

-- The slots in use and the free slots of a row are within the limit; with no row none is in use.
abbrev pub SlotsFit : (limit used : ℕ) → Option Semaphore → Type 0
SlotsFit limit used none = used ≡ 0
SlotsFit limit used (some s) = used + s.value ≤ limit

pub SlotsFit-mono :
    (limit used used' : ℕ) (o : Option Semaphore)
    → used' ≤ used
    → SlotsFit limit used o
    → SlotsFit limit used' o
SlotsFit-mono limit used used' none le fit = omega arith
SlotsFit-mono limit used used' (some s) le fit = omega arith

pub used-le : (limit used : ℕ) (o : Option Semaphore) → SlotsFit limit used o → used ≤ limit
used-le limit used none fit = omega arith
used-le limit used (some s) fit = omega arith

abbrev pub one_at : String → String → ℕ
one_at j k = if str_eq j k then 1 else 0

pub limit_of-pos : (o : Option ℕ) → 1 ≤ limit_of o
unfolding limit_of
limit_of-pos none = omega arith
limit_of-pos (some zero) = omega arith
limit_of-pos (some (suc n)) = omega arith

fit_after_wait :
    (p : Proxy) (limit used : ℕ) (o : Option Semaphore)
    → p.limit ≡ limit
    → 1 ≤ limit
    → SlotsFit limit used o
    → SlotsFit limit (used + (if grants o then 1 else 0)) (after_wait p o)
fit_after_wait p limit used none e pos fit = omega arith
fit_after_wait p limit used (some s) e pos fit = ground arith

fit_after_signal :
    (p : Proxy) (limit used : ℕ) (o : Option Semaphore)
    → p.limit ≡ limit
    → SlotsFit limit (used + 1) o
    → SlotsFit limit used (after_signal p o)
fit_after_signal p limit used none e fit = absurd (omega arith)
fit_after_signal p limit used (some s) e fit = ground arith

module _ (limits used : String → ℕ) (p : Proxy) (t : List Semaphore)
    (e : p.limit ≡ limits p.key) where
  unused :
      (b : Bool) (k : String)
      → SlotsFit (limits k) (used k) (get k t)
      → SlotsFit (limits k) (used k + (if b then 0 else 0)) (get k t)
  unused true k fit = rw add-zero fit
  unused false k fit = rw add-zero fit

  -- A `wait` takes one slot of its key if it grants, and none if not.
  pub wait-SlotsFit :
      1 ≤ p.limit
      → ((k : String) → SlotsFit (limits k) (used k) (get k t))
      → (k : String)
      → SlotsFit
          (limits k)
          (used k + (if (wait p t).0 then one_at p.key k else 0))
          (get k (wait p t).1)
  wait-SlotsFit pos fits k =
      rw ((wait_contract p t).0, (wait_contract p t).1 k)
        (elim (Bool-cases (str_eq p.key k)) [
          | inl same ↦
              let q : p.key ≡ k = (eq_iff p.key k).0 same in
              rw (same, ← q)
                (fit_after_wait p (limits p.key) (used p.key) (get p.key t) e (rw (← e) pos)
                  (fits p.key))
          | inr other ↦ rw other (unused (grants (get p.key t)) k (fits k))
        ])

  -- A `signal` gives a slot of its key back.
  pub signal-SlotsFit :
      IsUnique t
      → ((k : String) → SlotsFit (limits k) (used k + one_at p.key k) (get k t))
      → (k : String) → SlotsFit (limits k) (used k) (get k (signal p t).1)
  signal-SlotsFit u fits k = rw ((signal_contract p t u).1 k) (elim (Bool-cases (str_eq p.key k)) [
    | inl same ↦
        let q : p.key ≡ k = (eq_iff p.key k).0 same in
        rw (same, ← q)
          (fit_after_signal p (limits p.key) (used p.key) (get p.key t) e
            (rw (eq_refl p.key) at (fits p.key)))
    | inr other ↦ rw other (rw (other, add-zero (used k)) at (fits k))
  ])
