-- ===== src/Poller/Last.antt =====
-- poller.py: the shutdown is the last thing that a loop does.
use Prim.{absurd}
use steady_queue.Prelude.{ℕ, ◌≡◌, Bool, true, false, List, [], ◌∷◌, arith, inl, inr}
use steady_queue.Action.{Result, Result-cases, ok, err}
use steady_queue.Runnable.{Runnable, is_shutting_down}
use steady_queue.Poller.{events, Turn, sleep, ended, Loop, end_loop, start_loop}

module _ {W : Type 0} (poll : Runnable → W → Result ℕ × W) (is_all_work_completed : W → Result Bool)
    (shutdown : Runnable → W → Result (Unit {0}) × (Runnable × W)) (P : Runnable → W → Type 0)
    (Kept : W → Type 0) (keeps : (r : Runnable) (w : W) → Kept w → Kept (poll r w).1)
    (shuts : (r : Runnable) (w : W)
      → Kept w
      → (shutdown r w).0 ≡ ok tt
      → P (shutdown r w).1.0 (shutdown r w).1.1) where
  abbrev IsGood : Loop W → Type 0
  IsGood l = l.ending ≡ ended (ok tt) → P l.runnable l.world

  ended_well :
      (before : Result (Unit {0})) (r : Runnable) (w : W)
      → Kept w
      → IsGood (end_loop poll is_all_work_completed shutdown before r w)
  ended_well before r w kept h = shuts r w kept (ground (arith, h))

  -- What a shutdown without exception establishes, of what every poll keeps, holds of a loop that
  -- ended without one.
  pub start_loop-last :
      (ts : List Turn) (r : Runnable) (w : W)
      → Kept w
      → IsGood (start_loop poll is_all_work_completed shutdown ts r w)
  unfolding start_loop
  start_loop-last [] r w kept = λ h. absurd (ground (arith, h))
  start_loop-last (t ∷ ts) r w kept =
      elim (Result-cases (is_shutting_down t.ppid (is_all_work_completed w) r)) [
        | inr (e, unchecked) ↦ rw (unchecked, start_loop) (ended_well (err e) r w kept)
        | inl (true, checked) ↦ rw (checked, start_loop) (ended_well (ok tt) r w kept)
        | inl (false, checked) ↦ elim (Result-cases (poll r w).0) [
          | inr (e, raised) ↦
              rw (checked, raised, start_loop)
                (ended_well (err e) (events t.before r) (poll r w).1 (keeps r w kept))
          | inl (delay, polled) ↦
              rw (checked, polled, start_loop)
                (start_loop-last ts (sleep delay t.asleep (events t.before r)).1 (poll r w).1
                  (keeps r w kept))
        ]
      ]
