-- ===== src/Poller/Ends.antt =====
-- poller.py, runnable.py and interruptible.py: a signal, or the loss of the row, ends the loop.
use steady_queue.Prelude.{
  ℕ, ◌⊎◌, ◌≤◌, ◌≡◌, refl, Bool, true, false, some, List, ◌∷◌, arith, inl, inr,
}
use steady_queue.Action.{Result, Error, Result-cases, ok, err}
use steady_queue.Runnable.{Runnable, is_finished, is_shutting_down}
use steady_queue.Poller.{
  events, Turn, sleep, ended, Loop, end_loop, failed_poll, turned, start_loop,
}
use steady_queue.Poller.Waking.{ends, ends-turn, stop_time}

-- The check raises only where it reads whether the work is completed.
is_shutting_down-ends :
    (ppid : ℕ) (completed : Result Bool) (r : Runnable)
    → ends r ≡ true
    → (is_shutting_down ppid completed r ≡ ok true)
      ⊎ ((e : Error) × (is_shutting_down ppid completed r ≡ err e))
unfolding is_shutting_down is_finished
is_shutting_down-ends ppid (ok finished) r h = inl (ground arith)
is_shutting_down-ends ppid (err e) r h = elim (Result-cases (is_shutting_down ppid (err e) r)) [
  | inr raised ↦ inr raised
  | inl (over, checked) ↦ inl (ground (arith, checked))
]

module _ {W : Type 0} (poll : Runnable → W → Result ℕ × W) (is_all_work_completed : W → Result Bool)
    (shutdown : Runnable → W → Result (Unit {0}) × (Runnable × W)) where
  module _ (t : Turn) (ts : List Turn) (r : Runnable) (w : W) where
    start_loop-checked :
        is_shutting_down t.ppid (is_all_work_completed w) r ≡ ok true
        → start_loop poll is_all_work_completed shutdown (t ∷ ts) r w
          ≡ end_loop poll is_all_work_completed shutdown (ok tt) r w
    unfolding start_loop
    start_loop-checked checked = rw (checked, start_loop) refl

    start_loop-unchecked :
        (e : Error)
        → is_shutting_down t.ppid (is_all_work_completed w) r ≡ err e
        → start_loop poll is_all_work_completed shutdown (t ∷ ts) r w
          ≡ end_loop poll is_all_work_completed shutdown (err e) r w
    unfolding start_loop
    start_loop-unchecked e checked = rw (checked, start_loop) refl

    start_loop-ends :
        ends r ≡ true
        → (result : Result (Unit {0})) × (start_loop poll is_all_work_completed shutdown
              (t ∷ ts)
              r
              w
            ≡ end_loop poll is_all_work_completed shutdown result r w)
    start_loop-ends ending =
        elim (is_shutting_down-ends t.ppid (is_all_work_completed w) r ending) [
          | inl checked ↦ (ok tt, start_loop-checked checked)
          | inr (e, unchecked) ↦ (err e, start_loop-unchecked e unchecked)
        ]

    start_loop-raised :
        (e : Error)
        → is_shutting_down t.ppid (is_all_work_completed w) r ≡ ok false
        → (poll r w).0 ≡ err e
        → start_loop poll is_all_work_completed shutdown (t ∷ ts) r w
          ≡ failed_poll poll is_all_work_completed shutdown (
              end_loop poll is_all_work_completed shutdown (err e) (events t.before r) (poll r w).1)
    unfolding start_loop
    start_loop-raised e checked polled = rw (checked, polled, start_loop) refl

    start_loop-polled :
        (delay : ℕ)
        → is_shutting_down t.ppid (is_all_work_completed w) r ≡ ok false
        → (poll r w).0 ≡ ok delay
        → let slept = sleep delay t.asleep (events t.before r) in
          start_loop poll is_all_work_completed shutdown (t ∷ ts) r w
          ≡ turned poll is_all_work_completed shutdown slept.0
              (start_loop poll is_all_work_completed shutdown ts slept.1 (poll r w).1)
    unfolding start_loop
    start_loop-polled delay checked polled = rw (checked, polled, start_loop) refl

  -- An ended loop, with what it did since a moment.
  pub record Ended (limit : ℕ) (l : Loop W) : Type 0 where
    pub result : Result (Unit {0})
    pub is_ended : l.ending ≡ ended result
    pub one_poll : l.polls ≤ 1
    pub soon : l.waited ≤ limit

  -- A signal, or a heartbeat that finds no row, ends the loop at its next turn, whatever the loop
  -- polls: it polls at most once more, and it sleeps no longer than up to the event.
  pub start_loop-stop :
      (limit : ℕ) (t next : Turn) (ts : List Turn) (r : Runnable) (w : W)
      → stop_time t ≡ some limit
      → Ended limit (start_loop poll is_all_work_completed shutdown (t ∷ next ∷ ts) r w)
  start_loop-stop limit t next ts r w h =
      elim (Result-cases (is_shutting_down t.ppid (is_all_work_completed w) r)) [
        | inr (e, unchecked) ↦ rw (start_loop-unchecked t (next ∷ ts) r w e unchecked) (over _ r w)
        | inl (true, checked) ↦ rw (start_loop-checked t (next ∷ ts) r w checked) (over _ r w)
        | inl (false, going_on) ↦ elim (Result-cases (poll r w).0) [
          | inr (e, raised) ↦
              rw (start_loop-raised t (next ∷ ts) r w e going_on raised)
                (record { result = _; is_ended = refl; one_poll = omega arith; soon = omega arith })
          | inl (delay, polled) ↦
              let (soon, ending) = ends-turn delay limit t r h in
              let (result, checked) =
                start_loop-ends next ts (sleep delay t.asleep (events t.before r)).1 (poll r w).1
                  ending in
              rw (start_loop-polled t (next ∷ ts) r w delay going_on polled, checked)
                (record {
                  result = _;
                  is_ended = refl;
                  one_poll = omega arith;
                  soon = omega (arith, soon);
                })
        ]
      ]
    where
      over :
          (result : Result (Unit {0})) (q : Runnable) (v : W)
          → Ended limit (end_loop poll is_all_work_completed shutdown result q v)
      over result q v = record {
        result = _;
        is_ended = refl;
        one_poll = omega arith;
        soon = omega arith;
      }
