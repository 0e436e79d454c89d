-- ===== src/Supervisor/Ends.antt =====
-- supervisor.py, signals.py and timer.py: the loop of a supervisor ends after a signal.
use Prim.{absurd}
use steady_queue.Prelude.{
  ℕ, ◌+◌, ◌≤◌, ◌<◌, ◌≡◌, ◌∙◌, ap, refl, Bool, true, false, List, [], ◌∷◌, ◌++◌, arith, leb, length,
  length-append, subst, sym, any, All, Bool-cases, inl, inr,
}
use steady_queue.Env.{Env}
use steady_queue.Action.{Action, Error, Result, Result-cases, ok, err}
use steady_queue.Timer.{Wait, over, unfinished, raised, wait_until}
use steady_queue.Poller.{Ending, going, ended, either}
use steady_queue.Supervisor.{reap_and_replace_terminated_forks}
use steady_queue.Supervisor.Control.{
  Signal, sigquit, sigint, sigterm, unexpected, Tick, World, reap, quit_after, terminate_gracefully,
  handle_signal, Handling, process_from, process_signal_queue, arrive, Turn, end_loop, supervise,
}
use steady_queue.Supervisor.Reaping.{OnOver, waited, waits}
use steady_queue.Supervisor.Stopping.{
  AllQuit, stops, Handled, handle_signal-Handled, Processed, process_from-Processed,
}

abbrev is_unfinished : Wait World → Bool
is_unfinished (unfinished w) = true
is_unfinished _ = false

-- The clock gets past the deadline.
abbrev pub past : ℕ → ℕ → List Tick → Bool
past timeout start ts = any (λ t. leb (start + timeout) t.time) ts

-- How many signals arrive while others are handled.
abbrev pub arriving : List Handling → ℕ
arriving [] = 0
arriving (h ∷ hs) = length h.arrivals + arriving hs

quit_after-is_unfinished : (r : Wait World) → is_unfinished (quit_after r) ≡ is_unfinished r
quit_after-is_unfinished (over w) = refl
quit_after-is_unfinished (unfinished w) = refl
quit_after-is_unfinished (raised e w) = refl

module _ (env : Env) (timeout : ℕ) (positive : 0 < timeout) where
  waited-ends :
      (start : ℕ) (ts : List Tick) (w : World)
      → past timeout start ts ≡ true
      → is_unfinished (waited env timeout start ts w) ≡ false
  unfolding waited wait_until
  waited-ends start [] w h = absurd (ground (arith, h))
  waited-ends start (t ∷ ts) w h = elim (Bool-cases (waits env timeout start t w)) [
    | inr stop ↦ rw (stop, waited, wait_until) refl
    | inl goes ↦ elim (Result-cases (reap env t w).0) [
      | inr (e, raises) ↦ rw (goes, raises, waited, wait_until) refl
      | inl (u, returned) ↦
          rw (goes, returned, waited, wait_until)
            (waited-ends start ts (reap env t w).1 (ground (arith, h, goes, positive)))
    ]
  ]

  abbrev Timely : Handling → Type 0
  Timely h = past timeout h.start h.ticks ≡ true

  handle_signal-ends :
      (s : Signal) (h : Handling) (w : World)
      → Timely h
      → is_unfinished (handle_signal env timeout s h w) ≡ false
  unfolding handle_signal terminate_gracefully waited
  handle_signal-ends sigterm h w early =
      quit_after-is_unfinished _ ∙ waited-ends h.start h.ticks _ early
  handle_signal-ends sigint h w early =
      quit_after-is_unfinished _ ∙ waited-ends h.start h.ticks _ early
  handle_signal-ends sigquit h w early = refl
  handle_signal-ends unexpected h w early = refl

  ends_after :
      (s : Signal) (rest : List Signal) (h : Handling) (hs : List Handling) (w : World)
      (r : Wait World)
      → ((v : World)
          → length v.0.signal_queue + arriving hs ≤ length hs
          → is_unfinished (process_from env timeout hs v.0.signal_queue v) ≡ false)
      → is_unfinished r ≡ false
      → OnOver (Handled s (record w.0 { signal_queue = rest }, w.1)) r
      → length (s ∷ rest) + arriving (h ∷ hs) ≤ length (h ∷ hs)
      → is_unfinished (elim r as (λ x. Wait World) [
        | over after ↦
            process_from env timeout hs
              (after.0.signal_queue ++ h.arrivals)
              (arrive env timeout h.arrivals after)
        | unfinished after ↦ unfinished after
        | raised e after ↦ raised e after
      ])
        ≡ false
  ends_after s rest h hs w (over u) again ends handled enough =
      again (arrive env timeout h.arrivals u) (
        omega
          (arith, length-append stops u.0.signal_queue h.arrivals, ap length handled.queue, enough))
  ends_after s rest h hs w (unfinished u) again ends handled enough = absurd (ground (arith, ends))
  ends_after s rest h hs w (raised e u) again ends handled enough = refl

  process_from-ends :
      (hs : List Handling) (q : List Signal) (w : World)
      → w.0.signal_queue ≡ q
      → All Timely hs
      → length q + arriving hs ≤ length hs
      → is_unfinished (process_from env timeout hs q w) ≡ false
  unfolding process_from
  process_from-ends [] [] w e early enough = refl
  process_from-ends [] (s ∷ rest) w e early enough = absurd (omega (arith, enough))
  process_from-ends (h ∷ hs) [] w e early enough = refl
  process_from-ends (h ∷ hs) (s ∷ rest) w e early enough =
      ends_after s rest h hs w _
        (λ v fits. process_from-ends hs v.0.signal_queue v refl early.1 fits)
        (handle_signal-ends s h _ early.0) (handle_signal-Handled env timeout s h _) enough

-- The branches of a test that is known.
branch_true :
    {A : Type 0} (x y : A) (b : Bool) → b ≡ true → (elim b as (λ c. A) [ true ↦ x | false ↦ y ]) ≡ x
branch_true x y true h = refl
branch_true x y false h = absurd (ground (arith, h))

branch_false :
    {A : Type 0} (x y : A) (b : Bool)
    → b ≡ false
    → (elim b as (λ c. A) [ true ↦ x | false ↦ y ]) ≡ y
branch_false x y true h = absurd (ground (arith, h))
branch_false x y false h = refl

-- A supervisor that has ended, after SIGQUIT to the forks that are left if nothing has raised.
pub record Stopped (r : Ending × World) : Type 0 where
  pub result : Result (Unit {0})
  pub is_ended : r.0 ≡ ended result
  pub has_quit : result ≡ ok tt → AllQuit r.1

module _ (env : Env) (timeout : ℕ) (shutdown : Action (Unit {0})) where
  supervise-stopped :
      (t : Turn) (ts : List Turn) (w : World)
      → w.0.stopped ≡ true
      → supervise env timeout shutdown (t ∷ ts) w ≡ end_loop env timeout shutdown (ok tt) w
  unfolding supervise
  supervise-stopped t ts w h = branch_true _ _ w.0.stopped h

  -- The loop with what the queue came to.
  abbrev after_queue : Turn → List Turn → Wait World → Ending × World
  after_queue t ts r = elim r as (λ x. Ending × World) [
    | unfinished after ↦ (going, after)
    | raised e after ↦ end_loop env timeout shutdown (err e) after
    | over after ↦ elim after.0.stopped [
      | true ↦ supervise env timeout shutdown ts (arrive env timeout t.arrivals after)
      | false ↦
          let replaced = reap_and_replace_terminated_forks env t.exits after.0.supervisor after.1 in
          elim replaced.0 [
            | err e ↦ end_loop env timeout shutdown (err e) (after.0, replaced.1)
            | ok s ↦
                supervise env timeout shutdown ts
                  (arrive env timeout t.arrivals (record after.0 { supervisor = s }, replaced.1))
          ]
    ]
  ]

  supervise-going :
      (t : Turn) (ts : List Turn) (w : World)
      → w.0.stopped ≡ false
      → supervise env timeout shutdown (t ∷ ts) w
        ≡ after_queue t ts (process_signal_queue env timeout t.handlings w)
  unfolding supervise
  supervise-going t ts w h = branch_false _ _ w.0.stopped h

  raised_Stopped : (e : Error) (w : World) → Stopped (end_loop env timeout shutdown (err e) w)
  raised_Stopped e w = record {
    result = _;
    is_ended = refl;
    has_quit = λ h. absurd (no_ok (shutdown w.1).0 h);
  }
    where
      no_ok : (r : Result (Unit {0})) → either (err e) r ≡ ok tt → ⊥
      no_ok (ok u) h = ground (arith, h)
      no_ok (err x) h = ground (arith, h)

  over_queue :
      (t next : Turn) (ts : List Turn) (w : World) (r : Wait World)
      → w.0.stopped ≡ false
      → any stops w.0.signal_queue ≡ true
      → OnOver (Processed w) r
      → is_unfinished r ≡ false
      → Stopped (after_queue t (next ∷ ts) r)
  over_queue t next ts w (unfinished u) fresh signal processed ends = absurd (ground (arith, ends))
  over_queue t next ts w (raised x u) fresh signal processed ends = raised_Stopped x u
  over_queue t next ts w (over u) fresh signal processed ends =
      let stopped : u.0.stopped ≡ true = processed.stopped (ground (arith, signal)) in
      let quit : AllQuit u = processed.has_quit (λ h. absurd (ground (arith, h, fresh))) stopped in
      subst Stopped
        (sym (
          branch_true _ _ u.0.stopped stopped
          ∙ supervise-stopped next ts (arrive env timeout t.arrivals u) stopped))
        (record { result = _; is_ended = refl; has_quit = λ _. quit })

  -- A supervisor with a signal to stop in its queue ends its loop, where its timeout is positive,
  -- and the given calls of `handle_signal` are enough for the signals in the queue and those that
  -- come meanwhile, and each waits until the clock is past its deadline, if need be. If nothing has
  -- raised, every fork that is left then was sent SIGQUIT.
  pub supervise-stops :
      (t next : Turn) (ts : List Turn) (w : World)
      → 0 < timeout
      → w.0.stopped ≡ false
      → any stops w.0.signal_queue ≡ true
      → All (λ h. past timeout h.start h.ticks ≡ true) t.handlings
      → length w.0.signal_queue + arriving t.handlings ≤ length t.handlings
      → Stopped (supervise env timeout shutdown (t ∷ next ∷ ts) w)
  unfolding process_signal_queue
  supervise-stops t next ts w positive fresh signal early enough =
      subst Stopped (sym (supervise-going t (next ∷ ts) w fresh)) (
        over_queue t next ts w _ fresh signal
          (process_from-Processed env timeout t.handlings w.0.signal_queue w refl)
          (process_from-ends env timeout positive t.handlings w.0.signal_queue w refl early enough))
