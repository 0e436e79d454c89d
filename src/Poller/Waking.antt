-- ===== src/Poller/Waking.antt =====
-- poller.py and interruptible.py: what an event in one turn makes of the process and its sleep.
use Prim.{absurd}
use steady_queue.Prelude.{
  ℕ, zero, suc, ◌≤◌, ◌≡◌, refl, Bool, true, false, ◌||◌, not, Option, none, some, List, [], ◌∷◌,
  arith, if◌then◌else◌, Bool-cases, inl, inr, is_some, any,
}
use steady_queue.Runnable.{
  Runnable, Pipe, unmade, made, closed, interrupt, wake_up, interruptible_sleep,
}
use steady_queue.Poller.{
  Event, signalled, row_gone, became_idle, mark, event, events, Turn, time_of, mark_asleep, sleep,
}

-- The events that the check of the next turn sees.
abbrev pub is_stop : Event → Bool
is_stop signalled = true
is_stop row_gone = true
is_stop became_idle = false

-- When the first of them comes, after the start of the sleep.
abbrev stop_asleep : Option (ℕ × Event) → Option ℕ
stop_asleep none = none
stop_asleep (some x) = if is_stop x.1 then some x.0 else none

unfoldable pub stop_time : Turn → Option ℕ
stop_time t = if any is_stop t.before then some 0 else stop_asleep t.asleep

abbrev pub ends : Runnable → Bool
ends r = r.stopped || not (is_some r.process)

ends-mark : (e : Event) (r : Runnable) → ends r ≡ true → ends (mark e r) ≡ true
ends-mark signalled r h = refl
ends-mark row_gone r h = ground arith
ends-mark became_idle r h = h

ends-mark_stop : (e : Event) (r : Runnable) → is_stop e ≡ true → ends (mark e r) ≡ true
ends-mark_stop signalled r h = refl
ends-mark_stop row_gone r h = ground arith
ends-mark_stop became_idle r h = absurd (ground arith)

ends-events : (es : List Event) (r : Runnable) → ends r ≡ true → ends (events es r) ≡ true
unfolding event wake_up
ends-events [] r h = h
ends-events (e ∷ es) r h = ends-events es (event e r) (ends-mark e r h)

ends-events_stop :
    (es : List Event) (r : Runnable) → any is_stop es ≡ true → ends (events es r) ≡ true
unfolding event wake_up
ends-events_stop [] r h = absurd (ground arith)
ends-events_stop (e ∷ es) r h = elim (Bool-cases (is_stop e)) [
  | inl stops ↦ ends-events es (event e r) (ends-mark_stop e r stops)
  | inr other ↦ ends-events_stop es (event e r) (ground (arith, other))
]

-- A pipe that nobody sleeps at.
abbrev awake : Pipe → Bool
awake unmade = false
awake (made zero) = false
awake (made (suc unread)) = true
awake closed = true

awake-interrupt : (p : Pipe) → awake (interrupt p) ≡ true
unfolding interrupt
awake-interrupt unmade = refl
awake-interrupt (made unread) = refl
awake-interrupt closed = refl

mark-pipe : (e : Event) (r : Runnable) → (mark e r).pipe ≡ r.pipe
mark-pipe signalled r = refl
mark-pipe row_gone r = refl
mark-pipe became_idle r = refl

awake-event : (e : Event) (r : Runnable) → awake (event e r).pipe ≡ true
unfolding event wake_up
awake-event e r = awake-interrupt (mark e r).pipe

awake-events :
    (es : List Event) (r : Runnable) → awake r.pipe ≡ true → awake (events es r).pipe ≡ true
awake-events [] r h = h
awake-events (e ∷ es) r h = awake-events es (event e r) (awake-event e r)

awake-events_stop :
    (es : List Event) (r : Runnable) → any is_stop es ≡ true → awake (events es r).pipe ≡ true
awake-events_stop [] r h = absurd (ground arith)
awake-events_stop (e ∷ es) r h = awake-events es (event e r) (awake-event e r)

interruptible_sleep-awake :
    (delay : ℕ) (interrupted : Option ℕ) (p : Pipe)
    → awake p ≡ true
    → (interruptible_sleep delay interrupted p).0 ≡ 0
unfolding interruptible_sleep
interruptible_sleep-awake delay interrupted unmade h = absurd (ground arith)
interruptible_sleep-awake delay interrupted (made zero) h = absurd (ground arith)
interruptible_sleep-awake delay interrupted (made (suc unread)) h = refl
interruptible_sleep-awake delay interrupted closed h = refl

interruptible_sleep-interrupted :
    (delay time : ℕ) (p : Pipe) → (interruptible_sleep delay (some time) p).0 ≤ time
unfolding interruptible_sleep
interruptible_sleep-interrupted delay time unmade = ground arith
interruptible_sleep-interrupted delay time (made zero) = ground arith
interruptible_sleep-interrupted delay time (made (suc unread)) = omega arith
interruptible_sleep-interrupted delay time closed = omega arith

ends-sleep :
    (delay limit : ℕ) (asleep : Option (ℕ × Event)) (r : Runnable)
    → stop_asleep asleep ≡ some limit
    → ((sleep delay asleep r).0 ≤ limit) × (ends (sleep delay asleep r).1 ≡ true)
unfolding sleep
ends-sleep delay limit none r h = absurd (ground arith)
ends-sleep delay limit (some x) r h = elim (Bool-cases (is_stop x.1)) [
  | inr other ↦ absurd (ground (arith, other, h))
  | inl stops ↦
      let time : x.0 ≡ limit = ground (arith, stops, h) in
      (
        omega (arith, interruptible_sleep-interrupted delay x.0 r.pipe, time),
        ends-mark_stop x.1 _ stops,
      )
]

ends-sleep-awake :
    (delay limit : ℕ) (asleep : Option (ℕ × Event)) (r : Runnable)
    → awake r.pipe ≡ true
    → ends r ≡ true
    → ((sleep delay asleep r).0 ≤ limit) × (ends (sleep delay asleep r).1 ≡ true)
unfolding sleep
ends-sleep-awake delay limit asleep r woken h =
    (omega (arith, interruptible_sleep-awake delay (time_of asleep) r.pipe woken), kept asleep)
  where
    kept :
        (a : Option (ℕ × Event))
        → ends (
            mark_asleep a
              (record r { pipe = (interruptible_sleep delay (time_of asleep) r.pipe).1 }))
          ≡ true
    kept none = h
    kept (some x) = ends-mark x.1 _ h

pub ends-turn :
    (delay limit : ℕ) (t : Turn) (r : Runnable)
    → stop_time t ≡ some limit
    → let slept = sleep delay t.asleep (events t.before r) in
      (slept.0 ≤ limit) × (ends slept.1 ≡ true)
unfolding stop_time
ends-turn delay limit t r h = elim (Bool-cases (any is_stop t.before)) [
  | inl early ↦
      ends-sleep-awake delay limit t.asleep (events t.before r) (awake-events_stop t.before r early)
        (ends-events_stop t.before r early)
  | inr late ↦ ends-sleep delay limit t.asleep (events t.before r) (ground (arith, late, h))
]
