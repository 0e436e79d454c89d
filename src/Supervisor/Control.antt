-- ===== src/Supervisor/Control.antt =====
-- signals.py, and the termination and the loop of supervisor.py, in steady_queue/processes/.
use steady_queue.Prelude.{ℕ, Bool, true, false, List, [], ◌∷◌, ◌++◌, map, if◌then◌else◌}
use steady_queue.Db.{Db}
use steady_queue.Env.{Env}
use steady_queue.Action.{Action, Result, ok, err}
use steady_queue.Timer.{Wait, over, unfinished, raised, wait_until}
use steady_queue.Poller.{Ending, going, ended, either}
use steady_queue.Supervisor.{
  Supervisor, Status, Exit, reap_terminated_forks, reap_and_replace_terminated_forks,
  are_all_forks_terminated,
}

pub data Signal : Type 0 where
  sigquit sigint sigterm unexpected : Signal

-- `sent` are the calls of `os.kill`, in their order; an `OSError` of one is only logged.
pub record Control : Type 0 where
  pub supervisor : Supervisor
  pub stopped : Bool
  pub signal_queue : List Signal
  pub sent : List (ℕ × Signal)

-- The handler that `register_signal_handlers` installs, while `is_supervising`.
unfoldable pub trap : Signal → Control → Control
trap s c = record c { signal_queue = c.signal_queue ++ s ∷ [] }

-- `signal_processes(self.forks.keys(), signal)`
unfoldable pub signal_processes : Signal → Control → Control
signal_processes s c = record c { sent = c.sent ++ map (λ f. (f.0, s)) c.supervisor.forks }

unfoldable pub term_forks : Control → Control
unfolding signal_processes
term_forks c = signal_processes sigterm c

unfoldable pub quit_forks : Control → Control
unfolding signal_processes
quit_forks c = signal_processes sigquit c

abbrev pub terminate_immediately : Control → Control
terminate_immediately c = quit_forks c

-- A tick of `wait_until`: the clock at its check, and what `waitpid` reports then.
pub record Tick : Type 0 where
  pub time : ℕ
  pub reports : List Status

abbrev pub World : Type 0
World = Control × Db

abbrev pub all_terminated : World → Bool
all_terminated w = are_all_forks_terminated w.0.supervisor

-- What a step of the forks leaves; after an exception nothing reads the forks any more.
abbrev pub with_supervisor : Control → Result Supervisor → Control
with_supervisor c (ok s) = record c { supervisor = s }
with_supervisor c (err e) = c

abbrev pub done : {A : Type 0} → Result A → Result (Unit {0})
done (ok a) = ok tt
done (err e) = err e

unfoldable pub reap : Env → Tick → World → Result (Unit {0}) × World
reap env t w =
    let reaped = reap_terminated_forks env t.reports w.0.supervisor w.1 in
    (done reaped.0, (with_supervisor w.0 reaped.0, reaped.1))

unfoldable pub quit_remaining : World → World
quit_remaining w = if all_terminated w then w else (terminate_immediately w.0, w.1)

abbrev pub quit_after : Wait World → Wait World
quit_after (over w) = over (quit_remaining w)
quit_after (unfinished w) = unfinished w
quit_after (raised e w) = raised e w

-- One call of `handle_signal`: when it starts, the ticks that its wait gets, and the signals that
-- come in the meantime.
pub record Handling : Type 0 where
  pub start : ℕ
  pub ticks : List Tick
  pub arrivals : List Signal

-- A turn of `supervise`: the calls of `handle_signal`, the forks that have terminated, and the
-- signals that come up to the next turn.
pub record Turn : Type 0 where
  pub handlings : List Handling
  pub exits : List Exit
  pub arrivals : List Signal

module _ (env : Env) (shutdown_timeout : ℕ) where
  unfoldable pub terminate_gracefully : (start : ℕ) → List Tick → World → Wait World
  unfolding term_forks
  terminate_gracefully start ticks w = quit_after (
      wait_until all_terminated (λ (t : Tick). t.time) (reap env) shutdown_timeout start ticks
        (term_forks w.0, w.1))

  abbrev stopping : World → World
  stopping w = (record w.0 { stopped = true }, w.1)

  unfoldable pub handle_signal : Signal → Handling → World → Wait World
  handle_signal sigterm h w = terminate_gracefully h.start h.ticks (stopping w)
  handle_signal sigint h w = terminate_gracefully h.start h.ticks (stopping w)
  handle_signal sigquit h w =
      let stopped_now = stopping w in over (terminate_immediately stopped_now.0, stopped_now.1)
  handle_signal unexpected h w = over w

  abbrev pub arrive : List Signal → World → World
  arrive arrivals w = (record w.0 { signal_queue = w.0.signal_queue ++ arrivals }, w.1)

  -- `process_signal_queue` from a queue on, for the given calls of `handle_signal`.
  unfoldable pub process_from : List Handling → List Signal → World → Wait World
  process_from [] [] w = over w
  process_from [] (s ∷ rest) w = unfinished w
  process_from (h ∷ hs) [] w = over w
  process_from (h ∷ hs) (s ∷ rest) w =
      elim (handle_signal s h (record w.0 { signal_queue = rest }, w.1)) [
        | over after ↦
            process_from hs (after.0.signal_queue ++ h.arrivals) (arrive h.arrivals after)
        | unfinished after ↦ unfinished after
        | raised e after ↦ raised e after
      ]

  unfoldable pub process_signal_queue : List Handling → World → Wait World
  process_signal_queue hs w = process_from hs w.0.signal_queue w

  module _ (shutdown : Action (Unit {0})) where
    abbrev pub end_loop : Result (Unit {0}) → World → Ending × World
    end_loop before w = let shut = shutdown w.1 in (ended (either before shut.0), (w.0, shut.1))

    -- `supervise`
    unfoldable pub supervise : List Turn → World → Ending × World
    supervise [] w = (going, w)
    supervise (t ∷ ts) w = elim w.0.stopped [
      | true ↦ end_loop (ok tt) w
      | false ↦ elim (process_signal_queue t.handlings w) [
        | unfinished after ↦ (going, after)
        | raised e after ↦ end_loop (err e) after
        | over after ↦ elim after.0.stopped [
          | true ↦ supervise ts (arrive t.arrivals after)
          | false ↦
              let replaced =
                reap_and_replace_terminated_forks env t.exits after.0.supervisor after.1 in
              elim replaced.0 [
                | err e ↦ end_loop (err e) (after.0, replaced.1)
                | ok s ↦
                    supervise ts (arrive t.arrivals (record after.0 { supervisor = s }, replaced.1))
              ]
        ]
      ]
    ]
