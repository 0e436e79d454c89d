-- ===== src/Supervisor/Reaping.antt =====
-- supervisor.py and timer.py: waiting for the forks to terminate only takes forks away.
use steady_queue.Prelude.{
  ℕ, ◌+◌, ◌≤◌, ◌≡◌, refl, ◌∙◌, Bool, true, ◌&&◌, not, List, [], ◌∷◌, arith, ltb, if◌then◌else◌,
  Bool-cases, inl, inr,
}
use steady_queue.Db.{Db}
use steady_queue.Env.{Env}
use steady_queue.Action.{Action, Result, Result-cases, ok, err, resume}
use steady_queue.Timer.{Wait, over, unfinished, raised, wait_until}
use steady_queue.Supervisor.{Supervisor, Status, pop, lookup, handle_failed, reap_terminated_forks}
use steady_queue.Supervisor.Replacing.{keyed, keyed-pop}
use steady_queue.Supervisor.Control.{Tick, World, all_terminated, reap, with_supervisor}

-- Reaping only takes forks away.
module _ (env : Env) (pid : ℕ) where
  abbrev FewerForks : Supervisor → Result Supervisor → Type 0
  FewerForks s (ok after) = keyed pid after.forks ≤ keyed pid s.forks
  FewerForks s (err e) = Unit

  FewerForks-resume :
      (s : Supervisor) (rest : Action Supervisor) (r : Result (Unit {0})) (db : Db)
      → FewerForks s (rest db).0
      → FewerForks s (resume (λ _. rest) r db).0
  FewerForks-resume s rest (ok u) db h = h
  FewerForks-resume s rest (err e) db h = tt

  FewerForks-weaken :
      (s t : Supervisor) (r : Result Supervisor)
      → keyed pid t.forks ≤ keyed pid s.forks
      → FewerForks t r
      → FewerForks s r
  FewerForks-weaken s t (ok after) fewer h = omega (arith, fewer, h)
  FewerForks-weaken s t (err e) fewer h = tt

  reap_terminated_forks-FewerForks :
      (es : List Status) (s : Supervisor) (db : Db)
      → FewerForks s (reap_terminated_forks env es s db).0
  unfolding reap_terminated_forks
  reap_terminated_forks-FewerForks [] s db = omega arith
  reap_terminated_forks-FewerForks (e ∷ es) s db =
      FewerForks-resume s (reap_terminated_forks env es after) handled.0 handled.1 (
        FewerForks-weaken s after _ (ground (arith, keyed-pop e.pid pid s.forks))
          (reap_terminated_forks-FewerForks es after handled.1))
    where
      after : Supervisor
      after = record s {
        forks = pop e.pid s.forks;
        configured_processes = pop e.pid s.configured_processes;
      }

      handled : Result (Unit {0}) × Db
      handled =
          handle_failed env e (lookup e.pid s.forks) (record s { forks = pop e.pid s.forks }) db

-- What waiting changes of a supervisor.
pub record Fewer (w after : World) : Type 0 where
  pub forks : (pid : ℕ) → keyed pid after.0.supervisor.forks ≤ keyed pid w.0.supervisor.forks
  pub sent : after.0.sent ≡ w.0.sent
  pub stopped : after.0.stopped ≡ w.0.stopped
  pub queue : after.0.signal_queue ≡ w.0.signal_queue

pub Fewer-refl : (w : World) → Fewer w w
Fewer-refl w = record { forks = λ pid. omega arith; sent = refl; stopped = refl; queue = refl }

pub Fewer-trans : (u v w : World) → Fewer u v → Fewer v w → Fewer u w
Fewer-trans u v w a b = record {
  forks = λ pid. omega (arith, a.forks pid, b.forks pid);
  sent = b.sent ∙ a.sent;
  stopped = b.stopped ∙ a.stopped;
  queue = b.queue ∙ a.queue;
}

-- A predicate of the world after a wait that is over.
abbrev pub OnOver : (World → Type 0) → Wait World → Type 0
OnOver P (over w) = P w
OnOver P (unfinished w) = Unit
OnOver P (raised e w) = Unit

module _ (env : Env) where
  reap-Fewer : (t : Tick) (w : World) → (reap env t w).0 ≡ ok tt → Fewer w (reap env t w).1
  unfolding reap
  reap-Fewer t w returned =
      reaped (reap_terminated_forks env t.reports w.0.supervisor w.1).0
        (λ pid. reap_terminated_forks-FewerForks env pid t.reports w.0.supervisor w.1)
    where
      reaped :
          (r : Result Supervisor)
          → ((pid : ℕ) → FewerForks env pid w.0.supervisor r)
          → Fewer w (with_supervisor w.0 r, (reap env t w).1.1)
      reaped (ok s) fewer = record { forks = fewer; sent = refl; stopped = refl; queue = refl }
      reaped (err e) fewer = record {
        forks = λ pid. omega arith;
        sent = refl;
        stopped = refl;
        queue = refl;
      }

  unfoldable pub waited : ℕ → ℕ → List Tick → World → Wait World
  waited timeout start ts w =
      wait_until all_terminated (λ (t : Tick). t.time) (reap env) timeout start ts w

  abbrev pub waits : ℕ → ℕ → Tick → World → Bool
  waits timeout start t w =
      (if ltb 0 timeout then ltb t.time (start + timeout) else true) && not (all_terminated w)

  pub wait_until-Fewer :
      (timeout start : ℕ) (ts : List Tick) (w u : World)
      → Fewer u w
      → OnOver (Fewer u) (waited timeout start ts w)
  unfolding waited wait_until
  wait_until-Fewer timeout start [] w u h = tt
  wait_until-Fewer timeout start (t ∷ ts) w u h = elim (Bool-cases (waits timeout start t w)) [
    | inr stops ↦ rw (stops, waited, wait_until) h
    | inl goes ↦ elim (Result-cases (reap env t w).0) [
      | inr (e, raises) ↦ rw (goes, raises, waited, wait_until) tt
      | inl (u1, returned) ↦
          rw (goes, returned, waited, wait_until)
            (wait_until-Fewer timeout start ts (reap env t w).1 u
              (Fewer-trans u w (reap env t w).1 h (reap-Fewer t w returned)))
    ]
  ]
