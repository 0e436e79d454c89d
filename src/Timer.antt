-- ===== src/Timer.antt =====
-- steady_queue/processes/timer.py: waiting for a condition, and a task that runs periodically.
use steady_queue.Prelude.{ℕ, ◌+◌, Bool, true, false, ◌&&◌, not, List, [], ◌∷◌, ltb, if◌then◌else◌}
use steady_queue.Action.{Result, Error, ok, err}

-- What becomes of the loop over `wait_until`; in `unfinished` the given ticks are over.
pub data Wait (W : Type 0) : Type 0 where
  over : W → Wait W
  unfinished : W → Wait W
  raised : Error → W → Wait W

module _ {W T : Type 0} (condition : W → Bool) (time : T → ℕ)
    (body : T → W → Result (Unit {0}) × W) where
  -- `wait_until` and the body of the `for`, for the ticks that the loop gets. `time` is what the
  -- clock gives at the check of a tick, and a timeout of 0 waits with no deadline.
  unfoldable pub wait_until : (timeout : ℕ) → (start : ℕ) → List T → W → Wait W
  wait_until timeout start [] w = unfinished w
  wait_until timeout start (t ∷ ts) w =
      elim ((if ltb 0 timeout then ltb (time t) (start + timeout) else true) && not (condition w)) [
        | false ↦ over w
        | true ↦ elim (body t w).0 [
          | ok u ↦ wait_until timeout start ts (body t w).1
          | err e ↦ raised e (body t w).1
        ]
      ]

module _ {W : Type 0} (callable : W → Result (Unit {0}) × W) where
  -- `wrapped_callable`: exceptions end in the log.
  unfoldable pub perform_task : W → W
  perform_task w = (callable w).1

  -- A turn of the loop: is `_stop_event` set at the check, and is it set while the task waits?
  pub record Tick : Type 0 where
    pub is_set : Bool
    pub set_while_waiting : Bool

  unfoldable pub run_ticks : List Tick → W → W
  unfolding perform_task
  run_ticks [] w = w
  run_ticks (t ∷ ts) w = elim t.is_set [
    | true ↦ w
    | false ↦ elim t.set_while_waiting [ true ↦ w | false ↦ run_ticks ts (perform_task w) ]
  ]

  -- `TimerTask.run`
  unfoldable pub run : (run_now : Bool) → List Tick → W → W
  unfolding run_ticks perform_task
  run run_now ts w = run_ticks ts (if run_now then perform_task w else w)
