-- ===== src/Runnable.antt =====
-- runnable.py, supervised.py, registrable.py and interruptible.py of steady_queue/processes/, with the
-- `stop` of base.py: when a process that polls ends, and what wakes it from its sleep.
pub mod Leaving
pub mod Orphans
use steady_queue.Prelude.{
  ℕ, zero, suc, ◌+◌, ◌-◌, Bool, true, false, ◌&&◌, ◌||◌, not, Option, none, some, is_some, ltb,
  ◌==◌, if◌then◌else◌, List, [], ◌∷◌,
}
use steady_queue.Db.{Db, Process}
use steady_queue.Env.{Env}
use steady_queue.Action.{Action, Result, Error, ok, err, does_not_exist, pure, ◌>>=◌, ◌>>◌}
use steady_queue.Process
use steady_queue.Process.{heartbeat}

-- `self_pipe`, a cached property: the bytes that nobody has read, once it is made.
pub data Pipe : Type 0 where
  unmade : Pipe
  made : (unread : ℕ) → Pipe
  closed : Pipe

pub data Mode : Type 0 where
  inline async fork : Mode

-- `supervisor` and `process` are rows of the table of the processes.
pub record Runnable : Type 0 where
  pub mode : Mode
  pub stopped : Bool
  pub supervisor : Option Process
  pub process : Option Process
  pub pipe : Pipe

-- `interrupt`: a write to a closed pipe raises `OSError`, which is ignored.
unfoldable pub interrupt : Pipe → Pipe
interrupt unmade = made 1
interrupt (made unread) = made (suc unread)
interrupt closed = closed

unfoldable pub wake_up : Runnable → Runnable
unfolding interrupt
wake_up r = record r { pipe = interrupt r.pipe }

-- `Runnable.stop`, which the handler of SIGINT and SIGTERM calls.
unfoldable pub stop : Runnable → Runnable
unfolding wake_up
stop r = wake_up (record r { stopped = true })

-- `os.read(self.self_pipe[0], 1024)`
abbrev pub drain : ℕ → ℕ
drain unread = unread - 1024

-- A write to the pipe when nobody sleeps any more.
abbrev late : Option ℕ → Pipe → Pipe
late none p = p
late (some at) p = interrupt p

-- `interruptible_sleep`: how long it waits, and the pipe then. `interrupted` is the time after which
-- the pipe is written to, if it is. Waiting at a closed pipe raises `OSError`, which is ignored.
unfoldable pub interruptible_sleep : (duration : ℕ) → (interrupted : Option ℕ) → Pipe → ℕ × Pipe
unfolding interrupt
interruptible_sleep duration interrupted (made (suc unread)) =
    (0, late interrupted (made (drain (suc unread))))
interruptible_sleep duration none (made zero) = (duration, made 0)
interruptible_sleep duration (some at) (made zero) =
    if ltb at duration then (at, made 0) else (duration, made 1)
interruptible_sleep duration none unmade = (duration, made 0)
interruptible_sleep duration (some at) unmade =
    if ltb at duration then (at, made 0) else (duration, made 1)
interruptible_sleep duration interrupted closed = (0, closed)

-- `Interruptible.shutdown`
unfoldable pub close_pipe : Pipe → Pipe
close_pipe unmade = unmade
close_pipe (made unread) = closed
close_pipe closed = closed

abbrev pub is_running_inline : Mode → Bool
is_running_inline inline = true
is_running_inline _ = false

abbrev pub is_running_async : Mode → Bool
is_running_async async = true
is_running_async _ = false

abbrev pub is_running_as_fork : Mode → Bool
is_running_as_fork fork = true
is_running_as_fork _ = false

unfoldable pub supervisor_went_away : (ppid : ℕ) → Option Process → Bool
supervisor_went_away ppid none = false
supervisor_went_away ppid (some s) = not (s.pid == ppid)

abbrev pub is_registered : Runnable → Bool
is_registered r = is_some r.process

-- `is_finished`; `completed` is `is_all_work_completed`, which is read only where the work is inline.
unfoldable pub is_finished : (completed : Result Bool) → Runnable → Result Bool
is_finished completed r = if is_running_inline r.mode then completed else ok false

abbrev or_unregistered : Runnable → Result Bool → Result Bool
or_unregistered r (ok finished) = ok (finished || not (is_registered r))
or_unregistered r (err e) = err e

unfoldable pub is_shutting_down : (ppid : ℕ) → (completed : Result Bool) → Runnable → Result Bool
unfolding supervisor_went_away is_finished
is_shutting_down ppid completed r =
    if r.stopped || (is_running_as_fork r.mode && supervisor_went_away ppid r.supervisor)
    then ok true
    else or_unregistered r (is_finished completed r)

-- `Registrable.register`; `draft` has what the properties of the process give.
unfoldable pub register : Env → (draft : Process) → Runnable → Action Runnable
register env draft r = do row ← Process.register env draft; pure (record r { process = some row })

abbrev pub deregister_row : Option Process → Action (Unit {0})
deregister_row none = pure tt
deregister_row (some p) = Process.deregister false p

-- `Registrable.deregister`
unfoldable pub deregister : Runnable → Action (Unit {0})
deregister r = deregister_row r.process

-- What `Registrable.heartbeat` does with the outcome of that of the row. Other exceptions end in the
-- log of the timer task.
abbrev pub missed : Runnable → Error → Runnable
missed r does_not_exist = wake_up (record r { process = none })
missed r e = r

abbrev pub answered : Runnable → Result (Unit {0}) → Runnable
answered r (ok u) = r
answered r (err e) = missed r e

abbrev beat_row : Env → Runnable → Option Process → Db → Runnable × Db
beat_row env r none db = (r, db)
beat_row env r (some p) db = let answer = heartbeat env p db in (answered r answer.0, answer.1)

unfoldable pub beat : Env → Runnable → Db → Runnable × Db
unfolding wake_up
beat env r db = beat_row env r r.process db

-- `shutdown` of `Interruptible`, which goes on to that of `Registrable`.
unfoldable pub shutdown : Runnable → Db → Result (Unit {0}) × (Runnable × Db)
unfolding deregister close_pipe
shutdown r db =
    let left = deregister r db in (left.0, (record r { pipe = close_pipe r.pipe }, left.1))
