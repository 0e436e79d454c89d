-- ===== src/Pidfile.antt =====
-- steady_queue/processes/pidfile.py and pidfiled.py: the file that keeps a second supervisor from
-- starting.
pub mod Setup
pub mod Moves
pub mod Exclusion
use steady_queue.Prelude.{
  ℕ, zero, suc, Bool, true, false, Option, none, some, ltb, ◌==◌, if◌then◌else◌,
}
use steady_queue.Prelude.Int.{ℤ, pos, negsuc}

-- What `int(f.read().strip())` makes of a file: `other` is what it raises `ValueError` for, as it
-- does for an empty file.
pub data Content : Type 0 where
  number : ℤ → Content
  other : Content

-- `creator` is the process whose `open(self.path, mode="xt")` made the file, and which may have it
-- open still.
pub record File : Type 0 where
  pub creator : Option ℕ
  pub content : Content

-- The outcomes of `os.kill(existing_pid, 0)`
pub data Kill : Type 0 where
  delivered process_lookup_error permission_error : Kill

-- Where a supervisor is between two calls of the operating system. `reading` is the start of
-- `check_status`, `probing` holds the pid that it read, `deleting` handles `ProcessLookupError`;
-- `writing` is the start of `write_file`, and `filling` has created the file. `refused` has raised
-- `RuntimeError`, and `failed` has raised `ValueError`. `closing` is at `delete_pidfile` in
-- `shutdown`, with or without the hook of `set_at_exit_hook` to follow; `exiting` is at that hook.
pub data Stage : Type 0 where
  reading : Stage
  probing : ℤ → Stage
  deleting writing filling done refused failed : Stage
  closing : (hook : Bool) → Stage
  exiting gone : Stage

-- `check_status` up to the reading: where there is no file, `write_file` is next.
unfoldable pub check_status : Option File → Stage
check_status none = writing
check_status (some f) = elim f.content [ number z ↦ probing z | other ↦ failed ]

unfoldable pub killed : Kill → Stage
killed delivered = refused
killed process_lookup_error = deleting
killed permission_error = refused

-- The rest of `check_status`
unfoldable pub probe : (ℕ → Kill) → ℤ → Stage
unfolding killed
probe kill (pos zero) = refused
probe kill (pos (suc n)) = killed (kill (suc n))
probe kill (negsuc n) = refused

-- `write_file` up to the creation: where there is a file, `check_status` is next.
unfoldable pub write_file : ℕ → Option File → Stage × Option File
write_file pid none = (filling, some (record { creator = some pid; content = other }))
write_file pid (some f) = (reading, some f)

abbrev pub made_by : ℕ → Option ℕ → Bool
made_by pid none = false
made_by pid (some i) = i == pid

-- `f.write(str(self.pid))`, which is lost where the path has no file or another one by now.
unfoldable pub fill : ℕ → Option File → Option File
fill pid none = none
fill pid (some f) =
    some (if made_by pid f.creator then record f { content = number (pos pid) } else f)

-- `delete_file`, also where there is no file.
abbrev pub delete_file : Option File → Option File
delete_file file = none

-- The next call of the operating system. A `done` supervisor runs, and others have ended.
unfoldable pub advance : (ℕ → Kill) → (pid : ℕ) → Stage → Option File → Stage × Option File
unfolding check_status probe write_file fill
advance kill pid reading file = (check_status file, file)
advance kill pid (probing z) file = (probe kill z, file)
advance kill pid deleting file = (writing, delete_file file)
advance kill pid writing file = write_file pid file
advance kill pid filling file = (done, fill pid file)
advance kill pid (closing true) file = (exiting, delete_file file)
advance kill pid (closing false) file = (gone, delete_file file)
advance kill pid exiting file = (gone, delete_file file)
advance kill pid stage file = (stage, file)

-- A signal: the supervisor shuts down, where it runs as well as in the middle of `setup`, since
-- `setup_pidfile` assigns `self.pidfile` first.
unfoldable pub stop : Stage → Stage
stop reading = closing false
stop (probing z) = closing false
stop deleting = closing false
stop writing = closing false
stop filling = closing false
stop done = closing true
stop stage = stage

-- `setup` with nobody else at the file, for at most `fuel` calls; `none` where they do not suffice.
unfoldable pub is_over : Stage → Bool
is_over done = true
is_over refused = true
is_over failed = true
is_over stage = false

unfoldable pub setup :
    (fuel : ℕ) → (ℕ → Kill) → (pid : ℕ) → Stage → Option File → Option (Stage × Option File)
unfolding is_over advance
setup zero kill pid stage file = if is_over stage then some (stage, file) else none
setup (suc fuel) kill pid stage file =
    let next = advance kill pid stage file in
    let rest = setup fuel kill pid next.0 next.1 in
    if is_over stage then some (stage, file) else rest

-- Several supervisors at one file.
pub record World : Type 0 where
  pub file : Option File
  pub stage : ℕ → Stage

abbrev pub at : ℕ → Stage → (ℕ → Stage) → ℕ → Stage
at pid s stage i = if i == pid then s else stage i

unfoldable pub advances : (ℕ → Kill) → (pid : ℕ) → World → World
unfolding advance
advances kill pid w =
    let next = advance kill pid (w.stage pid) w.file in
    record { file = next.1; stage = at pid next.0 w.stage }

unfoldable pub stops : (pid : ℕ) → World → World
unfolding stop
stops pid w = record w { stage = at pid (stop (w.stage pid)) w.stage }
