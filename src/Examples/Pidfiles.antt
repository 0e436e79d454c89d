-- ===== src/Examples/Pidfiles.antt =====
-- pidfile.py: supervisors that start alone, and several at one file.
use steady_queue.Prelude.{ℕ, ◌≡◌, refl, Option, none, some, ◌==◌, if◌then◌else◌}
use steady_queue.Prelude.Int.{pos}
use steady_queue.Pidfile.{
  number, other, File, Kill, delivered, process_lookup_error, reading, done, refused, failed,
  check_status, killed, probe, write_file, fill, advance, stop, setup, World, advances, stops,
}
use steady_queue.Pidfile.Setup.{own_file, setup_lem}
use steady_queue.Pidfile.Exclusion.{Reach, here, next, Reach-exclusion}

-- The process 7 is gone.
abbrev kill : ℕ → Kill
kill pid = if pid == 7 then process_lookup_error else delivered

abbrev stale_pid : File
stale_pid = record { creator = none; content = number (pos 7) }

abbrev live_pid : File
live_pid = record { creator = none; content = number (pos 8) }

abbrev begin : Option File → World
begin file = record { file = file; stage = λ i. reading }

setup_lem_example : setup 5 kill 20 reading (some stale_pid) ≡ some (done, some (own_file 20))
setup_lem_example = setup_lem kill 20 0 (some stale_pid)

abbrev go : ℕ → World → World
go pid w = advances kill pid w

abbrev contended : World
contended = go 1 (go 2 (go 1 (go 2 (go 1 (begin none)))))

contended-Reach : Reach kill (begin none) contended
contended-Reach = next 1 (next 2 (next 1 (next 2 (next 1 here refl) refl) refl) refl) refl

abbrev first : ℕ
first = 1

Reach-exclusion_example : first ≡ first
unfolding advances advance check_status write_file fill
Reach-exclusion_example = Reach-exclusion kill none 1 1 refl contended-Reach refl refl

abbrev starts : ℕ → World → World
starts pid w = go pid (go pid (go pid w))

-- Two supervisors that read the pid of a process that is gone: the second deletes the file of the
-- first, and both run.
abbrev both_delete : World
both_delete =
    let found = go 2 (go 1 (go 2 (go 1 (begin (some stale_pid))))) in starts 2 (starts 1 found)

both_delete_run : (both_delete.stage 1 ≡ done) × (both_delete.stage 2 ≡ done)
unfolding advances advance check_status probe killed write_file fill
both_delete_run = (refl, refl)

-- A supervisor that is stopped while it reads the file deletes that of the one that runs, so that a
-- third starts beside it.
abbrev stopped_start : World
stopped_start = starts 3 (go 2 (stops 2 (go 2 (starts 1 (begin none)))))

stopped_start_runs : (stopped_start.stage 1 ≡ done) × (stopped_start.stage 3 ≡ done)
unfolding advances advance stops stop check_status probe killed write_file fill
stopped_start_runs = (refl, refl)

-- The hook at the exit deletes the file that another supervisor has made since `shutdown`.
abbrev late_hook : World
late_hook = starts 3 (go 1 (starts 2 (go 1 (stops 1 (starts 1 (begin none))))))

late_hook_runs : (late_hook.stage 2 ≡ done) × (late_hook.stage 3 ≡ done)
unfolding advances advance stops stop check_status probe killed write_file fill
late_hook_runs = (refl, refl)

-- The other outcomes of `setup`: the file names a process that is there, or holds no number.
live_pid_refuses : setup 5 kill 20 reading (some live_pid) ≡ some (refused, some live_pid)
live_pid_refuses = setup_lem kill 20 0 (some live_pid)

no_number_fails :
    let f : File = record { creator = none; content = other } in
    setup 5 kill 20 reading (some f) ≡ some (failed, some f)
no_number_fails = setup_lem kill 20 0 (some (record { creator = none; content = other }))
