-- ===== src/Examples/Stopping.antt =====
-- poller.py, worker.py, dispatcher.py and supervisor.py: processes that are stopped.
use steady_queue.Prelude.{◌≡◌, refl, arith, true, false, none, some, [], ◌∷◌}
use steady_queue.Prelude.Int.{pos}
use steady_queue.Db.{Db, Process, empty, get_job, delete_claimed, has_ready}
use steady_queue.Action.{ok}
use steady_queue.Executable.{ready}
use steady_queue.Dispatcher.{poll}
use steady_queue.Process
use steady_queue.Runnable
use steady_queue.Runnable.{Runnable, fork, made, unmade, closed, is_finished, is_shutting_down}
use steady_queue.Lifecycle.{exit_child}
use steady_queue.Claimed.{claimed_by, orphaned, release, release_each, release_all}
use steady_queue.Poller.{signalled, Turn, start_loop}
use steady_queue.Poller.Waking.{stop_time}
use steady_queue.Poller.Ends.{Ended, start_loop-stop}
use steady_queue.Worker.{Pool, shutdown_worker, run_worker}
use steady_queue.Worker.Leaving.{HasLeft, run_worker-HasLeft}
use steady_queue.Timer.{wait_until}
use steady_queue.Supervisor.{are_all_forks_terminated, reap_terminated_forks}
use steady_queue.Supervisor.Control.{
  sigterm, sigint, sigquit, Control, Tick, Handling, supervise, process_signal_queue, process_from,
  handle_signal, terminate_gracefully, quit_remaining, reap, term_forks, quit_forks,
  signal_processes,
}
use steady_queue.Supervisor.Control
use steady_queue.Supervisor.Ends.{Stopped, supervise-stops}
use steady_queue.Configuration
use steady_queue.Configuration.{default_worker}
use steady_queue.Examples.{env, working}

-- The fork of a worker, with the row 7.
abbrev row : Process
row = record {
  id = 7;
  kind = "worker";
  last_heartbeat_at = 8;
  supervisor_id = some 1;
  pid = 42;
  hostname = none;
  name = "worker-1";
}

abbrev boss : Process
boss = record row { id = 1; kind = "supervisor"; pid = 40; supervisor_id = none }

abbrev running : Runnable
running = record {
  mode = fork;
  stopped = false;
  supervisor = some boss;
  process = some row;
  pipe = unmade;
}

-- SIGTERM comes three seconds into a sleep.
abbrev stopping : Turn
stopping = record { ppid = 40; before = []; asleep = some (3000, signalled) }

abbrev quiet : Turn
quiet = record { ppid = 40; before = []; asleep = none }

start_loop-stop_example :
    Ended
      (λ r. poll env 10 5000)
      (λ db. ok false)
      Runnable.shutdown
      3000
      (start_loop
        (λ r. poll env 10 5000)
        (λ db. ok false)
        Runnable.shutdown
        (stopping ∷ quiet ∷ [])
        running
        empty)
unfolding stop_time
start_loop-stop_example =
    start_loop-stop (λ r. poll env 10 5000) (λ db. ok false) Runnable.shutdown 3000 stopping quiet
      [] running empty refl

-- A worker whose only thread runs the job that it has claimed.
abbrev busy : Pool
busy = record {
  size = 1;
  available_threads = pos 0;
  posted = record { job_id = 1; process_id = some 7 } ∷ [];
}

abbrev tables : Db
tables = record working { processes = boss ∷ row ∷ [] }

abbrev stopped_worker : Runnable
stopped_worker = record running { stopped = true }

run_worker-HasLeft_example :
    HasLeft row (run_worker env ("*" ∷ []) 100 (quiet ∷ []) stopped_worker (busy, tables)).world.1
unfolding run_worker start_loop is_shutting_down is_finished shutdown_worker Runnable.shutdown
    Runnable.deregister Process.deregister Process.delete Process.delete_each Process.supervisees
    Process.is_supervised Process.release_all_claimed_executions Process.is_claiming_executions
    release release_each release_all claimed_by orphaned get_job
run_worker-HasLeft_example =
    run_worker-HasLeft row refl refl env ("*" ∷ []) 100 (quiet ∷ []) stopped_worker (busy, tables)
      refl refl refl

-- The job of the thread, which runs on, is ready again for another worker.
released_while_running :
    let stop = run_worker env ("*" ∷ []) 100 (quiet ∷ []) stopped_worker (busy, tables) in
    (stop.world.0.posted ≡ busy.posted)
    × (stop.world.1.ready ≡ record { job_id = 1; queue_name = "billing"; priority = pos 0 } ∷ [])
unfolding run_worker start_loop is_shutting_down is_finished shutdown_worker Runnable.shutdown
    Runnable.deregister Process.deregister Process.delete Process.delete_each Process.delete_row
    Process.supervisees Process.is_supervised Process.release_all_claimed_executions
    Process.is_claiming_executions release release_each release_all claimed_by ready get_job
    delete_claimed has_ready
released_while_running = (refl, refl)

-- A supervisor with one fork, which does not end within the five seconds after SIGTERM.
abbrev one_fork : Control
one_fork = record {
  supervisor = record {
    process = some 1;
    forks = (42, "worker-1") ∷ [];
    configured_processes = (42, Configuration.worker default_worker) ∷ [];
  };
  stopped = false;
  signal_queue = sigterm ∷ [];
  sent = [];
}

abbrev patience : Handling
patience = record {
  start = 100;
  ticks = record { time = 100; reports = [] } ∷ record { time = 5100; reports = [] } ∷ [];
  arrivals = [];
}

abbrev handling : Control.Turn
handling = record { handlings = patience ∷ []; exits = []; arrivals = [] }

abbrev idle : Control.Turn
idle = record { handlings = []; exits = []; arrivals = [] }

supervise-stops_example :
    Stopped
      (supervise env 5000 (Runnable.deregister running) (handling ∷ idle ∷ []) (one_fork, tables))
supervise-stops_example =
    supervise-stops env 5000 (Runnable.deregister running) handling idle [] (one_fork, tables)
      (omega arith) refl refl (refl, tt) (omega arith)

escalates :
    (supervise env 5000
      (Runnable.deregister running)
      (handling ∷ idle ∷ [])
      (one_fork, tables)).1.0.sent
    ≡ (42, sigterm) ∷ (42, sigquit) ∷ []
unfolding supervise process_signal_queue process_from handle_signal terminate_gracefully wait_until
    are_all_forks_terminated reap reap_terminated_forks quit_remaining term_forks quit_forks
    signal_processes
escalates = refl

-- A worker of two exits: the row of the supervisor and that of the other worker go with it.
abbrev two_workers : Db
two_workers = record tables {
  processes = boss ∷ row ∷ record row { id = 8; pid = 43; name = "worker-2" } ∷ [];
}

abbrev after_exit : Db
after_exit = (exit_child (some boss) (Runnable.deregister running two_workers).1).1

exit_takes_all : after_exit.processes ≡ []
unfolding exit_child Runnable.deregister Process.deregister Process.delete Process.delete_each
    Process.delete_row Process.supervisees Process.is_supervised
    Process.release_all_claimed_executions Process.is_claiming_executions release release_each
    release_all claimed_by get_job delete_claimed ready has_ready
exit_takes_all = refl
