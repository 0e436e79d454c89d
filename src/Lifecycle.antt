-- ===== src/Lifecycle.antt =====
-- The `boot` and `shutdown` of the classes of steady_queue/processes/, which call one another by
-- `super()`, and the start of a supervisor and of its forks.
pub mod Released
use steady_queue.Prelude.{
  ℕ, Bool, true, false, Option, none, some, List, [], ◌∷◌, ◌++◌, if◌then◌else◌, take,
}
use steady_queue.Db.{Db, Process}
use steady_queue.Action.{Action, Result, ok, err}
use steady_queue.Runnable.{deregister_row}

-- The calls that take or give back what outlives them, and the others.
pub data Act : Type 0 where
  register_signal_handlers restore_default_signal_handlers : Act
  setup_pidfile delete_pidfile : Act
  register deregister : Act
  launch_heartbeat stop_heartbeat : Act
  launch_maintenance_task stop_maintenance_task : Act
  start_concurrency_maintenance stop_concurrency_maintenance : Act
  schedule_recurring_tasks unschedule_recurring_tasks : Act
  reset_database_connections fail_orphaned_executions start_processes : Act
  close_pipe shutdown_pool : Act

-- Each method with the calls of the next class in the method resolution order.
abbrev registrable_boot : List Act → List Act
registrable_boot super = super ++ register ∷ launch_heartbeat ∷ []

abbrev pidfiled_boot : List Act → List Act
pidfiled_boot super = setup_pidfile ∷ super

abbrev signals_boot : List Act → List Act
signals_boot super = register_signal_handlers ∷ super

abbrev runnable_boot : (is_running_as_fork : Bool) → List Act → List Act
runnable_boot is_running_as_fork super =
    reset_database_connections ∷ super
    ++ (if is_running_as_fork then register_signal_handlers ∷ [] else [])

abbrev interruptible_shutdown : List Act → List Act
interruptible_shutdown super = close_pipe ∷ super

abbrev registrable_shutdown : List Act → List Act
registrable_shutdown super = stop_heartbeat ∷ super ++ deregister ∷ []

abbrev pidfiled_shutdown : List Act → List Act
pidfiled_shutdown super = super ++ delete_pidfile ∷ []

abbrev signals_shutdown : List Act → List Act
signals_shutdown super = super ++ restore_default_signal_handlers ∷ []

-- Supervisor, Maintenance, Signals, Pidfiled, Registrable, Interruptible, Base
unfoldable pub supervisor_boot : List Act
supervisor_boot =
    signals_boot (pidfiled_boot (registrable_boot [])) ++ fail_orphaned_executions ∷ []

unfoldable pub supervisor_shutdown : List Act
supervisor_shutdown =
    stop_maintenance_task
    ∷ signals_shutdown (pidfiled_shutdown (registrable_shutdown (interruptible_shutdown [])))

-- Poller, Runnable, Supervised, Interruptible, Registrable, Base
unfoldable pub poller_boot : (is_running_as_fork : Bool) → List Act
poller_boot is_running_as_fork = runnable_boot is_running_as_fork (registrable_boot [])

unfoldable pub poller_shutdown : List Act
poller_shutdown = interruptible_shutdown (registrable_shutdown [])

unfoldable pub worker_shutdown : List Act
unfolding poller_shutdown
worker_shutdown = shutdown_pool ∷ poller_shutdown

unfoldable pub dispatcher_boot : Bool → List Act
unfolding poller_boot
dispatcher_boot is_running_as_fork =
    poller_boot is_running_as_fork ++ start_concurrency_maintenance ∷ []

unfoldable pub dispatcher_shutdown : List Act
unfolding poller_shutdown
dispatcher_shutdown = stop_concurrency_maintenance ∷ poller_shutdown

unfoldable pub scheduler_boot : Bool → List Act
unfolding poller_boot
scheduler_boot is_running_as_fork = poller_boot is_running_as_fork ++ schedule_recurring_tasks ∷ []

unfoldable pub scheduler_shutdown : List Act
unfolding poller_shutdown
scheduler_shutdown = unschedule_recurring_tasks ∷ poller_shutdown

-- The `try` of `Supervisor.start`
unfoldable pub supervisor_start : List Act
unfolding supervisor_boot
supervisor_start =
    supervisor_boot ++ reset_database_connections ∷ start_processes ∷ launch_maintenance_task ∷ []

-- `start`, where a signal raises `SystemExit` after some of the calls.
unfoldable pub interrupted_start : (calls : ℕ) → List Act
unfolding supervisor_start supervisor_shutdown
interrupted_start calls =
    take calls supervisor_start ++ restore_default_signal_handlers ∷ supervisor_shutdown

-- What a process holds. The calls that give back do nothing where there is nothing to give.
pub record Held : Type 0 where
  pub handlers : Bool
  pub pidfile : Bool
  pub row : Bool
  pub heartbeat : Bool
  pub maintenance : Bool
  pub concurrency_maintenance : Bool
  pub recurring_tasks : Bool

abbrev pub nothing : Held
nothing = record {
  handlers = false;
  pidfile = false;
  row = false;
  heartbeat = false;
  maintenance = false;
  concurrency_maintenance = false;
  recurring_tasks = false;
}

unfoldable pub perform : Act → Held → Held
perform register_signal_handlers h = record h { handlers = true }
perform restore_default_signal_handlers h = record h { handlers = false }
perform setup_pidfile h = record h { pidfile = true }
perform delete_pidfile h = record h { pidfile = false }
perform register h = record h { row = true }
perform deregister h = record h { row = false }
perform launch_heartbeat h = record h { heartbeat = true }
perform stop_heartbeat h = record h { heartbeat = false }
perform launch_maintenance_task h = record h { maintenance = true }
perform stop_maintenance_task h = record h { maintenance = false }
perform start_concurrency_maintenance h = record h { concurrency_maintenance = true }
perform stop_concurrency_maintenance h = record h { concurrency_maintenance = false }
perform schedule_recurring_tasks h = record h { recurring_tasks = true }
perform unschedule_recurring_tasks h = record h { recurring_tasks = false }
perform act h = h

unfoldable pub perform_all : List Act → Held → Held
unfolding perform
perform_all [] h = h
perform_all (a ∷ acts) h = perform_all acts (perform a h)

-- The child of `start_process` after `instance.start()`: `sys.exit(0)` raises `SystemExit`, which
-- `start` catches in the child too, and which passes the `finally` of `supervise`. Either way the
-- child runs `shutdown` of the supervisor, whose `process` it has from before the fork.
unfoldable pub exit_child : (supervisor : Option Process) → Action (Unit {0})
exit_child supervisor = deregister_row supervisor
