-- ===== src/Supervisor.antt =====
-- steady_queue/processes/supervisor.py: the forks of a supervisor, how it replaces those that have
-- terminated, and how it hands their jobs on.
pub mod Replacing
pub mod Control
pub mod Reaping
pub mod Stopping
pub mod Ends
use steady_queue.Prelude.{
  ℕ, zero, suc, ◌+◌, String, Bool, true, false, ◌&&◌, ◌||◌, not, Option, none, some, is_some, List,
  [], ◌∷◌, ◌++◌, map, ltb, ◌==◌, str_eq, if◌then◌else◌, filter, find?, any, update_where, head?,
  length,
}
use steady_queue.Db.{Db}
use steady_queue.Db
use steady_queue.Env.{Env}
use steady_queue.Action.{Action, ok, err, value_error, pure, raise, gets, ◌>>=◌, ◌>>◌}
use steady_queue.Process.{names, fail_all_claimed_executions_with}
use steady_queue.Configuration.{Process}

-- A dict by process ids.
abbrev pub Pids : Type 0 → Type 0
Pids A = List (ℕ × A)

abbrev pub at_pid : {A : Type 0} → ℕ → ℕ × A → Bool
at_pid pid e = e.0 == pid

unfoldable pub lookup : {A : Type 0} → ℕ → Pids A → Option A
lookup pid [] = none
lookup pid (e ∷ es) = let rest = lookup pid es in if e.0 == pid then some e.1 else rest

unfoldable pub pop : {A : Type 0} → ℕ → Pids A → Pids A
pop pid es = filter (λ e. not (at_pid pid e)) es

unfoldable pub put : {A : Type 0} → ℕ → A → Pids A → Pids A
put pid a es =
    if any (at_pid pid) es
    then update_where (at_pid pid) (λ e. (pid, a)) es
    else es ++ (pid, a) ∷ []

-- A fork is known by the name of its instance; `process` is the row of the supervisor.
pub record Supervisor : Type 0 where
  pub process : Option ℕ
  pub forks : Pids String
  pub configured_processes : Pids Process

-- `start_process` in the parent: `pid` is what `os.fork` returns, and `name` the name of the
-- instance.
unfoldable pub start_process : (pid : ℕ) → (name : String) → Process → Supervisor → Supervisor
unfolding put
start_process pid name process s = record s {
  configured_processes = put pid process s.configured_processes;
  forks = put pid name s.forks;
}

unfoldable pub start_processes : List (ℕ × String) → List Process → Supervisor → Supervisor
unfolding start_process
start_processes [] ps s = s
start_processes (f ∷ fs) [] s = s
start_processes (f ∷ fs) (p ∷ ps) s = start_processes fs ps (start_process f.0 f.1 p s)

-- `self.process.supervisees.filter(name=...).first()`
unfoldable pub registered : ℕ → String → Db → Option Db.Process
registered supervisor name db =
    head? (filter (λ p. names p.supervisor_id supervisor && str_eq p.name name) db.processes)

unfoldable pub fail_registered : Env → String → Option Db.Process → Action (Unit {0})
fail_registered env error none = pure tt
fail_registered env error (some p) = fail_all_claimed_executions_with env error p

-- `handle_claimed_jobs_by`; `error` is `str(exitcode)`.
unfoldable pub handle_claimed_jobs_by :
    Env → Supervisor → (name : String) → (error : String) → Action (Unit {0})
handle_claimed_jobs_by env s name error = elim s.process [
  | none ↦ pure tt
  | some i ↦ (do p ← gets (registered i name); fail_registered env error p)
]

-- What `waitpid` reports, with the id and the name of the fork that a replacement starts.
pub record Exit : Type 0 where
  pub pid : ℕ
  pub status : String
  pub new_pid : ℕ
  pub new_name : String

-- `self.start_process(self.configured_processes.pop(pid))`, which raises where there is none.
unfoldable pub restart : Exit → Option Process → Supervisor → Action Supervisor
unfolding pop start_process
restart e none s = raise value_error
restart e (some p) s = pure (
    start_process e.new_pid e.new_name p
      (record s { configured_processes = pop e.pid s.configured_processes }))

unfoldable pub replace_known : Env → Exit → Option String → Supervisor → Action Supervisor
unfolding pop
replace_known env e none s = pure s
replace_known env e (some name) s = do
  handle_claimed_jobs_by env (record s { forks = pop e.pid s.forks }) name e.status
  restart e (lookup e.pid s.configured_processes) (record s { forks = pop e.pid s.forks })

unfoldable pub replace_fork : Env → Exit → Supervisor → Action Supervisor
unfolding lookup
replace_fork env e s = replace_known env e (lookup e.pid s.forks) s

-- `reap_and_replace_terminated_forks`, over what `waitpid` reports until it has no more.
unfoldable pub reap_and_replace_terminated_forks : Env → List Exit → Supervisor → Action Supervisor
reap_and_replace_terminated_forks env [] s = pure s
reap_and_replace_terminated_forks env (e ∷ es) s = do
  after ← replace_fork env e s
  reap_and_replace_terminated_forks env es after

unfoldable pub are_all_forks_terminated : Supervisor → Bool
are_all_forks_terminated s = length s.forks == 0

-- What `waitpid` reports while the supervisor terminates.
pub record Status : Type 0 where
  pub pid : ℕ
  pub is_exited : Bool
  pub exit_status : ℕ
  pub text : String

unfoldable pub handle_failed : Env → Status → Option String → Supervisor → Action (Unit {0})
handle_failed env e none s = pure tt
handle_failed env e (some name) s =
    if not e.is_exited || ltb 0 e.exit_status
    then handle_claimed_jobs_by env s name e.text
    else pure tt

unfoldable pub reap_terminated_forks : Env → List Status → Supervisor → Action Supervisor
unfolding pop lookup
reap_terminated_forks env [] s = pure s
reap_terminated_forks env (e ∷ es) s = do
  handle_failed env e (lookup e.pid s.forks) (record s { forks = pop e.pid s.forks })
  reap_terminated_forks env es (record s {
    forks = pop e.pid s.forks;
    configured_processes = pop e.pid s.configured_processes;
  })
