-- ===== src/Process.antt =====
-- steady_queue/models/process.py, prunable.py and executor.py: the table of the processes.
pub mod Alive
use mathlib.Core.Option
use steady_queue.Prelude.{
  ℕ, suc, ◌+◌, String, Bool, true, false, ◌&&◌, ◌||◌, not, Option, none, some, is_some, List, [],
  ◌∷◌, ◌++◌, map, ltb, ◌==◌, str_eq, if◌then◌else◌, filter, find?, any, update_where,
}
use steady_queue.Db.{Db, Process, ClaimedExecution}
use steady_queue.Env.{Env}
use steady_queue.Action.{
  Action, ok, err, integrity_error, pure, modify, gets, found, atomic, ◌>>=◌, ◌>>◌,
}
use steady_queue.Claimed.{claimed_by, fail_all_with, release_all}

unfoldable pub get_process : ℕ → List Process → Option Process
get_process i ps = find? (λ p. p.id == i) ps

abbrev pub names : Option ℕ → ℕ → Bool
names none i = false
names (some j) i = j == i

-- The unique constraint on the name and the supervisor, where null is equal to nothing.
abbrev pub same_name : String → Option ℕ → Process → Bool
same_name name none p = false
same_name name (some s) p = str_eq p.name name && names p.supervisor_id s

-- `register`: the new row, with the time as its first heartbeat. `draft` has the columns that the
-- caller gives.
unfoldable pub register : Env → Process → Action Process
register env draft db =
    let row : Process = record draft { id = db.next_process_id; last_heartbeat_at = env.now } in
    if any (same_name draft.name draft.supervisor_id) db.processes
    then (err integrity_error, db)
    else (
      ok row,
      record db { next_process_id = suc db.next_process_id; processes = db.processes ++ row ∷ [] },
    )

-- `heartbeat`: reading the row again raises if it is gone.
unfoldable pub heartbeat : Env → Process → Action (Unit {0})
unfolding get_process
heartbeat env p = do
  λ db. found (get_process p.id db.processes) db
  modify (λ db. record db {
    processes =
        update_where (λ q. q.id == p.id) (λ q. record q { last_heartbeat_at = env.now })
          db.processes;
  })

unfoldable pub is_supervised : Process → Bool
is_supervised p = is_some p.supervisor_id

unfoldable pub is_claiming_executions : Process → Bool
is_claiming_executions p = str_eq p.kind "worker"

unfoldable pub release_all_claimed_executions : Process → Action (Unit {0})
release_all_claimed_executions p =
    if is_claiming_executions p then release_all (claimed_by p.id) else pure tt

unfoldable pub fail_all_claimed_executions_with : Env → String → Process → Action (Unit {0})
fail_all_claimed_executions_with env error p =
    if is_claiming_executions p then fail_all_with env error (claimed_by p.id) else pure tt

-- `on_delete=models.SET_NULL`
abbrev pub set_null : ℕ → Option ℕ → Option ℕ
set_null i none = none
set_null i (some j) = if j == i then none else some j

abbrev pub without_process : ℕ → ClaimedExecution → ClaimedExecution
without_process i c = record c { process_id = set_null i c.process_id }

abbrev pub without_supervisor : ℕ → Process → Process
without_supervisor i q = record q { supervisor_id = set_null i q.supervisor_id }

-- `Model.delete` of a process, which claims and supervised processes outlive.
unfoldable pub delete_row : ℕ → Db → Db
delete_row i db = record db {
  claimed = map (without_process i) db.claimed;
  processes = map (without_supervisor i) (filter (λ q. not (q.id == i)) db.processes);
}

-- `Process.delete`
unfoldable pub delete : Process → Action (Unit {0})
delete p = do release_all_claimed_executions p; modify (delete_row p.id)

unfoldable pub delete_each : List Process → Action (Unit {0})
delete_each [] = pure tt
delete_each (p ∷ ps) = do delete p; delete_each ps

-- The supervisees that `deregister` collects.
unfoldable pub supervisees : (pruned : Bool) → Process → Db → List Process
unfolding is_supervised
supervisees pruned p db =
    if pruned || is_supervised p then [] else filter (λ q. names q.supervisor_id p.id) db.processes

-- A supervised process that was read before the deletion has its supervisor still, so that its own
-- `deregister` deletes it and collects no others.
unfoldable pub deregister : (pruned : Bool) → Process → Action (Unit {0})
deregister pruned p = do rows ← gets (supervisees pruned p); delete p; delete_each rows

module _ (env : Env) where
  -- `PrunableQuerySet.prunable`, as a test on a row.
  unfoldable pub prunable : Process → Bool
  prunable p = ltb (p.last_heartbeat_at + env.process_alive_threshold) env.now

  -- `Prunable.prune`; `error` is the text of `ProcessPrunedError`.
  unfoldable pub prune : (error : ℕ → String) → Process → Action (Unit {0})
  prune error p = do
    fail_all_claimed_executions_with env (error p.last_heartbeat_at) p
    deregister true p

  unfoldable pub prune_each : (error : ℕ → String) → List Process → Action (Unit {0})
  prune_each error [] = pure tt
  prune_each error (p ∷ ps) = do prune error p; prune_each error ps

  unfoldable pub prunable_rows : (excluding : Option ℕ) → Db → List Process
  unfolding prunable
  prunable_rows excluding db =
      filter (λ p. prunable p && (not (names excluding p.id) && not (env.locked_process p.id)))
        db.processes

  -- `PrunableQuerySet.prune`
  unfoldable pub prune_all : (error : ℕ → String) → (excluding : Option ℕ) → Action (Unit {0})
  prune_all error excluding =
      atomic (do rows ← gets (prunable_rows excluding); prune_each error rows)
