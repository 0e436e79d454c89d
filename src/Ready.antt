-- ===== src/Ready.antt =====
-- steady_queue/models/ready_execution.py: how a worker claims ready executions.
pub mod Lock
pub mod Bound
use steady_queue.Prelude.{
  ℕ, zero, ◌-◌, Bool, true, false, ◌&&◌, not, Option, none, some, String, List, [], ◌∷◌, ◌++◌, map,
  ◌+◌, if◌then◌else◌, filter, elem, length, take, sort_by, count_if,
}
use steady_queue.Db.{Db, ReadyExecution, ClaimedExecution}
use steady_queue.Env.{Env}
use steady_queue.Action.{Action, Result, ok, err, pure, raise, gets, atomic, ◌>>=◌, ◌>>◌}
use steady_queue.Blocked.{in_order}
use steady_queue.Claimed.{claiming}
use steady_queue.QueueSelector.{Relation, in_relation, scoped_relations}

abbrev pub ready_order : ReadyExecution → ReadyExecution → Bool
ready_order a b = in_order a.priority a.job_id b.priority b.job_id

-- The `delete` of `lock_candidates`: a ready row is named by its job.
unfoldable pub delete_ready : List ℕ → Db → Db
delete_ready gone db = record db { ready = filter (λ r. not (elem r.job_id gone)) db.ready }

abbrev pub job_ids : List ReadyExecution → List ℕ
job_ids rows = map (λ r. r.job_id) rows

abbrev pub claimed_ids : List ClaimedExecution → List ℕ
claimed_ids rows = map (λ c. c.job_id) rows

unfoldable pub lock_candidates :
    (process_id : ℕ) → List ReadyExecution → Action (List ClaimedExecution)
lock_candidates p [] = pure []
lock_candidates p (r ∷ rs) = do
  claimed ← claiming (job_ids (r ∷ rs)) p
  λ db. (
    ok claimed,
    delete_ready (job_ids (filter (λ e. elem e.job_id (claimed_ids claimed)) (r ∷ rs))) db,
  )

-- `SteadyQueue.Queue.pending_jobs` and `aggregated_count_across_queues` count such rows.
unfoldable pub count_across : List Relation → Db → ℕ
unfolding in_relation
count_across [] db = 0
count_across (q ∷ qs) db = count_if (in_relation q) db.ready + count_across qs db

unfoldable pub aggregated_count_across_queues : List String → Action ℕ
aggregated_count_across_queues queues db = elim (scoped_relations queues db.ready db.pauses) [
  | ok qs ↦ (ok (count_across qs db), db)
  | err e ↦ (err e, db)
]

module _ (env : Env) where
  unfoldable pub select_candidates : Relation → (limit : ℕ) → Db → List ReadyExecution
  unfolding in_relation
  select_candidates q limit db = take limit (
      sort_by ready_order
        (filter (λ r. in_relation q r && not (env.locked_ready r.job_id)) db.ready))

  unfoldable pub select_and_lock :
      Relation → (process_id limit : ℕ) → Action (List ClaimedExecution)
  select_and_lock q p zero = pure []
  select_and_lock q p limit =
      atomic (do candidates ← gets (select_candidates q limit); lock_candidates p candidates)

  -- The loop over the relations.
  unfoldable pub claim_from :
      List Relation → (process_id limit : ℕ) → Action (List ClaimedExecution)
  claim_from [] p limit = pure []
  claim_from (q ∷ qs) p limit = do
    locked ← select_and_lock q p limit
    rest ← claim_from qs p (limit - length locked)
    pure (locked ++ rest)

  unfoldable pub claim_scoped :
      Result (List Relation) → (process_id limit : ℕ) → Action (List ClaimedExecution)
  claim_scoped (ok qs) p limit = claim_from qs p limit
  claim_scoped (err e) p limit = raise e

  unfoldable pub claim : List String → (limit : ℕ) → Option ℕ → Action (List ClaimedExecution)
  claim queue_list limit none db = (ok [], db)
  claim queue_list limit (some p) db =
      claim_scoped (scoped_relations queue_list db.ready db.pauses) p limit db
