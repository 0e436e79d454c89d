-- ===== src/Blocked.antt =====
-- steady_queue/models/blocked_execution.py, and the unblocking of concurrency_controls.py.
use steady_queue.Prelude.{
  ℕ, suc, String, Bool, true, false, ◌&&◌, ◌||◌, not, Option, none, some, List, [], ◌∷◌, ◌++◌, map,
  leb, str_eq, if◌then◌else◌, filter, any, all, head?, sort_by, take,
}
use steady_queue.Prelude.Int.{ℤ, ltb_ℤ}
use steady_queue.Semaphore.{Semaphore}
use steady_queue.Db.{Db, Job, BlockedExecution, get_job, has_ready, delete_blocked}
use steady_queue.Env.{Env}
use steady_queue.Action.{
  Action, Result, ok, err, integrity_error, value_error, pure, modify, gets, found, atomic, ◌>>=◌,
  ◌>>◌,
}
use steady_queue.Locks.{wait_for, release_concurrency_lock}

-- `ExecutionQuerySet.in_order` of models/execution.py: `order_by("-priority", "job_id")`.
abbrev pub in_order : (p : ℤ) (i : ℕ) (q : ℤ) (j : ℕ) → Bool
in_order p i q j = ltb_ℤ q p || (not (ltb_ℤ p q) && leb i j)

abbrev pub blocked_order : BlockedExecution → BlockedExecution → Bool
blocked_order a b = in_order a.priority a.job_id b.priority b.job_id

-- `BlockedExecutionQuerySet.expired`, as a test on a row.
unfoldable pub expired : (now : ℕ) → BlockedExecution → Bool
expired now b = leb b.expires_at now

-- `promote_to_ready`: a plain `create`, which the unique job refuses if it has a row already.
unfoldable pub promote_to_ready : BlockedExecution → Action (Unit {0})
unfolding has_ready
promote_to_ready b db = if has_ready db b.job_id then (err integrity_error, db) else (
  ok tt,
  record db {
    ready =
        db.ready
        ++ record { job_id = b.job_id; queue_name = b.queue_name; priority = b.priority } ∷ [];
  },
)

-- `distinct()`: the first row of each value.
abbrev pub distinct : List String → List String
distinct [] = []
distinct (k ∷ ks) = k ∷ filter (λ j. not (str_eq j k)) (distinct ks)

-- `dict(Semaphore.objects.filter(...).values("key", "value"))` of `releasable`: each row that
-- `values` gives is a dict of the two columns, which `dict` reads as the pair of its keys. So the
-- result maps the text "key" to the text "value", if there is any row.
abbrev pub semaphores_dict : List Semaphore → List (String × String)
semaphores_dict [] = []
semaphores_dict (s ∷ t) = ("key", "value") ∷ []

-- `semaphores[key] > 0` compares a text with a number, which raises.
unfoldable pub releasable : List String → List Semaphore → Result (List String)
releasable keys t =
    let rows = filter (λ s. any (str_eq s.key) keys) t in
    let absent : String → Bool = λ k. not (any (λ e. str_eq e.0 k) (semaphores_dict rows)) in
    if all absent keys then ok keys else err value_error

module _ (env : Env) where
  unfoldable pub release : BlockedExecution → Action Bool
  release b = atomic (do
    job ← λ db. found (get_job b.job_id db.jobs) db
    granted ← wait_for env job
    if granted
        then (do promote_to_ready b; modify (delete_blocked b.job_id); pure true)
        else pure false)

  -- `in_order().filter(concurrency_key=k).select_for_update(skip_locked=True).first()`
  unfoldable pub next_blocked : String → Db → Option BlockedExecution
  next_blocked k db = head? (
      sort_by blocked_order
        (filter (λ b. str_eq b.concurrency_key k && not (env.locked_blocked b.job_id)) db.blocked))

  unfoldable pub release_next : Option BlockedExecution → Action Bool
  release_next none = pure false
  release_next (some b) = release b

  unfoldable pub release_one : String → Action Bool
  release_one k = atomic (do b ← gets (next_blocked k); release_next b)

  -- The sum of `release_many`.
  unfoldable pub release_many : List String → Action ℕ
  release_many [] = pure 0
  release_many (k ∷ ks) = do
    released ← release_one k
    rest ← release_many ks
    pure (if released then suc rest else rest)

  -- The keys of the expired rows: ordered, distinct, and the first `limit` of them.
  unfoldable pub expired_keys : (limit : ℕ) → Db → List String
  unfolding expired
  expired_keys limit db = take limit (
      distinct (
        map (λ b. b.concurrency_key)
          (sort_by (λ a b. env.key_le a.concurrency_key b.concurrency_key)
            (filter (expired env.now) db.blocked))))

  unfoldable pub unblock : (limit : ℕ) → Action ℕ
  unblock limit = do keys ← gets (expired_keys limit); release_many keys

  -- `release_next_blocked_job`: no blocked row has a null key.
  unfoldable pub release_next_blocked_job : Option String → Action (Unit {0})
  release_next_blocked_job none = pure tt
  release_next_blocked_job (some key) = do release_one key; pure tt

  unfoldable pub unblock_next_blocked_job : Job → Action (Unit {0})
  unblock_next_blocked_job job = do
    released ← release_concurrency_lock env job
    if released then release_next_blocked_job job.concurrency_key else pure tt
