-- ===== src/Worker/Capacity.antt =====
-- worker.py and pool.py: a worker never holds more claimed jobs than it has threads.
use steady_queue.Prelude.{
  ℕ, zero, suc, ◌+◌, ◌≤◌, String, ◌≡◌, refl, ap, subst, Bool, true, Option, none, some, List, [],
  ◌∷◌, ◌++◌, arith, length, length-append,
}
use steady_queue.Prelude.Int.{pos}
use steady_queue.Db.{Db, ClaimedExecution}
use steady_queue.Env.{Env}
use steady_queue.Action.{Result, ok, err}
use steady_queue.Ready.{claim}
use steady_queue.Ready.Bound.{ClaimsWithin, claim-ClaimsWithin}
use steady_queue.Worker.{
  Pool, new_pool, increment, decrement, post, ended, idle_limit, post_all, posting, poll,
}

-- The counter is the number of threads that no posted execution has.
abbrev pub Counts : Pool → Type 0
Counts pool = (n : ℕ) × ((pool.available_threads ≡ pos n) × (n + length pool.posted ≡ pool.size))

-- A worker's steps. The database is another one at each poll, since others work on it too.
module _ (env : Env) (queues : List String) (process_id : Option ℕ) (polling_interval : ℕ) where
  pub data Step (pool : Pool) : Pool → Type 0 where
    polls : (db : Db) → Step pool (poll env queues process_id polling_interval pool db).0.1
    ends :
        (before after : List ClaimedExecution) (c : ClaimedExecution)
        → pool.posted ≡ before ++ c ∷ after
        → Step pool (ended (before ++ after) pool)

  pub data Reach (start : Pool) : Pool → Type 0 where
    here : Reach start start
    next : {pool after : Pool} → Reach start pool → Step pool after → Reach start after

every_claim : ClaimedExecution → Bool
every_claim c = true

post_all-Counts :
    (cs : List ClaimedExecution) (pool : Pool) (n : ℕ)
    → pool.available_threads ≡ pos n
    → n + length pool.posted ≡ pool.size
    → length cs ≤ n
    → Counts (post_all cs pool)
unfolding post_all post decrement
post_all-Counts [] pool n e sum le = (n, (e, sum))
post_all-Counts (c ∷ cs) pool zero e sum le = absurd (omega arith)
post_all-Counts (c ∷ cs) pool (suc n) e sum le =
    post_all-Counts cs (post c pool) n (rw e refl)
      (omega (arith, length-append every_claim pool.posted (c ∷ []))) (omega arith)

length-claim :
    (env : Env) (queues : List String) (limit : ℕ) (process_id : Option ℕ) (db : Db)
    (cs : List ClaimedExecution)
    → (claim env queues limit process_id db).0 ≡ ok cs
    → length cs ≤ limit
unfolding claim
length-claim env queues limit none db cs e = ground arith
length-claim env queues limit (some p) db cs e =
    (subst (ClaimsWithin limit p) e (claim-ClaimsWithin env queues limit p db)).0

posting-Counts :
    (polling_interval : ℕ) (r : Result (List ClaimedExecution)) (pool : Pool)
    → Counts pool
    → ((cs : List ClaimedExecution) → r ≡ ok cs → length cs ≤ idle_limit pool)
    → Counts (posting polling_interval r pool).1
unfolding posting idle_limit
posting-Counts polling_interval (err e) pool counts within = counts
posting-Counts polling_interval (ok cs) pool (n, (e, sum)) within =
    post_all-Counts cs pool n e sum (rw e at (within cs refl))

module _ (env : Env) (queues : List String) (process_id : Option ℕ) (polling_interval : ℕ) where
  Step-Counts :
      {pool after : Pool}
      → Step env queues process_id polling_interval pool after
      → Counts pool
      → Counts after
  unfolding poll ended increment
  Step-Counts {pool} (polls db) counts =
      posting-Counts polling_interval (claim env queues (idle_limit pool) process_id db).0 pool
        counts (length-claim env queues (idle_limit pool) process_id db)
  Step-Counts {pool} (ends before after c e) (n, (available, sum)) = (
    suc n,
    (
      rw available refl,
      omega (
        arith,
        length-append every_claim before (c ∷ after),
        length-append every_claim before after,
        ap length e,
      ),
    ),
  )

  Reach-Counts :
      (size : ℕ) {pool : Pool}
      → Reach env queues process_id polling_interval (new_pool size) pool
      → Counts pool
  Reach-Counts size here = (size, (refl, omega arith))
  Reach-Counts size (next r step) = Step-Counts step (Reach-Counts size r)

  -- From a new pool on, however a worker's polls and the ends of its executions follow one another,
  -- the counter of the pool is the number of its threads less the number of executions that are
  -- posted and have not ended. So it never falls below 0, and no more executions are posted than
  -- there are threads.
  pub Reach-capacity :
      (size : ℕ) {pool : Pool}
      → Reach env queues process_id polling_interval (new_pool size) pool
      → Counts pool × (length pool.posted ≤ pool.size)
  Reach-capacity size r = let counts = Reach-Counts size r in (counts, omega (arith, counts.1.1))
