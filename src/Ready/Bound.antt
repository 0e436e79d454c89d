-- ===== src/Ready/Bound.antt =====
-- ready_execution.py: a worker claims no more than its limit, all for its process, the first ones
-- in order.
use steady_queue.Prelude.{
  ℕ, zero, suc, ◌-◌, ◌≤◌, String, ◌≡◌, refl, ap, true, ◌&&◌, not, some, List, [], ◌∷◌, ◌++◌, map,
  arith, filter, sort_by, length, length-append, length-take, All, All-append, Bool-cases, inl, inr,
}
use steady_queue.Db.{Db, ReadyExecution, ClaimedExecution}
use steady_queue.Env.{Env}
use steady_queue.Action.{Result, ok, err, ◌>>=◌, resume, settle, pure}
use steady_queue.Claimed.{new_claim}
use steady_queue.QueueSelector.{Relation, in_relation, scoped_relations}
use steady_queue.Ready.{
  job_ids, ready_order, lock_candidates, select_candidates, select_and_lock, claim_from,
  claim_scoped, claim,
}
use steady_queue.Ready.Lock.{refused, lock_candidates_lem, lock_candidates-refused}

-- At most `limit` rows, all of process `p`; an exception is no claim.
abbrev pub ClaimsWithin : (limit p : ℕ) → Result (List ClaimedExecution) → Type 0
ClaimsWithin limit p (ok rows) = (length rows ≤ limit) × All (λ c. c.process_id ≡ some p) rows
ClaimsWithin limit p (err e) = Unit

length-new_claims :
    (p : ℕ) (rows : List ReadyExecution) → length (map (new_claim p) (job_ids rows)) ≡ length rows
length-new_claims p [] = refl
length-new_claims p (r ∷ rs) = ap suc (length-new_claims p rs)

new_claims-process :
    (p : ℕ) (rows : List ReadyExecution)
    → All (λ c. c.process_id ≡ some p) (map (new_claim p) (job_ids rows))
new_claims-process p [] = tt
new_claims-process p (r ∷ rs) = (refl, new_claims-process p rs)

lock_candidates-within :
    (limit p : ℕ) (rows : List ReadyExecution) (db : Db)
    → length rows ≤ limit
    → ClaimsWithin limit p (lock_candidates p rows db).0
unfolding lock_candidates
lock_candidates-within limit p [] db le = (omega arith, tt)
lock_candidates-within limit p (r ∷ rs) db le = elim (Bool-cases (refused p (r ∷ rs) db)) [
  | inl taken ↦ rw (lock_candidates-refused p r rs db taken) tt
  | inr free ↦
      rw (lock_candidates_lem p r rs db free)
        (omega (arith, length-new_claims p (r ∷ rs)), new_claims-process p (r ∷ rs))
]

settle-within :
    (limit p : ℕ) (before : Db) (r : Result (List ClaimedExecution)) (db : Db)
    → ClaimsWithin limit p r
    → ClaimsWithin limit p (settle before r db).0
settle-within limit p before (ok a) db h = h
settle-within limit p before (err e) db h = h

module _ (env : Env) where
  length-select_candidates :
      (q : Relation) (limit : ℕ) (db : Db) → length (select_candidates env q limit db) ≤ limit
  unfolding select_candidates
  length-select_candidates q limit db = omega (
    arith,
    length-take limit (
        sort_by ready_order
          (filter (λ r. in_relation q r && not (env.locked_ready r.job_id)) db.ready)),
  )

  select_and_lock-within :
      (q : Relation) (p limit : ℕ) (db : Db)
      → ClaimsWithin limit p (select_and_lock env q p limit db).0
  unfolding select_and_lock
  select_and_lock-within q p zero db = (omega arith, tt)
  select_and_lock-within q p (suc n) db =
      let rows = select_candidates env q (suc n) db in
      settle-within (suc n) p db (lock_candidates p rows db).0 (lock_candidates p rows db).1
        (lock_candidates-within (suc n) p rows db (length-select_candidates q (suc n) db))

  joined :
      (limit p : ℕ) (locked : List ClaimedExecution)
      → ClaimsWithin limit p (ok locked)
      → (r : Result (List ClaimedExecution)) (db : Db) → ClaimsWithin (limit - length locked) p r
      → ClaimsWithin limit p (resume (λ rest. pure (locked ++ rest)) r db).0
  joined limit p locked first (ok rest) db second = (
    omega (arith, first.0, second.0, length-append (λ c. true) locked rest),
    All-append (λ c. c.process_id ≡ some p) locked rest first.1 second.1,
  )
  joined limit p locked first (err e) db second = tt

  claim_from-within :
      (qs : List Relation) (p limit : ℕ) (db : Db)
      → ClaimsWithin limit p (claim_from env qs p limit db).0
  unfolding claim_from
  claim_from-within [] p limit db = (omega arith, tt)
  claim_from-within (q ∷ qs) p limit db =
      go (select_and_lock env q p limit db).0 (select_and_lock env q p limit db).1
        (select_and_lock-within q p limit db) (λ left after. claim_from-within qs p left after)
    where
      go :
          (r : Result (List ClaimedExecution)) (after : Db)
          → ClaimsWithin limit p r
          → ((left : ℕ) (d : Db) → ClaimsWithin left p (claim_from env qs p left d).0)
          → ClaimsWithin limit p
              (resume
                (λ locked.
                  claim_from env qs p (limit - length locked) >>= (λ rest. pure (locked ++ rest)))
                r
                after).0
      go (ok locked) after first later =
          joined limit p locked first (claim_from env qs p (limit - length locked) after).0
            (claim_from env qs p (limit - length locked) after).1
            (later (limit - length locked) after)
      go (err e) after first later = tt

  -- A poll claims at most `limit` executions over all its relations, every one for its process.
  pub claim-ClaimsWithin :
      (queues : List String) (limit p : ℕ) (db : Db)
      → ClaimsWithin limit p (claim env queues limit (some p) db).0
  unfolding claim claim_scoped
  claim-ClaimsWithin queues limit p db = go (scoped_relations queues db.ready db.pauses)
    where
      go : (r : Result (List Relation)) → ClaimsWithin limit p (claim_scoped env r p limit db).0
      go (ok qs) = claim_from-within qs p limit db
      go (err e) = tt
