-- ===== src/Ready/Lock.antt =====
-- ready_execution.py: what locking a list of candidates does to the tables.
use steady_queue.Prelude.{
  ℕ, ◌≡◌, refl, sym, subst, ap, Bool, true, false, ◌&&◌, ◌||◌, not, List, [], ◌∷◌, ◌++◌, map, arith,
  ◌==◌, any, elem, filter, All, All-map, Bool-cases, inl, inr,
}
use steady_queue.Db.{Db, ReadyExecution, ClaimedExecution, has_claimed}
use steady_queue.Action.{ok, err, integrity_error}
use steady_queue.Claimed.{claiming, claimed_by, new_claim, repeated}
use steady_queue.Ready.{delete_ready, job_ids, claimed_ids, lock_candidates}

pub elem_self : (rows : List ReadyExecution) → All (λ r. elem r.job_id (job_ids rows) ≡ true) rows
elem_self [] = tt
elem_self (r ∷ rs) = (ground arith, All-map rs (λ x h. ground arith) (elem_self rs))

filter-All {ℓ} :
    {A : Type ℓ} (p : A → Bool) (xs : List A) → All (λ x. p x ≡ true) xs → filter p xs ≡ xs
filter-All p [] h = refl
filter-All p (x ∷ xs) h = ground (arith, filter-All p xs)

filter-append {ℓ} :
    {A : Type ℓ} (p : A → Bool) (xs ys : List A) → filter p (xs ++ ys) ≡ filter p xs ++ filter p ys
filter-append p [] ys = refl
filter-append p (x ∷ xs) ys = ground (arith, filter-append p xs ys)

claimed_ids-map : (p : ℕ) (is : List ℕ) → claimed_ids (map (new_claim p) is) ≡ is
claimed_ids-map p [] = refl
claimed_ids-map p (i ∷ is) = ap (λ l. i ∷ l) (claimed_ids-map p is)

-- A new claim of a listed job passes the filter of `claiming`.
module _ (p : ℕ) (listed : List ℕ) where
  abbrev mine : ClaimedExecution → Bool
  mine c = elem c.job_id listed && claimed_by p c

  new_claims-mine :
      (is : List ℕ)
      → All (λ i. elem i listed ≡ true) is
      → filter mine (map (new_claim p) is) ≡ map (new_claim p) is
  unfolding claimed_by
  new_claims-mine [] h = refl
  new_claims-mine (i ∷ is) h = ground (arith, new_claims-mine is)

elem_of_rows : (rows : List ReadyExecution) → All (λ i. elem i (job_ids rows) ≡ true) (job_ids rows)
elem_of_rows rows = go (λ i. elem i (job_ids rows)) rows (elem_self rows)
  where
    go :
        (q : ℕ → Bool) (xs : List ReadyExecution)
        → All (λ r. q r.job_id ≡ true) xs
        → All (λ i. q i ≡ true) (job_ids xs)
    go q [] h = tt
    go q (x ∷ xs) h = (h.0, go q xs h.1)

any-false : (q : ℕ → Bool) (x : ℕ) (is : List ℕ) → any q is ≡ false → q x ≡ true → elem x is ≡ false
any-false q x [] h hit = refl
any-false q x (i ∷ is) h hit = elim (Bool-cases (i == x)) [
  | inl same ↦ let e : i ≡ x = ground arith in cc (hit, any_head q x is (rw e at h))
  | inr other ↦ rw other (any-false q x is (any_tail q i is h) hit)
]
  where
    any_head : (q : ℕ → Bool) (x : ℕ) (is : List ℕ) → any q (x ∷ is) ≡ false → q x ≡ false
    any_head q x is h = ground arith

    any_tail : (q : ℕ → Bool) (x : ℕ) (is : List ℕ) → any q (x ∷ is) ≡ false → any q is ≡ false
    any_tail q x is h = ground arith

has_claimed_self : (db : Db) → All (λ c. has_claimed db c.job_id ≡ true) db.claimed
unfolding has_claimed
has_claimed_self db = self db.claimed
  where
    self :
        (rows : List ClaimedExecution) → All (λ c. any (λ r. r.job_id == c.job_id) rows ≡ true) rows
    self [] = tt
    self (r ∷ rs) = (ground arith, All-map rs (λ x h. ground arith) (self rs))

-- No row that was claimed before is of a listed job.
old_claims-none :
    (p : ℕ) (listed : List ℕ) (q : ℕ → Bool) (old : List ClaimedExecution)
    → any q listed ≡ false
    → All (λ c. q c.job_id ≡ true) old
    → filter (mine p listed) old ≡ []
old_claims-none p listed q [] h self = refl
old_claims-none p listed q (c ∷ cs) h self =
    let out : elem c.job_id listed ≡ false = any-false q c.job_id listed h self.0 in
    rw out (old_claims-none p listed q cs h self.1)

module _ (p : ℕ) (rows : List ReadyExecution) (db : Db) where
  -- The database after the candidates have been locked.
  abbrev pub locked_db : Db
  locked_db = record db {
    claimed = db.claimed ++ map (new_claim p) (job_ids rows);
    ready = filter (λ r. not (elem r.job_id (job_ids rows))) db.ready;
  }

  abbrev pub refused : Bool
  refused = any (has_claimed db) (job_ids rows) || repeated (job_ids rows)

  claiming_lem :
      refused ≡ false
      → claiming (job_ids rows) p db ≡ (
        ok (map (new_claim p) (job_ids rows)),
        record db { claimed = db.claimed ++ map (new_claim p) (job_ids rows) },
      )
  unfolding claiming
  claiming_lem h =
      let free : any (has_claimed db) (job_ids rows) ≡ false = ground arith in
      let once : repeated (job_ids rows) ≡ false = ground arith in
      rw (
        free,
        once,
        filter-append (mine p (job_ids rows)) db.claimed (map (new_claim p) (job_ids rows)),
        old_claims-none p (job_ids rows) (has_claimed db) db.claimed free (has_claimed_self db),
        new_claims-mine p (job_ids rows) (job_ids rows) (elem_of_rows rows),
      )

  claiming-refused : refused ≡ true → claiming (job_ids rows) p db ≡ (err integrity_error, db)
  unfolding claiming
  claiming-refused h = ground arith

module _ (p : ℕ) (r : ReadyExecution) (rs : List ReadyExecution) (db : Db) where
  abbrev candidates : List ReadyExecution
  candidates = r ∷ rs

  all_deleted :
      filter (λ e. elem e.job_id (claimed_ids (map (new_claim p) (job_ids candidates)))) candidates
      ≡ candidates
  all_deleted =
      subst (λ l. filter (λ e. elem e.job_id l) candidates ≡ candidates)
        (sym (claimed_ids-map p (job_ids candidates)))
        (filter-All (λ e. elem e.job_id (job_ids candidates)) candidates (elem_self candidates))

  -- Where no candidate is claimed already and none is listed twice, all of them are claimed for the
  -- process and leave the ready table.
  pub lock_candidates_lem :
      refused p candidates db ≡ false
      → lock_candidates p candidates db
        ≡ (ok (map (new_claim p) (job_ids candidates)), locked_db p candidates db)
  unfolding lock_candidates delete_ready
  lock_candidates_lem h = rw (claiming_lem p candidates db h) (rw all_deleted)

  pub lock_candidates-refused :
      refused p candidates db ≡ true → lock_candidates p candidates db ≡ (err integrity_error, db)
  unfolding lock_candidates
  lock_candidates-refused h = rw (claiming-refused p candidates db h)
