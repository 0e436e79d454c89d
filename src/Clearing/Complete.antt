-- ===== src/Clearing/Complete.antt =====
-- clearable.py: the loop ends, and then no job is left to clear.
use Prim.{absurd}
use steady_queue.Prelude.{
  ℕ, zero, suc, ◌+◌, ◌≤◌, ◌<◌, ◌≡◌, refl, ap, sym, subst, Bool, true, false, not, ◌&&◌, some, List,
  [], ◌∷◌, map, arith, ◌==◌, ltb, elem, take, filter, count_if, count_if-filter-le,
  count_if-unlisted, Bool-cases, inl, inr,
}
use steady_queue.Db.{Db, Job, delete_jobs}
use steady_queue.Clearing.{Filter, clearable, next_ids, deleted_rows, clear_finished_in_batches}

abbrev pub left : Filter → Db → ℕ
left f db = count_if (clearable f) db.jobs

-- A batch of at least one takes a job if there is one.
module _ (f : Filter) where
  taken : ℕ → List Job → List ℕ
  taken n js = map (λ j. j.id) (take n (filter (clearable f) js))

  taken_kept :
      (n : ℕ) (j : Job) (js : List Job) → clearable f j ≡ false → taken n (j ∷ js) ≡ taken n js
  unfolding taken
  taken_kept n j js kept = rw kept refl

  taken_first :
      (n : ℕ) (j : Job) (js : List Job)
      → clearable f j ≡ true
      → elem j.id (taken (suc n) (j ∷ js)) ≡ true
  unfolding taken
  taken_first n j js clear = ground (arith, clear)

  first_taken :
      (n : ℕ) (js : List Job)
      → 0 < count_if (clearable f) js
      → 0 < count_if (λ j. clearable f j && elem j.id (taken (suc n) js)) js
  first_taken n [] some_left = absurd (omega arith)
  first_taken n (j ∷ js) some_left = elim (Bool-cases (clearable f j)) [
    | inl clear ↦ ground (arith, taken_first n j js clear)
    | inr kept ↦
        let later =
          subst (λ l. 0 < count_if (λ x. clearable f x && elem x.id l) js)
            (sym (taken_kept (suc n) j js kept)) (first_taken n js (ground (arith, kept))) in
        rw kept (omega (arith, later))
  ]

  count_if-both :
      (q : Job → Bool) (js : List Job)
      → count_if (clearable f) (filter (λ j. not (q j)) js)
          + count_if (λ j. clearable f j && q j) js
        ≡ count_if (clearable f) js
  count_if-both q [] = refl
  count_if-both q (j ∷ js) = ground (arith, count_if-both q js)

  count_if-both-le :
      (q : Job → Bool) (js : List Job) → count_if (λ j. clearable f j && q j) js ≤ count_if q js
  count_if-both-le q [] = omega arith
  count_if-both-le q (j ∷ js) = ground (arith, count_if-both-le q js)

  deleted_rows-none : (db : Db) → deleted_rows [] db ≡ 0
  unfolding deleted_rows
  deleted_rows-none db = omega (
    arith,
    count_if-unlisted (λ j. j.id) db.jobs,
    count_if-unlisted (λ r. r.job_id) db.ready,
    count_if-unlisted (λ r. r.job_id) db.claimed,
    count_if-unlisted (λ r. r.job_id) db.failed,
    count_if-unlisted (λ r. r.job_id) db.scheduled,
    count_if-unlisted (λ r. r.job_id) db.blocked,
  )

  module _ (n : ℕ) (db : Db) where
    abbrev gone : List ℕ
    gone = taken (suc n) db.jobs

    none_gone : (js : List Job) → count_if (clearable f) js ≡ 0 → taken (suc n) js ≡ []
    unfolding taken
    none_gone [] none_left = refl
    none_gone (j ∷ js) none_left = ground (arith, none_gone js)

    left-delete : 0 < left f db → left f (delete_jobs (λ i. elem i gone) db) < left f db
    unfolding delete_jobs
    left-delete some_left =
        omega (arith, count_if-both (λ j. elem j.id gone) db.jobs, first_taken n db.jobs some_left)

    left-done : (deleted_rows gone db == 0) ≡ true → left f (delete_jobs (λ i. elem i gone) db) ≡ 0
    unfolding deleted_rows delete_jobs
    left-done stopped = elim (Bool-cases (ltb 0 (left f db))) [
      | inl more ↦
          absurd
            (ground (arith, first_taken n db.jobs, count_if-both-le (λ j. elem j.id gone) db.jobs))
      | inr none_left ↦
          ground (arith, count_if-filter-le (clearable f) (λ j. not (elem j.id gone)) db.jobs)
    ]

    some_left : (deleted_rows gone db == 0) ≡ false → 0 < left f db
    some_left going = elim (Bool-cases (ltb 0 (left f db))) [
      | inl more ↦ ground arith
      | inr none_left ↦ absurd (
          cc (
            ap (λ l. deleted_rows l db == 0) (none_gone db.jobs (ground arith)),
            ap (λ m. m == 0) (deleted_rows-none db),
            going,
          ))
    ]

  -- With batches of at least one job, more rounds than there are jobs to clear are enough for the
  -- loop to end, and the database that it leaves has no job to clear.
  pub clear_finished_in_batches-left :
      (n fuel : ℕ) (db : Db)
      → left f db < fuel
      → (after : Db) × ((clear_finished_in_batches fuel f (suc n) db ≡ some after)
          × (left f after ≡ 0))
  unfolding clear_finished_in_batches next_ids taken
  clear_finished_in_batches-left n zero db enough = absurd (omega arith)
  clear_finished_in_batches-left n (suc fuel) db enough =
      elim (Bool-cases (deleted_rows (gone n db) db == 0)) [
        | inl stopped ↦
            (delete_jobs (λ i. elem i (gone n db)) db, (rw stopped refl, left-done n db stopped))
        | inr going ↦
            let (after, (e, done)) =
              clear_finished_in_batches-left n fuel (delete_jobs (λ i. elem i (gone n db)) db)
                (omega (arith, left-delete n db (some_left n db going))) in
            (after, (rw going e, done))
      ]
