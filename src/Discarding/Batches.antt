-- ===== src/Discarding/Batches.antt =====
-- execution.py: discarding in batches is discarding at once.
use Prim.{absurd}
use steady_queue.Prelude.{
  ℕ, zero, suc, ◌+◌, ◌≤◌, ◌<◌, ◌≡◌, ◌∙◌, refl, ap, fun_ext, Bool, true, false, not, ◌&&◌, ◌||◌,
  some, List, [], ◌∷◌, map, arith, ◌==◌, ltb, if◌then◌else◌, filter, count_if, elem, take, sort_by,
  count_if-take-le, count_if-sort_by, count_if-unlisted, count_if-filter-le, length, length-sort_by,
  length-filter, Bool-cases, inl, inr,
}
use steady_queue.Db.{Db, FailedExecution, delete_jobs}
use steady_queue.Limits.Rows.{elem-map, count_if-filter_key}
use steady_queue.Discarding.{by_job, discard_jobs, to_discard, discard_rounds, discard_in_batches}

-- Every failed execution is that of a job, and no job is there twice, nor has two of them.
pub record IsConsistent (db : Db) : Type 0 where
  pub has_job :
      (i : ℕ) → count_if (λ f. f.job_id == i) db.failed ≤ count_if (λ j. j.id == i) db.jobs
  pub once : (i : ℕ) → count_if (λ j. j.id == i) db.jobs ≤ 1

module _ {A : Type 0} (key : A → ℕ) where
  count_if-listed :
      (k : ℕ) (ks : List ℕ) (xs : List A)
      → count_if (λ x. elem (key x) (k ∷ ks)) xs
        ≡ (if elem k ks then 0 else count_if (λ x. key x == k) xs)
          + count_if (λ x. elem (key x) ks) xs
  count_if-listed k ks [] = ground arith
  count_if-listed k ks (x ∷ xs) = elim (Bool-cases (key x == k)) [
    | inl same ↦ let e : key x ≡ k = ground arith in rw e (ground (arith, count_if-listed k ks xs))
    | inr other ↦ ground (arith, count_if-listed k ks xs)
  ]

  fused :
      (a b c : ℕ → Bool) (xs : List A)
      → ((i : ℕ) → c i ≡ (b i || a i))
      → filter (λ x. not (a (key x))) (filter (λ x. not (b (key x))) xs)
        ≡ filter (λ x. not (c (key x))) xs
  fused a b c [] either = refl
  fused a b c (x ∷ xs) either = ground (arith, either (key x), fused a b c xs either)

-- Tables that agree on the rows of listed keys have as many of them.
count_if-same :
    {A B : Type 0} (key : A → ℕ) (key' : B → ℕ) (ks : List ℕ) (xs : List A) (ys : List B)
    → ((i : ℕ) → elem i ks ≡ true → count_if (λ x. key x == i) xs ≡ count_if (λ y. key' y == i) ys)
    → count_if (λ x. elem (key x) ks) xs ≡ count_if (λ y. elem (key' y) ks) ys
count_if-same key key' [] xs ys same =
    omega (arith, count_if-unlisted key xs, count_if-unlisted key' ys)
count_if-same key key' (k ∷ ks) xs ys same = ground (
  arith,
  count_if-listed key k ks xs,
  count_if-listed key' k ks ys,
  same k (ground arith),
  count_if-same key key' ks xs ys (λ i h. same i (ground (arith, h))),
)

fused_deletions :
    (a b c : ℕ → Bool) (db : Db)
    → ((i : ℕ) → c i ≡ (b i || a i))
    → delete_jobs a (delete_jobs b db) ≡ delete_jobs c db
unfolding delete_jobs
fused_deletions a b c db either =
    rw
      (
        fused (λ j. j.id) a b c db.jobs either,
        fused (λ r. r.job_id) a b c db.ready either,
        fused (λ r. r.job_id) a b c db.claimed either,
        fused (λ r. r.job_id) a b c db.failed either,
        fused (λ r. r.job_id) a b c db.scheduled either,
        fused (λ r. r.job_id) a b c db.blocked either,
      )
      refl

module _ (selected : FailedExecution → Bool) where
  abbrev chosen : Db → List FailedExecution
  chosen db = filter selected db.failed

  abbrev chosen_ids : Db → List ℕ
  chosen_ids db = map (λ f. f.job_id) (chosen db)

  -- What is chosen is in the batch, or is left by it.
  chosen_after :
      (q : ℕ → Bool) (i : ℕ) (rows : List FailedExecution)
      → elem i (map (λ f. f.job_id) (filter selected rows)) ≡ (
          (q i && elem i (map (λ f. f.job_id) (filter selected rows)))
          || elem i (map (λ f. f.job_id) (filter selected (filter (λ f. not (q f.job_id)) rows))))
  chosen_after q i [] = ground arith
  chosen_after q i (f ∷ fs) = elim (Bool-cases (f.job_id == i)) [
    | inl same ↦ let e : f.job_id ≡ i = ground arith in ground (arith, ap q e, chosen_after q i fs)
    | inr other ↦ ground (arith, chosen_after q i fs)
  ]

  count_if-left :
      (q : ℕ → Bool) (rows : List FailedExecution)
      → count_if (λ f. q f.job_id) (filter selected rows)
          + count_if selected (filter (λ f. not (q f.job_id)) rows)
        ≡ count_if selected rows
  count_if-left q [] = refl
  count_if-left q (f ∷ fs) = ground (arith, count_if-left q fs)

  chosen-le :
      (i : ℕ) (rows : List FailedExecution)
      → count_if (λ f. f.job_id == i) (filter selected rows) ≤ count_if (λ f. f.job_id == i) rows
  chosen-le i rows = count_if-filter-le (λ f. f.job_id == i) selected rows

  module _ (n : ℕ) (db : Db) where
    abbrev batch : List FailedExecution
    batch = take (suc n) (sort_by by_job (chosen db))

    abbrev gone : ℕ → Bool
    gone i = elem i (map (λ f. f.job_id) batch)

    gone-chosen : (i : ℕ) → gone i ≡ true → 0 < count_if (λ f. f.job_id == i) (chosen db)
    gone-chosen i h = ground (
      arith,
      elem-map (λ f. f.job_id) i batch,
      count_if-take-le (λ f. f.job_id == i) (suc n) (sort_by by_job (chosen db)),
      count_if-sort_by by_job (λ f. f.job_id == i) (chosen db),
      h,
    )

    gone-listed : (i : ℕ) → gone i ≡ true → elem i (chosen_ids db) ≡ true
    gone-listed i h = ground (arith, elem-map (λ f. f.job_id) i (chosen db), gone-chosen i h)

    -- The jobs that a batch discards are as many as the failed executions that it takes.
    discarded-lem :
        IsConsistent db
        → count_if (λ j. gone j.id) db.jobs ≡ count_if (λ f. gone f.job_id) (chosen db)
    discarded-lem ok =
        count_if-same (λ j. j.id) (λ f. f.job_id) (map (λ f. f.job_id) batch) db.jobs (chosen db)
          (λ i h. omega (arith, ok.has_job i, ok.once i, chosen-le i db.failed, gone-chosen i h))

    batch_taken :
        (rows : List FailedExecution)
        → 0 < length rows
        → 0 < count_if (λ f. elem f.job_id (map (λ g. g.job_id) (take (suc n) rows))) rows
    batch_taken [] h = absurd (omega (arith, h))
    batch_taken (f ∷ fs) h =
        let same : (f.job_id == f.job_id) ≡ true = ground arith in ground (arith, same)

    some_taken : 0 < count_if selected db.failed → 0 < count_if (λ f. gone f.job_id) (chosen db)
    some_taken h = omega (
      arith,
      batch_taken (sort_by by_job (chosen db))
          (omega (arith, length-sort_by by_job (chosen db), length-filter selected db.failed, h)),
      count_if-sort_by by_job (λ f. gone f.job_id) (chosen db),
    )

    left-IsConsistent : IsConsistent db → IsConsistent (delete_jobs gone db)
    unfolding delete_jobs
    left-IsConsistent ok = record {
      has_job = λ i. ground (
        arith,
        count_if-filter_key (λ f. f.job_id) (λ k. not (gone k)) i db.failed,
        count_if-filter_key (λ j. j.id) (λ k. not (gone k)) i db.jobs,
        ok.has_job i,
      );
      once = λ i.
          ground (arith, count_if-filter_key (λ j. j.id) (λ k. not (gone k)) i db.jobs, ok.once i);
    }

    chosen_ids-left :
        (i : ℕ) → elem i (chosen_ids db) ≡ (gone i || elem i (chosen_ids (delete_jobs gone db)))
    unfolding delete_jobs
    chosen_ids-left i = ground (arith, chosen_after gone i db.failed, gone-listed i)

    counted_left :
        IsConsistent db
        → count_if (λ j. gone j.id) db.jobs + count_if selected (delete_jobs gone db).failed
          ≡ count_if selected db.failed
    unfolding delete_jobs
    counted_left ok = omega (arith, discarded-lem ok, count_if-left gone db.failed)

  none_chosen :
      (i : ℕ) (rows : List FailedExecution)
      → count_if selected rows ≡ 0
      → elem i (map (λ f. f.job_id) (filter selected rows)) ≡ false
  none_chosen i [] h = refl
  none_chosen i (f ∷ fs) h = ground (arith, none_chosen i fs)

  rounds_lem :
      (n fuel counted total : ℕ) (db : Db)
      → IsConsistent db
      → total + count_if selected db.failed ≡ counted
      → count_if selected db.failed < fuel
      → discard_rounds selected (suc n) fuel counted total db
        ≡ some (counted, delete_jobs (λ i. elem i (chosen_ids db)) db)
  unfolding discard_rounds to_discard discard_jobs
  rounds_lem n zero counted total db ok split enough = absurd (omega (arith, enough))
  rounds_lem n (suc fuel) counted total db ok split enough =
      elim (Bool-cases (counted == total + count_if (λ j. gone n db j.id) db.jobs)) [
        | inl last ↦
            rw (last, discard_rounds)
              (ap (λ m. some (m, delete_jobs (gone n db) db)) (total_counted last)
                ∙ ap (λ p. some (counted, delete_jobs p db)) (fun_ext (λ i. all_gone last i)))
        | inr more ↦
            rw (more, going more, discard_rounds)
              (rounds_lem n fuel counted (total + count_if (λ j. gone n db j.id) db.jobs)
                  (delete_jobs (gone n db) db) (left-IsConsistent n db ok)
                  (omega (arith, counted_left n db ok, split))
                  (ground (arith, counted_left n db ok, going more, enough))
                ∙ ap (λ x. some (counted, x))
                    (fused_deletions (λ i. elem i (chosen_ids (delete_jobs (gone n db) db)))
                      (gone n db) (λ i. elem i (chosen_ids db)) db (chosen_ids-left n db)))
      ]
    where
      total_counted :
          (counted == total + count_if (λ j. gone n db j.id) db.jobs) ≡ true
          → total + count_if (λ j. gone n db j.id) db.jobs ≡ counted
      total_counted last = ground (arith, last)

      all_gone :
          (counted == total + count_if (λ j. gone n db j.id) db.jobs) ≡ true
          → (i : ℕ) → gone n db i ≡ elem i (chosen_ids db)
      all_gone last i = ground (
        arith,
        chosen_ids-left n db i,
        none_chosen i (delete_jobs (gone n db) db).failed
            (omega (arith, counted_left n db ok, total_counted last, split)),
      )

      going :
          (counted == total + count_if (λ j. gone n db j.id) db.jobs) ≡ false
          → (count_if (λ j. gone n db j.id) db.jobs == 0) ≡ false
      going more = elim (Bool-cases (ltb 0 (count_if selected db.failed))) [
        | inl some_left ↦
            ground (arith, some_taken n db (ground (arith, some_left)), discarded-lem n db ok)
        | inr none_left ↦ absurd (ground (arith, more, none_left, counted_left n db ok, split))
      ]

  -- With batches of at least one job, and more rounds than selected executions, discarding in
  -- batches ends. It comes to one deletion of the jobs of all selected executions, and gives their
  -- number, where every failed execution has a job, and no job is there twice.
  pub discard_in_batches-at_once :
      (n fuel : ℕ) (db : Db)
      → IsConsistent db
      → count_if selected db.failed < fuel
      → discard_in_batches selected (suc n) fuel db
        ≡ some (
          count_if selected db.failed,
          delete_jobs (λ i. elem i (map (λ f. f.job_id) (filter selected db.failed))) db,
        )
  unfolding discard_in_batches
  discard_in_batches-at_once n fuel db ok enough =
      rounds_lem n fuel (count_if selected db.failed) 0 db ok (omega arith) enough
