-- ===== src/Limits/Ids.antt =====
-- The ids of the jobs in the table.
use steady_queue.Prelude.{
  ℕ, suc, ◌≤◌, ◌<◌, ◌≡◌, refl, Bool, List, [], ◌∷◌, ◌++◌, arith, ◌==◌, All, All-append, All-map,
  All-filter, All-update_where, filter, update_where, count_if, count_if-append, count_if-filter-le,
  Bool-cases, inl, inr,
}
use steady_queue.Db.{Job}
use steady_queue.Limits.{IdsBelow}

none_at :
    (n i : ℕ) (jobs : List Job)
    → All (λ j. j.id < n) jobs
    → n ≤ i
    → count_if (λ j. j.id == i) jobs ≡ 0
none_at n i [] below le = refl
none_at n i (j ∷ js) below le = ground (arith, below.0, none_at n i js below.1)

pub IdsBelow-append :
    (n : ℕ) (jobs : List Job) (job : Job)
    → job.id ≡ n
    → IdsBelow n jobs
    → IdsBelow (suc n) (jobs ++ job ∷ [])
IdsBelow-append n jobs job e ids = (
  All-append (λ j. j.id < suc n) jobs (job ∷ []) (All-map jobs (λ j h. omega arith) ids.0)
      (omega (arith, e), tt),
  λ i. elim (Bool-cases (n == i)) [
    | inl same ↦
        ground (arith, count_if-append (λ j. j.id == i) jobs (job ∷ []), none_at n i jobs ids.0, e)
    | inr other ↦ ground (arith, count_if-append (λ j. j.id == i) jobs (job ∷ []), ids.1 i, e)
  ],
)

pub IdsBelow-filter :
    (n : ℕ) (q : Job → Bool) (jobs : List Job) → IdsBelow n jobs → IdsBelow n (filter q jobs)
IdsBelow-filter n q jobs ids = (
  All-filter (λ j. j.id < n) q jobs ids.0,
  λ i. omega (arith, count_if-filter-le (λ j. j.id == i) q jobs, ids.1 i),
)

count_if-update_where :
    (i : ℕ) (q : Job → Bool) (f : Job → Job)
    → ((j : Job) → (f j).id ≡ j.id)
    → (jobs : List Job)
    → count_if (λ j. j.id == i) (update_where q f jobs) ≡ count_if (λ j. j.id == i) jobs
count_if-update_where i q f same [] = refl
count_if-update_where i q f same (j ∷ js) =
    ground (arith, same j, count_if-update_where i q f same js)

pub IdsBelow-update_where :
    (n : ℕ) (q : Job → Bool) (f : Job → Job)
    → ((j : Job) → (f j).id ≡ j.id)
    → (jobs : List Job) → IdsBelow n jobs
    → IdsBelow n (update_where q f jobs)
IdsBelow-update_where n q f same jobs ids = (
  All-update_where (λ j. j.id < n) q f jobs (λ j h. omega (arith, same j)) ids.0,
  λ i. omega (arith, count_if-update_where i q f same jobs, ids.1 i),
)
