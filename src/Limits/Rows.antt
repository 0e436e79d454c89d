-- ===== src/Limits/Rows.antt =====
-- Lists of jobs and of the rows that name them.
use steady_queue.Prelude.{
  ℕ, ◌≤◌, ◌<◌, ◌≡◌, refl, Bool, true, false, some, List, [], ◌∷◌, map, arith, ◌==◌, ltb, elem,
  filter, if◌then◌else◌, count_if, count_if-pos_of_find?, All, All-map, Bool-cases, inl, inr,
}
use steady_queue.Db.{Job, get_job}
use steady_queue.Executable.{ready_of}

module _ {A : Type 0} (key : A → ℕ) where
  pub elem-map : (i : ℕ) (xs : List A) → elem i (map key xs) ≡ ltb 0 (count_if (λ x. key x == i) xs)
  elem-map i [] = refl
  elem-map i (x ∷ xs) = ground (arith, elem-map i xs)

  -- A test of the key keeps all rows of a key or none.
  pub count_if-filter_key :
      (g : ℕ → Bool) (i : ℕ) (xs : List A)
      → count_if (λ x. key x == i) (filter (λ x. g (key x)) xs)
        ≡ (if g i then count_if (λ x. key x == i) xs else 0)
  count_if-filter_key g i [] = ground arith
  count_if-filter_key g i (x ∷ xs) = elim (Bool-cases (key x == i)) [
    | inl same ↦
        let e : key x ≡ i = ground arith in rw e (ground (arith, count_if-filter_key g i xs))
    | inr other ↦ ground (arith, count_if-filter_key g i xs)
  ]

pub All-filter_self :
    {A : Type 0} (q : A → Bool) (xs : List A) → All (λ x. q x ≡ true) (filter q xs)
All-filter_self q [] = tt
All-filter_self q (x ∷ xs) = elim (Bool-cases (q x)) [
  | inl kept ↦ rw kept (kept, All-filter_self q xs)
  | inr dropped ↦ rw dropped (All-filter_self q xs)
]

-- With unique ids, looking up the id of a job finds that job.
pub get_job-All :
    (jobs : List Job)
    → ((i : ℕ) → count_if (λ j. j.id == i) jobs ≤ 1)
    → All (λ j. get_job j.id jobs ≡ some j) jobs
unfolding get_job
get_job-All [] once = tt
get_job-All (j ∷ js) once = (
  ground arith,
  All-map js
      (λ k e.
        let there : 0 < count_if (λ j. j.id == k.id) js =
          count_if-pos_of_find? (λ j. j.id == k.id) (λ j. j.id == k.id) js k e (ground arith) in
        let ne : (j.id == k.id) ≡ false = ground (arith, once k.id) in rw ne e)
      (get_job-All js (λ i. ground (arith, once i))),
)

pub count_if-ready_of :
    (p : ℕ → Bool) (jobs : List Job)
    → count_if (λ r. p r.job_id) (map ready_of jobs) ≡ count_if (λ j. p j.id) jobs
count_if-ready_of p [] = refl
count_if-ready_of p (j ∷ js) = ground (arith, count_if-ready_of p js)

pub count_if-none :
    {A : Type 0} (p : A → Bool) (xs : List A) → All (λ x. p x ≡ false) xs → count_if p xs ≡ 0
count_if-none p [] none_of = refl
count_if-none p (x ∷ xs) none_of = ground (arith, none_of.0, count_if-none p xs none_of.1)
