-- ===== src/Prelude/Sort.antt =====
-- `order_by` as insertion sort by a Boolean order.
use mathlib.Core.Path.{◌≡◌, refl}
use mathlib.Core.Bool.{Bool, true, false}
use mathlib.Core.Option.{some}
use mathlib.Core.List.{List, [], ◌∷◌}
use Prim.Native.Nat.{suc, ◌+◌, ◌<◌}
use native.Mathlib.Omega.{arith}
use steady_queue.Prelude.Tests.{if◌then◌else◌}
use steady_queue.Prelude.Lists.{length, head?, count_if, All}

module _ {ℓ} {A : Type ℓ} (le : A → A → Bool) where
  abbrev pub insert_by : A → List A → List A
  insert_by x [] = x ∷ []
  insert_by x (y ∷ ys) = if le x y then x ∷ y ∷ ys else y ∷ insert_by x ys

  abbrev pub sort_by : List A → List A
  sort_by [] = []
  sort_by (x ∷ xs) = insert_by x (sort_by xs)

  abbrev pub IsSorted : List A → Type 0
  IsSorted [] = Unit
  IsSorted (x ∷ xs) = All (λ y. le x y ≡ true) xs × IsSorted xs

  count_if-insert_by :
      (p : A → Bool) (x : A) (xs : List A)
      → count_if p (insert_by x xs) ≡ (if p x then 1 else 0) + count_if p xs
  count_if-insert_by p x [] = refl
  count_if-insert_by p x (y ∷ ys) = ground (arith, count_if-insert_by p x ys)

  pub count_if-sort_by : (p : A → Bool) (xs : List A) → count_if p (sort_by xs) ≡ count_if p xs
  count_if-sort_by p [] = refl
  count_if-sort_by p (x ∷ xs) =
      omega (arith, count_if-insert_by p x (sort_by xs), count_if-sort_by p xs)

  length-insert_by : (x : A) (xs : List A) → length (insert_by x xs) ≡ suc (length xs)
  length-insert_by x [] = refl
  length-insert_by x (y ∷ ys) = ground (arith, length-insert_by x ys)

  pub length-sort_by : (xs : List A) → length (sort_by xs) ≡ length xs
  length-sort_by [] = refl
  length-sort_by (x ∷ xs) = omega (arith, length-insert_by x (sort_by xs), length-sort_by xs)

  All-if {κ} :
      (P : A → Type κ) (b : Bool) (xs ys : List A)
      → All P xs
      → All P ys
      → All P (if b then xs else ys)
  All-if P true xs ys h k = h
  All-if P false xs ys h k = k

  pub All-insert_by {κ} :
      (P : A → Type κ) (x : A) (xs : List A) → P x → All P xs → All P (insert_by x xs)
  All-insert_by P x [] px all = (px, tt)
  All-insert_by P x (y ∷ ys) px all =
      All-if P (le x y) (x ∷ y ∷ ys) (y ∷ insert_by x ys) (px, all)
        (all.0, All-insert_by P x ys px all.1)

  pub All-sort_by {κ} : (P : A → Type κ) (xs : List A) → All P xs → All P (sort_by xs)
  All-sort_by P [] all = tt
  All-sort_by P (x ∷ xs) all = All-insert_by P x (sort_by xs) all.0 (All-sort_by P xs all.1)

  -- The first row in order is a row of the table.
  pub count_if-pos_of_first :
      (p : A → Bool) (xs : List A) (x : A)
      → head? (sort_by xs) ≡ some x
      → p x ≡ true
      → 0 < count_if p xs
  count_if-pos_of_first p xs x e hit =
      let pos : 0 < count_if p (sort_by xs) = head_counts (sort_by xs) e in
      omega (arith, count_if-sort_by p xs)
    where
      head_counts : (ys : List A) → head? ys ≡ some x → 0 < count_if p ys
      head_counts [] e' = cc
      head_counts (y ∷ ys) e' =
          let same : y ≡ x = ground arith in let hit' : p y ≡ true = rw same hit in ground arith
