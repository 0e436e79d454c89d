-- ===== src/Prelude/Lists.antt =====
-- Lists as the tables and querysets of the models: tests on rows, slices and counts.
use Prim.Native.Nat.{ℕ, zero, suc, ◌+◌, ◌≤◌, ◌<◌, min}
use mathlib.Core.Path.{◌≡◌, refl, ap, subst}
use mathlib.Core.Bool.{Bool, true, false, ◌&&◌, ◌||◌, not}
use mathlib.Core.Option
use mathlib.Core.Option.{Option, none, some}
use mathlib.Core.List.{List, [], ◌∷◌, ◌++◌}
use native.Mathlib.Omega.{arith}
use mathlib.Core.Logic.{◌≢◌, inl, inr}
use steady_queue.Prelude.Tests.{◌==◌, ltb, if◌then◌else◌, Bool-cases}

module _ {ℓ} {A : Type ℓ} where
  abbrev pub length : List A → ℕ
  length [] = 0
  length (x ∷ xs) = suc (length xs)

  abbrev pub take : ℕ → List A → List A
  take zero xs = []
  take (suc n) [] = []
  take (suc n) (x ∷ xs) = x ∷ take n xs

  abbrev pub head? : List A → Option A
  head? [] = none
  head? (x ∷ xs) = some x

  -- `filter(...)` of a queryset, or a comprehension with a test.
  abbrev pub filter : (A → Bool) → List A → List A
  filter p [] = []
  filter p (x ∷ xs) = let rest = filter p xs in if p x then x ∷ rest else rest

  abbrev pub find? : (A → Bool) → List A → Option A
  find? p [] = none
  find? p (x ∷ xs) = if p x then some x else find? p xs

  abbrev pub any : (A → Bool) → List A → Bool
  any p [] = false
  any p (x ∷ xs) = p x || any p xs

  abbrev pub all : (A → Bool) → List A → Bool
  all p [] = true
  all p (x ∷ xs) = p x && all p xs

  -- The number of rows that pass a test.
  abbrev pub count_if : (A → Bool) → List A → ℕ
  count_if p [] = 0
  count_if p (x ∷ xs) = (if p x then 1 else 0) + count_if p xs

  -- `queryset.filter(p).update(f)`
  abbrev pub update_where : (A → Bool) → (A → A) → List A → List A
  update_where p f [] = []
  update_where p f (x ∷ xs) = (if p x then f x else x) ∷ update_where p f xs

  abbrev pub All {κ} : (A → Type κ) → List A → Type κ
  All P [] = Unit
  All P (x ∷ xs) = P x × All P xs

abbrev pub elem : ℕ → List ℕ → Bool
elem n xs = any (λ m. m == n) xs

module _ {ℓ} {A : Type ℓ} (p : A → Bool) where
  pub count_if-append : (xs ys : List A) → count_if p (xs ++ ys) ≡ count_if p xs + count_if p ys
  count_if-append [] ys = omega arith
  count_if-append (x ∷ xs) ys = omega (arith, count_if-append xs ys)

  pub length-append : (xs ys : List A) → length (xs ++ ys) ≡ length xs + length ys
  length-append [] ys = omega arith
  length-append (x ∷ xs) ys = omega (arith, length-append xs ys)

  pub count_if-le-length : (xs : List A) → count_if p xs ≤ length xs
  count_if-le-length [] = omega arith
  count_if-le-length (x ∷ xs) = ground (arith, count_if-le-length xs)

  pub length-filter : (xs : List A) → length (filter p xs) ≡ count_if p xs
  length-filter [] = refl
  length-filter (x ∷ xs) = ground (arith, length-filter xs)

  pub count_if-take-le : (n : ℕ) (xs : List A) → count_if p (take n xs) ≤ count_if p xs
  count_if-take-le zero xs = omega arith
  count_if-take-le (suc n) [] = omega arith
  count_if-take-le (suc n) (x ∷ xs) = omega (arith, count_if-take-le n xs)

  -- What a filter drops is the rest of the count.
  pub count_if-filter-le : (q : A → Bool) (xs : List A) → count_if p (filter q xs) ≤ count_if p xs
  count_if-filter-le q [] = omega arith
  count_if-filter-le q (x ∷ xs) = ground (arith, count_if-filter-le q xs)

  pub count_if-split :
      (q : A → Bool) (xs : List A)
      → count_if p xs ≡ count_if p (filter q xs) + count_if p (filter (λ x. not (q x)) xs)
  count_if-split q [] = refl
  count_if-split q (x ∷ xs) = ground (arith, count_if-split q xs)

pub length-take {ℓ} : {A : Type ℓ} (n : ℕ) (xs : List A) → length (take n xs) ≡ min n (length xs)
length-take zero xs = omega arith
length-take (suc n) [] = omega arith
length-take (suc n) (x ∷ xs) = omega (arith, length-take n xs)

module _ {ℓ} {A : Type ℓ} where
  -- What an update does to a row that is looked up by a column it does not write.
  pub find?-update_where :
      (q p : A → Bool) (f : A → A)
      → ((x : A) → q (f x) ≡ q x)
      → (xs : List A)
      → find? q (update_where p f xs) ≡ Option.map (λ x. if p x then f x else x) (find? q xs)
  find?-update_where q p f keeps [] = refl
  find?-update_where q p f keeps (x ∷ xs) =
      ground (arith, keeps x, find?-update_where q p f keeps xs)

  pub count_if-pos_of_find? :
      (q p : A → Bool) (xs : List A) (x : A) → find? q xs ≡ some x → p x ≡ true → 0 < count_if p xs
  count_if-pos_of_find? q p [] x e h = cc
  count_if-pos_of_find? q p (y ∷ ys) x e h = ground (arith, count_if-pos_of_find? q p ys x)

  pub find?-append :
      (q : A → Bool) (xs : List A) (y : A)
      → find? q (xs ++ y ∷ [])
        ≡ elim (find? q xs) [ some x ↦ some x | none ↦ if q y then some y else none ]
  find?-append q [] y = refl
  find?-append q (x ∷ xs) y = ground (arith, find?-append q xs y)

  pub find?-test : (q : A → Bool) (xs : List A) (x : A) → find? q xs ≡ some x → q x ≡ true
  find?-test q [] x e = cc
  find?-test q (y ∷ ys) x e = ground (arith, find?-test q ys x)

module _ {ℓ} {A : Type ℓ} where
  pub any-eq-ltb-count_if : (p : A → Bool) (xs : List A) → any p xs ≡ ltb 0 (count_if p xs)
  any-eq-ltb-count_if p [] = refl
  any-eq-ltb-count_if p (x ∷ xs) = ground (arith, any-eq-ltb-count_if p xs)

module _ {ℓ} {A : Type ℓ} (key : A → ℕ) where
  -- The rows of a key are the ones that dropping the key takes from a count.
  pub count_if-drop :
      (q : ℕ → Bool) (x : ℕ) (xs : List A)
      → count_if (λ r. q (key r)) (filter (λ r. not (key r == x)) xs)
          + (if q x then count_if (λ r. key r == x) xs else 0)
        ≡ count_if (λ r. q (key r)) xs
  count_if-drop q x [] = ground arith
  count_if-drop q x (y ∷ ys) = elim (Bool-cases (key y == x)) [
    | inl same ↦
        let e : key y ≡ x = ground arith in rw (same, e) (ground (arith, count_if-drop q x ys))
    | inr other ↦ rw other (ground (arith, count_if-drop q x ys))
  ]

  pub count_if-drop_one :
      (q : ℕ → Bool) (x : ℕ) (xs : List A)
      → count_if (λ r. key r == x) xs ≡ 1
      → count_if (λ r. q (key r)) (filter (λ r. not (key r == x)) xs) + (if q x then 1 else 0)
        ≡ count_if (λ r. q (key r)) xs
  count_if-drop_one q x xs one = rw one at (count_if-drop q x xs)

  -- With no row of a key, a count does not depend on the test at that key.
  pub count_if-agree :
      (q q' : ℕ → Bool) (x : ℕ) (xs : List A)
      → ((i : ℕ) → i ≢ x → q i ≡ q' i)
      → count_if (λ r. key r == x) xs ≡ 0
      → count_if (λ r. q (key r)) xs ≡ count_if (λ r. q' (key r)) xs
  count_if-agree q q' x [] agree none_at = refl
  count_if-agree q q' x (y ∷ ys) agree none_at =
      let e : q (key y) ≡ q' (key y) = agree (key y) (ground arith) in
      rw e (
        ap (λ n. (if q' (key y) then 1 else 0) + n) (count_if-agree q q' x ys agree (ground arith)))

module _ {ℓ κ} {A : Type ℓ} (P : A → Type κ) where
  pub All-find? : (q : A → Bool) (xs : List A) (x : A) → All P xs → find? q xs ≡ some x → P x
  All-find? q [] x h e = cc
  All-find? q (y ∷ ys) x h e = elim (Bool-cases (q y)) [
    | inl hit ↦ let same : y ≡ x = ground arith in subst P same h.0
    | inr miss ↦ All-find? q ys x h.1 (ground arith)
  ]

  pub All-append : (xs ys : List A) → All P xs → All P ys → All P (xs ++ ys)
  All-append [] ys h k = k
  All-append (x ∷ xs) ys h k = (h.0, All-append xs ys h.1 k)

module _ {ℓ κ} {A : Type ℓ} (P : A → Type κ) where
  pub All-filter : (q : A → Bool) (xs : List A) → All P xs → All P (filter q xs)
  All-filter q [] h = tt
  All-filter q (x ∷ xs) h = keep (q x) (All-filter q xs h.1)
    where
      keep : (b : Bool) → All P (filter q xs) → All P (if b then x ∷ filter q xs else filter q xs)
      keep true rest = (h.0, rest)
      keep false rest = rest

  pub All-update_where :
      (q : A → Bool) (f : A → A) (xs : List A)
      → ((x : A) → P x → P (f x))
      → All P xs
      → All P (update_where q f xs)
  All-update_where q f [] keeps h = tt
  All-update_where q f (x ∷ xs) keeps h = (change (q x), All-update_where q f xs keeps h.1)
    where
      change : (b : Bool) → P (if b then f x else x)
      change true = keeps x h.0
      change false = h.0

module _ {ℓ} {A : Type ℓ} (key : A → ℕ) where
  -- Dropping a key leaves the look-ups of the others, and no row of its own.
  pub find?-drop :
      (i x : ℕ) (xs : List A)
      → i ≢ x
      → find? (λ r. key r == i) (filter (λ r. not (key r == x)) xs) ≡ find? (λ r. key r == i) xs
  find?-drop i x [] ne = refl
  find?-drop i x (y ∷ ys) ne = ground (arith, find?-drop i x ys ne)

  pub count_if-dropped :
      (x : ℕ) (xs : List A) → count_if (λ r. key r == x) (filter (λ r. not (key r == x)) xs) ≡ 0
  count_if-dropped x [] = refl
  count_if-dropped x (y ∷ ys) = ground (arith, count_if-dropped x ys)

module _ {ℓ κ μ} {A : Type ℓ} {P : A → Type κ} {Q : A → Type μ} where
  pub All-map : (xs : List A) → ((x : A) → P x → Q x) → All P xs → All Q xs
  All-map [] step h = tt
  All-map (x ∷ xs) step h = (step x h.0, All-map xs step h.1)

module _ {ℓ} {A : Type ℓ} (key : A → ℕ) where
  -- A key at or above all keys of a list is not found.
  pub find?-above :
      (n i : ℕ) (xs : List A) → All (λ x. key x < n) xs → n ≤ i → find? (λ x. key x == i) xs ≡ none
  find?-above n i [] below le = refl
  find?-above n i (x ∷ xs) below le =
      let ne : (key x == i) ≡ false = ground (arith, below.0) in
      rw ne (find?-above n i xs below.1 le)

  -- No row has a key of the empty list.
  pub count_if-unlisted : (xs : List A) → count_if (λ x. elem (key x) []) xs ≡ 0
  count_if-unlisted [] = refl
  count_if-unlisted (x ∷ xs) = ground (arith, count_if-unlisted xs)
