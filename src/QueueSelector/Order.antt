-- ===== src/QueueSelector/Order.antt =====
-- queue_selector.py: the queues of a configuration without prefixes, and where the selector raises.
use mathlib.Core.List.{append-nil}
use Prim.Native.Char.{Char}
use steady_queue.Prelude.{
  String, ◌≡◌, refl, ap, ◌∙◌, Bool, true, false, ◌||◌, not, List, [], ◌∷◌, map, arith, str_eq,
  eq_iff, eq_refl, ◌==◌, filter, any, length, All, Bool-cases, inl, inr,
}
use steady_queue.Db.{ReadyExecution}
use steady_queue.Action.{Result, ok, err, value_error, map_result}
use steady_queue.QueueSelector.{
  star, has_star, is_exact_name, is_prefixed_name, without_stars, starts_with, mem, remove,
  distinct, then_remove, remove_all, delete_in_order, items, relations, prefixes, exact_names,
  prefixed_names, in_raw_order, eligible_queues, queue_names, is_all, scoped_relations,
  ends_with_star,
}

-- A remove of other texts leaves the first one in its place.
remove_all-skip :
    (q : String) (ms qs : List String)
    → All (λ m. str_eq q m ≡ false) ms
    → remove_all ms (q ∷ qs) ≡ map_result (λ l. q ∷ l) (remove_all ms qs)
unfolding remove
remove_all-skip q [] qs other = refl
remove_all-skip q (m ∷ ms) qs other =
    rw other.0 (go (remove m qs) (λ l. remove_all-skip q ms l other.1))
  where
    go :
        (r : Result (List String))
        → ((l : List String) → remove_all ms (q ∷ l) ≡ map_result (λ k. q ∷ k) (remove_all ms l))
        → then_remove (remove_all ms) (map_result (λ l. q ∷ l) r)
          ≡ map_result (λ l. q ∷ l) (then_remove (remove_all ms) r)
    go (ok l) step = step l
    go (err e) step = refl

module _ (p : String → Bool) where
  distinguished : (q m : String) → p q ≡ false → p m ≡ true → str_eq q m ≡ false
  distinguished q m miss hit = elim (Bool-cases (str_eq q m)) [
    | inl same ↦ cc (rw ((eq_iff q m).0 same) at miss, hit)
    | inr other ↦ other
  ]

  others :
      (q : String) (qs : List String) → p q ≡ false → All (λ m. str_eq q m ≡ false) (filter p qs)
  others q [] no_match = tt
  others q (m ∷ ms) no_match = elim (Bool-cases (p m)) [
    | inl hit ↦ rw hit (distinguished q m no_match hit, others q ms no_match)
    | inr miss ↦ rw miss (others q ms no_match)
  ]

  -- Removing all texts that pass a test leaves those that do not.
  remove_matches :
      (qs : List String) → remove_all (filter p qs) qs ≡ ok (filter (λ q. not (p q)) qs)
  unfolding remove
  remove_matches [] = refl
  remove_matches (q ∷ qs) = elim (Bool-cases (p q)) [
    | inl hit ↦ rw hit (rw (eq_refl q) (remove_matches qs))
    | inr miss ↦ rw miss (
        remove_all-skip q (filter p qs) qs (others q qs miss)
        ∙ ap (map_result (λ l. q ∷ l)) (remove_matches qs))
  ]

  remove_gone :
      (n : String) (qs : List String)
      → p n ≡ true
      → remove n (filter (λ q. not (p q)) qs) ≡ err value_error
  unfolding remove
  remove_gone n [] hit = refl
  remove_gone n (q ∷ qs) hit = elim (Bool-cases (p q)) [
    | inl same ↦ rw same (remove_gone n qs hit)
    | inr miss ↦ rw miss (ground (arith, eq_iff q n, remove_gone n qs))
  ]

module _ (prefix name : String) (rest queues : List String)
    (is_prefix : is_prefixed_name prefix ≡ true) (not_exact : is_exact_name prefix ≡ false)
    (exact : is_exact_name name ≡ true)
    (matches : starts_with (without_stars prefix) name ≡ true) where
  -- An exact name that a prefix before it matches is no longer there to remove.
  pub items_raise : items (prefix ∷ name ∷ rest) queues ≡ err value_error
  unfolding items delete_in_order
  items_raise = rw (
    not_exact,
    is_prefix,
    remove_matches (starts_with (without_stars prefix)) queues,
    exact,
    remove_gone (starts_with (without_stars prefix)) name queues matches,
  )

ends-has_star :
    (c : Char) (s : String) → ends_with_star c s ≡ true → has_star (String.◌∷◌ c s) ≡ true
ends-has_star c String.[] h = rw h
ends-has_star c (String.◌∷◌ d s) h = rw (ends-has_star d s h) (or-true (star c))
  where
    or-true : (b : Bool) → (b || true) ≡ true
    or-true true = refl
    or-true false = refl

exact-not_prefixed : (q : String) → is_exact_name q ≡ true → is_prefixed_name q ≡ false
unfolding is_exact_name is_prefixed_name
exact-not_prefixed String.[] h = refl
exact-not_prefixed (String.◌∷◌ c s) h = elim (Bool-cases (ends_with_star c s)) [
  | inl ends ↦ cc (rw (ends-has_star c s ends) at h)
  | inr other ↦ other
]

module _ (raw : List String) (rows : List ReadyExecution) (paused : List String)
    (all_exact : All (λ q. is_exact_name q ≡ true) raw) where
  no_prefixes : filter is_prefixed_name raw ≡ []
  no_prefixes = go raw all_exact
    where
      go :
          (qs : List String)
          → All (λ q. is_exact_name q ≡ true) qs
          → filter is_prefixed_name qs ≡ []
      go [] h = refl
      go (q ∷ qs) h = rw (exact-not_prefixed q h.0) (go qs h.1)

  all_exact_names : exact_names raw rows paused ≡ raw
  unfolding exact_names
  all_exact_names = go raw all_exact
    where
      go : (qs : List String) → All (λ q. is_exact_name q ≡ true) qs → filter is_exact_name qs ≡ qs
      go [] h = refl
      go (q ∷ qs) h = rw (h.0, go qs h.1)

  no_matches :
      (names : List String) → distinct (filter (λ q. any (λ p. starts_with p q) []) names) ≡ []
  unfolding distinct
  no_matches [] = refl
  no_matches (n ∷ ns) = no_matches ns

  -- With exact names alone, and without `"*"`, a worker polls the queues of its configuration, in
  -- its order, but for the paused ones.
  pub scoped_relations_exact :
      mem "*" raw ≡ false
      → scoped_relations raw rows paused ≡ ok (relations (filter (λ q. not (mem q paused)) raw))
  unfolding scoped_relations is_all queue_names eligible_queues in_raw_order prefixed_names prefixes
  scoped_relations_exact star =
      rw (star, no_prefixes, all_exact_names, no_matches (map (λ r. r.queue_name) rows), append-nil)
        (elim (Bool-cases (length raw == 1)) [ inl single ↦ rw single | inr several ↦ rw several ])
