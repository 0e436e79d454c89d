-- ===== src/QueueSelector/Paused.antt =====
-- queue_selector.py: the relations of a selector hold no row of a paused queue.
use steady_queue.Prelude.{
  String, ◌≡◌, refl, Bool, true, false, not, List, [], ◌∷◌, map, arith, str_eq, eq_iff, ◌==◌,
  filter, any, length, All, Bool-cases, inl, inr,
}
use steady_queue.Db.{ReadyExecution}
use steady_queue.Action.{Result, ok, err, map_result}
use steady_queue.QueueSelector.{
  Relation, queued_as, in_relation, mem, is_all, queue_names, eligible_queues, scoped_relations,
  relations,
}

-- Does a row belong to one of the relations?
abbrev pub reaches : List Relation → ReadyExecution → Bool
reaches qs r = any (λ q. in_relation q r) qs

module _ (r : ReadyExecution) (paused : List String) where
  reached-open :
      (qs : List String)
      → All (λ q. mem q paused ≡ false) qs
      → reaches (map queued_as qs) r ≡ true
      → mem r.queue_name paused ≡ false
  unfolding in_relation
  reached-open [] opened hit = cc
  reached-open (q ∷ qs) opened hit = elim (Bool-cases (str_eq r.queue_name q)) [
    | inl same ↦ rw ((eq_iff r.queue_name q).0 same) opened.0
    | inr other ↦ reached-open qs opened.1 (ground arith)
  ]

  relations-open :
      (qs : List String)
      → All (λ q. mem q paused ≡ false) qs
      → reaches (relations qs) r ≡ true
      → mem r.queue_name paused ≡ false
  unfolding in_relation
  relations-open [] opened hit = cc
  relations-open (q ∷ qs) opened hit = reached-open (q ∷ qs) opened hit

not_paused-open :
    (paused qs : List String)
    → All (λ q. mem q paused ≡ false) (filter (λ q. not (mem q paused)) qs)
not_paused-open paused [] = tt
not_paused-open paused (q ∷ qs) = ground (arith, not_paused-open paused qs)

scope_open :
    (paused : List String) (eligible : Result (List String)) (qs : List Relation)
    (r : ReadyExecution)
    → map_result relations (map_result (filter (λ q. not (mem q paused))) eligible) ≡ ok qs
    → reaches qs r ≡ true
    → mem r.queue_name paused ≡ false
scope_open paused (err e) qs r same hit = cc
scope_open paused (ok names) qs r same hit =
    let e : relations (filter (λ q. not (mem q paused)) names) ≡ qs = ground arith in
    relations-open r paused (filter (λ q. not (mem q paused)) names) (not_paused-open paused names)
      (rw e hit)

none_paused :
    (paused : List String) (q : String) → (length paused == 0) ≡ true → mem q paused ≡ false
none_paused [] q h = refl
none_paused (p ∷ ps) q h = absurd (ground arith)

-- Whatever the configuration and the rows, where the selector returns relations, a row that one of
-- them holds is not in a paused queue.
pub scoped_relations_open :
    (raw : List String) (rows : List ReadyExecution) (paused : List String) (qs : List Relation)
    (r : ReadyExecution)
    → scoped_relations raw rows paused ≡ ok qs
    → reaches qs r ≡ true
    → mem r.queue_name paused ≡ false
unfolding scoped_relations is_all queue_names
scoped_relations_open raw rows paused qs r e hit = elim (Bool-cases (is_all raw rows paused)) [
  | inl open_all ↦ none_paused paused r.queue_name (ground arith)
  | inr some_only ↦ scope_open paused (eligible_queues raw rows paused) qs r (rw some_only at e) hit
]
