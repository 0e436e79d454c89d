-- ===== src/Schedule/Cancelled.antt =====
-- recurring_schedule.py: what a scheduler cancels when it ends.
use Prim.{absurd}
use steady_queue.Prelude.{
  ℕ, ◌+◌, ◌≤◌, ◌<◌, ◌≡◌, refl, ◌∙◌, sym, ◌⊎◌, ap, String, Bool, true, false, not, ◌&&◌, some, List,
  [], ◌∷◌, arith, ◌==◌, str_eq, eq_iff, if◌then◌else◌, filter, elem, count_if, count_if-filter-le,
  All, All-filter, ◌++◌, Bool-cases, inl, inr,
}
use steady_queue.Schedule.{
  Dict, at_key, get_item, del_item, set_item, values, Timer, Schedule, fresh, schedule_task,
  schedule_tasks, unschedule_tasks, without, fire, reschedule,
}

abbrev of_key : String → Timer → Bool
of_key key t = str_eq t.key key

-- The timers of a key, pending or called.
abbrev pub live : String → Schedule → ℕ
live key s = count_if (of_key key) s.pending + count_if (of_key key) s.called

abbrev IsKnown : Dict → Timer → Type 0
IsKnown d t = get_item t.key d ≡ some t.id

-- One timer for each key, which the dict has while it is pending.
pub record Inv (s : Schedule) : Type 0 where
  pub once : (key : String) → live key s ≤ 1
  pub known : All (IsKnown s.scheduled_tasks) s.pending

get_item-del_item :
    (j k : String) (d : Dict) → str_eq k j ≡ false → get_item j (del_item k d) ≡ get_item j d
unfolding get_item del_item
get_item-del_item j k [] other = refl
get_item-del_item j k (e ∷ es) other =
    ground (arith, get_item-del_item j k es, eq_iff e.0 k, eq_iff e.0 j, eq_iff k j)

get_item-set_item :
    (j k : String) (i : ℕ) (d : Dict)
    → str_eq k j ≡ false
    → get_item j (set_item k i d) ≡ get_item j d
unfolding get_item set_item
get_item-set_item j k i d other = ground (arith, get_item-del_item j k d, other)

get_item-set_item_same : (k : String) (i : ℕ) (d : Dict) → get_item k (set_item k i d) ≡ some i
unfolding get_item set_item
get_item-set_item_same k i d = ground (arith, eq_iff k k)

-- Setting a key keeps the timers of the others known.
known-set_item :
    (k : String) (i : ℕ) (d : Dict) (ts : List Timer)
    → count_if (of_key k) ts ≡ 0
    → All (IsKnown d) ts
    → All (IsKnown (set_item k i d)) ts
known-set_item k i d [] none_of h = tt
known-set_item k i d (t ∷ ts) none_of h =
    let other : str_eq k t.key ≡ false = ground (arith, none_of, eq_iff k t.key, eq_iff t.key k) in
    (
      get_item-set_item t.key k i d other ∙ h.0,
      known-set_item k i d ts (ground (arith, none_of)) h.1,
    )

elem-values : (key : String) (i : ℕ) (d : Dict) → get_item key d ≡ some i → elem i (values d) ≡ true
unfolding get_item
elem-values key i [] h = absurd (ground (arith, h))
elem-values key i (e ∷ es) h = ground (arith, elem-values key i es, h)

all_cancelled :
    (d : Dict) (ts : List Timer)
    → All (IsKnown d) ts
    → filter (λ t. not (elem t.id (values d))) ts ≡ []
all_cancelled d [] h = refl
all_cancelled d (t ∷ ts) h = ground (arith, elem-values t.key t.id d h.0, all_cancelled d ts h.1)

count_if-without :
    (p : Timer → Bool) (t : Timer) (xs ys : List Timer)
    → count_if p (without t.id (xs ++ t ∷ ys)) + (if p t then 1 else 0) ≤ count_if p (xs ++ t ∷ ys)
count_if-without p t [] ys =
    let same : (t.id == t.id) ≡ true = ground arith in
    ground (arith, same, count_if-filter-le p (λ u. not (u.id == t.id)) ys)
count_if-without p t (x ∷ xs) ys = ground (arith, count_if-without p t xs ys)

count_if-taken :
    (p : Timer → Bool) (t : Timer) (xs ys zs : List Timer)
    → zs ≡ xs ++ t ∷ ys
    → count_if p (without t.id zs) + (if p t then 1 else 0) ≤ count_if p zs
count_if-taken p t xs ys zs e = rw e (count_if-without p t xs ys)

schedule_task-Inv :
    (key : String) (run_at : ℕ) (s : Schedule)
    → Inv s
    → live key s ≡ 0
    → Inv (schedule_task key run_at s)
unfolding schedule_task
schedule_task-Inv key run_at s inv none_of = record {
  once = λ k. ground (arith, inv.once k, none_of, eq_iff key k);
  known = (
    get_item-set_item_same key s.next_id s.scheduled_tasks,
    known-set_item key s.next_id s.scheduled_tasks s.pending (omega (arith, none_of)) inv.known,
  );
}

fire-Inv :
    (t : Timer) (xs ys : List Timer) (s : Schedule)
    → s.pending ≡ xs ++ t ∷ ys
    → Inv s
    → Inv (fire t s)
unfolding fire
fire-Inv t xs ys s e inv = record {
  once = λ k. ground (arith, count_if-taken (of_key k) t xs ys s.pending e, inv.once k);
  known = All-filter (IsKnown s.scheduled_tasks) (λ u. not (u.id == t.id)) s.pending inv.known;
}

reschedule-Inv :
    (t : Timer) (xs ys : List Timer) (next_time : ℕ) (s : Schedule)
    → s.called ≡ xs ++ t ∷ ys
    → Inv s
    → Inv (reschedule t next_time s)
unfolding reschedule
reschedule-Inv t xs ys next_time s e inv =
    schedule_task-Inv t.key next_time
      (record s { called = without t.id s.called; enqueuing = t ∷ s.enqueuing })
      (record {
        once = λ k. omega (arith, count_if-taken (of_key k) t xs ys s.called e, inv.once k);
        known = inv.known;
      })
      (ground (
        arith,
        count_if-taken (of_key t.key) t xs ys s.called e,
        eq_iff t.key t.key,
        inv.once t.key,
      ))

-- The timers of a scheduler while it runs: one fires, or its callback schedules the next.
pub data Reach (s : Schedule) : Schedule → Type 0 where
  here : Reach s s
  fires :
      {u : Schedule} (t : Timer) (xs ys : List Timer)
      → Reach s u
      → u.pending ≡ xs ++ t ∷ ys
      → Reach s (fire t u)
  reschedules :
      {u : Schedule} (t : Timer) (xs ys : List Timer) (next_time : ℕ)
      → Reach s u
      → u.called ≡ xs ++ t ∷ ys
      → Reach s (reschedule t next_time u)

Reach-Inv : {s u : Schedule} → Inv s → Reach s u → Inv u
Reach-Inv inv here = inv
Reach-Inv inv (fires t xs ys r e) = fire-Inv t xs ys _ e (Reach-Inv inv r)
Reach-Inv inv (reschedules t xs ys next_time r e) =
    reschedule-Inv t xs ys next_time _ e (Reach-Inv inv r)

-- The keys of the tasks are unique in their table.
abbrev pub are_distinct : List (String × ℕ) → Bool
are_distinct [] = true
are_distinct (t ∷ ts) = (count_if (at_key t.0) ts == 0) && are_distinct ts

schedule_tasks-Inv :
    (ts : List (String × ℕ)) (s : Schedule)
    → are_distinct ts ≡ true
    → Inv s
    → ((key : String) → 0 < count_if (at_key key) ts → live key s ≡ 0)
    → Inv (schedule_tasks ts s)
unfolding schedule_tasks schedule_task
schedule_tasks-Inv [] s distinct inv new = inv
schedule_tasks-Inv (t ∷ ts) s distinct inv new =
    schedule_tasks-Inv ts (schedule_task t.0 t.1 s) (ground (arith, distinct))
      (schedule_task-Inv t.0 t.1 s inv (new t.0 (ground (arith, eq_iff t.0 t.0))))
      (λ key later. others key later (Bool-cases (str_eq t.0 key)))
  where
    others :
        (key : String)
        → 0 < count_if (at_key key) ts
        → ((str_eq t.0 key ≡ true) ⊎ (str_eq t.0 key ≡ false))
        → live key (schedule_task t.0 t.1 s) ≡ 0
    others key later (inl same) =
        let e : t.0 ≡ key = ground (arith, same, eq_iff t.0 key) in
        absurd (ground (arith, ap (λ k. count_if (at_key k) ts) e, distinct, later))
    others key later (inr other) = ground (arith, other, new key, later)

fresh-Inv : Inv fresh
fresh-Inv = record { once = λ k. omega arith; known = tt }

none_inside : (t : Timer) (xs ys : List Timer) → [] ≡ xs ++ t ∷ ys → ⊥
none_inside t [] ys h = ground (arith, h)
none_inside t (x ∷ xs) ys h = ground (arith, h)

-- Without a timer and a callback there will be none.
Reach-silent :
    {u v : Schedule}
    → u.pending ≡ []
    → u.called ≡ []
    → Reach u v
    → (v.pending ≡ []) × (v.called ≡ [])
Reach-silent p c here = (p, c)
Reach-silent p c (fires t xs ys r e) = absurd (none_inside t xs ys (sym (Reach-silent p c r).0 ∙ e))
Reach-silent p c (reschedules t xs ys next_time r e) =
    absurd (none_inside t xs ys (sym (Reach-silent p c r).1 ∙ e))

-- When a scheduler ends, from the timers of tasks with different keys on and whatever has fired and
-- been scheduled again, and no callback is before its scheduling of the next execution, then every
-- timer is cancelled, and no timer is pending ever after.
pub unschedule_tasks-pending :
    (ts : List (String × ℕ)) (u v : Schedule)
    → are_distinct ts ≡ true
    → Reach (schedule_tasks ts fresh) u
    → u.called ≡ []
    → Reach (unschedule_tasks u) v
    → v.pending ≡ []
unfolding unschedule_tasks
unschedule_tasks-pending ts u v distinct r idle after = (Reach-silent cancelled idle after).0
  where
    cancelled : (unschedule_tasks u).pending ≡ []
    cancelled =
        all_cancelled u.scheduled_tasks u.pending
          (Reach-Inv (schedule_tasks-Inv ts fresh distinct fresh-Inv (λ key h. refl)) r).known
