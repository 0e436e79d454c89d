-- ===== src/Recurring/Persisted.antt =====
-- recurring_schedule.py: the rows of the recurring tasks after the configured ones are persisted.
use steady_queue.Prelude.{
  String, ◌≡◌, refl, ◌∙◌, Bool, true, ◌&&◌, ◌||◌, not, List, [], ◌∷◌, arith, str_eq, eq_iff,
  eq_refl, filter, All, All-map, Bool-cases, inl, inr,
}
use steady_queue.Limits.Rows.{All-filter_self}
use steady_queue.Recurring.{
  RecurringTask, Tables, listed, upsert, create_or_update_all, persist_tasks,
}

listed-upsert :
    (t : RecurringTask) (rows : List RecurringTask) (k : String)
    → listed (upsert t rows) k ≡ (str_eq t.key k || listed rows k)
unfolding upsert
listed-upsert t [] k = ground arith
listed-upsert t (r ∷ rs) k = ground (arith, listed-upsert t rs k, eq_iff r.key t.key)

listed-create_or_update_all :
    (ts rows : List RecurringTask) (k : String)
    → listed (create_or_update_all ts rows) k ≡ (listed ts k || listed rows k)
unfolding create_or_update_all
listed-create_or_update_all [] rows k = refl
listed-create_or_update_all (t ∷ ts) rows k =
    ground (arith, listed-create_or_update_all ts (upsert t rows) k, listed-upsert t rows k)

listed-All : (ts : List RecurringTask) → All (λ t. listed ts t.key ≡ true) ts
listed-All [] = tt
listed-All (t ∷ ts) =
    (ground (arith, eq_refl t.key), All-map ts (λ s h. ground (arith, h)) (listed-All ts))

module _ (configured : List RecurringTask) where
  abbrev pub others : List RecurringTask → List RecurringTask
  others rows = filter (λ r. not (listed configured r.key)) rows

  abbrev pub IsWanted : RecurringTask → Type 0
  IsWanted r = (not r.static || listed configured r.key) ≡ true

  upsert-All :
      (t : RecurringTask) (rows : List RecurringTask)
      → IsWanted t
      → All IsWanted rows
      → All IsWanted (upsert t rows)
  unfolding upsert
  upsert-All t [] h all = (h, tt)
  upsert-All t (r ∷ rs) h all = elim (Bool-cases (str_eq r.key t.key)) [
    | inl same ↦ rw same (h, all.1)
    | inr other ↦ rw other (all.0, upsert-All t rs h all.1)
  ]

  others-upsert :
      (t : RecurringTask) (rows : List RecurringTask)
      → listed configured t.key ≡ true
      → others (upsert t rows) ≡ others rows
  unfolding upsert
  others-upsert t [] h = rw h refl
  others-upsert t (r ∷ rs) h = elim (Bool-cases (str_eq r.key t.key)) [
    | inl same ↦
        let wanted : listed configured r.key ≡ true = rw ((eq_iff r.key t.key).0 same) h in
        rw (same, h, wanted) refl
    | inr other ↦ rw (other, others-upsert t rs h) refl
  ]

  create_or_update_all-both :
      (ts rows : List RecurringTask)
      → All (λ t. listed configured t.key ≡ true) ts
      → All IsWanted rows
      → All IsWanted (create_or_update_all ts rows)
        × (others (create_or_update_all ts rows) ≡ others rows)
  unfolding create_or_update_all
  create_or_update_all-both [] rows h all = (all, refl)
  create_or_update_all-both (t ∷ ts) rows h all =
      let (wanted, same) =
        create_or_update_all-both ts (upsert t rows) h.1
          (upsert-All t rows (ground (arith, h.0)) all) in
      (wanted, same ∙ others-upsert t rows h.0)

  abbrev stays : RecurringTask → Bool
  stays t = not (t.static && not (listed configured t.key))

  stays-IsWanted : (rows : List RecurringTask) → All IsWanted (filter stays rows)
  stays-IsWanted rows =
      All-map (filter stays rows) (λ r h. ground (arith, h)) (All-filter_self stays rows)

  others-stays :
      (rows : List RecurringTask)
      → others (filter stays rows)
        ≡ filter (λ r. not r.static && not (listed configured r.key)) rows
  others-stays [] = refl
  others-stays (r ∷ rs) = ground (arith, others-stays rs)

  -- After the configured tasks are persisted, every configured key has a row, and every static row
  -- has a configured key. The rows that are neither static nor of a configured key are as before.
  pub persist_tasks-rows :
      (s : Tables)
      → All (λ t. listed (persist_tasks configured s).recurring_tasks t.key ≡ true) configured
        × (All IsWanted (persist_tasks configured s).recurring_tasks
            × (others (persist_tasks configured s).recurring_tasks
                ≡ filter (λ r. not r.static && not (listed configured r.key)) s.recurring_tasks))
  unfolding persist_tasks
  persist_tasks-rows s =
      let rows = filter stays s.recurring_tasks in
      let (all, rest) =
        create_or_update_all-both configured rows (listed-All configured)
          (stays-IsWanted s.recurring_tasks) in
      (
        All-map configured
            (λ t h. ground (arith, listed-create_or_update_all configured rows t.key, h))
            (listed-All configured),
        (all, rest ∙ others-stays s.recurring_tasks),
      )
