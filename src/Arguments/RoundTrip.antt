-- ===== src/Arguments/RoundTrip.antt =====
-- arguments.py: what is serialised and read back is the value that was given, with lists for tuples.
use mathlib.Core.Option
use Prim.{⊥, absurd}
use steady_queue.Prelude.{
  String, Bool, true, false, none, if◌then◌else◌, arith, ◌≡◌, refl, some, ap,
}
use steady_queue.Arguments.{
  Codec, text_key, other_key, is_key, Value, none_value, bool, int, float, str, list, tuple, dict,
  datetime, date, time, timedelta, model, other, Items, nil, cons, Entries, no_entries, entry, Json,
  Jsons, Fields, array, object, tagged, more, no_more, field, no_fields, serialize_argument,
  serialize, serialize_entries, get_field, deserialize_model, deserialize_tagged,
  deserialize_argument, deserialize, deserialize_entries, Call, serialize_kwargs,
  serialize_args_and_kwargs, deserialize_kwargs, deserialize_args_and_kwargs,
}
use steady_queue.Arguments.Column.{json_column, column_items, column_fields, stored_call}

-- What a value becomes: its tuples are lists.
unfoldable mutual
  pub with_lists : {c : Codec} → Value c → Value c
  with_lists none_value = none_value
  with_lists (bool b) = bool b
  with_lists (int i) = int i
  with_lists (float x) = float x
  with_lists (str s) = str s
  with_lists (list vs) = list (items_with_lists vs)
  with_lists (tuple vs) = list (items_with_lists vs)
  with_lists (dict es) = dict (entries_with_lists es)
  with_lists (datetime t) = datetime t
  with_lists (date t) = date t
  with_lists (time t) = time t
  with_lists (timedelta d) = timedelta d
  with_lists (model m) = model m
  with_lists other = other

  pub items_with_lists : {c : Codec} → Items c → Items c
  items_with_lists nil = nil
  items_with_lists (cons v vs) = cons (with_lists v) (items_with_lists vs)

  pub entries_with_lists : {c : Codec} → Entries c → Entries c
  entries_with_lists no_entries = no_entries
  entries_with_lists (entry k v es) = entry k (with_lists v) (entries_with_lists es)

unfoldable pub has_entry : {c : Codec} → String → Entries c → Bool
has_entry key no_entries = false
has_entry key (entry k v es) = let rest = has_entry key es in if is_key key k then true else rest

-- The value has no part of a type that is not serialised, the keys of its dicts are texts, each of
-- them once, its dates and times are read back from their texts, and its models are in the database.
unfoldable mutual
  unfolding has_entry

  pub IsRestorable : {c : Codec} → Value c → Type 0
  IsRestorable none_value = Unit
  IsRestorable (bool b) = Unit
  IsRestorable (int i) = Unit
  IsRestorable (float x) = Unit
  IsRestorable (str s) = Unit
  IsRestorable (list vs) = AreRestorable vs
  IsRestorable (tuple vs) = AreRestorable vs
  IsRestorable (dict es) = HasRestorable es
  IsRestorable {c} (datetime t) = c.datetime_fromisoformat (c.datetime_isoformat t) ≡ some t
  IsRestorable {c} (date t) = c.date_fromisoformat (c.date_isoformat t) ≡ some t
  IsRestorable {c} (time t) = c.time_fromisoformat (c.time_isoformat t) ≡ some t
  IsRestorable {c} (timedelta d) = c.timedelta (c.total_seconds d) ≡ d
  IsRestorable {c} (model m) = c.get_object (c.app_label m) (c.model_name m) (c.pk m) ≡ some m
  IsRestorable other = ⊥

  pub AreRestorable : {c : Codec} → Items c → Type 0
  AreRestorable nil = Unit
  AreRestorable (cons v vs) = IsRestorable v × AreRestorable vs

  pub HasRestorable : {c : Codec} → Entries c → Type 0
  HasRestorable no_entries = Unit
  HasRestorable (entry (text_key k) v es) =
      (has_entry k es ≡ false) × (IsRestorable v × HasRestorable es)
  HasRestorable (entry (other_key written) v es) = ⊥

mutual
  unfolding serialize_argument deserialize_argument with_lists IsRestorable get_field
      deserialize_model deserialize_tagged json_column has_entry

  restored :
      {c : Codec} (v : Value c)
      → IsRestorable v
      → (j : Json c) × ((serialize_argument v ≡ some j)
          × ((json_column j ≡ some j) × (deserialize_argument j ≡ some (with_lists v))))
  restored none_value h = (_, (refl, (refl, refl)))
  restored (bool b) h = (_, (refl, (refl, refl)))
  restored (int i) h = (_, (refl, (refl, refl)))
  restored (float x) h = (_, (refl, (refl, refl)))
  restored (str s) h = (_, (refl, (refl, refl)))
  restored (list vs) h =
      let (js, (e, (k, q))) = items_restored vs h in
      (array js, (ap (Option.map array) e, (ap (Option.map array) k, ap (Option.map list) q)))
  restored (tuple vs) h =
      let (js, (e, (k, q))) = items_restored vs h in
      (array js, (ap (Option.map array) e, (ap (Option.map array) k, ap (Option.map list) q)))
  restored (dict es) h =
      let (fs, (e, (k, (q, absent)))) = entries_restored es h in
      (
        tagged "__sq_hash__" (object fs),
        (
          ap (Option.map (λ l. tagged "__sq_hash__" (object l))) e,
          (rw k refl, ap (Option.map dict) q),
        ),
      )
  restored (datetime t) h = (_, (refl, (refl, ap (Option.map datetime) h)))
  restored (date t) h = (_, (refl, (refl, ap (Option.map date) h)))
  restored (time t) h = (_, (refl, (refl, ap (Option.map time) h)))
  restored (timedelta d) h = (_, (refl, (refl, ap (λ x. some (timedelta x)) h)))
  restored (model m) h = (_, (refl, (refl, ap (Option.map model) h)))
  restored other h = absurd h

  items_restored :
      {c : Codec} (vs : Items c)
      → AreRestorable vs
      → (js : Jsons c) × ((serialize vs ≡ some js)
          × ((column_items js ≡ some js) × (deserialize js ≡ some (items_with_lists vs))))
  items_restored nil h = (no_more, (refl, (refl, refl)))
  items_restored (cons v vs) h =
      let (j, (e, (k, q))) = restored v h.0 in
      let (js, (es, (ks, qs))) = items_restored vs h.1 in
      (more j js, (rw (e, es) refl, (rw (k, ks) refl, rw (q, qs) refl)))

  entries_restored :
      {c : Codec} (es : Entries c)
      → HasRestorable es
      → (fs : Fields c) × ((serialize_entries es ≡ some fs)
          × ((column_fields fs ≡ some fs)
              × ((deserialize_entries fs ≡ some (entries_with_lists es))
                  × ((key : String) → has_entry key es ≡ false → get_field key fs ≡ none))))
  entries_restored no_entries h = (no_fields, (refl, (refl, (refl, λ key absent. refl))))
  entries_restored (entry (text_key k) v es) h =
      let (j, (e, (p, q))) = restored v h.1.0 in
      let (fs, (le, (lp, (lq, absent)))) = entries_restored es h.1.1 in
      (
        field (text_key k) j fs,
        (
          rw (e, le) refl,
          (
            rw (p, lp) (rw (absent k h.0) refl),
            (rw (q, lq) refl, λ key gone. ground (arith, gone, absent key)),
          ),
        ),
      )
  entries_restored (entry (other_key written) v es) h = absurd h

kwargs_restored :
    {c : Codec} (es : Entries c)
    → HasRestorable es
    → (j : Json c) × ((serialize_kwargs es ≡ some j)
        × ((json_column j ≡ some j) × (deserialize_kwargs j ≡ some (dict (entries_with_lists es)))))
unfolding serialize_kwargs deserialize_kwargs serialize with_lists IsRestorable deserialize
    json_column
kwargs_restored no_entries h = (object no_fields, (refl, (refl, refl)))
kwargs_restored (entry k v es) h =
    let (j, (e, (p, q))) = restored (dict (entry k v es)) h in
    (array (more j no_more), (rw e refl, (rw p refl, rw q refl)))

-- Whatever arguments and keyword arguments a job is given, if they are restorable they are
-- serialised, the JSON column of the job gives the result back as it is, and what is deserialised
-- are the same arguments, with lists in place of tuples. That holds for dicts with the keys that the
-- module reserves too.
pub deserialize-serialize :
    {c : Codec} (args : Items c) (kwargs : Entries c)
    → AreRestorable args
    → HasRestorable kwargs
    → (call : Call c) × ((serialize_args_and_kwargs args kwargs ≡ some call)
        × ((stored_call call ≡ some call)
            × (deserialize_args_and_kwargs call
                ≡ some (items_with_lists args, dict (entries_with_lists kwargs)))))
unfolding serialize_args_and_kwargs deserialize_args_and_kwargs stored_call
deserialize-serialize args kwargs a h =
    let (js, (e, (p, q))) = items_restored args a in
    let (j, (ke, (kp, kq))) = kwargs_restored kwargs h in
    (record { args = js; kwargs = j }, (rw (e, ke) refl, (rw (p, kp) refl, rw (q, kq) refl)))
