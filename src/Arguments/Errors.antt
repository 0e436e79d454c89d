-- ===== src/Arguments/Errors.antt =====
-- arguments.py: which values are refused.
use mathlib.Core.Option
use steady_queue.Prelude.{◌≡◌, refl, Bool, true, false, ◌&&◌, Option, none, some, is_some, ◌∙◌}
use steady_queue.Arguments.{
  Codec, Value, none_value, bool, int, float, str, list, tuple, dict, datetime, date, time,
  timedelta, model, other, Items, nil, cons, Entries, no_entries, entry, map_two,
  serialize_argument, serialize, serialize_entries,
}

-- Has the value no part of a type that the module does not know?
unfoldable mutual
  pub is_known : {c : Codec} → Value c → Bool
  is_known none_value = true
  is_known (bool b) = true
  is_known (int i) = true
  is_known (float x) = true
  is_known (str s) = true
  is_known (list vs) = are_known vs
  is_known (tuple vs) = are_known vs
  is_known (dict es) = has_known es
  is_known (datetime t) = true
  is_known (date t) = true
  is_known (time t) = true
  is_known (timedelta d) = true
  is_known (model m) = true
  is_known other = false

  pub are_known : {c : Codec} → Items c → Bool
  are_known nil = true
  are_known (cons v vs) = is_known v && are_known vs

  pub has_known : {c : Codec} → Entries c → Bool
  has_known no_entries = true
  has_known (entry k v es) = is_known v && has_known es

is_some-map : {A B : Type 0} (f : A → B) (o : Option A) → is_some (Option.map f o) ≡ is_some o
is_some-map f none = refl
is_some-map f (some a) = refl

is_some-map_two :
    {A B C : Type 0} (f : A → B → C) (o : Option A) (p : Option B)
    → is_some (map_two f o p) ≡ (is_some o && is_some p)
is_some-map_two f none p = refl
is_some-map_two f (some a) none = refl
is_some-map_two f (some a) (some b) = refl

mutual
  unfolding serialize_argument is_known

  known_lem : {c : Codec} (v : Value c) → is_some (serialize_argument v) ≡ is_known v
  known_lem none_value = refl
  known_lem (bool b) = refl
  known_lem (int i) = refl
  known_lem (float x) = refl
  known_lem (str s) = refl
  known_lem (list vs) = is_some-map _ (serialize vs) ∙ items_lem vs
  known_lem (tuple vs) = is_some-map _ (serialize vs) ∙ items_lem vs
  known_lem (dict es) = is_some-map _ (serialize_entries es) ∙ entries_lem es
  known_lem (datetime t) = refl
  known_lem (date t) = refl
  known_lem (time t) = refl
  known_lem (timedelta d) = refl
  known_lem (model m) = refl
  known_lem other = refl

  items_lem : {c : Codec} (vs : Items c) → is_some (serialize vs) ≡ are_known vs
  items_lem nil = refl
  items_lem (cons v vs) =
      is_some-map_two _ (serialize_argument v) (serialize vs) ∙ rw (known_lem v, items_lem vs) refl

  entries_lem : {c : Codec} (es : Entries c) → is_some (serialize_entries es) ≡ has_known es
  entries_lem no_entries = refl
  entries_lem (entry k v es) =
      is_some-map_two _ (serialize_argument v) (serialize_entries es)
      ∙ rw (known_lem v, entries_lem es) refl

-- `serialize_argument` raises `SerializationError` for a value exactly if some part of it, at any
-- depth, is of a type that is not one of the known ones.
pub serialize_argument-is_known :
    {c : Codec} (v : Value c) → is_some (serialize_argument v) ≡ is_known v
serialize_argument-is_known v = known_lem v
