-- ===== src/Arguments.antt =====
-- steady_queue/arguments.py: the arguments of a task as JSON values, and back.
pub mod Column
pub mod RoundTrip
pub mod Errors
use mathlib.Core.Option
use steady_queue.Prelude.{
  String, Bool, true, false, Option, none, some, is_some, str_eq, if◌then◌else◌,
}
use steady_queue.Prelude.Int.{ℤ, pos}

-- The types of Python's and Django's that the module reads through their own methods. Models have
-- integer primary keys.
pub record Codec : Type 1 where
  pub Float : Type 0
  pub DateTime : Type 0
  pub Date : Type 0
  pub Time : Type 0
  pub TimeDelta : Type 0
  pub Model : Type 0
  pub datetime_isoformat : DateTime → String
  pub datetime_fromisoformat : String → Option DateTime
  pub date_isoformat : Date → String
  pub date_fromisoformat : String → Option Date
  pub time_isoformat : Time → String
  pub time_fromisoformat : String → Option Time
  pub total_seconds : TimeDelta → Float
  pub timedelta : Float → TimeDelta
  pub float : ℤ → Float
  pub app_label : Model → String
  pub model_name : Model → String
  pub pk : Model → ℤ
  -- `ContentType.objects.get(...)` and `get_object_for_this_type`
  pub get_object : String → String → ℤ → Option Model

-- A key of a dict. The dumps of a JSON column writes a number, a Boolean or None as its text, and
-- raises TypeError for a key of yet another type, where `written` is none.
pub data Key : Type 0 where
  text_key : String → Key
  other_key : (written : Option String) → Key

-- The values of Python, by the tests of `serialize_argument`; `other` is a value of another type.
mutual
  pub data Value (c : Codec) : Type 0 where
    none_value : Value c
    bool : Bool → Value c
    int : ℤ → Value c
    float : Codec.Float c → Value c
    str : String → Value c
    list : Items c → Value c
    tuple : Items c → Value c
    dict : Entries c → Value c
    datetime : Codec.DateTime c → Value c
    date : Codec.Date c → Value c
    time : Codec.Time c → Value c
    timedelta : Codec.TimeDelta c → Value c
    model : Codec.Model c → Value c
    other : Value c

  pub data Items (c : Codec) : Type 0 where
    nil : Items c
    cons : Value c → Items c → Items c

  pub data Entries (c : Codec) : Type 0 where
    no_entries : Entries c
    entry : Key → Value c → Entries c → Entries c

-- What `serialize` gives. What a JSON column gives back has texts as keys.
mutual
  pub data Json (c : Codec) : Type 0 where
    json_null : Json c
    json_bool : Bool → Json c
    json_int : ℤ → Json c
    json_float : Codec.Float c → Json c
    json_str : String → Json c
    array : Jsons c → Json c
    object : Fields c → Json c

  pub data Jsons (c : Codec) : Type 0 where
    no_more : Jsons c
    more : Json c → Jsons c → Jsons c

  pub data Fields (c : Codec) : Type 0 where
    no_fields : Fields c
    field : Key → Json c → Fields c → Fields c

abbrev pub tagged : {c : Codec} → String → Json c → Json c
tagged key j = object (field (text_key key) j no_fields)

abbrev pub map_two : {A B C : Type 0} → (A → B → C) → Option A → Option B → Option C
map_two f (some a) (some b) = some (f a b)
map_two f (some a) none = none
map_two f none o = none

-- `none` is `SerializationError`.
unfoldable mutual
  pub serialize_argument : {c : Codec} → Value c → Option (Json c)
  serialize_argument none_value = some json_null
  serialize_argument (bool b) = some (json_bool b)
  serialize_argument (int i) = some (json_int i)
  serialize_argument (float x) = some (json_float x)
  serialize_argument (str s) = some (json_str s)
  serialize_argument (list vs) = Option.map array (serialize vs)
  serialize_argument (tuple vs) = Option.map array (serialize vs)
  serialize_argument (dict es) =
      Option.map (λ fs. tagged "__sq_hash__" (object fs)) (serialize_entries es)
  serialize_argument {c} (datetime t) =
      some (tagged "__sq_datetime__" (json_str (c.datetime_isoformat t)))
  serialize_argument {c} (date t) = some (tagged "__sq_date__" (json_str (c.date_isoformat t)))
  serialize_argument {c} (time t) = some (tagged "__sq_time__" (json_str (c.time_isoformat t)))
  serialize_argument {c} (timedelta d) =
      some (tagged "__sq_timedelta__" (json_float (c.total_seconds d)))
  serialize_argument {c} (model m) = some (
      tagged "__sq_model__" (
        object (
          field (text_key "app_label") (json_str (c.app_label m)) (
            field (text_key "model") (json_str (c.model_name m))
              (field (text_key "pk") (json_int (c.pk m)) no_fields)))))
  serialize_argument other = none

  pub serialize : {c : Codec} → Items c → Option (Jsons c)
  serialize nil = some no_more
  serialize (cons v vs) = map_two more (serialize_argument v) (serialize vs)

  pub serialize_entries : {c : Codec} → Entries c → Option (Fields c)
  serialize_entries no_entries = some no_fields
  serialize_entries (entry k v es) = map_two (field k) (serialize_argument v) (serialize_entries es)

abbrev pub is_key : String → Key → Bool
is_key key (text_key k) = str_eq k key
is_key key (other_key written) = false

-- `argument[key]`, if the key is there.
unfoldable pub get_field : {c : Codec} → String → Fields c → Option (Json c)
get_field key no_fields = none
get_field key (field k j fs) = let rest = get_field key fs in if is_key key k then some j else rest

abbrev pub and_then : {A B : Type 0} → Option A → (A → Option B) → Option B
and_then none f = none
and_then (some a) f = f a

-- The branch of a key that is there, or else the branches after it.
abbrev pub branch : {A B : Type 0} → Option A → (A → Option B) → Option B → Option B
branch none f rest = rest
branch (some a) f rest = f a

abbrev pub text : {c : Codec} → Json c → Option String
text (json_str s) = some s
text _ = none

abbrev pub integer : {c : Codec} → Json c → Option ℤ
integer (json_int i) = some i
integer _ = none

-- `timedelta(seconds=...)` takes any number.
abbrev pub seconds : {c : Codec} → Json c → Option (Codec.Float c)
seconds (json_float x) = some x
seconds {c} (json_int i) = some (c.float i)
seconds {c} (json_bool true) = some (c.float (pos 1))
seconds {c} (json_bool false) = some (c.float (pos 0))
seconds _ = none

unfoldable pub deserialize_model : {c : Codec} → Json c → Option (Value c)
unfolding get_field
deserialize_model {c} (object fs) =
    and_then (and_then (get_field "app_label" fs) text) (λ app_label.
      and_then (and_then (get_field "model" fs) text) (λ model_name.
        and_then (and_then (get_field "pk" fs) integer)
          (λ pk. Option.map model (c.get_object app_label model_name pk))))
deserialize_model _ = none

-- The branches of `deserialize_argument` for a dict, after the one of `HASH_KEY`.
unfoldable pub deserialize_tagged : {c : Codec} → Fields c → Option (Value c)
unfolding get_field deserialize_model
deserialize_tagged {c} fs =
    branch (get_field "__sq_datetime__" fs)
      (λ j. Option.map datetime (and_then (text j) c.datetime_fromisoformat))
      (branch (get_field "__sq_date__" fs)
        (λ j. Option.map date (and_then (text j) c.date_fromisoformat))
        (branch (get_field "__sq_time__" fs)
          (λ j. Option.map time (and_then (text j) c.time_fromisoformat))
          (branch (get_field "__sq_timedelta__" fs)
            (λ j. Option.map (λ x. timedelta (c.timedelta x)) (seconds j))
            (branch (get_field "__sq_model__" fs) deserialize_model none))))

-- `none` is `DeserializationError`, which `deserialize` makes of every exception.
unfoldable mutual
  unfolding deserialize_tagged

  pub deserialize_argument : {c : Codec} → Json c → Option (Value c)
  deserialize_argument json_null = some none_value
  deserialize_argument (json_bool b) = some (bool b)
  deserialize_argument (json_int i) = some (int i)
  deserialize_argument (json_float x) = some (float x)
  deserialize_argument (json_str s) = some (str s)
  deserialize_argument (array js) = Option.map list (deserialize js)
  deserialize_argument (object fs) = branch (deserialize_hash fs) (λ r. r) (deserialize_tagged fs)

  pub deserialize : {c : Codec} → Jsons c → Option (Items c)
  deserialize no_more = some nil
  deserialize (more j js) = map_two cons (deserialize_argument j) (deserialize js)

  -- The result of the branch of `HASH_KEY`, if the key is there.
  pub deserialize_hash : {c : Codec} → Fields c → Option (Option (Value c))
  deserialize_hash no_fields = none
  deserialize_hash (field k j fs) =
      let result = deserialize_dict j in
      let rest = deserialize_hash fs in if is_key "__sq_hash__" k then some result else rest

  pub deserialize_dict : {c : Codec} → Json c → Option (Value c)
  deserialize_dict json_null = none
  deserialize_dict (json_bool b) = none
  deserialize_dict (json_int i) = none
  deserialize_dict (json_float x) = none
  deserialize_dict (json_str s) = none
  deserialize_dict (array js) = none
  deserialize_dict (object fs) = Option.map dict (deserialize_entries fs)

  pub deserialize_entries : {c : Codec} → Fields c → Option (Entries c)
  deserialize_entries no_fields = some no_entries
  deserialize_entries (field k j fs) =
      map_two (entry k) (deserialize_argument j) (deserialize_entries fs)

-- The two fields of the dict that `serialize_args_and_kwargs` makes.
pub record Call (c : Codec) : Type 0 where
  pub args : Jsons c
  pub kwargs : Json c

unfoldable pub serialize_kwargs : {c : Codec} → Entries c → Option (Json c)
unfolding serialize
serialize_kwargs no_entries = some (object no_fields)
serialize_kwargs (entry k v es) = Option.map array (serialize (cons (dict (entry k v es)) nil))

unfoldable pub serialize_args_and_kwargs : {c : Codec} → Items c → Entries c → Option (Call c)
unfolding serialize_kwargs
serialize_args_and_kwargs args kwargs =
    map_two (λ a k. record { args = a; kwargs = k }) (serialize args) (serialize_kwargs kwargs)

-- `[0]`
abbrev first : {c : Codec} → Items c → Option (Value c)
first nil = none
first (cons v vs) = some v

-- The column holds a list or the empty dict: no other value is written there.
unfoldable pub deserialize_kwargs : {c : Codec} → Json c → Option (Value c)
unfolding deserialize
deserialize_kwargs (array no_more) = some (dict no_entries)
deserialize_kwargs (array (more j js)) = and_then (deserialize (more j js)) first
deserialize_kwargs (object no_fields) = some (dict no_entries)
deserialize_kwargs _ = none

unfoldable pub deserialize_args_and_kwargs : {c : Codec} → Call c → Option (Items c × Value c)
unfolding deserialize_kwargs
deserialize_args_and_kwargs call =
    map_two (λ a k. (a, k)) (deserialize call.args) (deserialize_kwargs call.kwargs)
