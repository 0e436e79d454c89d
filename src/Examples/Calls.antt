-- ===== src/Examples/Calls.antt =====
-- arguments.py: a call with a tuple, a date and a dict that has a reserved key.
use steady_queue.Prelude.{◌≡◌, refl, true, false, Option, none, some, String, is_some}
use steady_queue.Prelude.Int.{ℤ, pos}
use steady_queue.Arguments.{
  Codec, Key, get_field, and_then, Value, int, str, tuple, dict, date, model, other, Items, nil,
  cons, Entries, no_entries, entry, text_key, other_key, deserialize_argument, Call,
  serialize_args_and_kwargs, deserialize_args_and_kwargs, serialize_argument,
}
use steady_queue.Arguments.Column.{json_column, stored_call}
use steady_queue.Task
use steady_queue.Task.{Settings}
use steady_queue.Arguments.RoundTrip.{
  has_entry, items_with_lists, entries_with_lists, AreRestorable, HasRestorable,
  deserialize-serialize,
}
use steady_queue.Arguments.Errors.{is_known, serialize_argument-is_known}

-- Dates and times are their own texts, and every model is in the database.
abbrev plain : Codec
plain = record {
  Float = ℤ;
  DateTime = String;
  Date = String;
  Time = String;
  TimeDelta = ℤ;
  Model = ℤ;
  datetime_isoformat = λ s. s;
  datetime_fromisoformat = λ s. some s;
  date_isoformat = λ s. s;
  date_fromisoformat = λ s. some s;
  time_isoformat = λ s. s;
  time_fromisoformat = λ s. some s;
  total_seconds = λ x. x;
  timedelta = λ x. x;
  float = λ x. x;
  app_label = λ m. "shop";
  model_name = λ m. "order";
  pk = λ m. m;
  get_object = λ a n pk. some pk;
}

abbrev args : Items plain
args = cons (tuple (cons (int (pos 1)) (cons (date "2026-01-02") nil))) (cons (model (pos 7)) nil)

abbrev kwargs : Entries plain
kwargs =
    entry (text_key "note") (dict (entry (text_key "__sq_date__") (str "no date") no_entries))
      no_entries

args-AreRestorable : AreRestorable args
unfolding AreRestorable
args-AreRestorable = ((tt, (refl, tt)), (refl, tt))

kwargs-HasRestorable : HasRestorable kwargs
unfolding HasRestorable has_entry
kwargs-HasRestorable = (refl, ((refl, (tt, tt)), tt))

deserialize-serialize_example :
    (call : Call plain) × ((serialize_args_and_kwargs args kwargs ≡ some call)
      × ((stored_call call ≡ some call)
          × (deserialize_args_and_kwargs call
              ≡ some (items_with_lists args, dict (entries_with_lists kwargs)))))
deserialize-serialize_example =
    deserialize-serialize args kwargs args-AreRestorable kwargs-HasRestorable

abbrev unknown : Value plain
unknown = tuple (cons (int (pos 1)) (cons other nil))

serialize_argument-is_known_example : is_some (serialize_argument unknown) ≡ false
unfolding is_known
serialize_argument-is_known_example = serialize_argument-is_known unknown

-- A task with a time, whose class has another queue.
abbrev base : Settings plain
base = record {
  module_path = "shop.tasks.bill";
  backend = "default";
  queue_name = "default";
  priority = pos 0;
  run_after = none;
}

abbrev billing : Settings plain
billing = record base { queue_name = "billing"; priority = pos 9; run_after = some "2026-01-02" }

abbrev import_string : String → Option (Settings plain)
import_string name = some base

-- A dict with the key 1, and one whose key is a tuple: both are serialised, and the column of the
-- first has a text for the number.
abbrev keyed : Key → Value plain
keyed k = dict (entry k (int (pos 7)) no_entries)

number_key_lost :
    and_then
      (and_then (serialize_argument (keyed (other_key (some "1")))) json_column)
      deserialize_argument
    ≡ some (keyed (text_key "1"))
unfolding serialize_argument json_column deserialize_argument get_field
number_key_lost = refl

tuple_key_raises :
    (is_some (serialize_argument (keyed (other_key none))) ≡ true)
    × (and_then (serialize_argument (keyed (other_key none))) json_column ≡ none)
unfolding serialize_argument json_column get_field
tuple_key_raises = (refl, refl)
