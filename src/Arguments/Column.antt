-- ===== src/Arguments/Column.antt =====
-- steady_queue/models/job.py, the JSON column `arguments`: what it gives back of what is written.
use mathlib.Core.Option
use steady_queue.Prelude.{String, Option, some, is_some, if◌then◌else◌}
use steady_queue.Arguments.{
  Codec, Key, text_key, other_key, Json, json_null, json_bool, json_int, json_float, json_str,
  array, object, Jsons, no_more, more, Fields, no_fields, field, Call, map_two, get_field,
}

abbrev pub written_key : Key → Option String
written_key (text_key k) = some k
written_key (other_key written) = written

-- Of two keys with the same text, the later one counts.
abbrev pub add_field : {c : Codec} → String → Json c → Fields c → Fields c
add_field k j fs = if is_some (get_field k fs) then fs else field (text_key k) j fs

-- What the column gives back of a value that is written to it; `none` is the exception of a key
-- that cannot be written.
unfoldable mutual
  unfolding get_field

  pub json_column : {c : Codec} → Json c → Option (Json c)
  json_column json_null = some json_null
  json_column (json_bool b) = some (json_bool b)
  json_column (json_int i) = some (json_int i)
  json_column (json_float x) = some (json_float x)
  json_column (json_str s) = some (json_str s)
  json_column (array js) = Option.map array (column_items js)
  json_column (object fs) = Option.map object (column_fields fs)

  pub column_items : {c : Codec} → Jsons c → Option (Jsons c)
  column_items no_more = some no_more
  column_items (more j js) = map_two more (json_column j) (column_items js)

  pub column_fields : {c : Codec} → Fields c → Option (Fields c)
  column_fields no_fields = some no_fields
  column_fields (field k j fs) =
      map_two (λ add rest. add rest) (map_two add_field (written_key k) (json_column j))
        (column_fields fs)

-- The two fields of `arguments` as the column of a job gives them back.
unfoldable pub stored_call : {c : Codec} → Call c → Option (Call c)
unfolding json_column
stored_call call =
    map_two (λ a k. record { args = a; kwargs = k }) (column_items call.args)
      (json_column call.kwargs)
