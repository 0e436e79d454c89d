-- ===== src/QueueSelector.antt =====
-- steady_queue/queue_selector.py and steady_queue/collections.py: from the queue names of a
-- worker's configuration to the relations that it polls.
pub mod Paused
pub mod Order
use Prim.Native.Char.{Char, code}
use Prim.Native.String
use steady_queue.Prelude.{
  ℕ, String, Bool, true, false, ◌&&◌, ◌||◌, not, Option, none, some, List, [], ◌∷◌, ◌++◌, map, ◌==◌,
  str_eq, if◌then◌else◌, filter, any, length,
}
use steady_queue.Db.{ReadyExecution}
use steady_queue.Action.{Result, ok, err, value_error, map_result}

-- `"*" in name`, `name.endswith("*")`, `name.replace("*", "")` and `name.startswith(prefix)`
abbrev pub star : Char → Bool
star c = code c == b'*'

abbrev pub has_star : String → Bool
has_star String.[] = false
has_star (String.◌∷◌ c s) = star c || has_star s

unfoldable pub is_exact_name : String → Bool
is_exact_name name = not (has_star name)

abbrev pub ends_with_star : Char → String → Bool
ends_with_star c String.[] = star c
ends_with_star c (String.◌∷◌ d s) = ends_with_star d s

unfoldable pub is_prefixed_name : String → Bool
is_prefixed_name String.[] = false
is_prefixed_name (String.◌∷◌ c s) = ends_with_star c s

unfoldable pub without_stars : String → String
without_stars String.[] = String.[]
without_stars (String.◌∷◌ c s) =
    let rest = without_stars s in if star c then rest else String.◌∷◌ c rest

unfoldable pub starts_with : (prefix : String) → String → Bool
starts_with String.[] s = true
starts_with (String.◌∷◌ c p) String.[] = false
starts_with (String.◌∷◌ c p) (String.◌∷◌ d s) = code c == code d && starts_with p s

abbrev pub mem : String → List String → Bool
mem q qs = any (λ r. str_eq r q) qs

-- `list.remove`: the first occurrence, or `ValueError`.
unfoldable pub remove : String → List String → Result (List String)
remove q [] = err value_error
remove q (r ∷ rs) =
    let rest = remove q rs in
    if str_eq r q then ok rs else elim rest [ ok qs ↦ ok (r ∷ qs) | err e ↦ err e ]

-- `distinct()` of the queue names.
unfoldable pub distinct : List String → List String
distinct [] = []
distinct (q ∷ qs) = let rest = distinct qs in if mem q rest then rest else q ∷ rest

-- collections.py. An item that `flat_map` meets is a text, a list of texts, or `None`.
pub data Item : Type 0 where
  nothing : Item
  one : String → Item
  many : List String → Item

unfoldable pub flatten : List Item → List (Option String)
flatten [] = []
flatten (nothing ∷ is) = none ∷ flatten is
flatten (one q ∷ is) = some q ∷ flatten is
flatten (many qs ∷ is) = map some qs ++ flatten is

-- `filter(None, ...)` drops `None` and the empty text.
unfoldable pub compact : List (Option String) → List String
compact [] = []
compact (none ∷ qs) = compact qs
compact (some q ∷ qs) = let rest = compact qs in if str_eq q "" then rest else q ∷ rest

abbrev then_remove :
    (List String → Result (List String)) → Result (List String) → Result (List String)
then_remove k (ok qs) = k qs
then_remove k (err e) = err e

abbrev remove_all : List String → List String → Result (List String)
remove_all [] queues = ok queues
remove_all (m ∷ ms) queues = then_remove (remove_all ms) (remove m queues)

-- `delete_in_order`: its item, and what is left of `queues`.
unfoldable pub delete_in_order : String → List String → Result (Item × List String)
unfolding remove is_exact_name is_prefixed_name starts_with without_stars
delete_in_order raw_queue queues =
    if is_exact_name raw_queue
    then map_result (λ qs. (one raw_queue, qs)) (remove raw_queue queues)
    else if is_prefixed_name raw_queue
    then (let matches = filter (starts_with (without_stars raw_queue)) queues in
        map_result (λ qs. (many matches, qs)) (remove_all matches queues))
    else ok (nothing, queues)

abbrev pub and_items :
    (List String → Result (List Item)) → Result (Item × List String) → Result (List Item)
and_items rest (ok (item, qs)) = map_result (λ is. item ∷ is) (rest qs)
and_items rest (err e) = err e

-- The items of `flat_map(lambda raw_queue: ..., raw_queues)`, with `queues` as its shared list.
unfoldable pub items : List String → List String → Result (List Item)
unfolding delete_in_order
items [] queues = ok []
items (r ∷ rs) queues = and_items (items rs) (delete_in_order r queues)

pub data Relation : Type 0 where
  every no_rows : Relation
  queued_as : String → Relation

-- The rows of a relation.
unfoldable pub in_relation : Relation → ReadyExecution → Bool
in_relation every r = true
in_relation no_rows r = false
in_relation (queued_as q) r = str_eq r.queue_name q

-- The last two branches of `scoped_relations`, by `is_none`.
abbrev pub relations : List String → List Relation
relations [] = no_rows ∷ []
relations (q ∷ qs) = map queued_as (q ∷ qs)

module _ (raw_queues : List String) (rows : List ReadyExecution) (paused_queues : List String) where
  abbrev pub include_all_queues : Bool
  include_all_queues = mem "*" raw_queues

  unfoldable pub prefixes : List String
  unfolding without_stars is_prefixed_name
  prefixes = map without_stars (filter is_prefixed_name raw_queues)

  unfoldable pub exact_names : List String
  unfolding is_exact_name
  exact_names = filter is_exact_name raw_queues

  unfoldable pub all_queues : List String
  unfolding distinct
  all_queues = distinct (map (λ r. r.queue_name) rows)

  -- With no prefix the test fails on every row, as the code's early return does.
  unfoldable pub prefixed_names : List String
  unfolding distinct prefixes starts_with
  prefixed_names =
      distinct (filter (λ q. any (λ p. starts_with p q) prefixes) (map (λ r. r.queue_name) rows))

  unfoldable pub in_raw_order : List String → Result (List String)
  unfolding prefixes items flatten compact
  in_raw_order queues =
      if length queues == 1 || length prefixes == 0
      then ok queues
      else map_result (λ is. compact (flatten is)) (items raw_queues queues)

  unfoldable pub eligible_queues : Result (List String)
  unfolding all_queues in_raw_order exact_names prefixed_names
  eligible_queues =
      if include_all_queues then ok all_queues else in_raw_order (exact_names ++ prefixed_names)

  abbrev pub not_paused : List String → List String
  not_paused = filter (λ q. not (mem q paused_queues))

  unfoldable pub queue_names : Result (List String)
  unfolding eligible_queues
  queue_names = map_result not_paused eligible_queues

  unfoldable pub is_all : Bool
  is_all = include_all_queues && length paused_queues == 0

  unfoldable pub scoped_relations : Result (List Relation)
  unfolding is_all queue_names
  scoped_relations = if is_all then ok (every ∷ []) else map_result relations queue_names
