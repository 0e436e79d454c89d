-- ===== src/Router.antt =====
-- steady_queue/db_router.py: the database of the models of the queue. `alias` is the setting
-- `steady_queue.database`.
pub mod Agreement
use steady_queue.Prelude.{
  String, Bool, true, false, ◌||◌, Option, none, some, str_eq, if◌then◌else◌,
}

abbrev pub app_label : String
app_label = "steady_queue"

module _ (alias : String) where
  -- An answer of `none` leaves the choice to the other routers.
  unfoldable pub db_for_read : (model_label : String) → Option String
  db_for_read model_label = if str_eq model_label app_label then some alias else none

  unfoldable pub db_for_write : (model_label : String) → Option String
  db_for_write model_label = if str_eq model_label app_label then some alias else none

  unfoldable pub allow_relation : (label other_label : String) → Option Bool
  allow_relation label other_label =
      if str_eq label app_label || str_eq other_label app_label then some true else none

  unfoldable pub allow_migrate : (db label : String) → Option Bool
  allow_migrate db label =
      if str_eq label app_label
      then some (str_eq db alias)
      else if str_eq db alias
      then some false
      else none
