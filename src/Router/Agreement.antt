-- ===== src/Router/Agreement.antt =====
-- db_router.py: the queue's tables are made where its models are read and written.
use steady_queue.Prelude.{
  String, ◌≡◌, refl, Bool, true, false, not, Option, none, some, str_eq, if◌then◌else◌, Bool-cases,
  inl, inr,
}
use steady_queue.Router.{app_label, db_for_read, db_for_write, allow_migrate}

abbrev pub is_database : String → Option String → Bool
is_database db none = false
is_database db (some name) = str_eq db name

abbrev pub is_allowed : Option Bool → Bool
is_allowed none = false
is_allowed (some b) = b

abbrev pub is_refused : Option Bool → Bool
is_refused none = false
is_refused (some true) = false
is_refused (some false) = true

-- The router allows a migration on exactly the database on which it reads and writes the models of
-- the migration's app. It refuses those of the queue on all other databases, and those of the other
-- apps on the queue's.
pub allow_migrate-agrees :
    (alias db label : String)
    → (is_allowed (allow_migrate alias db label) ≡ is_database db (db_for_write alias label))
      × ((is_allowed (allow_migrate alias db label) ≡ is_database db (db_for_read alias label))
          × (is_refused (allow_migrate alias db label)
              ≡ (if str_eq label app_label then not (str_eq db alias) else str_eq db alias)))
unfolding allow_migrate db_for_read db_for_write
allow_migrate-agrees alias db label = elim (Bool-cases (str_eq label app_label)) [
  | inl own ↦ elim (Bool-cases (str_eq db alias)) [
    | inl same ↦ rw (own, same) (refl, (refl, refl))
    | inr apart ↦ rw (own, apart) (refl, (refl, refl))
  ]
  | inr foreign ↦ elim (Bool-cases (str_eq db alias)) [
    | inl same ↦ rw (foreign, same) (refl, (refl, refl))
    | inr apart ↦ rw (foreign, apart) (refl, (refl, refl))
  ]
]
