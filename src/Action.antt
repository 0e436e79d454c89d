-- ===== src/Action.antt =====
-- Database work that may raise: an action returns or raises, and leaves a database either way.
pub mod Preserves
use steady_queue.Prelude.{
  ℕ, Bool, true, false, Option, none, some, if◌then◌else◌, ◌≡◌, refl, ◌⊎◌, inl, inr,
}
use steady_queue.Db.{Db}

-- The exceptions that the modelled code raises or catches.
pub data Error : Type 0 where
  integrity_error does_not_exist value_error already_recorded unknown_task_class import_error
        type_error :
      Error

pub data Result {ℓ} (A : Type ℓ) : Type ℓ where
  ok : A → Result A
  err : Error → Result A

pub Result-cases {ℓ} :
    {A : Type ℓ} (r : Result A) → ((a : A) × (r ≡ ok a)) ⊎ ((e : Error) × (r ≡ err e))
Result-cases (ok a) = inl (a, refl)
Result-cases (err e) = inr (e, refl)

abbrev pub map_result {ℓ κ} : {A : Type ℓ} {B : Type κ} → (A → B) → Result A → Result B
map_result f (ok a) = ok (f a)
map_result f (err e) = err e

abbrev pub Action : Type 0 → Type 0
Action A = Db → Result A × Db

-- What follows a step that returned; an exception passes it by.
abbrev pub resume : {A B : Type 0} → (A → Action B) → Result A → Db → Result B × Db
resume f (ok a) db = f a db
resume f (err e) db = (err e, db)

infixl 5 ◌>>=◌ ◌>>◌
abbrev pub ◌>>=◌ : {A B : Type 0} → Action A → (A → Action B) → Action B
◌>>=◌ m f db = let r = m db in resume f r.0 r.1

abbrev pub ◌>>◌ : {A B : Type 0} → Action A → Action B → Action B
m >> k = m >>= (λ _. k)

abbrev pub pure : {A : Type 0} → A → Action A
pure a db = (ok a, db)

abbrev pub raise : {A : Type 0} → Error → Action A
raise e db = (err e, db)

abbrev pub modify : (Db → Db) → Action (Unit {0})
modify f db = (ok tt, f db)

abbrev pub gets : {A : Type 0} → (Db → A) → Action A
gets f db = (ok (f db), db)

-- A lookup that raises `DoesNotExist`.
abbrev pub found : {A : Type 0} → Option A → Action A
found none = raise does_not_exist
found (some a) = pure a

-- `with transaction.atomic():` what the block wrote is undone if it raises.
abbrev pub settle : {A : Type 0} → Db → Result A → Db → Result A × Db
settle before (ok a) db = (ok a, db)
settle before (err e) db = (err e, before)

abbrev pub atomic : {A : Type 0} → Action A → Action A
atomic m db = let r = m db in settle db r.0 r.1

-- `try: m except E as e: h(e)`
abbrev pub handle : {A : Type 0} → (Error → Action A) → Result A → Db → Result A × Db
handle h (ok a) db = (ok a, db)
handle h (err e) db = h e db

abbrev pub try_except : {A : Type 0} → Action A → (Error → Action A) → Action A
try_except m h db = let r = m db in handle h r.0 r.1

-- `try: m finally: f`; an exception of `f` wins.
abbrev pub finish : {A : Type 0} → Result A → Result (Unit {0}) → Db → Result A × Db
finish r (ok u) db = (r, db)
finish r (err e) db = (err e, db)

abbrev pub try_finally : {A : Type 0} → Action A → Action (Unit {0}) → Action A
try_finally m f db = let r = m db in let s = f r.1 in finish r.0 s.0 s.1
