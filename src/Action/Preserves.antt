-- ===== src/Action/Preserves.antt =====
-- Actions that keep a property of the database, whether they return or raise.
use steady_queue.Prelude.{Bool, true, false, if◌then◌else◌}
use steady_queue.Db.{Db}
use steady_queue.Action.{
  Action, Error, Result, ok, err, ◌>>=◌, resume, settle, handle, atomic, try_except,
}

abbrev pub Preserves : (Db → Type 0) → {A : Type 0} → Action A → Type 0
Preserves P m = (db : Db) → P db → P (m db).1

module _ (P : Db → Type 0) where
  Preserves-resume :
      {A B : Type 0} (f : A → Action B) (r : Result A) (db : Db)
      → ((a : A) → Preserves P (f a))
      → P db
      → P (resume f r db).1
  Preserves-resume f (ok a) db each p = each a db p
  Preserves-resume f (err e) db each p = p

  -- A step, and then the rest with what it returns.
  pub Preserves-bind :
      {A B : Type 0} (m : Action A) (f : A → Action B)
      → Preserves P m
      → ((a : A) → Preserves P (f a))
      → Preserves P (m >>= f)
  Preserves-bind m f first each db p = Preserves-resume f (m db).0 (m db).1 each (first db p)

  pub Preserves-settle :
      {A : Type 0} (before : Db) (r : Result A) (db : Db)
      → P before
      → P db
      → P (settle before r db).1
  Preserves-settle before (ok a) db b p = p
  Preserves-settle before (err e) db b p = b

  pub Preserves-atomic : {A : Type 0} (m : Action A) → Preserves P m → Preserves P (atomic m)
  Preserves-atomic m keeps db p = Preserves-settle db (m db).0 (m db).1 p (keeps db p)

  Preserves-handle :
      {A : Type 0} (h : Error → Action A) (r : Result A) (db : Db)
      → ((e : Error) → Preserves P (h e))
      → P db
      → P (handle h r db).1
  Preserves-handle h (ok a) db keeps p = p
  Preserves-handle h (err e) db keeps p = keeps e db p

  pub Preserves-try_except :
      {A : Type 0} (m : Action A) (h : Error → Action A)
      → Preserves P m
      → ((e : Error) → Preserves P (h e))
      → Preserves P (try_except m h)
  Preserves-try_except m h first each db p = Preserves-handle h (m db).0 (m db).1 each (first db p)

  pub Preserves-if :
      {A : Type 0} (b : Bool) (m n : Action A)
      → Preserves P m
      → Preserves P n
      → Preserves P (if b then m else n)
  Preserves-if true m n km kn = km
  Preserves-if false m n km kn = kn

  -- The database after a step and its rest, at one database.
  pub resume-keeps :
      {A B : Type 0} (f : A → Action B) (r : Result A) (db : Db)
      → ((a : A) → P (f a db).1)
      → P db
      → P (resume f r db).1
  resume-keeps f (ok a) db each p = each a
  resume-keeps f (err e) db each p = p
