-- ===== src/Limits/Acquire.antt =====
-- concurrency_controls.py: taking and giving back the slot of a job, on the semaphore table.
use native.Mathlib.Nat.{add-zero}
use steady_queue.Prelude.{
  ℕ, ◌+◌, String, ◌≡◌, refl, Bool, true, false, Option, none, some, List, if◌then◌else◌,
}
use steady_queue.Semaphore
use steady_queue.Semaphore.{Semaphore, Proxy, get, limit_of}
use steady_queue.Semaphore.Lookup.{IsUnique}
use steady_queue.Semaphore.Unique.{wait-IsUnique, signal-IsUnique}
use steady_queue.Semaphore.Slots.{limit_of-pos, wait-SlotsFit, signal-SlotsFit}
use steady_queue.Db.{Db, Job}
use steady_queue.Env.{Env}
use steady_queue.Action.{Result, ok, err}
use steady_queue.Locks.{
  is_concurrency_limited, expires_at, limit_for, proxy_at, proxy, wait_for,
  acquire_concurrency_lock, release_concurrency_lock,
}
use steady_queue.Limits.{slot, Agrees, Fits}

abbrev ok_or_zero : Result ℕ → ℕ
ok_or_zero (ok n) = n
ok_or_zero (err e) = 0

module _ (env : Env) (job : Job) where
  -- What the job reads of its class, where it is found.
  abbrev pub expiry : ℕ
  expiry = ok_or_zero (expires_at env job)

  abbrev pub proxied : String → Proxy
  proxied k = proxy_at env job k expiry

  abbrev pub acquired_at : Option String → List Semaphore → Bool × List Semaphore
  acquired_at none t = (true, t)
  acquired_at (some k) t = Semaphore.wait (proxied k) t

  abbrev pub acquired : List Semaphore → Bool × List Semaphore
  acquired = acquired_at job.concurrency_key

  abbrev pub released_at : Option String → List Semaphore → Bool × List Semaphore
  released_at none t = (false, t)
  released_at (some k) t = Semaphore.signal (proxied k) t

  abbrev pub released : List Semaphore → Bool × List Semaphore
  released = released_at job.concurrency_key

  -- Where the job is limited, its class is found and has a duration.
  abbrev pub IsReadable : Type 0
  IsReadable = (k : String) → job.concurrency_key ≡ some k → expires_at env job ≡ ok expiry

  acquire_at :
      (db : Db) (o : Option String)
      → job.concurrency_key ≡ o
      → ((k : String) → o ≡ some k → expires_at env job ≡ ok expiry)
      → acquire_concurrency_lock env job db ≡ (
        ok (acquired_at o db.semaphores).0,
        record db { semaphores = (acquired_at o db.semaphores).1 },
      )
  unfolding acquire_concurrency_lock is_concurrency_limited wait_for proxy
  acquire_at db none keyless readable = rw keyless refl
  acquire_at db (some k) keyed readable = rw (keyed, readable k refl) refl

  pub acquire_concurrency_lock_lem :
      (db : Db)
      → IsReadable
      → acquire_concurrency_lock env job db
        ≡ (ok (acquired db.semaphores).0, record db { semaphores = (acquired db.semaphores).1 })
  acquire_concurrency_lock_lem db readable = acquire_at db job.concurrency_key refl readable

  pub wait_for_lem :
      (db : Db) (key : String)
      → job.concurrency_key ≡ some key
      → expires_at env job ≡ ok expiry
      → wait_for env job db
        ≡ (ok (acquired db.semaphores).0, record db { semaphores = (acquired db.semaphores).1 })
  unfolding wait_for proxy
  wait_for_lem db key keyed readable = rw (keyed, readable) refl

  release_at :
      (db : Db) (o : Option String)
      → job.concurrency_key ≡ o
      → ((k : String) → o ≡ some k → expires_at env job ≡ ok expiry)
      → release_concurrency_lock env job db ≡ (
        ok (released_at o db.semaphores).0,
        record db { semaphores = (released_at o db.semaphores).1 },
      )
  unfolding release_concurrency_lock proxy
  release_at db none keyless readable = rw keyless refl
  release_at db (some k) keyed readable = rw (keyed, readable k refl) refl

  pub release_concurrency_lock_lem :
      (db : Db)
      → IsReadable
      → release_concurrency_lock env job db
        ≡ (ok (released db.semaphores).0, record db { semaphores = (released db.semaphores).1 })
  release_concurrency_lock_lem db readable = release_at db job.concurrency_key refl readable

  pub acquired-IsUnique : (t : List Semaphore) → IsUnique t → IsUnique (acquired t).1
  acquired-IsUnique t u = go job.concurrency_key
    where
      go : (o : Option String) → IsUnique (acquired_at o t).1
      go none = u
      go (some k) = wait-IsUnique (proxied k) t u

  pub released-IsUnique : (t : List Semaphore) → IsUnique t → IsUnique (released t).1
  released-IsUnique t u = go job.concurrency_key
    where
      go : (o : Option String) → IsUnique (released_at o t).1
      go none = u
      go (some k) = signal-IsUnique (proxied k) t u

-- What a job of the table reads of its class.
module _ (limits : String → ℕ) (env : Env) (job : Job) where
  limit_read :
      (agrees : Agrees env.job_class limits job) (k : String)
      → job.concurrency_key ≡ some k
      → (expires_at env job ≡ ok (expiry env job)) × ((proxied env job k).limit ≡ limits k)
  unfolding expires_at
  limit_read agrees k keyed =
      let (task, (duration, (found, (lasts, limit)))) = agrees k keyed in
      (rw (found, lasts) refl, rw found limit)

  pub agrees-IsReadable : Agrees env.job_class limits job → IsReadable env job
  agrees-IsReadable agrees k keyed = (limit_read agrees k keyed).0

module _ (limits : String → ℕ) (env : Env) (job : Job) (t : List Semaphore) (used : String → ℕ)
    (agrees : Agrees env.job_class limits job) where
  pub acquired-Fits :
      Fits env.job_class limits used t
      → Fits env.job_class limits
          (λ k. used k + (if (acquired env job t).0 then slot k job.concurrency_key else 0))
          (acquired env job t).1
  unfolding proxy
  acquired-Fits fits =
      go job.concurrency_key (λ k keyed. (limit_read limits env job agrees k keyed).1)
    where
      go :
          (o : Option String)
          → ((k : String) → o ≡ some k → (proxied env job k).limit ≡ limits k)
          → Fits env.job_class limits
              (λ k. used k + (if (acquired_at env job o t).0 then slot k o else 0))
              (acquired_at env job o t).1
      go none a k = rw add-zero (fits k)
      go (some j) a k =
          wait-SlotsFit limits used (proxied env job j) t (a j refl)
            (limit_of-pos (limit_for (env.job_class job.class_name))) fits k

  pub released-Fits :
      IsUnique t
      → Fits env.job_class limits (λ k. used k + slot k job.concurrency_key) t
      → Fits env.job_class limits used (released env job t).1
  unfolding proxy
  released-Fits u fits =
      go job.concurrency_key (λ k keyed. (limit_read limits env job agrees k keyed).1) fits
    where
      go :
          (o : Option String)
          → ((k : String) → o ≡ some k → (proxied env job k).limit ≡ limits k)
          → Fits env.job_class limits (λ k. used k + slot k o) t
          → Fits env.job_class limits used (released_at env job o t).1
      go none a fs k = rw add-zero at (fs k)
      go (some j) a fs k = signal-SlotsFit limits used (proxied env job j) t (a j refl) u fs k
