-- ===== src/Queue/Pausing.antt =====
-- queue.py: what pausing and resuming do to the queues and to the polls of the workers.
use steady_queue.Prelude.{
  String, ◌≡◌, refl, true, false, ◌||◌, ◌&&◌, not, List, [], ◌∷◌, ◌++◌, arith, str_eq, eq_iff,
  eq_refl, filter,
}
use steady_queue.Db.{Db, ReadyExecution}
use steady_queue.Action.{ok}
use steady_queue.QueueSelector.{mem, Relation, scoped_relations}
use steady_queue.QueueSelector.Paused.{reaches, scoped_relations_open}
use steady_queue.Queue.{is_paused, pause, resume, pause_each, pause_all, resume_each, resume_all}

mem-append : (p q : String) (qs : List String) → mem p (qs ++ q ∷ []) ≡ (str_eq q p || mem p qs)
mem-append p q [] = ground arith
mem-append p q (r ∷ qs) = ground (arith, mem-append p q qs)

mem-without :
    (p q : String) (qs : List String)
    → mem p (filter (λ r. not (str_eq r q)) qs) ≡ (not (str_eq q p) && mem p qs)
mem-without p q [] = ground arith
mem-without p q (r ∷ qs) = ground (arith, mem-without p q qs, eq_iff r q, eq_iff q p, eq_iff r p)

is_paused-pause :
    (p q : String) (db : Db) → is_paused p (pause q db) ≡ (str_eq q p || is_paused p db)
unfolding is_paused pause
is_paused-pause p q db = ground (arith, mem-append p q db.pauses, eq_iff q p)

is_paused-resume :
    (p q : String) (db : Db) → is_paused p (resume q db) ≡ (not (str_eq q p) && is_paused p db)
unfolding is_paused resume
is_paused-resume p q db = mem-without p q db.pauses

is_paused-pause_each :
    (p : String) (qs : List String) (db : Db)
    → is_paused p (pause_each qs db) ≡ (mem p qs || is_paused p db)
unfolding pause_each
is_paused-pause_each p [] db = refl
is_paused-pause_each p (q ∷ qs) db =
    ground (arith, is_paused-pause_each p qs (pause q db), is_paused-pause p q db)

is_paused-resume_each :
    (p : String) (qs : List String) (db : Db)
    → is_paused p (resume_each qs db) ≡ (not (mem p qs) && is_paused p db)
unfolding resume_each
is_paused-resume_each p [] db = refl
is_paused-resume_each p (q ∷ qs) db =
    ground (arith, is_paused-resume_each p qs (resume q db), is_paused-resume p q db)

-- After some queues have been paused exactly they and the ones paused before are paused, and after
-- some have been resumed exactly the other ones that were paused before.
pub is_paused-all :
    (p : String) (qs : List String) (db : Db)
    → (is_paused p (pause_all qs db).1 ≡ (mem p qs || is_paused p db))
      × (is_paused p (resume_all qs db).1 ≡ (not (mem p qs) && is_paused p db))
unfolding pause_all resume_all
is_paused-all p qs db = (is_paused-pause_each p qs db, is_paused-resume_each p qs db)

-- After a queue has been paused, no worker's relations hold a row of it, whatever the configuration
-- of the worker and the rows.
pub pause-scoped_relations :
    (q : String) (raw : List String) (rows : List ReadyExecution) (db : Db)
    (relations : List Relation) (r : ReadyExecution)
    → scoped_relations raw rows (pause q db).pauses ≡ ok relations
    → reaches relations r ≡ true
    → str_eq r.queue_name q ≡ false
unfolding is_paused
pause-scoped_relations q raw rows db relations r e hit = ground (
  arith,
  scoped_relations_open raw rows (pause q db).pauses relations r e hit,
  is_paused-pause r.queue_name q db,
  eq_iff r.queue_name q,
  eq_refl q,
)
