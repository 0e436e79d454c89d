-- ===== src/Queue.antt =====
-- steady_queue/models/queue.py: pausing and resuming queues.
pub mod Pausing
use steady_queue.Prelude.{
  ℕ, String, Bool, not, List, [], ◌∷◌, ◌++◌, str_eq, if◌then◌else◌, filter, count_if, length,
}
use steady_queue.Db.{Db}
use steady_queue.QueueSelector.{mem, in_relation, queued_as}

unfoldable pub is_paused : String → Db → Bool
is_paused q db = mem q db.pauses

unfoldable pub is_running : String → Db → Bool
unfolding is_paused
is_running q db = not (is_paused q db)

unfoldable pub pending_jobs : String → Db → ℕ
unfolding in_relation
pending_jobs q db = count_if (in_relation (queued_as q)) db.ready

-- `get_or_create`
unfoldable pub pause : String → Db → Db
unfolding is_paused
pause q db = if is_paused q db then db else record db { pauses = db.pauses ++ q ∷ [] }

unfoldable pub resume : String → Db → Db
resume q db = record db { pauses = filter (λ p. not (str_eq p q)) db.pauses }

-- `QueueQuerySet.pause` and `QueueQuerySet.resume`, over the names of the queues.
unfoldable pub pause_each : List String → Db → Db
pause_each [] db = db
pause_each (q ∷ qs) db = pause_each qs (pause q db)

unfoldable pub pause_all : List String → Db → ℕ × Db
pause_all qs db = (length qs, pause_each qs db)

unfoldable pub resume_each : List String → Db → Db
resume_each [] db = db
resume_each (q ∷ qs) db = resume_each qs (resume q db)

unfoldable pub resume_all : List String → Db → ℕ × Db
resume_all qs db = (length qs, resume_each qs db)
