-- ===== src/Limits/Other.antt =====
-- process.py and queue.py: operations on the processes and the pauses keep the invariant.
use steady_queue.Prelude.{ℕ, String, Option, List, any, Bool-cases, Option-cases, inl, inr}
use steady_queue.Db.{Db, Process}
use steady_queue.Env.{Env, TaskClass}
use steady_queue.Process.{register, heartbeat, get_process, same_name}
use steady_queue.Queue.{is_paused, pause, resume}
use steady_queue.Limits.{Inv}

module _ (classes : String → Option TaskClass) (limits : String → ℕ) (db : Db)
    (inv : Inv classes limits db) where
  other_tables :
      (next : ℕ) (ps : List Process) (pauses : List String)
      → Inv classes limits (record db { next_process_id = next; processes = ps; pauses = pauses })
  other_tables next ps pauses = record {
    core = record {
      unique = inv.core.unique;
      agree = inv.core.agree;
      ids_below = inv.core.ids_below;
      fits = inv.core.fits;
    };
    fresh = inv.fresh;
    alone = inv.alone;
  }

  pub register-Inv : (env : Env) (draft : Process) → Inv classes limits (register env draft db).1
  unfolding register
  register-Inv env draft =
      elim (Bool-cases (any (same_name draft.name draft.supervisor_id) db.processes)) [
        | inl taken ↦ rw taken inv
        | inr new ↦ rw new (other_tables _ _ _)
      ]

  pub heartbeat-Inv : (env : Env) (p : Process) → Inv classes limits (heartbeat env p db).1
  unfolding heartbeat
  heartbeat-Inv env p = elim (Option-cases (get_process p.id db.processes)) [
    | inl gone ↦ rw gone inv
    | inr (q, known) ↦ rw known (other_tables _ _ _)
  ]

  pub pause-Inv : (q : String) → Inv classes limits (pause q db)
  unfolding pause
  pause-Inv q = elim (Bool-cases (is_paused q db)) [
    | inl paused ↦ rw paused inv
    | inr running ↦ rw running (other_tables _ _ _)
  ]

  pub resume-Inv : (q : String) → Inv classes limits (resume q db)
  unfolding resume
  resume-Inv q = other_tables _ _ _
