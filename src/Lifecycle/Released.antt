-- ===== src/Lifecycle/Released.antt =====
-- supervisor.py: what a supervisor holds when it has ended, however far its start came.
use steady_queue.Prelude.{ℕ, zero, suc, ◌≡◌, refl, false, some}
use steady_queue.Db.{Db, Process}
use steady_queue.Action.{ok}
use steady_queue.Lifecycle.{
  nothing, supervisor_boot, supervisor_start, supervisor_shutdown, interrupted_start, perform_all,
  exit_child,
}
use steady_queue.Runnable.Leaving.{IsGone, deregister-IsGone}

-- A start that is interrupted after any number of its calls leaves nothing held.
pub interrupted_start-released :
    (calls : ℕ) → perform_all (interrupted_start calls) nothing ≡ nothing
unfolding interrupted_start supervisor_start supervisor_boot supervisor_shutdown perform_all
interrupted_start-released zero = refl
interrupted_start-released (suc zero) = refl
interrupted_start-released (suc (suc zero)) = refl
interrupted_start-released (suc (suc (suc zero))) = refl
interrupted_start-released (suc (suc (suc (suc zero)))) = refl
interrupted_start-released (suc (suc (suc (suc (suc zero))))) = refl
interrupted_start-released (suc (suc (suc (suc (suc (suc zero)))))) = refl
interrupted_start-released (suc (suc (suc (suc (suc (suc (suc zero))))))) = refl
interrupted_start-released (suc (suc (suc (suc (suc (suc (suc (suc zero)))))))) = refl
interrupted_start-released (suc (suc (suc (suc (suc (suc (suc (suc (suc n))))))))) = refl

-- A child that exits takes the row of the supervisor away, though the supervisor runs on.
pub exit_child-IsGone :
    (p : Process) (db : Db)
    → (exit_child (some p) db).0 ≡ ok tt
    → IsGone p.id (exit_child (some p) db).1
unfolding exit_child
exit_child-IsGone p db returned = deregister-IsGone p false db returned
