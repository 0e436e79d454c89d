-- ===== src/Examples/Limits.antt =====
-- Runs of jobs with a concurrency limit.
use steady_queue.Prelude.{◌≤◌, ◌≡◌, refl, false, String, some, [], ◌∷◌}
use steady_queue.Db.{Db, empty, has_ready}
use steady_queue.Action.{Error, ok}
use steady_queue.Env.{Env}
use steady_queue.Locks.{is_concurrency_limited}
use steady_queue.Claimed.{returned, raised, perform}
use steady_queue.Executable.{create}
use steady_queue.Ready.{claim}
use steady_queue.Limits.{holders, executions, Inv}
use steady_queue.Limits.Create.{created_db, create_lem}
use steady_queue.Limits.Finish.{perform-finished_limited}
use steady_queue.Limits.System.{
  Reach, here, next, enqueue, claims_jobs, Step-Inv, Inv-empty, mutual_exclusion, one_execution,
}
use steady_queue.Examples.{classes, limits, env, payment, payment-Agrees, working}

-- Two payments of one account are enqueued, and a worker polls.
abbrev enqueued : Db
enqueued = (create env payment empty).1

abbrev both : Db
both = (create env payment enqueued).1

abbrev polled : Db
polled = (claim env ("billing" ∷ []) 3 (some 7) both).1

polled-Reach : Reach classes limits empty polled
polled-Reach =
    next
      (next (next here (enqueue env payment payment-Agrees)) (enqueue env payment payment-Agrees))
      (claims_jobs env ("billing" ∷ []) 3 (some 7))

mutual_exclusion_example : holders "Pay/1" polled ≤ 1
mutual_exclusion_example = mutual_exclusion classes limits polled-Reach "Pay/1"

one_execution_example : executions 2 polled ≤ 1
one_execution_example = one_execution classes limits polled-Reach 2

Step-Inv_example : Inv classes limits enqueued
Step-Inv_example =
    Step-Inv classes limits (enqueue env payment payment-Agrees) (Inv-empty classes limits)

create_lem_example : create env payment empty ≡ (ok 1, created_db env payment empty)
create_lem_example = create_lem env payment empty limits (Inv-empty classes limits) payment-Agrees

abbrev dropping : Env
dropping = record env { preserve_finished_jobs = false }

abbrev text : Error → String
text e = "Job has no ready_execution."

perform-finished_limited_example :
    perform dropping text returned (record payment { id = 1 }) working
    ≡ perform dropping text
        (raised "Job has no ready_execution.")
        (record payment { id = 1 })
        working
unfolding is_concurrency_limited has_ready
perform-finished_limited_example =
    perform-finished_limited dropping (record payment { id = 1 }) working text refl refl refl
