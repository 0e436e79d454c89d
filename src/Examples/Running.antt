-- ===== src/Examples/Running.antt =====
-- worker.py, supervisor.py, backend.py, queue.py and clearable.py: runs of a small installation.
use steady_queue.Prelude.{
  subst, ◌≤◌, ◌≡◌, refl, String, false, ◌||◌, ◌&&◌, not, none, some, [], ◌∷◌, arith, length, str_eq,
}
use steady_queue.Prelude.Int.{pos}
use steady_queue.Db.{Db, Job, empty, get_job, has_ready, has_blocked}
use steady_queue.Action.{ok}
use steady_queue.Locks.{new_blocked, block, expires_at}
use steady_queue.Semaphore.{wait, wait_after, attempt_creation, get}
use steady_queue.Blocked.{release}
use steady_queue.Limits.{Agrees}
use steady_queue.Limits.System.{Inv-empty}
use steady_queue.Limits.Create.{created_db}
use steady_queue.Limits.Lost.{release-block}
use steady_queue.Configuration
use steady_queue.Configuration.{default_worker, default_dispatcher}
use steady_queue.QueueSelector.{
  queued_as, mem, scoped_relations, is_all, queue_names, eligible_queues, all_queues, distinct,
  in_relation,
}
use steady_queue.Queue.{is_paused, pause, pause_all, resume_all}
use steady_queue.Queue.Pausing.{is_paused-all, pause-scoped_relations}
use steady_queue.Clearing.{Filter, clearable, clear_finished_in_batches}
use steady_queue.Clearing.Complete.{left, clear_finished_in_batches-left}
use steady_queue.Backend.{
  Task, steady_queue_task, other_task, text, ready, enqueue, attributes_of,
  attributes_from_django_task, limits_concurrency, no_key,
}
use steady_queue.Backend.Enqueued.{enqueue_lem}
use steady_queue.Worker.{Pool, new_pool, poll}
use steady_queue.Worker.Capacity.{Counts, here, next, polls, Reach-capacity}
use steady_queue.Supervisor.{Supervisor, Exit, replace_fork, handle_claimed_jobs_by}
use steady_queue.Supervisor.Replacing.{IsConsistent, Keeps, handled_jobs, replace_fork-Keeps}
use steady_queue.Examples.{classes, limits, env, payment, payment-Agrees, mails, bills, two_ready}

is_paused-all_example :
    (is_paused "billing" (pause_all ("billing" ∷ []) two_ready).1
      ≡ (mem "billing" ("billing" ∷ []) || is_paused "billing" two_ready))
    × (is_paused "billing" (resume_all ("billing" ∷ []) two_ready).1
        ≡ (not (mem "billing" ("billing" ∷ [])) && is_paused "billing" two_ready))
is_paused-all_example = is_paused-all "billing" ("billing" ∷ []) two_ready

star_relations :
    scoped_relations ("*" ∷ []) (mails ∷ bills ∷ []) (pause "billing" two_ready).pauses
    ≡ ok (queued_as "mail_out" ∷ [])
unfolding scoped_relations is_all queue_names eligible_queues all_queues distinct pause is_paused
star_relations = refl

pause-scoped_relations_example : str_eq "mail_out" "billing" ≡ false
unfolding in_relation
pause-scoped_relations_example =
    pause-scoped_relations "billing" ("*" ∷ []) (mails ∷ bills ∷ []) two_ready
      (queued_as "mail_out" ∷ []) mails star_relations refl

abbrev finished : Db
finished = record empty { jobs = record payment { id = 1; finished_at = some 3 } ∷ payment ∷ [] }

abbrev old : Filter
old = record { finished_before = 5; class_name = none }

clear_finished_in_batches-left_example :
    (after : Db) × ((clear_finished_in_batches 2 old 1 finished ≡ some after)
      × (left old after ≡ 0))
unfolding clearable
clear_finished_in_batches-left_example =
    clear_finished_in_batches-left old 0 2 finished (omega arith)

abbrev pay : Task String
pay = limits_concurrency 180 (text "Pay/1") 1 (some 60) none (record {
  module_path = "Pay";
  queue_name = some "billing";
  priority = none;
  run_after = none;
  concurrency_key = no_key;
  concurrency_limit = none;
  concurrency_duration = none;
  concurrency_group = none;
  serialize = λ a. some a;
})

abbrev pay_job : Job
pay_job = record payment { scheduled_at = some 10 }

pay-Agrees :
    (job : Job)
    → attributes_of env (steady_queue_task pay) "{}" ≡ some job
    → Agrees classes limits job
unfolding attributes_of attributes_from_django_task limits_concurrency
pay-Agrees job e =
    let same : pay_job ≡ job = ground (arith, e) in
    subst (Agrees classes limits) same payment-Agrees

enqueue_lem_example :
    enqueue env (steady_queue_task pay) "{}" empty ≡ (some (1, ready), created_db env pay_job empty)
unfolding attributes_of attributes_from_django_task limits_concurrency
enqueue_lem_example =
    enqueue_lem env empty limits (Inv-empty classes limits) (steady_queue_task pay) "{}"
      (λ job e. pay-Agrees job e)

-- Arguments that cannot be serialised write nothing, and neither does a task of another kind.
abbrev unserializable : Task String
unserializable = record pay { serialize = λ a. none }

enqueue-raises :
    (enqueue env (steady_queue_task unserializable) "{}" empty ≡ (none, empty))
    × (enqueue {A = String} env other_task "{}" empty ≡ (none, empty))
unfolding enqueue attributes_of attributes_from_django_task limits_concurrency
enqueue-raises = (refl, refl)

abbrev polled : Pool
polled = (poll env ("*" ∷ []) (some 7) 100 (new_pool 1) two_ready).0.1

Reach-capacity_example : Counts polled × (length polled.posted ≤ polled.size)
Reach-capacity_example = Reach-capacity env ("*" ∷ []) (some 7) 100 1 (next here (polls two_ready))

abbrev supervisor : Supervisor
supervisor = record {
  process = none;
  forks = (101, "worker-a") ∷ (102, "dispatcher-b") ∷ [];
  configured_processes =
      (101, Configuration.worker default_worker)
      ∷ (102, Configuration.dispatcher default_dispatcher)
      ∷ [];
}

supervisor-IsConsistent : IsConsistent supervisor
supervisor-IsConsistent = record { same = λ pid. ground arith; once = λ pid. ground arith }

abbrev crash : Exit
crash = record { pid = 101; status = "256"; new_pid = 103; new_name = "worker-c" }

replace_fork-Keeps_example :
    (after : Supervisor) × (((replace_fork env crash supervisor two_ready).0 ≡ ok after)
      × Keeps supervisor after)
unfolding handled_jobs handle_claimed_jobs_by
replace_fork-Keeps_example =
    replace_fork-Keeps env crash supervisor supervisor-IsConsistent refl two_ready (λ name e. refl)

-- A job of a queue that has a priority, and no semaphore of its key.
abbrev urgent : Job
urgent = record payment { id = 1; queue_name = "billing"; priority = pos 9 }

abbrev known : Db
known = record empty { next_id = 2; jobs = urgent ∷ [] }

release-block_example :
    (release env (new_blocked urgent "Pay/1" 70) (block env urgent known).1).1.ready
    ≡ record { job_id = 1; queue_name = ""; priority = pos 0 } ∷ []
unfolding get_job has_blocked has_ready wait wait_after attempt_creation get expires_at
release-block_example = release-block env urgent "Pay/1" known refl refl refl refl refl refl
