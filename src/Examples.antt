-- ===== src/Examples.antt =====
-- Concrete jobs, semaphores and queues, for the examples and the tests of this module's children.
pub mod Limits
pub mod Semaphores
pub mod Queues
pub mod Calls
pub mod Processes
pub mod Running
pub mod Schedules
pub mod Pidfiles
pub mod Stopping
pub mod Upkeep
use steady_queue.Prelude.{ℕ, String, ◌≡◌, refl, Option, none, some, List, [], ◌∷◌, false, true}
use steady_queue.Prelude.Int.{ℤ, pos}
use steady_queue.Semaphore.{Semaphore, Proxy, limit_of}
use steady_queue.Db.{Db, Job, ReadyExecution, empty}
use steady_queue.Env.{Env, TaskClass}
use steady_queue.Limits.{Agrees}

-- A task with one job at a time for each key, and one without a limit.
abbrev pub one_at_a_time : TaskClass
one_at_a_time = record { concurrency_limit = some 1; concurrency_duration = some 60 }

abbrev pub classes : String → Option TaskClass
classes name = some one_at_a_time

abbrev pub limits : String → ℕ
limits key = 1

abbrev pub env : Env
env = record {
  now = 10;
  preserve_finished_jobs = true;
  process_alive_threshold = 5;
  job_class = classes;
  key_le = λ a b. true;
  locked_ready = λ i. false;
  locked_blocked = λ i. false;
  locked_scheduled = λ i. false;
  locked_process = λ i. false;
}

abbrev pub payment : Job
payment = record {
  id = 0;
  queue_name = "billing";
  class_name = "Pay";
  arguments = "{}";
  priority = pos 0;
  scheduled_at = none;
  finished_at = none;
  concurrency_key = some "Pay/1";
}

pub payment-Agrees : Agrees classes limits payment
unfolding limit_of
payment-Agrees k e = (one_at_a_time, (60, (refl, (refl, refl))))

-- One job is claimed, and no other table has a row.
abbrev pub working : Db
working = record empty {
  next_id = 2;
  jobs = record payment { id = 1 } ∷ [];
  claimed = record { job_id = 1; process_id = some 7 } ∷ [];
}

abbrev pub mails : ReadyExecution
mails = record { job_id = 4; queue_name = "mail_out"; priority = pos 0 }

abbrev pub bills : ReadyExecution
bills = record { job_id = 5; queue_name = "billing"; priority = pos 2 }

abbrev pub two_ready : Db
two_ready = record empty { next_id = 6; ready = mails ∷ bills ∷ [] }

abbrev pub proxy_of : ℕ → Proxy
proxy_of limit = record { key = "Pay/1"; limit = limit; expires_at = 70 }

abbrev pub semaphore : ℕ → Semaphore
semaphore value = record { key = "Pay/1"; value = value; expires_at = some 50 }

abbrev pub other_semaphore : Semaphore
other_semaphore = record { key = "Mail"; value = 2; expires_at = some 5 }
