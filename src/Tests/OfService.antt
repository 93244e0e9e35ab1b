-- ===== src/Tests/OfService.antt =====
-- The theorems on the pool and on the task service, for the sample task and ports.
use flowforge.Base.{ℕ, ◌≡◌, ◌≢◌, refl, [], ◌∷◌, none, some, false, true, find, affected, Bool, ltb}
use flowforge.Task.{Task}
use flowforge.Storage.{create, find_by_idempotency_key}
use flowforge.Engine.{HandlerRun, returned, ended, run_handler}
use flowforge.Engine.Deployed.{World, postgres, faulty, beside_broker, beside_observers}
use flowforge.Pool.{WorkerConfig, process}
use flowforge.Pool.Slot.{IsLeft, process-IsLeft}
use flowforge.Service.{
  CreateTaskInput, Fingerprints, Clock, Creation, create_task, requested_task, request_fingerprint,
}
use flowforge.Service.Idempotent.{create_task_again}
use flowforge.Tests.Samples.{mail_row, unlocked, float, engine, broker, observers}

abbrev world : World ℕ
world = record { table = mail_row ∷ []; rest = 0 }

abbrev cfg : WorkerConfig
cfg = record {
  worker_id = "w1";
  org_id = 1;
  concurrency = 4;
  rate_limit_per_sec = 10;
  heartbeat_interval = 10000000000;
  shutdown_timeout = 30000000000;
}

abbrev handler : ℕ → HandlerRun
handler timeout = returned none

handler_ended : (timeout : ℕ) → run_handler (handler timeout) ≡ ended none
unfolding run_handler
handler_ended timeout = refl

-- a database that goes away after two changes of what is beside the table
abbrev after_two : ℕ → Bool
after_two b = ltb 2 b

process-IsLeft_example :
    IsLeft float unlocked after_two broker observers engine cfg "mail" handler 2000 2001 5000 7
      world
      (process float
        (faulty unlocked after_two)
        (beside_broker broker)
        (beside_observers observers)
        engine
        cfg
        "mail"
        handler
        2000
        2001
        5000
        7
        world)
process-IsLeft_example =
    process-IsLeft float unlocked after_two broker observers engine cfg "mail" handler 2000 2001
      5000 7 world none handler_ended

abbrev lib : Fingerprints
lib = record { normalize = λ s. some s; digest = λ c. some c.payload }

abbrev input : CreateTaskInput
input = record {
  org_id = 1;
  idempotency_key = "welcome";
  queue = "mail";
  payload = "{}";
  priority = 5;
  max_retries = 2;
  timeout = 0;
  visibility_timeout = 30000000000;
  scheduled_at = none;
  backoff_strategy = "fixed";
  trace_id = "";
}

abbrev first : Clock
first = record { created = 1000; now = 1001; later = 1002 }

abbrev second : Clock
second = record { created = 8000; now = 8001; later = 8002 }

abbrev empty : World ℕ
empty = record { table = []; rest = 0 }

abbrev answer : World ℕ × Creation
answer =
    create_task (postgres unlocked) (beside_broker broker) (beside_observers observers) lib 7 first
      input empty

abbrev made : Task
made = requested_task 7 1000 input "{}" "{}"

keyed : input.idempotency_key ≢ ""
keyed e = cc

answer_new : answer.1.replayed ≡ false
unfolding create_task request_fingerprint find_by_idempotency_key find create affected
    requested_task
answer_new = refl

answer_task : answer.1.task ≡ some made
unfolding create_task request_fingerprint find_by_idempotency_key find create affected
    requested_task
answer_task = refl

create_task_again_example :
    (u : Task) × (create_task
        (postgres unlocked)
        (beside_broker broker)
        (beside_observers observers)
        lib
        8
        second
        input
        answer.0
      ≡ (answer.0, record { task = some u; replayed = true; error = none }))
    × (u.id ≡ made.id)
create_task_again_example =
    create_task_again unlocked broker observers lib input 7 8 first second empty made keyed
      answer_new answer_task
