-- ===== src/Pool.antt =====
-- internal/worker/pool.go: what a slot of the pool does with one task id. The heartbeat that runs
-- beside the handler is a statement of its own (Storage.heartbeat); the detached context, the slot's
-- semaphore and the map of tasks in flight are the runtime's.
pub mod Slot
use flowforge.Base.{ℕ, String, Option, none, some, Duration, Time, Result, ok, err}
use flowforge.Task.{Task}
use flowforge.Retry.{Float64}
use flowforge.Ports.{TaskStorage, TaskBroker, Observers}
use flowforge.Engine.{Engine, HandlerRun, Report, execute, publish_processing_event}

pub record WorkerConfig : Type 0 where
  pub worker_id : String
  pub org_id : ℕ
  pub concurrency : ℕ  -- int64
  pub rate_limit_per_sec : ℕ  -- int64
  pub heartbeat_interval : Duration
  pub shutdown_timeout : Duration

-- what came of the task id
pub data Processed (S : Type 0) : Type 0 where
  skipped : S → Processed S
  crashed : Processed S
  settled : Report S → Processed S

module _ (float : Float64) {S : Type 0} (storage : TaskStorage S) (broker : TaskBroker S)
    (observers : Observers S) where
  abbrev concluded : Option (Report S) → Processed S
  concluded none = crashed
  concluded (some r) = settled r

  -- `claimed_at` is the time of the claim, `started` that of the event and `now` that at which the
  -- handler ended.
  unfoldable pub process :
      Engine float
      → WorkerConfig
      → String
      → (handler : Duration → HandlerRun) → (claimed_at started now : Time) → ℕ
      → S
      → Processed S
  process engine cfg queue handler claimed_at started now id s =
      let (s₁, claimed) = storage.claim_for_processing cfg.org_id id cfg.worker_id claimed_at s in
      elim claimed [
        | err error ↦ skipped (broker.ack cfg.org_id queue id s₁).0
        | ok t ↦ concluded (
            execute float storage broker observers engine t handler now
              (publish_processing_event float storage broker observers t started s₁))
      ]
