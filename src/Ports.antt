-- ===== src/Ports.antt =====
-- internal/ports: what the engine, the pool and the task service ask of storage, broker, event publisher and metric recorder. The
-- state `S` is all that they change; an error comes back beside the new state.
use flowforge.Base.{ℕ, String, Option, Duration, Time, Error, Result}
use flowforge.Task.{TaskStatus, Task}
use flowforge.Webhook.{WebhookEventType}

-- internal/ports/storage.go, the part that the engine, the pool and the task service call
pub record TaskStorage (S : Type 0) : Type 0 where
  pub claim_for_processing : (org id : ℕ) → String → Time → S → S × Result Task
  pub complete : (org id : ℕ) → Time → S → S × Option Error
  pub fail : (org id : ℕ) → String → TaskStatus → (visible_at now : Time) → S → S × Option Error
  pub move_to_dead_letter : (org id : ℕ) → String → Time → S → S × Option Error
  pub mark_dispatched : (org id : ℕ) → Time → S → S × Option Error
  pub create : Task → S → S × Option Error
  pub get_by_id : (org id : ℕ) → S → S × Result Task
  pub find_by_idempotency_key : (org : ℕ) → (queue key : String) → S → S × Result Task
  pub requeue : (org id : ℕ) → Time → S → S × Option Error
  pub cancel : (org id : ℕ) → Time → S → S × Result Task
  pub soft_delete : (org id : ℕ) → Time → S → S × Option Error

-- internal/ports/broker.go, the part that the engine, the pool and the task service call
pub record TaskBroker (S : Type 0) : Type 0 where
  pub ack : (org : ℕ) → String → (id : ℕ) → S → S × Option Error
  pub nack : (org : ℕ) → String → (id : ℕ) → Duration → S → S × Option Error
  pub bury : (org : ℕ) → String → (id : ℕ) → S → S × Option Error
  pub enqueue : Task → S → S × Option Error
  pub enqueue_delayed : Task → Duration → S → S × Option Error
  pub remove : (org : ℕ) → String → (id : ℕ) → S → S × Option Error

pub data MetricEventType : Type 0 where
  task_ingested task_started task_succeeded task_failed task_retry_scheduled : MetricEventType
  task_dead_lettered task_cancelled : MetricEventType
  delivery_created delivery_started delivery_succeeded delivery_failed : MetricEventType
  delivery_retry_scheduled delivery_exhausted : MetricEventType
  workflow_execution_created workflow_execution_started : MetricEventType
  workflow_execution_succeeded workflow_execution_failed : MetricEventType
  workflow_execution_cancelled node_execution_started node_execution_succeeded : MetricEventType
  node_execution_failed node_execution_skipped node_execution_cancelled : MetricEventType
  worker_registered worker_heartbeat worker_stopped worker_stale : MetricEventType
  queue_snapshot_captured : MetricEventType

-- the fields of a task metric that are not constant
pub record TaskMetric : Type 0 where
  pub org_id : ℕ
  pub event_type : MetricEventType
  pub resource_id : ℕ
  pub queue : String
  pub status : TaskStatus
  pub duration_ms : Option ℕ
  pub occurred_at : Time
  pub attempt : Option ℕ
  pub max_attempts : Option ℕ
  pub error_code : String

-- Events and metrics: an error of the publisher is only logged, and a recorder returns none.
pub record Observers (S : Type 0) : Type 0 where
  pub publish_task_event : WebhookEventType → Task → S → S
  pub record_metric : TaskMetric → S → S
