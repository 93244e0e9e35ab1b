-- ===== src/Engine.antt =====
-- internal/engine/engine.go: what becomes of a claimed task when its handler ends.
pub mod Deployed
pub mod Outcomes
pub mod Settling
pub mod Faults
pub mod Loops
use flowforge.Base.{
  ℕ, ◌-◌, ◌/◌, String, Bool, true, false, Option, none, some, Duration, Time, Error, add_time,
  lt_int64, if◌then◌else◌,
}
use flowforge.Task.{TaskStatus, pending, completed, dead_letter, Task, is_exhausted}
use flowforge.Webhook.{
  WebhookEventType, task_processing, task_completed, task_failed, task_dead_letter,
}
use flowforge.Retry.{Float64, RetryPolicy, strategy_backoff}
use flowforge.Ports.{
  TaskStorage, TaskBroker, Observers, MetricEventType, TaskMetric, task_started, task_succeeded,
  task_dead_lettered, task_retry_scheduled,
}
use flowforge.Ports

-- an error that a handler returns; `retryable` if it is wrapped in domain.RetryableError
pub record HandlerError : Type 0 where
  pub text : String
  pub retryable : Bool

-- How the goroutine of a handler ends: it returns, its context ends first, or it panics. The
-- deferred recover of runHandler stands in another goroutine and does not catch that panic.
pub data HandlerRun : Type 0 where
  returned : Option HandlerError → HandlerRun
  timed_out : HandlerRun
  panicked : HandlerRun

pub data Ended : Type 0 where
  crashed : Ended
  ended : Option HandlerError → Ended

unfoldable pub run_handler : HandlerRun → Ended
run_handler (returned e) = ended e
run_handler timed_out = ended (
    some (record { text = "task execution timeout: context deadline exceeded"; retryable = false }))
run_handler panicked = crashed

pub data Outcome : Type 0 where
  completed_outcome retried_outcome dead_letter_outcome : Outcome

pub data Failure : Type 0 where
  of_storage : Error → Failure
  of_handler : HandlerError → Failure

pub record EngineResult : Type 0 where
  pub task_id : ℕ
  pub outcome : Outcome
  pub error : Option Failure

-- the metrics that carry the time since the task's last update
abbrev has_duration : MetricEventType → Bool
has_duration task_succeeded = true
has_duration Ports.task_failed = true
has_duration _ = false

-- `timeout := e.taskTimeout; if task.TaskTimeout > 0 { … }`
unfoldable pub effective_timeout : Duration → Task → Duration
effective_timeout task_timeout t =
    if lt_int64 0 t.task_timeout then t.task_timeout else task_timeout

-- The source's Sub and its clamp at 0 are the truncated `-`.
unfoldable pub task_metric : Task → MetricEventType → Time → String → TaskMetric
task_metric t event_type now error_code = record {
  org_id = t.org_id;
  event_type = event_type;
  resource_id = t.id;
  queue = t.queue;
  status = t.status;
  duration_ms = if has_duration event_type then some ((now - t.updated_at) / 1000000) else none;
  occurred_at = now;
  attempt = some t.attempts;
  max_attempts = some t.max_attempts;
  error_code = error_code;
}

-- the engine's own fields; its ports are the parameters of the section below
pub record Engine (float : Float64) : Type 0 where
  pub retry_policy : RetryPolicy float
  pub task_timeout : Duration

-- The task that the caller holds comes back beside the state: the source changes it in place.
abbrev pub Report : Type 0 → Type 0
Report S = S × Task × EngineResult

module _ (float : Float64) {S : Type 0} (storage : TaskStorage S) (broker : TaskBroker S)
    (observers : Observers S) where
  abbrev observe : Task → MetricEventType → Time → String → S → S
  observe t event_type now error_code =
      observers.record_metric (task_metric t event_type now error_code)

  abbrev report : S → Task → Outcome → Option Failure → Report S
  report s t outcome error = (s, t, record { task_id = t.id; outcome = outcome; error = error })

  pub succeed : Task → Time → S → Report S
  succeed t now s =
      let (s₁, e) = storage.complete t.org_id t.id now s in
      elim e [
        | some error ↦ report s₁ t completed_outcome (some (of_storage error))
        | none ↦
            let t₁ = record t { status = completed; completed_at = some now } in
            let s₂ = observe t₁ task_succeeded now "" s₁ in
            let t₂ = record t₁ { updated_at = now } in
            let s₃ = observers.publish_task_event task_completed t₂ s₂ in
            let s₄ = (broker.ack t.org_id t.queue t.id s₃).0 in report s₄ t₂ completed_outcome none
      ]

  pub bury_task : Task → HandlerError → Time → S → Report S
  bury_task t failure now s =
      let (s₁, e) = storage.move_to_dead_letter t.org_id t.id failure.text now s in
      elim e [
        | some error ↦ report s₁ t dead_letter_outcome (some (of_storage error))
        | none ↦
            let t₁ = record t { status = dead_letter } in
            let s₂ = observe t₁ Ports.task_failed now "handler_error" s₁ in
            let s₃ = observe t₁ task_dead_lettered now "handler_error" s₂ in
            let t₂ = record t₁ { updated_at = now } in
            let s₄ = observers.publish_task_event task_dead_letter t₂ s₃ in
            let s₅ = (broker.bury t.org_id t.queue t.id s₄).0 in
            report s₅ t₂ dead_letter_outcome (some (of_handler failure))
      ]

  -- `Nack`, and the dispatch marker only if it succeeds
  pub renew_dispatch : Task → Duration → Time → S → S
  renew_dispatch t backoff now s =
      let (s₁, e) = broker.nack t.org_id t.queue t.id backoff s in
      elim e [ some error ↦ s₁ | none ↦ (storage.mark_dispatched t.org_id t.id now s₁).0 ]

  pub retry_task : Engine float → Task → HandlerError → Time → S → Report S
  unfolding renew_dispatch
  retry_task engine t failure now s =
      let backoff = strategy_backoff float engine.retry_policy t.backoff_strategy t.attempts in
      let visible_at = add_time now backoff in
      let (s₁, e) = storage.fail t.org_id t.id failure.text pending visible_at now s in
      elim e [
        | some error ↦ report s₁ t retried_outcome (some (of_storage error))
        | none ↦
            let t₁ = record t { status = pending; visible_at = visible_at } in
            let s₂ = observe t₁ Ports.task_failed now "handler_error" s₁ in
            let s₃ = observe t₁ task_retry_scheduled now "handler_error" s₂ in
            let t₂ = record t₁ { updated_at = now } in
            let s₄ = observers.publish_task_event task_failed t₂ s₃ in
            let s₅ = renew_dispatch t₂ backoff now s₄ in
            report s₅ t₂ retried_outcome (some (of_handler failure))
      ]

  pub handle_failure : Engine float → Task → HandlerError → Time → S → Report S
  unfolding bury_task retry_task is_exhausted
  handle_failure engine t failure now s =
      let t₁ = record t { last_error = failure.text } in
      if is_exhausted t₁ then bury_task t₁ failure now s else retry_task engine t₁ failure now s

  -- `handler` is run with its deadline; `now` is the time at which it ended. `none`: the process
  -- has crashed.
  unfoldable pub execute :
      Engine float → Task → (handler : Duration → HandlerRun) → (now : Time) → S → Option (Report S)
  unfolding succeed handle_failure run_handler effective_timeout
  execute engine t handler now s =
      elim (run_handler (handler (effective_timeout engine.task_timeout t))) [
        | crashed ↦ none
        | ended none ↦ some (succeed t now s)
        | ended (some failure) ↦ some (handle_failure engine t failure now s)
      ]

  unfoldable pub publish_processing_event : Task → Time → S → S
  publish_processing_event t now s =
      observers.publish_task_event task_processing t (observe t task_started now "" s)
