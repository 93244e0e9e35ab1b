-- ===== src/Engine/Outcomes.antt =====
-- What the engine decides, for every storage, broker and observer.
use flowforge.Base.{
  ◌≡◌, ◌<◌, ◌≤◌, not, ltb, int64_half, lt_int64-eq-ltb, refl, Option, none, some, arith, Error,
  Duration, Time, add_time, if◌then◌else◌,
}
use flowforge.Task.{Task, is_exhausted, pending}
use flowforge.Retry.{Float64, strategy_backoff}
use flowforge.Ports.{TaskStorage, TaskBroker, Observers}
use flowforge.Engine.{
  HandlerError, HandlerRun, Ended, ended, run_handler, Outcome, completed_outcome, retried_outcome,
  dead_letter_outcome, of_storage, Engine, Report, execute, succeed, bury_task, retry_task,
  handle_failure, effective_timeout,
}

-- what the outcome of an ended handler is to be
abbrev pub IsDecided : Task → Option HandlerError → Outcome → Type 0
IsDecided t none o = o ≡ completed_outcome
IsDecided t (some failure) o =
    (t.attempts < t.max_attempts → o ≡ retried_outcome)
    × (t.max_attempts ≤ t.attempts → o ≡ dead_letter_outcome)

-- the comparison of signed numbers in the engine, for numbers that are not negative
spent_iff :
    (t : Task)
    → t.attempts < int64_half
    → t.max_attempts < int64_half
    → is_exhausted t ≡ not (ltb t.attempts t.max_attempts)
unfolding is_exhausted
spent_iff t p q = rw (lt_int64-eq-ltb t.attempts t.max_attempts p q) refl

module _ (float : Float64) {S : Type 0} (storage : TaskStorage S) (broker : TaskBroker S)
    (observers : Observers S) (engine : Engine float) (t : Task) (now : Time) (s : S) where
  pub succeed_decides :
      (succeed float storage broker observers t now s).2.outcome ≡ completed_outcome
  unfolding succeed
  succeed_decides = ground arith

  pub bury_decides :
      (failure : HandlerError)
      → (bury_task float storage broker observers t failure now s).2.outcome ≡ dead_letter_outcome
  unfolding bury_task
  bury_decides failure = ground arith

  pub retry_decides :
      (failure : HandlerError)
      → (retry_task float storage broker observers engine t failure now s).2.outcome
        ≡ retried_outcome
  unfolding retry_task
  retry_decides failure = ground arith

module _ (float : Float64) {S : Type 0} (storage : TaskStorage S) (broker : TaskBroker S)
    (observers : Observers S) (engine : Engine float) (t : Task) (handler : Duration → HandlerRun)
    (now : Time) (s : S) where
  abbrev pub run_of_handler : Ended
  run_of_handler = run_handler (handler (effective_timeout engine.task_timeout t))

  abbrev pub report_of : Option (Report S)
  report_of = execute float storage broker observers engine t handler now s

  handle_failure_decides :
      (failure : HandlerError)
      → t.attempts < int64_half
      → t.max_attempts < int64_half
      → IsDecided t
          (some failure)
          (handle_failure float storage broker observers engine t failure now s).2.outcome
  unfolding handle_failure
  handle_failure_decides failure p q = let e = spent_iff t p q in ground arith

  -- A handler that ends has its outcome decided by success or failure and by the attempts spent, where
  -- attempts and maximum are not negative: an error is retried as long as the attempts are fewer than
  -- the maximum, and dead-lettered from the maximum on, whether or not it is marked retryable, and
  -- whatever storage, broker and observers answer.
  pub execute_decides :
      (e : Option HandlerError)
      → t.attempts < int64_half
      → t.max_attempts < int64_half
      → run_of_handler ≡ ended e
      → (r : Report S) × (report_of ≡ some r) × IsDecided t e r.2.outcome
  unfolding execute
  execute_decides none p q h = (
    succeed float storage broker observers t now s,
    rw (h, execute) refl,
    succeed_decides float storage broker observers engine t now s,
  )
  execute_decides (some failure) p q h = (
    handle_failure float storage broker observers engine t failure now s,
    rw (h, execute) refl,
    handle_failure_decides failure p q,
  )

  -- the storage call that an ended handler calls for
  abbrev pub settling_call : Option HandlerError → S × Option Error
  settling_call none = storage.complete t.org_id t.id now s
  settling_call (some failure) =
      if is_exhausted t
      then storage.move_to_dead_letter t.org_id t.id failure.text now s
      else storage.fail t.org_id t.id failure.text pending
          (add_time now (strategy_backoff float engine.retry_policy t.backoff_strategy t.attempts))
          now s

  record Untouched (s' : S) (error : Error) (r : Report S) : Type 0 where
    state : r.0 ≡ s'
    status : r.1.status ≡ t.status
    reported : r.2.error ≡ some (of_storage error)

  succeed-Untouched :
      (error : Error)
      → (storage.complete t.org_id t.id now s).1 ≡ some error
      → Untouched
          (storage.complete t.org_id t.id now s).0
          error
          (succeed float storage broker observers t now s)
  unfolding succeed
  succeed-Untouched error h = ground arith

  handle_failure-Untouched :
      (failure : HandlerError) (error : Error)
      → (settling_call (some failure)).1 ≡ some error
      → Untouched
          (settling_call (some failure)).0
          error
          (handle_failure float storage broker observers engine t failure now s)
  unfolding handle_failure
  handle_failure-Untouched failure error h = ground arith

  -- When the storage call fails, the engine calls nothing else: the state is what that call left,
  -- with no broker call, event or metric, the task keeps its status, and the error is reported.
  pub execute_untouched :
      (e : Option HandlerError) (error : Error)
      → run_of_handler ≡ ended e
      → (settling_call e).1 ≡ some error
      → (r : Report S) × (report_of ≡ some r)
        × (r.0 ≡ (settling_call e).0)
        × (r.1.status ≡ t.status)
        × (r.2.error ≡ some (of_storage error))
  unfolding execute
  execute_untouched none error h k =
      let u = succeed-Untouched error k in
      (
        succeed float storage broker observers t now s,
        rw (h, execute) refl,
        u.state,
        u.status,
        u.reported,
      )
  execute_untouched (some failure) error h k =
      let u = handle_failure-Untouched failure error k in
      (
        handle_failure float storage broker observers engine t failure now s,
        rw (h, execute) refl,
        u.state,
        u.status,
        u.reported,
      )
