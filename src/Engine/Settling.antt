-- ===== src/Engine/Settling.antt =====
-- The engine over the tasks table: a task whose handler ended is no longer held by a worker.
use flowforge.Base.{
  ℕ, ◌≡◌, ◌⊎◌, refl, add_time, inl, inr, Bool, true, false, Option, none, some, arith, All,
  All-update, Bool-cases, Duration, Time, is_none, String, update, [], ◌∷◌,
}
use flowforge.Task.{Task, TaskStatus, pending, processing, completed, dead_letter, is_exhausted}
use flowforge.Storage.{
  TaskRow, Table, has_ids, is_running, is_dispatchable, complete, fail, move_to_dead_letter,
  mark_dispatched, completed_row, failed_row, buried_row, dispatched_row,
}
use flowforge.Retry.{Float64, strategy_backoff}
use flowforge.Ports.{TaskBroker, Observers}
use flowforge.Engine.{
  HandlerError, HandlerRun, ended, run_handler, Outcome, completed_outcome, retried_outcome,
  dead_letter_outcome, Engine, Report, execute, succeed, bury_task, retry_task, handle_failure,
  effective_timeout,
}
use flowforge.Engine.Outcomes.{succeed_decides, bury_decides, retry_decides}
use flowforge.Engine.Deployed.{World, postgres, beside_broker, beside_observers}

-- the status that an outcome leaves in the table
abbrev pub status_of : Outcome → TaskStatus
status_of completed_outcome = completed
status_of retried_outcome = pending
status_of dead_letter_outcome = dead_letter

-- the task's row has that status and no worker
abbrev pub IsReleased : ℕ → ℕ → TaskStatus → TaskRow → Type 0
IsReleased org id status r =
    has_ids org id r ≡ true → (r.status ≡ status) × (is_none r.locked_by ≡ true)

abbrev pub IsHeld : ℕ → ℕ → TaskRow → Type 0
IsHeld org id r = has_ids org id r ≡ true → r.status ≡ processing

released :
    (org id : ℕ) (status : TaskStatus) (f : TaskRow → TaskRow) (rows : Table)
    → ((r : TaskRow) → IsReleased org id status (f r))
    → All (IsHeld org id) rows
    → All (IsReleased org id status) (update (is_running org id) f rows)
unfolding update
released org id status f [] h held = tt
released org id status f (r ∷ rows) h held = (
  elim (Bool-cases (is_running org id r)) [
    | inl e ↦ rw e (h r)
    | inr e ↦ rw e (λ named. absurd (idle org id r named (held.0 named) e))
  ],
  released org id status f rows h held.1,
)
  where
    idle :
        (org id : ℕ) (r : TaskRow)
        → has_ids org id r ≡ true
        → r.status ≡ processing
        → is_running org id r ≡ false
        → ⊥
    idle org id r n p e = ground arith

module _ (org id : ℕ) (rows : Table) (held : All (IsHeld org id) rows) where
  complete-IsReleased :
      (now : Time) → All (IsReleased org id completed) (complete org id now rows).0
  unfolding complete completed_row
  complete-IsReleased now = released org id completed _ rows (λ r h. (refl, refl)) held

  bury-IsReleased :
      (message : String) (now : Time)
      → All (IsReleased org id dead_letter) (move_to_dead_letter org id message now rows).0
  unfolding move_to_dead_letter buried_row
  bury-IsReleased message now = released org id dead_letter _ rows (λ r h. (refl, refl)) held

  fail-IsReleased :
      (message : String) (visible_at now : Time)
      → All (IsReleased org id pending) (fail org id message pending visible_at now rows).0
  unfolding fail failed_row
  fail-IsReleased message visible_at now = released org id pending _ rows (λ r h. (refl, refl)) held

mark_dispatched-IsReleased :
    (org id : ℕ) (now : Time) (rows : Table)
    → All (IsReleased org id pending) rows
    → All (IsReleased org id pending) (mark_dispatched org id now rows).0
unfolding mark_dispatched dispatched_row
mark_dispatched-IsReleased org id now rows h =
    All-update (IsReleased org id pending) (is_dispatchable org id) _ rows (λ r m p k. k) h

module _ (float : Float64) {B : Type 0} (locked : ℕ → Bool) (broker : TaskBroker B)
    (observers : Observers B) (engine : Engine float) (t : Task) (now : Time) (w : World B) where
  abbrev bk : TaskBroker (World B)
  bk = beside_broker broker

  abbrev ob : Observers (World B)
  ob = beside_observers observers

  succeed-table :
      (succeed float (postgres locked) bk ob t now w).0.table
      ≡ (complete t.org_id t.id now w.table).0
  unfolding succeed
  succeed-table = ground arith

  bury-table :
      (u : Task) (failure : HandlerError)
      → (bury_task float (postgres locked) bk ob u failure now w).0.table
        ≡ (move_to_dead_letter u.org_id u.id failure.text now w.table).0
  unfolding bury_task
  bury-table u failure = ground arith

  abbrev failed_table : Task → HandlerError → Table
  failed_table u failure =
      (fail u.org_id u.id failure.text pending
        (add_time now (strategy_backoff float engine.retry_policy u.backoff_strategy u.attempts))
        now w.table).0

  retry-table :
      (u : Task) (failure : HandlerError)
      → ((retry_task float (postgres locked) bk ob engine u failure now w).0.table
          ≡ failed_table u failure)
        ⊎ ((retry_task float (postgres locked) bk ob engine u failure now w).0.table
            ≡ (mark_dispatched u.org_id u.id now (failed_table u failure)).0)
  unfolding retry_task
  retry-table u failure = ground arith

  abbrev Held : Task → Type 0
  Held u = All (IsHeld u.org_id u.id) w.table

  abbrev Settled : Task → Report (World B) → Type 0
  Settled u r = All (IsReleased u.org_id u.id (status_of r.2.outcome)) r.0.table

  succeed-Settled : Held t → Settled t (succeed float (postgres locked) bk ob t now w)
  succeed-Settled h =
      rw (succeed_decides float (postgres locked) bk ob engine t now w, succeed-table)
        (complete-IsReleased t.org_id t.id w.table h now)

  bury-Settled :
      (u : Task) (failure : HandlerError)
      → Held u
      → Settled u (bury_task float (postgres locked) bk ob u failure now w)
  bury-Settled u failure h =
      rw (bury_decides float (postgres locked) bk ob engine u now w failure, bury-table u failure)
        (bury-IsReleased u.org_id u.id w.table h failure.text now)

  retry-Settled :
      (u : Task) (failure : HandlerError)
      → Held u
      → Settled u (retry_task float (postgres locked) bk ob engine u failure now w)
  retry-Settled u failure h =
      let pended =
        fail-IsReleased u.org_id u.id w.table h failure.text
          (add_time now (strategy_backoff float engine.retry_policy u.backoff_strategy u.attempts))
          now in
      rw (retry_decides float (postgres locked) bk ob engine u now w failure)
        (elim (retry-table u failure) [
          | inl e ↦ rw e pended
          | inr e ↦
              rw e (mark_dispatched-IsReleased u.org_id u.id now (failed_table u failure) pended)
        ])

  handle_failure-Settled :
      (failure : HandlerError)
      → Held t
      → Settled t (handle_failure float (postgres locked) bk ob engine t failure now w)
  unfolding handle_failure
  handle_failure-Settled failure h =
      let u = record t { last_error = failure.text } in
      elim (Bool-cases (is_exhausted u)) [
        | inl e ↦ rw e (bury-Settled u failure h)
        | inr e ↦ rw e (retry-Settled u failure h)
      ]

  -- When a handler ends, the engine's storage call leaves no row of the task with a worker: each is
  -- completed, pending again or dead-lettered, as the reported outcome says. The task is processing
  -- when the handler ends.
  pub execute_settles :
      (handler : Duration → HandlerRun) (e : Option HandlerError)
      → run_handler (handler (effective_timeout engine.task_timeout t)) ≡ ended e
      → Held t
      → (r : Report (World B)) × (execute float (postgres locked) bk ob engine t handler now w
          ≡ some r)
        × Settled t r
  unfolding execute
  execute_settles handler none h k =
      (succeed float (postgres locked) bk ob t now w, rw (h, execute) refl, succeed-Settled k)
  execute_settles handler (some failure) h k = (
    handle_failure float (postgres locked) bk ob engine t failure now w,
    rw (h, execute) refl,
    handle_failure-Settled failure k,
  )
