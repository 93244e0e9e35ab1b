-- ===== src/Engine/Faults.antt =====
-- The engine over a database that may be away: what the settling call leaves.
use flowforge.Base.{
  ℕ, ◌≡◌, refl, ◌∙◌, inl, inr, Bool, true, false, Option, none, some, All, Bool-cases, Duration,
  Time, ap, Error, add_time, if◌then◌else◌,
}
use flowforge.Task.{Task, pending, is_exhausted}
use flowforge.Storage.{Table, complete, fail, move_to_dead_letter}
use flowforge.Retry.{Float64, strategy_backoff}
use flowforge.Ports.{TaskStorage, TaskBroker, Observers}
use flowforge.Engine.{
  Engine, HandlerError, HandlerRun, ended, of_storage, Report, execute, run_handler, succeed,
  bury_task, retry_task, handle_failure, effective_timeout,
}
use flowforge.Engine.Outcomes.{settling_call, execute_untouched}
use flowforge.Engine.Deployed.{
  World, with_table, postgres, faulty, database_error, beside_broker, beside_observers,
}
use flowforge.Engine.Settling.{IsHeld, IsReleased, status_of, execute_settles}

module _ (float : Float64) {B : Type 0} (locked : ℕ → Bool) (down : B → Bool)
    (broker : TaskBroker B) (observers : Observers B) (engine : Engine float) (t : Task)
    (handler : Duration → HandlerRun) (now : Time) (w : World B) where
  abbrev bk : TaskBroker (World B)
  bk = beside_broker broker

  abbrev ob : Observers (World B)
  ob = beside_observers observers

  abbrev over : TaskStorage (World B) → Option (Report (World B))
  over storage =
      execute float storage (beside_broker broker) (beside_observers observers) engine t handler now
        w

  -- while the database is away, the call that settles the task fails
  settling_fails :
      (e : Option HandlerError)
      → down w.rest ≡ true
      → settling_call float
          (faulty locked down)
          (beside_broker broker)
          (beside_observers observers)
          engine
          t
          handler
          now
          w
          e
        ≡ (w, some database_error)
  settling_fails none d = rw d refl
  settling_fails (some failure) d = elim (Bool-cases (is_exhausted t)) [
    | inl e ↦ rw (e, d) refl
    | inr e ↦ rw (e, d) refl
  ]

  -- and while it is not, the engine does what it does over the table
  answer :
      down w.rest ≡ false
      → (p : Table × Option Error)
      → (if down w.rest then (w, some database_error) else with_table w p) ≡ with_table w p
  answer d p = rw d refl

  succeed-faulty :
      down w.rest ≡ false
      → succeed float (faulty locked down) bk ob t now w
        ≡ succeed float (postgres locked) bk ob t now w
  unfolding succeed
  succeed-faulty d =
      ap
        (λ p. succeed float (record (postgres locked) { complete = λ org id n v. p }) bk ob t now w)
        (answer d (complete t.org_id t.id now w.table))

  bury-faulty :
      (u : Task) (failure : HandlerError)
      → down w.rest ≡ false
      → bury_task float (faulty locked down) bk ob u failure now w
        ≡ bury_task float (postgres locked) bk ob u failure now w
  unfolding bury_task
  bury-faulty u failure d =
      ap
        (λ p.
          bury_task float (record (postgres locked) { move_to_dead_letter = λ org id m n v. p }) bk
            ob u failure now w)
        (answer d (move_to_dead_letter u.org_id u.id failure.text now w.table))

  retry-faulty :
      (u : Task) (failure : HandlerError)
      → down w.rest ≡ false
      → retry_task float (faulty locked down) bk ob engine u failure now w
        ≡ retry_task float (postgres locked) bk ob engine u failure now w
  unfolding retry_task
  retry-faulty u failure d =
      ap
        (λ p.
          retry_task float (record (postgres locked) { fail = λ org id m next at n v. p }) bk ob
            engine u failure now w)
        (answer d (
          fail u.org_id u.id failure.text pending
            (add_time now
              (strategy_backoff float engine.retry_policy u.backoff_strategy u.attempts))
            now w.table))

  handle_failure-faulty :
      (failure : HandlerError)
      → down w.rest ≡ false
      → handle_failure float (faulty locked down) bk ob engine t failure now w
        ≡ handle_failure float (postgres locked) bk ob engine t failure now w
  unfolding handle_failure
  handle_failure-faulty failure d =
      let u = record t { last_error = failure.text } in
      elim (Bool-cases (is_exhausted u)) [
        | inl e ↦ rw e (bury-faulty u failure d)
        | inr e ↦ rw e (retry-faulty u failure d)
      ]

  execute-faulty :
      (e : Option HandlerError)
      → run_handler (handler (effective_timeout engine.task_timeout t)) ≡ ended e
      → down w.rest ≡ false
      → over (faulty locked down) ≡ over (postgres locked)
  unfolding execute
  execute-faulty none h d =
      rw (h, execute) (ap (λ (r : Report (World B)). some r) (succeed-faulty d))
  execute-faulty (some failure) h d =
      rw (h, execute) (ap (λ (r : Report (World B)). some r) (handle_failure-faulty failure d))

  pub data Outage : Type 0 where
    away :
        (r : Report (World B))
        → over (faulty locked down) ≡ some r
        → r.0 ≡ w
        → r.2.error ≡ some (of_storage database_error)
        → Outage
    answered :
        (r : Report (World B))
        → over (faulty locked down) ≡ some r
        → All (IsReleased t.org_id t.id (status_of r.2.outcome)) r.0.table
        → Outage

  -- Of a task that is processing, the settlement fails and changes nothing, or leaves no row with a
  -- worker.
  pub execute-Outage :
      (e : Option HandlerError)
      → run_handler (handler (effective_timeout engine.task_timeout t)) ≡ ended e
      → All (IsHeld t.org_id t.id) w.table
      → Outage
  execute-Outage e h held = elim (Bool-cases (down w.rest)) [
    | inl d ↦
        let fails = settling_fails e d in
        let (r, eq, state, status, reported) =
          execute_untouched float (faulty locked down) (beside_broker broker)
            (beside_observers observers) engine t handler now w e database_error h
            (ap (λ p. p.1) fails) in
        away r eq (state ∙ ap (λ p. p.0) fails) reported
    | inr d ↦
        let (r, eq, done) =
          execute_settles float locked broker observers engine t now w handler e h held in
        answered r (execute-faulty e h d ∙ eq) done
  ]
