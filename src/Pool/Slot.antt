-- ===== src/Pool/Slot.antt =====
-- A slot over the tasks table: no task that it took up stays with its worker.
use flowforge.Base.{
  ℕ, ◌≡◌, refl, ap, sym, subst, ◌∙◌, inl, inr, Bool, true, false, Option, some, arith, All,
  Bool-cases, Result-cases, Result, ok, err, Error, Duration, Time, String, Option-cases, find,
}
use flowforge.Task.{Task, mark_processing}
use flowforge.Storage.{
  TaskRow, Table, has_ids, claim_for_processing, claimed_row, to_domain, claimable,
}
use flowforge.Storage.Rows.{All_of_update}
use flowforge.Storage.Claiming.{claim-eq-ok}
use flowforge.Retry.{Float64}
use flowforge.Ports.{TaskBroker, Observers}
use flowforge.Engine.{
  Engine, of_storage, HandlerRun, HandlerError, ended, Report, execute, run_handler,
  publish_processing_event,
}
use flowforge.Engine.Deployed.{
  World, with_table, faulty, database_error, beside_broker, beside_observers,
}
use flowforge.Engine.Faults.{away, answered, execute-Outage}
use flowforge.Engine.Settling.{IsReleased, IsHeld, status_of}
use flowforge.Pool.{WorkerConfig, Processed, skipped, settled, process}

-- a claim that succeeds leaves every row of its task processing
claim-IsHeld :
    (locked : ℕ → Bool) (org id : ℕ) (worker : String) (now : Time) (rows : Table) {t : Task}
    → (claim_for_processing locked org id worker now rows).1 ≡ ok t
    → All (IsHeld t.org_id t.id) (claim_for_processing locked org id worker now rows).0
claim-IsHeld locked org id worker now rows {t = t} won =
    let (r, m, q, e, a) = claim-eq-ok locked org id worker now rows won in
    rw a (
      All_of_update (IsHeld t.org_id t.id) (has_ids org t.id) (claimed_row t now) rows
        (λ s p. held t r s e) (λ s p. foreign t r s e q p))
  where
    held :
        (t : Task) (r s : TaskRow)
        → t ≡ mark_processing worker now (to_domain r)
        → IsHeld t.org_id t.id (claimed_row t now s)
    held t r s e = unfold claimed_row mark_processing in ground arith

    foreign :
        (t : Task) (r s : TaskRow)
        → t ≡ mark_processing worker now (to_domain r)
        → claimable locked org id now r ≡ true
        → has_ids org t.id s ≡ false
        → IsHeld t.org_id t.id s
    foreign t r s e q p = unfold claimable mark_processing to_domain in ground arith

-- and one that fails leaves the table as it was
claim-eq-err :
    (locked : ℕ → Bool) (org id : ℕ) (worker : String) (now : Time) (rows : Table) {x : Error}
    → (claim_for_processing locked org id worker now rows).1 ≡ err x
    → (claim_for_processing locked org id worker now rows).0 ≡ rows
unfolding claim_for_processing
claim-eq-err locked org id worker now rows h =
    elim (Option-cases (find (claimable locked org id now) rows)) [
      | inl e ↦ rw (e, claim_for_processing) refl
      | inr (r, e) ↦ cc (rw (e, claim_for_processing) at h)
    ]

module _ (float : Float64) {B : Type 0} (locked : ℕ → Bool) (down : B → Bool)
    (broker : TaskBroker B) (observers : Observers B) (engine : Engine float) (cfg : WorkerConfig)
    (queue : String) (handler : Duration → HandlerRun) (claimed_at started now : Time) (id : ℕ)
    (w : World B) where
  abbrev claim_of : Table × Result Task
  claim_of = claim_for_processing locked cfg.org_id id cfg.worker_id claimed_at w.table

  abbrev outcome : Processed (World B)
  outcome =
      process float (faulty locked down) (beside_broker broker) (beside_observers observers) engine
        cfg queue handler claimed_at started now id w

  -- what a slot may leave
  pub data IsLeft : Processed (World B) → Type 0 where
    untouched : {v : World B} → v.table ≡ w.table → IsLeft (skipped v)
    released :
        {r : Report (World B)} (t : Task)
        → claim_of.1 ≡ ok t
        → All (IsReleased t.org_id t.id (status_of r.2.outcome)) r.0.table
        → IsLeft (settled r)
    unsettled :
        {r : Report (World B)} (t : Task)
        → claim_of.1 ≡ ok t
        → r.0.table ≡ claim_of.0
        → r.2.error ≡ some (of_storage database_error)
        → IsLeft (settled r)

  abbrev claim_call : World B × Result Task
  claim_call = (faulty locked down).claim_for_processing cfg.org_id id cfg.worker_id claimed_at w

  claim_away : down w.rest ≡ true → claim_call ≡ (w, err database_error)
  claim_away d = rw d refl

  claim_answered : down w.rest ≡ false → claim_call ≡ with_table w claim_of
  claim_answered d = rw d refl

  abbrev claimed_world : Task → World B
  claimed_world t =
      publish_processing_event float (faulty locked down) (beside_broker broker)
        (beside_observers observers) t started claim_call.0

  executed :
      (e : Option HandlerError)
      → ((timeout : Duration) → run_handler (handler timeout) ≡ ended e)
      → down w.rest ≡ false
      → (t : Task) → claim_of.1 ≡ ok t
      → (r : Report (World B)) × (execute float
            (faulty locked down)
            (beside_broker broker)
            (beside_observers observers)
            engine
            t
            handler
            now
            (claimed_world t)
          ≡ some r)
        × IsLeft (settled r)
  unfolding publish_processing_event
  executed e ends d t h =
      let table = ap (λ (p : World B × Result Task). p.0.table) (claim_answered d) in
      let held =
        subst (λ (rows : Table). All (IsHeld t.org_id t.id) rows) (sym table)
          (claim-IsHeld locked cfg.org_id id cfg.worker_id claimed_at w.table h) in
      elim (execute-Outage float locked down broker observers engine t handler now (claimed_world t)
        e (ends _) held) [
          | away r eq same reported ↦
              (r, eq, unsettled t h (ap (λ (v : World B). v.table) same ∙ table) reported)
          | answered r eq done ↦ (r, eq, released t h done)
        ]

  -- When the handler ends, a slot over a database that may be away at the claim and at the settlement
  -- leaves one of three. It passes over the task, and the table is as it was. Or it claimed the task
  -- and settled it, and no row of it is left with a worker: each is completed, pending again or
  -- dead-lettered, as the reported outcome says. Or the database was away when the handler ended: the
  -- table is as the claim left it, the task still processing, and the error is reported. No other
  -- worker's statement comes between the claim and the settlement.
  pub process-IsLeft :
      (e : Option HandlerError)
      → ((timeout : Duration) → run_handler (handler timeout) ≡ ended e)
      → IsLeft outcome
  unfolding process
  process-IsLeft e ends = elim (Bool-cases (down w.rest)) [
    | inl d ↦
        rw (claim_away d, process)
          (untouched (ap (λ (p : World B × Result Task). p.0.table) (claim_away d)))
    | inr d ↦ elim (Result-cases claim_of.1) [
      | inl (x, h) ↦
          rw (ap (λ (p : World B × Result Task). p.1) (claim_answered d) ∙ h, process)
            (untouched (
              ap (λ (p : World B × Result Task). p.0.table) (claim_answered d)
              ∙ claim-eq-err locked cfg.org_id id cfg.worker_id claimed_at w.table h))
      | inr (t, h) ↦
          let (r, eq, left) = executed e ends d t h in
          rw (ap (λ (p : World B × Result Task). p.1) (claim_answered d) ∙ h, process, eq) left
    ]
  ]
