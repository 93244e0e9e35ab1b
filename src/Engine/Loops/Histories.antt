-- ===== src/Engine/Loops/Histories.antt =====
-- What the loops do to the tasks table is a history of its statements.
use flowforge.Base.{
  ℕ, ◌≡◌, refl, inl, inr, Bool, String, List, [], ◌∷◌, map, none, some, Option-cases, ◌∙◌, Time, ok,
}
use flowforge.Task.{Task}
use flowforge.Storage.{reclaim_expired}
use flowforge.Storage.Queries.{list_undispatched_pending}
use flowforge.Storage.Statement.{Statement, dispatch, apply, run}
use flowforge.Ports.{TaskBroker}
use flowforge.Engine.Deployed.{World, with_table, postgres, beside_broker}
use flowforge.Engine.Loops.{
  TaskScans, redispatch, redispatch_all, reclaim_tick, reconcile_all, reconciliation_tick,
}

-- The scans over the tasks table. `db_now` is what the database's now() returns.
abbrev pub scans_of : {B : Type 0} → (locked : ℕ → Bool) → (db_now : Time) → TaskScans (World B)
scans_of locked db_now = record {
  reclaim_expired = λ org queue now limit w.
      let (rows, ts) = reclaim_expired locked org queue now limit w.table in
      with_table w (rows, ok ts);
  list_undispatched_pending =
      λ org queue limit w. (w, ok (list_undispatched_pending org queue limit db_now w.table));
}

-- an `Enqueue` of each task in turn: the broker's state at the end, and the tasks it accepted
abbrev pub offer_all : {B : Type 0} → TaskBroker B → List Task → B → B × List Task
offer_all broker [] b = (b, [])
offer_all broker (t ∷ ts) b =
    let (b₁, e) = broker.enqueue t b in
    let (b₂, accepted) = offer_all broker ts b₁ in
    (b₂, elim e [ none ↦ t ∷ accepted | some error ↦ accepted ])

-- the markers of some tasks, each in the organisation that `org` gives for it
abbrev pub markers : (org : Task → ℕ) → (now : ℕ → Time) → List Task → List Statement
markers org now = map (λ (t : Task). dispatch (org t) t.id (now t.id))

module _ {B : Type 0} (locked : ℕ → Bool) (db_now : Time) (broker : TaskBroker B) where
  abbrev scans : TaskScans (World B)
  scans = scans_of locked db_now

  -- each task offered, and those that the broker accepted marked
  abbrev marked : (org : Task → ℕ) → (now : ℕ → Time) → List Task → World B → World B
  marked org now ts w =
      let (b, accepted) = offer_all broker ts w.rest in
      record { table = run (markers org now accepted) w.table; rest = b }

  marked_next :
      (org : Task → ℕ) (now : ℕ → Time) (t : Task) (ts : List Task) (w : World B)
      → marked org now ts
          (redispatch scans (postgres locked) (beside_broker broker) (org t) (now t.id) t w)
        ≡ marked org now (t ∷ ts) w
  unfolding redispatch run apply
  marked_next org now t ts w = elim (Option-cases (broker.enqueue t w.rest).1) [
    | inl e ↦ rw (e, redispatch) refl
    | inr (error, e) ↦ rw (e, redispatch) refl
  ]

  redispatch_all-eq :
      (now : ℕ → Time) (ts : List Task) (w : World B)
      → redispatch_all scans (postgres locked) (beside_broker broker) now ts w
        ≡ marked (λ t. t.org_id) now ts w
  unfolding redispatch_all run
  redispatch_all-eq now [] w = refl
  redispatch_all-eq now (t ∷ ts) w =
      redispatch_all-eq now ts _ ∙ marked_next (λ t. t.org_id) now t ts w

  reconcile_all-eq :
      (org : ℕ) (now : ℕ → Time) (ts : List Task) (w : World B)
      → reconcile_all scans (postgres locked) (beside_broker broker) org now ts w
        ≡ marked (λ _. org) now ts w
  unfolding reconcile_all run
  reconcile_all-eq org now [] w = refl
  reconcile_all-eq org now (t ∷ ts) w =
      reconcile_all-eq org now ts _ ∙ marked_next (λ _. org) now t ts w

  -- A tick of the reclaim loop returns the expired tasks to the table and offers each of them to the
  -- broker, and one of the reconciliation loop offers each undispatched task. Either marks as
  -- dispatched exactly the tasks that the broker accepted, the first in the task's organisation and
  -- the second in the scope's, and changes nothing else of table and broker.
  pub ticks-eq-offer_all :
      (org : ℕ) (queue : String) (scanned_at : Time) (now : ℕ → Time) (w : World B)
      → (reclaim_tick scans (postgres locked) (beside_broker broker) org queue scanned_at now w ≡ (
          let (rows, ts) = reclaim_expired locked org queue scanned_at 100 w.table in
          let (b, accepted) = offer_all broker ts w.rest in
          record { table = run (markers (λ t. t.org_id) now accepted) rows; rest = b }))
        × (reconciliation_tick scans (postgres locked) (beside_broker broker) org queue now w ≡ (
            let ts = list_undispatched_pending org queue 100 db_now w.table in
            let (b, accepted) = offer_all broker ts w.rest in
            record { table = run (markers (λ _. org) now accepted) w.table; rest = b }))
  unfolding reclaim_tick reconciliation_tick
  ticks-eq-offer_all org queue scanned_at now w =
      (redispatch_all-eq now _ _, reconcile_all-eq org now _ w)
