-- ===== src/Engine/Loops.antt =====
-- The loops of internal/engine/engine.go, one tick each. A loop's ticks are any sequence of these.
pub mod Histories
use flowforge.Base.{ℕ, String, Option, none, some, List, [], ◌∷◌, Time, Result, ok, err, Error}
use flowforge.Task.{Task}
use flowforge.Ports.{TaskStorage, TaskBroker}

-- What the loops ask of storage beside TaskStorage.
pub record TaskScans (S : Type 0) : Type 0 where
  pub reclaim_expired : (org : ℕ) → String → Time → (limit : ℕ) → S → S × Result (List Task)
  pub list_undispatched_pending : (org : ℕ) → String → (limit : ℕ) → S → S × Result (List Task)

module _ {S : Type 0} (scans : TaskScans S) (storage : TaskStorage S) (broker : TaskBroker S) where
  -- `Enqueue`, and the dispatch marker only if it succeeds
  unfoldable pub redispatch : (org : ℕ) → Time → Task → S → S
  redispatch org now t s =
      let (s₁, e) = broker.enqueue t s in
      elim e [ some error ↦ s₁ | none ↦ (storage.mark_dispatched org t.id now s₁).0 ]

  -- the loop of ReclaimLoop over the tasks; `now` is the time at which each is marked
  unfoldable pub redispatch_all : (now : ℕ → Time) → List Task → S → S
  unfolding redispatch
  redispatch_all now [] s = s
  redispatch_all now (t ∷ ts) s = redispatch_all now ts (redispatch t.org_id (now t.id) t s)

  unfoldable pub reclaim_tick : (org : ℕ) → String → Time → (now : ℕ → Time) → S → S
  unfolding redispatch_all
  reclaim_tick org queue scanned_at now s =
      let (s₁, reclaimed) = scans.reclaim_expired org queue scanned_at 100 s in
      elim reclaimed [ ok ts ↦ redispatch_all now ts s₁ | err error ↦ s₁ ]

  -- the loop of ReconciliationLoop over the tasks, which marks in the scope's organisation
  unfoldable pub reconcile_all : (org : ℕ) → (now : ℕ → Time) → List Task → S → S
  unfolding redispatch
  reconcile_all org now [] s = s
  reconcile_all org now (t ∷ ts) s = reconcile_all org now ts (redispatch org (now t.id) t s)

  unfoldable pub reconciliation_tick : (org : ℕ) → String → (now : ℕ → Time) → S → S
  unfolding reconcile_all
  reconciliation_tick org queue now s =
      let (s₁, found) = scans.list_undispatched_pending org queue 100 s in
      elim found [ ok ts ↦ reconcile_all org now ts s₁ | err error ↦ s₁ ]
