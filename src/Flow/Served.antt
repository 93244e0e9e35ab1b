-- ===== src/Flow/Served.antt =====
-- AdvanceExecution and ReconcileActive keep what their ports keep.
use flowforge.Base.{
  ℕ, zero, suc, refl, Bool, true, false, Option, none, some, List, [], ◌∷◌, String, inl, inr,
  Result, ok, err, Action, Keeps, Keeps-bind, Keeps-if, Option-cases, pure,
}
use flowforge.Workflow.{
  WorkflowExecution, WorkflowNode, WorkflowDefinition, WorkflowVersion, WorkflowNodeExecution,
  node_running,
}
use flowforge.NodeConfig.{Strings, Json}
use flowforge.Flow.{FlowPorts, unfinished}
use flowforge.Flow.Advance.{
  finalize_succeeded, after_schedule, end_or_schedule, after_reconcile, begin_pending,
  begin_execution, advance_version, advance_open, advance_each, reconcile_active,
  touch_running_execution, finalize_execution_if_complete, advance_once, advance_loop,
  advance_execution,
}
use flowforge.Flow.Reconcile.{Reconciled}
use flowforge.Flow.Schedule.{
  skip_node, run_node, run_won, after_claim, run_if_ready, schedule_runnable_nodes,
}
use flowforge.Flow.Kept.{
  IsKept, clock-kept, update_node-kept, fail_execution-kept, execute_claimed_node-kept,
}
use flowforge.Flow.Recovered.{reconcile_external_nodes-kept}

module _ {S V : Type 0} (strings : Strings) (json : Json V) (ports : FlowPorts S) (I : S → Type 0)
    (kept : IsKept ports I) where
  skip_node-kept : (n : WorkflowNodeExecution) → Keeps I (skip_node strings json ports n)
  unfolding skip_node
  skip_node-kept n = Keeps-bind I _ _ (clock-kept strings json ports I kept) (λ now.
      Keeps-bind I _ _ (update_node-kept strings json ports I kept _ node_running (refl, λ p. cc))
        (λ updated s i. i))

  run_won-kept :
      (x : WorkflowExecution) (node : WorkflowNode) (should_skip : Bool) (n : WorkflowNodeExecution)
      → Keeps I (run_won strings json ports x node should_skip n)
  unfolding run_won
  run_won-kept x node true n = Keeps-bind I _ _ (skip_node-kept n) (λ _ s i. i)
  run_won-kept x node false n =
      Keeps-bind I _ _ (execute_claimed_node-kept strings json ports I kept x node n) (λ x' s i. i)

  module _ (x : WorkflowExecution) (node : WorkflowNode) (rest : Action S Reconciled)
      (k : Keeps I rest) where
    after_claim-kept :
        (should_skip : Bool) (claimed : Option WorkflowNodeExecution)
        → Keeps I (after_claim strings json ports x node should_skip rest claimed)
    unfolding after_claim
    after_claim-kept should_skip none = k
    after_claim-kept should_skip (some n) =
        Keeps-bind I _ _ (λ s i. kept.node_metric n _ _ s i)
          (λ _. run_won-kept x node should_skip n)

    run_node-kept :
        (should_skip : Bool) → Keeps I (run_node strings json ports x node should_skip rest)
    unfolding run_node
    run_node-kept should_skip = Keeps-bind I _ _ (clock-kept strings json ports I kept) (λ now.
        Keeps-bind I _ _ (λ s i. kept.claim _ _ _ _ s i)
          (λ claimed. after_claim-kept should_skip claimed))

    run_if_ready-kept :
        (ready : Result (Bool × Bool)) → Keeps I (run_if_ready strings json ports x node rest ready)
    unfolding run_if_ready
    run_if_ready-kept (err e) = λ s i. i
    run_if_ready-kept (ok (true, should_skip)) = run_node-kept should_skip
    run_if_ready-kept (ok (false, true)) = run_node-kept true
    run_if_ready-kept (ok (false, false)) = k

  schedule_runnable_nodes-kept :
      (definition : WorkflowDefinition) (nodes : List WorkflowNode) (x : WorkflowExecution)
      (states : List WorkflowNodeExecution)
      → Keeps I (schedule_runnable_nodes strings json ports definition nodes x states)
  unfolding schedule_runnable_nodes
  schedule_runnable_nodes-kept definition [] x states = λ s i. i
  schedule_runnable_nodes-kept definition (node ∷ nodes) x states =
      let k = schedule_runnable_nodes-kept definition nodes x states in
      Keeps-if I _ _ _ (run_if_ready-kept x node _ k _) k

  finalize_succeeded-kept :
      (x : WorkflowExecution) (output : Result String)
      → Keeps I (finalize_succeeded strings json ports x output)
  unfolding finalize_succeeded
  finalize_succeeded-kept x (err e) = λ s i. i
  finalize_succeeded-kept x (ok output) =
      Keeps-bind I _ _ (clock-kept strings json ports I kept) (λ now.
        Keeps-bind I _ _ (kept.end_execution _ unfinished false (inl refl, (refl, (refl, tt))))
          (λ updated. Keeps-if I updated _ _ (λ s i. kept.execution_metric _ _ _ s i) (λ s i. i)))

  finalize_execution_if_complete-kept :
      (definition : WorkflowDefinition) (x : WorkflowExecution) (nodes : List WorkflowNodeExecution)
      → Keeps I (finalize_execution_if_complete strings json ports definition x nodes)
  unfolding finalize_execution_if_complete touch_running_execution
  finalize_execution_if_complete-kept definition x nodes =
      Keeps-if I _ _ _ (finalize_succeeded-kept x _) (
        Keeps-bind I _ _ (clock-kept strings json ports I kept) (λ now.
          Keeps-bind I _ _ (kept.write_execution _ _ (refl, (refl, tt))) (λ updated s i. i)))

  after_schedule-kept :
      (definition : WorkflowDefinition) (nodes : List WorkflowNodeExecution)
      (scheduled : Reconciled)
      → Keeps I (after_schedule strings json ports definition nodes scheduled)
  unfolding after_schedule
  after_schedule-kept definition nodes (x, true) = λ s i. i
  after_schedule-kept definition nodes (x, false) =
      Keeps-bind I _ _ (finalize_execution_if_complete-kept definition x nodes) (λ _ s i. i)

  end_or_schedule-kept :
      (definition : WorkflowDefinition) (x : WorkflowExecution) (nodes : List WorkflowNodeExecution)
      (failed : Option WorkflowNodeExecution)
      → Keeps I (end_or_schedule strings json ports definition x nodes failed)
  unfolding end_or_schedule
  end_or_schedule-kept definition x nodes (some n) =
      Keeps-bind I _ _ (fail_execution-kept strings json ports I kept x _ _) (λ x' s i. i)
  end_or_schedule-kept definition x nodes none =
      Keeps-bind I _ _ (schedule_runnable_nodes-kept definition definition.nodes x nodes)
        (λ scheduled. after_schedule-kept definition nodes scheduled)

  after_reconcile-kept :
      (definition : WorkflowDefinition) (reconciled : Reconciled)
      → Keeps I (after_reconcile strings json ports definition reconciled)
  unfolding after_reconcile
  after_reconcile-kept definition (x, true) = λ s i. i
  after_reconcile-kept definition (x, false) =
      Keeps-bind I _ _ (λ s i. kept.nodes _ _ s i)
        (λ nodes. end_or_schedule-kept definition x nodes _)

  advance_once-kept :
      (definition : WorkflowDefinition) (x : WorkflowExecution)
      → Keeps I (advance_once strings json ports definition x)
  unfolding advance_once
  advance_once-kept definition x =
      Keeps-bind I _ _ (λ s i. kept.nodes _ _ s i)
        (λ seen.
          Keeps-bind I _ _
            (reconcile_external_nodes-kept strings json ports I kept definition x seen)
            (λ reconciled. after_reconcile-kept definition reconciled))

  advance_loop-kept :
      (left : ℕ) (definition : WorkflowDefinition) (x : WorkflowExecution)
      → Keeps I (advance_loop strings json ports left definition x)
  unfolding advance_loop
  advance_loop-kept zero definition x = λ s i. i
  advance_loop-kept (suc left) definition x =
      Keeps-bind I _ _ (advance_once-kept definition x) (λ next. elim (Option-cases next) [
        | inl e ↦ rw e (λ s i. i)
        | inr (x', e) ↦ rw e (advance_loop-kept left definition x')
      ])

  begin_pending-kept : (x : WorkflowExecution) → Keeps I (begin_pending strings json ports x)
  unfolding begin_pending
  begin_pending-kept x = Keeps-bind I _ _ (clock-kept strings json ports I kept) (λ now.
      Keeps-bind I _ _ (kept.write_execution _ _ (refl, (refl, tt))) (λ updated.
        Keeps-bind I _ _
          (Keeps-if I updated _ _ (λ s i. kept.execution_metric _ _ _ s i) (λ s i. i))
          (λ _ s i. i)))

  advance_version-kept :
      (x : WorkflowExecution) (version : WorkflowVersion)
      → Keeps I (advance_version strings json ports x version)
  unfolding advance_version begin_execution
  advance_version-kept x version =
      Keeps-if I _ _ _
        (Keeps-bind I _ _ (Keeps-if I _ _ (pure x) (begin_pending-kept x) (λ s i. i))
          (λ begun. advance_loop-kept _ version.definition begun))
        (λ s i. i)

  pub advance_execution-kept :
      (org workflow execution : ℕ)
      → Keeps I (advance_execution strings json ports org workflow execution)
  unfolding advance_execution advance_open
  advance_execution-kept org workflow execution =
      Keeps-bind I _ _ (λ s i. kept.execution _ _ _ s i)
        (λ x.
          Keeps-if I _ (pure tt) _ (λ s i. i)
            (Keeps-bind I _ _ (λ s i. kept.version _ _ _ s i)
              (λ version. advance_version-kept x version)))

  advance_each-kept :
      (executions : List WorkflowExecution) → Keeps I (advance_each strings json ports executions)
  unfolding advance_each
  advance_each-kept [] = λ s i. i
  advance_each-kept (x ∷ executions) =
      Keeps-bind I _ _ (λ s i. advance_execution-kept x.org_id x.workflow_id x.id s i)
        (λ result. Keeps-bind I _ _ (advance_each-kept executions) (λ errors s i. i))

  pub reconcile_active-kept : (limit : ℕ) → Keeps I (reconcile_active strings json ports limit)
  unfolding reconcile_active
  reconcile_active-kept limit =
      Keeps-bind I _ _ (λ s i. kept.listing limit s i)
        (λ executions. Keeps-bind I _ _ (advance_each-kept executions) (λ errors s i. i))
