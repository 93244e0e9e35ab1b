-- ===== src/Flow/Advance.antt =====
-- internal/usecase/workflow_execution_service.go: finalizeExecutionIfComplete, AdvanceExecution and
-- ReconcileActive. The ids of an execution are those by which the query has found it.
use flowforge.Base.{
  ℕ, zero, suc, ◌+◌, String, Bool, true, false, ◌&&◌, Option, none, some, List, [], ◌∷◌, length,
  ◌==◌, if◌then◌else◌, str_eq, Error, Result, ok, err, workflow_version_not_found, Action, pure,
  throw, ◌>>=◌, ◌>>◌, modify, attempt_action,
}
use flowforge.Ports.{workflow_execution_started, workflow_execution_succeeded}
use flowforge.Workflow.{
  WorkflowDefinition, WorkflowVersion, WorkflowExecution, WorkflowExecutionStatus,
  execution_pending, execution_running, execution_succeeded, is_terminal_execution,
  WorkflowNodeExecution, WorkflowNodeExecutionStatus, node_succeeded, node_failed, node_skipped,
}
use flowforge.NodeConfig.{Strings, Json}
use flowforge.Flow.{FlowPorts, unfinished, read_clock}
use flowforge.Flow.Nodes.{fail_execution}
use flowforge.Flow.Reconcile.{Reconciled, reconcile_external_nodes}
use flowforge.Flow.Schedule.{schedule_runnable_nodes}

abbrev pub is_failed_node : WorkflowNodeExecutionStatus → Bool
is_failed_node node_failed = true
is_failed_node _ = false

-- succeeded or skipped
abbrev pub is_passed : WorkflowNodeExecutionStatus → Bool
is_passed node_succeeded = true
is_passed node_skipped = true
is_passed _ = false

abbrev pub is_pending_execution : WorkflowExecutionStatus → Bool
is_pending_execution execution_pending = true
is_pending_execution _ = false

unfoldable pub first_failed_workflow_node :
    List WorkflowNodeExecution → Option WorkflowNodeExecution
first_failed_workflow_node [] = none
first_failed_workflow_node (n ∷ nodes) =
    if is_failed_node n.status then some n else first_failed_workflow_node nodes

-- the outputs of the nodes, and whether all have passed
abbrev pub all_passed : List WorkflowNodeExecution → Bool
all_passed [] = true
all_passed (n ∷ nodes) = is_passed n.status && all_passed nodes

abbrev pub outputs_of : List WorkflowNodeExecution → List (String × String)
outputs_of [] = []
outputs_of (n ∷ nodes) =
    let rest = outputs_of nodes in if str_eq n.output "" then rest else (n.node_id, n.output) ∷ rest

-- What an iteration comes to: the changed execution if the loop goes on, none if it returns.
abbrev pub Iteration : Type 0
Iteration = Option WorkflowExecution

module _ {S V : Type 0} (strings : Strings) (json : Json V) (ports : FlowPorts S) where
  unfoldable pub touch_running_execution : WorkflowExecution → Action S (Unit {0})
  touch_running_execution x = do
    now ← read_clock ports
    updated ←
        ports.executions.update_workflow_execution
          (record x { status = execution_running; updated_at = now }) (execution_running ∷ [])
    pure tt

  unfoldable pub finalize_succeeded : WorkflowExecution → Result String → Action S (Unit {0})
  finalize_succeeded x (err e) = throw e
  finalize_succeeded x (ok output) = do
    now ← read_clock ports
    let done = record x {
      status = execution_succeeded;
      output = output;
      completed_at = some now;
      updated_at = now;
    }
    updated ← ports.executions.finalize_workflow_execution done unfinished false
    if updated
        then modify (ports.metrics.record_execution_metric done workflow_execution_succeeded "")
        else pure tt

  unfoldable pub is_complete : WorkflowDefinition → List WorkflowNodeExecution → Bool
  is_complete definition nodes = length nodes == length definition.nodes && all_passed nodes

  unfoldable pub finalize_execution_if_complete :
      WorkflowDefinition → WorkflowExecution → List WorkflowNodeExecution → Action S (Unit {0})
  unfolding touch_running_execution finalize_succeeded is_complete
  finalize_execution_if_complete definition x nodes =
      if is_complete definition nodes
      then finalize_succeeded x (ports.outside.nodes_output (outputs_of nodes))
      else touch_running_execution x

  unfoldable pub after_schedule :
      WorkflowDefinition → List WorkflowNodeExecution → Reconciled → Action S Iteration
  unfolding finalize_execution_if_complete
  after_schedule definition nodes (x, true) = pure (some x)
  after_schedule definition nodes (x, false) = do
    finalize_execution_if_complete definition x nodes
    pure none

  unfoldable pub end_or_schedule :
      WorkflowDefinition
      → WorkflowExecution
      → List WorkflowNodeExecution
      → Option WorkflowNodeExecution
      → Action S Iteration
  unfolding schedule_runnable_nodes after_schedule
  end_or_schedule definition x nodes (some n) = do
    x' ← fail_execution strings json ports x n.error_code n.error_message
    pure none
  end_or_schedule definition x nodes none = do
    scheduled ← schedule_runnable_nodes strings json ports definition definition.nodes x nodes
    after_schedule definition nodes scheduled

  unfoldable pub after_reconcile : WorkflowDefinition → Reconciled → Action S Iteration
  unfolding end_or_schedule
  after_reconcile definition (x, true) = pure (some x)
  after_reconcile definition (x, false) = do
    nodes ← ports.executions.get_workflow_node_executions x.org_id x.id
    end_or_schedule definition x nodes (first_failed_workflow_node nodes)

  unfoldable pub advance_once : WorkflowDefinition → WorkflowExecution → Action S Iteration
  unfolding reconcile_external_nodes after_reconcile
  advance_once definition x = do
    seen ← ports.executions.get_workflow_node_executions x.org_id x.id
    reconciled ← reconcile_external_nodes strings json ports definition x seen
    after_reconcile definition reconciled

  -- `for iteration := 0; iteration <= len(nodes)+1; iteration++`, by the iterations that are left
  unfoldable pub advance_loop : ℕ → WorkflowDefinition → WorkflowExecution → Action S (Unit {0})
  unfolding advance_once
  advance_loop zero definition x = pure tt
  advance_loop (suc left) definition x = do
    next ← advance_once definition x
    elim next as (λ _. Action S (Unit {0})) [
      | none ↦ pure tt
      | some x' ↦ advance_loop left definition x'
    ]

  -- pending to running, and the metric if this run has made the change
  unfoldable pub begin_pending : WorkflowExecution → Action S WorkflowExecution
  begin_pending x = do
    now ← read_clock ports
    let begun = record x { status = execution_running; started_at = some now; updated_at = now }
    updated ← ports.executions.update_workflow_execution begun (execution_pending ∷ [])
    if updated
        then modify (ports.metrics.record_execution_metric begun workflow_execution_started "")
        else pure tt
    pure begun

  unfoldable pub begin_execution : WorkflowExecution → Action S WorkflowExecution
  unfolding begin_pending
  begin_execution x = if is_pending_execution x.status then begin_pending x else pure x

  unfoldable pub advance_version : WorkflowExecution → WorkflowVersion → Action S (Unit {0})
  unfolding advance_loop begin_execution
  advance_version x version =
      if version.version == x.workflow_version
      then (do
        begun ← begin_execution x
        advance_loop (length version.definition.nodes + 2) version.definition begun)
      else throw workflow_version_not_found

  unfoldable pub advance_open : (org workflow : ℕ) → WorkflowExecution → Action S (Unit {0})
  unfolding advance_version
  advance_open org workflow x = do
    version ← ports.executions.get_workflow_execution_version org workflow x.workflow_version_id
    advance_version x version

  unfoldable pub advance_execution : (org workflow execution : ℕ) → Action S (Unit {0})
  unfolding advance_open
  advance_execution org workflow execution = do
    x ← ports.executions.get_workflow_execution org workflow execution
    if is_terminal_execution x.status then pure tt else advance_open org workflow x

  -- the errors of the executions are joined: none of them stops the loop
  unfoldable pub advance_each : List WorkflowExecution → Action S (List Error)
  unfolding advance_execution
  advance_each [] = pure []
  advance_each (x ∷ executions) = do
    result ← attempt_action (advance_execution x.org_id x.workflow_id x.id)
    errors ← advance_each executions
    pure (elim result as (λ _. List Error) [ ok done ↦ errors | err e ↦ e ∷ errors ])

  -- the number of the executions, and their errors
  unfoldable pub reconcile_active : (limit : ℕ) → Action S (ℕ × List Error)
  unfolding advance_each
  reconcile_active limit = do
    executions ← ports.executions.list_for_reconciliation limit
    errors ← advance_each executions
    pure (length executions, errors)
