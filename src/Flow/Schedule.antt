-- ===== src/Flow/Schedule.antt =====
-- internal/usecase/workflow_execution_service.go: scheduleRunnableNodes, the first pending node that
-- can run or be skipped.
use flowforge.Base.{
  String, Bool, true, false, Option, none, some, List, [], ◌∷◌, if◌then◌else◌, str_eq, select,
  Result, ok, err, Action, pure, throw, ◌>>=◌, ◌>>◌, modify,
}
use flowforge.Ports.{node_execution_started}
use flowforge.Workflow.{
  WorkflowNode, WorkflowEdge, WorkflowDefinition, WorkflowExecution, WorkflowNodeExecution,
  WorkflowNodeExecutionStatus, node_pending, node_running, node_skipped,
}
use flowforge.NodeConfig.{Strings, Json}
use flowforge.Flow.{FlowPorts, read_clock}
use flowforge.Flow.Nodes.{find_state, workflow_node_readiness, update_node, execute_claimed_node}
use flowforge.Flow.Reconcile.{Reconciled}

abbrev pub is_pending_node : WorkflowNodeExecutionStatus → Bool
is_pending_node node_pending = true
is_pending_node _ = false

module _ {S V : Type 0} (strings : Strings) (json : Json V) (ports : FlowPorts S) where
  -- a claimed node whose incoming edges are all inactive
  unfoldable pub skip_node : WorkflowNodeExecution → Action S (Unit {0})
  skip_node claimed = do
    now ← read_clock ports
    updated ←
        update_node strings json ports
          (record claimed { status = node_skipped; completed_at = some now; updated_at = now })
          node_running
    pure tt

  abbrev pub into : String → List WorkflowEdge → List WorkflowEdge
  into id = select (λ (e : WorkflowEdge). str_eq e.target id)

  -- a node that this run has claimed
  unfoldable pub run_won :
      WorkflowExecution
      → WorkflowNode
      → (should_skip : Bool) → WorkflowNodeExecution
      → Action S Reconciled
  unfolding skip_node
  run_won x node true n = do skip_node n; pure (x, true)
  run_won x node false n = do x' ← execute_claimed_node strings json ports x node n; pure (x', true)

  -- `rest` is the loop over the nodes that follow, for a claim that another run has won.
  unfoldable pub after_claim :
      WorkflowExecution
      → WorkflowNode
      → (should_skip : Bool) → (rest : Action S Reconciled) → Option WorkflowNodeExecution
      → Action S Reconciled
  unfolding run_won
  after_claim x node should_skip rest none = rest
  after_claim x node should_skip rest (some n) = do
    modify (ports.metrics.record_node_metric n node_execution_started "")
    run_won x node should_skip n

  unfoldable pub run_node :
      WorkflowExecution
      → WorkflowNode
      → (should_skip : Bool) → (rest : Action S Reconciled) → Action S Reconciled
  unfolding after_claim
  run_node x node should_skip rest = do
    now ← read_clock ports
    claimed ← ports.executions.claim_workflow_node x.org_id x.id node.id now
    after_claim x node should_skip rest claimed

  unfoldable pub run_if_ready :
      WorkflowExecution
      → WorkflowNode
      → (rest : Action S Reconciled) → Result (Bool × Bool)
      → Action S Reconciled
  unfolding run_node
  run_if_ready x node rest (err e) = throw e
  run_if_ready x node rest (ok (true, should_skip)) = run_node x node should_skip rest
  run_if_ready x node rest (ok (false, true)) = run_node x node true rest
  run_if_ready x node rest (ok (false, false)) = rest

  unfoldable pub is_pending_state : Option WorkflowNodeExecution → Bool
  is_pending_state none = false
  is_pending_state (some n) = is_pending_node n.status

  -- the loop over the definition's nodes: it ends with the first node that it runs
  unfoldable pub schedule_runnable_nodes :
      WorkflowDefinition
      → List WorkflowNode
      → WorkflowExecution
      → List WorkflowNodeExecution
      → Action S Reconciled
  unfolding run_if_ready is_pending_state
  schedule_runnable_nodes definition [] x states = pure (x, false)
  schedule_runnable_nodes definition (node ∷ nodes) x states =
      let rest = schedule_runnable_nodes definition nodes x states in
      if is_pending_state (find_state states node.id)
      then run_if_ready x node rest (
          workflow_node_readiness strings json ports node (into node.id definition.edges)
            definition.nodes states)
      else rest
