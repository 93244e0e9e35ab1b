-- ===== src/Flow/Nodes.antt =====
-- internal/usecase/workflow_execution_service.go: one node of an execution, from the claim to its end.
use flowforge.Base.{
  task_not_found, duplicate_idempotency_key, task_already_locked, visibility_expired, queue_empty,
  invalid_payload, max_attempts_reached, shutdown_in_progress, rate_limit_exceeded, invalid_input,
  idempotency_conflict, invalid_state_transition, unauthorized, dispatch_unavailable,
  webhook_endpoint_not_found, webhook_delivery_not_found, workflow_not_found,
  workflow_version_not_found, workflow_slug_conflict, workflow_publish_conflict,
  workflow_not_published, workflow_execution_not_found, workflow_execution_terminal,
  workflow_execution_idempotency_conflict, workflow_node_not_claimed, ℕ, suc, String, Bool, true,
  false, Option, none, some, List, [], ◌∷◌, Time, Duration, add_time, mul_int64, ◌==◌,
  if◌then◌else◌, str_eq, Error, other, Result, ok, err, Action, pure, ◌>>=◌, ◌>>◌, modify,
  attempt_action,
}
use flowforge.Ports.{
  MetricEventType, workflow_execution_failed, node_execution_succeeded, node_execution_failed,
  node_execution_skipped, node_execution_cancelled,
}
use flowforge.Workflow.{
  WorkflowNodeType, trigger_node, task_node, webhook_node, condition_node, delay_node, unsupported,
  WorkflowNode, WorkflowEdge, WorkflowExecution, execution_failed, WorkflowNodeExecution,
  WorkflowNodeExecutionStatus, node_queued, node_running, node_succeeded, node_failed, node_skipped,
  node_cancelled,
}
use flowforge.NodeConfig.{
  Strings, Json, parse_workflow_condition_config, parse_workflow_delay_config,
  parse_workflow_branch, evaluate_workflow_condition,
}
use flowforge.Flow.{Dispatched, FlowPorts, unfinished, read_clock}

abbrev pub is_cancelled_node : WorkflowNodeExecutionStatus → Bool
is_cancelled_node node_cancelled = true
is_cancelled_node _ = false

-- `err.Error()`, by internal/domain/errors.go
abbrev pub message_of : Error → String
message_of (other text) = text
message_of task_not_found = "task not found"
message_of duplicate_idempotency_key = "task with idempotency key already exists"
message_of task_already_locked = "task is locked by another worker"
message_of visibility_expired = "task visibility timeout expired"
message_of queue_empty = "queue is empty"
message_of invalid_payload = "invalid task payload"
message_of max_attempts_reached = "max retry attempts reached, routing to DLQ"
message_of shutdown_in_progress = "worker is shutting down, rejecting new work"
message_of rate_limit_exceeded = "rate limit exceeded for worker"
message_of invalid_input = "invalid input parameters"
message_of idempotency_conflict = "idempotency key reused with a different request"
message_of invalid_state_transition = "invalid task state transition"
message_of unauthorized = "unauthorized"
message_of dispatch_unavailable = "task persisted but broker dispatch is unavailable"
message_of webhook_endpoint_not_found = "webhook endpoint not found"
message_of webhook_delivery_not_found = "webhook delivery not found"
message_of workflow_not_found = "workflow not found"
message_of workflow_version_not_found = "workflow version not found"
message_of workflow_slug_conflict = "workflow slug already exists"
message_of workflow_publish_conflict = "workflow changed during publish"
message_of workflow_not_published = "workflow is not published"
message_of workflow_execution_not_found = "workflow execution not found"
message_of workflow_execution_terminal = "workflow execution is terminal"
message_of workflow_execution_idempotency_conflict = "workflow execution idempotency conflict"
message_of workflow_node_not_claimed = "workflow node was not claimed"

abbrev pub second : Duration
second = 1000000000

-- what an incoming edge says: wait for its source, do not count, count as active
pub data EdgeState : Type 0 where
  waiting inactive active : EdgeState

abbrev pub find_state : List WorkflowNodeExecution → String → Option WorkflowNodeExecution
find_state [] id = none
find_state (n ∷ nodes) id =
    let rest = find_state nodes id in
    elim rest [ some later ↦ some later | none ↦ if str_eq n.node_id id then some n else none ]

abbrev pub find_node : List WorkflowNode → String → Option WorkflowNode
find_node [] id = none
find_node (n ∷ nodes) id =
    let rest = find_node nodes id in
    elim rest [ some later ↦ some later | none ↦ if str_eq n.id id then some n else none ]

abbrev pub is_condition : Option WorkflowNode → Bool
is_condition none = false
is_condition (some n) = elim n.node_type [ condition_node ↦ true | _ ↦ false ]

module _ {S V : Type 0} (strings : Strings) (json : Json V) (ports : FlowPorts S) where
  -- `result != *branch`
  abbrev agrees : Bool → Bool → EdgeState
  agrees true true = active
  agrees false false = active
  agrees _ _ = inactive

  -- an edge whose source has succeeded
  unfoldable pub branch_state : WorkflowEdge → Option WorkflowNode → String → Result EdgeState
  branch_state edge source output =
      if is_condition source
      then (elim (parse_workflow_branch strings json edge.condition) [
        | err e ↦ err e
        | ok none ↦ ok active
        | ok (some branch) ↦ elim (ports.outside.result_of output) [
          | err e ↦ err e
          | ok result ↦ ok (agrees result branch)
        ]
      ])
      else ok active

  -- the body of the loop over the incoming edges
  unfoldable pub edge_state :
      WorkflowEdge → List WorkflowNode → List WorkflowNodeExecution → Result EdgeState
  unfolding branch_state
  edge_state edge definition states = elim (find_state states edge.source) [
    | none ↦ ok waiting
    | some state ↦ elim state.status [
      | node_succeeded ↦ branch_state edge (find_node definition edge.source) state.output
      | node_skipped ↦ ok inactive
      | _ ↦ ok waiting
    ]
  ]

  -- the loop; the counter `active` is only compared with 0
  unfoldable pub count_active :
      ℕ → List WorkflowEdge → List WorkflowNode → List WorkflowNodeExecution → Result (Option ℕ)
  count_active n [] definition states = ok (some n)
  count_active n (edge ∷ incoming) definition states =
      let rest = count_active n incoming definition states in
      let more = count_active (suc n) incoming definition states in
      elim (edge_state edge definition states) [
        | err e ↦ err e
        | ok waiting ↦ ok none
        | ok inactive ↦ rest
        | ok active ↦ more
      ]

  -- runnable, and skipped
  unfoldable pub workflow_node_readiness :
      WorkflowNode
      → List WorkflowEdge
      → List WorkflowNode
      → List WorkflowNodeExecution
      → Result (Bool × Bool)
  workflow_node_readiness node incoming definition states =
      let loop = elim (count_active 0 incoming definition states) as (λ _. Result (Bool × Bool)) [
        | err e ↦ err e
        | ok none ↦ ok (false, false)
        | ok (some n) ↦ if n == 0 then ok (false, true) else ok (true, false)
      ] in
      elim node.node_type [
        | trigger_node ↦ ok (true, false)
        | _ ↦ elim incoming [ [] ↦ ok (false, false) | edge ∷ edges ↦ loop ]
      ]

  unfoldable pub record_node_update : WorkflowNodeExecution → Action S (Unit {0})
  record_node_update n =
      let metric : MetricEventType → String → Action S (Unit {0}) =
        λ kind code. modify (ports.metrics.record_node_metric n kind code) in
      elim n.status [
        | node_succeeded ↦ metric node_execution_succeeded ""
        | node_failed ↦ metric node_execution_failed n.error_code
        | node_skipped ↦ metric node_execution_skipped ""
        | node_cancelled ↦ metric node_execution_cancelled ""
        | _ ↦ pure tt
      ]

  unfoldable pub update_node : WorkflowNodeExecution → WorkflowNodeExecutionStatus → Action S Bool
  unfolding record_node_update
  update_node n expected = do
    updated ← ports.executions.update_workflow_node_execution n expected
    if updated then (record_node_update n >> pure true) else pure false

  unfoldable pub record_cancelled : List WorkflowNodeExecution → S → S
  record_cancelled [] s = s
  record_cancelled (n ∷ nodes) s = record_cancelled nodes (
      if is_cancelled_node n.status
      then ports.metrics.record_node_metric n node_execution_cancelled "" s
      else s)

  -- `if listErr == nil { … }`
  abbrev pub record_listed : Result (List WorkflowNodeExecution) → Action S (Unit {0})
  record_listed (err e) = pure tt
  record_listed (ok nodes) = modify (record_cancelled nodes)

  -- The execution comes back as the source has changed it, whether or not its row has changed.
  unfoldable pub fail_execution :
      WorkflowExecution → (code message : String) → Action S WorkflowExecution
  unfolding record_cancelled
  fail_execution x code message = do
    now ← read_clock ports
    let failed = record x {
      status = execution_failed;
      error_code = code;
      error_message = message;
      completed_at = some now;
      updated_at = now;
    }
    updated ← ports.executions.finalize_workflow_execution failed unfinished true
    if updated
        then (do
          modify (ports.metrics.record_execution_metric failed workflow_execution_failed code)
          listed ←
              attempt_action (ports.executions.get_workflow_node_executions failed.org_id failed.id)
          record_listed listed
          pure failed)
        else pure failed

  unfoldable pub fail_claimed_node :
      WorkflowExecution
      → WorkflowNodeExecution
      → (code message : String) → Action S WorkflowExecution
  unfolding update_node fail_execution
  fail_claimed_node x n code message = do
    now ← read_clock ports
    let failed = record n {
      status = node_failed;
      error_code = code;
      error_message = message;
      completed_at = some now;
      updated_at = now;
    }
    updated ← update_node failed node_running
    fail_execution x code message

  -- what the dispatch of a task or a webhook leads to; an error beside an id is passed over
  unfoldable pub after_dispatch :
      WorkflowExecution
      → WorkflowNodeExecution
      → (default : String) → (ℕ → WorkflowNodeExecution)
      → Dispatched
      → Action S WorkflowExecution
  unfolding update_node fail_claimed_node
  after_dispatch x n default queue result = elim result.id [
    | some id ↦ do updated ← update_node (queue id) node_running; pure x
    | none ↦ elim result.error [
      | none ↦ fail_claimed_node x n "node_dispatch_failed" default
      | some e ↦ fail_claimed_node x n "node_dispatch_failed" (message_of e)
    ]
  ]

  abbrev lift : {A : Type 0} → (S → S × A) → Action S A
  lift m s = let (s', a) = m s in (s', ok a)

  abbrev pub finish_node : WorkflowExecution → WorkflowNodeExecution → Action S WorkflowExecution
  finish_node x n = do updated ← update_node n node_running; pure x

  abbrev condition_output : Bool → String
  condition_output true = "{\"result\":true}"
  condition_output false = "{\"result\":false}"

  -- the case of a condition: its result, or how the node fails
  unfoldable pub run_condition :
      WorkflowExecution → WorkflowNode → WorkflowNodeExecution → Time → Action S WorkflowExecution
  unfolding fail_claimed_node update_node
  run_condition x node n now = elim (parse_workflow_condition_config strings json node.config) [
    | err e ↦ fail_claimed_node x n "invalid_node_config" (message_of e)
    | ok config ↦ elim (evaluate_workflow_condition strings json config x.input) [
      | err e ↦ fail_claimed_node x n "node_execution_failed" (message_of e)
      | ok result ↦ finish_node x (record n {
        status = node_succeeded;
        output = condition_output result;
        completed_at = some now;
        updated_at = now;
      })
    ]
  ]

  unfoldable pub run_delay :
      WorkflowExecution → WorkflowNode → WorkflowNodeExecution → Time → Action S WorkflowExecution
  unfolding fail_claimed_node update_node
  run_delay x node n now = elim (parse_workflow_delay_config strings json node.config) [
    | err e ↦ fail_claimed_node x n "invalid_node_config" (message_of e)
    | ok seconds ↦ finish_node x (record n {
      status = node_queued;
      available_at = some (add_time now (mul_int64 seconds second));
      updated_at = now;
    })
  ]

  unfoldable pub run_trigger :
      WorkflowExecution → WorkflowNodeExecution → Time → Action S WorkflowExecution
  unfolding update_node
  run_trigger x n now = finish_node x (record n {
    status = node_succeeded;
    output = x.input;
    completed_at = some now;
    updated_at = now;
  })

  unfoldable pub run_task :
      WorkflowExecution → WorkflowNode → WorkflowNodeExecution → Time → Action S WorkflowExecution
  unfolding after_dispatch
  run_task x node n now = do
    result ←
        lift (ports.dispatchers.dispatch_workflow_task x.org_id x.id node.id node.config x.input)
    after_dispatch x n "QueueFlow task dispatch failed"
        (λ id. record n { status = node_queued; queue_task_id = some id; updated_at = now }) result

  unfoldable pub run_webhook :
      WorkflowExecution → WorkflowNode → WorkflowNodeExecution → Time → Action S WorkflowExecution
  unfolding after_dispatch
  run_webhook x node n now = do
    result ← lift (ports.dispatchers.dispatch_workflow_webhook x node x.input)
    after_dispatch x n "EventForge delivery dispatch failed"
        (λ id. record n { status = node_queued; webhook_delivery_id = some id; updated_at = now })
        result

  -- the switch over the type of the definition's node
  unfoldable pub run_claimed :
      WorkflowNodeType
      → WorkflowExecution
      → WorkflowNode
      → WorkflowNodeExecution
      → Time
      → Action S WorkflowExecution
  unfolding run_trigger run_condition run_delay run_task run_webhook fail_claimed_node
  run_claimed trigger_node x node n now = run_trigger x n now
  run_claimed condition_node x node n now = run_condition x node n now
  run_claimed delay_node x node n now = run_delay x node n now
  run_claimed task_node x node n now = run_task x node n now
  run_claimed webhook_node x node n now = run_webhook x node n now
  run_claimed (unsupported text) x node n now =
      fail_claimed_node x n "invalid_node_config" "unsupported node type"

  unfoldable pub execute_claimed_node :
      WorkflowExecution → WorkflowNode → WorkflowNodeExecution → Action S WorkflowExecution
  unfolding run_claimed
  execute_claimed_node x node claimed = do
    now ← read_clock ports
    run_claimed node.node_type x node (record claimed { input = x.input }) now
