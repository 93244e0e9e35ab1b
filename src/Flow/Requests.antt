-- ===== src/Flow/Requests.antt =====
-- internal/usecase/workflow_execution_service.go: StartExecution and CancelExecution, the requests of a
-- client.
use flowforge.Base.{
  ℕ, String, Bool, true, false, ◌||◌, Option, none, some, List, [], ◌∷◌, ◌++◌, Time, ltb, ◌==◌,
  if◌then◌else◌, str_eq, is_negative, Result, ok, err, invalid_input, workflow_not_published,
  workflow_version_not_found, workflow_execution_idempotency_conflict, Action, pure, throw, ◌>>=◌,
  ◌>>◌, modify, attempt_action,
}
use flowforge.Ports.{workflow_execution_created, workflow_execution_cancelled}
use flowforge.Workflow.{
  WorkflowStatus, published, Workflow, WorkflowVersion, WorkflowVersionStatus, version_published,
  WorkflowNode, WorkflowExecution, execution_pending, WorkflowExecutionStatus,
  WorkflowNodeExecution, node_pending,
}
use flowforge.NodeConfig.{Strings, Json}
use flowforge.Flow.{FlowPorts, read_clock}
use flowforge.Flow.Nodes.{record_listed}
use flowforge.Flow.Advance.{advance_execution}

pub record StartWorkflowExecutionInput : Type 0 where
  pub org_id : ℕ
  pub workflow_id : ℕ
  pub version : Option ℕ  -- int64
  pub input : String
  pub idempotency_key : String

pub record WorkflowExecutionStartResult : Type 0 where
  pub execution_id : ℕ
  pub workflow_id : ℕ
  pub workflow_version : ℕ
  pub status : WorkflowExecutionStatus
  pub created_at : Time

abbrev pub is_published : WorkflowStatus → Bool
is_published published = true
is_published _ = false

abbrev is_published_version : WorkflowVersionStatus → Bool
is_published_version version_published = true
is_published_version _ = false

-- 256 * 1024
abbrev max_workflow_execution_input_bytes : ℕ
max_workflow_execution_input_bytes = 262144

module _ {S V : Type 0} (strings : Strings) (json : Json V) (ports : FlowPorts S) where
  unfoldable pub check_version : WorkflowVersion → Action S WorkflowVersion
  check_version version =
      if is_published_version version.status then pure version else throw workflow_version_not_found

  unfoldable pub select_version : (org workflow : ℕ) → Option ℕ → Action S WorkflowVersion
  unfolding check_version
  select_version org workflow none = do
    version ← ports.workflows.get_latest_workflow_version org workflow
    check_version version
  select_version org workflow (some requested) =
      if requested == 0 || is_negative requested then throw invalid_input else (do
        version ← ports.workflows.get_workflow_version org workflow requested
        check_version version)

  abbrev fresh_id : Action S ℕ
  fresh_id s = let (s', id) = ports.outside.new_id s in (s', ok id)

  abbrev pub pending_node : WorkflowExecution → (id : ℕ) → WorkflowNode → WorkflowNodeExecution
  pending_node x id node = record {
    id = id;
    org_id = x.org_id;
    workflow_execution_id = x.id;
    node_id = node.id;
    node_type = node.node_type;
    status = node_pending;
    attempt = 0;
    input = "";
    output = "";
    error_code = "";
    error_message = "";
    queue_task_id = none;
    webhook_delivery_id = none;
    available_at = none;
    started_at = none;
    completed_at = none;
    created_at = x.created_at;
    updated_at = x.updated_at;
  }

  -- The nodes are given to what follows the loop.
  unfoldable pub with_nodes :
      {A : Type 0}
      → WorkflowExecution
      → List WorkflowNode
      → List WorkflowNodeExecution
      → (List WorkflowNodeExecution → Action S A)
      → Action S A
  with_nodes x [] nodes follow = follow nodes
  with_nodes x (node ∷ definition) nodes follow = do
    id ← fresh_id
    with_nodes x definition (nodes ++ pending_node x id node ∷ []) follow

  abbrev pub start_result : WorkflowExecution → WorkflowExecutionStartResult
  start_result x = record {
    execution_id = x.id;
    workflow_id = x.workflow_id;
    workflow_version = x.workflow_version;
    status = x.status;
    created_at = x.created_at;
  }

  -- what follows the creation
  unfoldable pub after_create :
      StartWorkflowExecutionInput
      → WorkflowExecution
      → (reused : Bool) → Action S (WorkflowExecutionStartResult × Bool)
  after_create request x reused =
      if x.workflow_id == request.workflow_id
      then (do
        modify (λ s.
            if reused
            then s
            else ports.metrics.record_execution_metric x workflow_execution_created "" s)
        advance_execution strings json ports x.org_id x.workflow_id x.id
        current ← ports.executions.get_workflow_execution x.org_id x.workflow_id x.id
        pure (start_result current, reused))
      else throw workflow_execution_idempotency_conflict

  abbrev pub pending_execution :
      StartWorkflowExecutionInput
      → WorkflowVersion
      → (input key fingerprint : String) → ℕ
      → Time
      → WorkflowExecution
  pending_execution request version input key fingerprint id now = record {
    id = id;
    org_id = request.org_id;
    workflow_id = request.workflow_id;
    workflow_version_id = version.id;
    workflow_version = version.version;
    status = execution_pending;
    input = input;
    output = "";
    error_code = "";
    error_message = "";
    idempotency_key = key;
    request_fingerprint = fingerprint;
    started_at = none;
    completed_at = none;
    created_at = now;
    updated_at = now;
  }

  unfoldable pub create_and_advance :
      StartWorkflowExecutionInput
      → WorkflowVersion
      → (input key fingerprint : String) → Action S (WorkflowExecutionStartResult × Bool)
  unfolding with_nodes after_create
  create_and_advance request version input key fingerprint = do
    now ← read_clock ports
    id ← fresh_id
    let x = pending_execution request version input key fingerprint id now
    with_nodes x version.definition.nodes [] (λ nodes. do
      created ← ports.executions.create_workflow_execution x nodes
      after_create request created.0 created.1)

  abbrev Started : Type 0
  Started = WorkflowExecutionStartResult × Bool

  unfoldable pub start_fingerprinted :
      StartWorkflowExecutionInput
      → (key : String) → WorkflowVersion
      → (input : String) → Result String
      → Action S Started
  unfolding create_and_advance
  start_fingerprinted request key version input (err e) = throw e
  start_fingerprinted request key version input (ok fingerprint) =
      create_and_advance request version input key fingerprint

  unfoldable pub start_normalized :
      StartWorkflowExecutionInput
      → (key : String) → WorkflowVersion
      → Result String
      → Action S Started
  unfolding start_fingerprinted
  start_normalized request key version (err e) = throw invalid_input
  start_normalized request key version (ok input) =
      if ltb max_workflow_execution_input_bytes (strings.byte_length input)
      then throw invalid_input
      else start_fingerprinted request key version input
          (ports.outside.fingerprint request.workflow_id version.version input)

  unfoldable pub start_published :
      StartWorkflowExecutionInput
      → (key : String) → Workflow
      → Action S (WorkflowExecutionStartResult × Bool)
  unfolding select_version start_normalized
  start_published request key workflow =
      if is_published workflow.status
      then (do
        version ← select_version request.org_id request.workflow_id request.version
        start_normalized request key version (ports.outside.normalize_input request.input))
      else throw workflow_not_published

  unfoldable pub start_execution :
      StartWorkflowExecutionInput → Action S (WorkflowExecutionStartResult × Bool)
  unfolding start_published
  start_execution request =
      let key = strings.trim_space request.idempotency_key in
      if str_eq key "" || ltb 255 (strings.byte_length key) then throw invalid_input else (do
        workflow ← ports.workflows.get_workflow_by_id request.org_id request.workflow_id
        start_published request key workflow)

  -- the cancelled nodes are recorded, if they can be listed
  unfoldable pub cancel_execution : (org workflow execution : ℕ) → Action S WorkflowExecution
  cancel_execution org workflow execution = do
    now ← read_clock ports
    x ← ports.executions.cancel_workflow_execution org workflow execution now
    modify (ports.metrics.record_execution_metric x workflow_execution_cancelled "")
    listed ← attempt_action (ports.executions.get_workflow_node_executions org execution)
    record_listed strings json ports listed
    pure x
