-- ===== src/Flow.antt =====
-- internal/usecase/workflow_execution_service.go: the service that runs an execution of a workflow, and
-- internal/ports/workflow_execution.go: what it asks of its repository, its dispatchers and the
-- metric recorder. The state S is all that they change. A struct that the source changes through a
-- pointer comes back from the function that changes it.
pub mod Nodes
pub mod Reconcile
pub mod Schedule
pub mod Advance
pub mod Requests
pub mod Kept
pub mod Recovered
pub mod Served
pub mod Started
pub mod Readiness
pub mod Deployed
use flowforge.Base.{ℕ, String, Bool, Option, List, ◌∷◌, [], Time, Error, Result, ok, Action}
use flowforge.Task.{Task}
use flowforge.Ports.{MetricEventType}
use flowforge.Delivery.{WebhookDelivery}
use flowforge.Workflow.{
  WorkflowVersion, WorkflowNode, Workflow, WorkflowExecution, WorkflowExecutionStatus,
  execution_pending, execution_running, WorkflowNodeExecution, WorkflowNodeExecutionStatus,
}

-- ports.WorkflowExecutionRepository, without its listing for the API
pub record WorkflowExecutionRepository (S : Type 0) : Type 0 where
  pub get_workflow_execution_version : (org workflow version : ℕ) → Action S WorkflowVersion
  pub create_workflow_execution :
      WorkflowExecution → List WorkflowNodeExecution → Action S (WorkflowExecution × Bool)
  pub get_workflow_execution : (org workflow execution : ℕ) → Action S WorkflowExecution
  pub get_workflow_node_executions : (org execution : ℕ) → Action S (List WorkflowNodeExecution)
  pub claim_workflow_node :
      (org execution : ℕ) → String → Time → Action S (Option WorkflowNodeExecution)
  pub update_workflow_node_execution :
      WorkflowNodeExecution → WorkflowNodeExecutionStatus → Action S Bool
  pub update_workflow_execution : WorkflowExecution → List WorkflowExecutionStatus → Action S Bool
  pub finalize_workflow_execution :
      WorkflowExecution → List WorkflowExecutionStatus → Bool → Action S Bool
  pub cancel_workflow_execution : (org workflow execution : ℕ) → Time → Action S WorkflowExecution
  pub list_for_reconciliation : (limit : ℕ) → Action S (List WorkflowExecution)

-- the part of ports.WorkflowRepository that a start calls
pub record WorkflowReader (S : Type 0) : Type 0 where
  pub get_workflow_by_id : (org workflow : ℕ) → Action S Workflow
  pub get_workflow_version : (org workflow version : ℕ) → Action S WorkflowVersion
  pub get_latest_workflow_version : (org workflow : ℕ) → Action S WorkflowVersion

-- A dispatch returns the id, or none for nil, and an error that may stand beside the id.
pub record Dispatched : Type 0 where
  pub id : Option ℕ
  pub error : Option Error

-- ports.WorkflowTaskDispatcher and WorkflowWebhookDispatcher
pub record Dispatchers (S : Type 0) : Type 0 where
  pub dispatch_workflow_task :
      (org execution : ℕ) (node_id : String) (config : Option String) (input : String)
      → S
      → S × Dispatched
  pub get_workflow_task : (org id : ℕ) → Action S Task
  pub dispatch_workflow_webhook :
      WorkflowExecution → WorkflowNode → (input : String) → S → S × Dispatched
  pub get_workflow_webhook : (org id : ℕ) → Action S WebhookDelivery

-- the metric of an execution or a node execution, with the error code that it carries
pub record FlowMetrics (S : Type 0) : Type 0 where
  pub record_execution_metric : WorkflowExecution → MetricEventType → String → S → S
  pub record_node_metric : WorkflowNodeExecution → MetricEventType → String → S → S

-- what the service takes from outside: the clock, uuid.New, and the JSON texts that it builds or reads
pub record Surroundings (S : Type 0) : Type 0 where
  pub now : S → S × Time
  pub new_id : S → S × ℕ
  pub task_output : (task_id : ℕ) → String
  pub delivery_output : (delivery_id : ℕ) → String
  pub resumed_output : Time → String
  pub result_of : String → Result Bool
  pub nodes_output : List (String × String) → Result String
  pub normalize_input : String → Result String
  pub fingerprint : (workflow version : ℕ) (input : String) → Result String

pub record FlowPorts (S : Type 0) : Type 0 where
  pub executions : WorkflowExecutionRepository S
  pub workflows : WorkflowReader S
  pub dispatchers : Dispatchers S
  pub metrics : FlowMetrics S
  pub outside : Surroundings S

-- the statuses that an execution may end from
abbrev pub unfinished : List WorkflowExecutionStatus
unfinished = execution_pending ∷ execution_running ∷ []

abbrev pub read_clock : {S : Type 0} → FlowPorts S → Action S Time
read_clock ports s = let (s', t) = ports.outside.now s in (s', ok t)
