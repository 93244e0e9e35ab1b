-- ===== src/Workflow.antt =====
-- internal/domain/workflow.go, workflow_execution.go: the graph of a workflow, its published versions,
-- and an execution of a version with one node execution for each node of the graph.
-- A json.RawMessage is its text, and "" if it is empty or nil; a node's config is the text of the
-- object, and none if the map is nil. The position of a node on the canvas is left out.
use flowforge.Base.{ℕ, String, Bool, true, false, Option, List, Time}

pub data WorkflowStatus : Type 0 where
  draft published archived : WorkflowStatus

-- `unsupported` is any other string.
pub data WorkflowNodeType : Type 0 where
  trigger_node task_node webhook_node condition_node delay_node : WorkflowNodeType
  unsupported : String → WorkflowNodeType

unfoldable pub is_supported : WorkflowNodeType → Bool
is_supported trigger_node = true
is_supported task_node = true
is_supported webhook_node = true
is_supported condition_node = true
is_supported delay_node = true
is_supported (unsupported text) = false

pub record WorkflowNode : Type 0 where
  pub id : String
  pub node_type : WorkflowNodeType
  pub name : String
  pub config : Option String

pub record WorkflowEdge : Type 0 where
  pub id : String
  pub source : String
  pub target : String
  pub condition : String

pub record WorkflowDefinition : Type 0 where
  pub nodes : List WorkflowNode
  pub edges : List WorkflowEdge

pub record Workflow : Type 0 where
  pub id : ℕ
  pub org_id : ℕ
  pub name : String
  pub slug : String
  pub description : Option String
  pub status : WorkflowStatus
  pub definition : WorkflowDefinition
  pub created_at : Time
  pub updated_at : Time
  pub deleted_at : Option Time

pub data WorkflowVersionStatus : Type 0 where
  version_published version_deprecated : WorkflowVersionStatus

pub record WorkflowVersion : Type 0 where
  pub id : ℕ
  pub org_id : ℕ
  pub workflow_id : ℕ
  pub version : ℕ
  pub name : String
  pub slug : String
  pub description : Option String
  pub definition : WorkflowDefinition
  pub status : WorkflowVersionStatus
  pub published_at : Time
  pub created_at : Time

pub data WorkflowExecutionStatus : Type 0 where
  execution_pending execution_running execution_succeeded : WorkflowExecutionStatus
  execution_failed execution_cancelled : WorkflowExecutionStatus

-- WorkflowExecutionStatus.Terminal
abbrev pub is_terminal_execution : WorkflowExecutionStatus → Bool
is_terminal_execution execution_pending = false
is_terminal_execution execution_running = false
is_terminal_execution execution_succeeded = true
is_terminal_execution execution_failed = true
is_terminal_execution execution_cancelled = true

pub data WorkflowNodeExecutionStatus : Type 0 where
  node_pending node_queued node_running node_succeeded : WorkflowNodeExecutionStatus
  node_failed node_skipped node_cancelled : WorkflowNodeExecutionStatus

-- WorkflowNodeExecutionStatus.Terminal
abbrev pub is_terminal_node : WorkflowNodeExecutionStatus → Bool
is_terminal_node node_pending = false
is_terminal_node node_queued = false
is_terminal_node node_running = false
is_terminal_node node_succeeded = true
is_terminal_node node_failed = true
is_terminal_node node_skipped = true
is_terminal_node node_cancelled = true

pub record WorkflowExecution : Type 0 where
  pub id : ℕ
  pub org_id : ℕ
  pub workflow_id : ℕ
  pub workflow_version_id : ℕ
  pub workflow_version : ℕ
  pub status : WorkflowExecutionStatus
  pub input : String
  pub output : String
  pub error_code : String
  pub error_message : String
  pub idempotency_key : String
  pub request_fingerprint : String
  pub started_at : Option Time
  pub completed_at : Option Time
  pub created_at : Time
  pub updated_at : Time

pub record WorkflowNodeExecution : Type 0 where
  pub id : ℕ
  pub org_id : ℕ
  pub workflow_execution_id : ℕ
  pub node_id : String
  pub node_type : WorkflowNodeType
  pub status : WorkflowNodeExecutionStatus
  pub attempt : ℕ  -- int64
  pub input : String
  pub output : String
  pub error_code : String
  pub error_message : String
  pub queue_task_id : Option ℕ
  pub webhook_delivery_id : Option ℕ
  pub available_at : Option Time
  pub started_at : Option Time
  pub completed_at : Option Time
  pub created_at : Time
  pub updated_at : Time
