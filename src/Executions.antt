-- ===== src/Executions.antt =====
-- internal/storage/postgres/workflow_execution_repository.go: the tables workflow_executions and
-- workflow_node_executions, and the published versions that they refer to. The ids of tasks and
-- deliveries that the service writes exist; a failing database is an error of Ports.
pub mod Operations
pub mod Statement
pub mod Texts
pub mod Changes
pub mod Evolving
pub mod Final
pub mod Closed
pub mod Idempotent
use flowforge.Base.{ℕ, String, Option, List, Time}
use flowforge.Storage.{string_or_empty, null_if_empty}
use flowforge.Workflow.{
  WorkflowNodeType, WorkflowVersion, WorkflowExecutionStatus, WorkflowNodeExecutionStatus,
  WorkflowExecution, WorkflowNodeExecution,
}

pub record ExecutionRow : Type 0 where
  pub id : ℕ
  pub org_id : ℕ
  pub workflow_id : ℕ
  pub workflow_version_id : ℕ
  pub workflow_version : ℕ
  pub status : WorkflowExecutionStatus
  pub input : Option String
  pub output : Option String
  pub error_code : Option String
  pub error_message : Option String
  pub idempotency_key : String
  pub request_fingerprint : String
  pub started_at : Option Time
  pub completed_at : Option Time
  pub created_at : Time
  pub updated_at : Time

pub record NodeRow : Type 0 where
  pub id : ℕ
  pub org_id : ℕ
  pub workflow_execution_id : ℕ
  pub node_id : String
  pub node_type : WorkflowNodeType
  pub status : WorkflowNodeExecutionStatus
  pub attempt : ℕ
  pub input : Option String
  pub output : Option String
  pub error_code : Option String
  pub error_message : Option String
  pub queue_task_id : Option ℕ
  pub webhook_delivery_id : Option ℕ
  pub available_at : Option Time
  pub started_at : Option Time
  pub completed_at : Option Time
  pub created_at : Time
  pub updated_at : Time

pub record Database : Type 0 where
  pub versions : List WorkflowVersion
  pub executions : List ExecutionRow
  pub nodes : List NodeRow

unfoldable pub scan_workflow_execution : ExecutionRow → WorkflowExecution
scan_workflow_execution r = record {
  id = r.id;
  org_id = r.org_id;
  workflow_id = r.workflow_id;
  workflow_version_id = r.workflow_version_id;
  workflow_version = r.workflow_version;
  status = r.status;
  input = string_or_empty r.input;
  output = string_or_empty r.output;
  error_code = string_or_empty r.error_code;
  error_message = string_or_empty r.error_message;
  idempotency_key = r.idempotency_key;
  request_fingerprint = r.request_fingerprint;
  started_at = r.started_at;
  completed_at = r.completed_at;
  created_at = r.created_at;
  updated_at = r.updated_at;
}

unfoldable pub scan_workflow_node_execution : NodeRow → WorkflowNodeExecution
scan_workflow_node_execution r = record {
  id = r.id;
  org_id = r.org_id;
  workflow_execution_id = r.workflow_execution_id;
  node_id = r.node_id;
  node_type = r.node_type;
  status = r.status;
  attempt = r.attempt;
  input = string_or_empty r.input;
  output = string_or_empty r.output;
  error_code = string_or_empty r.error_code;
  error_message = string_or_empty r.error_message;
  queue_task_id = r.queue_task_id;
  webhook_delivery_id = r.webhook_delivery_id;
  available_at = r.available_at;
  started_at = r.started_at;
  completed_at = r.completed_at;
  created_at = r.created_at;
  updated_at = r.updated_at;
}

-- the rows that the two INSERT statements write
unfoldable pub execution_row : WorkflowExecution → ExecutionRow
execution_row x = record {
  id = x.id;
  org_id = x.org_id;
  workflow_id = x.workflow_id;
  workflow_version_id = x.workflow_version_id;
  workflow_version = x.workflow_version;
  status = x.status;
  input = null_if_empty x.input;
  output = null_if_empty x.output;
  error_code = null_if_empty x.error_code;
  error_message = null_if_empty x.error_message;
  idempotency_key = x.idempotency_key;
  request_fingerprint = x.request_fingerprint;
  started_at = x.started_at;
  completed_at = x.completed_at;
  created_at = x.created_at;
  updated_at = x.updated_at;
}

unfoldable pub node_row : WorkflowNodeExecution → NodeRow
node_row n = record {
  id = n.id;
  org_id = n.org_id;
  workflow_execution_id = n.workflow_execution_id;
  node_id = n.node_id;
  node_type = n.node_type;
  status = n.status;
  attempt = n.attempt;
  input = null_if_empty n.input;
  output = null_if_empty n.output;
  error_code = null_if_empty n.error_code;
  error_message = null_if_empty n.error_message;
  queue_task_id = n.queue_task_id;
  webhook_delivery_id = n.webhook_delivery_id;
  available_at = n.available_at;
  started_at = n.started_at;
  completed_at = n.completed_at;
  created_at = n.created_at;
  updated_at = n.updated_at;
}
