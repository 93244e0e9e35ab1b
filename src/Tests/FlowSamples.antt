-- ===== src/Tests/FlowSamples.antt =====
-- A workflow of a trigger and a condition, an execution of it, and ports that do nothing.
use flowforge.Base.{
  ℕ, zero, suc, if◌then◌else◌, String, true, false, none, some, List, [], ◌∷◌, ok, err, str_eq,
  workflow_not_found, task_not_found, webhook_delivery_not_found,
}
use flowforge.Workflow.{
  Workflow, published, WorkflowVersion, version_published, WorkflowDefinition, WorkflowNode,
  WorkflowEdge, trigger_node, condition_node, WorkflowExecution, execution_pending,
  execution_cancelled, WorkflowNodeExecution, node_pending, WorkflowExecutionStatus,
}
use flowforge.Executions.{Database, execution_row, node_row}
use flowforge.Executions.Statement.{Statement, cancel_statement}
use flowforge.NodeConfig.{Strings, Json, WorkflowTaskConfig}
use flowforge.Flow.{WorkflowReader, Dispatchers, FlowMetrics, Surroundings}

abbrev pub entry : WorkflowNode
entry = record { id = "t"; node_type = trigger_node; name = "start"; config = some "{}" }

abbrev pub choice : WorkflowNode
choice = record { id = "c"; node_type = condition_node; name = "choose"; config = some "{}" }

abbrev pub link : WorkflowEdge
link = record { id = "e"; source = "t"; target = "c"; condition = "" }

abbrev pub sample_definition : WorkflowDefinition
sample_definition = record { nodes = entry ∷ choice ∷ []; edges = link ∷ [] }

abbrev pub sample_version : WorkflowVersion
sample_version = record {
  id = 5;
  org_id = 1;
  workflow_id = 3;
  version = 1;
  name = "flow";
  slug = "flow";
  description = none;
  definition = sample_definition;
  status = version_published;
  published_at = 10;
  created_at = 10;
}

abbrev pub sample_execution : ℕ → WorkflowExecutionStatus → WorkflowExecution
sample_execution id status = record {
  id = id;
  org_id = 1;
  workflow_id = 3;
  workflow_version_id = 5;
  workflow_version = 1;
  status = status;
  input = "";
  output = "";
  error_code = "";
  error_message = "";
  idempotency_key = "key";
  request_fingerprint = "print";
  started_at = none;
  completed_at = none;
  created_at = 20;
  updated_at = 20;
}

abbrev pub sample_node : ℕ → ℕ → WorkflowNode → WorkflowNodeExecution
sample_node id execution node = record {
  id = id;
  org_id = 1;
  workflow_execution_id = execution;
  node_id = node.id;
  node_type = node.node_type;
  status = node_pending;
  attempt = 0;
  input = "";
  output = "";
  error_code = "";
  error_message = "";
  queue_task_id = none;
  webhook_delivery_id = none;
  available_at = none;
  started_at = none;
  completed_at = none;
  created_at = 20;
  updated_at = 20;
}

abbrev pub empty_tables : Database
empty_tables = record { versions = sample_version ∷ []; executions = []; nodes = [] }

abbrev pub pending_tables : Database
pending_tables = record {
  versions = sample_version ∷ [];
  executions = execution_row (sample_execution 9 execution_pending) ∷ [];
  nodes = node_row (sample_node 31 9 entry) ∷ node_row (sample_node 32 9 choice) ∷ [];
}

abbrev pub cancelled_tables : Database
cancelled_tables = record pending_tables {
  executions = execution_row (sample_execution 9 execution_cancelled) ∷ [];
  nodes = [];
}

abbrev pub sample_history : List Statement
sample_history = cancel_statement 1 3 9 40 ∷ []

-- another worker cancels the execution once, at the first turn
abbrev pub canceller : ℕ → ℕ × List Statement
canceller zero = (1, sample_history)
canceller (suc n) = (suc n, [])

abbrev pub plain_strings : Strings
plain_strings = record {
  trim_space = λ s. s;
  byte_length = λ s. if str_eq s "" then 0 else 8;
  has_prefix = λ s p. true;
  trim_prefix = λ s p. s;
  split = λ s p. s ∷ [];
}

abbrev pub mail_config : WorkflowTaskConfig
mail_config = record {
  queue = "mail";
  payload = "";
  priority = 3;
  max_retries = 2;
  timeout_seconds = 60;
}

-- values are texts, and an object has the one field "kind"
abbrev pub plain_json : Json String
plain_json = record {
  decode_task = λ s. ok mail_config;
  decode_webhook = λ s. err workflow_not_found;
  decode_delay = λ s. ok 5;
  decode_condition = λ s. ok (record { field = "input.kind"; operator = "exists"; value = "a" });
  decode_branch = λ s. ok (some true);
  has_value = λ s. true;
  is_valid_json = λ s. true;
  is_null = λ s. false;
  unmarshal = λ s. ok s;
  empty_object = "";
  as_object = λ v. some (λ name. if str_eq name "kind" then some v else none);
  deep_equal = str_eq;
}

abbrev pub sample_workflow : Workflow
sample_workflow = record {
  id = 3;
  org_id = 1;
  name = "flow";
  slug = "flow";
  description = none;
  status = published;
  definition = sample_definition;
  created_at = 5;
  updated_at = 5;
  deleted_at = none;
}

abbrev pub sample_reader : WorkflowReader ℕ
sample_reader = record {
  get_workflow_by_id = λ org workflow b. (b, ok sample_workflow);
  get_workflow_version = λ org workflow v b. (b, ok sample_version);
  get_latest_workflow_version = λ org workflow b. (b, ok sample_version);
}

abbrev pub no_dispatchers : Dispatchers ℕ
no_dispatchers = record {
  dispatch_workflow_task = λ org x id config input b. (b, record { id = none; error = none });
  get_workflow_task = λ org id b. (b, err task_not_found);
  dispatch_workflow_webhook = λ x node input b. (b, record { id = none; error = none });
  get_workflow_webhook = λ org id b. (b, err webhook_delivery_not_found);
}

abbrev pub no_metrics : FlowMetrics ℕ
no_metrics = record {
  record_execution_metric = λ x kind code b. b;
  record_node_metric = λ n kind code b. b;
}

abbrev pub plain_outside : Surroundings ℕ
plain_outside = record {
  now = λ b. (b, 50);
  new_id = λ b. (b, 60);
  task_output = λ id. "";
  delivery_output = λ id. "";
  resumed_output = λ t. "";
  result_of = λ s. ok true;
  nodes_output = λ outputs. ok "{}";
  normalize_input = λ s. ok s;
  fingerprint = λ workflow version input. ok "print";
}
