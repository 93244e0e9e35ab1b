-- ===== src/Tests/OfFlow.antt =====
-- The theorems on the execution service and the node configurations, for the sample workflow.

use flowforge.Base.{
  ℕ, zero, suc, String, none, ◌≡◌, ◌≢◌, ◌≤◌, ◌⊎◌, refl, Bool, true, false, not, some, [], ◌∷◌, Memᴰ,
  All, Result, ok, err, Error, is_negative,
}
use flowforge.Workflow.{
  WorkflowEdge, WorkflowNodeExecution, node_succeeded, is_terminal_execution, trigger_node,
  condition_node,
}
use flowforge.Executions.{ExecutionRow}
use flowforge.Executions.Statement.{IsServed}
use flowforge.Executions.Closed.{IsClosed}
use flowforge.NodeConfig.{
  WorkflowConditionConfig, parse_workflow_task_config, check_task_config, is_outside,
  decode_workflow_node_config, evaluate_workflow_condition,
}
use flowforge.NodeConfig.Conditions.{
  IsRoot, parse_workflow_task_config-bounds, evaluate_workflow_condition_operators,
}
use flowforge.Flow.{FlowPorts}
use flowforge.Flow.Nodes.{
  active, inactive, edge_state, branch_state, count_active, workflow_node_readiness,
}
use flowforge.Flow.Advance.{is_passed, advance_execution, reconcile_active}
use flowforge.Flow.Requests.{StartWorkflowExecutionInput, start_execution, cancel_execution}
use flowforge.Flow.Readiness.{HasSource, is_succeeded_node, workflow_node_readiness_lem}
use flowforge.Flow.Deployed.{
  FlowWorld, deployed, IsHistory, requests-IsHistory, advance_execution_safe,
}
use flowforge.Tests.FlowSamples.{
  entry, choice, link, sample_node, sample_definition, pending_tables, canceller, plain_strings,
  plain_json, mail_config, sample_reader, no_dispatchers, no_metrics, plain_outside,
}

abbrev by_text : String → String → Bool
by_text s t = false

abbrev sample_ports : FlowPorts (FlowWorld ℕ)
sample_ports = deployed by_text canceller sample_reader no_dispatchers no_metrics plain_outside

abbrev start : FlowWorld ℕ
start = record { db = pending_tables; rest = 0 }

canceller-polite : (b : ℕ) → All IsServed (canceller b).1
canceller-polite zero = (tt, tt)
canceller-polite (suc n) = tt

abbrev sample_request : StartWorkflowExecutionInput
sample_request = record {
  org_id = 1;
  workflow_id = 3;
  version = none;
  input = "";
  idempotency_key = "key";
}

requests-IsHistory_example :
    IsHistory pending_tables
      (start_execution plain_strings plain_json sample_ports sample_request start).0
    × IsHistory pending_tables
        (advance_execution plain_strings plain_json sample_ports 1 3 9 start).0
    × IsHistory pending_tables
        (cancel_execution plain_strings plain_json sample_ports 1 3 9 start).0
    × IsHistory pending_tables (reconcile_active plain_strings plain_json sample_ports 50 start).0
requests-IsHistory_example =
    requests-IsHistory by_text canceller canceller-polite plain_strings plain_json sample_reader
      no_dispatchers no_metrics plain_outside sample_request 1 3 9 50 start

advance_execution_safe_example :
    ((r : ExecutionRow)
      → Memᴰ r pending_tables.executions
      → is_terminal_execution r.status ≡ true
      → Memᴰ r
          (advance_execution plain_strings plain_json sample_ports 1 3 9 start).0.db.executions)
    × (IsClosed pending_tables
        → IsClosed (advance_execution plain_strings plain_json sample_ports 1 3 9 start).0.db)
advance_execution_safe_example =
    advance_execution_safe by_text canceller canceller-polite plain_strings plain_json sample_reader
      no_dispatchers no_metrics plain_outside 1 3 9 start (tt, tt)

abbrev entry_done : WorkflowNodeExecution
entry_done = record (sample_node 31 9 entry) { status = node_succeeded }

choice_ready :
    workflow_node_readiness plain_strings plain_json sample_ports choice
      (link ∷ [])
      sample_definition.nodes
      (entry_done ∷ [])
    ≡ ok (true, false)
unfolding workflow_node_readiness count_active edge_state branch_state
choice_ready = refl

workflow_node_readiness_lem_example :
    (true ≡ true
      → (false ≡ false)
        × ((condition_node ≡ trigger_node)
            ⊎ (All (HasSource is_passed (entry_done ∷ [])) (link ∷ [])
                × ((e : WorkflowEdge) × Memᴰ e (link ∷ [])
                    × (edge_state plain_strings plain_json sample_ports e sample_definition.nodes
                          (entry_done ∷ [])
                        ≡ ok active)
                    × HasSource is_succeeded_node (entry_done ∷ []) e))))
    × (false ≡ true
        → (condition_node ≡ trigger_node → ⊥)
          × (link ∷ [] ≡ [] → ⊥)
          × All
              (λ e.
                edge_state plain_strings plain_json sample_ports e sample_definition.nodes
                  (entry_done ∷ [])
                ≡ ok inactive)
              (link ∷ []))
workflow_node_readiness_lem_example =
    workflow_node_readiness_lem plain_strings plain_json sample_ports sample_definition.nodes
      (entry_done ∷ []) choice (link ∷ []) true false choice_ready

mail_parsed : parse_workflow_task_config plain_strings plain_json (some "{}") ≡ ok mail_config
unfolding parse_workflow_task_config check_task_config is_outside decode_workflow_node_config
    is_negative
mail_parsed = refl

parse_workflow_task_config-bounds_example :
    (◌≢◌ {A = String} "mail" "")
    × (8 ≤ 64)
    × (3 ≤ 9)
    × (2 ≤ 99)
    × (60 ≤ 86400)
    × ((◌≡◌ {A = String} "" "") ⊎ (true ≡ true))
parse_workflow_task_config-bounds_example =
    parse_workflow_task_config-bounds plain_strings plain_json (some "{}") {c = mail_config}
      mail_parsed

abbrev kind_is : String → WorkflowConditionConfig String
kind_is operator = record { field = "kind"; operator = operator; value = "a" }

evaluate_workflow_condition_operators_example :
    ((root : String) × (present equal : Bool) × IsRoot plain_strings plain_json "b" root
      × (evaluate_workflow_condition plain_strings plain_json (kind_is "exists") "b" ≡ ok present)
      × (evaluate_workflow_condition plain_strings plain_json (kind_is "equals") "b" ≡ ok equal)
      × (evaluate_workflow_condition plain_strings plain_json (kind_is "not_equals") "b"
          ≡ ok (not equal))
      × (equal ≡ true → present ≡ true))
    ⊎ ((e : Error) × (◌≢◌ {A = String} "b" "")
        × (◌≡◌ {A = Result String} (ok "b") (err e))
        × ((operator : String)
            → evaluate_workflow_condition plain_strings plain_json (kind_is operator) "b" ≡ err e))
evaluate_workflow_condition_operators_example =
    evaluate_workflow_condition_operators plain_strings plain_json (kind_is "equals") "b"
