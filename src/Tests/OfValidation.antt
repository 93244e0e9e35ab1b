-- ===== src/Tests/OfValidation.antt =====
-- The theorems on the validation of a workflow, for the sample definition.
use flowforge.Base.{ℕ, String, ◌≡◌, ◌≢◌, refl, Bool, true, false, some, [], map, All}
use flowforge.Discovery.{has}
use flowforge.Workflow.{WorkflowNode, WorkflowEdge, is_supported}
use flowforge.NodeConfig.{
  parse_workflow_condition_config, parse_workflow_branch, decode_workflow_node_config,
}
use flowforge.Validation.Graph.{
  targets_of, mark_targets, reach, reachable_from, visit_each, visit, names_of, find_cycle,
  out_of_fuel,
}
use flowforge.Validation.Acyclic.{WalksTo}
use flowforge.Validation.{
  Errors, flatten, find_known, index_of, known_nodes, count_types, links_of, incoming, degree,
  config_error, node_errors, count_errors, parts_of_edge, edge_errors, degree_errors, triggers_of,
  unreachable_errors, parts_of_definition, validate_workflow_definition,
}
use flowforge.Validation.Accepted.{link_of, validate_workflow_definition_ends, validate-acyclic}
use flowforge.Tests.FlowSamples.{sample_definition, plain_strings, plain_json}

abbrev digits : ℕ → String
digits n = "0"

abbrev no_uuid : String → Bool
no_uuid s = false

accepted :
    validate_workflow_definition digits plain_strings plain_json no_uuid false false
      sample_definition
    ≡ some []
unfolding validate_workflow_definition parts_of_definition flatten find_known index_of known_nodes
    count_types links_of incoming degree config_error node_errors count_errors parts_of_edge
    edge_errors degree_errors triggers_of unreachable_errors targets_of mark_targets reach
    reachable_from visit_each visit names_of find_cycle is_supported parse_workflow_condition_config
    parse_workflow_branch decode_workflow_node_config
accepted = refl

validate-acyclic_example :
    All
      (λ (e : WorkflowEdge).
        (has e.source (map (λ (n : WorkflowNode). n.id) sample_definition.nodes) ≡ true)
        × (has e.target (map (λ (n : WorkflowNode). n.id) sample_definition.nodes) ≡ true))
      sample_definition.edges
    × ((x : String) → WalksTo (map link_of sample_definition.edges) x x → ⊥)
validate-acyclic_example =
    validate-acyclic digits plain_strings plain_json no_uuid false false sample_definition accepted

validate_workflow_definition_ends_example :
    ((errors : Errors) × (validate_workflow_definition digits plain_strings plain_json no_uuid true
          false sample_definition
        ≡ some errors))
    × (find_cycle
          (links_of (known_nodes 0 [] sample_definition.nodes) sample_definition.edges)
          (map (λ (n : WorkflowNode). n.id) sample_definition.nodes)
        ≢ out_of_fuel)
validate_workflow_definition_ends_example =
    validate_workflow_definition_ends digits plain_strings plain_json no_uuid true false
      sample_definition
