-- ===== src/Validation.antt =====
-- internal/usecase/workflow_validation.go: what a workflow must satisfy before it is published. A map
-- is the list of its entries; `itoa` prints a number and `is_uuid` says whether uuid.Parse succeeds.
pub mod Graph
pub mod Acyclic
pub mod Ends
pub mod Accepted
use Prim.Native.String.{◌++◌ as str_append}
use flowforge.Base.{
  ℕ, suc, ◌+◌, String, Bool, true, false, ◌&&◌, ◌||◌, not, Option, none, some, List, [], ◌∷◌, ◌++◌,
  map, select, length, ltb, ◌==◌, if◌then◌else◌, str_eq, is_none, Error, other, Result, ok, err,
}
use flowforge.Discovery.{has}
use flowforge.Workflow.{
  WorkflowNodeType, trigger_node, task_node, webhook_node, condition_node, delay_node, unsupported,
  is_supported, WorkflowNode, WorkflowEdge, WorkflowDefinition,
}
use flowforge.NodeConfig.{
  Strings, Json, parse_workflow_task_config, parse_workflow_webhook_config,
  parse_workflow_delay_config, parse_workflow_condition_config, parse_workflow_branch,
}
use flowforge.Validation.Graph.{
  Link, reachable_from, Search, cyclic, finished, out_of_fuel, find_cycle,
}

pub record WorkflowValidationError : Type 0 where
  pub code : String
  pub message : String
  pub path : String

abbrev pub Errors : Type 0
Errors = List WorkflowValidationError

-- errors in the order in which the source adds them
unfoldable pub flatten : List Errors → Errors
flatten [] = []
flatten (part ∷ parts) = part ++ flatten parts

abbrev pub complain : (code message path : String) → Errors
complain code message path = record { code = code; message = message; path = path } ∷ []

abbrev pub when : Bool → Errors → Errors
when true errors = errors
when false errors = []

-- an entry of `nodes`, with the entry of `nodeIndexes` that has its key
pub record KnownNode : Type 0 where
  pub node : WorkflowNode
  pub index : ℕ

unfoldable pub find_known : List KnownNode → String → Option KnownNode
find_known [] id = none
find_known (k ∷ known) id = if str_eq k.node.id id then some k else find_known known id

abbrev pub is_known : List KnownNode → String → Bool
is_known known id = not (is_none (find_known known id))

-- nodeIndexes[id], which is 0 for a missing key
unfoldable pub index_of : List KnownNode → String → ℕ
index_of known id = elim (find_known known id) [ none ↦ 0 | some k ↦ k.index ]

-- the maps after the loop over the nodes from `index` on: the first node of each id that is not empty
unfoldable pub known_nodes : ℕ → List KnownNode → List WorkflowNode → List KnownNode
unfolding find_known
known_nodes index known [] = known
known_nodes index known (n ∷ nodes) =
    known_nodes (suc index)
      (if str_eq n.id "" || is_known known n.id
        then known
        else known ++ record { node = n; index = index } ∷ [])
      nodes

abbrev pub is_trigger : WorkflowNodeType → Bool
is_trigger trigger_node = true
is_trigger _ = false

abbrev pub is_action : WorkflowNodeType → Bool
is_action task_node = true
is_action webhook_node = true
is_action delay_node = true
is_action condition_node = true
is_action _ = false

abbrev pub is_condition_type : WorkflowNodeType → Bool
is_condition_type condition_node = true
is_condition_type _ = false

-- what the loop over the nodes counts
unfoldable pub count_types : (WorkflowNodeType → Bool) → List WorkflowNode → ℕ
count_types test [] = 0
count_types test (n ∷ nodes) =
    let rest = count_types test nodes in if test n.node_type then suc rest else rest

abbrev pub count_equal : String → List String → ℕ
count_equal id [] = 0
count_equal id (x ∷ xs) = let rest = count_equal id xs in if str_eq x id then suc rest else rest

-- the edges that enter `adjacency`, `incoming` and `degree`
unfoldable pub links_of : List KnownNode → List WorkflowEdge → List Link
unfolding find_known
links_of known [] = []
links_of known (e ∷ edges) =
    let rest = links_of known edges in
    if is_known known e.source && is_known known e.target
    then record { start = e.source; end = e.target } ∷ rest
    else rest

unfoldable pub incoming : List Link → String → ℕ
incoming links id = count_equal id (map (λ (l : Link). l.end) links)

unfoldable pub degree : List Link → String → ℕ
unfolding incoming
degree links id = count_equal id (map (λ (l : Link). l.start) links) + incoming links id

abbrev pub error_text : Error → String
error_text (other text) = text
error_text _ = ""

module _ (itoa : ℕ → String) where
  -- fmt.Sprintf("nodes[%d]", index) and the like
  abbrev pub path_of : (array : String) → ℕ → (field : String) → String
  path_of array index field =
      str_append (str_append array (str_append "[" (itoa index))) (str_append "]" field)

  module _ {V : Type 0} (strings : Strings) (json : Json V) (is_uuid : String → Bool) where
    abbrev failure : {A : Type 0} → Result A → Option String
    failure (ok a) = none
    failure (err e) = some (error_text e)

    -- configErr of a node whose config is not nil
    unfoldable pub config_error : WorkflowNode → Option String
    config_error n = elim n.node_type as (λ _. Option String) [
      | task_node ↦ failure (parse_workflow_task_config strings json n.config)
      | webhook_node ↦
          elim (parse_workflow_webhook_config strings json n.config) as (λ _. Option String) [
            | err e ↦ some (error_text e)
            | ok c ↦ if is_uuid c.endpoint_id then none else some "endpoint_id must be a UUID"
          ]
      | delay_node ↦ failure (parse_workflow_delay_config strings json n.config)
      | condition_node ↦ failure (parse_workflow_condition_config strings json n.config)
      | _ ↦ none
    ]

    abbrev config_errors : ℕ → WorkflowNode → Errors
    config_errors index n =
        if is_none n.config
        then complain "unsupported_config_shape" "node config must be an object"
            (path_of "nodes" index ".config")
        else (elim (config_error n) as (λ _. Errors) [
          | none ↦ []
          | some message ↦ complain "invalid_node_config" message (path_of "nodes" index ".config")
        ])

    abbrev id_errors : ℕ → List KnownNode → WorkflowNode → Errors
    id_errors index known n =
        if str_eq n.id ""
        then complain "node_id_required" "node id is required" (path_of "nodes" index ".id")
        else when (is_known known n.id)
            (complain "duplicate_node_id" "node id must be unique" (path_of "nodes" index ".id"))

    -- the loop over the nodes, from `index` on, with the nodes known before it
    unfoldable pub node_errors : ℕ → List KnownNode → List WorkflowNode → Errors
    unfolding known_nodes find_known config_error
    node_errors index known [] = []
    node_errors index known (n ∷ nodes) =
        id_errors index known n
        ++ when (not (is_supported n.node_type)) (
            complain "unsupported_node_type" "node type is not supported"
              (path_of "nodes" index ".type"))
        ++ config_errors index n
        ++ node_errors (suc index) (known_nodes index known (n ∷ [])) nodes

    unfoldable pub count_errors : List WorkflowNode → Errors
    unfolding count_types
    count_errors nodes =
        when (count_types is_trigger nodes == 0)
          (complain "missing_trigger" "workflow must contain at least one trigger node" "nodes")
        ++ when (count_types is_action nodes == 0) (
            complain "missing_action" "workflow must contain at least one executable or action node"
              "nodes")

    -- the condition decodes into a map that is not nil
    abbrev is_object : String → Bool
    is_object text = elim (json.unmarshal text) as (λ _. Bool) [
      | err e ↦ false
      | ok v ↦ not (is_none (json.as_object v))
    ]

    abbrev branch_errors : ℕ → Option KnownNode → WorkflowEdge → Errors
    branch_errors index none e = []
    branch_errors index (some k) e =
        if is_condition_type k.node.node_type
        then (elim (parse_workflow_branch strings json e.condition) as (λ _. Errors) [
          | ok branch ↦ []
          | err f ↦
              complain "invalid_condition_branch" (error_text f)
                (path_of "edges" index ".condition")
        ])
        else []

    -- `edge.From + "\\x00" + edge.To`
    abbrev pair_of : WorkflowEdge → String
    pair_of e = str_append e.source (str_append "\0" e.target)

    abbrev has_pair : WorkflowEdge → List WorkflowEdge → Bool
    has_pair e [] = false
    has_pair e (d ∷ edges) = str_eq (pair_of d) (pair_of e) || has_pair e edges

    -- what the body of the loop over the edges adds, check by check
    unfoldable pub parts_of_edge :
        ℕ → List KnownNode → (before : List WorkflowEdge) → WorkflowEdge → List Errors
    unfolding find_known
    parts_of_edge index known before e =
        (if str_eq e.id ""
          then complain "edge_id_required" "edge id is required" (path_of "edges" index ".id")
          else when (has e.id (map (λ (d : WorkflowEdge). d.id) before))
              (complain "duplicate_edge_id" "edge id must be unique" (path_of "edges" index ".id")))
        ∷ when (not (is_known known e.source)) (
            complain "invalid_edge_reference" "edge source must reference an existing node"
              (path_of "edges" index ".from"))
        ∷ when (not (is_known known e.target)) (
            complain "invalid_edge_reference" "edge target must reference an existing node"
              (path_of "edges" index ".to"))
        ∷ when (not (str_eq e.source "") && str_eq e.source e.target)
            (complain "self_loop" "self-loop edges are not allowed" (path_of "edges" index ".to"))
        ∷ when (has_pair e before) (
            complain "duplicate_edge" "duplicate edges between the same nodes are not allowed"
              (path_of "edges" index ""))
        ∷ when
            (not (str_eq e.condition "")
              && not (json.is_null e.condition)
              && not (is_object e.condition))
            (complain "unsupported_config_shape" "edge condition must be an object or null"
              (path_of "edges" index ".condition"))
        ∷ branch_errors index (find_known known e.source) e
        ∷ []

    -- the loop over the edges, from `index` on, with the edges before it
    unfoldable pub edge_errors :
        ℕ → List KnownNode → (before : List WorkflowEdge) → List WorkflowEdge → Errors
    unfolding flatten parts_of_edge
    edge_errors index known before [] = []
    edge_errors index known before (e ∷ edges) =
        flatten (parts_of_edge index known before e)
        ++ edge_errors (suc index) known (before ++ e ∷ []) edges

    -- `nodeIndexes[nodeID] != index` passes over a node
    abbrev is_first : List KnownNode → ℕ → WorkflowNode → Bool
    is_first known index n = index_of known n.id == index

    unfoldable pub degree_errors : ℕ → List KnownNode → List Link → List WorkflowNode → Errors
    unfolding index_of degree
    degree_errors index known links [] = []
    degree_errors index known links (n ∷ nodes) =
        when (is_first known index n && is_trigger n.node_type && ltb 0 (incoming links n.id)) (
          complain "trigger_has_incoming_edge" "trigger nodes cannot have incoming edges"
            (path_of "nodes" index ""))
        ++ when (is_first known index n && degree links n.id == 0) (
            complain "orphan_node" "publishable workflows cannot contain isolated nodes"
              (path_of "nodes" index ""))
        ++ degree_errors (suc index) known links nodes

    unfoldable pub triggers_of : ℕ → List KnownNode → List WorkflowNode → List String
    unfolding index_of
    triggers_of index known [] = []
    triggers_of index known (n ∷ nodes) =
        let rest = triggers_of (suc index) known nodes in
        if is_first known index n && is_trigger n.node_type then n.id ∷ rest else rest

    unfoldable pub unreachable_errors :
        ℕ → List KnownNode → (reachable : List String) → List WorkflowNode → Errors
    unfolding index_of
    unreachable_errors index known reachable [] = []
    unreachable_errors index known reachable (n ∷ nodes) =
        when (is_first known index n && not (is_trigger n.node_type) && not (has n.id reachable)) (
          complain "unreachable_node" "non-trigger nodes must be reachable from a trigger"
            (path_of "nodes" index ""))
        ++ unreachable_errors (suc index) known reachable nodes

    abbrev pub cycle_errors : Search → Errors
    cycle_errors cyclic = complain "cycle_detected" "workflow graph must be acyclic" "edges"
    cycle_errors (finished d) = []
    cycle_errors out_of_fuel = []

    -- What the checks add, in their order. `nodes_nil` and `edges_nil` say that the arrays are missing.
    unfoldable pub parts_of_definition :
        (nodes_nil edges_nil : Bool) → WorkflowDefinition → (reachable : List String) → List Errors
    unfolding node_errors count_errors edge_errors links_of degree_errors unreachable_errors
    parts_of_definition nodes_nil edges_nil definition reachable =
        let known = known_nodes 0 [] definition.nodes in
        let links = links_of known definition.edges in
        when nodes_nil (complain "nodes_required" "definition must include a nodes array" "nodes")
        ∷ when edges_nil
            (complain "edges_required" "definition must include an edges array" "edges")
        ∷ node_errors 0 [] definition.nodes
        ∷ count_errors definition.nodes
        ∷ edge_errors 0 known [] definition.edges
        ∷ degree_errors 0 known links definition.nodes
        ∷ unreachable_errors 0 known reachable definition.nodes
        ∷ cycle_errors (find_cycle links (map (λ (n : WorkflowNode). n.id) definition.nodes))
        ∷ []

    -- none if the search of the reachable nodes ran out of its rounds, which it never does
    unfoldable pub validate_workflow_definition :
        (nodes_nil edges_nil : Bool) → WorkflowDefinition → Option Errors
    unfolding flatten links_of triggers_of parts_of_definition
    validate_workflow_definition nodes_nil edges_nil definition =
        let known = known_nodes 0 [] definition.nodes in
        elim (reachable_from (links_of known definition.edges)
            (triggers_of 0 known definition.nodes))
          as (λ _. Option Errors) [
            | none ↦ none
            | some reachable ↦
                some (flatten (parts_of_definition nodes_nil edges_nil definition reachable))
          ]
