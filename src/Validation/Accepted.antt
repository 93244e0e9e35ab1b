-- ===== src/Validation/Accepted.antt =====
-- What a definition that is accepted satisfies.
use flowforge.Base.{
  ℕ, suc, String, ◌≡◌, ◌≢◌, refl, ap, subst, inl, inr, ◌⊎◌, Bool, true, false, not, ◌||◌, ◌&&◌,
  Option, some, List, [], ◌∷◌, ◌++◌, map, All, arith, Bool-cases, str_eq, eq_iff,
}
use flowforge.Discovery.{has}
use flowforge.Workflow.{WorkflowNode, WorkflowEdge, WorkflowDefinition}
use flowforge.NodeConfig.{Strings, Json}
use flowforge.Validation.Graph.{Link, targets_of, Search, cyclic, out_of_fuel, find_cycle}
use flowforge.Validation.Acyclic.{WalksTo, find_cycle-finished}
use flowforge.Validation.Ends.{find_cycle_ends, reachable_from_ends}
use flowforge.Validation.{
  Errors, when, complain, flatten, parts_of_edge, parts_of_definition, KnownNode, find_known,
  is_known, known_nodes, links_of, edge_errors, triggers_of, cycle_errors,
  validate_workflow_definition,
}

append_empty {ℓ} : {A : Type ℓ} (xs ys : List A) → xs ++ ys ≡ [] → (xs ≡ []) × (ys ≡ [])
append_empty [] ys h = (refl, h)
append_empty (x ∷ xs) ys h = cc

abbrev ids_of : List WorkflowNode → List String
ids_of = map (λ (n : WorkflowNode). n.id)

abbrev pub link_of : WorkflowEdge → Link
link_of e = record { start = e.source; end = e.target }

find_known-snoc :
    (known : List KnownNode) (k : KnownNode) (id : String)
    → is_known (known ++ k ∷ []) id ≡ true
    → (is_known known id ≡ true) ⊎ (str_eq k.node.id id ≡ true)
unfolding find_known
find_known-snoc [] k id h = ground arith
find_known-snoc (x ∷ known) k id h = elim (Bool-cases (str_eq x.node.id id)) [
  | inl e ↦ inl (rw e refl)
  | inr e ↦ rw e (find_known-snoc known k id (rw e at h))
]

-- a known id is the id of a node
known_id :
    (index : ℕ) (known : List KnownNode) (nodes : List WorkflowNode) (id : String)
    → is_known (known_nodes index known nodes) id ≡ true
    → (is_known known id ≡ true) ⊎ (has id (ids_of nodes) ≡ true)
unfolding known_nodes
known_id index known [] id h = inl h
known_id index known (n ∷ nodes) id h = elim (Bool-cases (str_eq n.id "" || is_known known n.id)) [
  | inl e ↦ elim (known_id (suc index) known nodes id (rw (e, known_nodes) at h)) [
    | inl k ↦ inl k
    | inr k ↦ inr (rw k (ground arith))
  ]
  | inr e ↦
      elim (known_id (suc index) (known ++ record { node = n; index = index } ∷ []) nodes id
        (rw (e, known_nodes) at h)) [
          | inr k ↦ inr (rw k (ground arith))
          | inl k ↦ elim (find_known-snoc known (record { node = n; index = index }) id k) [
            | inl old ↦ inl old
            | inr new ↦ inr (rw new refl)
          ]
        ]
]

linked_id :
    (known : List KnownNode) (edges : List WorkflowEdge) (x y : String)
    → has y (targets_of (links_of known edges) x) ≡ true
    → is_known known x ≡ true
unfolding links_of targets_of
linked_id known [] x y h = absurd (ground arith)
linked_id known (e ∷ edges) x y h =
    elim (Bool-cases (is_known known e.source && is_known known e.target)) [
      | inr k ↦ linked_id known edges x y (rw (k, links_of) at h)
      | inl k ↦ elim (Bool-cases (str_eq e.source x)) [
        | inl s ↦ subst (λ z. is_known known z ≡ true) ((eq_iff e.source x).0 s) (ground arith)
        | inr s ↦ linked_id known edges x y (rw (k, links_of, s, targets_of) at h)
      ]
    ]

IsEmpty : Errors → Type 0
IsEmpty errors = errors ≡ []

flatten-IsEmpty : (parts : List Errors) → flatten parts ≡ [] → All IsEmpty parts
unfolding flatten IsEmpty
flatten-IsEmpty [] h = tt
flatten-IsEmpty (part ∷ parts) h =
    let (first, rest) = append_empty part (flatten parts) h in (first, flatten-IsEmpty parts rest)

flagged :
    (b : Bool) (code message path : String)
    → b ≡ false
    → IsEmpty (when (not b) (complain code message path))
    → ⊥
unfolding IsEmpty
flagged b code message path h k = ground arith

module _ (itoa : ℕ → String) {V : Type 0} (strings : Strings) (json : Json V)
    (is_uuid : String → Bool) where
  edge_known :
      (index : ℕ) (known : List KnownNode) (before : List WorkflowEdge) (e : WorkflowEdge)
      → flatten (parts_of_edge itoa strings json is_uuid index known before e) ≡ []
      → (is_known known e.source ≡ true) × (is_known known e.target ≡ true)
  unfolding parts_of_edge IsEmpty
  edge_known index known before e h =
      let parts =
        flatten-IsEmpty (parts_of_edge itoa strings json is_uuid index known before e) h in
      let source = parts.1.0 in
      let target = parts.1.1.0 in
      (
        elim (Bool-cases (is_known known e.source)) [
          | inl k ↦ k
          | inr k ↦ absurd (flagged (is_known known e.source) _ _ _ k source)
        ],
        elim (Bool-cases (is_known known e.target)) [
          | inl k ↦ k
          | inr k ↦ absurd (flagged (is_known known e.target) _ _ _ k target)
        ],
      )

  -- where no edge is refused, every edge is a link between known nodes
  links_of-all :
      (index : ℕ) (known : List KnownNode) (before edges : List WorkflowEdge)
      → edge_errors itoa strings json is_uuid index known before edges ≡ []
      → (links_of known edges ≡ map link_of edges)
        × All (λ e. (is_known known e.source ≡ true) × (is_known known e.target ≡ true)) edges
  unfolding edge_errors links_of
  links_of-all index known before [] h = (refl, tt)
  links_of-all index known before (e ∷ edges) h =
      let (own, others) =
        append_empty (flatten (parts_of_edge itoa strings json is_uuid index known before e))
          (edge_errors itoa strings json is_uuid (suc index) known (before ++ e ∷ []) edges) h in
      let (source, target) = edge_known index known before e own in
      let (rest, all) = links_of-all (suc index) known (before ++ e ∷ []) edges others in
      (rw (source, target, links_of) (ap (λ ls. link_of e ∷ ls) rest), ((source, target), all))

  cycle-finished : (s : Search) → cycle_errors itoa strings json is_uuid s ≡ [] → (s ≡ cyclic → ⊥)
  cycle-finished s h e = ground arith

  ends_in_ids :
      (known : List KnownNode) (ids : List String) (edges : List WorkflowEdge)
      → ((id : String) → is_known known id ≡ true → has id ids ≡ true)
      → All (λ e. (is_known known e.source ≡ true) × (is_known known e.target ≡ true)) edges
      → All (λ e. (has e.source ids ≡ true) × (has e.target ids ≡ true)) edges
  ends_in_ids known ids [] f k = tt
  ends_in_ids known ids (e ∷ edges) f k =
      ((f e.source k.0.0, f e.target k.0.1), ends_in_ids known ids edges f k.1)

  abbrev AllEmpty : List Errors → Type 0
  AllEmpty = All IsEmpty

  module _ (nodes_nil edges_nil : Bool) (definition : WorkflowDefinition) (reachable : List String)
      (parts : AllEmpty (
        parts_of_definition itoa strings json is_uuid nodes_nil edges_nil definition
          reachable)) where
    edges_part :
        edge_errors itoa strings json is_uuid 0
          (known_nodes 0 [] definition.nodes)
          []
          definition.edges
        ≡ []
    unfolding parts_of_definition IsEmpty
    edges_part = parts.1.1.1.1.0

    cycle_part :
        cycle_errors itoa strings json is_uuid (
          find_cycle
            (links_of (known_nodes 0 [] definition.nodes) definition.edges)
            (ids_of definition.nodes))
        ≡ []
    unfolding parts_of_definition IsEmpty
    cycle_part = parts.1.1.1.1.1.1.1.0

  abbrev validate : (nodes_nil edges_nil : Bool) → WorkflowDefinition → Option Errors
  validate = validate_workflow_definition itoa strings json is_uuid

  -- A definition is always answered: neither search runs out of its rounds, whatever the graph.
  pub validate_workflow_definition_ends :
      (nodes_nil edges_nil : Bool) (definition : WorkflowDefinition)
      → ((errors : Errors) × (validate nodes_nil edges_nil definition ≡ some errors))
        × (find_cycle
              (links_of (known_nodes 0 [] definition.nodes) definition.edges)
              (ids_of definition.nodes)
            ≢ out_of_fuel)
  unfolding validate_workflow_definition
  validate_workflow_definition_ends nodes_nil edges_nil definition =
      let known = known_nodes 0 [] definition.nodes in
      let links = links_of known definition.edges in
      let (reachable, r) =
        reachable_from_ends links
          (triggers_of itoa strings json is_uuid 0 known definition.nodes) in
      let ends = find_cycle_ends links (ids_of definition.nodes) in
      (
        (
          flatten (
              parts_of_definition itoa strings json is_uuid nodes_nil edges_nil definition
                reachable),
          rw (r, validate_workflow_definition) refl,
        ),
        λ e. elim ends [ inl c ↦ cc | inr (d, f) ↦ cc ],
      )

  -- A definition that is accepted is acyclic: each of its edges joins two of its nodes, and no walk
  -- along its edges leads from a node back to it.
  pub validate-acyclic :
      (nodes_nil edges_nil : Bool) (definition : WorkflowDefinition)
      → validate nodes_nil edges_nil definition ≡ some []
      → All
          (λ e.
            (has e.source (ids_of definition.nodes) ≡ true)
            × (has e.target (ids_of definition.nodes) ≡ true))
          definition.edges
        × ((x : String) → WalksTo (map link_of definition.edges) x x → ⊥)
  unfolding validate_workflow_definition
  validate-acyclic nodes_nil edges_nil definition h =
      let known = known_nodes 0 [] definition.nodes in
      let links = links_of known definition.edges in
      let ids = ids_of definition.nodes in
      let (reachable, r) =
        reachable_from_ends links
          (triggers_of itoa strings json is_uuid 0 known definition.nodes) in
      let checks =
        parts_of_definition itoa strings json is_uuid nodes_nil edges_nil definition reachable in
      let empty : flatten checks ≡ [] =
        let accepted = rw (r, validate_workflow_definition) at h in cc in
      let parts = flatten-IsEmpty checks empty in
      let (linked, known_ends) =
        links_of-all 0 known [] definition.edges
          (edges_part nodes_nil edges_nil definition reachable parts) in
      let in_ids : (id : String) → is_known known id ≡ true → has id ids ≡ true =
        λ id k. elim (known_id 0 [] definition.nodes id k) [ inl e ↦ cc | inr e ↦ e ] in
      (
        ends_in_ids known ids definition.edges in_ids known_ends,
        λ x w. elim (find_cycle_ends links ids) [
          | inl c ↦ absurd (
              cycle-finished (find_cycle links ids)
                (cycle_part nodes_nil edges_nil definition reachable parts) c)
          | inr (d, f) ↦
              find_cycle-finished links ids f
                (λ y z m. in_ids y (linked_id known definition.edges y z m)) x (rw linked w)
        ],
      )
