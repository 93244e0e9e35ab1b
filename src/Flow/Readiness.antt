-- ===== src/Flow/Readiness.antt =====
-- When a node may run, when it is skipped, and when it waits.

use flowforge.Base.{
  ℕ, suc, ◌<◌, ◌≡◌, ◌⊎◌, refl, inl, inr, Bool, true, false, not, some, List, [], ◌∷◌, arith, All,
  Memᴰ, Result, ok, Option-cases, Result-cases, ◌==◌,
}
use flowforge.Workflow.{
  WorkflowNode, WorkflowEdge, trigger_node, WorkflowNodeExecution, WorkflowNodeExecutionStatus,
  node_succeeded,
}
use flowforge.NodeConfig.{Strings, Json}
use flowforge.Flow.{FlowPorts}
use flowforge.Flow.Nodes.{
  EdgeState, waiting, inactive, active, find_state, edge_state, count_active,
  workflow_node_readiness,
}
use flowforge.Flow.Advance.{is_passed}

EdgeState-cases : (s : EdgeState) → (s ≡ waiting) ⊎ (s ≡ inactive) ⊎ (s ≡ active)
EdgeState-cases waiting = inl refl
EdgeState-cases inactive = inr (inl refl)
EdgeState-cases active = inr (inr refl)

-- the source of the edge has a state that the test accepts
abbrev pub HasSource :
    (WorkflowNodeExecutionStatus → Bool) → List WorkflowNodeExecution → WorkflowEdge → Type 0
HasSource test states edge =
    (n : WorkflowNodeExecution) × (find_state states edge.source ≡ some n) × (test n.status ≡ true)

abbrev pub is_succeeded_node : WorkflowNodeExecutionStatus → Bool
is_succeeded_node node_succeeded = true
is_succeeded_node _ = false

module _ {S V : Type 0} (strings : Strings) (json : Json V) (ports : FlowPorts S)
    (definition : List WorkflowNode) (states : List WorkflowNodeExecution) where
  abbrev at : WorkflowEdge → Result EdgeState
  at edge = edge_state strings json ports edge definition states

  edge_passed :
      (edge : WorkflowEdge)
      → (at edge ≡ ok inactive) ⊎ (at edge ≡ ok active)
      → HasSource is_passed states edge
  unfolding edge_state
  edge_passed edge h = elim (Option-cases (find_state states edge.source)) [
    | inl e ↦ absurd (ground arith)
    | inr (n, e) ↦ (n, e, ground arith)
  ]

  edge_active :
      (edge : WorkflowEdge) → at edge ≡ ok active → HasSource is_succeeded_node states edge
  unfolding edge_state
  edge_active edge h = elim (Option-cases (find_state states edge.source)) [
    | inl e ↦ absurd (ground arith)
    | inr (n, e) ↦ (n, e, ground arith)
  ]

  -- what a completed count says of the edges
  record IsCounted (n m : ℕ) (incoming : List WorkflowEdge) : Type 0 where
    settled : All (λ e. (at e ≡ ok inactive) ⊎ (at e ≡ ok active)) incoming
    outcome :
        ((m ≡ n) × All (λ e. at e ≡ ok inactive) incoming)
        ⊎ ((n < m) × ((e : WorkflowEdge) × Memᴰ e incoming × (at e ≡ ok active)))

  counted :
      (n m : ℕ) (incoming : List WorkflowEdge)
      → count_active strings json ports n incoming definition states ≡ ok (some m)
      → IsCounted n m incoming
  unfolding count_active
  counted n m [] h = record { settled = tt; outcome = inl (ground arith, tt) }
  counted n m (edge ∷ incoming) h = elim (Result-cases (at edge)) [
    | inl (e, p) ↦ absurd (ground arith)
    | inr (state, p) ↦ elim (EdgeState-cases state) [
      | inl w ↦ absurd (ground arith)
      | inr (inl w) ↦
          let q : at edge ≡ ok inactive = rw (← w) p in
          let rest = counted n m incoming (rw (q, count_active) at h) in
          record {
            settled = (inl q, rest.settled);
            outcome = elim rest.outcome [
              | inl (same, all) ↦ inl (same, (q, all))
              | inr (more, (e, there, k)) ↦ inr (more, (e, Memᴰ.tail there, k))
            ];
          }
      | inr (inr w) ↦
          let q : at edge ≡ ok active = rw (← w) p in
          let rest = counted (suc n) m incoming (rw (q, count_active) at h) in
          let more : n < m = elim rest.outcome [
            | inl (same, all) ↦ omega (arith, same)
            | inr (more, found) ↦ omega (arith, more)
          ] in
          record {
            settled = (inr q, rest.settled);
            outcome = inr (more, (edge, Memᴰ.head refl, q));
          }
    ]
  ]

  all_passed_sources :
      (incoming : List WorkflowEdge)
      → All (λ e. (at e ≡ ok inactive) ⊎ (at e ≡ ok active)) incoming
      → All (HasSource is_passed states) incoming
  all_passed_sources [] h = tt
  all_passed_sources (e ∷ incoming) h = (edge_passed e h.0, all_passed_sources incoming h.1)

  readiness_cases :
      (node : WorkflowNode) (incoming : List WorkflowEdge) (runnable should_skip : Bool)
      → workflow_node_readiness strings json ports node incoming definition states
        ≡ ok (runnable, should_skip)
      → ((node.node_type ≡ trigger_node) × (runnable ≡ true) × (should_skip ≡ false))
        ⊎ ((runnable ≡ false) × (should_skip ≡ false))
        ⊎ ((m : ℕ) × (count_active strings json ports 0 incoming definition states ≡ ok (some m))
            × (node.node_type ≡ trigger_node → ⊥)
            × (incoming ≡ [] → ⊥)
            × (runnable ≡ not (m == 0))
            × (should_skip ≡ (m == 0)))
  unfolding workflow_node_readiness
  readiness_cases node incoming runnable should_skip h = ground arith

  -- A node is run only if it is a trigger, or all its incoming edges come from nodes that have
  -- succeeded or are skipped, and an active one of them from a node that has succeeded. It is skipped
  -- only if it is no trigger and has incoming edges, all inactive. It is never both run and skipped.
  pub workflow_node_readiness_lem :
      (node : WorkflowNode) (incoming : List WorkflowEdge) (runnable should_skip : Bool)
      → workflow_node_readiness strings json ports node incoming definition states
        ≡ ok (runnable, should_skip)
      → (runnable ≡ true
          → (should_skip ≡ false)
            × ((node.node_type ≡ trigger_node)
                ⊎ (All (HasSource is_passed states) incoming
                    × ((e : WorkflowEdge) × Memᴰ e incoming
                        × (at e ≡ ok active)
                        × HasSource is_succeeded_node states e))))
        × (should_skip ≡ true
            → (node.node_type ≡ trigger_node → ⊥)
              × (incoming ≡ [] → ⊥)
              × All (λ e. at e ≡ ok inactive) incoming)
  workflow_node_readiness_lem node incoming runnable should_skip h =
      elim (readiness_cases node incoming runnable should_skip h) [
        | inl (t, r, k) ↦ (λ _. (k, inl t), λ e. absurd (ground arith))
        | inr (inl (r, k)) ↦ (λ e. absurd (ground arith), λ e. absurd (ground arith))
        | inr (inr (m, c, t, n, r, k)) ↦
            let all = counted 0 m incoming c in
            elim all.outcome [
              | inl (same, idle) ↦ (λ e. absurd (ground arith), λ e. (t, n, idle))
              | inr (more, (e, there, q)) ↦ (
                λ p. (
                  ground arith,
                  inr (all_passed_sources incoming all.settled, (e, there, q, edge_active e q)),
                ),
                λ p. absurd (ground arith),
              )
            ]
      ]
