-- ===== src/Executions/Texts.antt =====
-- The guards on open statuses compare their texts: an update that they let pass finds an open row.
use flowforge.Base.{
  String, ◌≡◌, refl, ap, inl, inr, Bool, true, false, not, ◌||◌, List, [], ◌∷◌, All, Bool-cases,
  str_eq, eq_iff,
}
use flowforge.Workflow.{
  WorkflowExecutionStatus, execution_pending, execution_running, execution_succeeded,
  execution_failed, execution_cancelled, node_pending, node_queued, node_running, node_succeeded,
  node_failed, node_skipped, node_cancelled, is_terminal_execution, WorkflowNodeExecutionStatus,
  is_terminal_node,
}
use flowforge.Executions.Operations.{execution_status_text, node_status_text, is_expected}
use flowforge.Executions.Statement.{IsOpen}

abbrev open_text : String → Bool
open_text t = str_eq t "pending" || str_eq t "running" || str_eq t "queued"

execution-open_text :
    (s : WorkflowExecutionStatus)
    → open_text (execution_status_text s) ≡ not (is_terminal_execution s)
execution-open_text execution_pending = refl
execution-open_text execution_running = refl
execution-open_text execution_succeeded = refl
execution-open_text execution_failed = refl
execution-open_text execution_cancelled = refl

node-open_text :
    (s : WorkflowNodeExecutionStatus) → open_text (node_status_text s) ≡ not (is_terminal_node s)
node-open_text node_pending = refl
node-open_text node_queued = refl
node-open_text node_running = refl
node-open_text node_succeeded = refl
node-open_text node_failed = refl
node-open_text node_skipped = refl
node-open_text node_cancelled = refl

texts_differ :
    (s t : String) (a b : Bool)
    → open_text s ≡ not a
    → open_text t ≡ not b
    → a ≡ true
    → b ≡ false
    → str_eq s t ≡ false
texts_differ s t a b p q h o = elim (Bool-cases (str_eq s t)) [
  | inr e ↦ e
  | inl e ↦
      let same : open_text s ≡ open_text t = ap open_text ((eq_iff s t).0 e) in
      let clash : false ≡ true = rw (p, q, h, o) at same in cc clash
]

pub node_text-open :
    (s expected : WorkflowNodeExecutionStatus)
    → is_terminal_node expected ≡ false
    → str_eq (node_status_text s) (node_status_text expected) ≡ true
    → is_terminal_node s ≡ false
node_text-open s expected o h = elim (Bool-cases (is_terminal_node s)) [
  | inr e ↦ e
  | inl e ↦
      let differ =
        texts_differ (node_status_text s) (node_status_text expected) (is_terminal_node s)
          (is_terminal_node expected) (node-open_text s) (node-open_text expected) e o in
      cc
]

-- an update guarded by open statuses does not touch a finished row
is_expected-final :
    (expected : List WorkflowExecutionStatus) (s : WorkflowExecutionStatus)
    → All IsOpen expected
    → is_terminal_execution s ≡ true
    → is_expected expected s ≡ false
unfolding is_expected
is_expected-final [] s o h = refl
is_expected-final (e ∷ expected) s o h =
    rw
      (
        texts_differ (execution_status_text s) (execution_status_text e) (is_terminal_execution s)
            (is_terminal_execution e) (execution-open_text s) (execution-open_text e) h (o.0),
        is_expected-final expected s o.1 h,
      )
      refl

pub is_expected-open :
    (expected : List WorkflowExecutionStatus) (s : WorkflowExecutionStatus)
    → All IsOpen expected
    → is_expected expected s ≡ true
    → is_terminal_execution s ≡ false
is_expected-open expected s o h = elim (Bool-cases (is_terminal_execution s)) [
  | inr e ↦ e
  | inl e ↦ let refused = is_expected-final expected s o e in cc
]
