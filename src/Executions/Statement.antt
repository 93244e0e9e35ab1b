-- ===== src/Executions/Statement.antt =====
-- The transactions of workflow_execution_repository.go that write, as one type, and what each makes of
-- the tables. A history is a list of transactions in the order of their commits, of any workers.
use flowforge.Base.{ℕ, String, ◌≡◌, ◌⊎◌, Bool, true, false, List, [], ◌∷◌, Time, All}
use flowforge.Workflow.{
  WorkflowExecutionStatus, execution_pending, execution_running, execution_succeeded,
  execution_failed, is_terminal_execution, WorkflowNodeExecutionStatus, node_pending,
  is_terminal_node, WorkflowExecution, WorkflowNodeExecution,
}
use flowforge.Executions.{Database}
use flowforge.Executions.Operations.{
  create_workflow_execution, claim_workflow_node, update_workflow_node_execution,
  update_workflow_execution, finalize_workflow_execution, cancel_workflow_execution,
}

pub data Statement : Type 0 where
  create_execution : Database → WorkflowExecution → List WorkflowNodeExecution → Statement
  claim_node : (org execution : ℕ) → String → Time → Statement
  update_node : WorkflowNodeExecution → WorkflowNodeExecutionStatus → Statement
  update_execution : WorkflowExecution → List WorkflowExecutionStatus → Statement
  finalize : WorkflowExecution → List WorkflowExecutionStatus → Bool → Statement
  cancel_statement : (org workflow execution : ℕ) → Time → Statement

unfoldable pub apply_statement : Statement → Database → Database
apply_statement (create_execution before x nodes) db =
    (create_workflow_execution before x nodes db).0
apply_statement (claim_node org execution node_id now) db =
    (claim_workflow_node org execution node_id now db).0
apply_statement (update_node n expected) db = (update_workflow_node_execution n expected db).0
apply_statement (update_execution x expected) db = (update_workflow_execution x expected db).0
apply_statement (finalize x expected cancel_open_nodes) db =
    (finalize_workflow_execution x expected cancel_open_nodes db).0
apply_statement (cancel_statement org workflow execution now) db =
    (cancel_workflow_execution org workflow execution now db).0

unfoldable pub run_all : List Statement → Database → Database
unfolding apply_statement
run_all [] db = db
run_all (s ∷ history) db = run_all history (apply_statement s db)

abbrev pub IsOpen : WorkflowExecutionStatus → Type 0
IsOpen s = is_terminal_execution s ≡ false

abbrev pub IsNodeOf : WorkflowExecution → WorkflowNodeExecution → Type 0
IsNodeOf x n = (n.org_id ≡ x.org_id) × (n.workflow_execution_id ≡ x.id)

-- The transactions that the execution service asks for: it creates an execution with its own nodes,
-- it guards each update by a status that is not terminal, it never makes a node pending again, and
-- it cancels the open nodes of exactly the executions that it fails.
abbrev pub IsServed : Statement → Type 0
IsServed (create_execution before x nodes) = (x.status ≡ execution_pending) × All (IsNodeOf x) nodes
IsServed (claim_node org execution node_id now) = Unit
IsServed (update_node n expected) =
    (is_terminal_node expected ≡ false) × (n.status ≡ node_pending → ⊥)
IsServed (update_execution x expected) = (x.status ≡ execution_running) × All IsOpen expected
IsServed (finalize x expected cancel_open_nodes) =
    ((x.status ≡ execution_succeeded) ⊎ (x.status ≡ execution_failed) × (cancel_open_nodes ≡ true))
    × All IsOpen expected
IsServed (cancel_statement org workflow execution now) = Unit
