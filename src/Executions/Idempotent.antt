-- ===== src/Executions/Idempotent.antt =====
-- The idempotency key of an execution, over the life of its row.

use flowforge.Base.{
  ◌≡◌, refl, Bool, true, false, some, List, [], ◌∷◌, ◌++◌, arith, All, find, affected, ◌==◌, ok,
}
use flowforge.Storage.Rows.{affected_none}
use flowforge.Storage.Idempotency.{null_string}
use flowforge.Workflow.{WorkflowExecution, WorkflowNodeExecution}
use flowforge.Executions.{ExecutionRow, Database, execution_row, scan_workflow_execution}
use flowforge.Executions.Operations.{
  is_execution, get_workflow_execution, reuse, insert_workflow_execution, create_workflow_execution,
}
use flowforge.Executions.Statement.{Statement}

-- the row `s` has the identity of the row `r`
pub record SameExecution (r s : ExecutionRow) : Type 0 where
  pub same_id : s.id ≡ r.id
  pub same_org : s.org_id ≡ r.org_id
  pub same_key : s.idempotency_key ≡ r.idempotency_key
  pub same_fingerprint : s.request_fingerprint ≡ r.request_fingerprint

find-snoc :
    (t : ExecutionRow → Bool) (rows : List ExecutionRow) (x : ExecutionRow)
    → All (λ r. t r ≡ false) rows
    → t x ≡ true
    → find t (rows ++ x ∷ []) ≡ some x
unfolding find
find-snoc t [] x h k = rw k refl
find-snoc t (r ∷ rows) x h k = rw (h.0) (find-snoc t rows x h.1 k)

scan-execution_row : (x : WorkflowExecution) → scan_workflow_execution (execution_row x) ≡ x
unfolding scan_workflow_execution execution_row
scan-execution_row x =
    rw
      (
        null_string x.input,
        null_string x.output,
        null_string x.error_code,
        null_string x.error_message,
      )
      refl

no_id_no_name :
    (x : WorkflowExecution) (rows : List ExecutionRow)
    → All (λ (r : ExecutionRow). (r.id == x.id) ≡ false) rows
    → All (λ r. is_execution x.org_id x.workflow_id x.id r ≡ false) rows
no_id_no_name x [] h = tt
no_id_no_name x (r ∷ rows) h = (ground (arith, h.0), no_id_no_name x rows h.1)

named : (x : WorkflowExecution) → is_execution x.org_id x.workflow_id x.id (execution_row x) ≡ true
unfolding execution_row
named x = ground arith

-- An execution that CreateWorkflowExecution reports as new is what GetWorkflowExecution then reads,
-- field by field, whatever the first query of the creation has read.
pub create-get_workflow_execution :
    (before : Database) (x : WorkflowExecution) (nodes : List WorkflowNodeExecution) (db : Database)
    {db' : Database} {y : WorkflowExecution}
    → create_workflow_execution before x nodes db ≡ (db', ok (y, false))
    → (y ≡ x) × (get_workflow_execution x.org_id x.workflow_id x.id db' ≡ ok x)
unfolding get_workflow_execution create_workflow_execution insert_workflow_execution reuse
create-get_workflow_execution before x nodes db {db' = db'} {y = y} h =
    let (same, tables, free) : (y ≡ x)
        × (db'.executions ≡ db.executions ++ execution_row x ∷ [])
        × ((affected (λ (r : ExecutionRow). r.id == x.id) db.executions == 0) ≡ true) =
      ground arith in
    let apart = affected_none (λ (r : ExecutionRow). r.id == x.id) db.executions (ground arith) in
    let found =
      find-snoc (is_execution x.org_id x.workflow_id x.id) db.executions (execution_row x)
        (no_id_no_name x db.executions apart) (named x) in
    (same, rw (tables, found, scan-execution_row x) refl)
