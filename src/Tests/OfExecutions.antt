-- ===== src/Tests/OfExecutions.antt =====
-- The theorems on executions of workflows, for the sample execution.

use flowforge.Base.{◌≡◌, refl, true, false, none, [], ◌∷◌, Memᴰ, arith, find, affected, ok}
use flowforge.Workflow.{
  WorkflowExecution, execution_pending, execution_cancelled, is_terminal_execution, is_supported,
}
use flowforge.Executions.{ExecutionRow, execution_row, node_row}
use flowforge.Executions.Operations.{
  create_workflow_execution, insert_workflow_execution, get_workflow_execution,
  get_workflow_execution_by_idempotency, claim_workflow_node, insert_nodes, is_admitted,
  node_conflicts,
}
use flowforge.Executions.Statement.{run_all, cancel_statement}
use flowforge.Executions.Final.{run-execution_final}
use flowforge.Executions.Closed.{IsClosed, run-IsClosed, claim_once}
use flowforge.Executions.Idempotent.{create-get_workflow_execution}
use flowforge.Tests.FlowSamples.{
  entry, choice, sample_execution, sample_node, empty_tables, pending_tables, cancelled_tables,
  sample_history,
}

not_broken : IsClosed pending_tables
unfolding execution_row
not_broken = (λ b. absurd (ground arith), tt)

run-IsClosed_example : IsClosed (run_all sample_history pending_tables)
run-IsClosed_example = run-IsClosed sample_history pending_tables (tt, tt) (tt, tt) not_broken

abbrev cancelled_row : ExecutionRow
cancelled_row = execution_row (sample_execution 9 execution_cancelled)

is_cancelled : is_terminal_execution cancelled_row.status ≡ true
unfolding execution_row
is_cancelled = refl

run-execution_final_example :
    Memᴰ cancelled_row (run_all (cancel_statement 1 3 9 70 ∷ []) cancelled_tables).executions
run-execution_final_example =
    run-execution_final (cancel_statement 1 3 9 70 ∷ []) cancelled_tables cancelled_row (tt, tt)
      (tt, tt) (Memᴰ.head refl) is_cancelled

row_id : (execution_row (sample_execution 9 execution_pending)).id ≡ 9
unfolding execution_row
row_id = refl

claim_once_example :
    (claim_workflow_node 1 9 "t" 60
      (run_all sample_history (claim_workflow_node 1 9 "t" 50 pending_tables).0)).1
    ≡ none
claim_once_example =
    claim_once 1 9 "t" 50 60 sample_history pending_tables
      (execution_row (sample_execution 9 execution_pending)) (tt, tt) (tt, tt) (Memᴰ.head refl)
      row_id

abbrev new_execution : WorkflowExecution
new_execution = sample_execution 9 execution_pending

created :
    create_workflow_execution empty_tables new_execution
      (sample_node 31 9 entry ∷ sample_node 32 9 choice ∷ [])
      empty_tables
    ≡ (pending_tables, ok (new_execution, false))
unfolding create_workflow_execution insert_workflow_execution get_workflow_execution_by_idempotency
    find affected insert_nodes is_admitted node_conflicts execution_row node_row is_supported
created = refl

create-get_workflow_execution_example :
    (new_execution ≡ new_execution)
    × (get_workflow_execution 1 3 9 pending_tables ≡ ok new_execution)
create-get_workflow_execution_example =
    create-get_workflow_execution empty_tables new_execution
      (sample_node 31 9 entry ∷ sample_node 32 9 choice ∷ []) empty_tables {db' = pending_tables}
      {y = new_execution} created

abbrev again : WorkflowExecution
again = sample_execution 10 execution_pending
