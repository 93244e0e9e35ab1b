-- ===== src/Executions/Changes.antt =====
-- What a transaction of the execution service may make of the tables: steps of rows that are open, or
-- a new execution with its nodes.
use flowforge.Base.{
  ℕ, ◌≡◌, Bool, true, false, some, List, [], ◌∷◌, ◌++◌, Memᴰ, All, update, affected, ◌==◌,
}
use flowforge.Workflow.{
  WorkflowExecutionStatus, execution_pending, execution_failed, execution_cancelled, node_pending,
  is_terminal_execution, is_terminal_node, WorkflowExecution, WorkflowNodeExecution,
}
use flowforge.Executions.{ExecutionRow, NodeRow, Database, execution_row}
use flowforge.Executions.Operations.{insert_nodes, is_open_in}
use flowforge.Executions.Statement.{IsNodeOf}

-- The right of a transaction to change the row of a node, and what the change keeps.
pub record NodeStep (r s : NodeRow) : Type 0 where
  pub was_open : is_terminal_node r.status ≡ false
  pub same_org : s.org_id ≡ r.org_id
  pub same_execution : s.workflow_execution_id ≡ r.workflow_execution_id
  pub same_node : s.node_id ≡ r.node_id
  pub not_pending : s.status ≡ node_pending → ⊥

-- failed or cancelled
abbrev pub is_broken : WorkflowExecutionStatus → Bool
is_broken execution_failed = true
is_broken execution_cancelled = true
is_broken _ = false

abbrev pub HasNoOpen : (org execution : ℕ) → List NodeRow → Type 0
HasNoOpen org execution = All (λ n. is_open_in org execution n ≡ false)

-- The same for an execution: where it breaks, `nodes` has no open node of it.
pub record ExecutionStep (nodes : List NodeRow) (r s : ExecutionRow) : Type 0 where
  pub was_open : is_terminal_execution r.status ≡ false
  pub same_org : s.org_id ≡ r.org_id
  pub same_id : s.id ≡ r.id
  pub same_key : s.idempotency_key ≡ r.idempotency_key
  pub same_fingerprint : s.request_fingerprint ≡ r.request_fingerprint
  pub closed : is_broken s.status ≡ true → HasNoOpen r.org_id r.id nodes

pub data Evolves (db db' : Database) : Type 0 where
  stay : db' ≡ db → Evolves db db'
  step :
      (p : ExecutionRow → Bool) (f : ExecutionRow → ExecutionRow) (q : NodeRow → Bool)
      (g : NodeRow → NodeRow)
      → db' ≡ record db { executions = update p f db.executions; nodes = update q g db.nodes }
      → ((r : ExecutionRow) → Memᴰ r db.executions → p r ≡ true → ExecutionStep db'.nodes r (f r))
      → ((r : NodeRow) → q r ≡ true → NodeStep r (g r))
      → Evolves db db'
  grow :
      (x : WorkflowExecution) (nodes : List WorkflowNodeExecution) (rows : List NodeRow)
      → x.status ≡ execution_pending
      → All (IsNodeOf x) nodes
      → (affected (λ (r : ExecutionRow). r.id == x.id) db.executions == 0) ≡ true
      → insert_nodes (db.executions ++ execution_row x ∷ []) nodes db.nodes ≡ some rows
      → db' ≡ record db { executions = db.executions ++ execution_row x ∷ []; nodes = rows }
      → Evolves db db'

abbrev pub IsDistinct : List ExecutionRow → Type 0
IsDistinct [] = Unit
IsDistinct (r ∷ rows) = All (λ s. (s.id == r.id) ≡ false) rows × IsDistinct rows
