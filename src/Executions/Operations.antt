-- ===== src/Executions/Operations.antt =====
-- internal/storage/postgres/workflow_execution_repository.go: the methods of the repository, each as the
-- function from the tables before its transaction to the tables after it and its result.
use flowforge.Base.{
  ℕ, ◌+◌, String, Bool, true, false, ◌&&◌, ◌||◌, not, Option, none, some, List, [], ◌∷◌, ◌++◌, map,
  Time, ltb, ◌==◌, if◌then◌else◌, str_eq, take, find, select, update, affected, order_by, other,
  workflow_version_not_found, workflow_execution_not_found, workflow_execution_terminal,
  workflow_execution_idempotency_conflict, Result, ok, err, is_negative,
}
use flowforge.Storage.{null_if_empty}
use flowforge.Workflow.{
  is_supported, WorkflowVersion, WorkflowExecutionStatus, execution_pending, execution_running,
  execution_succeeded, execution_failed, execution_cancelled, is_terminal_execution,
  WorkflowNodeExecutionStatus, node_pending, node_queued, node_running, node_succeeded, node_failed,
  node_skipped, node_cancelled, WorkflowExecution, WorkflowNodeExecution,
}
use flowforge.Executions.{
  ExecutionRow, NodeRow, Database, scan_workflow_execution, scan_workflow_node_execution,
  execution_row, node_row,
}

-- the columns of status are compared by their text
abbrev pub execution_status_text : WorkflowExecutionStatus → String
execution_status_text execution_pending = "pending"
execution_status_text execution_running = "running"
execution_status_text execution_succeeded = "succeeded"
execution_status_text execution_failed = "failed"
execution_status_text execution_cancelled = "cancelled"

abbrev pub node_status_text : WorkflowNodeExecutionStatus → String
node_status_text node_pending = "pending"
node_status_text node_queued = "queued"
node_status_text node_running = "running"
node_status_text node_succeeded = "succeeded"
node_status_text node_failed = "failed"
node_status_text node_skipped = "skipped"
node_status_text node_cancelled = "cancelled"

-- status = ANY(expected)
unfoldable pub is_expected : List WorkflowExecutionStatus → WorkflowExecutionStatus → Bool
is_expected [] s = false
is_expected (e ∷ expected) s =
    str_eq (execution_status_text s) (execution_status_text e) || is_expected expected s

unfoldable pub get_workflow_execution_version :
    (org workflow version : ℕ) → Database → Result WorkflowVersion
get_workflow_execution_version org workflow version db =
    elim (find
      (λ (v : WorkflowVersion). v.org_id == org && v.workflow_id == workflow && v.id == version)
      db.versions) [ none ↦ err workflow_version_not_found | some v ↦ ok v ]

abbrev pub scanned_execution : Option ExecutionRow → Result WorkflowExecution
scanned_execution none = err workflow_execution_not_found
scanned_execution (some r) = ok (scan_workflow_execution r)

abbrev pub is_execution : (org workflow execution : ℕ) → ExecutionRow → Bool
is_execution org workflow execution r =
    r.org_id == org && r.workflow_id == workflow && r.id == execution

unfoldable pub get_workflow_execution :
    (org workflow execution : ℕ) → Database → Result WorkflowExecution
get_workflow_execution org workflow execution db =
    scanned_execution (find (is_execution org workflow execution) db.executions)

abbrev pub is_keyed : ℕ → String → ExecutionRow → Bool
is_keyed org key r = r.org_id == org && str_eq r.idempotency_key key

unfoldable pub get_workflow_execution_by_idempotency :
    ℕ → String → Database → Result WorkflowExecution
get_workflow_execution_by_idempotency org key db =
    scanned_execution (find (is_keyed org key) db.executions)

-- the execution, and whether it was there before
abbrev pub ExecutionCreation : Type 0
ExecutionCreation = Result (WorkflowExecution × Bool)

unfoldable pub reuse : WorkflowExecution → WorkflowExecution → ExecutionCreation
reuse x existing =
    if str_eq existing.request_fingerprint x.request_fingerprint
    then ok (existing, true)
    else err workflow_execution_idempotency_conflict

-- The foreign keys of an execution, and the check on its version, hold if its version exists.
abbrev pub has_version : WorkflowExecution → WorkflowVersion → Bool
has_version x v =
    v.org_id == x.org_id
    && v.workflow_id == x.workflow_id
    && v.id == x.workflow_version_id
    && v.version == x.workflow_version
    && not (v.version == 0)

-- the primary key, and the unique constraint on (org_id, workflow_execution_id, node_id)
unfoldable pub node_conflicts : NodeRow → NodeRow → Bool
node_conflicts new r =
    (r.id == new.id)
    || (r.org_id == new.org_id
        && r.workflow_execution_id == new.workflow_execution_id
        && str_eq r.node_id new.node_id)

-- the check on the type, the keys, and the foreign key of the execution
unfoldable pub is_admitted : List ExecutionRow → List NodeRow → NodeRow → Bool
unfolding node_conflicts
is_admitted executions rows n =
    is_supported n.node_type
    && affected (node_conflicts n) rows == 0
    && not (
        affected (λ (r : ExecutionRow). r.org_id == n.org_id && r.id == n.workflow_execution_id)
          executions
        == 0)

-- the loop over the nodes; none if an INSERT fails, which rolls the transaction back
unfoldable pub insert_nodes :
    List ExecutionRow → List WorkflowNodeExecution → List NodeRow → Option (List NodeRow)
insert_nodes executions [] rows = some rows
insert_nodes executions (n ∷ nodes) rows =
    let rest = insert_nodes executions nodes (rows ++ node_row n ∷ []) in
    if is_admitted executions rows (node_row n) then rest else none

-- The transaction of CreateWorkflowExecution, and what follows it if the idempotency key is taken.
unfoldable pub insert_workflow_execution :
    WorkflowExecution → List WorkflowNodeExecution → Database → Database × ExecutionCreation
insert_workflow_execution x nodes db =
    if not (affected (λ (r : ExecutionRow). r.id == x.id) db.executions == 0)
    then (db, err (other "postgres: create workflow execution"))
    else elim (get_workflow_execution_by_idempotency x.org_id x.idempotency_key db) [
      | ok existing ↦ (db, reuse x existing)
      | err absent ↦
          if affected (has_version x) db.versions == 0
          then (db, err (other "postgres: create workflow execution"))
          else let executions = db.executions ++ execution_row x ∷ [] in
            elim (insert_nodes executions nodes db.nodes) [
              | none ↦ (db, err (other "postgres: create workflow node execution"))
              | some rows ↦ (record db { executions = executions; nodes = rows }, ok (x, false))
            ]
    ]

-- `before` is the database when the first query reads it: others may commit before the transaction.
unfoldable pub create_workflow_execution :
    (before : Database)
    → WorkflowExecution
    → List WorkflowNodeExecution
    → Database
    → Database × ExecutionCreation
create_workflow_execution before x nodes db =
    elim (get_workflow_execution_by_idempotency x.org_id x.idempotency_key before) [
      | ok existing ↦ (db, reuse x existing)
      | err absent ↦ insert_workflow_execution x nodes db
    ]

abbrev pub is_node_of : (org execution : ℕ) → NodeRow → Bool
is_node_of org execution r = r.org_id == org && r.workflow_execution_id == execution

-- `text_before` is the order of the database's collation.
unfoldable pub get_workflow_node_executions :
    (text_before : String → String → Bool) (org execution : ℕ)
    → Database
    → List WorkflowNodeExecution
get_workflow_node_executions text_before org execution db = map scan_workflow_node_execution (
    order_by
      (λ (r s : NodeRow).
        ltb r.created_at s.created_at
        || (r.created_at == s.created_at && text_before r.node_id s.node_id))
      (select (is_node_of org execution) db.nodes))

-- COALESCE(t, now)
abbrev coalesce : Option Time → Time → Time
coalesce none now = now
coalesce (some t) now = t

unfoldable pub claimed_node : Time → NodeRow → NodeRow
claimed_node now r = record r {
  status = node_running;
  attempt = r.attempt + 1;
  started_at = some (coalesce r.started_at now);
  updated_at = now;
}

abbrev pub is_claimable : (org execution : ℕ) → String → NodeRow → Bool
is_claimable org execution node_id r =
    is_node_of org execution r
    && str_eq r.node_id node_id
    && str_eq (node_status_text r.status) "pending"

-- RETURNING: the row after the update
unfoldable pub claim_workflow_node :
    (org execution : ℕ) → String → Time → Database → Database × Option WorkflowNodeExecution
claim_workflow_node org execution node_id now db =
    elim (find (is_claimable org execution node_id) db.nodes) [
      | none ↦ (db, none)
      | some r ↦ (
        record db {
          nodes = update (is_claimable org execution node_id) (claimed_node now) db.nodes;
        },
        some (scan_workflow_node_execution (claimed_node now r)),
      )
    ]

unfoldable pub written_node : WorkflowNodeExecution → NodeRow → NodeRow
written_node n r = record r {
  status = n.status;
  attempt = n.attempt;
  input = null_if_empty n.input;
  output = null_if_empty n.output;
  error_code = null_if_empty n.error_code;
  error_message = null_if_empty n.error_message;
  queue_task_id = n.queue_task_id;
  webhook_delivery_id = n.webhook_delivery_id;
  available_at = n.available_at;
  started_at = n.started_at;
  completed_at = n.completed_at;
  updated_at = n.updated_at;
}

abbrev pub is_node_in : WorkflowNodeExecution → WorkflowNodeExecutionStatus → NodeRow → Bool
is_node_in n expected r =
    is_node_of n.org_id n.workflow_execution_id r
    && r.id == n.id
    && str_eq (node_status_text r.status) (node_status_text expected)

unfoldable pub update_workflow_node_execution :
    WorkflowNodeExecution → WorkflowNodeExecutionStatus → Database → Database × Bool
update_workflow_node_execution n expected db = (
  record db { nodes = update (is_node_in n expected) (written_node n) db.nodes },
  affected (is_node_in n expected) db.nodes == 1,
)

unfoldable pub written_execution : WorkflowExecution → ExecutionRow → ExecutionRow
written_execution x r = record r {
  status = x.status;
  output = null_if_empty x.output;
  error_code = null_if_empty x.error_code;
  error_message = null_if_empty x.error_message;
  started_at = x.started_at;
  completed_at = x.completed_at;
  updated_at = x.updated_at;
}

abbrev pub is_execution_in : WorkflowExecution → List WorkflowExecutionStatus → ExecutionRow → Bool
is_execution_in x expected r = r.org_id == x.org_id && r.id == x.id && is_expected expected r.status

unfoldable pub update_workflow_execution :
    WorkflowExecution → List WorkflowExecutionStatus → Database → Database × Bool
update_workflow_execution x expected db = (
  record db {
    executions = update (is_execution_in x expected) (written_execution x) db.executions;
  },
  affected (is_execution_in x expected) db.executions == 1,
)

-- status IN ('pending','queued','running')
abbrev pub is_open_status : WorkflowNodeExecutionStatus → Bool
is_open_status node_pending = true
is_open_status node_queued = true
is_open_status node_running = true
is_open_status _ = false

abbrev pub is_open_in : (org execution : ℕ) → NodeRow → Bool
is_open_in org execution r = is_node_of org execution r && is_open_status r.status

unfoldable pub cancelled_node : (code message : String) → Time → NodeRow → NodeRow
cancelled_node code message now r = record r {
  status = node_cancelled;
  error_code = some code;
  error_message = some message;
  completed_at = some now;
  updated_at = now;
}

abbrev pub cancel_open :
    (org execution : ℕ) (code message : String) → Time → List NodeRow → List NodeRow
cancel_open org execution code message now =
    update (is_open_in org execution) (cancelled_node code message now)

unfoldable pub finalize_workflow_execution :
    WorkflowExecution
    → List WorkflowExecutionStatus
    → (cancel_open_nodes : Bool) → Database
    → Database × Bool
unfolding update_workflow_execution
finalize_workflow_execution x expected cancel_open_nodes db =
    if affected (is_execution_in x expected) db.executions == 0
    then (db, false)
    else let db₁ = (update_workflow_execution x expected db).0 in
      (
        (if cancel_open_nodes
            then record db₁ {
              nodes = cancel_open x.org_id x.id x.error_code x.error_message x.updated_at db.nodes;
            }
            else db₁),
        true,
      )

abbrev pub cancelled_code : String
cancelled_code = "workflow_execution_cancelled"

abbrev pub cancelled_message : String
cancelled_message = "workflow execution was cancelled"

unfoldable pub cancelled_execution : Time → ExecutionRow → ExecutionRow
cancelled_execution now r = record r {
  status = execution_cancelled;
  error_code = some cancelled_code;
  error_message = some cancelled_message;
  completed_at = some now;
  updated_at = now;
}

-- SELECT … FOR UPDATE, the two updates, and the struct that the method changes beside them
unfoldable pub cancel_workflow_execution :
    (org workflow execution : ℕ) → Time → Database → Database × Result WorkflowExecution
cancel_workflow_execution org workflow execution now db =
    elim (find (is_execution org workflow execution) db.executions) [
      | none ↦ (db, err workflow_execution_not_found)
      | some r ↦ if is_terminal_execution r.status then (db, err workflow_execution_terminal) else (
        record db {
          executions =
              update (λ (s : ExecutionRow). s.org_id == org && s.id == execution)
                (cancelled_execution now) db.executions;
          nodes = cancel_open org execution cancelled_code cancelled_message now db.nodes;
        },
        ok (record (scan_workflow_execution r) {
          status = execution_cancelled;
          error_code = cancelled_code;
          error_message = cancelled_message;
          completed_at = some now;
          updated_at = now;
        }),
      )
    ]

abbrev pub is_active_execution : ExecutionRow → Bool
is_active_execution r =
    str_eq (execution_status_text r.status) "pending"
    || str_eq (execution_status_text r.status) "running"

unfoldable pub list_for_reconciliation : (limit : ℕ) → Database → List WorkflowExecution
list_for_reconciliation limit db =
    let n = if limit == 0 || is_negative limit || ltb 1000 limit then 100 else limit in
    map scan_workflow_execution (
      take n (
        order_by
          (λ (r s : ExecutionRow).
            ltb r.updated_at s.updated_at || (r.updated_at == s.updated_at && ltb r.id s.id))
          (select is_active_execution db.executions)))
