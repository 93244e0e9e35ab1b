-- ===== src/Executions/Closed.antt =====
-- The executions that break leave no open node, whatever the service does afterwards, and a node is
-- claimed at most once.
use mathlib.Core.List.Memᴰ
use flowforge.Base.{
  ℕ, String, ◌≡◌, refl, ◌∙◌, subst, Bool, true, false, none, some, List, [], ◌∷◌, ◌++◌, Memᴰ, arith,
  Time, All, All-mem, All_of_mem, All-append, All-update, find, find-none, find_of_none, update,
  Bool-cases, Option-cases, str_eq, inl, inr, ◌==◌,
}
use flowforge.Storage.Rows.{affected_none, mem-update, mem-update_other, All_of_update}
use flowforge.Workflow.{
  WorkflowExecution, WorkflowNodeExecution, WorkflowNodeExecutionStatus, node_pending, node_queued,
  node_running, node_succeeded, node_failed, node_skipped, node_cancelled,
}
use flowforge.Executions.{ExecutionRow, NodeRow, Database, execution_row, node_row}
use flowforge.Executions.Operations.{
  is_admitted, insert_nodes, is_open_in, is_claimable, claim_workflow_node, claimed_node,
  node_status_text,
}
use flowforge.Executions.Statement.{
  Statement, claim_node, apply_statement, run_all, IsServed, IsNodeOf,
}
use flowforge.Executions.Changes.{
  NodeStep, is_broken, HasNoOpen, Evolves, stay, step, grow, IsDistinct,
}
use flowforge.Executions.Evolving.{apply-Evolves_executions}
use flowforge.Executions.Final.{IsDistinct-Evolves}

abbrev pub IsShut : List NodeRow → ExecutionRow → Type 0
IsShut nodes x = is_broken x.status ≡ true → HasNoOpen x.org_id x.id nodes

-- Every execution that has failed or is cancelled has no open node.
abbrev pub IsClosed : Database → Type 0
IsClosed db = All (IsShut db.nodes) db.executions

insert_nodes-All :
    (P : NodeRow → Type 0) (executions : List ExecutionRow) (nodes : List WorkflowNodeExecution)
    (rows : List NodeRow) {rows' : List NodeRow}
    → insert_nodes executions nodes rows ≡ some rows'
    → All P rows
    → All (λ n. P (node_row n)) nodes
    → All P rows'
unfolding insert_nodes
insert_nodes-All P executions [] rows h k l = subst (All P) (ground arith) k
insert_nodes-All P executions (n ∷ nodes) rows h k l =
    elim (Bool-cases (is_admitted executions rows (node_row n))) [
      | inl e ↦
          insert_nodes-All P executions nodes (rows ++ node_row n ∷ []) (rw (e, insert_nodes) at h)
            (All-append P rows (node_row n ∷ []) k (l.0, tt)) l.1
      | inr e ↦ absurd (ground arith)
    ]

-- the nodes of a new execution belong to no execution with another id
new_nodes_elsewhere :
    (P : NodeRow → Type 0) (x : WorkflowExecution) (execution : ℕ)
    (nodes : List WorkflowNodeExecution)
    → ((n : WorkflowNodeExecution)
        → (n.workflow_execution_id == execution) ≡ false
        → P (node_row n))
    → (execution == x.id) ≡ false
    → All (IsNodeOf x) nodes
    → All (λ n. P (node_row n)) nodes
new_nodes_elsewhere P x execution [] k h o = tt
new_nodes_elsewhere P x execution (n ∷ nodes) k h o =
    (k n (ground arith), new_nodes_elsewhere P x execution nodes k h o.1)

step-HasNoOpen :
    (org execution : ℕ) (q : NodeRow → Bool) (g : NodeRow → NodeRow) (rows : List NodeRow)
    → ((r : NodeRow) → q r ≡ true → NodeStep r (g r))
    → HasNoOpen org execution rows
    → HasNoOpen org execution (update q g rows)
step-HasNoOpen org execution q g rows l h =
    All-update (λ n. is_open_in org execution n ≡ false) q g rows
      (λ n m t k. let st = l n t in shut n (g n) st k) h
  where
    shut :
        (r s : NodeRow)
        → NodeStep r s
        → is_open_in org execution r ≡ false
        → is_open_in org execution s ≡ false
    shut r s st k = rw (st.same_org, st.same_execution) (ground (arith, st.was_open))

grow-HasNoOpen :
    (x : WorkflowExecution) (executions : List ExecutionRow) (nodes : List WorkflowNodeExecution)
    (rows : List NodeRow) {rows' : List NodeRow} (r : ExecutionRow)
    → insert_nodes executions nodes rows ≡ some rows'
    → All (IsNodeOf x) nodes
    → (r.id == x.id) ≡ false
    → HasNoOpen r.org_id r.id rows
    → HasNoOpen r.org_id r.id rows'
unfolding node_row
grow-HasNoOpen x executions nodes rows r inserted o apart h =
    insert_nodes-All (λ n. is_open_in r.org_id r.id n ≡ false) executions nodes rows inserted h
      (new_nodes_elsewhere (λ n. is_open_in r.org_id r.id n ≡ false) x r.id nodes
        (λ n e. ground arith) apart o)

IsClosed-Evolves : {db db' : Database} → Evolves db db' → IsClosed db → IsClosed db'
unfolding execution_row
IsClosed-Evolves (stay e) c = rw e c
IsClosed-Evolves {db = db} {db' = db'} (step p f q g e k l) c =
    let kept : All (IsShut (update q g db.nodes)) db.executions =
      All_of_mem (IsShut (update q g db.nodes)) db.executions (λ r m b.
        step-HasNoOpen r.org_id r.id q g db.nodes l
          (All-mem (IsShut db.nodes) db.executions c m b)) in
    rw e (
      All-update (IsShut (update q g db.nodes)) p f db.executions
        (λ r m t h b. let st = k r m t in rw (st.same_org, st.same_id) (rw e at (st.closed b)))
        kept)
IsClosed-Evolves {db = db} (grow x nodes rows s o free inserted e) c =
    let apart = affected_none (λ (r : ExecutionRow). r.id == x.id) db.executions (ground arith) in
    let kept : All (IsShut rows) db.executions = All_of_mem (IsShut rows) db.executions (λ r m b.
      grow-HasNoOpen x (db.executions ++ execution_row x ∷ []) nodes db.nodes r inserted o
        (All-mem (λ (r : ExecutionRow). (r.id == x.id) ≡ false) db.executions apart m)
        (All-mem (IsShut db.nodes) db.executions c m b)) in
    rw e (
      All-append (IsShut rows) db.executions (execution_row x ∷ []) kept
        (λ b. absurd (ground arith), tt))

-- If every execution that has failed or is cancelled has no pending, queued or running node, and the
-- ids of the executions are distinct, then this is so after any history of the service's
-- transactions, in any order and of any workers.
pub run-IsClosed :
    (history : List Statement) (db : Database)
    → All IsServed history
    → IsDistinct db.executions
    → IsClosed db
    → IsClosed (run_all history db)
unfolding run_all
run-IsClosed [] db v d c = c
run-IsClosed (s ∷ history) db v d c =
    let evolves = apply-Evolves_executions s db v.0 d in
    run-IsClosed history (apply_statement s db) v.1 (IsDistinct-Evolves evolves d)
      (IsClosed-Evolves evolves c)

-- No row of the node is pending, and the node's execution is in the table.
record IsTaken (org execution : ℕ) (node_id : String) (db : Database) : Type 0 where
  taken : All (λ n. is_claimable org execution node_id n ≡ false) db.nodes
  row : ExecutionRow
  there : Memᴰ row db.executions
  same : row.id ≡ execution

not_pending :
    (s : WorkflowNodeExecutionStatus)
    → (s ≡ node_pending → ⊥)
    → str_eq (node_status_text s) "pending" ≡ false
not_pending node_pending h = absurd (h refl)
not_pending node_queued h = refl
not_pending node_running h = refl
not_pending node_succeeded h = refl
not_pending node_failed h = refl
not_pending node_skipped h = refl
not_pending node_cancelled h = refl

module _ (org execution : ℕ) (node_id : String) where
  IsTaken-Evolves :
      {db db' : Database}
      → Evolves db db'
      → IsTaken org execution node_id db
      → IsTaken org execution node_id db'
  unfolding execution_row node_row
  IsTaken-Evolves (stay e) c = rw e c
  IsTaken-Evolves {db = db} (step p f q g e k l) c =
      let (row', there', same') : (s : ExecutionRow) × Memᴰ s (update p f db.executions)
          × (s.id ≡ c.row.id) =
        elim (Bool-cases (p c.row)) [
          | inl t ↦ (f c.row, mem-update p f db.executions c.there t, (k c.row c.there t).same_id)
          | inr t ↦ (c.row, mem-update_other p f db.executions c.there t, refl)
        ] in
      rw e (record {
        taken =
            All-update (λ n. is_claimable org execution node_id n ≡ false) q g db.nodes
              (λ n m t h. rw (not_pending (g n).status (l n t).not_pending) (ground arith)) c.taken;
        row = row';
        there = there';
        same = same' ∙ c.same;
      })
  IsTaken-Evolves {db = db} (grow x nodes rows s o free inserted e) c =
      let apart = affected_none (λ (r : ExecutionRow). r.id == x.id) db.executions (ground arith) in
      let other_id : (execution == x.id) ≡ false =
        rw (← c.same)
          (All-mem (λ (r : ExecutionRow). (r.id == x.id) ≡ false) db.executions apart c.there) in
      rw e (record {
        taken =
            insert_nodes-All (λ n. is_claimable org execution node_id n ≡ false)
              (db.executions ++ execution_row x ∷ []) nodes db.nodes inserted c.taken
              (new_nodes_elsewhere (λ n. is_claimable org execution node_id n ≡ false) x execution
                nodes (λ n h. ground arith) other_id o);
        row = c.row;
        there = Memᴰ.append_left (execution_row x ∷ []) c.there;
        same = c.same;
      })

  run-IsTaken :
      (history : List Statement) (db : Database)
      → All IsServed history
      → IsDistinct db.executions
      → IsTaken org execution node_id db
      → IsTaken org execution node_id (run_all history db)
  unfolding run_all
  run-IsTaken [] db v d c = c
  run-IsTaken (s ∷ history) db v d c =
      let evolves = apply-Evolves_executions s db v.0 d in
      run-IsTaken history (apply_statement s db) v.1 (IsDistinct-Evolves evolves d)
        (IsTaken-Evolves evolves c)

claim-IsTaken :
    (org execution : ℕ) (node_id : String) (now : Time) (db : Database) {row : ExecutionRow}
    → Memᴰ row db.executions
    → row.id ≡ execution
    → IsTaken org execution node_id (claim_workflow_node org execution node_id now db).0
unfolding claim_workflow_node claimed_node
claim-IsTaken org execution node_id now db {row = row} m same =
    elim (Option-cases (find (is_claimable org execution node_id) db.nodes)) [
      | inl e ↦
          rw (e, claim_workflow_node)
            (record {
              taken = find-none (is_claimable org execution node_id) db.nodes e;
              row = row;
              there = m;
              same = same;
            })
      | inr (r, e) ↦
          rw (e, claim_workflow_node)
            (record {
              taken =
                  All_of_update (λ n. is_claimable org execution node_id n ≡ false)
                    (is_claimable org execution node_id) (claimed_node now) db.nodes
                    (λ n h. ground arith) (λ n h. h);
              row = row;
              there = m;
              same = same;
            })
    ]

-- After a claim of a node of an execution that is in the table, and any history of the service's
-- transactions after it, a second claim of the node gets nothing, if the ids of the executions are
-- distinct: a node is executed for at most one claim, whoever asks.
pub claim_once :
    (org execution : ℕ) (node_id : String) (now later : Time) (history : List Statement)
    (db : Database) (row : ExecutionRow)
    → All IsServed history
    → IsDistinct db.executions
    → Memᴰ row db.executions
    → row.id ≡ execution
    → (claim_workflow_node org execution node_id later
        (run_all history (claim_workflow_node org execution node_id now db).0)).1
      ≡ none
unfolding claim_workflow_node apply_statement
claim_once org execution node_id now later history db row v d m same =
    let after = (claim_workflow_node org execution node_id now db).0 in
    let evolves = apply-Evolves_executions (claim_node org execution node_id now) db tt d in
    let distinct : IsDistinct after.executions = IsDistinct-Evolves evolves d in
    let taken =
      run-IsTaken org execution node_id history after v distinct
        (claim-IsTaken org execution node_id now db m same) in
    let absent =
      find_of_none (is_claimable org execution node_id) (run_all history after).nodes taken.taken in
    rw (absent, claim_workflow_node) refl
