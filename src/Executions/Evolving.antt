-- ===== src/Executions/Evolving.antt =====
-- Each transaction of the execution service changes the tables as Executions.Changes allows.
use flowforge.Base.{
  ℕ, String, ◌≡◌, ◌⊎◌, refl, sym, ◌∙◌, ap, subst, inl, inr, Bool, true, false, ◌&&◌, some, List, [],
  ◌∷◌, ◌++◌, Memᴰ, arith, Time, All, All-mem, find, find-mem, update, affected, Bool-cases,
  Option-cases, ◌==◌,
}
use flowforge.Storage.Rows.{All_of_update}
use flowforge.Workflow.{
  WorkflowExecutionStatus, node_pending, is_terminal_execution, WorkflowNodeExecutionStatus,
  is_terminal_node, WorkflowExecution, WorkflowNodeExecution,
}
use flowforge.Executions.{ExecutionRow, NodeRow, Database, execution_row}
use flowforge.Executions.Operations.{
  insert_nodes, insert_workflow_execution, create_workflow_execution, is_claimable,
  claim_workflow_node, is_node_in, update_workflow_node_execution, is_execution_in,
  update_workflow_execution, written_execution, is_open_in, finalize_workflow_execution,
  is_execution, cancelled_execution, cancelled_code, cancelled_message, cancel_workflow_execution,
  claimed_node, written_node, cancelled_node, cancel_open,
}
use flowforge.Executions.Statement.{
  Statement, create_execution, claim_node, update_node, update_execution, finalize,
  cancel_statement, apply_statement, IsOpen, IsServed,
}
use flowforge.Executions.Texts.{is_expected-open, node_text-open}
use flowforge.Executions.Changes.{
  NodeStep, is_broken, HasNoOpen, ExecutionStep, Evolves, stay, step, grow, IsDistinct,
}

-- What a creation may make of the tables.
pub create_cases :
    (before : Database) (x : WorkflowExecution) (nodes : List WorkflowNodeExecution) (db : Database)
    → ((create_workflow_execution before x nodes db).0 ≡ db)
      ⊎ ((rows : List NodeRow) × ((create_workflow_execution before x nodes db).0
            ≡ record db { executions = db.executions ++ execution_row x ∷ []; nodes = rows })
          × (insert_nodes (db.executions ++ execution_row x ∷ []) nodes db.nodes ≡ some rows)
          × ((affected (λ (r : ExecutionRow). r.id == x.id) db.executions == 0) ≡ true))
unfolding create_workflow_execution insert_workflow_execution
create_cases before x nodes db = ground arith

pub update_never {ℓ} : {A : Type ℓ} (f : A → A) (xs : List A) → update (λ _. false) f xs ≡ xs
unfolding update
update_never f [] = refl
update_never f (x ∷ xs) = ap (λ ys. x ∷ ys) (update_never f xs)

row_of_id :
    (rows : List ExecutionRow) {r s : ExecutionRow}
    → IsDistinct rows
    → Memᴰ r rows
    → Memᴰ s rows
    → (s.id == r.id) ≡ true
    → s ≡ r
row_of_id [] d m n h = elim m [ ]
row_of_id (x ∷ rows) d (Memᴰ.head e) (Memᴰ.head k) h = k ∙ sym e
row_of_id (x ∷ rows) {r = r} {s = s} d (Memᴰ.head e) (Memᴰ.tail n) h =
    let apart : (s.id == r.id) ≡ false =
      subst (λ (y : ExecutionRow). (s.id == y.id) ≡ false) (sym e)
        (All-mem (λ (y : ExecutionRow). (y.id == x.id) ≡ false) rows d.0 n) in
    cc
row_of_id (x ∷ rows) {r = r} {s = s} d (Memᴰ.tail m) (Memᴰ.head k) h =
    let apart : (r.id == s.id) ≡ false =
      subst (λ (y : ExecutionRow). (r.id == y.id) ≡ false) (sym k)
        (All-mem (λ (y : ExecutionRow). (y.id == x.id) ≡ false) rows d.0 m) in
    ground arith
row_of_id (x ∷ rows) d (Memᴰ.tail m) (Memᴰ.tail n) h = row_of_id rows d.1 m n h

claim_step :
    (org execution : ℕ) (node_id : String) (now : Time) (r : NodeRow)
    → is_claimable org execution node_id r ≡ true
    → NodeStep r (claimed_node now r)
unfolding claimed_node
claim_step org execution node_id now r h = record {
  was_open = node_text-open r.status node_pending refl (ground arith);
  same_org = refl;
  same_execution = refl;
  same_node = refl;
  not_pending = λ e. cc;
}

write_step :
    (n : WorkflowNodeExecution) (expected : WorkflowNodeExecutionStatus) (r : NodeRow)
    → is_terminal_node expected ≡ false
    → (n.status ≡ node_pending → ⊥)
    → is_node_in n expected r ≡ true
    → NodeStep r (written_node n r)
unfolding written_node
write_step n expected r o k h = record {
  was_open = node_text-open r.status expected o (ground arith);
  same_org = refl;
  same_execution = refl;
  same_node = refl;
  not_pending = k;
}

cancel_step :
    (org execution : ℕ) (code message : String) (now : Time) (r : NodeRow)
    → is_open_in org execution r ≡ true
    → NodeStep r (cancelled_node code message now r)
unfolding cancelled_node
cancel_step org execution code message now r h = record {
  was_open = ground arith;
  same_org = refl;
  same_execution = refl;
  same_node = refl;
  not_pending = λ e. cc;
}

cancel_open-HasNoOpen :
    (org execution : ℕ) (code message : String) (now : Time) (rows : List NodeRow)
    → HasNoOpen org execution (cancel_open org execution code message now rows)
unfolding cancelled_node
cancel_open-HasNoOpen org execution code message now rows =
    All_of_update (λ n. is_open_in org execution n ≡ false) (is_open_in org execution) _ rows
      (λ r h. ground arith) (λ r h. h)

claim-Evolves :
    (org execution : ℕ) (node_id : String) (now : Time) (db : Database)
    → Evolves db (claim_workflow_node org execution node_id now db).0
unfolding claim_workflow_node
claim-Evolves org execution node_id now db =
    elim (Option-cases (find (is_claimable org execution node_id) db.nodes)) [
      | inl e ↦ stay (rw (e, claim_workflow_node) refl)
      | inr (r, e) ↦
          step (λ _. false) (λ x. x) (is_claimable org execution node_id) (claimed_node now)
            (rw (e, claim_workflow_node, update_never) refl) (λ x m h. absurd (ground arith))
            (claim_step org execution node_id now)
    ]

update_node-Evolves :
    (n : WorkflowNodeExecution) (expected : WorkflowNodeExecutionStatus) (db : Database)
    → is_terminal_node expected ≡ false
    → (n.status ≡ node_pending → ⊥)
    → Evolves db (update_workflow_node_execution n expected db).0
unfolding update_workflow_node_execution
update_node-Evolves n expected db o k =
    step (λ _. false) (λ x. x) (is_node_in n expected) (written_node n) (rw update_never refl)
      (λ x m h. absurd (ground arith)) (λ r h. write_step n expected r o k h)

-- an update of an execution that does not break it
write_execution :
    (x : WorkflowExecution) (expected : List WorkflowExecutionStatus) (nodes : List NodeRow)
    (r : ExecutionRow)
    → All IsOpen expected
    → (is_broken x.status ≡ true → HasNoOpen x.org_id x.id nodes)
    → is_execution_in x expected r ≡ true
    → ExecutionStep nodes r (written_execution x r)
unfolding written_execution
write_execution x expected nodes r o k h =
    let org : r.org_id ≡ x.org_id = ground arith in
    let id : r.id ≡ x.id = ground arith in
    record {
      was_open = is_expected-open expected r.status o (ground arith);
      same_org = refl;
      same_id = refl;
      same_key = refl;
      same_fingerprint = refl;
      closed = λ b. rw (org, id) (k b);
    }

update_execution-Evolves :
    (x : WorkflowExecution) (expected : List WorkflowExecutionStatus) (db : Database)
    → All IsOpen expected
    → is_broken x.status ≡ false
    → Evolves db (update_workflow_execution x expected db).0
unfolding update_workflow_execution
update_execution-Evolves x expected db o k =
    step (is_execution_in x expected) (written_execution x) (λ _. false) (λ n. n)
      (rw update_never refl)
      (λ r m h. write_execution x expected db.nodes r o (λ b. absurd (ground arith)) h)
      (λ r h. absurd (ground arith))

finalize-Evolves :
    (x : WorkflowExecution) (expected : List WorkflowExecutionStatus) (cancel_open_nodes : Bool)
    (db : Database)
    → All IsOpen expected
    → (is_broken x.status ≡ true → cancel_open_nodes ≡ true)
    → Evolves db (finalize_workflow_execution x expected cancel_open_nodes db).0
unfolding finalize_workflow_execution
finalize-Evolves x expected cancel_open_nodes db o k =
    elim (Bool-cases (affected (is_execution_in x expected) db.executions == 0)) [
      | inl e ↦ stay (rw e refl)
      | inr e ↦ elim (Bool-cases cancel_open_nodes) [
        | inl c ↦
            step (is_execution_in x expected) (written_execution x) (is_open_in x.org_id x.id)
              (cancelled_node x.error_code x.error_message x.updated_at) (rw (e, c) refl)
              (λ r m h.
                write_execution x expected _ r o
                  (λ b.
                    rw (e, c)
                      (cancel_open-HasNoOpen x.org_id x.id x.error_code x.error_message x.updated_at
                        db.nodes))
                  h)
              (λ r h. cancel_step x.org_id x.id x.error_code x.error_message x.updated_at r h)
        | inr c ↦ rw (e, c) (update_execution-Evolves x expected db o (ground (arith, k)))
      ]
    ]

cancel-Evolves :
    (org workflow execution : ℕ) (now : Time) (db : Database)
    → IsDistinct db.executions
    → Evolves db (cancel_workflow_execution org workflow execution now db).0
unfolding cancel_workflow_execution cancelled_execution
cancel-Evolves org workflow execution now db d =
    elim (Option-cases (find (is_execution org workflow execution) db.executions)) [
      | inl e ↦ stay (rw (e, cancel_workflow_execution) refl)
      | inr (r, e) ↦ elim (Bool-cases (is_terminal_execution r.status)) [
        | inl f ↦ stay (rw (e, f, cancel_workflow_execution) refl)
        | inr f ↦
            let (there, named) = find-mem (is_execution org workflow execution) db.executions e in
            step (λ (s : ExecutionRow). s.org_id == org && s.id == execution)
              (cancelled_execution now) (is_open_in org execution)
              (cancelled_node cancelled_code cancelled_message now)
              (rw (e, f, cancel_workflow_execution) refl)
              (λ s m h.
                let same : s ≡ r = row_of_id db.executions d there m (ground arith) in
                record {
                  was_open = rw same f;
                  same_org = refl;
                  same_id = refl;
                  same_key = refl;
                  same_fingerprint = refl;
                  closed = λ b.
                      let org' : s.org_id ≡ org = ground arith in
                      let id' : s.id ≡ execution = ground arith in
                      rw (e, f, org', id', cancel_workflow_execution)
                        (cancel_open-HasNoOpen org execution cancelled_code cancelled_message now
                          db.nodes);
                })
              (λ s h. cancel_step org execution cancelled_code cancelled_message now s h)
      ]
    ]

-- Every transaction that the service asks for is one of those changes.
pub apply-Evolves_executions :
    (s : Statement) (db : Database)
    → IsServed s
    → IsDistinct db.executions
    → Evolves db (apply_statement s db)
unfolding apply_statement
apply-Evolves_executions (create_execution before x nodes) db v d =
    elim (create_cases before x nodes db) [
      | inl e ↦ stay e
      | inr (rows, e, inserted, free) ↦ grow x nodes rows v.0 v.1 free inserted e
    ]
apply-Evolves_executions (claim_node org execution node_id now) db v d =
    claim-Evolves org execution node_id now db
apply-Evolves_executions (update_node n expected) db v d = update_node-Evolves n expected db v.0 v.1
apply-Evolves_executions (update_execution x expected) db v d =
    update_execution-Evolves x expected db v.1 (ground arith)
apply-Evolves_executions (finalize x expected cancel_open_nodes) db v d =
    finalize-Evolves x expected cancel_open_nodes db v.1 (λ b. ground arith)
apply-Evolves_executions (cancel_statement org workflow execution now) db v d =
    cancel-Evolves org workflow execution now db d
