-- ===== src/Executions/Final.antt =====
-- What a history of the service's transactions can no longer change: the rows that are finished.
use mathlib.Core.List.Memᴰ
use flowforge.Base.{
  ◌≡◌, refl, subst, Bool, true, false, some, List, [], ◌∷◌, ◌++◌, Memᴰ, arith, All, All-update,
  All-append, update, affected, Bool-cases, inl, inr, ◌==◌,
}
use flowforge.Storage.Rows.{mem-update_other}
use flowforge.Workflow.{is_terminal_execution, is_terminal_node, WorkflowNodeExecution}
use flowforge.Executions.{ExecutionRow, NodeRow, Database, execution_row, node_row}
use flowforge.Executions.Operations.{is_admitted, insert_nodes}
use flowforge.Executions.Statement.{Statement, apply_statement, run_all, IsServed}
use flowforge.Executions.Changes.{Evolves, stay, step, grow, IsDistinct}
use flowforge.Executions.Evolving.{apply-Evolves_executions}

insert_nodes-mem :
    (executions : List ExecutionRow) (nodes : List WorkflowNodeExecution) (rows : List NodeRow)
    {rows' : List NodeRow} {r : NodeRow}
    → insert_nodes executions nodes rows ≡ some rows'
    → Memᴰ r rows
    → Memᴰ r rows'
unfolding insert_nodes
insert_nodes-mem executions [] rows {r = r} h m = subst (Memᴰ r) (ground arith) m
insert_nodes-mem executions (n ∷ nodes) rows h m =
    elim (Bool-cases (is_admitted executions rows (node_row n))) [
      | inl e ↦
          insert_nodes-mem executions nodes (rows ++ node_row n ∷ []) (rw (e, insert_nodes) at h)
            (Memᴰ.append_left (node_row n ∷ []) m)
      | inr e ↦ absurd (ground arith)
    ]

ids_apart_update :
    (p : ExecutionRow → Bool) (f : ExecutionRow → ExecutionRow) (rows : List ExecutionRow)
    (x : ExecutionRow)
    → ((r : ExecutionRow) → Memᴰ r rows → p r ≡ true → (f r).id ≡ r.id)
    → All (λ s. (s.id == x.id) ≡ false) rows
    → All (λ s. (s.id == x.id) ≡ false) (update p f rows)
unfolding update
ids_apart_update p f rows x k h =
    All-update (λ (s : ExecutionRow). (s.id == x.id) ≡ false) p f rows (λ r m e q. rw (k r m e) q) h

IsDistinct-update :
    (p : ExecutionRow → Bool) (f : ExecutionRow → ExecutionRow) (rows : List ExecutionRow)
    → ((r : ExecutionRow) → Memᴰ r rows → p r ≡ true → (f r).id ≡ r.id)
    → IsDistinct rows
    → IsDistinct (update p f rows)
unfolding update
IsDistinct-update p f [] k d = tt
IsDistinct-update p f (x ∷ rows) k d =
    let apart = ids_apart_update p f rows x (λ r m. k r (Memᴰ.tail m)) d.0 in
    let rest = IsDistinct-update p f rows (λ r m. k r (Memᴰ.tail m)) d.1 in
    elim (Bool-cases (p x)) [
      | inl e ↦ rw (e, k x (Memᴰ.head refl) e) (apart, rest)
      | inr e ↦ rw e (apart, rest)
    ]

IsDistinct-snoc :
    (x : ExecutionRow) (rows : List ExecutionRow)
    → (affected (λ (r : ExecutionRow). r.id == x.id) rows == 0) ≡ true
    → IsDistinct rows
    → IsDistinct (rows ++ x ∷ [])
unfolding affected
IsDistinct-snoc x [] h d = (tt, tt)
IsDistinct-snoc x (r ∷ rows) h d = elim (Bool-cases (r.id == x.id)) [
  | inl e ↦ absurd (ground arith)
  | inr e ↦ (
    All-append (λ (s : ExecutionRow). (s.id == r.id) ≡ false) rows (x ∷ []) d.0 (ground arith, tt),
    IsDistinct-snoc x rows (ground arith) d.1,
  )
]

-- The ids of the executions stay distinct.
pub IsDistinct-Evolves :
    {db db' : Database} → Evolves db db' → IsDistinct db.executions → IsDistinct db'.executions
unfolding execution_row
IsDistinct-Evolves (stay e) d = rw e d
IsDistinct-Evolves {db = db} (step p f q g e k l) d =
    rw e (IsDistinct-update p f db.executions (λ r m h. (k r m h).same_id) d)
IsDistinct-Evolves {db = db} (grow x nodes rows s o free inserted e) d =
    rw e (IsDistinct-snoc (execution_row x) db.executions free d)

execution-Evolves :
    {db db' : Database} {r : ExecutionRow}
    → Evolves db db'
    → is_terminal_execution r.status ≡ true
    → Memᴰ r db.executions
    → Memᴰ r db'.executions
execution-Evolves (stay e) h m = rw e m
execution-Evolves {db = db} {r = r} (step p f q g e k l) h m = elim (Bool-cases (p r)) [
  | inl t ↦ let open_row = (k r m t).was_open in absurd (ground arith)
  | inr t ↦ rw e (mem-update_other p f db.executions m t)
]
execution-Evolves (grow x nodes rows s o free inserted e) h m =
    rw e (Memᴰ.append_left (execution_row x ∷ []) m)

node-Evolves :
    {db db' : Database} {r : NodeRow}
    → Evolves db db'
    → is_terminal_node r.status ≡ true
    → Memᴰ r db.nodes
    → Memᴰ r db'.nodes
node-Evolves (stay e) h m = rw e m
node-Evolves {db = db} {r = r} (step p f q g e k l) h m = elim (Bool-cases (q r)) [
  | inl t ↦ let open_row = (l r t).was_open in absurd (ground arith)
  | inr t ↦ rw e (mem-update_other q g db.nodes m t)
]
node-Evolves {db = db} (grow x nodes rows s o free inserted e) h m =
    rw e (insert_nodes-mem _ nodes db.nodes inserted m)

-- The row of a finished execution is in the table, with every column as it is, after any history of
-- the service's transactions, in any order and of any workers, if the ids are distinct before it.
pub run-execution_final :
    (history : List Statement) (db : Database) (r : ExecutionRow)
    → All IsServed history
    → IsDistinct db.executions
    → Memᴰ r db.executions
    → is_terminal_execution r.status ≡ true
    → Memᴰ r (run_all history db).executions
unfolding run_all
run-execution_final [] db r v d m h = m
run-execution_final (s ∷ history) db r v d m h =
    let evolves = apply-Evolves_executions s db v.0 d in
    run-execution_final history (apply_statement s db) r v.1 (IsDistinct-Evolves evolves d)
      (execution-Evolves evolves h m) h

-- The row of a finished node is in the table, with every column as it is, after any history of the
-- service's transactions, if the ids of the executions are distinct before it.
pub run-node_final :
    (history : List Statement) (db : Database) (r : NodeRow)
    → All IsServed history
    → IsDistinct db.executions
    → Memᴰ r db.nodes
    → is_terminal_node r.status ≡ true
    → Memᴰ r (run_all history db).nodes
unfolding run_all
run-node_final [] db r v d m h = m
run-node_final (s ∷ history) db r v d m h =
    let evolves = apply-Evolves_executions s db v.0 d in
    run-node_final history (apply_statement s db) r v.1 (IsDistinct-Evolves evolves d)
      (node-Evolves evolves h m) h
