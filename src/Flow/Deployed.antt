-- ===== src/Flow/Deployed.antt =====
-- The service over the tables of Executions, beside other workers: before each transaction of this
-- worker, `others` says which transactions of the other workers have been committed in between.
use flowforge.Base.{
  ℕ, ◌≡◌, refl, ◌∙◌, sym, ap, Bool, true, List, [], ◌∷◌, ◌++◌, All, All-append, String, Result, ok,
  Action, Memᴰ,
}
use flowforge.Workflow.{
  is_terminal_execution, execution_pending, WorkflowExecution, WorkflowNodeExecution,
}
use flowforge.Executions.Operations.{
  get_workflow_execution_version, get_workflow_execution, create_workflow_execution,
  get_workflow_node_executions, claim_workflow_node, update_workflow_node_execution,
  update_workflow_execution, finalize_workflow_execution, cancel_workflow_execution,
  list_for_reconciliation,
}
use flowforge.Executions.Statement.{
  Statement, claim_node, update_node, update_execution, finalize, apply_statement, run_all,
  IsNodeOf, IsServed, cancel_statement, create_execution,
}
use flowforge.Executions.{ExecutionRow, Database}
use flowforge.Executions.Changes.{IsDistinct}
use flowforge.Executions.Final.{run-execution_final}
use flowforge.Executions.Closed.{IsClosed, run-IsClosed}
use flowforge.NodeConfig.{Strings, Json}
use flowforge.Flow.{
  WorkflowExecutionRepository, WorkflowReader, Dispatchers, FlowMetrics, Surroundings, FlowPorts,
}
use flowforge.Flow.Kept.{IsKept}
use flowforge.Flow.Requests.{StartWorkflowExecutionInput, start_execution, cancel_execution}
use flowforge.Flow.Started.{start_execution-kept, cancel_execution-kept}
use flowforge.Flow.Advance.{advance_execution, reconcile_active}
use flowforge.Flow.Served.{advance_execution-kept, reconcile_active-kept}

-- the tables, and all that is not in them
pub record FlowWorld (B : Type 0) : Type 0 where
  pub db : Database
  pub rest : B

abbrev pub Others : Type 0 → Type 0
Others B = B → B × List Statement

module _ {B : Type 0} (text_before : String → String → Bool) (others : Others B) where
  -- the others' turn
  unfoldable pub turn : FlowWorld B → FlowWorld B
  turn w = record { db = run_all (others w.rest).1 w.db; rest = (others w.rest).0 }

  abbrev reads : {A : Type 0} → (Database → Result A) → Action (FlowWorld B) A
  reads f w = let v = turn w in (v, f v.db)

  abbrev writes : {A : Type 0} → (Database → Database × A) → Action (FlowWorld B) A
  writes f w = let v = turn w in (record v { db = (f v.db).0 }, ok (f v.db).1)

  abbrev writes_result : {A : Type 0} → (Database → Database × Result A) → Action (FlowWorld B) A
  writes_result f w = let v = turn w in (record v { db = (f v.db).0 }, (f v.db).1)

  -- the first query of a creation reads before the others' turn, its transaction runs after it
  abbrev pub postgres_executions : WorkflowExecutionRepository (FlowWorld B)
  postgres_executions = record {
    get_workflow_execution_version =
        λ org workflow version. reads (get_workflow_execution_version org workflow version);
    create_workflow_execution =
        λ x nodes w. writes_result (create_workflow_execution w.db x nodes) w;
    get_workflow_execution =
        λ org workflow execution. reads (get_workflow_execution org workflow execution);
    get_workflow_node_executions = λ org execution.
        reads (λ db. ok (get_workflow_node_executions text_before org execution db));
    claim_workflow_node = λ org execution id now. writes (claim_workflow_node org execution id now);
    update_workflow_node_execution =
        λ n expected. writes (update_workflow_node_execution n expected);
    update_workflow_execution = λ x expected. writes (update_workflow_execution x expected);
    finalize_workflow_execution = λ x expected c. writes (finalize_workflow_execution x expected c);
    cancel_workflow_execution = λ org workflow execution now.
        writes_result (cancel_workflow_execution org workflow execution now);
    list_for_reconciliation = λ limit. reads (λ db. ok (list_for_reconciliation limit db));
  }

  -- the other ports change only what is not in the tables of executions
  abbrev beside : {A : Type 0} → (B → B × A) → FlowWorld B → FlowWorld B × A
  beside f w = (record w { rest = (f w.rest).0 }, (f w.rest).1)

  abbrev pub deployed :
      WorkflowReader B → Dispatchers B → FlowMetrics B → Surroundings B → FlowPorts (FlowWorld B)
  deployed reader dispatchers metrics outside = record {
    executions = postgres_executions;
    workflows = record {
      get_workflow_by_id = λ org workflow. beside (reader.get_workflow_by_id org workflow);
      get_workflow_version = λ org workflow v. beside (reader.get_workflow_version org workflow v);
      get_latest_workflow_version =
          λ org workflow. beside (reader.get_latest_workflow_version org workflow);
    };
    dispatchers = record {
      dispatch_workflow_task = λ org x id config input.
          beside (dispatchers.dispatch_workflow_task org x id config input);
      get_workflow_task = λ org id. beside (dispatchers.get_workflow_task org id);
      dispatch_workflow_webhook =
          λ x node input. beside (dispatchers.dispatch_workflow_webhook x node input);
      get_workflow_webhook = λ org id. beside (dispatchers.get_workflow_webhook org id);
    };
    metrics = record {
      record_execution_metric =
          λ x kind code w. record w { rest = metrics.record_execution_metric x kind code w.rest };
      record_node_metric =
          λ n kind code w. record w { rest = metrics.record_node_metric n kind code w.rest };
    };
    outside = record {
      now = beside outside.now;
      new_id = beside outside.new_id;
      task_output = outside.task_output;
      delivery_output = outside.delivery_output;
      resumed_output = outside.resumed_output;
      result_of = outside.result_of;
      nodes_output = outside.nodes_output;
      normalize_input = outside.normalize_input;
      fingerprint = outside.fingerprint;
    };
  }

-- the tables of `w` are what a history of the service's transactions makes of `start`
pub record IsHistory {B : Type 0} (start : Database) (w : FlowWorld B) : Type 0 where
  pub history : List Statement
  pub served : All IsServed history
  pub reached : w.db ≡ run_all history start

run-append : (h k : List Statement) (db : Database) → run_all (h ++ k) db ≡ run_all k (run_all h db)
unfolding run_all
run-append [] k db = refl
run-append (s ∷ h) k db = run-append h k (apply_statement s db)

module _ {B V : Type 0} (text_before : String → String → Bool) (others : Others B)
    (polite : (b : B) → All IsServed (others b).1) (strings : Strings) (json : Json V)
    (reader : WorkflowReader B) (dispatchers : Dispatchers B) (metrics : FlowMetrics B)
    (outside : Surroundings B) where
  abbrev ports : FlowPorts (FlowWorld B)
  ports = deployed text_before others reader dispatchers metrics outside

  turn-IsHistory :
      (start : Database) (w : FlowWorld B)
      → IsHistory start w
      → IsHistory start (turn text_before others w)
  unfolding turn
  turn-IsHistory start w i = record {
    history = i.history ++ (others w.rest).1;
    served = All-append IsServed i.history (others w.rest).1 i.served (polite w.rest);
    reached =
        ap (run_all (others w.rest).1) i.reached
        ∙ sym (run-append i.history (others w.rest).1 start);
  }

  statement-IsHistory :
      (start : Database) (s : Statement) (w : FlowWorld B)
      → IsServed s
      → IsHistory start w
      → IsHistory start (record (turn text_before others w) {
        db = apply_statement s (turn text_before others w).db;
      })
  unfolding apply_statement run_all
  statement-IsHistory start s w v i =
      let j = turn-IsHistory start w i in
      record {
        history = j.history ++ s ∷ [];
        served = All-append IsServed j.history (s ∷ []) j.served (v, tt);
        reached = ap (apply_statement s) j.reached ∙ sym (run-append j.history (s ∷ []) start);
      }

  create-IsHistory :
      (start : Database) (x : WorkflowExecution) (nodes : List WorkflowNodeExecution)
      (w : FlowWorld B)
      → (x.status ≡ execution_pending) × All (IsNodeOf x) nodes
      → IsHistory start w
      → IsHistory start
          ((postgres_executions text_before others).create_workflow_execution x nodes w).0
  unfolding apply_statement
  create-IsHistory start x nodes w v i =
      statement-IsHistory start (create_execution w.db x nodes) w v i

  deployed-IsKept : (start : Database) → IsKept ports (IsHistory start)
  unfolding apply_statement
  deployed-IsKept start = record {
    clock = λ s i. record { history = i.history; served = i.served; reached = i.reached };
    version = λ org workflow v s i. turn-IsHistory start s i;
    execution = λ org workflow x s i. turn-IsHistory start s i;
    nodes = λ org x s i. turn-IsHistory start s i;
    listing = λ limit s i. turn-IsHistory start s i;
    claim = λ org x id now s i. statement-IsHistory start (claim_node org x id now) s tt i;
    create = λ before x nodes v s i. create-IsHistory start x nodes s v i;
    cancel = λ org workflow x now s i.
        statement-IsHistory start (cancel_statement org workflow x now) s tt i;
    new_id = λ s i. record { history = i.history; served = i.served; reached = i.reached };
    workflow = λ org w s i. record { history = i.history; served = i.served; reached = i.reached };
    one_version =
        λ org w v s i. record { history = i.history; served = i.served; reached = i.reached };
    latest_version =
        λ org w s i. record { history = i.history; served = i.served; reached = i.reached };
    write_node = λ n expected v s i. statement-IsHistory start (update_node n expected) s v i;
    write_execution =
        λ x expected v s i. statement-IsHistory start (update_execution x expected) s v i;
    end_execution = λ x expected c v s i. statement-IsHistory start (finalize x expected c) s v i;
    dispatch_task = λ org x id config input s i. record {
      history = i.history;
      served = i.served;
      reached = i.reached;
    };
    get_task = λ org id s i. record { history = i.history; served = i.served; reached = i.reached };
    dispatch_webhook =
        λ x node input s i. record { history = i.history; served = i.served; reached = i.reached };
    get_webhook =
        λ org id s i. record { history = i.history; served = i.served; reached = i.reached };
    execution_metric =
        λ x kind code s i. record { history = i.history; served = i.served; reached = i.reached };
    node_metric =
        λ n kind code s i. record { history = i.history; served = i.served; reached = i.reached };
  }

  at_rest : (w : FlowWorld B) → IsHistory w.db w
  unfolding run_all
  at_rest w = record { history = []; served = tt; reached = refl }

  pub advance_execution-IsHistory :
      (org workflow execution : ℕ) (w : FlowWorld B)
      → IsHistory w.db (advance_execution strings json ports org workflow execution w).0
  advance_execution-IsHistory org workflow execution w =
      advance_execution-kept strings json ports (IsHistory w.db) (deployed-IsKept w.db) org workflow
        execution w (at_rest w)

  -- Whatever StartExecution, AdvanceExecution, CancelExecution and ReconcileActive do to the tables, on
  -- every path and error, between the transactions of other workers, is a history of the
  -- transactions of IsServed, if the others' are of them. The tables' own database answers each call.
  pub requests-IsHistory :
      (request : StartWorkflowExecutionInput) (org workflow execution limit : ℕ) (w : FlowWorld B)
      → IsHistory w.db (start_execution strings json ports request w).0
        × IsHistory w.db (advance_execution strings json ports org workflow execution w).0
        × IsHistory w.db (cancel_execution strings json ports org workflow execution w).0
        × IsHistory w.db (reconcile_active strings json ports limit w).0
  requests-IsHistory request org workflow execution limit w =
      let kept = deployed-IsKept w.db in
      (
        start_execution-kept strings json ports (IsHistory w.db) kept w.db request w (at_rest w),
        advance_execution-IsHistory org workflow execution w,
        cancel_execution-kept strings json ports (IsHistory w.db) kept w.db org workflow execution w
            (at_rest w),
        reconcile_active-kept strings json ports (IsHistory w.db) kept limit w (at_rest w),
      )

  -- An execution that is finished when AdvanceExecution starts, of its own or another workflow, is in
  -- the table with every column as it was when it returns, whatever other workers do meanwhile; and
  -- if no failed or cancelled execution has an open node before, then none has one afterwards.
  pub advance_execution_safe :
      (org workflow execution : ℕ) (w : FlowWorld B)
      → IsDistinct w.db.executions
      → ((r : ExecutionRow)
          → Memᴰ r w.db.executions
          → is_terminal_execution r.status ≡ true
          → Memᴰ r (advance_execution strings json ports org workflow execution w).0.db.executions)
        × (IsClosed w.db
            → IsClosed (advance_execution strings json ports org workflow execution w).0.db)
  advance_execution_safe org workflow execution w d =
      let i = advance_execution-IsHistory org workflow execution w in
      (
        λ r m h. rw (i.reached) (run-execution_final i.history w.db r i.served d m h),
        λ c. rw (i.reached) (run-IsClosed i.history w.db i.served d c),
      )
