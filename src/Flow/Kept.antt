-- ===== src/Flow/Kept.antt =====
-- What the service asks of its ports while it advances executions: an invariant that the transactions
-- of IsServed keep is kept by AdvanceExecution and ReconcileActive, on every path.
use flowforge.Base.{
  ℕ, ◌≡◌, refl, Bool, true, Option, List, [], ◌∷◌, String, Time, inl, inr, Result, ok, err, Keeps,
  Bool-cases, Keeps-bind, Keeps-if, Option-cases, Result-cases,
}
use flowforge.Workflow.{
  WorkflowNodeType, trigger_node, condition_node, delay_node, task_node, webhook_node, unsupported,
  WorkflowExecution, WorkflowExecutionStatus, WorkflowNode, WorkflowNodeExecution,
  WorkflowNodeExecutionStatus, node_running, node_pending, node_queued, node_succeeded, node_failed,
  node_skipped, node_cancelled,
}
use flowforge.Executions.{Database}
use flowforge.Executions.Statement.{
  create_execution, update_node, update_execution, finalize, IsServed,
}
use flowforge.NodeConfig.{
  Strings, Json, parse_workflow_condition_config, evaluate_workflow_condition,
  parse_workflow_delay_config,
}
use flowforge.Ports.{MetricEventType}
use flowforge.Flow.{FlowPorts, read_clock, Dispatched, unfinished}
use flowforge.Flow.Nodes
use flowforge.Flow.Nodes.{
  record_node_update, record_cancelled, fail_execution, fail_claimed_node, after_dispatch,
  run_condition, run_delay, run_trigger, run_task, run_webhook, run_claimed, execute_claimed_node,
}

-- The ports keep `I`, the three writes of the repository only as far as the service calls them.
pub record IsKept {S : Type 0} (ports : FlowPorts S) (I : S → Type 0) : Type 0 where
  pub clock : (s : S) → I s → I (ports.outside.now s).0
  pub version :
      (org workflow v : ℕ)
      → Keeps I (ports.executions.get_workflow_execution_version org workflow v)
  pub execution :
      (org workflow x : ℕ) → Keeps I (ports.executions.get_workflow_execution org workflow x)
  pub nodes : (org x : ℕ) → Keeps I (ports.executions.get_workflow_node_executions org x)
  pub listing : (limit : ℕ) → Keeps I (ports.executions.list_for_reconciliation limit)
  pub claim :
      (org x : ℕ) (id : String) (now : Time)
      → Keeps I (ports.executions.claim_workflow_node org x id now)
  pub create :
      (before : Database) (x : WorkflowExecution) (nodes : List WorkflowNodeExecution)
      → IsServed (create_execution before x nodes)
      → Keeps I (ports.executions.create_workflow_execution x nodes)
  pub cancel :
      (org workflow x : ℕ) (now : Time)
      → Keeps I (ports.executions.cancel_workflow_execution org workflow x now)
  pub new_id : (s : S) → I s → I (ports.outside.new_id s).0
  pub workflow : (org w : ℕ) → Keeps I (ports.workflows.get_workflow_by_id org w)
  pub one_version : (org w v : ℕ) → Keeps I (ports.workflows.get_workflow_version org w v)
  pub latest_version : (org w : ℕ) → Keeps I (ports.workflows.get_latest_workflow_version org w)
  pub write_node :
      (n : WorkflowNodeExecution) (expected : WorkflowNodeExecutionStatus)
      → IsServed (update_node n expected)
      → Keeps I (ports.executions.update_workflow_node_execution n expected)
  pub write_execution :
      (x : WorkflowExecution) (expected : List WorkflowExecutionStatus)
      → IsServed (update_execution x expected)
      → Keeps I (ports.executions.update_workflow_execution x expected)
  pub end_execution :
      (x : WorkflowExecution) (expected : List WorkflowExecutionStatus) (c : Bool)
      → IsServed (finalize x expected c)
      → Keeps I (ports.executions.finalize_workflow_execution x expected c)
  pub dispatch_task :
      (org x : ℕ) (id : String) (config : Option String) (input : String) (s : S)
      → I s
      → I (ports.dispatchers.dispatch_workflow_task org x id config input s).0
  pub get_task : (org id : ℕ) → Keeps I (ports.dispatchers.get_workflow_task org id)
  pub dispatch_webhook :
      (x : WorkflowExecution) (node : WorkflowNode) (input : String) (s : S)
      → I s
      → I (ports.dispatchers.dispatch_workflow_webhook x node input s).0
  pub get_webhook : (org id : ℕ) → Keeps I (ports.dispatchers.get_workflow_webhook org id)
  pub execution_metric :
      (x : WorkflowExecution) (kind : MetricEventType) (code : String) (s : S)
      → I s
      → I (ports.metrics.record_execution_metric x kind code s)
  pub node_metric :
      (n : WorkflowNodeExecution) (kind : MetricEventType) (code : String) (s : S)
      → I s
      → I (ports.metrics.record_node_metric n kind code s)

module _ {S V : Type 0} (strings : Strings) (json : Json V) (ports : FlowPorts S) (I : S → Type 0)
    (kept : IsKept ports I) where
  pub clock-kept : Keeps I (read_clock ports)
  clock-kept s i = kept.clock s i

  record_node_update-kept :
      (n : WorkflowNodeExecution) → Keeps I (record_node_update strings json ports n)
  unfolding record_node_update
  record_node_update-kept n s i = go n.status refl
    where
      go :
          (status : WorkflowNodeExecutionStatus)
          → n.status ≡ status
          → I (record_node_update strings json ports n s).0
      go node_succeeded e = rw (e, record_node_update) (kept.node_metric n _ _ s i)
      go node_failed e = rw (e, record_node_update) (kept.node_metric n _ _ s i)
      go node_skipped e = rw (e, record_node_update) (kept.node_metric n _ _ s i)
      go node_cancelled e = rw (e, record_node_update) (kept.node_metric n _ _ s i)
      go node_pending e = rw (e, record_node_update) i
      go node_queued e = rw (e, record_node_update) i
      go node_running e = rw (e, record_node_update) i

  pub update_node-kept :
      (n : WorkflowNodeExecution) (expected : WorkflowNodeExecutionStatus)
      → IsServed (update_node n expected)
      → Keeps I (Nodes.update_node strings json ports n expected)
  unfolding Nodes.update_node
  update_node-kept n expected v = Keeps-bind I _ _ (kept.write_node n expected v) (λ updated.
      Keeps-if I updated _ _ (Keeps-bind I _ _ (record_node_update-kept n) (λ _ s i. i)) (λ s i. i))

  record_cancelled-kept :
      (nodes : List WorkflowNodeExecution) (s : S)
      → I s
      → I (record_cancelled strings json ports nodes s)
  unfolding record_cancelled
  record_cancelled-kept [] s i = i
  record_cancelled-kept (n ∷ nodes) s i =
      record_cancelled-kept nodes _ (elim (Bool-cases (Nodes.is_cancelled_node n.status)) [
        | inl e ↦ rw e (kept.node_metric n _ _ s i)
        | inr e ↦ rw e i
      ])

  pub record_listed-kept :
      (listed : Result (List WorkflowNodeExecution))
      → Keeps I (Nodes.record_listed strings json ports listed)
  record_listed-kept (ok nodes) s i = record_cancelled-kept nodes s i
  record_listed-kept (err e) s i = i

  pub fail_execution-kept :
      (x : WorkflowExecution) (code message : String)
      → Keeps I (fail_execution strings json ports x code message)
  unfolding fail_execution
  fail_execution-kept x code message = Keeps-bind I _ _ clock-kept (λ now.
      Keeps-bind I _ _ (kept.end_execution _ unfinished true (inr (refl, refl), (refl, (refl, tt))))
        (λ updated.
          Keeps-if I updated _ _
            (Keeps-bind I _ _ (λ s i. kept.execution_metric _ _ code s i)
              (λ _.
                Keeps-bind I _ _ (λ s i. kept.nodes _ _ s i)
                  (λ listed. Keeps-bind I _ _ (record_listed-kept listed) (λ _ s i. i))))
            (λ s i. i)))

  fail_claimed_node-kept :
      (x : WorkflowExecution) (n : WorkflowNodeExecution) (code message : String)
      → Keeps I (fail_claimed_node strings json ports x n code message)
  unfolding fail_claimed_node
  fail_claimed_node-kept x n code message = Keeps-bind I _ _ clock-kept (λ now.
      Keeps-bind I _ _ (update_node-kept _ node_running (refl, λ e. cc))
        (λ updated. fail_execution-kept x code message))

  after_dispatch-kept :
      (x : WorkflowExecution) (n : WorkflowNodeExecution) (default : String)
      (queue : ℕ → WorkflowNodeExecution) (result : Dispatched)
      → ((id : ℕ) → (queue id).status ≡ node_queued)
      → Keeps I (after_dispatch strings json ports x n default queue result)
  unfolding after_dispatch
  after_dispatch-kept x n default queue result h = elim (Option-cases result.id) [
    | inr (id, e) ↦
        rw (e, after_dispatch)
          (Keeps-bind I _ _ (update_node-kept (queue id) node_running (refl, λ p. cc (h id)))
            (λ _ s i. i))
    | inl e ↦ elim (Option-cases result.error) [
      | inl f ↦ rw (e, f, after_dispatch) (fail_claimed_node-kept x n _ _)
      | inr (error, f) ↦ rw (e, f, after_dispatch) (fail_claimed_node-kept x n _ _)
    ]
  ]

  finish_node-kept :
      (x : WorkflowExecution) (n : WorkflowNodeExecution)
      → (n.status ≡ node_pending → ⊥)
      → Keeps I (Nodes.finish_node strings json ports x n)
  finish_node-kept x n h = Keeps-bind I _ _ (update_node-kept n node_running (refl, h)) (λ _ s i. i)

  module _ (x : WorkflowExecution) (node : WorkflowNode) (n : WorkflowNodeExecution)
      (now : Time) where
    run_condition-kept : Keeps I (run_condition strings json ports x node n now)
    unfolding run_condition
    run_condition-kept =
        elim (Result-cases (parse_workflow_condition_config strings json node.config)) [
          | inl (e, p) ↦ rw (p, run_condition) (fail_claimed_node-kept x n _ _)
          | inr (config, p) ↦
              elim (Result-cases (evaluate_workflow_condition strings json config x.input)) [
                | inl (e, q) ↦ rw (p, q, run_condition) (fail_claimed_node-kept x n _ _)
                | inr (result, q) ↦ rw (p, q, run_condition) (finish_node-kept x _ (λ e. cc))
              ]
        ]

    run_delay-kept : Keeps I (run_delay strings json ports x node n now)
    unfolding run_delay
    run_delay-kept = elim (Result-cases (parse_workflow_delay_config strings json node.config)) [
      | inl (e, p) ↦ rw (p, run_delay) (fail_claimed_node-kept x n _ _)
      | inr (seconds, p) ↦ rw (p, run_delay) (finish_node-kept x _ (λ e. cc))
    ]

    run_trigger-kept : Keeps I (run_trigger strings json ports x n now)
    unfolding run_trigger
    run_trigger-kept = finish_node-kept x _ (λ e. cc)

    run_task-kept : Keeps I (run_task strings json ports x node n now)
    unfolding run_task
    run_task-kept =
        Keeps-bind I _ _ (λ s i. kept.dispatch_task _ _ _ _ _ s i)
          (λ result. after_dispatch-kept x n _ _ result (λ id. refl))

    run_webhook-kept : Keeps I (run_webhook strings json ports x node n now)
    unfolding run_webhook
    run_webhook-kept =
        Keeps-bind I _ _ (λ s i. kept.dispatch_webhook _ _ _ s i)
          (λ result. after_dispatch-kept x n _ _ result (λ id. refl))

  run_claimed-kept :
      (t : WorkflowNodeType) (x : WorkflowExecution) (node : WorkflowNode)
      (n : WorkflowNodeExecution) (now : Time)
      → Keeps I (run_claimed strings json ports t x node n now)
  unfolding run_claimed
  run_claimed-kept trigger_node x node n now = run_trigger-kept x node n now
  run_claimed-kept condition_node x node n now = run_condition-kept x node n now
  run_claimed-kept delay_node x node n now = run_delay-kept x node n now
  run_claimed-kept task_node x node n now = run_task-kept x node n now
  run_claimed-kept webhook_node x node n now = run_webhook-kept x node n now
  run_claimed-kept (unsupported text) x node n now = fail_claimed_node-kept x n _ _

  pub execute_claimed_node-kept :
      (x : WorkflowExecution) (node : WorkflowNode) (n : WorkflowNodeExecution)
      → Keeps I (execute_claimed_node strings json ports x node n)
  unfolding execute_claimed_node
  execute_claimed_node-kept x node claimed =
      Keeps-bind I _ _ clock-kept (λ now. run_claimed-kept node.node_type x node _ now)
