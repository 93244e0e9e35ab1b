-- ===== src/Flow/Reconcile.antt =====
-- internal/usecase/workflow_execution_service.go: reconcileExternalNodes, what the queued and running
-- nodes have become.
use flowforge.Base.{
  ℕ, ◌-◌, ◌*◌, String, Bool, true, false, ◌||◌, not, Option, none, some, List, [], ◌∷◌, Time, ltb,
  ◌==◌, if◌then◌else◌, str_eq, is_none, Error, ok, err, invalid_input, task_not_found,
  webhook_delivery_not_found, Action, pure, throw, ◌>>=◌, attempt_action,
}
use flowforge.Task.{Task}
use flowforge.Task
use flowforge.Webhook
use flowforge.Delivery.{WebhookDelivery}
use flowforge.Workflow.{
  delay_node, WorkflowNodeType, WorkflowNode, WorkflowDefinition, WorkflowExecution,
  WorkflowNodeExecution, WorkflowNodeExecutionStatus, node_queued, node_running, node_succeeded,
  node_failed,
}
use flowforge.Executions.Operations.{node_status_text}
use flowforge.NodeConfig.{Strings, Json}
use flowforge.Flow.{FlowPorts, read_clock}
use flowforge.Flow.Nodes.{find_node, second, update_node, execute_claimed_node}

abbrev pub is_external : WorkflowNodeExecutionStatus → Bool
is_external node_queued = true
is_external node_running = true
is_external _ = false

abbrev pub is_running_node : WorkflowNodeExecutionStatus → Bool
is_running_node node_running = true
is_running_node _ = false

abbrev pub is_delay : WorkflowNodeType → Bool
is_delay delay_node = true
is_delay _ = false

abbrev is_task_not_found : Error → Bool
is_task_not_found task_not_found = true
is_task_not_found _ = false

abbrev is_delivery_not_found : Error → Bool
is_delivery_not_found webhook_delivery_not_found = true
is_delivery_not_found _ = false

abbrev or_default : String → String → String
or_default text default = if str_eq text "" then default else text

abbrev failed_node : WorkflowNodeExecution → Time → String → WorkflowNodeExecution
failed_node n now message = record n {
  status = node_failed;
  error_code = "node_execution_failed";
  error_message = message;
  completed_at = some now;
}

-- the execution as the body has changed it, and `changed` of the body
abbrev pub Reconciled : Type 0
Reconciled = WorkflowExecution × Bool

module _ {S V : Type 0} (strings : Strings) (json : Json V) (ports : FlowPorts S) where
  -- what the node becomes by its task, which has none of the source's other statuses
  unfoldable pub observe_task : Task → Time → WorkflowNodeExecution → WorkflowNodeExecution
  observe_task t now claimed =
      let n = record claimed { attempt = t.attempts } in
      let failed =
        failed_node n now
          (or_default t.last_error "QueueFlow task did not complete successfully") in
      elim t.status [
        | Task.pending ↦ record n { status = node_queued }
        | Task.processing ↦ record n { status = node_running }
        | Task.completed ↦ record n {
          status = node_succeeded;
          output = ports.outside.task_output t.id;
          completed_at = some now;
        }
        | Task.failed ↦ failed
        | Task.dead_letter ↦ failed
        | Task.cancelled ↦ failed
      ]

  unfoldable pub observe_delivery :
      WebhookDelivery → Time → WorkflowNodeExecution → WorkflowNodeExecution
  observe_delivery d now claimed =
      let n = record claimed { attempt = d.attempt_count } in
      let message : String = elim d.last_error [
        | some text ↦ text
        | none ↦ "EventForge delivery failed"
      ] in
      elim d.status [
        | Webhook.pending ↦ record n { status = node_queued }
        | Webhook.retrying ↦ record n { status = node_queued }
        | Webhook.delivering ↦ record n { status = node_running }
        | Webhook.delivered ↦ record n {
          status = node_succeeded;
          output = ports.outside.delivery_output d.id;
          completed_at = some now;
        }
        | Webhook.failed ↦ failed_node n now message
      ]

  -- `!node.AvailableAt.After(now)`
  unfoldable pub observe_delay :
      (available now : Time) → WorkflowNodeExecution → WorkflowNodeExecution
  observe_delay available now n = if ltb now available then n else record n {
    status = node_succeeded;
    output = ports.outside.resumed_output now;
    completed_at = some now;
  }

  -- the write at the end of the loop's body: whether it has changed the node's row
  unfoldable pub write_observed : (before after : WorkflowNodeExecution) → Time → Action S Bool
  write_observed before after now =
      if not (str_eq (node_status_text after.status) (node_status_text before.status))
        || not (after.attempt == before.attempt)
        || not (is_none after.completed_at)
      then update_node strings json ports (record after { updated_at = now }) before.status
      else pure false

  unfoldable pub reconcile_task :
      (task_id : ℕ) → WorkflowExecution → WorkflowNodeExecution → Time → Action S Bool
  unfolding observe_task write_observed
  reconcile_task task_id x n now = do
    result ← attempt_action (ports.dispatchers.get_workflow_task x.org_id task_id)
    elim result as (λ _. Action S Bool) [
      | err e ↦ if is_task_not_found e then pure false else throw e
      | ok t ↦ write_observed n (observe_task t now n) now
    ]

  unfoldable pub reconcile_webhook :
      (delivery_id : ℕ) → WorkflowExecution → WorkflowNodeExecution → Time → Action S Bool
  unfolding observe_delivery write_observed
  reconcile_webhook delivery_id x n now = do
    result ← attempt_action (ports.dispatchers.get_workflow_webhook x.org_id delivery_id)
    elim result as (λ _. Action S Bool) [
      | err e ↦ if is_delivery_not_found e then pure false else throw e
      | ok d ↦ write_observed n (observe_delivery d now n) now
    ]

  abbrev keep_execution : WorkflowExecution → Action S Bool → Action S Reconciled
  keep_execution x m = do changed ← m; pure (x, changed)

  unfoldable pub recover_found :
      Option WorkflowNode → WorkflowExecution → WorkflowNodeExecution → Action S Reconciled
  recover_found none x n = throw invalid_input
  recover_found (some node) x n = do
    x' ← execute_claimed_node strings json ports x node n
    pure (x', true)

  -- a node that another run has claimed and left without an id or a time
  unfoldable pub recover_node :
      WorkflowDefinition → WorkflowExecution → WorkflowNodeExecution → Time → Action S Reconciled
  unfolding recover_found
  recover_node definition x n now =
      if ltb (now - n.updated_at) (30 * second)
      then pure (x, false)
      else recover_found (find_node definition.nodes n.node_id) x n

  -- the last case of the switch, and none of its cases
  unfoldable pub reconcile_other :
      WorkflowDefinition → WorkflowExecution → WorkflowNodeExecution → Time → Action S Reconciled
  unfolding recover_node write_observed
  reconcile_other definition x n now =
      if is_running_node n.status
      then recover_node definition x n now
      else keep_execution x (write_observed n n now)

  unfoldable pub reconcile_delay :
      Option Time
      → WorkflowDefinition
      → WorkflowExecution
      → WorkflowNodeExecution
      → Time
      → Action S Reconciled
  unfolding reconcile_other observe_delay write_observed
  reconcile_delay none definition x n now = reconcile_other definition x n now
  reconcile_delay (some available) definition x n now =
      if is_delay n.node_type
      then keep_execution x (write_observed n (observe_delay available now n) now)
      else reconcile_other definition x n now

  -- the cases of the switch, in its order
  unfoldable pub reconcile_awaited :
      (task delivery : Option ℕ)
      → WorkflowDefinition
      → WorkflowExecution
      → WorkflowNodeExecution
      → Time
      → Action S Reconciled
  unfolding reconcile_task reconcile_webhook reconcile_delay
  reconcile_awaited (some id) delivery definition x n now =
      keep_execution x (reconcile_task id x n now)
  reconcile_awaited none (some id) definition x n now =
      keep_execution x (reconcile_webhook id x n now)
  reconcile_awaited none none definition x n now = reconcile_delay n.available_at definition x n now

  unfoldable pub reconcile_node :
      WorkflowDefinition → WorkflowExecution → WorkflowNodeExecution → Action S Reconciled
  unfolding reconcile_awaited
  reconcile_node definition x n =
      if is_external n.status
      then (do
        now ← read_clock ports
        reconcile_awaited n.queue_task_id n.webhook_delivery_id definition x n now)
      else pure (x, false)

  unfoldable pub reconcile_external_nodes :
      WorkflowDefinition → WorkflowExecution → List WorkflowNodeExecution → Action S Reconciled
  unfolding reconcile_node
  reconcile_external_nodes definition x [] = pure (x, false)
  reconcile_external_nodes definition x (n ∷ nodes) = do
    first ← reconcile_node definition x n
    rest ← reconcile_external_nodes definition first.0 nodes
    pure (rest.0, first.1 || rest.1)
