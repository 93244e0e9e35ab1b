-- ===== src/Flow/Recovered.antt =====
-- The reconciliation of an execution's nodes keeps what its ports keep.
use flowforge.Base.{
  ℕ, ◌≡◌, true, false, Option, none, some, List, [], ◌∷◌, Time, arith, inl, inr, Keeps, Bool-cases,
  Keeps-bind, Keeps-if, Result-cases, pure,
}
use flowforge.Task.{Task}
use flowforge.Delivery.{WebhookDelivery}
use flowforge.Workflow.{
  WorkflowExecution, WorkflowNode, WorkflowDefinition, WorkflowNodeExecution,
  WorkflowNodeExecutionStatus, node_pending, is_terminal_node,
}
use flowforge.NodeConfig.{Strings, Json}
use flowforge.Flow.{FlowPorts}
use flowforge.Flow.Reconcile.{
  is_external, observe_task, observe_delivery, observe_delay, write_observed, reconcile_task,
  reconcile_webhook, recover_found, recover_node, reconcile_other, reconcile_delay,
  reconcile_awaited, reconcile_node, reconcile_external_nodes,
}
use flowforge.Flow.Kept.{IsKept, clock-kept, update_node-kept, execute_claimed_node-kept}

-- a status that the observation of a node leaves
abbrev IsLater : WorkflowNodeExecution → Type 0
IsLater n = n.status ≡ node_pending → ⊥

external-IsLater : (n : WorkflowNodeExecution) → is_external n.status ≡ true → IsLater n
external-IsLater n h e = ground arith

external-open :
    (s : WorkflowNodeExecutionStatus) → is_external s ≡ true → is_terminal_node s ≡ false
external-open s h = ground arith

module _ {S V : Type 0} (strings : Strings) (json : Json V) (ports : FlowPorts S) (I : S → Type 0)
    (kept : IsKept ports I) where
  observe_task-IsLater :
      (t : Task) (now : Time) (n : WorkflowNodeExecution)
      → IsLater (observe_task strings json ports t now n)
  unfolding observe_task
  observe_task-IsLater t now n e = ground arith

  observe_delivery-IsLater :
      (d : WebhookDelivery) (now : Time) (n : WorkflowNodeExecution)
      → IsLater (observe_delivery strings json ports d now n)
  unfolding observe_delivery
  observe_delivery-IsLater d now n e = ground arith

  observe_delay-IsLater :
      (available now : Time) (n : WorkflowNodeExecution)
      → IsLater n
      → IsLater (observe_delay strings json ports available now n)
  unfolding observe_delay
  observe_delay-IsLater available now n h e = ground arith

  write_observed-kept :
      (before after : WorkflowNodeExecution) (now : Time)
      → is_external before.status ≡ true
      → IsLater after
      → Keeps I (write_observed strings json ports before after now)
  unfolding write_observed
  write_observed-kept before after now a h =
      Keeps-if I _ _ _
        (update_node-kept strings json ports I kept _ before.status
          (external-open before.status a, h))
        (λ s i. i)

  module _ (x : WorkflowExecution) (n : WorkflowNodeExecution)
      (a : is_external n.status ≡ true) where
    reconcile_task-kept :
        (id : ℕ) (now : Time) → Keeps I (reconcile_task strings json ports id x n now)
    unfolding reconcile_task
    reconcile_task-kept id now =
        Keeps-bind I _ _ (λ s i. kept.get_task _ _ s i)
          (λ result. elim (Result-cases result) [
            | inl (e, p) ↦ rw p (Keeps-if I _ _ _ (λ s i. i) (λ s i. i))
            | inr (t, p) ↦ rw p (
                write_observed-kept n (observe_task strings json ports t now n) now a
                  (observe_task-IsLater t now n))
          ])

    reconcile_webhook-kept :
        (id : ℕ) (now : Time) → Keeps I (reconcile_webhook strings json ports id x n now)
    unfolding reconcile_webhook
    reconcile_webhook-kept id now =
        Keeps-bind I _ _ (λ s i. kept.get_webhook _ _ s i)
          (λ result. elim (Result-cases result) [
            | inl (e, p) ↦ rw p (Keeps-if I _ _ _ (λ s i. i) (λ s i. i))
            | inr (d, p) ↦ rw p (
                write_observed-kept n (observe_delivery strings json ports d now n) now a
                  (observe_delivery-IsLater d now n))
          ])

  recover_found-kept :
      (node : Option WorkflowNode) (x : WorkflowExecution) (n : WorkflowNodeExecution)
      → Keeps I (recover_found strings json ports node x n)
  unfolding recover_found
  recover_found-kept none x n = λ s i. i
  recover_found-kept (some node) x n =
      Keeps-bind I _ _ (execute_claimed_node-kept strings json ports I kept x node n) (λ x' s i. i)

  module _ (definition : WorkflowDefinition) (x : WorkflowExecution) (n : WorkflowNodeExecution)
      (now : Time) where
    recover_node-kept : Keeps I (recover_node strings json ports definition x n now)
    unfolding recover_node
    recover_node-kept = Keeps-if I _ (pure (x, false)) _ (λ s i. i) (recover_found-kept _ x n)

    reconcile_other-kept :
        is_external n.status ≡ true
        → Keeps I (reconcile_other strings json ports definition x n now)
    unfolding reconcile_other
    reconcile_other-kept a =
        Keeps-if I _ _ _ recover_node-kept (
          Keeps-bind I _ _ (write_observed-kept n n now a (external-IsLater n a))
            (λ changed s i. i))

    reconcile_delay-kept :
        (available : Option Time)
        → is_external n.status ≡ true
        → Keeps I (reconcile_delay strings json ports available definition x n now)
    unfolding reconcile_delay
    reconcile_delay-kept none a = reconcile_other-kept a
    reconcile_delay-kept (some available) a =
        Keeps-if I _ _ _
          (Keeps-bind I _ _
            (write_observed-kept n (observe_delay strings json ports available now n) now a
              (observe_delay-IsLater available now n (external-IsLater n a)))
            (λ changed s i. i))
          (reconcile_other-kept a)

    reconcile_awaited-kept :
        (task delivery : Option ℕ)
        → is_external n.status ≡ true
        → Keeps I (reconcile_awaited strings json ports task delivery definition x n now)
    unfolding reconcile_awaited
    reconcile_awaited-kept (some id) delivery a =
        Keeps-bind I _ _ (reconcile_task-kept x n a id now) (λ changed s i. i)
    reconcile_awaited-kept none (some id) a =
        Keeps-bind I _ _ (reconcile_webhook-kept x n a id now) (λ changed s i. i)
    reconcile_awaited-kept none none a = reconcile_delay-kept n.available_at a

  reconcile_node-kept :
      (definition : WorkflowDefinition) (x : WorkflowExecution) (n : WorkflowNodeExecution)
      → Keeps I (reconcile_node strings json ports definition x n)
  unfolding reconcile_node
  reconcile_node-kept definition x n = elim (Bool-cases (is_external n.status)) [
    | inr a ↦ rw (a, reconcile_node) (λ s i. i)
    | inl a ↦
        rw (a, reconcile_node)
          (Keeps-bind I _ _ (clock-kept strings json ports I kept) (λ now.
            reconcile_awaited-kept definition x n now n.queue_task_id n.webhook_delivery_id a))
  ]

  pub reconcile_external_nodes-kept :
      (definition : WorkflowDefinition) (x : WorkflowExecution) (nodes : List WorkflowNodeExecution)
      → Keeps I (reconcile_external_nodes strings json ports definition x nodes)
  unfolding reconcile_external_nodes
  reconcile_external_nodes-kept definition x [] = λ s i. i
  reconcile_external_nodes-kept definition x (n ∷ nodes) =
      Keeps-bind I _ _ (reconcile_node-kept definition x n) (λ first.
        Keeps-bind I _ _ (reconcile_external_nodes-kept definition first.0 nodes) (λ rest s i. i))
