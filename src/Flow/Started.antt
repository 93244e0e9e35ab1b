-- ===== src/Flow/Started.antt =====
-- StartExecution and CancelExecution keep what their ports keep.
use flowforge.Base.{
  ℕ, String, refl, Bool, Option, none, some, List, [], ◌∷◌, ◌++◌, All, All-append, inl, inr, Result,
  ok, err, Action, Keeps, Keeps-bind, Keeps-if, Bool-cases, throw, pure, workflow_not_published,
}
use flowforge.Workflow.{
  WorkflowVersion, Workflow, WorkflowNode, WorkflowExecution, WorkflowNodeExecution,
}
use flowforge.Executions.Statement.{IsNodeOf}
use flowforge.Executions.{Database}
use flowforge.NodeConfig.{Strings, Json}
use flowforge.Flow.{FlowPorts}
use flowforge.Flow.Requests.{
  StartWorkflowExecutionInput, is_published, pending_execution, check_version, select_version,
  pending_node, with_nodes, after_create, create_and_advance, start_fingerprinted, start_normalized,
  start_published, start_execution, cancel_execution,
}
use flowforge.Flow.Kept.{IsKept, clock-kept, record_listed-kept}
use flowforge.Flow.Served.{advance_execution-kept}

module _ {S V : Type 0} (strings : Strings) (json : Json V) (ports : FlowPorts S) (I : S → Type 0)
    (kept : IsKept ports I) (any : Database) where
  check_version-kept : (v : WorkflowVersion) → Keeps I (check_version strings json ports v)
  unfolding check_version
  check_version-kept v = Keeps-if I _ (pure v) (throw _) (λ s i. i) (λ s i. i)

  select_version-kept :
      (org workflow : ℕ) (requested : Option ℕ)
      → Keeps I (select_version strings json ports org workflow requested)
  unfolding select_version
  select_version-kept org workflow none =
      Keeps-bind I _ _ (λ s i. kept.latest_version _ _ s i) check_version-kept
  select_version-kept org workflow (some v) =
      Keeps-if I _ (throw _) _ (λ s i. i)
        (Keeps-bind I _ _ (λ s i. kept.one_version _ _ _ s i) check_version-kept)

  with_nodes-kept :
      {A : Type 0} (x : WorkflowExecution) (definition : List WorkflowNode)
      (nodes : List WorkflowNodeExecution) (follow : List WorkflowNodeExecution → Action S A)
      → All (IsNodeOf x) nodes
      → ((all : List WorkflowNodeExecution) → All (IsNodeOf x) all → Keeps I (follow all))
      → Keeps I (with_nodes strings json ports x definition nodes follow)
  unfolding with_nodes
  with_nodes-kept x [] nodes follow h k = k nodes h
  with_nodes-kept x (node ∷ definition) nodes follow h k =
      Keeps-bind I _ _ (λ s i. kept.new_id s i)
        (λ id.
          with_nodes-kept x definition (nodes ++ pending_node strings json ports x id node ∷ [])
            follow
            (All-append (IsNodeOf x) nodes (pending_node strings json ports x id node ∷ []) h
              ((refl, refl), tt))
            k)

  after_create-kept :
      (request : StartWorkflowExecutionInput) (x : WorkflowExecution) (reused : Bool)
      → Keeps I (after_create strings json ports request x reused)
  unfolding after_create
  after_create-kept request x reused =
      Keeps-if I _ _ (throw _)
        (Keeps-bind I _ _
          (λ s i. elim (Bool-cases reused) [
            | inl e ↦ rw e i
            | inr e ↦ rw e (kept.execution_metric x _ _ s i)
          ])
          (λ _.
            Keeps-bind I _ _ (advance_execution-kept strings json ports I kept _ _ _)
              (λ _. Keeps-bind I _ _ (λ s i. kept.execution _ _ _ s i) (λ current s i. i))))
        (λ s i. i)

  create_and_advance-kept :
      (request : StartWorkflowExecutionInput) (version : WorkflowVersion)
      (input key fingerprint : String)
      → Keeps I (create_and_advance strings json ports request version input key fingerprint)
  unfolding create_and_advance
  create_and_advance-kept request version input key fingerprint =
      Keeps-bind I _ _ (clock-kept strings json ports I kept) (λ now.
        Keeps-bind I _ _ (λ s i. kept.new_id s i)
          (λ id.
            with_nodes-kept
              (pending_execution strings json ports request version input key fingerprint id now)
              version.definition.nodes [] _ tt
              (λ all h.
                Keeps-bind I _ _ (kept.create any _ all (refl, h))
                  (λ created. after_create-kept request created.0 created.1))))

  start_fingerprinted-kept :
      (request : StartWorkflowExecutionInput) (key : String) (version : WorkflowVersion)
      (input : String) (fingerprint : Result String)
      → Keeps I (start_fingerprinted strings json ports request key version input fingerprint)
  unfolding start_fingerprinted
  start_fingerprinted-kept request key version input (err e) = λ s i. i
  start_fingerprinted-kept request key version input (ok fingerprint) =
      create_and_advance-kept request version input key fingerprint

  start_normalized-kept :
      (request : StartWorkflowExecutionInput) (key : String) (version : WorkflowVersion)
      (input : Result String)
      → Keeps I (start_normalized strings json ports request key version input)
  unfolding start_normalized
  start_normalized-kept request key version (err e) = λ s i. i
  start_normalized-kept request key version (ok input) =
      Keeps-if I _ (throw _) _ (λ s i. i) (start_fingerprinted-kept request key version input _)

  start_published-kept :
      (request : StartWorkflowExecutionInput) (key : String) (workflow : Workflow)
      → Keeps I (start_published strings json ports request key workflow)
  unfolding start_published
  start_published-kept request key workflow =
      Keeps-if I (is_published workflow.status) _ (throw workflow_not_published)
        (Keeps-bind I
          (select_version strings json ports request.org_id request.workflow_id request.version)
          (λ version.
            start_normalized strings json ports request key version
              (ports.outside.normalize_input request.input))
          (select_version-kept request.org_id request.workflow_id request.version)
          (λ version.
            start_normalized-kept request key version
              (ports.outside.normalize_input request.input)))
        (λ s i. i)

  pub start_execution-kept :
      (request : StartWorkflowExecutionInput) → Keeps I (start_execution strings json ports request)
  unfolding start_execution
  start_execution-kept request =
      Keeps-if I _ (throw _) _ (λ s i. i)
        (Keeps-bind I _ _ (λ s i. kept.workflow _ _ s i)
          (λ workflow. start_published-kept request _ workflow))

  pub cancel_execution-kept :
      (org workflow execution : ℕ)
      → Keeps I (cancel_execution strings json ports org workflow execution)
  unfolding cancel_execution
  cancel_execution-kept org workflow execution =
      Keeps-bind I _ _ (clock-kept strings json ports I kept) (λ now.
        Keeps-bind I _ _ (λ s i. kept.cancel _ _ _ _ s i)
          (λ x.
            Keeps-bind I _ _ (λ s i. kept.execution_metric x _ _ s i)
              (λ _.
                Keeps-bind I _ _ (λ s i. kept.nodes _ _ s i)
                  (λ listed.
                    Keeps-bind I _ _ (record_listed-kept strings json ports I kept listed)
                      (λ _ s i. i)))))
