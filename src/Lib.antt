-- ===== src/Lib.antt =====
-- flowforge: a verification library for windylane, a control plane of task queues (QueueFlow),
-- webhooks (EventForge) and workflows (TaskCanvas) over Postgres and Redis.
--
-- The parts. A producer writes a task to the tasks table and announces it on the broker. A worker
-- claims it for a visibility window, runs its handler by the engine, and the engine settles it:
-- completed, back to pending with a backoff, or dead-lettered. Events of a task go to webhook
-- endpoints, and metrics to a recorder. An execution of a workflow claims the nodes of its graph one
-- by one and hands them to tasks and webhooks.
--
--   Base       shared names, Boolean tests, lists as tables, int64 (Base/Int64), errors (Base/Errors:
--              internal/domain/errors.go)
--   Task       internal/domain/task.go: the task and its methods
--   Storage    internal/storage/postgres/postgres_storage.go and models.go: the rows of the tasks
--              table and each statement that writes them. Statement: the statements as one type and
--              their histories. Life: the step relation of a row and the refinement. Rows: keys and
--              updates. Queries: the undispatched tasks. Holding: statements that leave a claim
--              standing. Invariant, Lifecycle, Tenancy, Claiming, Idempotency: what statements keep
--   Webhook    internal/domain/webhook.go, and normalizeWebhookEventTypes in
--              internal/usecase/webhook_service.go
--   Retry      internal/domain/job.go and Engine.nextBackoff: the backoff strategies
--   Ports      internal/ports: what engine, pool and service ask of storage, broker, publisher and recorder
--   Engine     internal/engine/engine.go: Execute, runHandler and handleFailure. Deployed: the ports
--              over the tasks table. Outcomes and Settling: what an execution decides and leaves.
--              Faults: a database that is away. Loops: a tick of ReclaimLoop and of
--              ReconciliationLoop
--   Pool       internal/worker/pool.go: what a slot does with a task id (Pool.process), over the engine
--   Service    internal/usecase/service.go: CreateTask, RetryTask, CancelTask, SoftDeleteTask and the
--              request's fingerprint. Requests and Idempotent: what a request that is repeated finds
--   Delivery   webhook deliveries in internal/domain/webhook.go, and the statements on their table in
--              internal/storage/postgres/webhook_repository.go. Worker:
--              internal/usecase/webhook_delivery_worker.go. Backoff, Budget, Settling: its properties
--   Broker     internal/broker/redis/redis_broker.go: a queue's keys, and each script and pipeline on
--              them. Order: the order in which tasks are handed out
--   Discovery  internal/worker/discovery.go: one refresh of the running scopes
--   Registry   internal/engine/registry.go: the handlers by their queues
--   Workflow   internal/domain/workflow.go and workflow_execution.go: graphs, versions, executions
--   Executions internal/storage/postgres/workflow_execution_repository.go: the tables of executions.
--              Operations: each method. Statement: the writes as one type and their histories.
--              Changes: what a write may do to the rows. Texts: the guards on a status. Evolving:
--              every write against Changes. Final, Closed, Idempotent: what histories keep
--   NodeConfig internal/usecase/workflow_node_config.go: the parsers, and conditions over an input
--   Validation internal/usecase/workflow_validation.go: the checks of a workflow. Graph: the two searches.
--              Acyclic, Ends, Accepted: what the searches and an accepted workflow satisfy
--   Flow       internal/usecase/workflow_execution_service.go over its ports. Nodes: one node. Reconcile,
--              Schedule, Advance: AdvanceExecution and ReconcileActive. Requests: StartExecution and
--              CancelExecution. Readiness: when a node runs.
--              Kept, Recovered, Served, Started: the invariants that they keep. Deployed: the
--              service over the tables of Executions, with other workers' transactions in between
--   Tests      the theorems at sample values
--
-- Choices. A uuid.UUID is a number. A Go int is its bit pattern below 2 ^ 64; Duration is an int64
-- of nanoseconds and Time a number of nanoseconds, as large as it needs to be. A SQL statement runs
-- alone: Postgres' row locks serialise the writers of a row, and a history lists the statements by
-- the order of their commits. The rows that SKIP LOCKED passes over are a parameter of the claim and
-- of the reclaim, so the theorems hold for every interleaving of the transactions that hold locks. A
-- failing database or broker is an answer of the ports, any of which may fail. A handler is the way
-- in which it ends. float64 is an interface with what IEEE 754 says of the operations that the
-- backoff uses. encoding/json, strings, the clock and uuid.New are parameters. Loops are structural
-- recursion; the rounds of the backoff are the attempt's number, and the loop of
-- AdvanceExecution has the bound that the source gives it. The searches of Validation run on fuel: the
-- queue a round for each trigger and each edge, the depth one more than the names of the graph; both
-- are proved to suffice.
--
-- Not modelled: the precision that TIMESTAMPTZ and JSONB columns lose, the range of INTEGER columns
-- (attempts, maxima and priority are int64 or unbounded here), the foreign key of a task's
-- organisation, the order in which ORDER BY and sorted sets leave equal keys (here as inserted),
-- heartbeats that run beside a handler, logging, HTTP, configuration, and the parts of the repository
-- that no file above names: the loops of the pool, the rate limiter, the webhook endpoints and the
-- fan-out of events, workflows' drafts and their publication, the listing of executions, and the
-- metric store.
pub mod Base
pub mod Broker
pub mod Delivery
pub mod Discovery
pub mod Engine
pub mod Executions
pub mod Flow
pub mod NodeConfig
pub mod Pool
pub mod Ports
pub mod Registry
pub mod Retry
pub mod Service
pub mod Storage
pub mod Task
pub mod Tests
pub mod Validation
pub mod Webhook
pub mod Workflow
