-- ===== src/Service.antt =====
-- internal/usecase/service.go: the operations on tasks that the API calls. uuid.New and the reads of
-- the clock are arguments; the JSON and SHA-256 of the request's fingerprint are parameters.
pub mod Requests
pub mod Idempotent
use flowforge.Base.{
  ℕ, ◌-◌, String, Bool, true, false, not, Option, none, some, Duration, Time, add_int64, neg_int64,
  int64_half, div_int64, ltb, leb, if◌then◌else◌, str_eq, Error, task_not_found,
  duplicate_idempotency_key, invalid_payload, idempotency_conflict, invalid_state_transition,
  dispatch_unavailable, Result, ok, err,
}
use flowforge.Task.{TaskStatus, pending, Task, new_task, is_terminal}
use flowforge.Storage.{millisecond}
use flowforge.Webhook.{WebhookEventType, task_created, task_cancelled}
use flowforge.Ports.{TaskStorage, TaskBroker, Observers, MetricEventType, TaskMetric, task_ingested}
use flowforge.Ports

pub record CreateTaskInput : Type 0 where
  pub org_id : ℕ
  pub idempotency_key : String
  pub queue : String
  pub payload : String
  pub priority : ℕ  -- int64
  pub max_retries : ℕ  -- int64
  pub timeout : Duration
  pub visibility_timeout : Duration
  pub scheduled_at : Option Time
  pub backoff_strategy : String
  pub trace_id : String

-- the value whose JSON is hashed
pub record Canonical : Type 0 where
  pub queue : String
  pub payload : String
  pub priority : ℕ
  pub max_retries : ℕ
  pub timeout_ms : ℕ
  pub visibility_ms : ℕ
  pub scheduled_at : Option Time
  pub backoff_strategy : String

-- `normalize` parses a payload and prints it again; `digest` is the hash of the JSON of a value.
pub record Fingerprints : Type 0 where
  pub normalize : String → Option String
  pub digest : Canonical → Option String

unfoldable pub request_fingerprint : Fingerprints → CreateTaskInput → Option (String × String)
request_fingerprint lib input = elim (lib.normalize input.payload) [
  | none ↦ none
  | some payload ↦
      elim (lib.digest (record {
        queue = input.queue;
        payload = payload;
        priority = input.priority;
        max_retries = input.max_retries;
        timeout_ms = div_int64 input.timeout millisecond;
        visibility_ms = div_int64 input.visibility_timeout millisecond;
        scheduled_at = input.scheduled_at;
        backoff_strategy = input.backoff_strategy;
      })) [ none ↦ none | some fingerprint ↦ some (fingerprint, payload) ]
]

-- `time.Until(t)`, which stops at the least and the greatest int64
unfoldable pub until : Time → Time → Duration
until t now =
    if leb now t
    then (if leb int64_half (t - now) then int64_half - 1 else t - now)
    else (if leb int64_half (now - t) then int64_half else neg_int64 (now - t))

abbrev pub is_not_found : Error → Bool
is_not_found task_not_found = true
is_not_found _ = false

abbrev pub is_duplicate : Error → Bool
is_duplicate duplicate_idempotency_key = true
is_duplicate _ = false

-- the task of a request, before it is stored
unfoldable pub requested_task :
    (id : ℕ) (created : Time) → CreateTaskInput → (fingerprint payload : String) → Task
unfolding new_task
requested_task id created input fingerprint payload =
    let t =
      new_task id created input.org_id input.queue payload input.idempotency_key fingerprint
        (add_int64 input.max_retries 1) input.visibility_timeout in
    let t₁ = record t {
      priority = input.priority;
      backoff_strategy = input.backoff_strategy;
      task_timeout = input.timeout;
      trace_id = input.trace_id;
    } in
    elim input.scheduled_at [
      | none ↦ t₁
      | some at ↦ record t₁ { scheduled_at = at; visible_at = at }
    ]

-- the metric of a task's creation or cancellation
unfoldable pub service_metric : Task → MetricEventType → Time → TaskMetric
service_metric t event_type now = record {
  org_id = t.org_id;
  event_type = event_type;
  resource_id = t.id;
  queue = t.queue;
  status = t.status;
  duration_ms = none;
  occurred_at = now;
  attempt = none;
  max_attempts = none;
  error_code = "";
}

-- the task, whether it was there before, and the error
pub record Creation : Type 0 where
  pub task : Option Task
  pub replayed : Bool
  pub error : Option Error

abbrev pub refused : Error → Creation
refused e = record { task = none; replayed = false; error = some e }

-- the answer for a key that is taken
unfoldable pub replay : (fingerprint : String) → Task → Creation
replay fingerprint t =
    if str_eq t.request_fingerprint fingerprint
    then record { task = some t; replayed = true; error = none }
    else refused idempotency_conflict

-- the three reads of the clock: in NewTask, before the dispatch, and in time.Until
pub record Clock : Type 0 where
  pub created : Time
  pub now : Time
  pub later : Time

module _ {S : Type 0} (storage : TaskStorage S) (broker : TaskBroker S) (observers : Observers S)
    (lib : Fingerprints) where
  unfoldable pub dispatch_task : Task → Clock → S → S × Option Error
  dispatch_task t clock s =
      if ltb clock.now t.scheduled_at
      then broker.enqueue_delayed t (until t.scheduled_at clock.later) s
      else broker.enqueue t s

  -- what follows a Create that stored the task
  unfoldable pub announce_task : Task → Clock → S → S × Creation
  unfolding dispatch_task
  announce_task t clock s =
      let s₁ = observers.record_metric (service_metric t task_ingested t.created_at) s in
      let s₂ = observers.publish_task_event task_created t s₁ in
      let (s₃, e) = dispatch_task t clock s₂ in
      elim e [
        | some error ↦
            (s₃, record { task = some t; replayed = false; error = some dispatch_unavailable })
        | none ↦
            let (s₄, marked) = storage.mark_dispatched t.org_id t.id clock.now s₃ in
            (s₄, record { task = some t; replayed = false; error = marked })
      ]

  abbrev replayed_or : String → Error → S × Result Task → S × Creation
  replayed_or fingerprint error (s, ok t) = (s, replay fingerprint t)
  replayed_or fingerprint error (s, err e) = (s, refused error)

  -- what follows a Create that failed
  unfoldable pub recover_create : CreateTaskInput → String → Error → S → S × Creation
  recover_create input fingerprint error s =
      if is_duplicate error
      then replayed_or fingerprint error
          (storage.find_by_idempotency_key input.org_id input.queue input.idempotency_key s)
      else (s, refused error)

  unfoldable pub store_task : CreateTaskInput → String → Task → Clock → S → S × Creation
  unfolding announce_task recover_create
  store_task input fingerprint t clock s =
      let (s₁, e) = storage.create t s in
      elim e [
        | some error ↦ recover_create input fingerprint error s₁
        | none ↦ announce_task t clock s₁
      ]

  unfoldable pub create_requested :
      (id : ℕ) → Clock → CreateTaskInput → (fingerprint payload : String) → S → S × Creation
  unfolding store_task
  create_requested id clock input fingerprint payload s =
      let (s₁, found) =
        storage.find_by_idempotency_key input.org_id input.queue input.idempotency_key s in
      elim found [
        | ok t ↦ (s₁, replay fingerprint t)
        | err e ↦
            if is_not_found e
            then store_task input fingerprint
                (requested_task id clock.created input fingerprint payload) clock s₁
            else (s₁, refused e)
      ]

  unfoldable pub create_task : (id : ℕ) → Clock → CreateTaskInput → S → S × Creation
  unfolding create_requested
  create_task id clock input s = elim (request_fingerprint lib input) [
    | none ↦ (s, refused invalid_payload)
    | some (fingerprint, payload) ↦ create_requested id clock input fingerprint payload s
  ]

  -- the end of RetryTask, once the row is requeued
  unfoldable pub enqueue_again : Task → (org id : ℕ) → Time → S → S × Option Task × Option Error
  enqueue_again t org id now s =
      let (s₁, e) = broker.enqueue t s in
      let (s₂, marked) = storage.mark_dispatched org id now s₁ in
      elim e [
        | some error ↦ (s₁, some t, some dispatch_unavailable)
        | none ↦ elim marked [
          | some error ↦ (s₂, some t, some error)
          | none ↦ answer (storage.get_by_id org id s₂)
        ]
      ]
    where
      answer : S × Result Task → S × Option Task × Option Error
      answer (s, ok t) = (s, some t, none)
      answer (s, err error) = (s, none, some error)

  unfoldable pub retry_task : (org id : ℕ) → Time → S → S × Option Task × Option Error
  unfolding enqueue_again
  retry_task org id now s =
      let (s₁, found) = storage.get_by_id org id s in
      elim found [
        | err error ↦ (s₁, none, some error)
        | ok t ↦
            let (s₂, e) = storage.requeue org id now s₁ in
            elim e [
              | some error ↦ (s₂, none, some error)
              | none ↦
                  enqueue_again (record t { status = pending; attempts = 0; visible_at = now }) org
                    id now s₂
            ]
      ]

  unfoldable pub cancel_task : (org id : ℕ) → Time → S → S × Result Task
  cancel_task org id now s =
      let (s₁, cancelled) = storage.cancel org id now s in
      elim cancelled [
        | err error ↦ (s₁, err error)
        | ok t ↦
            let s₂ = (broker.remove org t.queue t.id s₁).0 in
            let s₃ =
              observers.record_metric (service_metric t Ports.task_cancelled t.updated_at) s₂ in
            (observers.publish_task_event task_cancelled t s₃, ok t)
      ]

  unfoldable pub soft_delete_task : (org id : ℕ) → Time → S → S × Option Error
  soft_delete_task org id now s =
      let (s₁, found) = storage.get_by_id org id s in
      elim found [
        | err error ↦ (s₁, some error)
        | ok t ↦
            let (s₂, e) = storage.soft_delete org id now s₁ in
            if is_terminal t
            then elim e [
              | some error ↦ (s₂, some error)
              | none ↦ ((broker.remove org t.queue id s₂).0, none)
            ]
            else (s₁, some invalid_state_transition)
      ]
