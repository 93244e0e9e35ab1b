-- ===== src/Task.antt =====
-- internal/domain/task.go: the task entity and the methods that change it.
-- A uuid.UUID is its number; a *time.Time is an Option, as is a string column that may be NULL.
-- Struct values are shared by pointer in the source; here each method returns the new record.
use flowforge.Base.{
  ℕ, String, Bool, true, false, ◌&&◌, not, Option, none, some, Duration, Time, add_int64, lt_int64,
  add_time, ltb,
}

pub data TaskStatus : Type 0 where
  pending processing completed failed dead_letter cancelled : TaskStatus

pub record Task : Type 0 where
  pub id : ℕ
  pub org_id : ℕ
  pub queue : String
  pub payload : String
  pub status : TaskStatus
  pub idempotency_key : String
  pub request_fingerprint : String
  pub priority : ℕ  -- int64
  pub backoff_strategy : String
  pub trace_id : String
  pub attempts : ℕ  -- int64
  pub max_attempts : ℕ  -- int64
  pub task_timeout : Duration
  pub visibility_timeout : Duration
  pub visible_at : Time
  pub locked_by : String
  pub last_heartbeat_at : Option Time
  pub created_at : Time
  pub updated_at : Time
  pub scheduled_at : Time
  pub completed_at : Option Time
  pub deleted_at : Option Time
  pub dispatched_at : Option Time
  pub last_error : String

-- `id` and `now` are what `uuid.New()` and `time.Now().UTC()` return.
unfoldable pub new_task :
    (id : ℕ) (now : Time) (org_id : ℕ) (queue payload idempotency_key fingerprint : String)
    (max_attempts : ℕ) (visibility_timeout : Duration)
    → Task
new_task id now org_id queue payload idempotency_key fingerprint max_attempts visibility_timeout =
    record {
      id = id;
      org_id = org_id;
      queue = queue;
      payload = payload;
      status = pending;
      idempotency_key = idempotency_key;
      request_fingerprint = fingerprint;
      priority = 0;
      backoff_strategy = "exponential";
      trace_id = "";
      attempts = 0;
      max_attempts = max_attempts;
      task_timeout = 0;
      visibility_timeout = visibility_timeout;
      visible_at = now;
      locked_by = "";
      last_heartbeat_at = none;
      created_at = now;
      updated_at = now;
      scheduled_at = now;
      completed_at = none;
      deleted_at = none;
      dispatched_at = none;
      last_error = "";
    }

abbrev pub is_terminal_status : TaskStatus → Bool
is_terminal_status completed = true
is_terminal_status failed = true
is_terminal_status dead_letter = true
is_terminal_status cancelled = true
is_terminal_status pending = false
is_terminal_status processing = false

unfoldable pub is_terminal : Task → Bool
is_terminal t = is_terminal_status t.status

-- `t.Attempts >= t.MaxAttempts`
unfoldable pub is_exhausted : Task → Bool
is_exhausted t = not (lt_int64 t.attempts t.max_attempts)

unfoldable pub mark_processing : String → Time → Task → Task
mark_processing worker now t = record t {
  status = processing;
  locked_by = worker;
  attempts = add_int64 t.attempts 1;
  visible_at = add_time now t.visibility_timeout;
  last_heartbeat_at = some now;
  updated_at = now;
}

unfoldable pub extend_visibility : Time → Task → Task
extend_visibility now t = record t {
  visible_at = add_time now t.visibility_timeout;
  last_heartbeat_at = some now;
}

abbrev pub is_processing_status : TaskStatus → Bool
is_processing_status processing = true
is_processing_status _ = false

abbrev pub is_pending_status : TaskStatus → Bool
is_pending_status pending = true
is_pending_status _ = false

-- `t.Status == StatusProcessing && now.After(t.VisibleAt)`
unfoldable pub is_visibility_expired : Time → Task → Bool
is_visibility_expired now t = is_processing_status t.status && ltb t.visible_at now
