-- ===== src/Storage.antt =====
-- internal/storage/postgres/postgres_storage.go and models.go: the tasks table and the SQL
-- statements that change it. A table is the list of its rows; a statement that runs is the function
-- from the rows before to the rows after it. A failing database changes nothing, and is an error of
-- the interface in Ports.
pub mod Statement
pub mod Holding
pub mod Rows
pub mod Life
pub mod Lifecycle
pub mod Tenancy
pub mod Claiming
pub mod Idempotency
pub mod Invariant
pub mod Queries
use flowforge.Base.{
  ℕ, String, Bool, true, false, ◌&&◌, ◌||◌, not, Option, none, some, List, [], ◌∷◌, ◌++◌, Duration,
  Time, mul_int64, div_int64, add_time, ltb, leb, ◌==◌, if◌then◌else◌, str_eq, is_none, take, find,
  select, update, affected, Error, task_not_found, task_already_locked, duplicate_idempotency_key,
  invalid_state_transition, Result, ok, err, map,
}
use flowforge.Task.{
  TaskStatus, pending, completed, dead_letter, cancelled, failed, Task, mark_processing,
  is_terminal_status, is_pending_status, is_processing_status,
}

-- A row in column order. JSONB and TIMESTAMPTZ columns hold the value that was written.
pub record TaskRow : Type 0 where
  pub id : ℕ
  pub org_id : ℕ
  pub queue : String
  pub payload : String
  pub status : TaskStatus
  pub idempotency_key : Option String
  pub request_fingerprint : String
  pub priority : ℕ
  pub backoff_strategy : String
  pub task_timeout_ms : ℕ
  pub attempts : ℕ
  pub max_attempts : ℕ
  pub visibility_timeout_ms : ℕ
  pub visible_at : Time
  pub locked_by : Option String
  pub last_heartbeat_at : Option Time
  pub created_at : Time
  pub updated_at : Time
  pub scheduled_at : Time
  pub completed_at : Option Time
  pub last_error : Option String
  pub deleted_at : Option Time
  pub trace_id : Option String
  pub dispatched_at : Option Time

abbrev pub Table : Type 0
Table = List TaskRow

-- a NULL string scans to ""
abbrev pub string_or_empty : Option String → String
string_or_empty none = ""
string_or_empty (some s) = s

-- NULLIF(s, '')
abbrev pub null_if_empty : String → Option String
null_if_empty s = if str_eq s "" then none else some s

abbrev pub millisecond : Duration
millisecond = 1000000

unfoldable pub to_domain : TaskRow → Task
to_domain r = record {
  id = r.id;
  org_id = r.org_id;
  queue = r.queue;
  payload = r.payload;
  status = r.status;
  idempotency_key = string_or_empty r.idempotency_key;
  request_fingerprint = r.request_fingerprint;
  priority = r.priority;
  backoff_strategy = r.backoff_strategy;
  trace_id = string_or_empty r.trace_id;
  attempts = r.attempts;
  max_attempts = r.max_attempts;
  task_timeout = mul_int64 r.task_timeout_ms millisecond;
  visibility_timeout = mul_int64 r.visibility_timeout_ms millisecond;
  visible_at = r.visible_at;
  locked_by = string_or_empty r.locked_by;
  last_heartbeat_at = r.last_heartbeat_at;
  created_at = r.created_at;
  updated_at = r.updated_at;
  scheduled_at = r.scheduled_at;
  completed_at = r.completed_at;
  deleted_at = r.deleted_at;
  dispatched_at = r.dispatched_at;
  last_error = string_or_empty r.last_error;
}

-- the row that INSERT writes; the columns that it does not name are NULL
unfoldable pub inserted_row : Task → TaskRow
inserted_row t = record {
  id = t.id;
  org_id = t.org_id;
  queue = t.queue;
  payload = t.payload;
  status = t.status;
  idempotency_key = null_if_empty t.idempotency_key;
  request_fingerprint = t.request_fingerprint;
  priority = t.priority;
  backoff_strategy = t.backoff_strategy;
  task_timeout_ms = div_int64 t.task_timeout millisecond;
  attempts = t.attempts;
  max_attempts = t.max_attempts;
  visibility_timeout_ms = div_int64 t.visibility_timeout millisecond;
  visible_at = t.visible_at;
  locked_by = none;
  last_heartbeat_at = none;
  created_at = t.created_at;
  updated_at = t.updated_at;
  scheduled_at = t.scheduled_at;
  completed_at = none;
  last_error = none;
  deleted_at = none;
  trace_id = null_if_empty t.trace_id;
  dispatched_at = none;
}

abbrev pub is_key : Option String → String → Bool
is_key none key = false
is_key (some k) key = str_eq k key

-- the primary key, and the unique index on (org_id, queue, idempotency_key), which skips NULL
unfoldable pub conflicts : TaskRow → TaskRow → Bool
conflicts new r =
    (r.id == new.id)
    || (r.org_id == new.org_id
        && str_eq r.queue new.queue
        && is_key new.idempotency_key (string_or_empty r.idempotency_key)
        && not (is_none r.idempotency_key))

unfoldable pub create : Task → Table → Table × Option Error
create t rows =
    if affected (conflicts (inserted_row t)) rows == 0
    then (rows ++ inserted_row t ∷ [], none)
    else (rows, some duplicate_idempotency_key)

abbrev pub scanned : Option TaskRow → Result Task
scanned none = err task_not_found
scanned (some r) = ok (to_domain r)

abbrev pub has_ids : ℕ → ℕ → TaskRow → Bool
has_ids org id r = r.org_id == org && r.id == id

unfoldable pub get_by_id : ℕ → ℕ → Table → Result Task
get_by_id org id rows = scanned (find (λ r. has_ids org id r && is_none r.deleted_at) rows)

unfoldable pub find_by_idempotency_key : ℕ → String → String → Table → Result Task
find_by_idempotency_key org queue key rows =
    scanned
      (find (λ r. r.org_id == org && str_eq r.queue queue && is_key r.idempotency_key key) rows)

-- The WHERE of the claim's SELECT. SKIP LOCKED passes over the rows that another transaction has
-- locked at that moment: those whose id is in `locked`.
unfoldable pub claimable : (locked : ℕ → Bool) (org id : ℕ) → Time → TaskRow → Bool
claimable locked org id now r =
    has_ids org id r
    && is_none r.deleted_at
    && leb r.visible_at now
    && (is_pending_status r.status || (is_processing_status r.status && ltb r.visible_at now))
    && not (locked r.id)

-- the claim's UPDATE writes these columns of the marked task
unfoldable pub claimed_row : Task → Time → TaskRow → TaskRow
claimed_row t now r = record r {
  status = t.status;
  locked_by = some t.locked_by;
  attempts = t.attempts;
  visible_at = t.visible_at;
  last_heartbeat_at = t.last_heartbeat_at;
  updated_at = now;
}

unfoldable pub claim_for_processing :
    (locked : ℕ → Bool) (org id : ℕ) → String → Time → Table → Table × Result Task
claim_for_processing locked org id worker now rows =
    elim (find (claimable locked org id now) rows) [
      | none ↦ (rows, err task_already_locked)
      | some r ↦
          let t = mark_processing worker now (to_domain r) in
          (update (has_ids org t.id) (claimed_row t now) rows, ok t)
    ]

-- An UPDATE whose caller turns "no row affected" into an error.
unfoldable pub exec_update :
    (TaskRow → Bool) → (TaskRow → TaskRow) → Error → Table → Table × Option Error
exec_update p f e rows = (update p f rows, if affected p rows == 0 then some e else none)

abbrev pub is_locked_by : String → Option String → Bool
is_locked_by worker none = false
is_locked_by worker (some w) = str_eq w worker

abbrev pub is_owned : ℕ → ℕ → String → TaskRow → Bool
is_owned org id worker r =
    has_ids org id r && is_locked_by worker r.locked_by && is_processing_status r.status

unfoldable pub renewed_row : Duration → Time → TaskRow → TaskRow
renewed_row visibility_timeout now r = record r {
  visible_at = add_time now visibility_timeout;
  last_heartbeat_at = some now;
  updated_at = now;
}

unfoldable pub heartbeat : (org id : ℕ) → String → Duration → Time → Table → Table × Option Error
unfolding exec_update
heartbeat org id worker visibility_timeout now =
    exec_update (is_owned org id worker) (renewed_row visibility_timeout now) task_already_locked

abbrev pub is_running : ℕ → ℕ → TaskRow → Bool
is_running org id r = has_ids org id r && is_processing_status r.status

unfoldable pub completed_row : Time → TaskRow → TaskRow
completed_row now r = record r {
  status = completed;
  completed_at = some now;
  locked_by = none;
  last_heartbeat_at = none;
  updated_at = now;
}

unfoldable pub complete : (org id : ℕ) → Time → Table → Table × Option Error
unfolding exec_update
complete org id now = exec_update (is_running org id) (completed_row now) task_not_found

unfoldable pub failed_row : String → TaskStatus → (visible_at now : Time) → TaskRow → TaskRow
failed_row message next_status visible_at now r = record r {
  status = next_status;
  last_error = some message;
  visible_at = visible_at;
  locked_by = none;
  last_heartbeat_at = none;
  dispatched_at = none;
  updated_at = now;
}

unfoldable pub fail :
    (org id : ℕ) → String → TaskStatus → (visible_at now : Time) → Table → Table × Option Error
unfolding exec_update
fail org id message next_status visible_at now =
    exec_update (is_running org id) (failed_row message next_status visible_at now) task_not_found

unfoldable pub buried_row : String → Time → TaskRow → TaskRow
buried_row message now r = record r {
  status = dead_letter;
  last_error = some message;
  locked_by = none;
  last_heartbeat_at = none;
  updated_at = now;
}

unfoldable pub move_to_dead_letter : (org id : ℕ) → String → Time → Table → Table × Option Error
unfolding exec_update
move_to_dead_letter org id message now =
    exec_update (is_running org id) (buried_row message now) task_not_found

unfoldable pub expired : (locked : ℕ → Bool) → ℕ → String → Time → TaskRow → Bool
expired locked org queue now r =
    r.org_id == org
    && str_eq r.queue queue
    && is_processing_status r.status
    && ltb r.visible_at now
    && not (locked r.id)

-- ORDER BY visible_at ASC
unfoldable pub insert_by_visible_at : TaskRow → Table → Table
insert_by_visible_at r [] = r ∷ []
insert_by_visible_at r (s ∷ rows) =
    if leb r.visible_at s.visible_at then r ∷ s ∷ rows else s ∷ insert_by_visible_at r rows

unfoldable pub order_by_visible_at : Table → Table
unfolding insert_by_visible_at
order_by_visible_at [] = []
order_by_visible_at (r ∷ rows) = insert_by_visible_at r (order_by_visible_at rows)

-- id = ANY(ids)
unfoldable pub is_any : List ℕ → ℕ → Bool
is_any [] id = false
is_any (i ∷ ids) id = i == id || is_any ids id

unfoldable pub reclaimable : (ℕ → Bool) → ℕ → String → Time → ℕ → Table → Table
reclaimable locked org queue now limit rows =
    take limit (order_by_visible_at (select (expired locked org queue now) rows))

-- The tasks that are returned are those read before the update.
unfoldable pub reclaimed_row : Time → TaskRow → TaskRow
reclaimed_row now r = record r {
  status = pending;
  locked_by = none;
  last_heartbeat_at = none;
  visible_at = now;
  dispatched_at = none;
  updated_at = now;
}

unfoldable pub reclaim_expired :
    (locked : ℕ → Bool) → ℕ → String → Time → (limit : ℕ) → Table → Table × List Task
reclaim_expired locked org queue now limit rows =
    let reclaimed = reclaimable locked org queue now limit rows in
    let ids = map (λ (r : TaskRow). r.id) reclaimed in
    (
      update (λ r. r.org_id == org && is_any ids r.id) (reclaimed_row now) rows,
      map to_domain reclaimed,
    )

abbrev pub is_requeueable_status : TaskStatus → Bool
is_requeueable_status failed = true
is_requeueable_status dead_letter = true
is_requeueable_status cancelled = true
is_requeueable_status _ = false

abbrev pub is_requeueable : ℕ → ℕ → TaskRow → Bool
is_requeueable org id r = has_ids org id r && is_requeueable_status r.status && is_none r.deleted_at

unfoldable pub requeued_row : Time → TaskRow → TaskRow
requeued_row now r = record r {
  status = pending;
  attempts = 0;
  locked_by = none;
  last_heartbeat_at = none;
  last_error = none;
  visible_at = now;
  dispatched_at = none;
  completed_at = none;
  updated_at = now;
}

unfoldable pub requeue : (org id : ℕ) → Time → Table → Table × Option Error
unfolding exec_update
requeue org id now = exec_update (is_requeueable org id) (requeued_row now) invalid_state_transition

abbrev pub is_cancellable : ℕ → ℕ → TaskRow → Bool
is_cancellable org id r = has_ids org id r && is_pending_status r.status && is_none r.deleted_at

unfoldable pub cancelled_row : Time → TaskRow → TaskRow
cancelled_row now r = record r {
  status = cancelled;
  locked_by = none;
  last_heartbeat_at = none;
  updated_at = now;
}

-- UPDATE … RETURNING: the row as it stands after the update
unfoldable pub cancel : (org id : ℕ) → Time → Table → Table × Result Task
cancel org id now rows = elim (find (is_cancellable org id) rows) [
  | none ↦ (rows, err invalid_state_transition)
  | some r ↦ (
    update (is_cancellable org id) (cancelled_row now) rows,
    ok (to_domain (cancelled_row now r)),
  )
]

abbrev pub is_deletable : ℕ → ℕ → TaskRow → Bool
is_deletable org id r = has_ids org id r && is_none r.deleted_at && is_terminal_status r.status

unfoldable pub deleted_row : Time → TaskRow → TaskRow
deleted_row now r = record r { deleted_at = some now; updated_at = now }

unfoldable pub soft_delete : (org id : ℕ) → Time → Table → Table × Option Error
unfolding exec_update
soft_delete org id now =
    exec_update (is_deletable org id) (deleted_row now) invalid_state_transition

abbrev pub is_dispatchable : ℕ → ℕ → TaskRow → Bool
is_dispatchable org id r = has_ids org id r && is_pending_status r.status

unfoldable pub dispatched_row : Time → TaskRow → TaskRow
dispatched_row now r = record r { dispatched_at = some now; updated_at = now }

unfoldable pub mark_dispatched : (org id : ℕ) → Time → Table → Table × Option Error
unfolding exec_update
mark_dispatched org id now =
    exec_update (is_dispatchable org id) (dispatched_row now) task_not_found
