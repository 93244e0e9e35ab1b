-- ===== src/Delivery.antt =====
-- Webhook deliveries: the types of internal/domain/webhook.go and the statements of
-- internal/storage/postgres/webhook_repository.go on the webhook_deliveries table. The column
-- attempt_count is an INT that a CHECK keeps from being negative.
pub mod Worker
pub mod Backoff
pub mod Budget
pub mod Settling
use flowforge.Base.{
  ℕ, ◌+◌, String, Bool, true, false, ◌&&◌, ◌||◌, Option, none, some, List, [], ◌∷◌, ◌++◌, map, Time,
  ltb, leb, ◌==◌, if◌then◌else◌, take, find, select, update, affected, is_none, is_negative, Error,
  webhook_delivery_not_found, invalid_state_transition, Result, ok, err,
}
use flowforge.Webhook.{
  WebhookEventType, WebhookDeliveryStatus, pending, delivering, delivered, retrying, failed,
}
use flowforge.Storage.{is_any}

pub record WebhookEndpoint : Type 0 where
  pub id : ℕ
  pub org_id : ℕ
  pub name : String
  pub url : String
  pub secret_hash : String
  pub secret_ciphertext : String
  pub event_types : List WebhookEventType
  pub is_active : Bool
  pub deleted_at : Option Time
  pub created_at : Time
  pub updated_at : Time

pub record WebhookDelivery : Type 0 where
  pub id : ℕ
  pub org_id : ℕ
  pub endpoint_id : ℕ
  pub event_type : WebhookEventType
  pub payload : String
  pub status : WebhookDeliveryStatus
  pub attempt_count : ℕ
  pub max_attempts : ℕ
  pub next_attempt_at : Option Time
  pub last_attempt_at : Option Time
  pub response_status : Option ℕ
  pub response_body : Option String
  pub last_error : Option String
  pub created_at : Time
  pub updated_at : Time

abbrev pub Deliveries : Type 0
Deliveries = List WebhookDelivery

-- the deliveries that one organisation's id names
abbrev pub is_delivery : ℕ → ℕ → WebhookDelivery → Bool
is_delivery org id d = d.org_id == org && d.id == id

unfoldable pub get_webhook_delivery : ℕ → ℕ → Deliveries → Result WebhookDelivery
get_webhook_delivery org id rows = elim (find (is_delivery org id) rows) [
  | none ↦ err webhook_delivery_not_found
  | some d ↦ ok d
]

abbrev pub is_awaited : WebhookDeliveryStatus → Bool
is_awaited pending = true
is_awaited retrying = true
is_awaited _ = false

-- NULL, or not after `now`
abbrev pub is_due_at : Time → Option Time → Bool
is_due_at now none = true
is_due_at now (some t) = leb t now

-- the WHERE of the candidates, with the rows that SKIP LOCKED passes over
unfoldable pub due : (locked : ℕ → Bool) → Time → WebhookDelivery → Bool
due locked now d =
    is_awaited d.status
    && ltb d.attempt_count d.max_attempts
    && is_due_at now d.next_attempt_at
    && (if locked d.id then false else true)

-- ORDER BY next_attempt_at ASC NULLS FIRST, created_at ASC
abbrev pub comes_first : WebhookDelivery → WebhookDelivery → Bool
comes_first d e = elim d.next_attempt_at [
  | none ↦ if is_none e.next_attempt_at then leb d.created_at e.created_at else true
  | some t ↦ elim e.next_attempt_at [
    | none ↦ false
    | some u ↦ ltb t u || (t == u && leb d.created_at e.created_at)
  ]
]

unfoldable pub insert_delivery : WebhookDelivery → Deliveries → Deliveries
insert_delivery d [] = d ∷ []
insert_delivery d (e ∷ rows) = if comes_first d e then d ∷ e ∷ rows else e ∷ insert_delivery d rows

unfoldable pub order_deliveries : Deliveries → Deliveries
unfolding insert_delivery
order_deliveries [] = []
order_deliveries (d ∷ rows) = insert_delivery d (order_deliveries rows)

-- `if limit <= 0 || limit > 1000 { limit = 100 }`
unfoldable pub batch_limit : ℕ → ℕ
batch_limit limit = if limit == 0 || is_negative limit || ltb 1000 limit then 100 else limit

unfoldable pub delivering_row : Time → WebhookDelivery → WebhookDelivery
delivering_row now d = record d {
  status = delivering;
  attempt_count = d.attempt_count + 1;
  last_attempt_at = some now;
  next_attempt_at = none;
  updated_at = now;
}

unfoldable pub candidates : (ℕ → Bool) → Time → ℕ → Deliveries → List ℕ
candidates locked now limit rows =
    map (λ (d : WebhookDelivery). d.id)
      (take (batch_limit limit) (order_deliveries (select (due locked now) rows)))

-- UPDATE … RETURNING gives the changed rows, here in the order of the table.
unfoldable pub claim_due_webhook_deliveries :
    (locked : ℕ → Bool) → Time → ℕ → Deliveries → Deliveries × List WebhookDelivery
claim_due_webhook_deliveries locked now limit rows =
    let ids = candidates locked now limit rows in
    let after = update (λ d. is_any ids d.id) (delivering_row now) rows in
    (after, select (λ d. is_any ids d.id) after)

-- the columns that UPDATE writes, from the delivery that it is given
unfoldable pub stored_row : WebhookDelivery → WebhookDelivery → WebhookDelivery
stored_row d r = record r {
  status = d.status;
  attempt_count = d.attempt_count;
  max_attempts = d.max_attempts;
  next_attempt_at = d.next_attempt_at;
  last_attempt_at = d.last_attempt_at;
  response_status = d.response_status;
  response_body = d.response_body;
  last_error = d.last_error;
  updated_at = d.updated_at;
}

unfoldable pub update_webhook_delivery : WebhookDelivery → Deliveries → Deliveries × Option Error
update_webhook_delivery d rows = (
  update (is_delivery d.org_id d.id) (stored_row d) rows,
  if affected (is_delivery d.org_id d.id) rows == 0 then some webhook_delivery_not_found else none,
)

abbrev pub is_replayable_status : WebhookDeliveryStatus → Bool
is_replayable_status failed = true
is_replayable_status retrying = true
is_replayable_status _ = false

abbrev pub is_replayable : ℕ → ℕ → WebhookDelivery → Bool
is_replayable org id d = is_delivery org id d && is_replayable_status d.status

unfoldable pub replayed_row : Time → WebhookDelivery → WebhookDelivery
replayed_row now d = record d {
  status = pending;
  attempt_count = 0;
  next_attempt_at = some now;
  last_attempt_at = none;
  response_status = none;
  response_body = none;
  last_error = none;
  updated_at = now;
}

-- what the error of the UPDATE becomes when no row was changed
abbrev pub refusal : Result WebhookDelivery → Error
refusal (ok d) = invalid_state_transition
refusal (err e) = e

unfoldable pub retry_webhook_delivery :
    (org id : ℕ) → Time → Deliveries → Deliveries × Result WebhookDelivery
retry_webhook_delivery org id now rows = elim (find (is_replayable org id) rows) [
  | none ↦ (rows, err (refusal (get_webhook_delivery org id rows)))
  | some d ↦ (update (is_replayable org id) (replayed_row now) rows, ok (replayed_row now d))
]
