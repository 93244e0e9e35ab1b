-- ===== src/Delivery/Settling.antt =====
-- What an attempt at a delivery leaves in the webhook_deliveries table.
use flowforge.Base.{
  ℕ, ◌≤◌, ◌<◌, ◌≡◌, ◌⊎◌, inl, inr, Bool, true, false, Option, none, some, List, [], ◌∷◌, arith, All,
  Result-cases, update, is_none, not, Bool-cases, ok, Error, Time, leb, String,
}
use flowforge.Webhook.{WebhookDeliveryStatus, delivered, retrying, failed}
use flowforge.Delivery.{
  WebhookEndpoint, WebhookDelivery, Deliveries, is_delivery, stored_row, update_webhook_delivery,
}
use flowforge.Delivery.Worker.{
  DeliveryPorts, WebhookDeliveryWorker, WebhookHttpResponse, failed_delivery, delivered_delivery,
  record_failure, record_success, record_response, transmit, request_of, attempt, process,
  is_success,
}
use flowforge.Delivery

abbrev is_retrying : WebhookDeliveryStatus → Bool
is_retrying retrying = true
is_retrying _ = false

abbrev is_delivered : WebhookDeliveryStatus → Bool
is_delivered delivered = true
is_delivered _ = false

-- the attempt at the delivery is over
pub record IsSettled (now : Time) (d : WebhookDelivery) : Type 0 where
  pub over : (d.status ≡ delivered) ⊎ ((d.status ≡ retrying) ⊎ (d.status ≡ failed))
  pub timed : is_none d.next_attempt_at ≡ not (is_retrying d.status)
  pub explained : is_none d.last_error ≡ is_delivered d.status
  pub spent : d.status ≡ failed → d.max_attempts ≤ d.attempt_count
  pub left : d.status ≡ retrying → d.attempt_count < d.max_attempts
  pub answered : d.status ≡ delivered → is_none d.response_status ≡ false
  pub dated : d.updated_at ≡ now

failed_delivery-IsSettled :
    (worker : WebhookDeliveryWorker) (d : WebhookDelivery) (r : Option WebhookHttpResponse)
    (message : String) (now : Time)
    → IsSettled now (failed_delivery worker d r message now)
unfolding failed_delivery
failed_delivery-IsSettled worker d r message now = ground arith

delivered_delivery-IsSettled :
    (d : WebhookDelivery) (r : WebhookHttpResponse) (now : Time)
    → IsSettled now (delivered_delivery d r now)
unfolding delivered_delivery
delivered_delivery-IsSettled d r now = ground arith

stored_row-IsSettled :
    (d r : WebhookDelivery) (now : Time) → IsSettled now d → IsSettled now (stored_row d r)
unfolding stored_row
stored_row-IsSettled d r now h = ground arith

-- every row of the delivery is settled
abbrev pub IsSettledIn : WebhookDelivery → Time → WebhookDelivery → Type 0
IsSettledIn d now r = is_delivery d.org_id d.id r ≡ true → IsSettled now r

update-IsSettledIn :
    (d : WebhookDelivery) (now : Time) (rows : Deliveries)
    → IsSettled now d
    → All (IsSettledIn d now) (update_webhook_delivery d rows).0
unfolding update_webhook_delivery update
update-IsSettledIn d now [] h = tt
update-IsSettledIn d now (r ∷ rows) h = (
  elim (Bool-cases (is_delivery d.org_id d.id r)) [
    | inl e ↦ rw e (λ named. stored_row-IsSettled d r now h)
    | inr e ↦ rw e (λ named. absurd (ground arith))
  ],
  update-IsSettledIn d now rows h,
)

pub record DeliveryWorld (B : Type 0) : Type 0 where
  pub rows : Deliveries
  pub rest : B

-- The repository's statements run on the table, and every other port beside it.
abbrev pub beside_table :
    {B : Type 0} → (locked : ℕ → Bool) → DeliveryPorts B → DeliveryPorts (DeliveryWorld B)
beside_table locked ports = record {
  claim_due = λ now limit w.
      let (rows, ds) = Delivery.claim_due_webhook_deliveries locked now limit w.rows in
      (record { rows = rows; rest = w.rest }, ok ds);
  get_webhook_endpoint = λ org id w.
      let (b, found) = ports.get_webhook_endpoint org id w.rest in
      (record { rows = w.rows; rest = b }, found);
  update_webhook_delivery = λ d w.
      let (rows, e) = update_webhook_delivery d w.rows in
      (record { rows = rows; rest = w.rest }, e);
  record_metric = λ m w. record { rows = w.rows; rest = ports.record_metric m w.rest };
  send = λ request w.
      let (b, answer) = ports.send request w.rest in (record { rows = w.rows; rest = b }, answer);
  decrypt = ports.decrypt;
  sign = ports.sign;
  number_text = ports.number_text;
  unix_text = ports.unix_text;
  uuid_text = ports.uuid_text;
  event_text = ports.event_text;
  error_text = ports.error_text;
}

module _ {B : Type 0} (locked : ℕ → Bool) (ports : DeliveryPorts B) (worker : WebhookDeliveryWorker)
    (d : WebhookDelivery) (now : Time) where
  abbrev full : DeliveryPorts (DeliveryWorld B)
  full = beside_table locked ports

  abbrev Settled : DeliveryWorld B × List Error → Type 0
  Settled out = All (IsSettledIn d now) out.0.rows

  failure_rows :
      (r : Option WebhookHttpResponse) (e : Error) (w : DeliveryWorld B)
      → (record_failure full worker d r e now w).0.rows
        ≡ (update_webhook_delivery (failed_delivery worker d r (ports.error_text e) now) w.rows).0
  unfolding record_failure
  failure_rows r e w = ground arith

  record_failure-Settled :
      (r : Option WebhookHttpResponse) (e : Error) (w : DeliveryWorld B)
      → Settled (record_failure full worker d r e now w)
  unfolding failed_delivery
  record_failure-Settled r e w =
      rw (failure_rows r e w) (elim (Bool-cases (leb d.max_attempts d.attempt_count)) [
        | inl b ↦ rw b (
            update-IsSettledIn _ now w.rows
              (rw b at (failed_delivery-IsSettled worker d r (ports.error_text e) now)))
        | inr b ↦ rw b (
            update-IsSettledIn _ now w.rows
              (rw b at (failed_delivery-IsSettled worker d r (ports.error_text e) now)))
      ])

  success_rows :
      (r : WebhookHttpResponse) (w : DeliveryWorld B)
      → (record_success full worker d r now w).0.rows
        ≡ (update_webhook_delivery (delivered_delivery d r now) w.rows).0
  unfolding record_success
  success_rows r w = ground arith

  record_response-Settled :
      (r : WebhookHttpResponse) (w : DeliveryWorld B)
      → Settled (record_response full worker d r now w)
  unfolding record_response delivered_delivery
  record_response-Settled r w = elim (Bool-cases (is_success full worker r.status_code)) [
    | inl e ↦
        rw (e, success_rows r w)
          (update-IsSettledIn _ now w.rows (delivered_delivery-IsSettled d r now))
    | inr e ↦ rw e (record_failure-Settled (some r) _ w)
  ]

  transmit-Settled :
      (endpoint : WebhookEndpoint) (secret : String) (w : DeliveryWorld B)
      → Settled (transmit full worker endpoint secret d now w)
  unfolding transmit
  transmit-Settled endpoint secret w =
      let request = request_of full worker endpoint secret d now in
      elim (Result-cases (full.send request w).1) [
        | inl (x, h) ↦ rw (h, transmit) (record_failure-Settled none x (full.send request w).0)
        | inr (r, h) ↦ rw (h, transmit) (record_response-Settled r (full.send request w).0)
      ]

  attempt-Settled :
      (endpoint : WebhookEndpoint) (w : DeliveryWorld B)
      → Settled (attempt full worker endpoint d now w)
  unfolding attempt
  attempt-Settled endpoint w = elim (Bool-cases endpoint.is_active) [
    | inr e ↦ rw e (record_failure-Settled none _ w)
    | inl e ↦ elim (Result-cases (ports.decrypt endpoint.secret_ciphertext)) [
      | inl (x, h) ↦ rw (e, h) (record_failure-Settled none x w)
      | inr (secret, h) ↦ rw (e, h) (transmit-Settled endpoint secret w)
    ]
  ]

  -- However an attempt at a delivery goes, once the statement of its update has run its row is
  -- delivered, retrying or failed, dated to the attempt: failed only when its attempts are spent,
  -- retrying only when they are not and then with a time for the next one, delivered with a
  -- response status and no error, and otherwise with an error.
  pub process-IsSettledIn :
      (w : DeliveryWorld B)
      → All (IsSettledIn d now) (process (beside_table locked ports) worker d now w).0.rows
  unfolding process
  process-IsSettledIn w =
      let found = full.get_webhook_endpoint d.org_id d.endpoint_id w in
      elim (Result-cases found.1) [
        | inl (x, h) ↦ rw (h, process) (record_failure-Settled none x found.0)
        | inr (endpoint, h) ↦ rw (h, process) (attempt-Settled endpoint found.0)
      ]
