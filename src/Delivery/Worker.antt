-- ===== src/Delivery/Worker.antt =====
-- internal/usecase/webhook_delivery_worker.go: one attempt at each delivery that is due.
use Prim.Native.String.{◌++◌ as str_append}
use flowforge.Base.{
  ℕ, zero, suc, ◌-◌, String, Bool, true, false, ◌||◌, Option, none, some, List, [], ◌∷◌, ◌++◌,
  Duration, Time, add_time, mul_int64, div_int64, lt_int64, is_negative, leb, ◌==◌, if◌then◌else◌,
  length, Error, other, Result, ok, err,
}
use flowforge.Webhook.{WebhookEventType, WebhookDeliveryStatus, delivered, retrying, failed}
use flowforge.Ports.{
  MetricEventType, delivery_started, delivery_succeeded, delivery_failed, delivery_exhausted,
  delivery_retry_scheduled,
}
use flowforge.Delivery.{WebhookEndpoint, WebhookDelivery}

pub record WebhookHttpRequest : Type 0 where
  pub url : String
  pub headers : List (String × String)
  pub body : String

pub record WebhookHttpResponse : Type 0 where
  pub status_code : ℕ  -- int64
  pub body : String

-- the fields of a delivery metric that are not constant
pub record DeliveryMetric : Type 0 where
  pub org_id : ℕ
  pub event_type : MetricEventType
  pub resource_id : ℕ
  pub status : WebhookDeliveryStatus
  pub occurred_at : Time
  pub attempt : ℕ
  pub max_attempts : ℕ
  pub error_code : String

-- The repositories, the cipher, the signer and the client, and the library's texts of a number, of a
-- time in Unix seconds, of a uuid, of an event type and of an error.
pub record DeliveryPorts (S : Type 0) : Type 0 where
  pub claim_due : Time → (limit : ℕ) → S → S × Result (List WebhookDelivery)
  pub get_webhook_endpoint : (org id : ℕ) → S → S × Result WebhookEndpoint
  pub update_webhook_delivery : WebhookDelivery → S → S × Option Error
  pub record_metric : DeliveryMetric → S → S
  pub send : WebhookHttpRequest → S → S × Result WebhookHttpResponse
  pub decrypt : String → Result String
  pub sign : (secret timestamp payload : String) → String
  pub number_text : ℕ → String
  pub unix_text : Time → String
  pub uuid_text : ℕ → String
  pub event_text : WebhookEventType → String
  pub error_text : Error → String

pub record WebhookDeliveryWorker : Type 0 where
  pub batch_size : ℕ
  pub initial_backoff : Duration
  pub max_backoff : Duration

-- `n <= 0` of an int64
abbrev pub is_unset : ℕ → Bool
is_unset n = n == 0 || is_negative n

unfoldable pub new_webhook_delivery_worker :
    (batch_size : ℕ) (initial_backoff max_backoff : Duration) → WebhookDeliveryWorker
new_webhook_delivery_worker batch_size initial_backoff max_backoff = record {
  batch_size = if is_unset batch_size then 50 else batch_size;
  initial_backoff = if is_unset initial_backoff then 5000000000 else initial_backoff;
  max_backoff = if is_unset max_backoff then 3600000000000 else max_backoff;
}

-- the return after the loop
unfoldable pub capped : WebhookDeliveryWorker → Duration → Duration
capped worker backoff = if lt_int64 worker.max_backoff backoff then worker.max_backoff else backoff

-- The loop, with the rounds that its counter leaves.
unfoldable pub backoff_loop : WebhookDeliveryWorker → ℕ → Duration → Duration
unfolding capped
backoff_loop worker zero backoff = capped worker backoff
backoff_loop worker (suc rounds) backoff =
    let rest = backoff_loop worker rounds (mul_int64 backoff 2) in
    if lt_int64 backoff worker.max_backoff
    then if lt_int64 (div_int64 worker.max_backoff 2) backoff then worker.max_backoff else rest
    else capped worker backoff

unfoldable pub backoff : WebhookDeliveryWorker → ℕ → Duration
unfolding backoff_loop
backoff worker attempt = backoff_loop worker (attempt - 1) worker.initial_backoff

unfoldable pub delivery_metric : WebhookDelivery → MetricEventType → Time → String → DeliveryMetric
delivery_metric d event_type now error_code = record {
  org_id = d.org_id;
  event_type = event_type;
  resource_id = d.id;
  status = d.status;
  occurred_at = now;
  attempt = d.attempt_count;
  max_attempts = d.max_attempts;
  error_code = error_code;
}

-- The delivery after the part of recordFailure that precedes its update.
unfoldable pub failed_delivery :
    WebhookDeliveryWorker
    → WebhookDelivery
    → Option WebhookHttpResponse
    → String
    → Time
    → WebhookDelivery
failed_delivery worker d response message now =
    let d₁ = record d {
      last_error = some message;
      updated_at = now;
      response_status = elim response [ none ↦ none | some r ↦ some r.status_code ];
      response_body = elim response [ none ↦ none | some r ↦ some r.body ];
    } in
    if leb d.max_attempts d.attempt_count
    then record d₁ { status = failed; next_attempt_at = none }
    else record d₁ {
      status = retrying;
      next_attempt_at = some (add_time now (backoff worker d.attempt_count));
    }

abbrev pub is_failed : WebhookDeliveryStatus → Bool
is_failed failed = true
is_failed _ = false

unfoldable pub delivered_delivery : WebhookDelivery → WebhookHttpResponse → Time → WebhookDelivery
delivered_delivery d response now = record d {
  status = delivered;
  next_attempt_at = none;
  response_status = some response.status_code;
  response_body = some response.body;
  last_error = none;
  updated_at = now;
}

module _ {S : Type 0} (ports : DeliveryPorts S) (worker : WebhookDeliveryWorker) where
  -- The errors are those that errors.Join joins.
  unfoldable pub record_failure :
      WebhookDelivery → Option WebhookHttpResponse → Error → Time → S → S × List Error
  record_failure d response failure now s =
      let d₁ = failed_delivery worker d response (ports.error_text failure) now in
      let (s₁, e) = ports.update_webhook_delivery d₁ s in
      elim e [
        | some error ↦ (s₁, failure ∷ error ∷ [])
        | none ↦
            let s₂ =
              ports.record_metric (delivery_metric d₁ delivery_failed now "delivery_error") s₁ in
            let last =
              if is_failed d₁.status then delivery_exhausted else delivery_retry_scheduled in
            (ports.record_metric (delivery_metric d₁ last now "delivery_error") s₂, [])
      ]

  unfoldable pub request_of : WebhookEndpoint → String → WebhookDelivery → Time → WebhookHttpRequest
  request_of endpoint secret d now =
      let timestamp = ports.unix_text now in
      record {
        url = endpoint.url;
        headers =
            ("X-Windylane-Event", ports.event_text d.event_type)
            ∷ ("X-Windylane-Delivery", ports.uuid_text d.id)
            ∷ ("X-Windylane-Timestamp", timestamp)
            ∷ ("X-Windylane-Signature", ports.sign secret timestamp d.payload)
            ∷ [];
        body = d.payload;
      }

  -- `response.StatusCode < 200 || response.StatusCode >= 300` is false
  unfoldable pub is_success : ℕ → Bool
  is_success code = if lt_int64 code 200 then false else lt_int64 code 300

  unfoldable pub record_success : WebhookDelivery → WebhookHttpResponse → Time → S → S × List Error
  record_success d response now s =
      let d₁ = delivered_delivery d response now in
      let (s₁, e) = ports.update_webhook_delivery d₁ s in
      elim e [
        | some error ↦ (s₁, error ∷ [])
        | none ↦ (ports.record_metric (delivery_metric d₁ delivery_succeeded now "") s₁, [])
      ]

  unfoldable pub record_response : WebhookDelivery → WebhookHttpResponse → Time → S → S × List Error
  record_response d response now s =
      if is_success response.status_code
      then record_success d response now s
      else record_failure d (some response)
          (other (str_append "webhook returned HTTP " (ports.number_text response.status_code))) now
          s

  unfoldable pub transmit : WebhookEndpoint → String → WebhookDelivery → Time → S → S × List Error
  transmit endpoint secret d now s =
      let (s₁, answer) = ports.send (request_of endpoint secret d now) s in
      elim answer [
        | err error ↦ record_failure d none error now s₁
        | ok response ↦ record_response d response now s₁
      ]

  unfoldable pub attempt : WebhookEndpoint → WebhookDelivery → Time → S → S × List Error
  attempt endpoint d now s =
      if endpoint.is_active
      then elim (ports.decrypt endpoint.secret_ciphertext) [
        | err error ↦ record_failure d none error now s
        | ok secret ↦ transmit endpoint secret d now s
      ]
      else record_failure d none (other "webhook endpoint is inactive") now s

  unfoldable pub process : WebhookDelivery → Time → S → S × List Error
  unfolding attempt
  process d now s =
      let (s₁, found) = ports.get_webhook_endpoint d.org_id d.endpoint_id s in
      elim found [
        | err error ↦ record_failure d none error now s₁
        | ok endpoint ↦ attempt endpoint d now s₁
      ]

  -- the loop of ProcessDue
  unfoldable pub process_all : List WebhookDelivery → Time → S → S × List Error
  unfolding process
  process_all [] now s = (s, [])
  process_all (d ∷ ds) now s =
      let (s₁, errors) =
        process d now (ports.record_metric (delivery_metric d delivery_started now "") s) in
      let (s₂, later) = process_all ds now s₁ in (s₂, errors ++ later)

  -- the number of deliveries, and the errors that are joined
  unfoldable pub process_due : Time → S → S × ℕ × List Error
  unfolding process_all
  process_due now s =
      let (s₁, claimed) = ports.claim_due now worker.batch_size s in
      elim claimed [
        | err error ↦ (s₁, 0, error ∷ [])
        | ok ds ↦ let (s₂, errors) = process_all ds now s₁ in (s₂, length ds, errors)
      ]
