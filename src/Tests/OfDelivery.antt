-- ===== src/Tests/OfDelivery.antt =====
-- The theorems on webhook deliveries, for one delivery and ports that answer HTTP 503.

use flowforge.Base.{ℕ, suc, ◌^◌, ◌*◌, ◌-◌, ◌≡◌, refl, [], ◌∷◌, none, ok, true, All, Memᴰ, arith}
use flowforge.Webhook.{pending, task_created}
use flowforge.Delivery.{
  WebhookDelivery, delivering_row, claim_due_webhook_deliveries, retry_webhook_delivery,
}
use flowforge.Delivery.Worker.{DeliveryPorts, WebhookDeliveryWorker, backoff, process}
use flowforge.Delivery.Backoff.{least, backoff-least}
use flowforge.Delivery.Budget.{IsAttemptOf, claim-IsAttempt, claim_stranded}
use flowforge.Delivery.Settling.{beside_table, IsSettledIn, process-IsSettledIn}
use flowforge.Tests.Samples.{unlocked}

abbrev delivery : WebhookDelivery
delivery = record {
  id = 4;
  org_id = 1;
  endpoint_id = 9;
  event_type = task_created;
  payload = "{}";
  status = pending;
  attempt_count = 0;
  max_attempts = 3;
  next_attempt_at = none;
  last_attempt_at = none;
  response_status = none;
  response_body = none;
  last_error = none;
  created_at = 100;
  updated_at = 100;
}

abbrev taken : WebhookDelivery
taken = delivering_row 200 delivery

abbrev ports : DeliveryPorts ℕ
ports = record {
  claim_due = λ now limit n. (n, ok []);
  get_webhook_endpoint = λ org id n. (
    n,
    ok (record {
      id = id;
      org_id = org;
      name = "hook";
      url = "https://example.org";
      secret_hash = "";
      secret_ciphertext = "c";
      event_types = task_created ∷ [];
      is_active = true;
      deleted_at = none;
      created_at = 50;
      updated_at = 50;
    }),
  );
  update_webhook_delivery = λ d n. (n, none);
  record_metric = λ m n. n;
  send = λ request n. (suc n, ok (record { status_code = 503; body = "busy" }));
  decrypt = λ c. ok "secret";
  sign = λ secret timestamp payload. secret;
  number_text = λ n. "503";
  unix_text = λ t. "0";
  uuid_text = λ n. "id";
  event_text = λ e. "task.created";
  error_text = λ e. "webhook returned HTTP 503";
}

abbrev worker : WebhookDeliveryWorker
worker = record { batch_size = 50; initial_backoff = 5; max_backoff = 60 }

backoff-least_example : backoff worker 4 ≡ least (5 * 2 ^ (4 - 1)) 60
backoff-least_example = backoff-least worker (omega arith) 4 (omega arith)

process-IsSettledIn_example :
    All
      (IsSettledIn taken 200)
      (process
        (beside_table unlocked ports)
        worker
        taken
        200
        (record { rows = taken ∷ []; rest = 0 })).0.rows
process-IsSettledIn_example =
    process-IsSettledIn unlocked ports worker taken 200 (record { rows = taken ∷ []; rest = 0 })

claim-IsAttempt_example :
    All
      (λ d. (r : WebhookDelivery) × Memᴰ r (delivery ∷ []) × IsAttemptOf unlocked 200 r d)
      (claim_due_webhook_deliveries unlocked 200 50 (delivery ∷ [])).1
claim-IsAttempt_example = claim-IsAttempt unlocked 200 50 (delivery ∷ []) (tt, tt)

claim_stranded_example :
    Memᴰ taken (claim_due_webhook_deliveries unlocked 900 50 (taken ∷ [])).0
    × Memᴰ taken (retry_webhook_delivery 1 4 900 (taken ∷ [])).0
unfolding delivering_row
claim_stranded_example =
    claim_stranded unlocked 900 50 (taken ∷ []) (tt, tt) 1 4 (Memᴰ.head refl) refl
