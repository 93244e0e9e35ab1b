-- ===== src/Tests/OfWebhook.antt =====
-- The theorems on an endpoint's event types and on the backoff, for sample values.
use flowforge.Base.{◌≡◌, ◌≤◌, refl, List, [], ◌∷◌, ok, All, arith}
use flowforge.Webhook.{
  WebhookEventType, task_created, task_failed, contains, normalize_webhook_event_types, valid,
}
use flowforge.Webhook.EventTypes.{IsDistinct, IsValid, normalize-eq-ok, normalize_accepts}
use flowforge.Retry.{strategy_backoff}
use flowforge.Retry.Bounds.{IsSane, strategy_backoff-le}
use flowforge.Tests.Samples.{float, policy}

abbrev asked : List WebhookEventType
asked = task_failed ∷ task_created ∷ task_failed ∷ []

asked_accepted : normalize_webhook_event_types asked ≡ ok (task_failed ∷ task_created ∷ [])
unfolding normalize_webhook_event_types
asked_accepted = refl

normalize-eq-ok_example :
    IsDistinct (task_failed ∷ task_created ∷ [])
    × All IsValid asked
    × ((t : WebhookEventType) → contains t (task_failed ∷ task_created ∷ []) ≡ contains t asked)
normalize-eq-ok_example = normalize-eq-ok asked (task_failed ∷ task_created ∷ []) asked_accepted

normalize_accepts_example :
    (after : List WebhookEventType) × (normalize_webhook_event_types asked ≡ ok after)
unfolding valid
normalize_accepts_example =
    normalize_accepts task_failed (task_created ∷ task_failed ∷ []) (refl, (refl, (refl, tt)))

policy-IsSane : IsSane float policy
policy-IsSane = record { ordered = omega arith; exact = omega arith; measured = tt }

strategy_backoff-le_example : strategy_backoff float policy "exponential" 4 ≤ 60
strategy_backoff-le_example =
    strategy_backoff-le float policy "exponential" 4 policy-IsSane (omega arith)
