-- ===== src/Webhook.antt =====
-- internal/domain/webhook.go: event types and delivery statuses, and the event list of an endpoint
-- (normalizeWebhookEventTypes in internal/usecase/webhook_service.go).
pub mod EventTypes
use flowforge.Base.{
  ℕ, ◌==◌, Bool, true, false, ◌||◌, List, [], ◌∷◌, ◌++◌, if◌then◌else◌, Result, ok, err,
  invalid_input,
}

-- The constants of the type, and `unknown` for every other string that a request may hold.
pub data WebhookEventType : Type 0 where
  task_created task_processing task_completed task_failed task_dead_letter : WebhookEventType
  task_cancelled workflow_node unknown : WebhookEventType

-- the types that an endpoint may subscribe to
unfoldable pub valid : WebhookEventType → Bool
valid task_created = true
valid task_processing = true
valid task_completed = true
valid task_failed = true
valid task_dead_letter = true
valid task_cancelled = true
valid workflow_node = false
valid unknown = false

pub data WebhookDeliveryStatus : Type 0 where
  pending delivering delivered retrying failed : WebhookDeliveryStatus

-- a number for each type, by which two types are compared
abbrev code : WebhookEventType → ℕ
code task_created = 0
code task_processing = 1
code task_completed = 2
code task_failed = 3
code task_dead_letter = 4
code task_cancelled = 5
code workflow_node = 6
code unknown = 7

abbrev pub same_type : WebhookEventType → WebhookEventType → Bool
same_type a b = code a == code b

unfoldable pub contains : WebhookEventType → List WebhookEventType → Bool
contains t [] = false
contains t (u ∷ us) = same_type t u || contains t us

-- The loop: `seen` and `result` hold the same types, and the map `seen` is asked by `contains`.
unfoldable pub normalize_from :
    List WebhookEventType → List WebhookEventType → Result (List WebhookEventType)
unfolding valid contains
normalize_from result [] = ok result
normalize_from result (t ∷ values) =
    let rest = normalize_from (if contains t result then result else result ++ t ∷ []) values in
    if valid t then rest else err invalid_input

unfoldable pub normalize_webhook_event_types :
    List WebhookEventType → Result (List WebhookEventType)
unfolding normalize_from
normalize_webhook_event_types [] = err invalid_input
normalize_webhook_event_types (t ∷ values) = normalize_from [] (t ∷ values)
