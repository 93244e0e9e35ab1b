-- ===== src/Base/Errors.antt =====
-- internal/domain/errors.go: the sentinel errors, as one type, and a value-or-error result.
use Prim.Native.String.{String}
use mathlib.Core.Path.{◌≡◌, refl}
use mathlib.Core.Logic.{◌⊎◌, inl, inr}

-- `other` is an error that is none of the sentinels, by its message.
pub data Error : Type 0 where
  task_not_found duplicate_idempotency_key task_already_locked visibility_expired : Error
  queue_empty invalid_payload max_attempts_reached shutdown_in_progress : Error
  rate_limit_exceeded invalid_input idempotency_conflict invalid_state_transition : Error
  unauthorized dispatch_unavailable webhook_endpoint_not_found : Error
  webhook_delivery_not_found workflow_not_found workflow_version_not_found : Error
  workflow_slug_conflict workflow_publish_conflict workflow_not_published : Error
  workflow_execution_not_found workflow_execution_terminal : Error
  workflow_execution_idempotency_conflict workflow_node_not_claimed : Error
  other : String → Error

pub data Result {ℓ} (A : Type ℓ) : Type ℓ where
  ok : A → Result A
  err : Error → Result A

pub Result-cases {ℓ} :
    {A : Type ℓ} (r : Result A) → ((e : Error) × (r ≡ err e)) ⊎ ((a : A) × (r ≡ ok a))
Result-cases (ok a) = inr (a, refl)
Result-cases (err e) = inl (e, refl)
