-- ===== src/Delivery/Backoff.antt =====
-- The backoff of a delivery doubles without overflow up to its cap.
use flowforge.Base.{
  ℕ, zero, suc, ◌/◌, ◌-◌, ◌*◌, ◌^◌, ◌≤◌, ◌<◌, ◌≡◌, ◌∙◌, ap, inl, inr, arith, Bool-cases, leb, ltb,
  if◌then◌else◌, div_int64, int64_half, lt_int64-eq-ltb, mul_int64_exact,
}
use flowforge.Delivery.Worker.{WebhookDeliveryWorker, capped, backoff_loop, backoff}

abbrev pub least : ℕ → ℕ → ℕ
least a b = if leb a b then a else b

div_int64_half : (a : ℕ) → a < int64_half → div_int64 a 2 ≡ a / 2
unfolding div_int64
div_int64_half a h = ground arith

pow_pos : (n : ℕ) → 1 ≤ 2 ^ n
pow_pos zero = omega arith
pow_pos (suc n) = omega (arith, pow_pos n)

grows : (b n : ℕ) → b ≤ b * 2 ^ n
grows b n = grind (arith, pow_pos n)

step : (b n : ℕ) → b * 2 * 2 ^ n ≡ b * 2 ^ suc n
step b n = grind arith

module _ (worker : WebhookDeliveryWorker) (small : worker.max_backoff < int64_half) where
  capped-least : (b : ℕ) → b < int64_half → capped worker b ≡ least b worker.max_backoff
  unfolding capped
  capped-least b h = ground (arith, lt_int64-eq-ltb worker.max_backoff b small h)

  past_cap :
      (b n : ℕ)
      → worker.max_backoff ≤ b
      → least b worker.max_backoff ≡ least (b * 2 ^ n) worker.max_backoff
  past_cap b n h = ground (arith, grows b n)

  doubled_past_cap :
      (b n : ℕ)
      → worker.max_backoff / 2 < b
      → worker.max_backoff ≡ least (b * 2 ^ suc n) worker.max_backoff
  doubled_past_cap b n h = ground (arith, step b n, grows (b * 2) n)

  backoff_loop-least :
      (rounds b : ℕ)
      → b < int64_half
      → backoff_loop worker rounds b ≡ least (b * 2 ^ rounds) worker.max_backoff
  unfolding backoff_loop
  backoff_loop-least zero b h = ground (arith, capped-least b h)
  backoff_loop-least (suc n) b h =
      let under = lt_int64-eq-ltb b worker.max_backoff h small in
      let half = div_int64_half worker.max_backoff small in
      let over = lt_int64-eq-ltb (worker.max_backoff / 2) b (omega (arith, small)) h in
      elim (Bool-cases (ltb b worker.max_backoff)) [
        | inr e ↦ rw (under, e, capped-least b h) (past_cap b (suc n) (ground arith))
        | inl e ↦ elim (Bool-cases (ltb (worker.max_backoff / 2) b)) [
          | inl o ↦ rw (under, e, half, over, o) (doubled_past_cap b n (ground arith))
          | inr o ↦
              rw (under, e, half, over, o, mul_int64_exact b 2 (ground arith))
                (backoff_loop-least n (b * 2) (ground arith)
                  ∙ ap (λ x. least x worker.max_backoff) (step b n))
        ]
      ]

  -- The delay before the next attempt is the initial delay doubled for each attempt after the
  -- first, or the cap where that is smaller, for every number of attempts, when both delays fit
  -- in an int64: nothing overflows.
  pub backoff-least :
      (attempt : ℕ)
      → worker.initial_backoff < int64_half
      → backoff worker attempt
        ≡ least (worker.initial_backoff * 2 ^ (attempt - 1)) worker.max_backoff
  unfolding backoff
  backoff-least attempt h = backoff_loop-least (attempt - 1) worker.initial_backoff h
