-- ===== src/Retry.antt =====
-- internal/domain/job.go: the retry policy, and its exponential backoff over float64.
pub mod Bounds
use flowforge.Base.{
  ℕ, zero, suc, ◌*◌, ◌^◌, ◌≤◌, ◌<◌, ◌≡◌, Bool, true, false, String, Duration, is_negative, lt_int64,
  mul_int64, if◌then◌else◌, str_eq, int64_half,
}

-- The float64 operations of the backoff, and what IEEE 754 says of them. A measure is a finite
-- number that is not negative; below 2 ^ 53 the integers are exact.
pub record Float64 : Type 1 where
  pub F : Type 0
  pub of_int64 : ℕ → F
  pub to_int64 : F → ℕ
  pub times : F → F → F
  pub gt : F → F → Bool
  pub IsMeasure : F → Type 0
  pub of_int64-IsMeasure : (n : ℕ) → n < 2 ^ 53 → IsMeasure (of_int64 n)
  pub of_int64-mono : (m n : ℕ) → m ≤ n → n < 2 ^ 53 → gt (of_int64 m) (of_int64 n) ≡ false
  pub times-IsMeasure :
      (x y : F) (n : ℕ)
      → n < 2 ^ 53
      → IsMeasure x
      → IsMeasure y
      → gt (times x y) (of_int64 n) ≡ false
      → IsMeasure (times x y)
  pub to_int64-le :
      (x : F) (n : ℕ) → n < 2 ^ 53 → IsMeasure x → gt x (of_int64 n) ≡ false → to_int64 x ≤ n

module _ (float : Float64) where
  open float use {F, of_int64, to_int64, times, gt}

  pub record RetryPolicy : Type 0 where
    pub max_attempts : ℕ
    pub initial_backoff : Duration
    pub max_backoff : Duration
    pub backoff_multiplier : F

  -- The loop, with the rounds that are left; the result of a round that passes the cap is the cap.
  unfoldable pub backoff_from : RetryPolicy → ℕ → F → Duration
  backoff_from policy zero backoff = to_int64 backoff
  backoff_from policy (suc rounds) backoff =
      let next = times backoff policy.backoff_multiplier in
      let rest = backoff_from policy rounds next in
      if gt next (of_int64 policy.max_backoff) then policy.max_backoff else rest

  unfoldable pub next_backoff : RetryPolicy → (attempt : ℕ) → Duration
  unfolding backoff_from
  next_backoff policy attempt =
      backoff_from policy (if is_negative attempt then 0 else attempt)
        (of_int64 policy.initial_backoff)

  -- Engine.nextBackoff in internal/engine/engine.go
  unfoldable pub strategy_backoff : RetryPolicy → String → (attempts : ℕ) → Duration
  strategy_backoff policy strategy attempts =
      let linear = mul_int64 attempts policy.initial_backoff in
      if str_eq strategy "fixed"
      then policy.initial_backoff
      else if str_eq strategy "linear"
      then (if lt_int64 policy.max_backoff linear then policy.max_backoff else linear)
      else next_backoff policy attempts
