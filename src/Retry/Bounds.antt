-- ===== src/Retry/Bounds.antt =====
-- The backoff stays within the policy's cap, whatever the strategy.
use flowforge.Base.{
  ℕ, zero, suc, ◌*◌, ◌^◌, ◌≤◌, ◌<◌, ◌≡◌, inl, inr, false, arith, Bool-cases, String, int64_half,
  mul_int64_exact, lt_int64-eq-ltb, is_negative, if◌then◌else◌,
}
use flowforge.Retry.{Float64, RetryPolicy, backoff_from, next_backoff, strategy_backoff}

module _ (float : Float64) (policy : RetryPolicy float) where
  open float use {
    F, of_int64, gt, IsMeasure, of_int64-IsMeasure, of_int64-mono, times-IsMeasure, to_int64-le,
  }

  pub record IsSane : Type 0 where
    pub ordered : policy.initial_backoff ≤ policy.max_backoff
    pub exact : policy.max_backoff < 2 ^ 53
    pub measured : IsMeasure policy.backoff_multiplier

  backoff_from-le :
      IsSane
      → (rounds : ℕ) (x : F) → IsMeasure x
      → gt x (of_int64 policy.max_backoff) ≡ false
      → backoff_from float policy rounds x ≤ policy.max_backoff
  unfolding backoff_from
  backoff_from-le sane zero x m h = to_int64-le x policy.max_backoff sane.exact m h
  backoff_from-le sane (suc rounds) x m h =
      let next = float.times x policy.backoff_multiplier in
      elim (Bool-cases (gt next (of_int64 policy.max_backoff))) [
        | inl over ↦ rw over (omega arith)
        | inr under ↦ rw under (
            backoff_from-le sane rounds next
              (times-IsMeasure x policy.backoff_multiplier policy.max_backoff sane.exact m
                sane.measured under)
              under)
      ]

  -- For every strategy and attempt the delay before a retry is at most the policy's cap, when the
  -- first delay is, the cap is below 2 ^ 53 nanoseconds, the multiplier is finite and not
  -- negative, and attempts times the first delay does not pass int64.
  pub strategy_backoff-le :
      (strategy : String) (attempts : ℕ)
      → IsSane
      → attempts * policy.initial_backoff < int64_half
      → strategy_backoff float policy strategy attempts ≤ policy.max_backoff
  unfolding strategy_backoff next_backoff
  strategy_backoff-le strategy attempts sane h =
      let exponential =
        backoff_from-le sane (if is_negative attempts then 0 else attempts)
          (of_int64 policy.initial_backoff)
          (of_int64-IsMeasure policy.initial_backoff (omega (arith, sane.ordered, sane.exact)))
          (of_int64-mono policy.initial_backoff policy.max_backoff sane.ordered sane.exact) in
      ground (
        arith,
        exponential,
        sane.ordered,
        sane.exact,
        mul_int64_exact attempts policy.initial_backoff h,
        lt_int64-eq-ltb policy.max_backoff (attempts * policy.initial_backoff),
      )
