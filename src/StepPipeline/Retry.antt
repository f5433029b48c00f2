-- ===== src/StepPipeline/Retry.antt =====
-- How often `withRetry` calls a step, and which attempt it returns.
use dragnet.Prelude.{ℕ, zero, suc, ◌≤◌, ◌<◌, true, false, ◌≡◌, subst, arith, Bool-cases, inl, inr}
use dragnet.StepPipeline.{
  StepError, Attempt, StepResult, StepDefinition, is_retryable, settle, retry_loop, exhausted_error,
  with_retry,
}

module _ {F W : Type 0} (fn : W → Attempt F × W) where
  -- the state after so many attempts
  abbrev pub after : ℕ → W → W
  after zero w = w
  after (suc n) w = after n (fn w).1

  -- The attempt with this number, from 0.
  abbrev pub attempt : ℕ → W → Attempt F
  attempt n w = (fn (after n w)).0

  -- `k` attempts lead to another one, and the next attempt is the last.
  pub record IsLast (left k : ℕ) (w : W) (r : StepResult F × W) : Type 0 where
    pub within : k ≤ left
    pub retried : (i : ℕ) → i < k → is_retryable (attempt i w) ≡ true
    pub stops : k < left → is_retryable (attempt k w) ≡ false
    pub result : r ≡ (settle (attempt k w), after (suc k) w)

  stops_at_once :
      (left : ℕ) (w : W) (r : StepResult F × W)
      → (0 < left → is_retryable (attempt 0 w) ≡ false)
      → r ≡ (settle (attempt 0 w), after 1 w)
      → IsLast left 0 w r
  stops_at_once left w r final e = record {
    within = omega arith;
    retried = λ i h. absurd (omega arith);
    stops = final;
    result = e;
  }

  one_more :
      (left k : ℕ) (w : W) (r : StepResult F × W)
      → is_retryable (attempt 0 w) ≡ true
      → IsLast left k (fn w).1 r
      → IsLast (suc left) (suc k) w r
  one_more left k w r again l = record {
    within = omega (arith, l.within);
    retried = elim [ zero ↦ λ h. again | suc i ↦ λ h. l.retried i (omega arith) ];
    stops = λ h. l.stops (omega arith);
    result = l.result;
  }

  retry_loop-IsLast :
      (left : ℕ) (e : StepError) (w : W) → (k : ℕ) × IsLast left k w (retry_loop (suc left) e fn w)
  unfolding retry_loop
  retry_loop-IsLast zero e w =
      (0, stops_at_once zero w _ (λ h. absurd (omega arith)) (ground arith))
  retry_loop-IsLast (suc left) e w = elim (Bool-cases (is_retryable (fn w).0)) [
    | inr stop ↦ (0, stops_at_once (suc left) w _ (λ h. stop) (ground arith))
    | inl again ↦
        let (k, l) = retry_loop-IsLast left e (fn w).1 in
        (suc k, subst (IsLast (suc left) (suc k) w) (ground arith) (one_more left k w _ again l))
  ]

-- A step is called at most `max_retries + 1` times, and the result is that of the last call, never
-- the error that stands after the loop: every call before it threw or reported an infrastructure
-- error, and a call that neither threw nor reported one is the last.
with_retry-IsLast :
    {F W : Type 0} (step : StepDefinition F W) (w : W)
    → (k : ℕ) × IsLast step.fn step.max_retries k w (with_retry step w)
unfolding with_retry
with_retry-IsLast step w = retry_loop-IsLast step.fn step.max_retries (exhausted_error step.name) w
