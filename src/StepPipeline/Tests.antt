-- ===== src/StepPipeline/Tests.antt =====
-- The theorems on pipelines at a concrete one.
use dragnet.Prelude.{ℕ, zero, suc, true, false, none, List, [], ◌∷◌, ◌≡◌, refl}
use dragnet.StepPipeline.{
  other_error, StepDefinition, Attempt, ok, err, findings, returns, throws, retry_loop, with_retry,
  run,
}
use dragnet.StepPipeline.Runs.{Ran, run-Ran}

-- The state counts the calls. The step throws on its first call and has the finding 7 on the second.
flaky : ℕ → Attempt ℕ × ℕ
flaky zero = (throws (other_error "ECONNRESET"), 1)
flaky (suc n) = (returns (ok (findings (7 ∷ []))), suc (suc n))

abbrev flaky_step : StepDefinition ℕ ℕ
flaky_step = record { name = "tier-1"; critical = false; max_retries = 2; fn = flaky }

abbrev failing_step : StepDefinition ℕ ℕ
failing_step = record {
  name = "llm";
  critical = true;
  max_retries = 0;
  fn = λ n.
      (returns (err (record { message = "no verdict"; is_infrastructure = false }) none), suc n);
}

abbrev steps : List (StepDefinition ℕ ℕ)
steps = flaky_step ∷ failing_step ∷ flaky_step ∷ []

pipeline_of_steps : (run steps 0).1 ≡ 3
unfolding run with_retry retry_loop flaky
pipeline_of_steps = refl

run-Ran_example : Ran [] [] steps 0 (run steps 0)
run-Ran_example = run-Ran steps 0
