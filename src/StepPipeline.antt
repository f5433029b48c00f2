-- ===== src/StepPipeline.antt =====
-- src/services/stepPipeline: steps that run one after the other, each with retries. What a step's
-- `fn` does to the rest of the program is a change of a state `W`; one call of it returns
-- a `StepResult` or throws. `F` is the type of a `DeterministicFinding`.
pub mod Retry
pub mod Runs
mod Tests
use dragnet.Prelude.{
  ℕ, zero, suc, ◌+◌, ltb, String, Bool, true, false, ◌&&◌, ◌||◌, Option, none, some, List, [], ◌∷◌,
  ◌++◌, if◌then◌else◌,
}

pub record StepError : Type 0 where
  pub message : String
  pub is_infrastructure : Bool

-- what `catch` may see: a `StepError`, or anything else with its message
pub data Thrown : Type 0 where
  step_error : StepError → Thrown
  other_error : String → Thrown

module _ (F : Type 0) where
  -- the data of a successful step, which is an array of findings or something else
  pub data StepData : Type 0 where
    findings : List F → StepData
    no_array : StepData

  pub data StepResult : Type 0 where
    ok : StepData → StepResult
    err : StepError → Option (List F) → StepResult

  pub data Attempt : Type 0 where
    returns : StepResult → Attempt
    throws : Thrown → Attempt

  pub record StepDefinition (W : Type 0) : Type 0 where
    pub name : String
    pub critical : Bool
    pub max_retries : ℕ
    pub fn : W → Attempt × W

  pub record PipelineStepResult : Type 0 where
    pub step_name : String
    pub result : StepResult

  pub record PipelineResult : Type 0 where
    pub aborted : Bool
    pub infrastructure_failure : Bool
    pub step_results : List PipelineStepResult
    pub findings : List F
    pub last_step_name : Option String

abbrev pub as_step_error : Thrown → StepError
as_step_error (step_error e) = e
as_step_error (other_error message) = record { message = message; is_infrastructure = true }

-- the error after the loop; its text, which also counts the attempts, is cut to the step's name
abbrev pub exhausted_error : String → StepError
exhausted_error name = record { message = name; is_infrastructure = true }

module _ {F : Type 0} where
  -- does an attempt that is not the last one lead to another?
  abbrev pub is_retryable : Attempt F → Bool
  is_retryable (returns (ok data_)) = false
  is_retryable (returns (err e fs)) = e.is_infrastructure
  is_retryable (throws t) = true

  -- the result if no other attempt follows
  abbrev pub settle : Attempt F → StepResult F
  settle (returns r) = r
  settle (throws t) = err (as_step_error t) none

  abbrev pub findings_of : StepResult F → List F
  findings_of (ok (findings fs)) = fs
  findings_of (ok no_array) = []
  findings_of (err e (some fs)) = fs
  findings_of (err e none) = []

  abbrev pub is_infrastructure_failure : StepResult F → Bool
  is_infrastructure_failure (ok data_) = false
  is_infrastructure_failure (err e fs) = e.is_infrastructure

module _ {F W : Type 0} where
  -- The loop of `withRetry`, with the attempts left; `exhausted` is what stands after the loop. The
  -- callback `onRetry`, which only reports, is left out.
  unfoldable pub retry_loop : ℕ → StepError → (W → Attempt F × W) → W → StepResult F × W
  retry_loop zero exhausted fn w = (err exhausted none, w)
  retry_loop (suc left) exhausted fn w =
      let (attempt, w') = fn w in
      elim (is_retryable attempt && ltb 0 left) [
        | true ↦ retry_loop left exhausted fn w'
        | false ↦ (settle attempt, w')
      ]

  unfoldable pub with_retry : StepDefinition F W → W → StepResult F × W
  with_retry step w = retry_loop (suc step.max_retries) (exhausted_error step.name) step.fn w

  abbrev pub should_abort : StepDefinition F W → StepResult F → Bool
  should_abort step (ok data_) = false
  should_abort step (err e fs) = e.is_infrastructure || step.critical

  -- the loop of `run`, with what the rounds before have collected
  unfoldable pub run_from :
      List (StepDefinition F W) → List (PipelineStepResult F) → List F → W → PipelineResult F × W
  run_from [] results found w = (
    record {
      aborted = false;
      infrastructure_failure = false;
      step_results = results;
      findings = found;
      last_step_name = none;
    },
    w,
  )
  run_from (step ∷ steps) results found w =
      let (result, w') = with_retry step w in
      let results' = results ++ record { step_name = step.name; result = result } ∷ [] in
      let found' = found ++ findings_of result in
      elim (should_abort step result) [
        | true ↦ (
          record {
            aborted = true;
            infrastructure_failure = is_infrastructure_failure result;
            step_results = results';
            findings = found';
            last_step_name = some step.name;
          },
          w',
        )
        | false ↦ run_from steps results' found' w'
      ]

  unfoldable pub run : List (StepDefinition F W) → W → PipelineResult F × W
  unfolding run_from
  run steps w = run_from steps [] [] w
