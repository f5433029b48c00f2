-- ===== src/ProviderChain.antt =====
-- The chain of chat providers that reviews a pull request: the step "LLM review" of runPrScan in
-- src/services/reviewService.ts, with the attempts that src/services/durableScanState.ts stores. The conversation with
-- one provider is a parameter: it submits a review, gives up or throws, and takes and returns the state of the
-- world; a conversation does nothing after a review that could throw. So are the table of attempts, the clock,
-- and the keys of attempts and of health records. The cost of an attempt, a decimal fraction, is left out.
pub mod Loop
pub mod Attempts
pub mod Fallback
pub mod Breaker
pub mod Resumed
mod Tests
use dragnet.Prelude.{
  ℕ, suc, max, min, String, Bool, true, false, not, ◌&&◌, Option, none, some, get_or, List, [], ◌∷◌,
  ◌++◌, map, filter, leb, ◌==◌, is_some, if◌then◌else◌, ◌≡◌,
}
use dragnet.Prelude.Dict.{Dict}
use dragnet.FailureClassifier.{
  ProviderError, OutcomeClass, success, quality_failure, transport_failure, interrupted,
  unknown_failure, ClassifyInput, classify_provider_outcome, is_abort_error, is_retryable_error,
}
use dragnet.ProviderHealth.{Health, record_provider_quality_failure, record_provider_success}

pub record ChatEntry : Type 0 where
  pub name : String
  pub model : String
  pub endpoint : String
  pub max_iterations : ℕ

pub record ProviderAttempt : Type 0 where
  pub provider : String
  pub model : String
  pub iterations_used : ℕ
  pub max_iterations : ℕ
  pub submit_review_called : Bool
  pub rating : Option ℕ
  pub error : Option ProviderError
  pub outcome : OutcomeClass
  pub prompt_tokens : ℕ
  pub completion_tokens : ℕ

pub data AttemptStatus : Type 0 where
  running completed failed : AttemptStatus

-- a row of `reviewProviderAttempt`
pub record DurableAttempt : Type 0 where
  pub provider : String
  pub model : String
  pub status : AttemptStatus
  pub outcome : Option OutcomeClass
  pub error_message : Option String
  pub iterations_used : Option ℕ
  pub max_iterations : Option ℕ
  pub prompt_tokens : Option ℕ
  pub completion_tokens : Option ℕ

-- the attempts of one run, with the unique key of an attempt; a query that throws gives none
pub record AttemptTable : Type 1 where
  pub Rows : Type 0
  pub find_unique : String → Rows → Option DurableAttempt
  pub create : String → DurableAttempt → Rows → Option Rows
  pub update : String → (DurableAttempt → DurableAttempt) → Rows → Option Rows
  pub create-taken :
      (k : String) (new r : DurableAttempt) (t : Rows)
      → find_unique k t ≡ some r
      → create k new t ≡ none
  pub create-other :
      (k j : String) (new : DurableAttempt) (t t' : Rows)
      → create k new t ≡ some t'
      → (k == j) ≡ false
      → find_unique j t' ≡ find_unique j t
  pub update-other :
      (k j : String) (f : DurableAttempt → DurableAttempt) (t t' : Rows)
      → update k f t ≡ some t'
      → (k == j) ≡ false
      → find_unique j t' ≡ find_unique j t

-- how a conversation ends
pub data Ending : Type 0 where
  submitted : Option ℕ → Ending
  gave_up : Ending
  threw : ProviderError → Ending

pub record Conversation : Type 0 where
  pub ending : Ending
  pub iterations : ℕ
  pub malformed_streak : ℕ
  pub prompt_tokens : ℕ
  pub completion_tokens : ℕ

pub record FinalReview : Type 0 where
  pub rating : Option ℕ
  pub provider : String

pub data Next : Type 0 where
  goes_on stops : Next
  aborts : ProviderError → Next

pub data ChainEnd : Type 0 where
  ended : ChainEnd
  aborted : ProviderError → ChainEnd

-- what the step returns
pub data LlmResult : Type 0 where
  reviewed : ℕ → LlmResult
  unavailable : LlmResult
  providers_failed : String → LlmResult
  hard_fail : List String → LlmResult
  no_submit : String → LlmResult
  thrown : ProviderError → LlmResult

-- a worker that restarted leaves a row that says running
unfoldable pub recovered_provider_outcome : Option DurableAttempt → Option OutcomeClass
recovered_provider_outcome none = none
recovered_provider_outcome (some attempt) = elim attempt.outcome [
  | some outcome ↦ some outcome
  | none ↦ elim attempt.status [ running ↦ some interrupted | _ ↦ none ]
]

abbrev pub is_success : OutcomeClass → Bool
is_success success = true
is_success _ = false

abbrev pub is_quality_failure : OutcomeClass → Bool
is_quality_failure quality_failure = true
is_quality_failure _ = false

abbrev is_interrupted : OutcomeClass → Bool
is_interrupted interrupted = true
is_interrupted _ = false

-- `new Error(message)`
abbrev error_of : String → ProviderError
error_of message = record { status = none; code = ""; name = "Error"; message = message }

abbrev pub recovered_error : DurableAttempt → OutcomeClass → Option ProviderError
recovered_error row outcome =
    if not (get_or row.error_message "" == "")
    then some (error_of (get_or row.error_message ""))
    else if is_interrupted outcome
    then some (error_of "Provider attempt was left running by a previous worker.")
    else none

abbrev pub recovered_attempt : ChatEntry → DurableAttempt → OutcomeClass → ProviderAttempt
recovered_attempt entry row outcome = record {
  provider = row.provider;
  model = row.model;
  iterations_used = get_or row.iterations_used 0;
  max_iterations = get_or row.max_iterations entry.max_iterations;
  submit_review_called = is_success outcome;
  rating = none;
  error = recovered_error row outcome;
  outcome = outcome;
  prompt_tokens = get_or row.prompt_tokens 0;
  completion_tokens = get_or row.completion_tokens 0;
}

-- what is pushed for an attempt that is not run again
unfoldable pub push_recovered :
    ChatEntry → Option DurableAttempt → List ProviderAttempt → List ProviderAttempt
push_recovered entry none attempts = attempts
push_recovered entry (some row) attempts = elim (recovered_provider_outcome (some row)) [
  | none ↦ attempts
  | some outcome ↦ attempts ++ recovered_attempt entry row outcome ∷ []
]

abbrev pub error_thrown : Ending → Option ProviderError
error_thrown (submitted rating) = none
error_thrown gave_up = none
error_thrown (threw err) = some err

abbrev pub final_after : String → Ending → Option FinalReview → Option FinalReview
final_after name (submitted rating) final = some (record { rating = rating; provider = name })
final_after name gave_up final = final
final_after name (threw err) final = final

-- `finalReview !== null && finalReviewProvider === name`
abbrev pub is_final_by : String → Option FinalReview → Bool
is_final_by name none = false
is_final_by name (some final) = final.provider == name

abbrev pub rating_by : String → Option FinalReview → Option ℕ
rating_by name none = none
rating_by name (some final) = if final.provider == name then final.rating else none

unfoldable pub next_of : Ending → Option FinalReview → Next
next_of (submitted rating) final = stops
next_of gave_up final = if is_some final then stops else goes_on
next_of (threw err) final =
    if is_abort_error (some err)
    then aborts err
    else if not (is_retryable_error (some err))
    then stops
    else goes_on

abbrev pub is_good_rating : Option ℕ → Bool
is_good_rating none = false
is_good_rating (some rating) = leb 5 rating

-- the outcome and rating that `finally` finds
abbrev pub outcome_of : ChatEntry → Conversation → Option FinalReview → OutcomeClass
outcome_of entry conversation final = classify_provider_outcome (record {
  error = error_thrown conversation.ending;
  submit_review_called = is_final_by entry.name final;
  rating = rating_by entry.name final;
  iterations_used = conversation.iterations;
  max_iterations = entry.max_iterations;
  malformed_streak = conversation.malformed_streak;
  is_interrupted = false;
  refusal_detected = false;
  empty_findings = false;
})

abbrev pub live_attempt : ChatEntry → Conversation → Option FinalReview → ProviderAttempt
live_attempt entry conversation final = record {
  provider = entry.name;
  model = entry.model;
  iterations_used = conversation.iterations;
  max_iterations = entry.max_iterations;
  submit_review_called = is_final_by entry.name final;
  rating = rating_by entry.name final;
  error = error_thrown conversation.ending;
  outcome = outcome_of entry conversation final;
  prompt_tokens = conversation.prompt_tokens;
  completion_tokens = conversation.completion_tokens;
}
