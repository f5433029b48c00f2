-- ===== src/FailureClassifier/Tests.antt =====
-- Errors of providers, and an attempt that was refused.
use dragnet.Prelude.{ℕ, String, true, false, Option, none, some, ◌≡◌, refl}
use dragnet.Prelude.Text.{lower_case}
use dragnet.Prelude.Dict.{has}
use dragnet.FailureClassifier.{
  ProviderError, ClassifyInput, quality_failure, is_retryable_error, classify_provider_outcome,
}

abbrev error : Option ℕ → String → String → ProviderError
error status code message = record {
  status = status;
  code = code;
  name = "Error";
  message = message;
}

closed_by_peer : is_retryable_error (some (error none "" "Error: Connection reset by peer")) ≡ true
unfolding is_retryable_error lower_case has
closed_by_peer = refl

inside_a_word : is_retryable_error (some (error none "" "unsocketed")) ≡ false
unfolding is_retryable_error lower_case has
inside_a_word = refl

status_first : is_retryable_error (some (error (some 400) "ECONNRESET" "timeout")) ≡ false
unfolding is_retryable_error
status_first = refl

by_code : is_retryable_error (some (error none "ETIMEDOUT" "")) ≡ true
unfolding is_retryable_error has
by_code = refl

-- a rating of 9 does not save an attempt with malformed calls
abbrev malformed : ClassifyInput
malformed = record {
  error = none;
  submit_review_called = true;
  rating = some 9;
  iterations_used = 4;
  max_iterations = 8;
  malformed_streak = 3;
  is_interrupted = false;
  refusal_detected = false;
  empty_findings = false;
}

malformed_fails : classify_provider_outcome malformed ≡ quality_failure
unfolding classify_provider_outcome
malformed_fails = refl
