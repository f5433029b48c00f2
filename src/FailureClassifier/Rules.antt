-- ===== src/FailureClassifier/Rules.antt =====
-- What each outcome of an attempt (src/lib/failureClassifier.ts) means.
use dragnet.Prelude.{
  Bool, true, false, ◌&&◌, ◌||◌, not, leb, is_some, if◌then◌else◌, ◌≡◌, refl, arith, Bool-cases,
  inl, inr,
}
use dragnet.FailureClassifier.{
  ClassifyInput, OutcomeClass, success, quality_failure, transport_failure, interrupted,
  unknown_failure, malformed_streak_threshold, is_retryable_error, is_abort_error,
  classify_provider_outcome,
}

-- the attempt ended without an error, and yet not as a review
abbrev pub is_misbehaved : ClassifyInput → Bool
is_misbehaved input =
    leb malformed_streak_threshold input.malformed_streak
    || not input.submit_review_called
    || input.refusal_detected
    || input.empty_findings

abbrev pub is_stopped : ClassifyInput → Bool
is_stopped input = input.is_interrupted || is_abort_error input.error

abbrev pub Means : ClassifyInput → OutcomeClass → Type 0
Means input interrupted = is_stopped input ≡ true
Means input transport_failure =
    (is_stopped input ≡ false)
    × (is_some input.error ≡ true)
    × (is_retryable_error input.error ≡ true)
Means input quality_failure =
    (is_stopped input ≡ false) × (is_some input.error ≡ false) × (is_misbehaved input ≡ true)
Means input success =
    (is_stopped input ≡ false)
    × (is_some input.error ≡ false)
    × (is_misbehaved input ≡ false)
    × (is_some input.rating ≡ true)
Means input unknown_failure =
    (is_stopped input ≡ false)
    × ((is_some input.error && not (is_retryable_error input.error)
          || not (is_some input.error) && not (is_misbehaved input) && not (is_some input.rating))
        ≡ true)

-- an attempt without an error
outcome_of_review :
    (input : ClassifyInput)
    → is_stopped input ≡ false
    → is_some input.error ≡ false
    → classify_provider_outcome input ≡ (
        if is_misbehaved input
        then quality_failure
        else if is_some input.rating
        then success
        else unknown_failure)
unfolding classify_provider_outcome
outcome_of_review input going fine = rw (going, fine, classify_provider_outcome) (ground arith)

-- Each outcome says why the attempt ended so: an interruption beats everything; an error that was thrown is a
-- transport failure exactly where it is retryable; a quality failure is an attempt without an error that was
-- not submitted, was refused or empty, or had three malformed calls in a row, whatever its rating is; and
-- every other attempt without an error is a success if it has a rating.
classify_provider_outcome-Means :
    (input : ClassifyInput) → Means input (classify_provider_outcome input)
unfolding classify_provider_outcome
classify_provider_outcome-Means input = elim (Bool-cases (is_stopped input)) [
  | inl stopped ↦ rw (stopped, classify_provider_outcome) stopped
  | inr going ↦ elim (Bool-cases (is_some input.error)) [
    | inl threw ↦ elim (Bool-cases (is_retryable_error input.error)) [
      | inl retryable ↦
          rw (going, threw, retryable, classify_provider_outcome) (going, threw, retryable)
      | inr lasting ↦
          rw (going, threw, lasting, classify_provider_outcome) (going, rw (threw, lasting) refl)
    ]
    | inr fine ↦ elim (Bool-cases (is_misbehaved input)) [
      | inl bad ↦ rw (outcome_of_review input going fine, bad) (going, fine, bad)
      | inr good ↦ elim (Bool-cases (is_some input.rating)) [
        | inl rated ↦
            rw (outcome_of_review input going fine, good, rated) (going, fine, good, rated)
        | inr unrated ↦
            rw (outcome_of_review input going fine, good, unrated)
              (going, rw (fine, good, unrated) refl)
      ]
    ]
  ]
]
