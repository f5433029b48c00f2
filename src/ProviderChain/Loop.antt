-- ===== src/ProviderChain/Loop.antt =====
-- The loop over the chain of providers: the step "LLM review" of runPrScan (src/services/reviewService.ts), and
-- beginProviderAttempt and completeProviderAttempt of src/services/durableScanState.ts. The gate that skips
-- trivial diffs, the stored artifact and the log are left out.
use dragnet.Prelude.{
  ℕ, suc, max, min, String, Bool, true, false, not, ◌&&◌, Option, none, some, get_or, List, [], ◌∷◌,
  ◌++◌, is_some, if◌then◌else◌,
}
use dragnet.Prelude.Dict.{Dict}
use dragnet.FailureClassifier.{ProviderError, OutcomeClass}
use dragnet.ProviderHealth.{Health, record_provider_quality_failure, record_provider_success}
use dragnet.ProviderChain.{
  ChatEntry, ProviderAttempt, running, completed, failed, DurableAttempt, AttemptTable,
  Conversation, FinalReview, Next, goes_on, stops, aborts, ChainEnd, ended, aborted, LlmResult,
  reviewed, unavailable, providers_failed, hard_fail, no_submit, thrown, is_success,
  is_quality_failure, push_recovered, error_thrown, final_after, next_of, is_good_rating,
  live_attempt,
}

-- the row that `beginProviderAttempt` creates
abbrev pub started_row : ChatEntry → DurableAttempt
started_row entry = record {
  provider = entry.name;
  model = entry.model;
  status = running;
  outcome = none;
  error_message = none;
  iterations_used = none;
  max_iterations = some entry.max_iterations;
  prompt_tokens = none;
  completion_tokens = none;
}

-- the data that `completeProviderAttempt` writes
abbrev pub ended_row : ProviderAttempt → DurableAttempt → DurableAttempt
ended_row attempt row = record row {
  status = if is_success attempt.outcome then completed else failed;
  outcome = some attempt.outcome;
  error_message = elim attempt.error [ none ↦ none | some err ↦ some err.message ];
  iterations_used = some attempt.iterations_used;
  max_iterations = some attempt.max_iterations;
  prompt_tokens = some attempt.prompt_tokens;
  completion_tokens = some attempt.completion_tokens;
}

-- `Math.max(1, Math.min(10, rating ?? 5))`
abbrev pub clamped_rating : Option ℕ → ℕ
clamped_rating rating = max 1 (min 10 (get_or rating 5))

abbrev pub failed_providers : List ProviderAttempt → List String
failed_providers [] = []
failed_providers (attempt ∷ attempts) =
    let rest = failed_providers attempts in
    if is_quality_failure attempt.outcome then attempt.provider ∷ rest else rest

unfoldable pub hard_fail_result : List String → Option String → LlmResult
hard_fail_result [] model = no_submit (get_or model "")
hard_fail_result (name ∷ names) model = hard_fail (name ∷ names)

module _ (A : AttemptTable) where
  -- true where the attempt is to be run: a row that cannot be created counts as run only where it exists
  unfoldable pub begin_provider_attempt : String → ChatEntry → A.Rows → Bool × A.Rows
  begin_provider_attempt key entry rows = elim (A.create key (started_row entry) rows) [
    | some rows' ↦ (true, rows')
    | none ↦ (not (is_some (A.find_unique key rows)), rows)
  ]

  -- a write that fails is swallowed
  unfoldable pub complete_provider_attempt : String → ProviderAttempt → A.Rows → A.Rows
  complete_provider_attempt key attempt rows = get_or (A.update key (ended_row attempt) rows) rows

  module _ (W : Type 0) where
    pub record ChainState : Type 0 where
      pub final : Option FinalReview
      pub used_model : Option String
      pub agentic_error : Option ProviderError
      pub attempts : List ProviderAttempt
      pub health : Dict Health
      pub rows : A.Rows
      pub world : W

    unfoldable pub chain_result : ChainEnd → ChainState → LlmResult
    chain_result (aborted err) s = thrown err
    chain_result ended s = elim s.final [
      | some final ↦ reviewed (clamped_rating final.rating)
      | none ↦ elim s.agentic_error [
        | some err ↦ providers_failed err.message
        | none ↦ hard_fail_result (failed_providers s.attempts) s.used_model
      ]
    ]

    module _ (attempt_key : ℕ → String → String) (health_key : ChatEntry → String)
        (converse : ℕ → ChatEntry → List ProviderAttempt → W → Conversation × W) (clock : W → ℕ)
        (located : Bool) (threshold cooldown_ms : ℕ) (is_run : Bool) where
      unfoldable pub record_outcome :
          ChatEntry → OutcomeClass → Option ℕ → ℕ → Dict Health → Dict Health
      record_outcome entry outcome rating now health =
          if is_quality_failure outcome
          then record_provider_quality_failure located (health_key entry) (some entry.name) now
              threshold cooldown_ms health
          else if is_success outcome && is_good_rating rating
          then record_provider_success located (health_key entry) (some entry.name) now health
          else health

      -- the attempt is run: the conversation, and what `catch` and `finally` make of its end
      unfoldable pub run_attempt : ℕ → ChatEntry → ChainState → Next × ChainState
      run_attempt index entry s =
          let (conversation, world) = converse index entry s.attempts s.world in
          let final = final_after entry.name conversation.ending s.final in
          let attempt = live_attempt entry conversation final in
          (
            next_of conversation.ending final,
            record {
              final = final;
              used_model = some entry.model;
              agentic_error = elim (error_thrown conversation.ending) [
                | none ↦ s.agentic_error
                | some err ↦ some err
              ];
              attempts = s.attempts ++ attempt ∷ [];
              health = record_outcome entry attempt.outcome attempt.rating (clock world) s.health;
              rows =
                  if is_run
                  then complete_provider_attempt (attempt_key index entry.name) attempt s.rows
                  else s.rows;
              world = world;
            },
          )

      -- `stored` are the rows as they were read before the loop
      unfoldable pub skip_attempt : A.Rows → ℕ → ChatEntry → ChainState → ChainState
      skip_attempt stored index entry s = record s {
        used_model = some entry.model;
        attempts =
            push_recovered entry (A.find_unique (attempt_key index entry.name) stored) s.attempts;
      }

      unfoldable pub begin_attempt : ℕ → ChatEntry → ChainState → Bool × ChainState
      begin_attempt index entry s =
          if is_run
          then (let (is_due, rows) =
                begin_provider_attempt (attempt_key index entry.name) entry s.rows in
              (is_due, record s { rows = rows }))
          else (true, s)

      unfoldable pub run_chain : A.Rows → ℕ → List ChatEntry → ChainState → ChainEnd × ChainState
      run_chain stored index [] s = (ended, s)
      run_chain stored index (entry ∷ entries) s =
          let (is_due, begun) = begin_attempt index entry s in
          elim is_due [
            | false ↦ run_chain stored (suc index) entries (skip_attempt stored index entry begun)
            | true ↦
                let (next, after) = run_attempt index entry begun in
                elim next [
                  | goes_on ↦ run_chain stored (suc index) entries after
                  | stops ↦ (ended, after)
                  | aborts err ↦ (aborted err, after)
                ]
          ]

      unfoldable pub llm_review : List ChatEntry → ChainState → LlmResult × ChainState
      llm_review [] s = (unavailable, s)
      llm_review (entry ∷ entries) s =
          let (end, after) = run_chain s.rows 0 (entry ∷ entries) s in
          (chain_result end after, after)
