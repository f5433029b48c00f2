-- ===== src/ProviderChain/Fallback.antt =====
-- Which provider's review counts (src/services/reviewService.ts).
use dragnet.Prelude.{
  ℕ, suc, ◌+◌, ◌<◌, String, Bool, true, false, not, ◌&&◌, Option, none, some, List, [], ◌∷◌, ◌++◌,
  ◌==◌, ◌≡◌, refl, ap, ◌∙◌, arith, All, length, Bool-cases, inl, inr,
}
use dragnet.FailureClassifier.{is_abort_error, is_retryable_error}
use dragnet.ProviderChain.{
  ChatEntry, ProviderAttempt, AttemptTable, Ending, submitted, gave_up, threw, Conversation, Next,
  goes_on, stops, ChainEnd, ended, LlmResult, reviewed, next_of, final_after,
}
use dragnet.ProviderChain.Attempts.{IsNew, IsNew-Keeps, begin-new, attempt-Keeps, attempt-length}
use dragnet.ProviderChain.Loop.{
  ChainState, run_attempt, begin_attempt, run_chain, clamped_rating, chain_result, llm_review,
}

-- a conversation after which the next provider is tried: no review, or an error that may pass
abbrev pub is_passed_over : Ending → Bool
is_passed_over (submitted rating) = false
is_passed_over gave_up = true
is_passed_over (threw err) = not (is_abort_error (some err)) && is_retryable_error (some err)

next_of-goes_on :
    (ending : Ending) (name : String)
    → is_passed_over ending ≡ true
    → (final_after name ending none ≡ none)
      × (next_of ending (final_after name ending none) ≡ goes_on)
unfolding next_of
next_of-goes_on (submitted rating) name h = cc
next_of-goes_on gave_up name h = (refl, refl)
next_of-goes_on (threw err) name h = elim (Bool-cases (is_abort_error (some err))) [
  | inl abort ↦ cc (h, abort)
  | inr other ↦ (refl, ground (arith, h, other))
]

module _ (A : AttemptTable) (W : Type 0) (attempt_key : ℕ → String → String)
    (health_key : ChatEntry → String)
    (converse : ℕ → ChatEntry → List ProviderAttempt → W → Conversation × W) (clock : W → ℕ)
    (located : Bool) (threshold cooldown_ms : ℕ) (is_run : Bool)
    (apart : (i j : ℕ) (n m : String) → i < j → (attempt_key i n == attempt_key j m) ≡ false) where
  abbrev chain : A.Rows → ℕ → List ChatEntry → ChainState A W → ChainEnd × ChainState A W
  chain = run_chain A W attempt_key health_key converse clock located threshold cooldown_ms is_run

  abbrev begin : ℕ → ChatEntry → ChainState A W → Bool × ChainState A W
  begin =
      begin_attempt A W attempt_key health_key converse clock located threshold cooldown_ms is_run

  abbrev attempt : ℕ → ChatEntry → ChainState A W → Next × ChainState A W
  attempt =
      run_attempt A W attempt_key health_key converse clock located threshold cooldown_ms is_run

  abbrev Unstored : ℕ → List ChatEntry → A.Rows → Type 0
  Unstored =
      IsNew A W attempt_key health_key converse clock located threshold cooldown_ms is_run apart

  -- whatever was said before, the conversation with the provider ends so
  abbrev pub IsPassedOver : ChatEntry → Type 0
  IsPassedOver entry =
      (i : ℕ) (attempts : List ProviderAttempt) (w : W)
      → is_passed_over (converse i entry attempts w).0.ending ≡ true

  abbrev pub Submits : ChatEntry → Option ℕ → Type 0
  Submits entry rating =
      (i : ℕ) (attempts : List ProviderAttempt) (w : W)
      → (converse i entry attempts w).0.ending ≡ submitted rating

  attempt-passed :
      (i : ℕ) (entry : ChatEntry) (s : ChainState A W)
      → IsPassedOver entry
      → s.final ≡ none
      → ((attempt i entry s).0 ≡ goes_on) × ((attempt i entry s).1.final ≡ none)
  unfolding run_attempt
  attempt-passed i entry s passed fresh =
      let ending = (converse i entry s.attempts s.world).0.ending in
      let (final, next) = next_of-goes_on ending entry.name (passed i s.attempts s.world) in
      rw fresh (next, final)

  attempt-Submits :
      (i : ℕ) (entry : ChatEntry) (rating : Option ℕ) (s : ChainState A W)
      → Submits entry rating
      → ((attempt i entry s).0 ≡ stops)
        × ((attempt i entry s).1.final ≡ some (record { rating = rating; provider = entry.name }))
  unfolding run_attempt next_of
  attempt-Submits i entry rating s submits = rw (submits i s.attempts s.world) (refl, refl)

  chain-goes_on :
      (stored : A.Rows) (i : ℕ) (entry : ChatEntry) (entries : List ChatEntry) (s : ChainState A W)
      → (begin i entry s).0 ≡ true
      → (attempt i entry (begin i entry s).1).0 ≡ goes_on
      → chain stored i (entry ∷ entries) s
        ≡ chain stored (suc i) entries (attempt i entry (begin i entry s).1).1
  unfolding run_chain
  chain-goes_on stored i entry entries s due next = rw (due, next, run_chain) refl

  chain-stops :
      (stored : A.Rows) (i : ℕ) (entry : ChatEntry) (entries : List ChatEntry) (s : ChainState A W)
      → (begin i entry s).0 ≡ true
      → (attempt i entry (begin i entry s).1).0 ≡ stops
      → chain stored i (entry ∷ entries) s ≡ (ended, (attempt i entry (begin i entry s).1).1)
  unfolding run_chain
  chain-stops stored i entry entries s due next = rw (due, next, run_chain) refl

  -- the chain ended with this review after so many attempts
  abbrev pub EndsWith : Option ℕ → String → ℕ → ChainEnd × ChainState A W → Type 0
  EndsWith rating name count r =
      (r.0 ≡ ended)
      × (r.1.final ≡ some (record { rating = rating; provider = name }))
      × (length r.1.attempts ≡ count)

  chain-EndsWith :
      (stored : A.Rows) (passed : List ChatEntry) (entry : ChatEntry) (rest : List ChatEntry)
      (rating : Option ℕ) (i : ℕ) (s : ChainState A W)
      → Unstored i (passed ++ entry ∷ rest) s.rows
      → s.final ≡ none
      → All IsPassedOver passed
      → Submits entry rating
      → EndsWith rating entry.name
          (length s.attempts + length passed + 1)
          (chain stored i (passed ++ entry ∷ rest) s)
  chain-EndsWith stored [] entry rest rating i s new fresh passes submits =
      let (due, final, attempts, keeps) =
        begin-new A W attempt_key health_key converse clock located threshold cooldown_ms is_run
          apart i entry s new.0 in
      let begun = (begin i entry s).1 in
      let (next, review) = attempt-Submits i entry rating begun submits in
      rw (chain-stops stored i entry rest s due next) (
        refl,
        review,
        omega (
          arith,
          attempt-length A W attempt_key health_key converse clock located threshold cooldown_ms
              is_run apart i entry begun,
          ap length attempts,
        ),
      )
  chain-EndsWith stored (p ∷ passed) entry rest rating i s new fresh passes submits =
      let (due, final, attempts, keeps) =
        begin-new A W attempt_key health_key converse clock located threshold cooldown_ms is_run
          apart i p s new.0 in
      let begun = (begin i p s).1 in
      let after = (attempt i p begun).1 in
      let (next, none_yet) = attempt-passed i p begun passes.0 (final ∙ fresh) in
      let new_after : Unstored (suc i) (passed ++ entry ∷ rest) after.rows =
        IsNew-Keeps A W attempt_key health_key converse clock located threshold cooldown_ms is_run
          apart (passed ++ entry ∷ rest) i (suc i) s.rows after.rows (omega arith)
          (λ j n less.
            attempt-Keeps A W attempt_key health_key converse clock located threshold cooldown_ms
              is_run apart i p begun j n less
            ∙ keeps j n less)
          new.1 in
      let (end, review, count) =
        chain-EndsWith stored passed entry rest rating (suc i) after new_after none_yet passes.1
          submits in
      rw (chain-goes_on stored i p (passed ++ entry ∷ rest) s due next) (
        end,
        review,
        omega (
          arith,
          count,
          attempt-length A W attempt_key health_key converse clock located threshold cooldown_ms
              is_run apart i p begun,
          ap length attempts,
        ),
      )

  chain_result-review :
      (rating : Option ℕ) (name : String) (count : ℕ) (r : ChainEnd × ChainState A W)
      → EndsWith rating name count r
      → chain_result A W r.0 r.1 ≡ reviewed (clamped_rating rating)
  unfolding chain_result
  chain_result-review rating name count (end, s) (e, review, _) = rw (e, review, chain_result) refl

  abbrev pub review : List ChatEntry → ChainState A W → LlmResult × ChainState A W
  review = llm_review A W attempt_key health_key converse clock located threshold cooldown_ms is_run

  review-chain :
      (passed : List ChatEntry) (entry : ChatEntry) (rest : List ChatEntry) (s : ChainState A W)
      → let r = chain s.rows 0 (passed ++ entry ∷ rest) s in
        review (passed ++ entry ∷ rest) s ≡ (chain_result A W r.0 r.1, r.1)
  unfolding llm_review
  review-chain [] entry rest s = refl
  review-chain (p ∷ passed) entry rest s = refl

  -- Where no attempt of the run is stored yet, the keys of different places in the chain differ, every provider
  -- before one gives up or throws an error that may pass, and that one submits a review, the review of that
  -- provider is the result, its rating between 1 and 10 and 5 where it gives none; the providers after it are
  -- not tried.
  pub llm_review-fallback :
      (passed : List ChatEntry) (entry : ChatEntry) (rest : List ChatEntry) (rating : Option ℕ)
      (s : ChainState A W)
      → Unstored 0 (passed ++ entry ∷ rest) s.rows
      → s.final ≡ none
      → All IsPassedOver passed
      → Submits entry rating
      → let (result, after) = review (passed ++ entry ∷ rest) s in
        (result ≡ reviewed (clamped_rating rating))
        × (after.final ≡ some (record { rating = rating; provider = entry.name }))
        × (length after.attempts ≡ length s.attempts + length passed + 1)
  llm_review-fallback passed entry rest rating s new fresh passes submits =
      let r = chain s.rows 0 (passed ++ entry ∷ rest) s in
      let ends = chain-EndsWith s.rows passed entry rest rating 0 s new fresh passes submits in
      rw (review-chain passed entry rest s)
        (chain_result-review rating entry.name _ r ends, ends.1, ends.2)
