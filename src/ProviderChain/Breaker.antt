-- ===== src/ProviderChain/Breaker.antt =====
-- Whose circuit a review moves, and what a resumed run does with attempts that are stored
-- (src/services/reviewService.ts).
use dragnet.Prelude.{
  ℕ, suc, String, Bool, true, false, not, ◌&&◌, ◌||◌, ◌⊎◌, Option, none, some, List, [], ◌∷◌, ltb,
  leb, ◌==◌, ◌≡◌, refl, sym, subst, ap, ◌∙◌, arith, All, eq_refl, Bool-cases, inl, inr,
}
use dragnet.Prelude.Dict.{Dict, get, get-set}
use dragnet.FailureClassifier.{
  ProviderError, OutcomeClass, is_abort_error, is_retryable_error, classify_provider_outcome,
}
use dragnet.ProviderHealth.{Health, record_provider_quality_failure, record_provider_success}
use dragnet.ProviderChain.{
  ChatEntry, ProviderAttempt, AttemptTable, Ending, submitted, gave_up, threw, Conversation,
  FinalReview, Next, goes_on, stops, aborts, ChainEnd, LlmResult, final_after, is_success,
  is_quality_failure, is_good_rating, outcome_of, rating_by,
}
use dragnet.ProviderChain.Loop.{
  ChainState, record_outcome, run_attempt, skip_attempt, begin_attempt, run_chain, llm_review,
}

-- a conversation that says nothing of the provider as a reviewer: it threw, or its review has no good rating
abbrev pub is_spared_ending : ℕ → Ending → Bool
is_spared_ending malformed_streak (submitted rating) =
    ltb malformed_streak 3 && not (is_good_rating rating)
is_spared_ending malformed_streak gave_up = false
is_spared_ending malformed_streak (threw err) = true

abbrev pub is_spared : Conversation → Bool
is_spared talk = is_spared_ending talk.malformed_streak talk.ending

abbrev is_charged : OutcomeClass → Option ℕ → Bool
is_charged outcome rating =
    is_quality_failure outcome || (is_success outcome && is_good_rating rating)

spared-threw :
    (entry : ChatEntry) (talk : Conversation) (err : ProviderError) (final : Option FinalReview)
    (rating : Option ℕ)
    → talk.ending ≡ threw err
    → is_charged (outcome_of entry talk final) rating ≡ false
unfolding classify_provider_outcome
spared-threw entry talk err final rating e = elim (Bool-cases (is_abort_error (some err))) [
  | inl abort ↦ rw (e, abort, classify_provider_outcome) refl
  | inr other ↦ elim (Bool-cases (is_retryable_error (some err))) [
    | inl retryable ↦ rw (e, other, retryable, classify_provider_outcome) refl
    | inr lasting ↦ rw (e, other, lasting, classify_provider_outcome) refl
  ]
]

spared-submitted :
    (entry : ChatEntry) (talk : Conversation) (rating : Option ℕ)
    → talk.ending ≡ submitted rating
    → ltb talk.malformed_streak 3 ≡ true
    → is_good_rating rating ≡ false
    → is_charged
        (outcome_of entry talk (some (record { rating = rating; provider = entry.name })))
        rating
      ≡ false
unfolding classify_provider_outcome
spared-submitted entry talk none e few low =
    let formed : leb 3 talk.malformed_streak ≡ false = ground (arith, few) in
    rw (e, eq_refl entry.name, formed, classify_provider_outcome) refl
spared-submitted entry talk (some rating) e few low =
    let formed : leb 3 talk.malformed_streak ≡ false = ground (arith, few) in
    rw (e, eq_refl entry.name, formed, classify_provider_outcome, low) refl

spared-is_charged :
    (entry : ChatEntry) (talk : Conversation) (ending : Ending) (final : Option FinalReview)
    → talk.ending ≡ ending
    → is_spared talk ≡ true
    → let after = final_after entry.name talk.ending final in
      is_charged (outcome_of entry talk after) (rating_by entry.name after) ≡ false
spared-is_charged entry talk gave_up final e h =
    let spared : is_spared_ending talk.malformed_streak gave_up ≡ true =
      subst (λ x. is_spared_ending talk.malformed_streak x ≡ true) e h in
    cc spared
spared-is_charged entry talk (threw err) final e h =
    let after = final_after entry.name talk.ending final in
    spared-threw entry talk err after (rating_by entry.name after) e
spared-is_charged entry talk (submitted rating) final e h =
    let spared : is_spared_ending talk.malformed_streak (submitted rating) ≡ true =
      subst (λ x. is_spared_ending talk.malformed_streak x ≡ true) e h in
    let review : FinalReview = record { rating = rating; provider = entry.name } in
    let few : ltb talk.malformed_streak 3 ≡ true = ground (arith, spared) in
    let low : is_good_rating rating ≡ false = ground (arith, spared) in
    let rated : rating_by entry.name (some review) ≡ rating = rw (eq_refl entry.name) refl in
    let last : final_after entry.name talk.ending final ≡ some review = rw e refl in
    subst (λ a. is_charged (outcome_of entry talk a) (rating_by entry.name a) ≡ false) (sym last)
      (subst (λ x. is_charged (outcome_of entry talk (some review)) x ≡ false) (sym rated)
        (spared-submitted entry talk rating e few low))

Next-cases : (n : Next) → (n ≡ goes_on) ⊎ ((n ≡ stops) ⊎ ((err : ProviderError) × (n ≡ aborts err)))
Next-cases goes_on = inl refl
Next-cases stops = inr (inl refl)
Next-cases (aborts err) = inr (inr (err, refl))

module _ (A : AttemptTable) (W : Type 0) (attempt_key : ℕ → String → String)
    (health_key : ChatEntry → String)
    (converse : ℕ → ChatEntry → List ProviderAttempt → W → Conversation × W) (clock : W → ℕ)
    (located : Bool) (threshold cooldown_ms : ℕ) (is_run : Bool) where
  abbrev chain : A.Rows → ℕ → List ChatEntry → ChainState A W → ChainEnd × ChainState A W
  chain = run_chain A W attempt_key health_key converse clock located threshold cooldown_ms is_run

  abbrev begin : ℕ → ChatEntry → ChainState A W → Bool × ChainState A W
  begin =
      begin_attempt A W attempt_key health_key converse clock located threshold cooldown_ms is_run

  abbrev attempt : ℕ → ChatEntry → ChainState A W → Next × ChainState A W
  attempt =
      run_attempt A W attempt_key health_key converse clock located threshold cooldown_ms is_run

  abbrev pub review : List ChatEntry → ChainState A W → LlmResult × ChainState A W
  review = llm_review A W attempt_key health_key converse clock located threshold cooldown_ms is_run

  -- the provider has another circuit, or never says anything of itself as a reviewer
  abbrev pub Spares : String → ChatEntry → Type 0
  Spares key entry =
      ((health_key entry == key) ≡ false)
      ⊎ ((i : ℕ) (attempts : List ProviderAttempt) (w : W)
          → is_spared (converse i entry attempts w).0 ≡ true)

  abbrev record_health : ChatEntry → OutcomeClass → Option ℕ → ℕ → Dict Health → Dict Health
  record_health =
      record_outcome A W attempt_key health_key converse clock located threshold cooldown_ms is_run

  record_outcome-other :
      (entry : ChatEntry) (outcome : OutcomeClass) (rating : Option ℕ) (now : ℕ)
      (health : Dict Health) (key : String)
      → (health_key entry == key) ≡ false
      → get (record_health entry outcome rating now health) key ≡ get health key
  unfolding record_outcome record_provider_quality_failure record_provider_success
  record_outcome-other entry outcome rating now health key other =
      elim (Bool-cases (is_quality_failure outcome)) [
        | inl failed ↦ elim (Bool-cases located) [
          | inl here ↦ rw (failed, here, record_outcome, get-set, other) refl
          | inr nowhere ↦ rw (failed, nowhere, record_outcome) refl
        ]
        | inr fine ↦ elim (Bool-cases (is_success outcome && is_good_rating rating)) [
          | inl good ↦ elim (Bool-cases located) [
            | inl here ↦ rw (fine, good, here, record_outcome, get-set, other) refl
            | inr nowhere ↦ rw (fine, good, nowhere, record_outcome) refl
          ]
          | inr low ↦ rw (fine, low, record_outcome) refl
        ]
      ]

  record_outcome-uncharged :
      (entry : ChatEntry) (outcome : OutcomeClass) (rating : Option ℕ) (now : ℕ)
      (health : Dict Health)
      → is_charged outcome rating ≡ false
      → record_health entry outcome rating now health ≡ health
  unfolding record_outcome
  record_outcome-uncharged entry outcome rating now health free = ground (arith, free)

  attempt-Spares :
      (key : String) (i : ℕ) (entry : ChatEntry) (s : ChainState A W)
      → Spares key entry
      → get (attempt i entry s).1.health key ≡ get s.health key
  unfolding run_attempt
  attempt-Spares key i entry s (inl other) = record_outcome-other entry _ _ _ s.health key other
  attempt-Spares key i entry s (inr spared) =
      let talk = (converse i entry s.attempts s.world).0 in
      ap (λ h. get h key)
        (record_outcome-uncharged entry _ _ _ s.health
          (spared-is_charged entry talk talk.ending s.final refl (spared i s.attempts s.world)))

  begin-same :
      (i : ℕ) (entry : ChatEntry) (s : ChainState A W)
      → ((begin i entry s).1.health ≡ s.health)
        × ((begin i entry s).1.final ≡ s.final)
        × ((begin i entry s).1.world ≡ s.world)
  unfolding begin_attempt
  begin-same i entry s = elim (Bool-cases is_run) [
    | inl run ↦ rw (run, begin_attempt) (refl, refl, refl)
    | inr alone ↦ rw (alone, begin_attempt) (refl, refl, refl)
  ]

  chain-Spares :
      (key : String) (stored : A.Rows) (entries : List ChatEntry) (i : ℕ) (s : ChainState A W)
      → All (Spares key) entries
      → get (chain stored i entries s).1.health key ≡ get s.health key
  unfolding run_chain skip_attempt
  chain-Spares key stored [] i s spares = refl
  chain-Spares key stored (entry ∷ entries) i s spares =
      let begun = (begin i entry s).1 in
      let after = (attempt i entry begun).1 in
      let kept = ap (λ h. get h key) (begin-same i entry s).0 in
      let one : get after.health key ≡ get s.health key =
        attempt-Spares key i entry begun spares.0 ∙ kept in
      elim (Bool-cases (begin i entry s).0) [
        | inr stored_before ↦
            rw (stored_before, run_chain)
              (chain-Spares key stored entries (suc i)
                  (skip_attempt A W attempt_key health_key converse clock located threshold
                    cooldown_ms is_run stored i entry begun)
                  spares.1
                ∙ kept)
        | inl due ↦ elim (Next-cases (attempt i entry begun).0) [
          | inl on ↦
              rw (due, on, run_chain) (chain-Spares key stored entries (suc i) after spares.1 ∙ one)
          | inr (inl stop) ↦ rw (due, stop, run_chain) one
          | inr (inr (err, abort)) ↦ rw (due, abort, run_chain) one
        ]
      ]

  -- The circuit of a provider stays as it is, whatever its state, through a review in which each of its
  -- conversations, if it has any, throws or submits a review with no rating of 5 or more after fewer than three
  -- malformed calls in a row; other providers' conversations never move it.
  pub llm_review-Spares :
      (key : String) (entries : List ChatEntry) (s : ChainState A W)
      → All (Spares key) entries
      → get (review entries s).1.health key ≡ get s.health key
  unfolding llm_review
  llm_review-Spares key [] s spares = refl
  llm_review-Spares key (entry ∷ entries) s spares =
      chain-Spares key s.rows (entry ∷ entries) 0 s spares
