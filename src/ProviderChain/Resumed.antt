-- ===== src/ProviderChain/Resumed.antt =====
-- A review that is resumed after all its attempts were stored (src/services/reviewService.ts).
use dragnet.Prelude.{
  ℕ, suc, String, Bool, true, false, Option, none, some, List, [], ◌∷◌, ◌≡◌, refl, ap, ◌∙◌,
  Option-cases, inl, inr,
}
use dragnet.ProviderChain.{
  ChatEntry, ProviderAttempt, DurableAttempt, AttemptTable, Conversation, ChainEnd, ended,
  LlmResult, reviewed,
}
use dragnet.ProviderChain.Loop.{
  started_row, begin_provider_attempt, ChainState, skip_attempt, begin_attempt, run_chain,
  chain_result, hard_fail_result, llm_review, failed_providers,
}

abbrev pub is_reviewed : LlmResult → Bool
is_reviewed (reviewed rating) = true
is_reviewed _ = false

hard_fail_result-no_review :
    (names : List String) (model : Option String)
    → is_reviewed (hard_fail_result names model) ≡ false
unfolding hard_fail_result
hard_fail_result-no_review [] model = refl
hard_fail_result-no_review (name ∷ names) model = refl

module _ (A : AttemptTable) (W : Type 0) (attempt_key : ℕ → String → String)
    (health_key : ChatEntry → String)
    (converse : ℕ → ChatEntry → List ProviderAttempt → W → Conversation × W) (clock : W → ℕ)
    (located : Bool) (threshold cooldown_ms : ℕ) where
  abbrev chain : A.Rows → ℕ → List ChatEntry → ChainState A W → ChainEnd × ChainState A W
  chain = run_chain A W attempt_key health_key converse clock located threshold cooldown_ms true

  abbrev begin : ℕ → ChatEntry → ChainState A W → Bool × ChainState A W
  begin = begin_attempt A W attempt_key health_key converse clock located threshold cooldown_ms true

  abbrev skip : A.Rows → ℕ → ChatEntry → ChainState A W → ChainState A W
  skip = skip_attempt A W attempt_key health_key converse clock located threshold cooldown_ms true

  abbrev pub review : List ChatEntry → ChainState A W → LlmResult × ChainState A W
  review = llm_review A W attempt_key health_key converse clock located threshold cooldown_ms true

  -- each attempt of the chain has a row, with whatever outcome
  abbrev pub AllStored : ℕ → List ChatEntry → A.Rows → Type 0
  AllStored i [] rows = Unit
  AllStored i (entry ∷ entries) rows =
      ((row : DurableAttempt) × (A.find_unique (attempt_key i entry.name) rows ≡ some row))
      × AllStored (suc i) entries rows

  begin-stored :
      (i : ℕ) (entry : ChatEntry) (row : DurableAttempt) (s : ChainState A W)
      → A.find_unique (attempt_key i entry.name) s.rows ≡ some row
      → begin i entry s ≡ (false, s)
  unfolding begin_attempt begin_provider_attempt
  begin-stored i entry row s hit =
      rw
        (
          A.create-taken (attempt_key i entry.name) (started_row entry) row s.rows hit,
          begin_attempt,
          begin_provider_attempt,
          hit,
        )
        refl

  chain-skips :
      (stored : A.Rows) (i : ℕ) (entry : ChatEntry) (entries : List ChatEntry) (s : ChainState A W)
      → begin i entry s ≡ (false, s)
      → chain stored i (entry ∷ entries) s ≡ chain stored (suc i) entries (skip stored i entry s)
  unfolding run_chain
  chain-skips stored i entry entries s e =
      let due : (begin i entry s).0 ≡ false = ap (λ (b : Bool × ChainState A W). b.0) e in
      rw (due, run_chain)
        (ap (λ (b : Bool × ChainState A W). chain stored (suc i) entries (skip stored i entry b.1))
          e)

  -- nothing happened but that attempts were pushed
  abbrev Idle : ChainState A W → ChainEnd × ChainState A W → Type 0
  Idle s r =
      (r.0 ≡ ended)
      × (r.1.final ≡ s.final)
      × (r.1.agentic_error ≡ s.agentic_error)
      × (r.1.world ≡ s.world)
      × (r.1.health ≡ s.health)

  chain-Idle :
      (stored : A.Rows) (entries : List ChatEntry) (i : ℕ) (s : ChainState A W)
      → AllStored i entries s.rows
      → Idle s (chain stored i entries s)
  unfolding run_chain skip_attempt
  chain-Idle stored [] i s all = (refl, refl, refl, refl, refl)
  chain-Idle stored (entry ∷ entries) i s all =
      rw (chain-skips stored i entry entries s (begin-stored i entry all.0.0 s all.0.1))
        (chain-Idle stored entries (suc i) (skip stored i entry s) all.1)

  chain_result-no_review :
      (r : ChainEnd × ChainState A W)
      → r.0 ≡ ended
      → r.1.final ≡ none
      → is_reviewed (chain_result A W r.0 r.1) ≡ false
  unfolding chain_result
  chain_result-no_review (end, s) e empty = elim (Option-cases s.agentic_error) [
    | inl fine ↦
        rw (e, empty, fine, chain_result)
          (hard_fail_result-no_review (failed_providers s.attempts) s.used_model)
    | inr (err, failed) ↦ rw (e, empty, failed, chain_result) refl
  ]

  -- A run of which each attempt in the chain is stored, also where one of them is stored as a success, comes to
  -- no review: no provider is asked again, no circuit moves, and the step fails.
  pub llm_review-stored :
      (entries : List ChatEntry) (s : ChainState A W)
      → AllStored 0 entries s.rows
      → s.final ≡ none
      → let (result, after) = review entries s in
        (is_reviewed result ≡ false) × (after.world ≡ s.world) × (after.health ≡ s.health)
  unfolding llm_review
  llm_review-stored [] s all empty = (refl, refl, refl)
  llm_review-stored (entry ∷ entries) s all empty =
      let (end, final, error, world, health) = chain-Idle s.rows (entry ∷ entries) 0 s all in
      (
        chain_result-no_review (chain s.rows 0 (entry ∷ entries) s) end (final ∙ empty),
        world,
        health,
      )
