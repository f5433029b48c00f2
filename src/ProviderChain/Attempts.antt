-- ===== src/ProviderChain/Attempts.antt =====
-- One attempt of the chain of providers and the rows it leaves alone (src/services/reviewService.ts).
use dragnet.Prelude.{
  ℕ, suc, ◌+◌, ◌<◌, String, Bool, true, false, none, List, [], ◌∷◌, ◌==◌, ◌≡◌, refl, ◌∙◌, arith,
  length, length-append, Bool-cases, Option-cases, inl, inr,
}
use dragnet.ProviderChain.{
  ChatEntry, ProviderAttempt, AttemptTable, Conversation, Next, final_after, live_attempt,
}
use dragnet.ProviderChain.Loop.{
  started_row, ended_row, begin_provider_attempt, complete_provider_attempt, ChainState,
  run_attempt, begin_attempt,
}

module _ (A : AttemptTable) (W : Type 0) (attempt_key : ℕ → String → String)
    (health_key : ChatEntry → String)
    (converse : ℕ → ChatEntry → List ProviderAttempt → W → Conversation × W) (clock : W → ℕ)
    (located : Bool) (threshold cooldown_ms : ℕ) (is_run : Bool)
    (apart : (i j : ℕ) (n m : String) → i < j → (attempt_key i n == attempt_key j m) ≡ false) where
  abbrev begin : ℕ → ChatEntry → ChainState A W → Bool × ChainState A W
  begin =
      begin_attempt A W attempt_key health_key converse clock located threshold cooldown_ms is_run

  abbrev attempt : ℕ → ChatEntry → ChainState A W → Next × ChainState A W
  attempt =
      run_attempt A W attempt_key health_key converse clock located threshold cooldown_ms is_run

  -- no attempt of the chain is stored yet
  abbrev pub IsNew : ℕ → List ChatEntry → A.Rows → Type 0
  IsNew i [] rows = Unit
  IsNew i (entry ∷ entries) rows =
      (A.find_unique (attempt_key i entry.name) rows ≡ none) × IsNew (suc i) entries rows

  -- rows with later keys are as they were
  abbrev pub Keeps : ℕ → A.Rows → A.Rows → Type 0
  Keeps i before after =
      (j : ℕ) (n : String)
      → i < j
      → A.find_unique (attempt_key j n) after ≡ A.find_unique (attempt_key j n) before

  pub IsNew-Keeps :
      (entries : List ChatEntry) (i j : ℕ) (before after : A.Rows)
      → i < j
      → Keeps i before after
      → IsNew j entries before
      → IsNew j entries after
  IsNew-Keeps [] i j before after less keeps new = tt
  IsNew-Keeps (entry ∷ entries) i j before after less keeps new = (
    keeps j entry.name less ∙ new.0,
    IsNew-Keeps entries i (suc j) before after (omega (arith, less)) keeps new.1,
  )

  begin_provider_attempt-new :
      (i : ℕ) (entry : ChatEntry) (rows : A.Rows)
      → A.find_unique (attempt_key i entry.name) rows ≡ none
      → let begun = begin_provider_attempt A (attempt_key i entry.name) entry rows in
        (begun.0 ≡ true) × Keeps i rows begun.1
  unfolding begin_provider_attempt
  begin_provider_attempt-new i entry rows new =
      elim (Option-cases (A.create (attempt_key i entry.name) (started_row entry) rows)) [
        | inl fails ↦ rw (fails, begin_provider_attempt, new) (refl, λ j n less. refl)
        | inr (rows', created) ↦
            rw (created, begin_provider_attempt)
              (
                refl,
                λ j n less.
                    A.create-other (attempt_key i entry.name) (attempt_key j n) (started_row entry)
                      rows rows' created (apart i j entry.name n less),
              )
      ]

  complete-Keeps :
      (i : ℕ) (entry : ChatEntry) (a : ProviderAttempt) (rows : A.Rows)
      → Keeps i rows (complete_provider_attempt A (attempt_key i entry.name) a rows)
  unfolding complete_provider_attempt
  complete-Keeps i entry a rows j n less =
      elim (Option-cases (A.update (attempt_key i entry.name) (ended_row a) rows)) [
        | inl fails ↦ rw (fails, complete_provider_attempt) refl
        | inr (rows', written) ↦
            rw (written, complete_provider_attempt)
              (A.update-other (attempt_key i entry.name) (attempt_key j n) (ended_row a) rows rows'
                written (apart i j entry.name n less))
      ]

  pub begin-new :
      (i : ℕ) (entry : ChatEntry) (s : ChainState A W)
      → A.find_unique (attempt_key i entry.name) s.rows ≡ none
      → let begun = begin i entry s in
        (begun.0 ≡ true)
        × (begun.1.final ≡ s.final)
        × (begun.1.attempts ≡ s.attempts)
        × Keeps i s.rows begun.1.rows
  unfolding begin_attempt
  begin-new i entry s new =
      let (due, keeps) = begin_provider_attempt-new i entry s.rows new in
      elim (Bool-cases is_run) [
        | inl run ↦ rw (run, begin_attempt) (due, refl, refl, keeps)
        | inr alone ↦ rw (alone, begin_attempt) (refl, refl, refl, λ j n less. refl)
      ]

  pub attempt-Keeps :
      (i : ℕ) (entry : ChatEntry) (s : ChainState A W) → Keeps i s.rows (attempt i entry s).1.rows
  unfolding run_attempt
  attempt-Keeps i entry s j n less =
      let talk = (converse i entry s.attempts s.world).0 in
      let a = live_attempt entry talk (final_after entry.name talk.ending s.final) in
      elim (Bool-cases is_run) [
        | inl run ↦ rw (run, run_attempt) (complete-Keeps i entry a s.rows j n less)
        | inr alone ↦ rw (alone, run_attempt) refl
      ]

  pub attempt-length :
      (i : ℕ) (entry : ChatEntry) (s : ChainState A W)
      → length (attempt i entry s).1.attempts ≡ length s.attempts + 1
  unfolding run_attempt
  attempt-length i entry s = length-append s.attempts _
