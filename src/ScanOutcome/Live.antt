-- ===== src/ScanOutcome/Live.antt =====
-- `outcomeFromScanResult` of src/lib/scanTerminalOutcome.ts: the outcome of a scan that has just
-- answered.
use dragnet.Prelude.{
  ℕ, String, Bool, true, false, ◌&&◌, not, Option, none, some, List, ◌==◌, if◌then◌else◌, is_some,
  ◌≡◌, ◌⊎◌, refl, arith,
}
use dragnet.Prelude.Text
use dragnet.Prelude.Text.{trim}
use dragnet.ScanOutcome.{
  ScanTerminalClass, ScanTerminalReasonKind, ScanTerminalOutcome, ScanTerminalInput, is_false,
  is_text, is_true, lower,
}
use dragnet.ScanOutcome.Classify
use dragnet.ScanOutcome.Classify.{
  classify_scan_terminal_outcome, pr_is, is_skipped, persisted_failure, is_interruption, is_running,
  classify_lifecycle, classify_ended, classify_stored, classify_terminal,
}

pub record ScanResult : Type 0 where
  pub is_success : Bool
  pub rating : Option ℕ
  pub system_warn : Option String
  pub infrastructure_failure : Option Bool
  pub is_interrupted : Option Bool
  pub used_model : Option String
  pub provider_outcomes : Option (List (Option String))
  pub blocked_gate : Option String
  pub queue_state : Option String
  pub queue_position : Option ℕ

-- the PR state, the run state and the outcome that the result is classified with
abbrev pub live_pr_status : ScanResult → String
live_pr_status r =
    if is_true r.is_interrupted
    then "In Progress"
    else if r.is_success
    then if is_text "none (skipped)" r.used_model
      then "Completed"
      else if not (is_some r.rating)
      then "Failed"
      else "Completed"
    else "Failed"

abbrev pub live_run_status : ScanResult → String
live_run_status r =
    if is_true r.is_interrupted
    then "interrupted"
    else if r.is_success
    then if is_text "none (skipped)" r.used_model
      then "completed"
      else if not (is_some r.rating) && not (is_text "none (skipped)" r.used_model)
      then "failed"
      else "completed"
    else "failed"

abbrev pub live_run_outcome : ScanResult → Option String
live_run_outcome r =
    if is_text "none (skipped)" r.used_model
    then some "skipped"
    else if r.is_success && is_some r.rating
    then some "reviewed"
    else none

abbrev pub live_input : ScanResult → ScanTerminalInput
live_input r = record {
  pr_status = some (live_pr_status r);
  run_status = some (live_run_status r);
  run_outcome = live_run_outcome r;
  rating = r.rating;
  system_warn = r.system_warn;
  terminal_class = none;
  infrastructure_failure = r.infrastructure_failure;
  is_interrupted = r.is_interrupted;
  is_success = some r.is_success;
  blocked_gate = r.blocked_gate;
  queue_state = r.queue_state;
  queue_position = r.queue_position;
  provider_outcomes = r.provider_outcomes;
  used_model = r.used_model;
}

unfoldable pub outcome_from_scan_result : ScanResult → ScanTerminalOutcome
outcome_from_scan_result r = classify_scan_terminal_outcome (live_input r)

classify_lifecycle-earned :
    (input : ScanTerminalInput)
    → (classify_lifecycle input).is_earned_success ≡ true
    → is_some input.rating ≡ true
unfolding classify_lifecycle Classify.classify_completed Classify.classify_bare
classify_lifecycle-earned input h = ground arith

-- What an earned outcome says of the input: not skipped, and stored as a success or rated and not failed.
abbrev pub EarnedMeans : ScanTerminalInput → Type 0
EarnedMeans input =
    (is_skipped input ≡ false)
    × (((lower input.terminal_class == "success") ≡ true)
        ⊎ ((is_false input.is_success ≡ false) × (is_some input.rating ≡ true)))

classify_ended-earned :
    (input : ScanTerminalInput)
    → (classify_ended input).is_earned_success ≡ true
    → EarnedMeans input
unfolding classify_ended Classify.classify_live_failure
classify_ended-earned input h = ground (arith, classify_lifecycle-earned input)

classify_stored-earned :
    (found : Option (ScanTerminalClass × ScanTerminalReasonKind)) (input : ScanTerminalInput)
    → (classify_stored found input).is_earned_success ≡ true
    → EarnedMeans input
unfolding classify_stored
classify_stored-earned (some found) input h = absurd (ground arith)
classify_stored-earned none input h = classify_ended-earned input h

classify_terminal-earned :
    (input : ScanTerminalInput)
    → (classify_terminal input).is_earned_success ≡ true
    → EarnedMeans input
unfolding classify_terminal
classify_terminal-earned input h =
    classify_stored-earned (persisted_failure (lower input.terminal_class)) input (ground arith)

-- An outcome is earned only if the scan is neither interrupted, queued, running nor skipped, and it
-- either is stored as a success or has a rating and is not reported as failed.
pub classify_scan_terminal_outcome-earned :
    (input : ScanTerminalInput)
    → (classify_scan_terminal_outcome input).is_earned_success ≡ true
    → (is_interruption input ≡ false)
      × ((lower input.queue_state == "queued") ≡ false)
      × (is_running input ≡ false)
      × EarnedMeans input
unfolding classify_scan_terminal_outcome
classify_scan_terminal_outcome-earned input h =
    (ground arith, ground arith, ground arith, classify_terminal-earned input (ground arith))

skipped_text : (lower (some "skipped") == "skipped") ≡ true
unfolding Text.trim Text.lower_case
skipped_text = refl

no_class : (lower none == "success") ≡ false
unfolding Text.trim Text.lower_case
no_class = refl

live_skip :
    (r : ScanResult)
    → is_skipped (live_input r) ≡ false
    → is_text "none (skipped)" r.used_model ≡ false
live_skip r h = ground (arith, skipped_text)

-- A live result is an earned pass only if the scan succeeded with a rating, and neither was
-- interrupted nor used no model.
outcome_from_scan_result-earned :
    (r : ScanResult)
    → (outcome_from_scan_result r).is_earned_success ≡ true
    → (r.is_success ≡ true)
      × (is_some r.rating ≡ true)
      × (is_true r.is_interrupted ≡ false)
      × (is_text "none (skipped)" r.used_model ≡ false)
unfolding outcome_from_scan_result
outcome_from_scan_result-earned r h =
    let (idle, waiting, running, means) = classify_scan_terminal_outcome-earned (live_input r) h in
    ground (arith, idle, means.0, means.1, no_class, live_skip r means.0)
