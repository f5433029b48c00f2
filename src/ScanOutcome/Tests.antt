-- ===== src/ScanOutcome/Tests.antt =====
-- Classifications of concrete scans, and the theorems on them.
use dragnet.Prelude.{ℕ, String, true, false, Option, none, some, [], ◌∷◌, ◌==◌, ◌≡◌, refl}
use dragnet.Prelude.Text
use dragnet.ScanOutcome.{
  ScanTerminalInput, ScanTerminalOutcome, is_text, is_true, lower, quality_failure, hard_fail,
  quality, reason_from_warn, failure_of,
}
use dragnet.ScanOutcome
use dragnet.ScanOutcome.Classify
use dragnet.ScanOutcome.Classify.{
  classify_scan_terminal_outcome, is_interruption, is_running, pr_status_for_terminal,
  run_persist_for_terminal,
}
use dragnet.ScanOutcome.Flags.{IsCoherent, classify_scan_terminal_outcome-IsCoherent}
use dragnet.ScanOutcome.Persistence.{Agrees, restored, run_persist_for_terminal-classify}
use dragnet.ScanOutcome.Live.{ScanResult, EarnedMeans, classify_scan_terminal_outcome-earned}

abbrev row : String → String → Option ℕ → Option String → Option String → ScanTerminalInput
row pr run rating warn cls = record {
  pr_status = some pr;
  run_status = some run;
  run_outcome = none;
  rating = rating;
  system_warn = warn;
  terminal_class = cls;
  infrastructure_failure = none;
  is_interrupted = none;
  is_success = none;
  blocked_gate = none;
  queue_state = none;
  queue_position = some 2;
  provider_outcomes = none;
  used_model = none;
}

abbrev earned : ScanTerminalInput
earned = row "Completed" "completed" (some 9) none none

abbrev rating_lost : ScanTerminalInput
rating_lost = row "Completed" "completed" none (some "Rating nulled: no findings") none

warning_of_quality :
    reason_from_warn (some "Rating nulled: no findings") ≡ some (quality_failure, quality)
unfolding reason_from_warn Text.trim Text.lower_case Text.includes
warning_of_quality = refl

two_quality_failures :
    failure_of none (some (some "quality_failure" ∷ some "timeout" ∷ some "quality_failure" ∷ []))
    ≡ (hard_fail, quality)
unfolding failure_of ScanOutcome.failure_by reason_from_warn
    ScanOutcome.all_providers_quality_or_empty Text.trim Text.lower_case
two_quality_failures = refl

-- a stored success is earned without a rating
stored_success_is_earned :
    (classify_scan_terminal_outcome
      (row "Completed" "completed" none none (some "success"))).is_earned_success
    ≡ true
unfolding classify_scan_terminal_outcome Classify.classify_terminal Classify.classify_stored
    Classify.classify_ended Text.trim Text.lower_case
stored_success_is_earned = refl

classify_scan_terminal_outcome-IsCoherent_example :
    IsCoherent rating_lost (classify_scan_terminal_outcome rating_lost)
classify_scan_terminal_outcome-IsCoherent_example =
    classify_scan_terminal_outcome-IsCoherent rating_lost

classify_scan_terminal_outcome-earned_example :
    (is_interruption earned ≡ false)
    × ((lower earned.queue_state == "queued") ≡ false)
    × (is_running earned ≡ false)
    × EarnedMeans earned
unfolding classify_scan_terminal_outcome Classify.classify_terminal Classify.classify_stored
    Classify.classify_ended Classify.classify_lifecycle Classify.classify_completed Text.trim
    Text.lower_case
classify_scan_terminal_outcome-earned_example = classify_scan_terminal_outcome-earned earned refl

run_persist_for_terminal-classify_example : Agrees (classify_scan_terminal_outcome rating_lost) (
    classify_scan_terminal_outcome (
      restored
        (pr_status_for_terminal (classify_scan_terminal_outcome rating_lost))
        (run_persist_for_terminal (classify_scan_terminal_outcome rating_lost))
        (some 10)))
unfolding classify_scan_terminal_outcome Classify.classify_terminal Classify.classify_stored
    Classify.classify_ended Classify.classify_lifecycle Classify.classify_completed Text.trim
    Text.lower_case Text.includes
run_persist_for_terminal-classify_example =
    run_persist_for_terminal-classify rating_lost (some 10) refl

abbrev live : ScanResult
live = record {
  is_success = true;
  rating = some 7;
  system_warn = none;
  infrastructure_failure = none;
  is_interrupted = none;
  used_model = some "glm-5";
  provider_outcomes = none;
  blocked_gate = none;
  queue_state = none;
  queue_position = none;
}
