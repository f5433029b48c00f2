-- ===== src/ScanOutcome/Persistence.antt =====
-- What `runPersistForTerminal` and `prStatusForTerminal` of src/lib/scanTerminalOutcome.ts write, read
-- back by the classification.
use dragnet.Prelude.{
  ℕ, String, Bool, true, false, ◌||◌, not, Option, none, some, ◌≡◌, ◌⊎◌, refl, arith, Bool-cases,
  inl, inr,
}
use dragnet.Prelude.Text
use dragnet.ScanOutcome.{
  ScanTerminalClass, success, skipped, quality_failure, transport_failure, hard_fail, gate_blocked,
  infrastructure_failure, interrupted, processing, queued, pending, unknown_failure,
  ScanTerminalOutcome, ScanTerminalInput,
}
use dragnet.ScanOutcome
use dragnet.ScanOutcome.Classify
use dragnet.ScanOutcome.Classify.{
  classify_scan_terminal_outcome, is_skip, pr_status_for_terminal, run_persist_for_terminal,
  RunPersist,
}
use dragnet.ScanOutcome.Flags.{
  is_failure_class, IsCoherent, classify_scan_terminal_outcome-IsCoherent,
}

-- the text of a class, as the column holds it
abbrev pub class_text : ScanTerminalClass → String
class_text success = "success"
class_text skipped = "skipped"
class_text quality_failure = "quality_failure"
class_text transport_failure = "transport_failure"
class_text hard_fail = "hard_fail"
class_text gate_blocked = "gate_blocked"
class_text infrastructure_failure = "infrastructure_failure"
class_text interrupted = "interrupted"
class_text processing = "processing"
class_text queued = "queued"
class_text pending = "pending"
class_text unknown_failure = "unknown_failure"

-- the input of a later classification, from what was written and nothing else
abbrev pub restored : Option String → RunPersist → Option ℕ → ScanTerminalInput
restored pr p rating = record {
  pr_status = pr;
  run_status = some p.status;
  run_outcome = p.outcome;
  rating = rating;
  system_warn = none;
  terminal_class = some (class_text p.terminal_class);
  infrastructure_failure = none;
  is_interrupted = none;
  is_success = none;
  blocked_gate = none;
  queue_state = none;
  queue_position = none;
  provider_outcomes = none;
  used_model = none;
}

-- skipped stays skipped, earned stays earned, and all else is read as a failure
abbrev pub Agrees : ScanTerminalOutcome → ScanTerminalOutcome → Type 0
Agrees o again =
    (is_skip again.terminal_class ≡ is_skip o.terminal_class)
    × (again.is_earned_success ≡ o.is_earned_success)
    × (again.is_failed ≡ not (is_skip o.terminal_class || o.is_earned_success))
    × (again.is_processing ≡ false)

-- the flags of what is read back
abbrev Reads : Bool → Bool → Bool → ScanTerminalOutcome → Type 0
Reads skip earned failed again =
    (is_skip again.terminal_class ≡ skip)
    × (again.is_earned_success ≡ earned)
    × (again.is_failed ≡ failed)
    × (again.is_processing ≡ false)

abbrev skipped_row : RunPersist
skipped_row = record { status = "completed"; outcome = some "skipped"; terminal_class = skipped }

abbrev earned_row : RunPersist
earned_row = record { status = "completed"; outcome = some "reviewed"; terminal_class = success }

restored_skip :
    (r : Option ℕ)
    → Reads true false false
        (classify_scan_terminal_outcome (restored (some "Completed") skipped_row r))
unfolding classify_scan_terminal_outcome Classify.classify_terminal Classify.classify_stored
    Classify.classify_ended Text.trim Text.lower_case Text.includes
restored_skip r = (refl, refl, refl, refl)

restored_earned :
    (r : Option ℕ)
    → Reads false true false
        (classify_scan_terminal_outcome (restored (some "Completed") earned_row r))
unfolding classify_scan_terminal_outcome Classify.classify_terminal Classify.classify_stored
    Classify.classify_ended Text.trim Text.lower_case Text.includes
restored_earned r = (refl, refl, refl, refl)

abbrev failed_row : ScanTerminalClass → RunPersist
failed_row cls = record { status = "failed"; outcome = none; terminal_class = cls }

restored_failed :
    (cls : ScanTerminalClass) (r : Option ℕ)
    → is_failure_class cls ≡ true
    → Reads false false true
        (classify_scan_terminal_outcome (restored (some "Failed") (failed_row cls) r))
unfolding classify_scan_terminal_outcome Classify.classify_terminal Classify.classify_stored
    Classify.classify_ended Classify.classify_lifecycle Text.trim Text.lower_case Text.includes
    ScanOutcome.failure_of ScanOutcome.failure_by ScanOutcome.reason_from_warn
    ScanOutcome.all_providers_quality_or_empty ScanOutcome.has_provider_outcome
restored_failed quality_failure r h = (refl, refl, refl, refl)
restored_failed transport_failure r h = (refl, refl, refl, refl)
restored_failed hard_fail r h = (refl, refl, refl, refl)
restored_failed gate_blocked r h = (refl, refl, refl, refl)
restored_failed infrastructure_failure r h = (refl, refl, refl, refl)
restored_failed unknown_failure r h = (refl, refl, refl, refl)
restored_failed interrupted r h = (refl, refl, refl, refl)
restored_failed success r h = absurd (ground arith)
restored_failed skipped r h = absurd (ground arith)
restored_failed processing r h = absurd (ground arith)
restored_failed queued r h = absurd (ground arith)
restored_failed pending r h = absurd (ground arith)

restored_other :
    (r : Option ℕ)
    → Reads false false true
        (classify_scan_terminal_outcome (restored none (failed_row unknown_failure) r))
unfolding classify_scan_terminal_outcome Classify.classify_terminal Classify.classify_stored
    Classify.classify_ended Text.trim Text.lower_case Text.includes
restored_other r = (refl, refl, refl, refl)

reread_from :
    (o : ScanTerminalOutcome) (r : Option ℕ) (pr : Option String) (p : RunPersist)
    (skip earned failed : Bool)
    → pr_status_for_terminal o ≡ pr
    → run_persist_for_terminal o ≡ p
    → is_skip o.terminal_class ≡ skip
    → o.is_earned_success ≡ earned
    → not (skip || earned) ≡ failed
    → Reads skip earned failed (classify_scan_terminal_outcome (restored pr p r))
    → Agrees o (
        classify_scan_terminal_outcome
          (restored (pr_status_for_terminal o) (run_persist_for_terminal o) r))
reread_from o r pr p skip earned failed pr_eq p_eq skip_eq earned_eq failed_eq (s, e, f, idle) =
    rw (pr_eq, p_eq, skip_eq, earned_eq, failed_eq) (s, e, f, idle)

module _ (input : ScanTerminalInput) (o : ScanTerminalOutcome) (r : Option ℕ)
    (idle : o.is_processing ≡ false) (fits : IsCoherent input o) where
  reread_failed :
      is_skip o.terminal_class ≡ false
      → o.is_earned_success ≡ false
      → (o.is_failed ≡ true) ⊎ (o.is_failed ≡ false)
      → Agrees o (
          classify_scan_terminal_outcome
            (restored (pr_status_for_terminal o) (run_persist_for_terminal o) r))
  unfolding pr_status_for_terminal run_persist_for_terminal
  reread_failed no_skip unearned (inl failed) =
      reread_from o r (some "Failed") (failed_row o.terminal_class) false false true (ground arith)
        (ground arith) no_skip unearned refl
        (restored_failed o.terminal_class r (ground (arith, fits.failure_class)))
  reread_failed no_skip unearned (inr fine) =
      reread_from o r none (failed_row unknown_failure) false false true (ground arith)
        (ground arith) no_skip unearned refl (restored_other r)

  reread_unskipped :
      is_skip o.terminal_class ≡ false
      → (o.is_earned_success ≡ true) ⊎ (o.is_earned_success ≡ false)
      → Agrees o (
          classify_scan_terminal_outcome
            (restored (pr_status_for_terminal o) (run_persist_for_terminal o) r))
  unfolding pr_status_for_terminal run_persist_for_terminal
  reread_unskipped no_skip (inl earned) =
      reread_from o r (some "Completed") earned_row false true false (ground arith) (ground arith)
        no_skip earned refl (restored_earned r)
  reread_unskipped no_skip (inr unearned) = reread_failed no_skip unearned (Bool-cases o.is_failed)

  skip_unearned : is_skip o.terminal_class ≡ true → o.is_earned_success ≡ false
  skip_unearned skip = ground (arith, fits.earned_class)

  reread :
      (is_skip o.terminal_class ≡ true) ⊎ (is_skip o.terminal_class ≡ false)
      → Agrees o (
          classify_scan_terminal_outcome
            (restored (pr_status_for_terminal o) (run_persist_for_terminal o) r))
  unfolding pr_status_for_terminal run_persist_for_terminal
  reread (inl skip) =
      reread_from o r (some "Completed") skipped_row true false false (ground arith) (ground arith)
        skip (skip_unearned skip) refl (restored_skip r)
  reread (inr no_skip) = reread_unskipped no_skip (Bool-cases o.is_earned_success)

-- What is written for a classified outcome that is not in flight, read back with any rating and
-- nothing else, is skipped or earned exactly when the outcome was, and is a failure in every other
-- case, so neither a failure nor an unearned outcome becomes a pass by being stored.
pub run_persist_for_terminal-classify :
    (input : ScanTerminalInput) (r : Option ℕ)
    → (classify_scan_terminal_outcome input).is_processing ≡ false
    → Agrees (classify_scan_terminal_outcome input) (
        classify_scan_terminal_outcome (
          restored
            (pr_status_for_terminal (classify_scan_terminal_outcome input))
            (run_persist_for_terminal (classify_scan_terminal_outcome input))
            r))
run_persist_for_terminal-classify input r idle =
    let o = classify_scan_terminal_outcome input in
    reread input o r idle (classify_scan_terminal_outcome-IsCoherent input)
      (Bool-cases (is_skip o.terminal_class))
