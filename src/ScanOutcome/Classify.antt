-- ===== src/ScanOutcome/Classify.antt =====
-- `classifyScanTerminalOutcome` of src/lib/scanTerminalOutcome.ts, cut where the code's comments cut
-- it, and what is written for an outcome: `prStatusForTerminal` and `runPersistForTerminal`.
use dragnet.Prelude.{
  String, Bool, true, false, ◌&&◌, ◌||◌, not, Option, none, some, get_or, ◌==◌, if◌then◌else◌,
  is_some,
}
use dragnet.Prelude.Text.{trim, includes}
use dragnet.ScanOutcome.{
  ScanTerminalClass, success, skipped, quality_failure, transport_failure, hard_fail, gate_blocked,
  infrastructure_failure, interrupted, processing, queued, pending, unknown_failure,
  ScanTerminalReasonKind, no_reason, by_success, by_skip, quality, transport, gate, queue,
  infrastructure, interruption, unknown, ScanPrimaryCta, no_cta, rescan, force_rescan,
  LayoutCStatusKind, ui_pending, ui_processing, ui_completed, ui_merged, ScanTerminalOutcome,
  ScanTerminalInput, normalize_pos, lower, trimmed, is_true, is_false, reason_from_warn,
  failed_outcome, failure_of,
}

-- an outcome that is in flight
abbrev pub in_flight :
    ScanTerminalClass
    → ScanTerminalReasonKind
    → ScanPrimaryCta
    → ScanTerminalInput
    → ScanTerminalOutcome
in_flight cls kind cta input = record {
  terminal_class = cls;
  ui_status_kind = ui_processing;
  reason_kind = kind;
  system_warn = trimmed input.system_warn;
  primary_cta = cta;
  is_failed = false;
  is_processing = true;
  is_earned_success = false;
  queue_position = normalize_pos input.queue_position;
}

-- an outcome that has ended and has not failed
abbrev pub ended :
    ScanTerminalClass
    → LayoutCStatusKind
    → ScanTerminalReasonKind
    → ScanPrimaryCta
    → Bool
    → ScanTerminalInput
    → ScanTerminalOutcome
ended cls ui kind cta earned input = record {
  terminal_class = cls;
  ui_status_kind = ui;
  reason_kind = kind;
  system_warn = trimmed input.system_warn;
  primary_cta = cta;
  is_failed = false;
  is_processing = false;
  is_earned_success = earned;
  queue_position = none;
}

-- The stored class of a failure, and the kind of its reason.
abbrev pub persisted_failure : String → Option (ScanTerminalClass × ScanTerminalReasonKind)
persisted_failure s =
    if s == "hard_fail"
    then some (hard_fail, quality)
    else if s == "quality_failure"
    then some (quality_failure, quality)
    else if s == "transport_failure"
    then some (transport_failure, transport)
    else if s == "infrastructure_failure"
    then some (infrastructure_failure, infrastructure)
    else if s == "unknown_failure"
    then some (unknown_failure, unknown)
    else none

abbrev pub pr_is : String → ScanTerminalInput → Bool
pr_is s input = trim (get_or input.pr_status "") == s

-- PR states without a run, and the fallback
unfoldable pub classify_bare : ScanTerminalInput → ScanTerminalOutcome
classify_bare input =
    if pr_is "Completed" input || pr_is "scanned" input
    then ended success ui_completed by_success no_cta (is_some input.rating) input
    else if pr_is "Merged" input
    then ended success ui_merged no_reason no_cta false input
    else ended pending ui_pending no_reason no_cta false input

-- A completed run: earned only with a rating.
unfoldable pub classify_completed : ScanTerminalInput → ScanTerminalOutcome
classify_completed input =
    if is_some input.rating
    then ended success ui_completed by_success no_cta true input
    else let found =
        get_or (reason_from_warn (trimmed input.system_warn)) (quality_failure, quality) in
      failed_outcome found.0 found.1 (trimmed input.system_warn)

abbrev pub has_terminal_run : ScanTerminalInput → Bool
has_terminal_run input =
    lower input.run_status == "completed"
    || lower input.run_status == "failed"
    || not (lower input.terminal_class == "")
    || is_some input.run_outcome

-- from the failed lifecycle on
unfoldable pub classify_lifecycle : ScanTerminalInput → ScanTerminalOutcome
classify_lifecycle input =
    let found = failure_of (trimmed input.system_warn) input.provider_outcomes in
    if pr_is "Failed" input
      || lower input.run_status == "failed"
      || lower input.queue_state == "failed"
    then failed_outcome found.0 found.1 (trimmed input.system_warn)
    else if lower input.run_status == "completed"
        || ((pr_is "Completed" input || pr_is "scanned" input) && has_terminal_run input)
    then classify_completed input
    else classify_bare input

-- the path of a live result with `success === false`
unfoldable pub classify_live_failure : ScanTerminalInput → ScanTerminalOutcome
classify_live_failure input =
    let found = failure_of (trimmed input.system_warn) input.provider_outcomes in
    if is_true input.infrastructure_failure
    then failed_outcome infrastructure_failure infrastructure (trimmed input.system_warn)
    else failed_outcome found.0 found.1 (trimmed input.system_warn)

abbrev pub is_skipped : ScanTerminalInput → Bool
is_skipped input =
    lower input.terminal_class == "skipped"
    || lower input.run_outcome == "skipped"
    || trim (get_or input.used_model "") == "none (skipped)"
    || (is_some (trimmed input.system_warn)
        && includes (lower (trimmed input.system_warn)) "no code changes detected")

-- after the classes of failure that are stored
unfoldable pub classify_ended : ScanTerminalInput → ScanTerminalOutcome
classify_ended input =
    if is_skipped input
    then ended skipped ui_completed by_skip rescan false input
    else if lower input.terminal_class == "success"
    then ended success ui_completed by_success no_cta true input
    else if is_false input.is_success
    then classify_live_failure input
    else classify_lifecycle input

-- a stored class of failure wins over what follows
unfoldable pub classify_stored :
    Option (ScanTerminalClass × ScanTerminalReasonKind) → ScanTerminalInput → ScanTerminalOutcome
classify_stored (some found) input = failed_outcome found.0 found.1 (trimmed input.system_warn)
classify_stored none input = classify_ended input

-- after the work that is in flight
unfoldable pub classify_terminal : ScanTerminalInput → ScanTerminalOutcome
classify_terminal input =
    if is_some (trimmed input.blocked_gate) || lower input.terminal_class == "gate_blocked"
    then failed_outcome gate_blocked gate (trimmed input.system_warn)
    else classify_stored (persisted_failure (lower input.terminal_class)) input

abbrev pub is_interruption : ScanTerminalInput → Bool
is_interruption input = is_true input.is_interrupted || lower input.run_status == "interrupted"

abbrev pub is_running : ScanTerminalInput → Bool
is_running input =
    lower input.queue_state == "running"
    || lower input.run_status == "in_progress"
    || pr_is "In Progress" input

unfoldable pub classify_scan_terminal_outcome : ScanTerminalInput → ScanTerminalOutcome
classify_scan_terminal_outcome input =
    if is_interruption input
    then in_flight interrupted interruption force_rescan input
    else if lower input.queue_state == "queued"
    then in_flight queued queue no_cta input
    else if is_running input
    then in_flight processing queue no_cta input
    else classify_terminal input

abbrev pub is_skip : ScanTerminalClass → Bool
is_skip skipped = true
is_skip _ = false

-- What is written to `PullRequest.status`; `none` where nothing is.
unfoldable pub pr_status_for_terminal : ScanTerminalOutcome → Option String
pr_status_for_terminal o =
    if o.is_processing
    then none
    else if is_skip o.terminal_class || o.is_earned_success
    then some "Completed"
    else if o.is_failed
    then some "Failed"
    else none

pub record RunPersist : Type 0 where
  pub status : String
  pub outcome : Option String
  pub terminal_class : ScanTerminalClass

unfoldable pub run_persist_for_terminal : ScanTerminalOutcome → RunPersist
run_persist_for_terminal o =
    if is_skip o.terminal_class
    then record { status = "completed"; outcome = some "skipped"; terminal_class = skipped }
    else if o.is_earned_success
    then record { status = "completed"; outcome = some "reviewed"; terminal_class = success }
    else record {
      status = "failed";
      outcome = none;
      terminal_class = if o.is_failed then o.terminal_class else unknown_failure;
    }
