-- ===== src/ScanOutcome/Flags.antt =====
-- The flags of a classified outcome, and which inputs are in flight.
use dragnet.Prelude.{
  Bool, true, false, ◌&&◌, ◌||◌, not, Option, none, some, List, ◌==◌, if◌then◌else◌, is_some,
  get_or, ◌≡◌, refl, arith, String,
}
use dragnet.ScanOutcome.{
  ScanTerminalClass, success, quality_failure, transport_failure, hard_fail, gate_blocked,
  infrastructure_failure, interrupted, unknown_failure, ScanTerminalReasonKind, quality,
  LayoutCStatusKind, ui_processing, ui_completed, ui_failed, ScanTerminalOutcome, ScanTerminalInput,
  trimmed, normalize_pos, lower, reason_from_warn, failed_outcome, failure_by, failure_of,
}
use dragnet.ScanOutcome.Classify.{
  classify_stored, persisted_failure, classify_bare, classify_completed, classify_lifecycle,
  classify_live_failure, is_skipped, classify_ended, classify_terminal, is_interruption, is_running,
  classify_scan_terminal_outcome,
}

-- the classes that a failed outcome may have: those of failures, and an interruption read off the warning
abbrev pub is_failure_class : ScanTerminalClass → Bool
is_failure_class quality_failure = true
is_failure_class transport_failure = true
is_failure_class hard_fail = true
is_failure_class gate_blocked = true
is_failure_class infrastructure_failure = true
is_failure_class unknown_failure = true
is_failure_class interrupted = true
is_failure_class _ = false

abbrev pub is_ui_failed : LayoutCStatusKind → Bool
is_ui_failed ui_failed = true
is_ui_failed _ = false

abbrev pub is_ui_processing : LayoutCStatusKind → Bool
is_ui_processing ui_processing = true
is_ui_processing _ = false

abbrev pub is_earned_class : ScanTerminalClass → LayoutCStatusKind → Bool
is_earned_class success ui_completed = true
is_earned_class _ _ = false

-- An outcome is at most one of failed, in flight and earned; the page shows failure and processing
-- for these alone; a failure has a class of failure; an earned outcome is a completed success; only
-- what is in flight has a place in the queue.
pub record IsCoherent (input : ScanTerminalInput) (o : ScanTerminalOutcome) : Type 0 where
  pub failed_or_processing : (o.is_failed && o.is_processing) ≡ false
  pub failed_or_earned : (o.is_failed && o.is_earned_success) ≡ false
  pub processing_or_earned : (o.is_processing && o.is_earned_success) ≡ false
  pub ui_failed_iff : is_ui_failed o.ui_status_kind ≡ o.is_failed
  pub ui_processing_iff : is_ui_processing o.ui_status_kind ≡ o.is_processing
  pub failure_class : (o.is_failed && not (is_failure_class o.terminal_class)) ≡ false
  pub earned_class :
      (o.is_earned_success && not (is_earned_class o.terminal_class o.ui_status_kind)) ≡ false
  pub warning : o.system_warn ≡ trimmed input.system_warn
  pub position :
      o.queue_position ≡ (if o.is_processing then normalize_pos input.queue_position else none)

abbrev is_failure : Option (ScanTerminalClass × ScanTerminalReasonKind) → Bool
is_failure none = true
is_failure (some found) = is_failure_class found.0

reason_from_warn-class : (warn : Option String) → is_failure (reason_from_warn warn) ≡ true
unfolding reason_from_warn
reason_from_warn-class warn = ground arith

persisted_failure-class : (s : String) → is_failure (persisted_failure s) ≡ true
persisted_failure-class s = ground arith

failure_by-class :
    (found : Option (ScanTerminalClass × ScanTerminalReasonKind))
    (outcomes : Option (List (Option String)))
    → is_failure found ≡ true
    → is_failure_class (failure_by found outcomes).0 ≡ true
unfolding failure_by
failure_by-class (some found) outcomes h = h
failure_by-class none outcomes h = ground arith

failure_of-class :
    (warn : Option String) (outcomes : Option (List (Option String)))
    → is_failure_class (failure_of warn outcomes).0 ≡ true
unfolding failure_of
failure_of-class warn outcomes =
    failure_by-class (reason_from_warn warn) outcomes (reason_from_warn-class warn)

-- coherent, and not in flight
abbrev IsSettled : ScanTerminalInput → ScanTerminalOutcome → Type 0
IsSettled input o = IsCoherent input o × (o.is_processing ≡ false)

both {ℓ} : {A : Type ℓ} (P : A → Type 0) (b : Bool) (x y : A) → P x → P y → P (if b then x else y)
both P true x y h k = h
both P false x y h k = k

module _ (input : ScanTerminalInput) where
  failed_outcome-IsSettled :
      (cls : ScanTerminalClass) (kind : ScanTerminalReasonKind)
      → is_failure_class cls ≡ true
      → IsSettled input (failed_outcome cls kind (trimmed input.system_warn))
  failed_outcome-IsSettled cls kind h = ground arith

  failure_of-IsSettled : IsSettled input (
      failed_outcome
        (failure_of (trimmed input.system_warn) input.provider_outcomes).0
        (failure_of (trimmed input.system_warn) input.provider_outcomes).1
        (trimmed input.system_warn))
  failure_of-IsSettled =
      failed_outcome-IsSettled _ _
        (failure_of-class (trimmed input.system_warn) input.provider_outcomes)

  classify_bare-IsSettled : IsSettled input (classify_bare input)
  unfolding classify_bare
  classify_bare-IsSettled = ground arith

  warn_or_quality-class :
      (found : Option (ScanTerminalClass × ScanTerminalReasonKind))
      → is_failure found ≡ true
      → is_failure_class (get_or found (quality_failure, quality)).0 ≡ true
  warn_or_quality-class none h = refl
  warn_or_quality-class (some found) h = h

  classify_completed-IsSettled : IsSettled input (classify_completed input)
  unfolding classify_completed
  classify_completed-IsSettled = both (IsSettled input) (is_some input.rating) _ _ (ground arith) (
      failed_outcome-IsSettled _ _
        (warn_or_quality-class _ (reason_from_warn-class (trimmed input.system_warn))))

  classify_lifecycle-IsSettled : IsSettled input (classify_lifecycle input)
  unfolding classify_lifecycle
  classify_lifecycle-IsSettled =
      both (IsSettled input) _ _ _ failure_of-IsSettled
        (both (IsSettled input) _ _ _ classify_completed-IsSettled classify_bare-IsSettled)

  classify_live_failure-IsSettled : IsSettled input (classify_live_failure input)
  unfolding classify_live_failure
  classify_live_failure-IsSettled =
      both (IsSettled input) _ _ _ (failed_outcome-IsSettled _ _ refl) failure_of-IsSettled

  classify_ended-IsSettled : IsSettled input (classify_ended input)
  unfolding classify_ended
  classify_ended-IsSettled = both (IsSettled input) (is_skipped input) _ _ (ground arith) (
      both (IsSettled input) (lower input.terminal_class == "success") _ _ (ground arith)
        (both (IsSettled input) _ _ _ classify_live_failure-IsSettled classify_lifecycle-IsSettled))

  classify_stored-IsSettled :
      (found : Option (ScanTerminalClass × ScanTerminalReasonKind))
      → is_failure found ≡ true
      → IsSettled input (classify_stored found input)
  unfolding classify_stored
  classify_stored-IsSettled (some found) h = failed_outcome-IsSettled _ _ h
  classify_stored-IsSettled none h = classify_ended-IsSettled

  classify_terminal-IsSettled : IsSettled input (classify_terminal input)
  unfolding classify_terminal
  classify_terminal-IsSettled =
      both (IsSettled input) _ _ _ (failed_outcome-IsSettled _ _ refl)
        (classify_stored-IsSettled _ (persisted_failure-class (lower input.terminal_class)))

  -- Every outcome is at most one of failed, in flight and earned; the status kind is that of a failure
  -- or of processing exactly for these; a failed outcome has a class of failure or is an interruption;
  -- an earned one is a completed success; it carries the trimmed warning, and a place in the queue
  -- only while it is in flight.
  pub classify_scan_terminal_outcome-IsCoherent :
      IsCoherent input (classify_scan_terminal_outcome input)
  unfolding classify_scan_terminal_outcome
  classify_scan_terminal_outcome-IsCoherent =
      both (IsCoherent input) (is_interruption input) _ _ (ground arith) (
        both (IsCoherent input) (lower input.queue_state == "queued") _ _ (ground arith) (
          both (IsCoherent input) (is_running input) _ _ (ground arith)
            classify_terminal-IsSettled.0))

  -- An outcome is in flight exactly when the input says that the scan was interrupted, is queued or
  -- runs, whatever class, rating, gate or failure it also reports.
  pub classify_scan_terminal_outcome-in_flight :
      (classify_scan_terminal_outcome input).is_processing
      ≡ (is_interruption input || (lower input.queue_state == "queued") || is_running input)
  unfolding classify_scan_terminal_outcome
  classify_scan_terminal_outcome-in_flight = ground (arith, classify_terminal-IsSettled.1)
