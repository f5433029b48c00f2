-- ===== src/ScanOutcome.antt =====
-- The terminal outcome of a scan: src/lib/scanTerminalOutcome.ts, its types and helpers. The label and
-- the reason, which are texts for people, are left out, and so are the slot limits that only they
-- mention. A rating is a whole number or missing.
pub mod Classify
pub mod Flags
pub mod Persistence
pub mod Live
mod Tests
use dragnet.Prelude.{
  ℕ, zero, suc, String, Bool, true, false, ◌&&◌, ◌||◌, not, Option, none, some, get_or, List, [],
  ◌∷◌, length, filter, any, all, leb, ◌==◌, if◌then◌else◌, ◌≡◌,
}
use dragnet.Prelude.Text.{trim, lower_case, includes}

pub data ScanTerminalClass : Type 0 where
  success skipped quality_failure transport_failure hard_fail gate_blocked : ScanTerminalClass
  infrastructure_failure interrupted processing queued pending unknown_failure : ScanTerminalClass

pub data ScanTerminalReasonKind : Type 0 where
  no_reason by_success by_skip quality transport gate : ScanTerminalReasonKind
  queue infrastructure interruption unknown : ScanTerminalReasonKind

pub data ScanPrimaryCta : Type 0 where
  no_cta rescan force_rescan : ScanPrimaryCta

pub data LayoutCStatusKind : Type 0 where
  ui_pending ui_processing ui_completed ui_failed ui_merged : LayoutCStatusKind

pub record ScanTerminalOutcome : Type 0 where
  pub terminal_class : ScanTerminalClass
  pub ui_status_kind : LayoutCStatusKind
  pub reason_kind : ScanTerminalReasonKind
  pub system_warn : Option String
  pub primary_cta : ScanPrimaryCta
  pub is_failed : Bool
  pub is_processing : Bool
  pub is_earned_success : Bool
  pub queue_position : Option ℕ

pub record ScanTerminalInput : Type 0 where
  pub pr_status : Option String
  pub run_status : Option String
  pub run_outcome : Option String
  pub rating : Option ℕ
  pub system_warn : Option String
  pub terminal_class : Option String
  pub infrastructure_failure : Option Bool
  pub is_interrupted : Option Bool
  pub is_success : Option Bool
  pub blocked_gate : Option String
  pub queue_state : Option String
  pub queue_position : Option ℕ
  pub provider_outcomes : Option (List (Option String))
  pub used_model : Option String

abbrev pub normalize_pos : Option ℕ → Option ℕ
normalize_pos none = none
normalize_pos (some zero) = none
normalize_pos (some (suc n)) = some (suc n)

abbrev pub lower : Option String → String
lower s = lower_case (trim (get_or s ""))

-- `s || null`
abbrev pub non_empty : String → Option String
non_empty s = if s == "" then none else some s

-- `s?.trim() || null`
abbrev pub trimmed : Option String → Option String
trimmed none = none
trimmed (some s) = non_empty (trim s)

abbrev pub is_text : String → Option String → Bool
is_text text none = false
is_text text (some x) = x == text

abbrev pub is_true : Option Bool → Bool
is_true none = false
is_true (some b) = b

abbrev pub is_false : Option Bool → Bool
is_false none = false
is_false (some b) = not b

unfoldable pub has_provider_outcome : Option (List (Option String)) → String → Bool
has_provider_outcome outcomes want = any (is_text want) (get_or outcomes [])

abbrev pub is_review_outcome : Option String → Bool
is_review_outcome o =
    is_text "success" o
    || is_text "quality_failure" o
    || is_text "transport_failure" o
    || is_text "unknown_failure" o

abbrev pub all_but_empty : List (Option String) → Bool
all_but_empty [] = false
all_but_empty (o ∷ rest) =
    all (λ x. is_text "quality_failure" x || is_text "unknown_failure" x) (o ∷ rest)

unfoldable pub all_providers_quality_or_empty : Option (List (Option String)) → Bool
all_providers_quality_or_empty outcomes =
    all_but_empty (filter is_review_outcome (get_or outcomes []))

abbrev includes_any : String → List String → Bool
includes_any w parts = any (λ part. includes w part) parts

-- what the text of the warning says of the failure
unfoldable pub reason_from_warn :
    Option String → Option (ScanTerminalClass × ScanTerminalReasonKind)
reason_from_warn warn =
    let w = lower warn in
    if w == ""
    then none
    else if includes_any w ("hard_fail" ∷ "hard-fail" ∷ "hard fail" ∷ [])
    then some (hard_fail, quality)
    else if includes_any w (
        "submitreview" ∷ "quality_failure" ∷ "quality failure" ∷ "without calling submit"
        ∷ "rating nulled" ∷ "all were rejected" ∷ "malformed" ∷ [])
    then some (quality_failure, quality)
    else if includes_any w ("infrastructure" ∷ "tier 2" ∷ "deterministic checks failed" ∷ [])
    then some (infrastructure_failure, infrastructure)
    else if includes_any w (
        "econnreset" ∷ "etimedout" ∷ "429" ∷ "transport" ∷ "network" ∷ "fetch failed" ∷ "socket"
        ∷ [])
    then some (transport_failure, transport)
    else if includes_any w ("aborted" ∷ "interrupt" ∷ [])
    then some (interrupted, interruption)
    else none

-- the constructor of a failed outcome, by default with the offer to scan again
abbrev pub failed_outcome :
    ScanTerminalClass → ScanTerminalReasonKind → Option String → ScanTerminalOutcome
failed_outcome cls kind warn = record {
  terminal_class = cls;
  ui_status_kind = ui_failed;
  reason_kind = kind;
  system_warn = warn;
  primary_cta = rescan;
  is_failed = true;
  is_processing = false;
  is_earned_success = false;
  queue_position = none;
}

-- by the providers' outcomes, where the warning does not tell
unfoldable pub failure_by :
    Option (ScanTerminalClass × ScanTerminalReasonKind)
    → Option (List (Option String))
    → ScanTerminalClass × ScanTerminalReasonKind
failure_by (some found) outcomes = found
failure_by none outcomes =
    if all_providers_quality_or_empty outcomes
    then if leb 2 (length (filter (is_text "quality_failure") (get_or outcomes [])))
      then (hard_fail, quality)
      else (quality_failure, quality)
    else if has_provider_outcome outcomes "transport_failure"
    then (transport_failure, transport)
    else (hard_fail, unknown)

unfoldable pub failure_of :
    Option String → Option (List (Option String)) → ScanTerminalClass × ScanTerminalReasonKind
failure_of warn outcomes = failure_by (reason_from_warn warn) outcomes
