-- ===== src/Reconcile.antt =====
-- How the findings of a scan meet those of earlier scans of the pull request:
-- src/services/largePrReview/reconcile.ts (planReconcile, detectRegressions) and fingerprint.ts
-- (resolveSymbolsBatch). `Score` is the type of a confidence, which is only carried over.
pub mod Runs
pub mod Plan
pub mod Failure
mod Tests
use dragnet.Prelude.{
  ℕ, ◌+◌, String, Bool, true, false, ◌&&◌, ◌||◌, not, Option, none, some, List, [], ◌∷◌, filter,
  map, leb, ltb, ◌==◌, if◌then◌else◌, is_some,
}
use dragnet.Prelude.Dict.{Dict, get, set, delete, has, add}

pub record Verdict (Score : Type 0) : Type 0 where
  pub skeptic_verdict : Option String
  pub skeptic_note : Option String
  pub verification_status : Option String
  pub verification_note : Option String
  pub confidence : Option Score

pub data FindingStatus : Type 0 where
  opened resolved wontfix : FindingStatus

pub record Finding (Score : Type 0) : Type 0 where
  pub id : String
  pub pr_id : String
  pub repo_id : String
  pub review_run_id : Option String
  pub filename : String
  pub line : Option ℕ
  pub fingerprint : Option String
  pub status : Option FindingStatus
  pub last_seen_run_id : Option String
  pub source_hash_at_insert : Option String
  pub resolved_at_run_id : Option String
  pub is_regression : Bool
  pub regressed_from_run_id : Option String
  pub verdict : Verdict Score

-- The truth of a text that may be missing: not null and not empty.
abbrev pub truthy : Option String → Bool
truthy none = false
truthy (some s) = not (s == "")

-- `===` on texts that may be null
abbrev pub same_text : Option String → Option String → Bool
same_text none none = true
same_text none (some b) = false
same_text (some a) none = false
same_text (some a) (some b) = a == b

pub record CodeSymbol : Type 0 where
  pub id : String
  pub repo_id : String
  pub file_path : String
  pub line_start : ℕ
  pub line_end : ℕ
  pub source_hash : String

abbrev pub contains_line : String → String → ℕ → CodeSymbol → Bool
contains_line repo_id file line s =
    s.repo_id == repo_id && s.file_path == file && leb s.line_start line && leb line s.line_end

-- The first of the symbols that start last: the head of the list after the stable sort by
-- `b.lineStart - a.lineStart`.
abbrev pub pick_tightest : CodeSymbol → Option CodeSymbol → CodeSymbol
pick_tightest s none = s
pick_tightest s (some best) = if ltb s.line_start best.line_start then best else s

unfoldable pub tightest : List CodeSymbol → Option CodeSymbol
tightest [] = none
tightest (s ∷ ss) = some (pick_tightest s (tightest ss))

unfoldable pub resolve_symbol : List CodeSymbol → String → String → Option ℕ → Option CodeSymbol
resolve_symbol symbols repo_id file none = none
resolve_symbol symbols repo_id file (some line) =
    tightest (filter (contains_line repo_id file line) symbols)

pub record PriorUpdate (Score : Type 0) : Type 0 where
  pub id : String
  pub source_hash : Option String
  pub verdict : Verdict Score

pub record ReconcilePlan (Score : Type 0) : Type 0 where
  pub matched_new_ids : List String
  pub matched_prior_updates : List (PriorUpdate Score)
  pub unmatched_prior_ids : List String

pub record Regression : Type 0 where
  pub current_finding_id : String
  pub prior_finding_id : String
  pub regressed_from_run_id : Option String

module _ {Score : Type 0} where
  abbrev pub empty_plan : ReconcilePlan Score
  empty_plan = record { matched_new_ids = []; matched_prior_updates = []; unmatched_prior_ids = [] }

  -- the map `currentByFp`
  abbrev pub put : Dict (Finding Score) → Option String → Finding Score → Dict (Finding Score)
  put m none f = m
  put m (some key) f = if key == "" then m else set m key f

  unfoldable pub index : Dict (Finding Score) → List (Finding Score) → Dict (Finding Score)
  index m [] = m
  index m (f ∷ fs) = index (put m f.fingerprint f) fs

  abbrev pub unmatched : String → ReconcilePlan Score → ReconcilePlan Score
  unmatched id plan = record plan { unmatched_prior_ids = id ∷ plan.unmatched_prior_ids }

  abbrev pub matched : String → Finding Score → ReconcilePlan Score → ReconcilePlan Score
  matched id f plan = record plan {
    matched_new_ids = f.id ∷ plan.matched_new_ids;
    matched_prior_updates =
        record { id = id; source_hash = f.source_hash_at_insert; verdict = f.verdict }
        ∷ plan.matched_prior_updates;
  }

  unfoldable pub plan_prior :
      (Dict (Finding Score) → ReconcilePlan Score)
      → Dict (Finding Score)
      → String
      → Option String
      → ReconcilePlan Score
  plan_prior rest m id none = unmatched id (rest m)
  plan_prior rest m id (some key) = elim (key == "") [
    | true ↦ unmatched id (rest m)
    | false ↦ elim (get m key) [
      | none ↦ unmatched id (rest m)
      | some f ↦ matched id f (rest (delete m key))
    ]
  ]

  unfoldable pub plan_priors : Dict (Finding Score) → List (Finding Score) → ReconcilePlan Score
  plan_priors m [] = empty_plan
  plan_priors m (p ∷ ps) = plan_prior (λ n. plan_priors n ps) m p.id p.fingerprint

  unfoldable pub plan_reconcile : List (Finding Score) → List (Finding Score) → ReconcilePlan Score
  plan_reconcile currents priors = plan_priors (index [] currents) priors

  -- the first current finding with the fingerprint that is not consumed
  unfoldable pub find_match : List String → String → List (Finding Score) → Option (Finding Score)
  find_match consumed key [] = none
  find_match consumed key (c ∷ cs) =
      let rest = find_match consumed key cs in
      if not (has consumed c.id) && (truthy c.fingerprint && same_text c.fingerprint (some key))
      then some c
      else rest

  abbrev pub is_regression_of : Finding Score → Finding Score → Bool
  is_regression_of c p =
      not (same_text c.source_hash_at_insert p.source_hash_at_insert)
      || not (is_some c.source_hash_at_insert)
      || not (is_some p.source_hash_at_insert)

  unfoldable pub detect_one : List (Finding Score) → List String → Finding Score → Option Regression
  detect_one currents consumed p = elim p.fingerprint [
    | none ↦ none
    | some key ↦ elim (find_match consumed key currents) [
      | none ↦ none
      | some c ↦
          if is_regression_of c p
          then some (record {
            current_finding_id = c.id;
            prior_finding_id = p.id;
            regressed_from_run_id = p.resolved_at_run_id;
          })
          else none
    ]
  ]

  unfoldable pub detect_loop :
      List (Finding Score) → List String → List (Finding Score) → List Regression
  detect_loop currents consumed [] = []
  detect_loop currents consumed (p ∷ ps) = elim (detect_one currents consumed p) [
    | none ↦ detect_loop currents consumed ps
    | some r ↦ r ∷ detect_loop currents (add consumed r.current_finding_id) ps
  ]

  unfoldable pub detect_regressions : List (Finding Score) → List (Finding Score) → List Regression
  detect_regressions currents resolved_findings = detect_loop currents [] resolved_findings
