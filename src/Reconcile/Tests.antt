-- ===== src/Reconcile/Tests.antt =====
-- Reconciliations of a few findings.
use dragnet.Prelude.{
  ℕ, ◌+◌, ◌≤◌, String, Bool, true, false, not, any, Option, none, some, List, [], ◌∷◌, length,
  count_where, ◌==◌, ◌≡◌, refl, is_some,
}
use dragnet.Database.Keyed.{KeyedTable, keyed_list}
use dragnet.Reconcile.{
  Finding, FindingStatus, opened, resolved, CodeSymbol, plan_reconcile, detect_regressions,
}
use dragnet.Reconcile
use dragnet.Reconcile.Runs.{
  reconcile_findings_across_runs, is_current, is_prior, is_resolved_before,
}
use dragnet.Reconcile.Failure.{is_deleted, reconcile_findings_across_runs-fails}

abbrev finding : String → String → FindingStatus → String → String → Finding ℕ
finding id run status key hash = record {
  id = id;
  pr_id = "pr";
  repo_id = "repo";
  review_run_id = some run;
  filename = "a.ts";
  line = some 12;
  fingerprint = some key;
  status = some status;
  last_seen_run_id = some run;
  source_hash_at_insert = some hash;
  resolved_at_run_id = none;
  is_regression = false;
  regressed_from_run_id = none;
  verdict = record {
    skeptic_verdict = none;
    skeptic_note = none;
    verification_status = none;
    verification_note = none;
    confidence = some 80;
  };
}

abbrev before : Finding ℕ
before = finding "old" "r1" opened "k" "h1"

abbrev fixed : Finding ℕ
fixed = record (finding "gone" "r0" resolved "k" "h0") { resolved_at_run_id = some "r1" }

abbrev again : Finding ℕ
again = finding "new" "r2" opened "k" "h1"

abbrev Findings : KeyedTable (Finding ℕ) (λ f. f.id)
Findings = keyed_list (λ f. f.id)

abbrev table : List (Finding ℕ)
table = before ∷ fixed ∷ again ∷ []

deletes_new : (plan_reconcile (again ∷ []) (before ∷ [])).matched_new_ids ≡ "new" ∷ []
unfolding plan_reconcile Reconcile.plan_priors Reconcile.plan_prior Reconcile.index
    dragnet.Prelude.Dict.get dragnet.Prelude.Dict.set dragnet.Prelude.Dict.delete
deletes_new = refl

reconcile_findings_across_runs-fails_example :
    let currents = Findings.find_many (is_current "pr" "r2") table in
    let priors = Findings.find_many (is_prior "pr" "r2") table in
    let resolved_findings = Findings.find_many (is_resolved_before "pr") table in
    is_some (reconcile_findings_across_runs Findings [] "pr" "r2" table)
    ≡ not (
        any
          (is_deleted (plan_reconcile currents priors).matched_new_ids)
          (detect_regressions currents resolved_findings))
reconcile_findings_across_runs-fails_example =
    reconcile_findings_across_runs-fails Findings [] "pr" "r2" table

throws : reconcile_findings_across_runs Findings [] "pr" "r2" table ≡ none
unfolding reconcile_findings_across_runs dragnet.Reconcile.Runs.reconcile_found
    dragnet.Reconcile.Runs.write_updates plan_reconcile Reconcile.plan_priors Reconcile.plan_prior
    dragnet.Prelude.Dict.get Reconcile.index dragnet.Prelude.Dict.set
    dragnet.Reconcile.Runs.write_regressions detect_regressions Reconcile.detect_loop
    Reconcile.detect_one Reconcile.find_match dragnet.Prelude.Dict.has
    dragnet.Reconcile.Runs.resolved_ids
throws = refl
