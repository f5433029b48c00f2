-- ===== src/Runs/ReportTests.antt =====
-- The theorems on reused runs, reports and revisions at concrete inputs.
use dragnet.Prelude.{
  ℕ, String, Bool, true, false, ◌&&◌, ◌||◌, not, any, Option, none, some, List, [], ◌∷◌, ltb,
  count_where, ◌==◌, ◌≡◌, ◌↔◌, refl,
}
use dragnet.Database.ListTable.{list_table}
use dragnet.MergeGate.Reuse.{ReviewedRevision, undefined, IsReusable}
use dragnet.Reconcile.{Finding, opened}
use dragnet.Runs.{ReviewRun, Checkpoint, in_progress, completed, running, assert_no_active_scan}
use dragnet.Runs.Freshness.{
  fresh, revision_of, is_trusted, chunks_read, completed_of, latest_completed,
  assert_review_freshness,
}
use dragnet.Runs.CacheHits.{assert_review_freshness_iff}
use dragnet.Runs.Reports.{is_seen_in, Revision, get_latest_completed_review}
use dragnet.Runs.Listed.{is_old_regression, has_finding, get_latest_completed_review-shows}
use dragnet.Runs.Active.{has_ended, get_active_scan, get_active_scan_iff}
use dragnet.Runs.Revisions.{
  PullRequest, is_scanned, status_for_revision, complete_pr_review_if_current, IsFair,
  complete_pr_review_if_current-IsFair,
}

abbrev done_run : ReviewRun
done_run = record {
  id = "run-1";
  pr_id = "pr1";
  status = completed;
  commit_hash = "c0ffee";
  diff_hash = "d1ff";
  review_config_hash = "cf9";
  started_at = 100;
  last_activity_at = some 400;
  last_checkpoint_at = none;
  completed_at = some 500;
  model = none;
  trigger_reason = none;
  rating = some 8;
  outcome = some "reviewed";
  is_refused = false;
  refusal_note = none;
  reliability = some "complete";
  chunks_total = 2;
  chunks_completed = 2;
  chunks_failed = 0;
  chunks_skipped = 0;
  terminal_class = none;
  system_warn = none;
}

abbrev active_run : ReviewRun
active_run = record done_run {
  id = "run-2";
  status = in_progress;
  commit_hash = "beef";
  completed_at = none;
  rating = none;
}

abbrev runs : List ReviewRun
runs = done_run ∷ active_run ∷ []

abbrev both_done : String → List (Option String)
both_done run_id = some "completed" ∷ some "completed" ∷ []

latest_is_done :
    (list_table ReviewRun).find_first (completed_of "pr1") latest_completed runs ≡ some done_run
unfolding dragnet.Database.ListTable.first
latest_is_done = refl

abbrev current : ReviewedRevision
current = record {
  commit_hash = "c0ffee";
  diff_hash = "d1ff";
  review_config_hash = "cf9";
  toolchain_fingerprint = undefined;
}

assert_review_freshness_iff_example :
    (assert_review_freshness (list_table ReviewRun) both_done "pr1" current runs ≡ fresh "run-1" 8)
    ↔ ((done_run.rating ≡ some 8)
        × (is_trusted (some "complete") ≡ true)
        × (current.toolchain_fingerprint ≡ undefined)
        × IsReusable
            (revision_of done_run)
            (some 2)
            current
            (chunks_read (list_table ReviewRun) both_done done_run))
assert_review_freshness_iff_example =
    assert_review_freshness_iff (list_table ReviewRun) both_done "pr1" current runs done_run 8
      latest_is_done

abbrev finding : String → String → Bool → Finding ℕ
finding id run again = record {
  id = id;
  pr_id = "pr1";
  repo_id = "repo";
  review_run_id = some run;
  filename = "a.ts";
  line = some 12;
  fingerprint = some "k";
  status = some opened;
  last_seen_run_id = some "run-1";
  source_hash_at_insert = none;
  resolved_at_run_id = none;
  is_regression = again;
  regressed_from_run_id = none;
  verdict = record {
    skeptic_verdict = none;
    skeptic_note = none;
    verification_status = none;
    verification_note = none;
    confidence = none;
  };
}

-- the second one is a regression that an earlier run found
abbrev findings : List (Finding ℕ)
findings = finding "f1" "run-1" true ∷ finding "f2" "run-0" true ∷ finding "f3" "run-0" false ∷ []

abbrev tip : Revision
tip = record { tip_commit_hash = some "c0ffee"; current_diff_hash = "d1ff" }

get_latest_completed_review-shows_example :
    let report =
      get_latest_completed_review (list_table ReviewRun) both_done findings "pr1" tip runs in
    ((has_finding "f2" report.findings || has_finding "f2" report.regressions)
      || has_finding "f2" report.rejected_findings)
    ≡ any
        (λ f. f.id == "f2" && (is_seen_in "run-1" f && not (is_old_regression "run-1" f)))
        findings
get_latest_completed_review-shows_example =
    get_latest_completed_review-shows (list_table ReviewRun) both_done findings "pr1" tip runs
      done_run "f2" latest_is_done

not_shown :
    any (λ f. f.id == "f2" && (is_seen_in "run-1" f && not (is_old_regression "run-1" f))) findings
    ≡ false
not_shown = refl

abbrev checkpoints : String → String → List Checkpoint
checkpoints repo_path run_id = []

get_active_scan_iff_example :
    ((get_active_scan (list_table ReviewRun) 900 "pr1" (some "In Progress") 1000 runs).0
      ≡ some active_run)
    ↔ (((assert_no_active_scan (list_table ReviewRun) 900 checkpoints "pr1" false none 1000 runs).0
          ≡ running active_run)
        × (has_ended (some "In Progress") ≡ false))
get_active_scan_iff_example =
    get_active_scan_iff (list_table ReviewRun) 900 checkpoints "pr1" (some "In Progress") none 1000
      runs active_run

tip_moved : status_for_revision (some "Completed") (some "c0ffee") "beef" ≡ "Pending"
unfolding status_for_revision
tip_moved = refl

abbrev pull_requests : List PullRequest
pull_requests =
    record { id = "pr1"; status = "In Progress"; commit_hash = "beef"; rating = none }
    ∷ record { id = "pr2"; status = "Merged"; commit_hash = "f00"; rating = some 9 }
    ∷ []

complete_pr_review_if_current-IsFair_example :
    let (done, after) =
      complete_pr_review_if_current
        (list_table PullRequest)
        (list_table ReviewRun)
        "pr1"
        "c0ffee"
        none
        runs
        pull_requests in
    (done ≡ ltb 0 (count_where (is_scanned "pr1" "c0ffee") pull_requests))
    × IsFair "pr1" "c0ffee" pull_requests after
complete_pr_review_if_current-IsFair_example =
    complete_pr_review_if_current-IsFair (list_table PullRequest) (list_table ReviewRun) "pr1"
      "c0ffee" none runs pull_requests
