-- ===== src/Runs/Reports.antt =====
-- src/lib/reviewFreshness.ts, `getLatestCompletedReview` and `getLatestTerminalReview`: the run that a report
-- shows, whether it is stale, and the findings it lists. `findings` are the rows of the table
-- `ReviewFinding`; the order of the lists, by line, is left out. The hash of the current diff, the tip of
-- the pull request and the chunks of a run are arguments.
use dragnet.Prelude.{
  String, Bool, true, false, ◌&&◌, ◌||◌, not, Option, none, some, get_or, List, [], filter, ltb,
  ◌==◌, if◌then◌else◌, is_some,
}
use dragnet.Database.{Table}
use dragnet.MergeGate.{ReviewStaleReason, incomplete_chunks, evaluate_review_stale}
use dragnet.MergeGate.Reuse.{
  CacheIneligibilityReason, contradictory_chunks, undefined, evaluate_cache_eligibility,
}
use dragnet.MergeGate.Reuse
use dragnet.Reconcile.{Finding, same_text}
use dragnet.Runs.{ReviewRun, RunStatus, completed, failed}
use dragnet.Runs.Freshness.{completed_of, latest_completed, revision_of}

module _ {Score : Type 0} where
  -- `OR: [{ reviewRunId }, { lastSeenRunId }]`
  abbrev pub is_seen_in : String → Finding Score → Bool
  is_seen_in run_id f =
      same_text f.review_run_id (some run_id) || same_text f.last_seen_run_id (some run_id)

  abbrev pub is_rejected : Finding Score → Bool
  is_rejected f =
      same_text f.verdict.verification_status (some "rejected")
      || same_text f.verdict.skeptic_verdict (some "rejected")

  -- the three queries: `findings`, `rejectedFindings` and `regressionRows`
  abbrev pub is_listed : String → Finding Score → Bool
  is_listed run_id f = is_seen_in run_id f && not (is_rejected f) && not f.is_regression

  abbrev pub is_listed_rejected : String → Finding Score → Bool
  is_listed_rejected run_id f = is_seen_in run_id f && is_rejected f

  abbrev pub is_listed_regression : String → Finding Score → Bool
  is_listed_regression run_id f = same_text f.review_run_id (some run_id) && f.is_regression

pub record Revision : Type 0 where
  pub tip_commit_hash : Option String
  pub current_diff_hash : String

pub record LatestReview (Score : Type 0) : Type 0 where
  pub review_run : Option ReviewRun
  pub findings : List (Finding Score)
  pub regressions : List (Finding Score)
  pub rejected_findings : List (Finding Score)
  pub is_stale : Bool
  pub stale_reason : Option ReviewStaleReason

abbrev pub stale_of : ReviewRun → Revision → Option ReviewStaleReason
stale_of run revision = evaluate_review_stale (record {
  run_commit_hash = some run.commit_hash;
  tip_commit_hash = revision.tip_commit_hash;
  run_diff_hash = some run.diff_hash;
  current_diff_hash = some revision.current_diff_hash;
})

abbrev pub is_chunk_reason : Option CacheIneligibilityReason → Bool
is_chunk_reason (some Reuse.incomplete_chunks) = true
is_chunk_reason (some contradictory_chunks) = true
is_chunk_reason _ = false

unfoldable pub is_cache_stale : (String → List (Option String)) → ReviewRun → Revision → Bool
is_cache_stale chunks_of run revision = is_chunk_reason (
    evaluate_cache_eligibility (revision_of run) (some run.chunks_total)
      (record {
        commit_hash = get_or revision.tip_commit_hash "";
        diff_hash = revision.current_diff_hash;
        review_config_hash = run.review_config_hash;
        toolchain_fingerprint = undefined;
      })
      (some (if ltb 0 run.chunks_total then chunks_of run.id else [])))

module _ {Score : Type 0} where
  unfoldable pub report_of :
      (String → List (Option String))
      → List (Finding Score)
      → Revision
      → Option ReviewRun
      → LatestReview Score
  report_of chunks_of findings revision none = record {
    review_run = none;
    findings = [];
    regressions = [];
    rejected_findings = [];
    is_stale = false;
    stale_reason = none;
  }
  report_of chunks_of findings revision (some run) = record {
    review_run = some run;
    findings = filter (is_listed run.id) findings;
    regressions = filter (is_listed_regression run.id) findings;
    rejected_findings = filter (is_listed_rejected run.id) findings;
    is_stale = is_some (stale_of run revision) || is_cache_stale chunks_of run revision;
    stale_reason =
        if is_cache_stale chunks_of run revision
        then some incomplete_chunks
        else stale_of run revision;
  }

  module _ (T : Table ReviewRun) (chunks_of : String → List (Option String))
      (findings : List (Finding Score)) where
    unfoldable pub get_latest_completed_review : String → Revision → T.Rows → LatestReview Score
    get_latest_completed_review pr_id revision t =
        report_of chunks_of findings revision (T.find_first (completed_of pr_id) latest_completed t)

-- `status: { in: ["completed", "failed"] }`
abbrev pub is_terminal_run : RunStatus → Bool
is_terminal_run completed = true
is_terminal_run failed = true
is_terminal_run _ = false

abbrev pub terminal_of : String → ReviewRun → Bool
terminal_of pr run = run.pr_id == pr && is_terminal_run run.status

unfoldable pub terminal_report :
    Revision → Option ReviewRun → Option ReviewRun × Option ReviewStaleReason
terminal_report revision none = (none, none)
terminal_report revision (some run) = (some run, stale_of run revision)

module _ (T : Table ReviewRun) where
  unfoldable pub get_latest_terminal_review :
      String → Revision → T.Rows → Option ReviewRun × Option ReviewStaleReason
  get_latest_terminal_review pr_id revision t =
      terminal_report revision (T.find_first (terminal_of pr_id) latest_completed t)
