-- ===== src/Runs/Listed.antt =====
-- Which findings a report of `getLatestCompletedReview` (src/lib/reviewFreshness.ts) shows.
use dragnet.Prelude.{
  String, Bool, ◌&&◌, ◌||◌, not, Option, some, List, filter, any, ◌==◌, ◌≡◌, ap, ◌∙◌, arith,
  any-filter, any-or, any-ext,
}
use dragnet.Database.{Table}
use dragnet.Reconcile.{Finding, same_text}
use dragnet.Runs.{ReviewRun}
use dragnet.Runs.Freshness.{completed_of, latest_completed}
use dragnet.Runs.Reports.{
  is_seen_in, is_rejected, is_listed, is_listed_rejected, is_listed_regression, Revision, report_of,
  get_latest_completed_review,
}

-- a regression that is not rejected and that an earlier run inserted
abbrev pub is_old_regression : {Score : Type 0} → String → Finding Score → Bool
is_old_regression run_id f =
    f.is_regression && not (is_rejected f) && not (same_text f.review_run_id (some run_id))

abbrev pub has_finding : {Score : Type 0} → String → List (Finding Score) → Bool
has_finding k fs = any (λ f. f.id == k) fs

one_list :
    (key own seen rejected regression : Bool)
    → (((key && ((own || seen) && not rejected && not regression)) || (key && (own && regression)))
        || (key && ((own || seen) && rejected)))
      ≡ (key && ((own || seen) && not (regression && not rejected && not own)))
one_list key own seen rejected regression = ground arith

module _ {Score : Type 0} (run_id k : String) where
  abbrev is_key : Finding Score → Bool
  is_key f = f.id == k

  shown-filters :
      (fs : List (Finding Score))
      → ((has_finding k (filter (is_listed run_id) fs)
            || has_finding k (filter (is_listed_regression run_id) fs))
          || has_finding k (filter (is_listed_rejected run_id) fs))
        ≡ any (λ f. is_key f && (is_seen_in run_id f && not (is_old_regression run_id f))) fs
  shown-filters fs =
      let here = λ (f : Finding Score). is_key f && is_listed run_id f in
      let new = λ (f : Finding Score). is_key f && is_listed_regression run_id f in
      let out = λ (f : Finding Score). is_key f && is_listed_rejected run_id f in
      rw
        (
          any-filter is_key (is_listed run_id) fs,
          any-filter is_key (is_listed_regression run_id) fs,
          any-filter is_key (is_listed_rejected run_id) fs,
        )
        (ap (λ b. b || any out fs) (any-or here new fs)
          ∙ any-or (λ f. here f || new f) out fs
          ∙ any-ext (λ f. (here f || new f) || out f)
              (λ f. is_key f && (is_seen_in run_id f && not (is_old_regression run_id f))) fs
              (λ f.
                one_list (is_key f) (same_text f.review_run_id (some run_id))
                  (same_text f.last_seen_run_id (some run_id)) (is_rejected f) f.is_regression))

-- The report of a pull request's latest completed run shows exactly the findings that the run inserted or
-- has seen again, but for the regressions that are not rejected and that an earlier run inserted:
-- these stand in none of its three lists.
pub get_latest_completed_review-shows :
    {Score : Type 0} (T : Table ReviewRun) (chunks_of : String → List (Option String))
    (findings : List (Finding Score)) (pr_id : String) (revision : Revision) (t : T.Rows)
    (run : ReviewRun) (k : String)
    → T.find_first (completed_of pr_id) latest_completed t ≡ some run
    → let report = get_latest_completed_review T chunks_of findings pr_id revision t in
      ((has_finding k report.findings || has_finding k report.regressions)
        || has_finding k report.rejected_findings)
      ≡ any (λ f. f.id == k && (is_seen_in run.id f && not (is_old_regression run.id f))) findings
unfolding get_latest_completed_review report_of
get_latest_completed_review-shows T chunks_of findings pr_id revision t run k found =
    rw (found, get_latest_completed_review) (shown-filters run.id k findings)
