-- ===== src/Runs/CacheHits.antt =====
-- When `assertReviewFreshness` (src/lib/reviewFreshness.ts) takes a review from an earlier run.
use dragnet.Prelude.{
  ℕ, String, true, Option, none, some, List, ◌≡◌, ◌↔◌, inl, inr, sym, arith, Option-cases,
  Bool-cases,
}
use dragnet.Database.{Table}
use dragnet.MergeGate.Reuse.{
  CacheIneligibilityReason, undefined, ReviewedRevision, IsReusable, evaluate_cache_eligibility,
  evaluate_cache_eligibility_iff,
}
use dragnet.Runs.{ReviewRun}
use dragnet.Runs.Freshness.{
  fresh, completed_of, latest_completed, revision_of, is_trusted, judge_latest, chunks_read,
  check_freshness, assert_review_freshness,
}

judge_latest_iff :
    (run : ReviewRun) (e : Option CacheIneligibilityReason) (rating : ℕ)
    → (judge_latest run e ≡ fresh run.id rating)
      ↔ ((run.rating ≡ some rating) × (is_trusted run.reliability ≡ true) × (e ≡ none))
unfolding judge_latest
judge_latest_iff run (some reason) rating = ground arith
judge_latest_iff run none rating = elim (Option-cases run.rating) [
  | inl e ↦ rw (e, judge_latest) (ground arith)
  | inr (r, e) ↦ elim (Bool-cases (is_trusted run.reliability)) [
    | inl trusted ↦ rw (e, trusted, judge_latest) (ground arith)
    | inr not_trusted ↦ rw (e, not_trusted, judge_latest) (ground arith)
  ]
]

module _ (T : Table ReviewRun) (chunks_of : String → List (Option String)) where
  not_asked :
      (run : ReviewRun) (total : Option ℕ) (current : ReviewedRevision)
      (chunks : Option (List (Option String)))
      → IsReusable (revision_of run) total current chunks
      → current.toolchain_fingerprint ≡ undefined
  not_asked run total current chunks h = elim h.same_toolchain [ inl e ↦ e | inr e ↦ sym e ]

  -- The latest completed run of a pull request is taken exactly when it has a rating, its reliability is
  -- complete or unknown, no fingerprint of the toolchain is asked for, and it is reusable for the
  -- current revision: a fingerprint that is asked for makes every run stale.
  pub assert_review_freshness_iff :
      (pr_id : String) (current : ReviewedRevision) (t : T.Rows) (run : ReviewRun) (rating : ℕ)
      → T.find_first (completed_of pr_id) latest_completed t ≡ some run
      → (assert_review_freshness T chunks_of pr_id current t ≡ fresh run.id rating) ↔ (
          (run.rating ≡ some rating)
          × (is_trusted run.reliability ≡ true)
          × (current.toolchain_fingerprint ≡ undefined)
          × IsReusable
              (revision_of run)
              (some run.chunks_total)
              current
              (chunks_read T chunks_of run))
  unfolding assert_review_freshness check_freshness
  assert_review_freshness_iff pr_id current t run rating found =
      let chunks = chunks_read T chunks_of run in
      let (to, from) =
        judge_latest_iff run
          (evaluate_cache_eligibility (revision_of run) (some run.chunks_total) current chunks)
          rating in
      let (means, suffices) =
        evaluate_cache_eligibility_iff (revision_of run) (some run.chunks_total) current chunks in
      rw (found, assert_review_freshness)
        (
          λ h. (
            (to h).0,
            (to h).1,
            not_asked run (some run.chunks_total) current chunks (means (to h).2),
            means (to h).2,
          ),
          λ h. from (h.0, h.1, suffices h.3),
        )
