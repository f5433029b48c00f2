-- ===== src/MergeGate/Tests.antt =====
-- Verdicts at concrete inputs, and the theorems on them.
use dragnet.Prelude.{ℕ, String, false, Option, none, some, List, [], ◌∷◌, ◌≡◌, ◌↔◌, refl}
use dragnet.Prelude.Text
use dragnet.MergeGate.{
  ReviewStaleInput, evaluate_review_stale, MergeReadyInput, merge_block_reason, diff_changed,
  null_rating,
}
use dragnet.MergeGate.Ready.{IsMergeable, merge_block_reason_iff}
use dragnet.MergeGate.Reuse.{ReviewedRevision, undefined, evaluate_cache_eligibility}

abbrev rated : Option ℕ → MergeReadyInput
rated r = record {
  status = some "completed";
  outcome = some "reviewed";
  rating = r;
  reliability = some "complete";
  is_refused = none;
  is_stale = some false;
  chunks_total = some 3;
  chunks_completed = some 2;
  chunks_failed = some 0;
  chunks_skipped = some 1;
}

ready_at_8 : merge_block_reason (some (rated (some 8))) ≡ none
unfolding merge_block_reason
ready_at_8 = refl

blocked_without_rating : merge_block_reason (some (rated none)) ≡ some null_rating
unfolding merge_block_reason
blocked_without_rating = refl

merge_block_reason_iff_example :
    (merge_block_reason (some (rated (some 8))) ≡ none) ↔ IsMergeable (rated (some 8))
merge_block_reason_iff_example = merge_block_reason_iff (rated (some 8))

abbrev statuses : List (Option String)
statuses = some "completed" ∷ none ∷ some "failed" ∷ []

abbrev hashes : Option String → ReviewStaleInput
hashes current = record {
  run_commit_hash = some "abc ";
  tip_commit_hash = some "abc";
  run_diff_hash = some "d1";
  current_diff_hash = current;
}

-- an unknown hash of the current diff
missing_diff_is_stale : evaluate_review_stale (hashes none) ≡ some diff_changed
unfolding evaluate_review_stale Text.trim
missing_diff_is_stale = refl

same_diff_is_fresh : evaluate_review_stale (hashes (some " d1")) ≡ none
unfolding evaluate_review_stale Text.trim
same_diff_is_fresh = refl

abbrev revision : ReviewedRevision
revision = record {
  commit_hash = "abc";
  diff_hash = "d1";
  review_config_hash = "c1";
  toolchain_fingerprint = undefined;
}

abbrev chunks : Option (List (Option String))
chunks = some (some "completed" ∷ some "completed" ∷ [])

reusable : evaluate_cache_eligibility revision (some 2) revision chunks ≡ none
unfolding evaluate_cache_eligibility
reusable = refl
