-- ===== src/MergeGate/Ready.antt =====
-- When src/lib/mergeReady.ts lets a branch merge, and when src/lib/reviewStale.ts calls a run stale.
use dragnet.Prelude.{
  ℕ, ◌+◌, ◌≤◌, ◌<◌, String, Bool, true, false, ◌&&◌, not, Option, none, some, List, [], ◌∷◌, length,
  count_where, ◌==◌, is_some, ◌≡◌, ◌≢◌, ◌⊎◌, ◌↔◌, refl, arith, eq_iff,
}
use dragnet.MergeGate.{
  ReviewStaleReason, tip_mismatch, diff_changed, ReviewStaleInput, text_of, evaluate_review_stale,
  MergeReadyInput, coverage_short, merge_block_reason, is_text, is_other, is_true, rating_below,
  ChunkCoverage, get_chunk_coverage, is_terminal_chunk_status,
}

-- Where all four counts are known, the chunks that ended are no fewer than all chunks.
abbrev pub IsCovered : Option ℕ → Option ℕ → Option ℕ → Option ℕ → Type 0
IsCovered (some total) (some done) (some broken) (some left_out) = total ≤ done + broken + left_out
IsCovered _ _ _ _ = Unit

-- The contract at the head of mergeReady.ts, with the guard on the chunk coverage.
pub record IsMergeable (input : MergeReadyInput) : Type 0 where
  pub finished : (input.status ≡ none) ⊎ (input.status ≡ some "completed")
  pub reviewed : input.outcome ≢ some "skipped"
  pub rated : (r : ℕ) × ((input.rating ≡ some r) × (8 ≤ r))
  pub reliable :
      (input.reliability ≡ none)
      ⊎ ((input.reliability ≡ some "") ⊎ (input.reliability ≡ some "complete"))
  pub covered :
      IsCovered input.chunks_total input.chunks_completed input.chunks_failed input.chunks_skipped
  pub not_refused : input.is_refused ≢ some true
  pub not_stale : input.is_stale ≢ some true

is_text_iff : (t : String) (o : Option String) → (is_text t o ≡ true) ↔ (o ≡ some t)
is_text_iff t none = ground arith
is_text_iff t (some x) = ground (arith, eq_iff x t)

is_other_iff :
    (t : String) (o : Option String) → (is_other t o ≡ false) ↔ ((o ≡ none) ⊎ (o ≡ some t))
is_other_iff t none = ground arith
is_other_iff t (some x) = ground (arith, eq_iff x t)

is_true_iff : (o : Option Bool) → (is_true o ≡ true) ↔ (o ≡ some true)
is_true_iff none = ground arith
is_true_iff (some b) = ground arith

rated_iff :
    (o : Option ℕ)
    → ((is_some o ≡ true) × (rating_below o ≡ false)) ↔ ((r : ℕ) × ((o ≡ some r) × (8 ≤ r)))
rated_iff none = (λ h. absurd (ground arith), λ h. absurd (ground (arith, h.1.0)))
rated_iff (some n) = (λ h. (n, (refl, ground arith)), λ (r, p). (refl, ground (arith, p.0, p.1)))

coverage_short_iff : (t c f s : Option ℕ) → (coverage_short t c f s ≡ false) ↔ IsCovered t c f s
coverage_short_iff none c f s = ground arith
coverage_short_iff (some t) none f s = ground arith
coverage_short_iff (some t) (some c) none s = ground arith
coverage_short_iff (some t) (some c) (some f) none = ground arith
coverage_short_iff (some t) (some c) (some f) (some s) = ground arith

-- The guards of the code, in its order, as one Boolean conjunction.
guards_iff :
    (input : MergeReadyInput)
    → (merge_block_reason (some input) ≡ none) ↔ (
        (is_other "completed" input.status ≡ false)
        × (is_text "skipped" input.outcome ≡ false)
        × ((is_some input.rating ≡ true) × (rating_below input.rating ≡ false))
        × (coverage_short input.chunks_total input.chunks_completed input.chunks_failed
              input.chunks_skipped
            ≡ false)
        × ((is_other "" input.reliability && is_other "complete" input.reliability) ≡ false)
        × (is_true input.is_refused ≡ false)
        × (is_true input.is_stale ≡ false))
unfolding merge_block_reason
guards_iff input = (λ h. ground arith, λ h. ground arith)

-- The merge gate gives no reason to block exactly when the status is absent or "completed", the
-- outcome is not "skipped", there is a rating of 8 or more, the reliability is absent, empty or
-- "complete", the chunks that ended are no fewer than all chunks when all four counts are known,
-- and the run is neither refused nor stale.
pub merge_block_reason_iff :
    (input : MergeReadyInput) → (merge_block_reason (some input) ≡ none) ↔ IsMergeable input
merge_block_reason_iff input = ground (
  arith,
  guards_iff input,
  is_other_iff "completed" input.status,
  is_text_iff "skipped" input.outcome,
  rated_iff input.rating,
  coverage_short_iff input.chunks_total input.chunks_completed input.chunks_failed
      input.chunks_skipped,
  is_other_iff "" input.reliability,
  is_other_iff "complete" input.reliability,
  is_true_iff input.is_refused,
  is_true_iff input.is_stale,
)

two_texts : (s a b : String) → (a == b) ≡ false → (s == a) ≡ true → (s == b) ≡ false
two_texts s a b apart h = ground (arith, eq_iff s a, eq_iff s b, eq_iff a b)

-- The chunks that are completed, failed, skipped and not ended are all the chunks of the run.
chunk_counts-total :
    (chunks : List (Option String))
    → count_where (is_text "completed") chunks
        + count_where (is_text "failed") chunks
        + count_where (is_text "skipped") chunks
        + count_where (λ s. not (is_terminal_chunk_status s)) chunks
      ≡ length chunks
chunk_counts-total [] = omega arith
chunk_counts-total (none ∷ rest) = ground (arith, chunk_counts-total rest)
chunk_counts-total (some s ∷ rest) = ground (
  arith,
  chunk_counts-total rest,
  two_texts s "completed" "failed" refl,
  two_texts s "completed" "skipped" refl,
  two_texts s "failed" "skipped" refl,
)

-- the gate's input with the counts of these chunks
abbrev pub with_coverage : ChunkCoverage → MergeReadyInput → MergeReadyInput
with_coverage c input = record {
  status = input.status;
  outcome = input.outcome;
  rating = input.rating;
  reliability = input.reliability;
  is_refused = input.is_refused;
  is_stale = input.is_stale;
  chunks_total = some c.chunks_total;
  chunks_completed = some c.chunks_completed;
  chunks_failed = some c.chunks_failed;
  chunks_skipped = some c.chunks_skipped;
}

-- When the gate is asked with the counts of a run's chunk records and some chunk has not ended, it
-- gives a reason to block, whatever else it is told.
pub merge_block_reason-incomplete :
    (chunks : List (Option String)) (input : MergeReadyInput)
    → 0 < (get_chunk_coverage chunks).chunks_incomplete
    → is_some (merge_block_reason (some (with_coverage (get_chunk_coverage chunks) input))) ≡ true
unfolding get_chunk_coverage merge_block_reason
merge_block_reason-incomplete chunks input h = ground (arith, chunk_counts-total chunks)

-- What a verdict of staleness says of the trimmed hashes, an absent hash being the empty one.
-- Tips that differ win over diffs; an empty tip hash never makes a run stale, and neither does an
-- empty diff hash of the run.
abbrev pub StaleMeans : ReviewStaleInput → Option ReviewStaleReason → Type 0
StaleMeans input verdict =
    let run_tip = text_of input.run_commit_hash in
    let tip = text_of input.tip_commit_hash in
    let run_diff = text_of input.run_diff_hash in
    let current_diff = text_of input.current_diff_hash in
    ((verdict ≡ some tip_mismatch) × (run_tip ≢ "") × (tip ≢ "") × (run_tip ≢ tip))
    ⊎ (((run_tip ≡ "") ⊎ (tip ≡ "") ⊎ (run_tip ≡ tip))
        × (((verdict ≡ some diff_changed) × (run_diff ≢ "") × (run_diff ≢ current_diff))
            ⊎ ((verdict ≡ none) × ((run_diff ≡ "") ⊎ (run_diff ≡ current_diff)))))

-- A run is stale for its tip exactly when both tips are known and differ; otherwise it is stale for
-- its diff exactly when the run's diff hash is known and is not the current one; otherwise it is not
-- stale.
evaluate_review_stale-Means :
    (input : ReviewStaleInput) → StaleMeans input (evaluate_review_stale input)
unfolding evaluate_review_stale
evaluate_review_stale-Means input = ground (
  arith,
  eq_iff (text_of input.run_commit_hash) "",
  eq_iff (text_of input.tip_commit_hash) "",
  eq_iff (text_of input.run_commit_hash) (text_of input.tip_commit_hash),
  eq_iff (text_of input.run_diff_hash) "",
  eq_iff (text_of input.run_diff_hash) (text_of input.current_diff_hash),
)
