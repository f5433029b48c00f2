-- ===== src/MergeGate.antt =====
-- When a finished review counts: src/lib/reviewStale.ts, src/lib/mergeReady.ts
-- and src/lib/chunkCoverage.ts. The texts of the messages are left out.
-- A rating and a number of chunks are whole numbers, as the columns are.
pub mod Ready
pub mod Reuse
mod Tests
use dragnet.Prelude.{
  ℕ, zero, ◌+◌, String, Bool, true, false, ◌&&◌, ◌||◌, not, Option, none, some, get_or, List, [],
  ◌∷◌, length, count_where, any, ltb, eqb, ◌==◌, if◌then◌else◌, is_some,
}
use dragnet.Prelude.Text.{trim}

pub data ReviewStaleReason : Type 0 where
  tip_mismatch diff_changed incomplete_chunks toolchain_changed : ReviewStaleReason

pub record ReviewStaleInput : Type 0 where
  pub run_commit_hash : Option String
  pub tip_commit_hash : Option String
  pub run_diff_hash : Option String
  pub current_diff_hash : Option String

-- `(x ?? "").trim()`, and its truth
abbrev pub text_of : Option String → String
text_of x = trim (get_or x "")

abbrev pub is_present : String → Bool
is_present s = not (s == "")

-- `none` for `{ stale: false, reason: null }`
unfoldable pub evaluate_review_stale : ReviewStaleInput → Option ReviewStaleReason
evaluate_review_stale input =
    let run_tip = text_of input.run_commit_hash in
    let tip = text_of input.tip_commit_hash in
    let run_diff = text_of input.run_diff_hash in
    let current_diff = text_of input.current_diff_hash in
    if is_present run_tip && is_present tip && not (run_tip == tip)
    then some tip_mismatch
    else if is_present run_diff && not (run_diff == current_diff)
    then some diff_changed
    else none

pub data MergeBlockReason : Type 0 where
  no_run not_finished skipped null_rating rating_below_threshold reliability_incomplete :
      MergeBlockReason
  coverage_incomplete refused stale : MergeBlockReason

abbrev pub merge_rating_threshold : ℕ
merge_rating_threshold = 8

pub record MergeReadyInput : Type 0 where
  pub status : Option String
  pub outcome : Option String
  pub rating : Option ℕ
  pub reliability : Option String
  pub is_refused : Option Bool
  pub is_stale : Option Bool
  pub chunks_total : Option ℕ
  pub chunks_completed : Option ℕ
  pub chunks_failed : Option ℕ
  pub chunks_skipped : Option ℕ

-- `x === text`
abbrev pub is_text : String → Option String → Bool
is_text text none = false
is_text text (some x) = x == text

-- `x != null && x !== text`
abbrev pub is_other : String → Option String → Bool
is_other text none = false
is_other text (some x) = not (x == text)

abbrev pub is_true : Option Bool → Bool
is_true none = false
is_true (some b) = b

abbrev pub rating_below : Option ℕ → Bool
rating_below none = false
rating_below (some r) = ltb r merge_rating_threshold

-- all four counts are known, and the terminal chunks are fewer than the total
abbrev pub coverage_short : Option ℕ → Option ℕ → Option ℕ → Option ℕ → Bool
coverage_short (some total) (some done) (some broken) (some left_out) =
    ltb (done + broken + left_out) total
coverage_short _ _ _ _ = false

-- the reason that blocks the merge; `none` for `{ mergeReady: true }`
unfoldable pub merge_block_reason : Option MergeReadyInput → Option MergeBlockReason
merge_block_reason none = some no_run
merge_block_reason (some input) =
    if is_other "completed" input.status
    then some not_finished
    else if is_text "skipped" input.outcome
    then some skipped
    else if not (is_some input.rating)
    then some null_rating
    else if coverage_short input.chunks_total input.chunks_completed input.chunks_failed
        input.chunks_skipped
    then some coverage_incomplete
    else if rating_below input.rating
    then some rating_below_threshold
    else if is_other "" input.reliability && is_other "complete" input.reliability
    then some reliability_incomplete
    else if is_true input.is_refused
    then some refused
    else if is_true input.is_stale
    then some stale
    else none

-- chunkCoverage.ts
abbrev pub is_terminal_chunk_status : Option String → Bool
is_terminal_chunk_status status =
    is_text "completed" status || is_text "failed" status || is_text "skipped" status

pub record ChunkCoverage : Type 0 where
  pub chunks_total : ℕ
  pub chunks_completed : ℕ
  pub chunks_failed : ℕ
  pub chunks_skipped : ℕ
  pub chunks_incomplete : ℕ

unfoldable pub get_chunk_coverage : List (Option String) → ChunkCoverage
get_chunk_coverage statuses = record {
  chunks_total = length statuses;
  chunks_completed = count_where (is_text "completed") statuses;
  chunks_failed = count_where (is_text "failed") statuses;
  chunks_skipped = count_where (is_text "skipped") statuses;
  chunks_incomplete = count_where (λ s. not (is_terminal_chunk_status s)) statuses;
}
