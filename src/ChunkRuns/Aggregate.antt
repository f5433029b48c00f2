-- ===== src/ChunkRuns/Aggregate.antt =====
-- `aggregateResults` of src/services/largePrReview/aggregator.ts: what a run says of its chunks, and what
-- is written to its row. The publication of findings, the history and the repository's counters are left
-- out. `runLargePrReview` and `retryFailedChunks` end with it.
use dragnet.Prelude.{
  ℕ, ◌+◌, ◌*◌, max, String, Bool, true, false, ◌&&◌, ◌||◌, not, Option, none, some, List, [], ◌∷◌,
  map, filter, any, ltb, eqb, ◌==◌, if◌then◌else◌, is_some, get_or,
}
use Prim.Native.Nat.{◌/◌}
use dragnet.MergeGate.{ChunkCoverage, get_chunk_coverage}
use dragnet.ChunkRuns.{
  Chunk, ChunkStatus, pending, running, interrupted, completed, failed, skipped, RunnerAttempt,
  LoopEnd, run_chunks, retry_chunks,
}

abbrev pub status_text : ChunkStatus → String
status_text pending = "pending"
status_text running = "running"
status_text interrupted = "interrupted"
status_text completed = "completed"
status_text failed = "failed"
status_text skipped = "skipped"

abbrev pub is_completed : ChunkStatus → Bool
is_completed completed = true
is_completed _ = false

pub data ReviewReliability : Type 0 where
  complete partial incomplete_security_review : ReviewReliability

unfoldable pub coverage_of : List Chunk → ChunkCoverage
coverage_of chunks = get_chunk_coverage (map (λ c. some (status_text c.status)) chunks)

abbrev pub is_incomplete_security : List Chunk → Bool
is_incomplete_security chunks =
    any (λ c. c.touches_security_sensitive && not (is_completed c.status)) chunks

unfoldable pub reliability_of : List Chunk → ReviewReliability
unfolding coverage_of
reliability_of chunks =
    let coverage = coverage_of chunks in
    if is_incomplete_security chunks
    then incomplete_security_review
    else if ltb 0 coverage.chunks_incomplete
        || ltb 0 coverage.chunks_failed
        || ltb 0 coverage.chunks_skipped
    then partial
    else complete

abbrev pub is_rated : Chunk → Bool
is_rated c = is_completed c.status && is_some c.rating

-- the sums of the two `reduce` calls, over the rated chunks
abbrev pub weight : List Chunk → ℕ
weight [] = 0
weight (c ∷ cs) = max 1 c.line_count + weight cs

abbrev pub weighted_total : List Chunk → ℕ
weighted_total [] = 0
weighted_total (c ∷ cs) = get_or c.rating 0 * max 1 c.line_count + weighted_total cs

-- `Math.round(t / w)`, for natural numbers
unfoldable pub round_div : ℕ → ℕ → ℕ
round_div t w = (2 * t + w) / (2 * w)

abbrev pub rating_of_rated : List Chunk → Option ℕ
rating_of_rated [] = none
rating_of_rated (c ∷ cs) = some (round_div (weighted_total (c ∷ cs)) (weight (c ∷ cs)))

unfoldable pub weighted_rating : List Chunk → Option ℕ
weighted_rating chunks = rating_of_rated (filter is_rated chunks)

pub record Aggregated : Type 0 where
  pub reliability : ReviewReliability
  pub rating : Option ℕ
  pub coverage : ChunkCoverage
  -- the run is written as completed
  pub is_complete : Bool

abbrev pub is_security : ReviewReliability → Bool
is_security incomplete_security_review = true
is_security _ = false

unfoldable pub aggregate_results : List Chunk → Aggregated
unfolding coverage_of
aggregate_results chunks =
    let incomplete = (coverage_of chunks).chunks_incomplete in
    record {
      reliability = reliability_of chunks;
      rating =
          if ltb 0 incomplete || is_security (reliability_of chunks)
          then none
          else weighted_rating chunks;
      coverage = coverage_of chunks;
      is_complete = eqb incomplete 0;
    }

-- the loop of `runLargePrReview` over the planned chunks, and its aggregation
unfoldable pub run_large_pr_review :
    {W : Type 0}
    → (Chunk → W → RunnerAttempt × W)
    → (W → Bool)
    → List Chunk
    → W
    → List Chunk × LoopEnd × Aggregated
run_large_pr_review runner is_active plans w =
    let (chunks, end, _) = run_chunks runner is_active none 0 plans w in
    (chunks, end, aggregate_results chunks)

-- why a retry answers with an error
pub data RetryError : Type 0 where
  identity_changed configuration_changed ownership_changed : RetryError

pub data RetryAnswer : Type 0 where
  rejected : RetryError → List Chunk → RetryAnswer
  aggregated : Aggregated → List Chunk → RetryAnswer

pub record Identity : Type 0 where
  pub commit_hash : String
  pub diff_hash : String
  pub review_config_hash : String

unfoldable pub retry_end : {W : Type 0} → (W → Bool) → List Chunk × W → RetryAnswer
retry_end is_owned (chunks, w) =
    if is_owned w
    then aggregated (aggregate_results chunks) chunks
    else rejected ownership_changed chunks

-- `retryFailedChunks`, from the identity of the run and the current one
unfoldable pub retry_failed_chunks :
    {W : Type 0}
    → (Chunk → W → RunnerAttempt × W)
    → (W → Bool)
    → Identity
    → Identity
    → List Chunk
    → W
    → RetryAnswer
retry_failed_chunks runner is_owned run current chunks w =
    if not (run.commit_hash == current.commit_hash) || not (run.diff_hash == current.diff_hash)
    then rejected identity_changed chunks
    else if not (run.review_config_hash == current.review_config_hash)
    then rejected configuration_changed chunks
    else retry_end is_owned (retry_chunks runner is_owned chunks w)
