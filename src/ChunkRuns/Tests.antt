-- ===== src/ChunkRuns/Tests.antt =====
-- Runs of chunks on small inputs.
use dragnet.Prelude.{
  ℕ, zero, suc, ◌≤◌, ◌-◌, String, Bool, true, false, Option, none, some, List, [], ◌∷◌, map, length,
  count_where, ◌≡◌, refl, leb→le,
}
use dragnet.ChunkRuns.{
  Chunk, pending, running, interrupted, completed, failed, skipped, Scan, RunnerAttempt, returns,
  throws, LoopEnd, finished, run_chunks, run_chunk_with_retry, after_first, after_chunk, prepend,
  mark_skipped, mark_running, mark_completed, mark_failed, mark_interrupted, normalize_error,
  is_run_closed_error, retry_chunks,
}
use dragnet.ChunkRuns
use dragnet.MergeGate
use dragnet.ChunkRuns.Aggregate.{
  aggregate_results, run_large_pr_review, retry_failed_chunks, aggregated, weighted_rating,
  round_div, reliability_of, coverage_of, Identity,
}
use dragnet.ChunkRuns.Progress.{is_interruption, run_large_pr_review-completes}
use dragnet.ChunkRuns.Breaker.{failing, always, statuses, failed_then_skipped, run_chunks-breaker}
use dragnet.ChunkRuns.Rating.{IsBetween, aggregate_results-IsBetween}
use dragnet.ChunkRuns.Interrupted.{Retries, retry_failed_chunks-returned}

abbrev chunk : String → ℕ → Chunk
chunk id lines = record {
  id = id;
  status = pending;
  line_count = lines;
  touches_security_sensitive = false;
  rating = none;
  error_message = none;
  skip_reason = none;
}

abbrev scan : Bool → ℕ → Scan
scan stop rating = record { is_interrupted = stop; rating = some rating; message = none }

abbrev five : List Chunk
five = chunk "1" 10 ∷ chunk "2" 20 ∷ chunk "3" 30 ∷ chunk "4" 40 ∷ chunk "5" 50 ∷ []

-- the first two calls throw, the others return
abbrev recovers : Chunk → ℕ → RunnerAttempt × ℕ
recovers c zero = (throws "timeout after 30s", 1)
recovers c (suc zero) = (throws "timeout after 31s", 2)
recovers c (suc (suc n)) = (returns (scan false 7), suc (suc (suc n)))

normalized : normalize_error "Timeout after 300s, 2 left" ≡ "timeout after #s, # left"
unfolding normalize_error ChunkRuns.mask_digits ChunkRuns.take_text dragnet.Prelude.Text.lower_case
normalized = refl

retried : (run_chunk_with_retry recovers (chunk "1" 10) 1).1 ≡ 3
unfolding run_chunk_with_retry after_first is_run_closed_error dragnet.Prelude.Text.includes
    dragnet.Prelude.Text.lower_case
retried = refl

recovers_on : (c : Chunk) (n : ℕ) → is_interruption (recovers c n).0 ≡ false
recovers_on c zero = refl
recovers_on c (suc zero) = refl
recovers_on c (suc (suc n)) = refl

run_large_pr_review-completes_example :
    let (chunks, end, outcome) = run_large_pr_review recovers always five 0 in
    (end ≡ finished) × (outcome.is_complete ≡ true)
run_large_pr_review-completes_example =
    run_large_pr_review-completes recovers always five 0 (refl, (refl, (refl, (refl, (refl, tt)))))
      (λ n. refl) recovers_on

abbrev down : Chunk → ℕ → String
down c n = "provider down"

down_key : normalize_error "provider down" ≡ "provider down"
unfolding normalize_error ChunkRuns.mask_digits ChunkRuns.take_text dragnet.Prelude.Text.lower_case
down_key = refl

run_chunks-breaker_example :
    let (chunks, end, calls) = run_chunks (failing down) always none 0 five 0 in
    (calls ≤ 6) × (end ≡ finished) × (statuses chunks ≡ failed_then_skipped 3 five)
run_chunks-breaker_example = run_chunks-breaker down "provider down" five (λ c n. down_key) refl

abbrev rated : List Chunk
rated =
    mark_completed (scan false 9) (chunk "1" 100)
    ∷ mark_completed (scan false 4) (chunk "2" 300)
    ∷ []

rated_rating : (aggregate_results rated).rating ≡ some 5
unfolding aggregate_results weighted_rating round_div reliability_of coverage_of
    MergeGate.get_chunk_coverage
rated_rating = refl

aggregate_results-IsBetween_example : IsBetween 4 9 (aggregate_results rated).rating
aggregate_results-IsBetween_example =
    aggregate_results-IsBetween 4 9 rated
      ((leb→le 4 9 refl, leb→le 9 9 refl), ((leb→le 4 4 refl, leb→le 4 9 refl), tt))

abbrev run : Identity
run = record { commit_hash = "c0ffee"; diff_hash = "d1ff"; review_config_hash = "cf9" }

-- one chunk is interrupted, one throws twice, the others return
abbrev mixed : Chunk → ℕ → RunnerAttempt × ℕ
mixed c zero = (returns (scan true 0), 1)
mixed c (suc zero) = (throws "timeout", 2)
mixed c (suc (suc zero)) = (throws "timeout", 3)
mixed c (suc (suc (suc n))) = (returns (scan false 7), suc (suc (suc (suc n))))

retry_failed_chunks-returned_example :
    (stored : List Chunk) × ((v : ℕ) × (Retries mixed five 0 stored v
        × ((retry_failed_chunks mixed always run run five 0
              ≡ aggregated (aggregate_results stored) stored)
            × ((aggregate_results stored).is_complete ≡ true))))
retry_failed_chunks-returned_example =
    retry_failed_chunks-returned mixed always run five 0 (λ n. refl)
