-- ===== src/ChunkRuns/Shape.antt =====
-- How the loop of `runLargePrReview` (src/services/largePrReview/orchestrator.ts) leaves the chunks.
use dragnet.Prelude.{
  ℕ, String, Bool, true, false, not, Option, none, some, get_or, List, [], ◌∷◌, count_where, ltb,
  ◌≡◌, refl, All, arith, Bool-cases, inl, inr,
}
use Prim.Native.String.{◌++◌}
use dragnet.MergeGate.{is_terminal_chunk_status, get_chunk_coverage}
use dragnet.ChunkRuns.{
  Chunk, ChunkStatus, pending, running, interrupted, completed, failed, skipped, RunnerAttempt,
  ChunkResult, ok, err, LoopEnd, finished, run_chunks, run_chunk_with_retry, after_chunk, prepend,
  is_tripped, mark_skipped, mark_running, mark_completed, mark_failed, normalize_error, next_count,
}
use dragnet.ChunkRuns.Aggregate.{status_text, coverage_of, aggregate_results, run_large_pr_review}

abbrev pub is_ended : ChunkStatus → Bool
is_ended completed = true
is_ended failed = true
is_ended skipped = true
is_ended _ = false

abbrev pub is_pending : ChunkStatus → Bool
is_pending pending = true
is_pending _ = false

abbrev pub is_finished : LoopEnd → Bool
is_finished finished = true
is_finished _ = false

-- the chunks that have not ended
abbrev pub open_chunks : List Chunk → ℕ
open_chunks cs = count_where (λ c. not (is_ended c.status)) cs

status_is_ended : (s : ChunkStatus) → is_terminal_chunk_status (some (status_text s)) ≡ is_ended s
status_is_ended pending = refl
status_is_ended running = refl
status_is_ended interrupted = refl
status_is_ended completed = refl
status_is_ended failed = refl
status_is_ended skipped = refl

pub coverage_of-open_chunks :
    (cs : List Chunk) → (coverage_of cs).chunks_incomplete ≡ open_chunks cs
unfolding coverage_of get_chunk_coverage
coverage_of-open_chunks [] = refl
coverage_of-open_chunks (c ∷ cs) =
    ground (arith, status_is_ended c.status, coverage_of-open_chunks cs)

module _ {W : Type 0} (runner : Chunk → W → RunnerAttempt × W) (is_active : W → Bool) where
  -- the loop ends early exactly when a chunk is left open
  abbrev LeavesOpen : List Chunk × LoopEnd × W → Type 0
  LeavesOpen (cs, end, w) = ltb 0 (open_chunks cs) ≡ not (is_finished end)

  prepend-LeavesOpen :
      (c : Chunk) (r : List Chunk × LoopEnd × W)
      → is_ended c.status ≡ true
      → LeavesOpen r
      → LeavesOpen (prepend c r)
  prepend-LeavesOpen c (cs, end, w) e h = ground arith

  after_chunk-LeavesOpen :
      (rest : Option String → ℕ → W → List Chunk × LoopEnd × W) (key : Option String) (count : ℕ)
      (c : Chunk) (cs : List Chunk) (result : ChunkResult) (w : W)
      → ((k : Option String) (n : ℕ) (v : W) → LeavesOpen (rest k n v))
      → LeavesOpen (after_chunk runner rest key count c cs result w)
  unfolding after_chunk
  after_chunk-LeavesOpen rest key count c cs (ok scan) w ih =
      elim (Bool-cases scan.is_interrupted) [
        | inl stop ↦ rw (stop, after_chunk) (ground arith)
        | inr on ↦
            rw (on, after_chunk)
              (prepend-LeavesOpen (mark_completed scan c) (rest none 0 w) refl (ih none 0 w))
      ]
  after_chunk-LeavesOpen rest key count c cs (err message) w ih =
      let k = some (normalize_error message) in
      let n = next_count key (normalize_error message) count in
      prepend-LeavesOpen (mark_failed message c) (rest k n w) refl (ih k n w)

  pending_left :
      (c : Chunk) (cs : List Chunk)
      → is_pending c.status ≡ true
      → ltb 0 (open_chunks (c ∷ cs)) ≡ true
  pending_left c cs h = ground arith

  run_chunks-LeavesOpen :
      (key : Option String) (count : ℕ) (cs : List Chunk) (w : W)
      → All (λ c. is_pending c.status ≡ true) cs
      → LeavesOpen (run_chunks runner is_active key count cs w)
  unfolding run_chunks mark_skipped
  run_chunks-LeavesOpen key count [] w h = refl
  run_chunks-LeavesOpen key count (c ∷ cs) w h = elim (Bool-cases (is_active w)) [
    | inr gone ↦ rw (gone, run_chunks) (pending_left c cs h.0)
    | inl live ↦ elim (Bool-cases (is_tripped key count)) [
      | inl trip ↦
          rw (live, trip, run_chunks)
            (prepend-LeavesOpen (mark_skipped ("Circuit breaker: repeated " ++ get_or key "") c)
              (run_chunks runner is_active key count cs w) refl
              (run_chunks-LeavesOpen key count cs w h.1))
      | inr go ↦
          rw (live, go, run_chunks)
            (after_chunk-LeavesOpen (λ k n v. run_chunks runner is_active k n cs v) key count
              (mark_running c) cs (run_chunk_with_retry runner (mark_running c) w).0
              (run_chunk_with_retry runner (mark_running c) w).1
              (λ k n v. run_chunks-LeavesOpen k n cs v h.1))
    ]
  ]

pub aggregate_results-is_complete :
    (cs : List Chunk) → (aggregate_results cs).is_complete ≡ not (ltb 0 (open_chunks cs))
unfolding aggregate_results
aggregate_results-is_complete cs = ground (arith, coverage_of-open_chunks cs)

pub run_large_pr_review-is_complete :
    {W : Type 0} (runner : Chunk → W → RunnerAttempt × W) (is_active : W → Bool)
    (plans : List Chunk) (w : W)
    → All (λ c. is_pending c.status ≡ true) plans
    → let (chunks, end, aggregated) = run_large_pr_review runner is_active plans w in
      aggregated.is_complete ≡ is_finished end
unfolding run_large_pr_review
run_large_pr_review-is_complete runner is_active plans w h =
    let r = run_chunks runner is_active none 0 plans w in
    ground (
      arith,
      aggregate_results-is_complete r.0,
      run_chunks-LeavesOpen runner is_active none 0 plans w h,
    )
