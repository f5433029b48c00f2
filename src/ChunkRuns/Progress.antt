-- ===== src/ChunkRuns/Progress.antt =====
-- That the loop of `runLargePrReview` (src/services/largePrReview/orchestrator.ts) reaches its end.
use dragnet.Prelude.{
  ℕ, String, Bool, true, false, Option, none, some, get_or, List, [], ◌∷◌, ◌≡◌, refl, ap, ◌∙◌, All,
  Bool-cases, inl, inr,
}
use Prim.Native.String.{◌++◌}
use dragnet.ChunkRuns.{
  Chunk, RunnerAttempt, returns, throws, ChunkResult, ok, err, LoopEnd, finished, run_chunks,
  run_chunk_with_retry, after_first, after_chunk, prepend, is_tripped, mark_skipped, mark_running,
  mark_completed, mark_failed, normalize_error, next_count, is_run_closed_error,
}
use dragnet.ChunkRuns.Aggregate.{run_large_pr_review}
use dragnet.ChunkRuns.Shape.{is_pending, is_finished, run_large_pr_review-is_complete}

abbrev pub is_interruption : RunnerAttempt → Bool
is_interruption (returns scan) = scan.is_interrupted
is_interruption (throws message) = false

abbrev is_stop : ChunkResult → Bool
is_stop (ok scan) = scan.is_interrupted
is_stop (err message) = false

is_finished-prepend :
    {W : Type 0} (c : Chunk) (r : List Chunk × LoopEnd × W) → (prepend c r).1 ≡ r.1
is_finished-prepend c (cs, end, w) = refl

final_result-carries_on :
    (a : RunnerAttempt)
    → is_interruption a ≡ false
    → is_stop (elim a [ returns scan ↦ ok scan | throws m ↦ err m ]) ≡ false
final_result-carries_on (returns scan) h = h
final_result-carries_on (throws m) h = refl

module _ {W : Type 0} (runner : Chunk → W → RunnerAttempt × W) (is_active : W → Bool)
    (active : (w : W) → is_active w ≡ true)
    (carries_on : (c : Chunk) (w : W) → is_interruption (runner c w).0 ≡ false) where
  after_first-carries_on :
      (c : Chunk) (a : RunnerAttempt) (w : W)
      → is_interruption a ≡ false
      → is_stop (after_first runner c a w).0 ≡ false
  unfolding after_first
  after_first-carries_on c (returns scan) w h = h
  after_first-carries_on c (throws message) w h = elim (Bool-cases (is_run_closed_error message)) [
    | inl gone ↦ rw (gone, after_first) refl
    | inr again ↦ rw (again, after_first) (final_result-carries_on (runner c w).0 (carries_on c w))
  ]

  run_chunk_with_retry-carries_on :
      (c : Chunk) (w : W) → is_stop (run_chunk_with_retry runner c w).0 ≡ false
  unfolding run_chunk_with_retry
  run_chunk_with_retry-carries_on c w =
      after_first-carries_on c (runner c w).0 (runner c w).1 (carries_on c w)

  after_chunk-finished :
      (rest : Option String → ℕ → W → List Chunk × LoopEnd × W) (key : Option String) (count : ℕ)
      (c : Chunk) (cs : List Chunk) (result : ChunkResult) (w : W)
      → is_stop result ≡ false
      → ((k : Option String) (n : ℕ) (v : W) → (rest k n v).1 ≡ finished)
      → (after_chunk runner rest key count c cs result w).1 ≡ finished
  unfolding after_chunk
  after_chunk-finished rest key count c cs (ok scan) w on ih =
      rw (on, after_chunk)
        (is_finished-prepend (mark_completed scan c) (rest none 0 w) ∙ ih none 0 w)
  after_chunk-finished rest key count c cs (err message) w on ih =
      let k = some (normalize_error message) in
      let n = next_count key (normalize_error message) count in
      is_finished-prepend (mark_failed message c) (rest k n w) ∙ ih k n w

  run_chunks-finished :
      (key : Option String) (count : ℕ) (cs : List Chunk) (w : W)
      → (run_chunks runner is_active key count cs w).1 ≡ finished
  unfolding run_chunks
  run_chunks-finished key count [] w = refl
  run_chunks-finished key count (c ∷ cs) w = elim (Bool-cases (is_tripped key count)) [
    | inl trip ↦
        rw (active w, trip, run_chunks)
          (is_finished-prepend (mark_skipped ("Circuit breaker: repeated " ++ get_or key "") c)
              (run_chunks runner is_active key count cs w)
            ∙ run_chunks-finished key count cs w)
    | inr go ↦
        rw (active w, go, run_chunks)
          (after_chunk-finished (λ k n v. run_chunks runner is_active k n cs v) key count
            (mark_running c) cs (run_chunk_with_retry runner (mark_running c) w).0
            (run_chunk_with_retry runner (mark_running c) w).1
            (run_chunk_with_retry-carries_on (mark_running c) w)
            (λ k n v. run_chunks-finished k n cs v))
  ]

-- While the run stays active and no attempt is interrupted, a review of planned chunks reaches the end of
-- its loop and is written as completed, whatever attempts throw.
pub run_large_pr_review-completes :
    {W : Type 0} (runner : Chunk → W → RunnerAttempt × W) (is_active : W → Bool)
    (plans : List Chunk) (w : W)
    → All (λ c. is_pending c.status ≡ true) plans
    → ((v : W) → is_active v ≡ true)
    → ((c : Chunk) (v : W) → is_interruption (runner c v).0 ≡ false)
    → let (chunks, end, aggregated) = run_large_pr_review runner is_active plans w in
      (end ≡ finished) × (aggregated.is_complete ≡ true)
unfolding run_large_pr_review
run_large_pr_review-completes runner is_active plans w h active carries_on =
    let e = run_chunks-finished runner is_active active carries_on none 0 plans w in
    (e, run_large_pr_review-is_complete runner is_active plans w h ∙ ap is_finished e)
