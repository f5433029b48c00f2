-- ===== src/ChunkRuns/Interrupted.antt =====
-- What `retryFailedChunks` (src/services/largePrReview/orchestrator.ts) makes of the attempts at each chunk.
use dragnet.Prelude.{
  ◌⊎◌, String, Bool, true, false, not, List, [], ◌∷◌, ltb, ◌≡◌, refl, ap, ◌∙◌, arith, Bool-cases,
  inl, inr, eq_refl,
}
use dragnet.ChunkRuns.{
  Chunk, Scan, RunnerAttempt, returns, throws, final_result, is_run_closed_error, mark_failed,
  ChunkResult, ok, err, run_chunk_with_retry, after_first, retry_chunks, is_resumable,
  store_retried, mark_retried, mark_completed,
}
use dragnet.ChunkRuns.Aggregate.{
  aggregate_results, Identity, aggregated, retry_end, retry_failed_chunks,
}
use dragnet.ChunkRuns.Shape.{is_ended, open_chunks, aggregate_results-is_complete}

module _ {W : Type 0} (runner : Chunk → W → RunnerAttempt × W) (is_owned : W → Bool)
    (owned : (w : W) → is_owned w ≡ true) where
  store_retried-is_ended :
      (r : ChunkResult) (c : Chunk) → is_ended (store_retried runner is_owned r c).status ≡ true
  store_retried-is_ended (ok scan) c = refl
  store_retried-is_ended (err message) c = refl

  ended_of_not_resumable : (c : Chunk) → is_resumable c.status ≡ false → is_ended c.status ≡ true
  ended_of_not_resumable c h = ground arith

  retry_chunks-open_chunks :
      (cs : List Chunk) (w : W) → open_chunks (retry_chunks runner is_owned cs w).0 ≡ 0
  unfolding retry_chunks
  retry_chunks-open_chunks [] w = refl
  retry_chunks-open_chunks (c ∷ cs) w = elim (Bool-cases (is_resumable c.status)) [
    | inr ended ↦
        rw (ended, ended_of_not_resumable c ended, retry_chunks) (retry_chunks-open_chunks cs w)
    | inl again ↦
        let (result, v) = run_chunk_with_retry runner (mark_retried c) w in
        rw (again, owned w, owned v, store_retried-is_ended result (mark_retried c), retry_chunks)
          (retry_chunks-open_chunks cs v)
  ]

module _ {W : Type 0} (runner : Chunk → W → RunnerAttempt × W) where
  -- the calls of the runner for one chunk, and what the last one answers
  pub data Tries (c : Chunk) : W → RunnerAttempt → W → Type 0 where
    first : (w v : W) (scan : Scan) → runner c w ≡ (returns scan, v) → Tries c w (returns scan) v
    closed :
        (w v : W) (message : String)
        → runner c w ≡ (throws message, v)
        → is_run_closed_error message ≡ true
        → Tries c w (throws message) v
    second :
        (w v u : W) (message : String) (attempt : RunnerAttempt)
        → runner c w ≡ (throws message, v)
        → is_run_closed_error message ≡ false
        → runner c v ≡ (attempt, u)
        → Tries c w attempt u

  -- a scan makes the chunk completed, whether it is interrupted or not
  abbrev pub stored_as : RunnerAttempt → Chunk → Chunk
  stored_as (returns scan) c = mark_completed scan c
  stored_as (throws message) c = mark_failed message c

  -- the rows before and after: those that ended are kept, the others are tried one after another
  pub data Retries : List Chunk → W → List Chunk → W → Type 0 where
    done : (w : W) → Retries [] w [] w
    kept :
        (c : Chunk) (cs stored : List Chunk) (w v : W)
        → is_resumable c.status ≡ false
        → Retries cs w stored v
        → Retries (c ∷ cs) w (c ∷ stored) v
    tried :
        (c : Chunk) (cs stored : List Chunk) (w u v : W) (attempt : RunnerAttempt)
        → is_resumable c.status ≡ true
        → Tries (mark_retried c) w attempt u
        → Retries cs u stored v
        → Retries (c ∷ cs) w (stored_as attempt (mark_retried c) ∷ stored) v

  answer_cases :
      (r : RunnerAttempt × W)
      → ((scan : Scan) × ((v : W) × (r ≡ (returns scan, v))))
        ⊎ ((message : String) × ((v : W) × (r ≡ (throws message, v))))
  answer_cases (returns scan, v) = inl (scan, (v, refl))
  answer_cases (throws message, v) = inr (message, (v, refl))

  run_chunk_with_retry-Tries :
      (c : Chunk) (w : W)
      → (attempt : RunnerAttempt) × ((u : W) × (Tries c w attempt u
            × (run_chunk_with_retry runner c w ≡ (final_result attempt, u))))
  unfolding run_chunk_with_retry after_first
  run_chunk_with_retry-Tries c w = elim (answer_cases (runner c w)) [
    | inl (scan, (v, e)) ↦
        (returns scan, (v, (first w v scan e, rw (e, run_chunk_with_retry) refl)))
    | inr (message, (v, e)) ↦ elim (Bool-cases (is_run_closed_error message)) [
      | inl gone ↦ (
        throws message,
        (v, (closed w v message e gone, rw (e, gone, run_chunk_with_retry, after_first) refl)),
      )
      | inr again ↦
          let (attempt, u) = runner c v in
          (
            attempt,
            (
              u,
              (
                second w v u message attempt e again refl,
                rw (e, again, run_chunk_with_retry, after_first) refl,
              ),
            ),
          )
    ]
  ]

  store_retried-stored_as :
      (is_owned : W → Bool) (attempt : RunnerAttempt) (c : Chunk)
      → store_retried runner is_owned (final_result attempt) c ≡ stored_as attempt c
  store_retried-stored_as is_owned (returns scan) c = refl
  store_retried-stored_as is_owned (throws message) c = refl

  retry_chunks-Retries :
      (is_owned : W → Bool)
      → ((w : W) → is_owned w ≡ true)
      → (cs : List Chunk) (w : W)
      → let (stored, v) = retry_chunks runner is_owned cs w in Retries cs w stored v
  unfolding retry_chunks
  retry_chunks-Retries is_owned owned [] w = done w
  retry_chunks-Retries is_owned owned (c ∷ cs) w = elim (Bool-cases (is_resumable c.status)) [
    | inr ended ↦
        let (stored, v) = retry_chunks runner is_owned cs w in
        rw (ended, retry_chunks)
          (kept c cs stored w v ended (retry_chunks-Retries is_owned owned cs w))
    | inl again ↦
        let (attempt, (u, (tries, e))) = run_chunk_with_retry-Tries (mark_retried c) w in
        let (stored, v) = retry_chunks runner is_owned cs u in
        rw
          (
            again,
            owned w,
            owned (run_chunk_with_retry runner (mark_retried c) w).1,
            e,
            store_retried-stored_as is_owned attempt (mark_retried c),
            retry_chunks,
          )
          (tried c cs stored w u v attempt again tries (retry_chunks-Retries is_owned owned cs u))
  ]

-- A retry that keeps its run tries each chunk that had not ended, and stores what the last attempt answers: a scan
-- that is returned as a completed chunk, also where the scan was interrupted, and an error as a failed one; the
-- other rows are kept, and the run is written as completed.
pub retry_failed_chunks-returned :
    {W : Type 0} (runner : Chunk → W → RunnerAttempt × W) (is_owned : W → Bool) (run : Identity)
    (chunks : List Chunk) (w : W)
    → ((v : W) → is_owned v ≡ true)
    → (stored : List Chunk) × ((v : W) × (Retries runner chunks w stored v
          × ((retry_failed_chunks runner is_owned run run chunks w
                ≡ aggregated (aggregate_results stored) stored)
              × ((aggregate_results stored).is_complete ≡ true))))
unfolding retry_failed_chunks retry_end
retry_failed_chunks-returned runner is_owned run chunks w owned =
    let (stored, v) = retry_chunks runner is_owned chunks w in
    (
      stored,
      (
        v,
        (
          retry_chunks-Retries runner is_owned owned chunks w,
          (
            rw
                (
                  eq_refl run.commit_hash,
                  eq_refl run.diff_hash,
                  eq_refl run.review_config_hash,
                  owned v,
                  retry_failed_chunks,
                )
                refl,
            aggregate_results-is_complete stored
                ∙ ap (λ n. not (ltb 0 n)) (retry_chunks-open_chunks runner is_owned owned chunks w),
          ),
        ),
      ),
    )
