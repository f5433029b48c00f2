-- ===== src/ChunkRuns/Breaker.antt =====
-- The circuit breaker of the chunk loop (src/services/largePrReview/orchestrator.ts).
use dragnet.Prelude.{
  ℕ, zero, suc, ◌+◌, ◌*◌, ◌-◌, ◌≤◌, String, Bool, true, false, Option, none, some, get_or, List, [],
  ◌∷◌, map, subst, leb, ◌==◌, ◌≡◌, refl, arith, Bool-cases, inl, inr, eq_refl,
}
use Prim.Native.String.{◌++◌}
use dragnet.ChunkRuns.{
  Chunk, ChunkStatus, failed, skipped, RunnerAttempt, throws, err, LoopEnd, finished, run_chunks,
  run_chunk_with_retry, after_first, after_chunk, prepend, is_tripped, mark_skipped, mark_running,
  mark_failed, normalize_error, next_count, is_run_closed_error,
}

-- what is stored of as many chunks: the first `k` failed, the others skipped
abbrev pub failed_then_skipped : ℕ → List Chunk → List ChunkStatus
failed_then_skipped k [] = []
failed_then_skipped zero (c ∷ cs) = skipped ∷ failed_then_skipped zero cs
failed_then_skipped (suc k) (c ∷ cs) = failed ∷ failed_then_skipped k cs

abbrev pub statuses : List Chunk → List ChunkStatus
statuses chunks = map (λ c. c.status) chunks

-- a runner whose attempts all throw, with the number of the calls as its state
abbrev pub failing : (Chunk → ℕ → String) → Chunk → ℕ → RunnerAttempt × ℕ
failing message c n = (throws (message c n), suc n)

-- the run stays active
abbrev pub always : ℕ → Bool
always n = true

module _ (message : Chunk → ℕ → String) (key : String)
    (same : (c : Chunk) (n : ℕ) → normalize_error (message c n) ≡ key)
    (present : (key == "") ≡ false) where
  run_chunk_with_retry-failing :
      (c : Chunk) (n : ℕ)
      → (m : ℕ) × ((m ≤ suc (suc n))
          × ((k : ℕ) × (run_chunk_with_retry (failing message) c n ≡ (err (message c k), m))))
  unfolding run_chunk_with_retry after_first
  run_chunk_with_retry-failing c n = elim (Bool-cases (is_run_closed_error (message c n))) [
    | inl gone ↦ (suc n, (omega arith, (n, rw (gone, after_first) refl)))
    | inr again ↦ (suc (suc n), (omega arith, (suc n, rw (again, after_first) refl)))
  ]

  -- what the loop has done of the calls and of the skipped chunks, after `count` failures in a row
  abbrev IsLimited : ℕ → List Chunk → ℕ → List Chunk × LoopEnd × ℕ → Type 0
  IsLimited count cs n (chunks, end, m) =
      (m ≤ n + 2 * (3 - count))
      × (end ≡ finished)
      × (statuses chunks ≡ failed_then_skipped (3 - count) cs)

  abbrev InRow : Option String → ℕ → Type 0
  InRow last count = (next_count last key count ≡ suc count) × (is_tripped last count ≡ leb 3 count)

  InRow-key : (count : ℕ) → InRow (some key) count
  InRow-key count = (ground (arith, eq_refl key), ground (arith, present))

  prepend_skipped-IsLimited :
      (count : ℕ) (c d : Chunk) (cs : List Chunk) (n : ℕ) (r : List Chunk × LoopEnd × ℕ)
      → c.status ≡ skipped
      → leb 3 count ≡ true
      → IsLimited count cs n r
      → IsLimited count (d ∷ cs) n (prepend c r)
  prepend_skipped-IsLimited count c d cs n (chunks, end, m) e full (calls, done, stored) =
      let none_left : 3 - count ≡ 0 = ground (arith, full) in
      let rest : statuses chunks ≡ failed_then_skipped 0 cs =
        subst (λ k. statuses chunks ≡ failed_then_skipped k cs) none_left stored in
      (calls, done, rw (none_left, e, rest) refl)

  prepend_failed-IsLimited :
      (count : ℕ) (c d : Chunk) (cs : List Chunk) (n k : ℕ) (r : List Chunk × LoopEnd × ℕ)
      → c.status ≡ failed
      → leb 3 count ≡ false
      → k ≤ suc (suc n)
      → IsLimited (suc count) cs k r
      → IsLimited count (d ∷ cs) n (prepend c r)
  prepend_failed-IsLimited count c d cs n k (chunks, end, m) e room two (calls, done, stored) =
      let one_more : 3 - count ≡ suc (3 - suc count) = ground (arith, room) in
      (ground (arith, room, two, calls), done, rw (one_more, e, stored) refl)

  run_chunks-failing :
      (last : Option String) (count : ℕ) (cs : List Chunk) (n : ℕ)
      → InRow last count
      → IsLimited count cs n (run_chunks (failing message) always last count cs n)
  unfolding run_chunks after_chunk mark_skipped
  run_chunks-failing last count [] n h = (omega arith, refl, refl)
  run_chunks-failing last count (c ∷ cs) n h = elim (Bool-cases (leb 3 count)) [
    | inl full ↦
        rw (h.1, full, run_chunks)
          (prepend_skipped-IsLimited count
            (mark_skipped ("Circuit breaker: repeated " ++ get_or last "") c) c cs n
            (run_chunks (failing message) always last count cs n) refl full
            (run_chunks-failing last count cs n h))
    | inr room ↦
        let (m, (two, (k, e))) = run_chunk_with_retry-failing (mark_running c) n in
        rw (h.1, room, e, same (mark_running c) k, h.0, run_chunks)
          (prepend_failed-IsLimited count
            (mark_failed (message (mark_running c) k) (mark_running c)) c cs n m
            (run_chunks (failing message) always (some key) (suc count) cs m) refl room two
            (run_chunks-failing (some key) (suc count) cs m (InRow-key (suc count))))
  ]

-- Where the run stays active and every attempt throws, and the messages differ in numbers and letter case only
-- and are not empty, the loop reaches its end, the runner is called six times at most, whatever the number of
-- chunks, the first three chunks are stored as failed, and each chunk after the third is skipped.
pub run_chunks-breaker :
    (message : Chunk → ℕ → String) (key : String) (cs : List Chunk)
    → ((c : Chunk) (n : ℕ) → normalize_error (message c n) ≡ key)
    → (key == "") ≡ false
    → let (chunks, end, calls) = run_chunks (failing message) always none 0 cs 0 in
      (calls ≤ 6) × (end ≡ finished) × (statuses chunks ≡ failed_then_skipped 3 cs)
run_chunks-breaker message key cs same present =
    run_chunks-failing message key same present none 0 cs 0 (refl, refl)
