-- ===== src/ChunkRuns.antt =====
-- The chunks of a large review, run one after another: the loops of runLargePrReview and
-- retryFailedChunks in src/services/largePrReview/orchestrator.ts. `W` is what other processes and the
-- runner change: the runner is the source's own parameter, and `is_active` and `is_owned` read the row of
-- the run. Times, log lines, counters that are derived from the rows, and the access token are left out.
pub mod Aggregate
pub mod Shape
pub mod Progress
pub mod Breaker
pub mod Rating
pub mod Interrupted
mod Tests
use Prim.Native.Char.{code}
use Prim.Native.String.{◌++◌}
use dragnet.Prelude.{
  ℕ, zero, suc, ◌+◌, String, Bool, true, false, ◌&&◌, ◌||◌, not, Option, none, some, get_or, List,
  [], ◌∷◌, ltb, leb, ◌==◌, if◌then◌else◌,
}
use dragnet.Prelude.Text.{lower_case, includes}

pub data ChunkStatus : Type 0 where
  pending running interrupted completed failed skipped : ChunkStatus

pub record Chunk : Type 0 where
  pub id : String
  pub status : ChunkStatus
  pub line_count : ℕ
  pub touches_security_sensitive : Bool
  pub rating : Option ℕ
  pub error_message : Option String
  pub skip_reason : Option String

-- What the loops read of a `ScanResult`.
pub record Scan : Type 0 where
  pub is_interrupted : Bool
  pub rating : Option ℕ
  pub message : Option String

pub data RunnerAttempt : Type 0 where
  returns : Scan → RunnerAttempt
  throws : String → RunnerAttempt

pub data ChunkResult : Type 0 where
  ok : Scan → ChunkResult
  err : String → ChunkResult

-- `/Review run is no longer active/i.test(err.message)`
unfoldable pub is_run_closed_error : String → Bool
is_run_closed_error message = includes (lower_case message) "review run is no longer active"

-- `.replace(/\d+/g, "#")`, `true` inside a run of digits
mask_digits : Bool → String → String
mask_digits inside String.[] = ""
mask_digits inside (String.◌∷◌ c s) =
    let digit = leb 48 (code c) && leb (code c) 57 in
    let rest = mask_digits digit s in
    if not digit then String.◌∷◌ c rest else if inside then rest else String.◌∷◌ "#" rest

take_text : ℕ → String → String
take_text zero s = ""
take_text (suc n) String.[] = ""
take_text (suc n) (String.◌∷◌ c s) = String.◌∷◌ c (take_text n s)

unfoldable pub normalize_error : String → String
unfolding mask_digits take_text
normalize_error message = lower_case (take_text 120 (mask_digits false message))

abbrev pub is_resumable : ChunkStatus → Bool
is_resumable failed = true
is_resumable pending = true
is_resumable running = true
is_resumable interrupted = true
is_resumable _ = false

-- What the loops write to a row.
unfoldable pub mark_skipped : String → Chunk → Chunk
mark_skipped reason c = record c { status = skipped; skip_reason = some reason }

abbrev pub mark_completed : Scan → Chunk → Chunk
mark_completed scan c = record c { status = completed; rating = scan.rating; error_message = none }

abbrev pub mark_failed : String → Chunk → Chunk
mark_failed message c = record c { status = failed; error_message = some message }

abbrev pub mark_interrupted : Scan → Chunk → Chunk
mark_interrupted scan c = record c {
  status = interrupted;
  error_message = some (get_or scan.message "Chunk interrupted");
}

-- `status: "running", errorMessage: null, skipReason: null`
abbrev pub mark_running : Chunk → Chunk
mark_running c = record c { status = running; error_message = none; skip_reason = none }

-- `status: "running", errorMessage: null`, in the retry
abbrev pub mark_retried : Chunk → Chunk
mark_retried c = record c { status = running; error_message = none }

-- `consecutiveErrorKey && consecutiveErrorCount >= 3`
abbrev pub is_tripped : Option String → ℕ → Bool
is_tripped none count = false
is_tripped (some key) count = not (key == "") && leb 3 count

abbrev pub next_count : Option String → String → ℕ → ℕ
next_count none key count = 1
next_count (some last) key count = if last == key then count + 1 else 1

pub data LoopEnd : Type 0 where
  finished closed : LoopEnd
  stopped : Scan → LoopEnd

abbrev pub final_result : RunnerAttempt → ChunkResult
final_result (returns scan) = ok scan
final_result (throws message) = err message

-- the rest of the loop, after a chunk
abbrev pub prepend : {W : Type 0} → Chunk → List Chunk × LoopEnd × W → List Chunk × LoopEnd × W
prepend c (cs, end, w) = (c ∷ cs, end, w)

module _ {W : Type 0} (runner : Chunk → W → RunnerAttempt × W) where
  unfoldable pub after_first : Chunk → RunnerAttempt → W → ChunkResult × W
  after_first c (returns scan) w = (ok scan, w)
  after_first c (throws message) w = elim (is_run_closed_error message) [
    | true ↦ (err message, w)
    | false ↦ let (attempt, w') = runner c w in (final_result attempt, w')
  ]

  unfoldable pub run_chunk_with_retry : Chunk → W → ChunkResult × W
  run_chunk_with_retry c w = let (attempt, w') = runner c w in after_first c attempt w'

  unfoldable pub after_chunk :
      (Option String → ℕ → W → List Chunk × LoopEnd × W)
      → Option String
      → ℕ
      → Chunk
      → List Chunk
      → ChunkResult
      → W
      → List Chunk × LoopEnd × W
  after_chunk rest key count c cs (ok scan) w = elim scan.is_interrupted [
    | true ↦ (mark_interrupted scan c ∷ cs, stopped scan, w)
    | false ↦ prepend (mark_completed scan c) (rest none 0 w)
  ]
  after_chunk rest key count c cs (err message) w =
      prepend (mark_failed message c)
        (rest (some (normalize_error message)) (next_count key (normalize_error message) count) w)

  module _ (is_active : W → Bool) where
    -- the loop of `runLargePrReview`, with the last error's key and how often it came in a row
    unfoldable pub run_chunks : Option String → ℕ → List Chunk → W → List Chunk × LoopEnd × W
    run_chunks key count [] w = ([], finished, w)
    run_chunks key count (c ∷ cs) w = elim (is_active w) [
      | false ↦ (c ∷ cs, closed, w)
      | true ↦ elim (is_tripped key count) [
        | true ↦
            prepend (mark_skipped ("Circuit breaker: repeated " ++ get_or key "") c)
              (run_chunks key count cs w)
        | false ↦
            let (result, w') = run_chunk_with_retry (mark_running c) w in
            after_chunk (λ k n v. run_chunks k n cs v) key count (mark_running c) cs result w'
      ]
    ]

  module _ (is_owned : W → Bool) where
    abbrev pub store_retried : ChunkResult → Chunk → Chunk
    store_retried (ok scan) c = mark_completed scan c
    store_retried (err message) c = mark_failed message c

    -- the loop of `retryFailedChunks` over the rows; it acts on those that can be resumed
    unfoldable pub retry_chunks : List Chunk → W → List Chunk × W
    retry_chunks [] w = ([], w)
    retry_chunks (c ∷ cs) w = elim (is_resumable c.status) [
      | false ↦ let (rest, w') = retry_chunks cs w in (c ∷ rest, w')
      | true ↦ elim (is_owned w) [
        | false ↦ (c ∷ cs, w)
        | true ↦
            let (result, w') = run_chunk_with_retry (mark_retried c) w in
            elim (is_owned w') [
              | false ↦ (mark_retried c ∷ cs, w')
              | true ↦
                  let (rest, v) = retry_chunks cs w' in
                  (store_retried result (mark_retried c) ∷ rest, v)
            ]
      ]
    ]
