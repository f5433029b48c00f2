-- ===== src/ScanQueue/Worker.antt =====
-- The worker of src/services/scanQueue.ts: what the answer of a scan makes of its job
-- (`classifyQueueWorkerHttpResult`, `executeJob`), and how ticks fill the free slots (`startScanQueueWorker`). A tick
-- gives way to other events at each await of a claim. Heartbeats, and what sets off a tick, are left out: the
-- timer, a wake-up and the start are all one event.
use dragnet.Prelude.{
  ℕ, ◌+◌, ◌-◌, String, Bool, true, false, ◌&&◌, ◌||◌, not, Option, none, some, get_or, ltb,
  if◌then◌else◌,
}
use dragnet.Database.{Table}
use dragnet.ScanQueue.{Job, JobState, completed, failed, interrupted}
use dragnet.ScanQueue.Claim.{release_scan_job}

-- The fields that are read of the body; a text is none where it is missing or of another type.
pub record ScanBody : Type 0 where
  pub run_id : Option String
  pub message : Option String
  pub error : Option String
  pub is_interrupted : Bool
  pub success : Option Bool
  pub terminal_is_failed : Bool
  pub terminal_reason : Option String
  pub system_warn : Option String

pub record WorkerResult : Type 0 where
  pub state : JobState
  pub review_run_id : Option String
  pub error_message : Option String

abbrev pub or_else : Option String → Option String → Option String
or_else none b = b
or_else (some a) b = some a

-- `body.success === false || terminal.isFailed === true`
abbrev pub is_terminal_failed : ScanBody → Bool
is_terminal_failed body = not (get_or body.success true) || body.terminal_is_failed

-- `status_text` is the message made of the status of the answer
unfoldable pub classify_queue_worker_http_result : Bool → ScanBody → String → WorkerResult
classify_queue_worker_http_result res_ok body status_text =
    if not res_ok
    then record {
      state = failed;
      review_run_id = body.run_id;
      error_message = some (get_or (or_else body.message body.error) status_text);
    }
    else if body.is_interrupted
    then record { state = interrupted; review_run_id = body.run_id; error_message = none }
    else if is_terminal_failed body
    then record {
      state = failed;
      review_run_id = body.run_id;
      error_message = some (
          get_or (or_else body.system_warn body.terminal_reason)
            "Scan failed without an earned AI pass.");
    }
    else record { state = completed; review_run_id = body.run_id; error_message = none }

-- what `options.execute` does
pub data Execution : Type 0 where
  finishes : Option JobState → Option String → Option String → Execution
  throws : String → Execution

module _ (J : Table Job) where
  unfoldable pub execute_job : String → String → Execution → ℕ → J.Rows → Bool × J.Rows
  execute_job job_id worker (finishes state review_run_id error_message) now t =
      release_scan_job J job_id worker (get_or state completed) review_run_id error_message now t
  execute_job job_id worker (throws message) now t =
      release_scan_job J job_id worker failed none (some message) now t

-- The variables of `startScanQueueWorker`. `claims` is the number of calls of `claimNextScanJob` that are awaited, and
-- `active` that of the jobs that are executed.
pub record QueueWorker : Type 0 where
  pub stopped : Bool
  pub ticking : Bool
  pub wake_pending : Bool
  pub active : ℕ
  pub claims : ℕ

abbrev pub new_worker : QueueWorker
new_worker = record {
  stopped = false;
  ticking = false;
  wake_pending = false;
  active = 0;
  claims = 0;
}

-- what is run between two awaits, under a limit that stays the same
module _ (max_concurrent : ℕ) where
  -- `while (!stopped && active < maxConcurrent)`: none where the loop ends
  abbrev pub loop_check : QueueWorker → Option QueueWorker
  loop_check w =
      if not w.stopped && ltb w.active max_concurrent
      then some (record w { claims = w.claims + 1 })
      else none

  -- the end of a tick: no wake is pending, or the worker has stopped
  abbrev pub end_tick : QueueWorker → QueueWorker
  end_tick w = record w { ticking = false }

  -- a pass that begins after a wake: `wakePending = false` and the loop
  unfoldable pub begin_pass : QueueWorker → QueueWorker
  begin_pass w =
      let begun = record w { wake_pending = false } in get_or (loop_check begun) (end_tick begun)

  -- `while (wakePending && !stopped)`
  unfoldable pub end_pass : QueueWorker → QueueWorker
  end_pass w = if w.wake_pending && not w.stopped then begin_pass w else end_tick w

  -- `tick`, up to its first await
  unfoldable pub tick : QueueWorker → QueueWorker
  tick w =
      if w.stopped
      then w
      else if w.ticking
      then record w { wake_pending = true }
      else begin_pass (record w { ticking = true })

  -- an awaited claim gives a job, which is executed without waiting for it
  unfoldable pub claim_gives : QueueWorker → QueueWorker
  claim_gives w =
      let started = record w { claims = w.claims - 1; active = w.active + 1 } in
      get_or (loop_check started) (end_pass started)

  -- it gives none, or throws, which is logged
  unfoldable pub claim_ends : QueueWorker → QueueWorker
  claim_ends w = end_pass (record w { claims = w.claims - 1 })

  -- the `finally` of `executeJob`
  unfoldable pub job_ends : QueueWorker → QueueWorker
  job_ends w = tick (record w { active = w.active - 1 })

-- what `startScanQueueWorker` returns
abbrev pub stop : QueueWorker → QueueWorker
stop w = record w { stopped = true }
