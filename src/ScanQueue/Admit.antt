-- ===== src/ScanQueue/Admit.antt =====
-- Admission to the queue: `admitScanJob` and `clearInFlightForForce` of src/services/scanQueue.ts, over
-- the rows of the jobs and what a forced admission also writes: the locks, the runs and the states of the
-- pull requests. `new_id` stands for `randomUUID()`, and `wakeIfQueued` is left out.
use dragnet.Prelude.{
  ℕ, String, Bool, true, false, ◌&&◌, ◌||◌, Option, none, some, get_or, ◌==◌, if◌then◌else◌,
}
use dragnet.Prelude.Dict
use dragnet.Prelude.Dict.{Dict}
use dragnet.Database.{Table, RowOrder}
use dragnet.Runs.{ReviewRun, in_progress_of, newest_first}
use dragnet.Runs
use dragnet.ReviewLocks.{Locks, abort_scan}
use dragnet.ScanQueue.{
  Job, queued, AdmitKind, explicit, afk, QueueJobView, view, is_queued, is_running, is_terminal,
  resolve_admit_kind, queue_order, position_for,
}

pub record Request : Type 0 where
  pub pr_id : String
  pub repo_id : String
  pub commit_hash : String
  pub trigger_reason : Option String
  pub kind : Option AdmitKind
  pub forced : Option Bool
  pub resume_requested : Option Bool
  pub fresh_requested : Option Bool

abbrev pub is_explicit : Request → Bool
is_explicit input = elim (resolve_admit_kind input.trigger_reason input.kind) [
  | explicit ↦ true
  | afk ↦ false
]

abbrev pub is_forced : Request → Bool
is_forced input = get_or input.forced false

-- `where: { prId_commitHash: { prId, commitHash } }`
abbrev pub is_revision : String → String → Job → Bool
is_revision pr_id commit_hash job = job.pr_id == pr_id && job.commit_hash == commit_hash

-- the row that the upsert creates
abbrev pub new_job : String → ℕ → Request → Job
new_job new_id now input = record {
  id = new_id;
  pr_id = input.pr_id;
  repo_id = input.repo_id;
  commit_hash = input.commit_hash;
  state = queued;
  trigger_reason = get_or input.trigger_reason "manual";
  priority = if is_forced input || is_explicit input then 10 else 0;
  forced = is_forced input;
  resume_requested = get_or input.resume_requested false;
  fresh_requested = get_or input.fresh_requested false;
  worker_id = none;
  lease_expires_at = none;
  claimed_at = none;
  completed_at = none;
  error_message = none;
  review_run_id = none;
  created_at = now;
}

-- the data that a forced admission writes
abbrev pub forced_again : Request → Job → Job
forced_again input job = record job {
  state = queued;
  forced = true;
  resume_requested = get_or input.resume_requested false;
  fresh_requested = get_or input.fresh_requested false;
  trigger_reason = get_or input.trigger_reason job.trigger_reason;
  priority = 10;
  completed_at = none;
  error_message = none;
  worker_id = none;
  claimed_at = none;
  lease_expires_at = none;
}

-- the data that puts a job that has ended on the queue again
abbrev pub queued_again : Request → Job → Job
queued_again input job = record job {
  state = queued;
  forced = get_or input.forced job.forced;
  resume_requested = get_or input.resume_requested job.resume_requested;
  fresh_requested = get_or input.fresh_requested job.fresh_requested;
  trigger_reason = get_or input.trigger_reason job.trigger_reason;
  priority = if is_forced input || is_explicit input then 10 else job.priority;
  completed_at = none;
  error_message = none;
  worker_id = none;
  claimed_at = none;
  lease_expires_at = none;
}

abbrev pub may_requeue_terminal : Request → Bool
may_requeue_terminal input =
    is_explicit input || get_or input.resume_requested false || get_or input.fresh_requested false

module _ (T : Table ReviewRun) (ttl : ℕ) where
  -- what a forced admission clears beside the job
  pub record InFlight : Type 0 where
    pub locks : Locks
    pub runs : T.Rows
    pub pr_status : Dict String

  abbrev pub fail_active : Option ReviewRun → ℕ → T.Rows → T.Rows
  fail_active none now runs = runs
  fail_active (some run) now runs =
      (T.update_many (λ r. r.id == run.id)
        (λ r. record r { status = Runs.failed; completed_at = some now }) runs).1

  unfoldable pub clear_in_flight_for_force : String → ℕ → InFlight → InFlight
  clear_in_flight_for_force pr_id now f = record {
    locks = (abort_scan ttl pr_id now f.locks).1;
    runs = fail_active (T.find_first (in_progress_of pr_id) newest_first f.runs) now f.runs;
    pr_status = elim (Dict.get f.pr_status pr_id) [
      | none ↦ f.pr_status
      | some _ ↦ Dict.set f.pr_status pr_id "In Progress"
    ];
  }

module _ (J : Table Job) (ids : RowOrder String) where
  -- `view(job, await positionFor(job), ..)`
  unfoldable pub answer : Job → J.Rows → QueueJobView × J.Rows
  answer job t =
      let (position, t') = position_for J ids job t in
      (view job position job.forced job.resume_requested job.fresh_requested, t')

  -- the row is written, and the answer is about the row as written
  unfoldable pub requeue : (Job → Job) → Job → J.Rows → QueueJobView × J.Rows
  requeue f job t = answer (f job) (J.update_many (λ j. j.id == job.id) f t).1

  unfoldable pub admit_upserted : Request → Job → J.Rows → QueueJobView × J.Rows
  admit_upserted input job t =
      if is_forced input && (is_running job.state || is_terminal job.state || is_queued job.state)
      then requeue (forced_again input) job t
      else if may_requeue_terminal input && is_terminal job.state
      then requeue (queued_again input) job t
      else answer job t

  unfoldable pub upsert : String → ℕ → Request → J.Rows → Job × J.Rows
  upsert new_id now input t =
      elim (J.find_first (is_revision input.pr_id input.commit_hash) (queue_order ids) t) [
        | some job ↦ (job, t)
        | none ↦ (new_job new_id now input, J.create (new_job new_id now input) t)
      ]

  unfoldable pub admit_jobs : String → ℕ → Request → J.Rows → QueueJobView × J.Rows
  admit_jobs new_id now input t =
      let (job, t') = upsert new_id now input t in admit_upserted input job t'

  -- `admitScanJob`
  unfoldable pub admit_scan_job :
      (T : Table ReviewRun) (ttl : ℕ)
      → String
      → ℕ
      → Request
      → InFlight T ttl
      → J.Rows
      → QueueJobView × J.Rows × InFlight T ttl
  admit_scan_job T ttl new_id now input f t =
      let (job, _) = upsert new_id now input t in
      let (answered, t') = admit_jobs new_id now input t in
      (
        answered,
        t',
        if is_forced input && is_running job.state
            then clear_in_flight_for_force T ttl input.pr_id now f
            else f,
      )
