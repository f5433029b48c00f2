-- ===== src/ScanQueue/Control.antt =====
-- What users do with the jobs of src/services/scanQueue.ts: look one up, cancel, retry and prioritize, and the
-- admission in the background. The
-- list of all jobs and the polling of `waitForScanJob` are left out.
use dragnet.Prelude.{
  ℕ, String, Bool, true, false, ◌&&◌, ◌||◌, not, Option, none, some, ltb, leb, eqb, ◌==◌,
  if◌then◌else◌,
}
use dragnet.Prelude.Dict
use dragnet.Database.{Table, RowOrder}
use dragnet.Runs.{ReviewRun, in_progress_of, newest_first, newer_asym, newer_neg_trans}
use dragnet.ReviewLocks.{abort_scan}
use dragnet.ScanQueue.{
  Job, JobState, queued, failed, cancelled, QueueJobView, afk, is_queued, is_running,
}
use dragnet.ScanQueue.Claim.{recover_expired_scan_jobs}
use dragnet.ScanQueue.Admit.{Request, InFlight, fail_active, admit_jobs, answer}

-- `state: { in: ["queued", "running"] }`
abbrev pub is_active : JobState → Bool
is_active state = is_queued state || is_running state

abbrev pub is_failed : JobState → Bool
is_failed failed = true
is_failed _ = false

-- `createdAt: "desc"`
abbrev pub latest_created : RowOrder Job
latest_created = record {
  before = λ a b. ltb b.created_at a.created_at;
  before_asym = λ a b. newer_asym a.created_at b.created_at;
  before_neg_trans = λ a b c. newer_neg_trans a.created_at b.created_at c.created_at;
}

-- a running job whose lease has ended
abbrev pub has_lost_lease : ℕ → Job → Bool
has_lost_lease now job =
    is_running job.state && elim job.lease_expires_at [ none ↦ false | some at ↦ leb at now ]

abbrev pub as_cancelled : ℕ → Job → Job
as_cancelled now job = record job {
  state = cancelled;
  worker_id = none;
  lease_expires_at = none;
  completed_at = some now;
}

abbrev pub as_retried : Job → Job
as_retried job = record job {
  state = queued;
  worker_id = none;
  claimed_at = none;
  lease_expires_at = none;
  completed_at = none;
  error_message = none;
}

-- what a background admission asks for
abbrev pub afk_request : String → String → String → String → Request
afk_request pr_id repo_id commit_hash trigger_reason = record {
  pr_id = pr_id;
  repo_id = repo_id;
  commit_hash = commit_hash;
  trigger_reason = some trigger_reason;
  kind = some afk;
  forced = none;
  resume_requested = none;
  fresh_requested = none;
}

module _ (J : Table Job) (ids : RowOrder String) where
  open J use {Rows, find_first, update_many}

  unfoldable pub shown : ℕ → Option Job → Rows → Option QueueJobView × Rows
  shown now none t = (none, t)
  shown now (some job) t =
      if has_lost_lease now job
      then (none, t)
      else (let (answered, t') = answer J ids job t in (some answered, t'))

  unfoldable pub get_scan_job_for_pr : String → ℕ → Rows → Option QueueJobView × Rows
  get_scan_job_for_pr pr_id now t =
      let (_, t') = recover_expired_scan_jobs J now t in
      shown now (find_first (λ j. j.pr_id == pr_id && is_active j.state) latest_created t') t'

  unfoldable pub latest_answer : Option Job → Rows → Option QueueJobView × Rows
  latest_answer none t = (none, t)
  latest_answer (some job) t = let (answered, t') = answer J ids job t in (some answered, t')

  unfoldable pub get_latest_scan_job_for_pr : String → Rows → Option QueueJobView × Rows
  get_latest_scan_job_for_pr pr_id t =
      latest_answer (find_first (λ j. j.pr_id == pr_id) latest_created t) t

  unfoldable pub retry_failed_scan_job : String → Rows → Option QueueJobView × Rows
  retry_failed_scan_job job_id t =
      let (written, t') = update_many (λ j. j.id == job_id && is_failed j.state) as_retried t in
      if eqb written 1
      then latest_answer (find_first (λ j. j.id == job_id) latest_created t') t'
      else (none, t')

  unfoldable pub prioritize_scan_job : String → Rows → Bool × Rows
  prioritize_scan_job job_id t =
      let (written, t') =
        update_many (λ j. j.id == job_id && is_queued j.state) (λ j. record j { priority = 100 })
          t in
      (eqb written 1, t')

  -- `is_auto_rescan_enabled` is the policy of the repository, and `new_id` the id of a new job
  unfoldable pub admit_afk_scan_job :
      (String → Bool)
      → String
      → ℕ
      → String
      → String
      → String
      → String
      → Rows
      → Option QueueJobView × Rows
  admit_afk_scan_job is_auto_rescan_enabled new_id now pr_id repo_id commit_hash trigger_reason t =
      if not (is_auto_rescan_enabled repo_id)
      then (none, t)
      else (let (answered, t') =
            admit_jobs J ids new_id now (afk_request pr_id repo_id commit_hash trigger_reason) t in
          (some answered, t'))

  -- the repository and the tip of the pull request, where it is known
  unfoldable pub admit_afk_scan_job_for_pr :
      (String → Bool)
      → String
      → ℕ
      → String
      → Option (String × String)
      → String
      → Rows
      → Option QueueJobView × Rows
  admit_afk_scan_job_for_pr is_auto_rescan_enabled new_id now pr_id none trigger_reason t =
      (none, t)
  admit_afk_scan_job_for_pr is_auto_rescan_enabled new_id now pr_id (some (repo_id, commit_hash))
        trigger_reason t =
      admit_afk_scan_job is_auto_rescan_enabled new_id now pr_id repo_id commit_hash trigger_reason
        t

  module _ (T : Table ReviewRun) (ttl : ℕ) where
    -- what a running job leaves behind: its scan is aborted, its run fails, its pull request is pending
    unfoldable pub stop_running : Job → ℕ → InFlight T ttl → InFlight T ttl
    stop_running job now f = record {
      locks = (abort_scan ttl job.pr_id now f.locks).1;
      runs =
          fail_active T ttl (T.find_first (in_progress_of job.pr_id) newest_first f.runs) now
            f.runs;
      pr_status = elim (Dict.get f.pr_status job.pr_id) [
        | none ↦ f.pr_status
        | some _ ↦ Dict.set f.pr_status job.pr_id "Pending"
      ];
    }

    unfoldable pub cancel_found :
        Option Job → String → ℕ → InFlight T ttl → Rows → Bool × Rows × InFlight T ttl
    cancel_found none job_id now f t = (false, t, f)
    cancel_found (some job) job_id now f t =
        if not (is_active job.state)
        then (false, t, f)
        else (let (written, t') =
              update_many (λ j. j.id == job_id && is_active j.state) (as_cancelled now) t in
            (ltb 0 written, t', if is_running job.state then stop_running job now f else f))

    unfoldable pub cancel_scan_job_by_id :
        String → ℕ → InFlight T ttl → Rows → Bool × Rows × InFlight T ttl
    cancel_scan_job_by_id job_id now f t =
        cancel_found (find_first (λ j. j.id == job_id) latest_created t) job_id now f t

    unfoldable pub cancel_latest :
        Option Job → ℕ → InFlight T ttl → Rows → Bool × Rows × InFlight T ttl
    cancel_latest none now f t = (false, t, f)
    cancel_latest (some job) now f t = cancel_scan_job_by_id job.id now f t

    unfoldable pub cancel_scan_job :
        String → ℕ → InFlight T ttl → Rows → Bool × Rows × InFlight T ttl
    cancel_scan_job pr_id now f t =
        cancel_latest (find_first (λ j. j.pr_id == pr_id && is_active j.state) latest_created t) now
          f t
