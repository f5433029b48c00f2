-- ===== src/ScanQueue/Claim.antt =====
-- The operations of workers in src/services/scanQueue.ts: claiming a job under a lease, renewing and
-- recovering leases, releasing a job. `now` is the time of the call. A claim is a call that no other worker interrupts;
-- Interleaving has its queries one by one.
use dragnet.Prelude.{
  ℕ, zero, suc, ◌+◌, ◌*◌, String, Bool, true, false, ◌&&◌, not, Option, none, some, List, [], ◌∷◌,
  min, max, ltb, leb, eqb, ◌==◌, if◌then◌else◌,
}
use dragnet.Prelude.Dict
use dragnet.Database.{Table, RowOrder}
use dragnet.ScanQueue.{
  Job, JobState, queued, running, QueueJobView, view, is_queued, is_running, queue_order,
  normalize_explicit_priorities,
}

abbrev pub default_lease_ms : ℕ
default_lease_ms = 5 * 60 * 1000

-- `{ state: "running", leaseExpiresAt: { lt: now } }`; a null column is never less
abbrev pub lease_expired : ℕ → Job → Bool
lease_expired now job =
    is_running job.state && elim job.lease_expires_at [ none ↦ false | some at ↦ ltb at now ]

-- `{ state: "running", leaseExpiresAt: { gt: now } }`
abbrev pub is_live : ℕ → Job → Bool
is_live now job =
    is_running job.state && elim job.lease_expires_at [ none ↦ false | some at ↦ ltb now at ]

abbrev pub back_to_queue : Job → Job
back_to_queue job = record job {
  state = queued;
  worker_id = none;
  claimed_at = none;
  lease_expires_at = none;
}

abbrev pub start : String → ℕ → ℕ → Job → Job
start worker now lease_expires_at job = record job {
  state = running;
  worker_id = some worker;
  claimed_at = some now;
  lease_expires_at = some lease_expires_at;
}

abbrev pub is_owned : String → String → Job → Bool
is_owned job_id worker job =
    job.id == job_id
    && is_running job.state
    && elim job.worker_id [ none ↦ false | some w ↦ w == worker ]

-- `undefined` in the data of an update leaves the column
abbrev pub finish : JobState → Option String → Option String → ℕ → Job → Job
finish state review_run_id error_message now job = record job {
  state = state;
  worker_id = none;
  lease_expires_at = none;
  completed_at = some now;
  review_run_id = elim review_run_id [ none ↦ job.review_run_id | some r ↦ some r ];
  error_message = elim error_message [ none ↦ job.error_message | some e ↦ some e ];
}

-- `{ state: "queued", id: { notIn: excludedJobIds } }`
abbrev pub is_candidate : List String → Job → Bool
is_candidate excluded job = is_queued job.state && not (Dict.has excluded job.id)

-- `no_fuel` is not an answer of the code.
pub data Claimed (Rows : Type 0) : Type 0 where
  no_fuel : Claimed Rows
  nothing : Rows → Claimed Rows
  claimed : Job → Rows → Claimed Rows

module _ (J : Table Job) where
  open J use {Rows, find_first, count, update_many}

  -- the first two queries of `claimNextScanJob`
  unfoldable pub prepare : ℕ → Rows → Rows
  prepare now t =
      normalize_explicit_priorities J (update_many (lease_expired now) back_to_queue t).1

  -- `repo_limit` reads `Repository.maxConcurrentScans`, null for no limit of its own
  unfoldable pub at_repo_limit : (String → Option ℕ) → ℕ → ℕ → Job → Rows → Bool
  at_repo_limit repo_limit max_concurrent now next t = elim (repo_limit next.repo_id) [
    | none ↦ false
    | some limit ↦
        leb (min max_concurrent (max 1 limit))
          (count (λ j. j.repo_id == next.repo_id && is_live now j) t)
  ]

  module _ (ids : RowOrder String) (repo_limit : String → Option ℕ) (worker : String)
      (max_concurrent now lease_ms : ℕ) where
    -- the body of the loop, from the job found; `again` is the next round
    unfoldable pub try_claim :
        (List String → Rows → Claimed Rows) → List String → Job → Rows → Claimed Rows
    try_claim again excluded next t = elim (at_repo_limit repo_limit max_concurrent now next t) [
      | true ↦ again (next.id ∷ excluded) t
      | false ↦
          let (written, t') =
            update_many (λ j. j.id == next.id && is_queued j.state)
              (start worker now (now + lease_ms)) t in
          elim (eqb written 1) [
            | true ↦ claimed (start worker now (now + lease_ms) next) t'
            | false ↦ again (next.id ∷ excluded) t'
          ]
    ]

    unfoldable pub claim_round :
        (List String → Rows → Claimed Rows) → List String → Option Job → Rows → Claimed Rows
    claim_round again excluded none t = nothing t
    claim_round again excluded (some next) t = try_claim again excluded next t

    -- `while (true)`, with a bound on the rounds
    unfoldable pub claim_loop : ℕ → List String → Rows → Claimed Rows
    claim_loop zero excluded t = no_fuel
    claim_loop (suc fuel) excluded t =
        claim_round (claim_loop fuel) excluded
          (find_first (is_candidate excluded) (queue_order ids) t) t

    unfoldable pub claim_prepared : ℕ → Rows → Claimed Rows
    claim_prepared fuel t =
        if leb max_concurrent (count (is_live now) t) then nothing t else claim_loop fuel [] t

    -- `claimNextScanJob`; each round excludes a job, so that one round more than there are queued
    -- jobs is enough
    unfoldable pub claim_next : Rows → Claimed Rows
    claim_next t =
        let t' = prepare now t in claim_prepared (suc (count (λ j. is_queued j.state) t')) t'

  unfoldable pub renew_scan_job_lease : String → String → ℕ → ℕ → Rows → Bool × Rows
  renew_scan_job_lease job_id worker lease_ms now t =
      let (written, t') =
        update_many (is_owned job_id worker)
          (λ j. record j { lease_expires_at = some (now + lease_ms) }) t in
      (eqb written 1, t')

  unfoldable pub recover_expired_scan_jobs : ℕ → Rows → ℕ × Rows
  recover_expired_scan_jobs now t =
      update_many (lease_expired now) (λ j. record (back_to_queue j) { resume_requested = true }) t

  unfoldable pub release_scan_job :
      String → String → JobState → Option String → Option String → ℕ → Rows → Bool × Rows
  release_scan_job job_id worker state review_run_id error_message now t =
      let (written, t') =
        update_many (is_owned job_id worker) (finish state review_run_id error_message now) t in
      (eqb written 1, t')

  -- `max(1, floor(..))` of the configured bound, and the view of the job that was claimed
  unfoldable pub claim_next_scan_job :
      RowOrder String → (String → Option ℕ) → String → ℕ → ℕ → ℕ → Rows → Option QueueJobView × Rows
  claim_next_scan_job ids repo_limit worker configured now lease_ms t =
      elim (claim_next ids repo_limit worker (max 1 configured) now lease_ms t) [
        | no_fuel ↦ (none, t)
        | nothing t' ↦ (none, t')
        | claimed job t' ↦
            (some (view job none job.forced job.resume_requested job.fresh_requested), t')
      ]
