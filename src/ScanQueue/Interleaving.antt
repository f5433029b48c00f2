-- ===== src/ScanQueue/Interleaving.antt =====
-- The queries of `claimNextScanJob` (src/services/scanQueue.ts) one by one. The function opens no transaction, so
-- that other workers act between any two of them, and what it found may be old when it writes.
use dragnet.Prelude.{
  ℕ, String, false, ◌&&◌, ◌≤◌, ◌+◌, Option, none, some, List, [], ◌∷◌, leb, eqb, ◌==◌,
  if◌then◌else◌, ◌≡◌,
}
use dragnet.Database.{Table, RowOrder}
use dragnet.ScanQueue.{Job, JobState, is_queued, queue_order, normalize_explicit_priorities}
use dragnet.ScanQueue.Claim.{
  start, back_to_queue, lease_expired, is_live, is_candidate, at_repo_limit, renew_scan_job_lease,
  recover_expired_scan_jobs, release_scan_job,
}

-- the next query of a call, with the jobs that it has excluded and the one that it has found
pub data ClaimPhase : Type 0 where
  recovering normalizing counting : ClaimPhase
  finding : List String → ClaimPhase
  limiting writing : List String → Job → ClaimPhase
  ended : Option Job → ClaimPhase

abbrev pub after_find : List String → Option Job → ClaimPhase
after_find excluded none = ended none
after_find excluded (some next) = limiting excluded next

module _ (J : Table Job) (ids : RowOrder String) where
  module _ (repo_limit : String → Option ℕ) (worker : String)
      (max_concurrent now lease_ms : ℕ) where
    unfoldable pub claim_step : ClaimPhase → J.Rows → ClaimPhase × J.Rows
    claim_step recovering t = (normalizing, (J.update_many (lease_expired now) back_to_queue t).1)
    claim_step normalizing t = (counting, normalize_explicit_priorities J t)
    claim_step counting t =
        (if leb max_concurrent (J.count (is_live now) t) then ended none else finding [], t)
    claim_step (finding excluded) t =
        (after_find excluded (J.find_first (is_candidate excluded) (queue_order ids) t), t)
    claim_step (limiting excluded next) t = (
      if at_repo_limit J repo_limit max_concurrent now next t
          then finding (next.id ∷ excluded)
          else writing excluded next,
      t,
    )
    claim_step (writing excluded next) t =
        let (written, t') =
          J.update_many (λ j. j.id == next.id && is_queued j.state)
            (start worker now (now + lease_ms)) t in
        (
          if eqb written 1
              then ended (some (start worker now (now + lease_ms) next))
              else finding (next.id ∷ excluded),
          t',
        )
    claim_step (ended answer) t = (ended answer, t)

  module _ (job_id owner : String) (from lease_ms : ℕ) where
    -- What may happen while `owner` holds the job under a lease that begins at `from`: a query of a claim by any
    -- worker, wherever its call stands, up to the end of the lease; renewals for as long a lease; recovery up to
    -- the end of the lease; and releases but that of the job by its owner.
    pub data Other : J.Rows → J.Rows → Type 0 where
      claiming :
          (repo_limit : String → Option ℕ) (worker : String) (most at lease : ℕ)
          (phase : ClaimPhase) (t : J.Rows)
          → at ≤ from + lease_ms
          → Other t (claim_step repo_limit worker most at lease phase t).1
      renewing :
          (id worker : String) (at : ℕ) (t : J.Rows)
          → from ≤ at
          → Other t (renew_scan_job_lease J id worker lease_ms at t).1
      recovering :
          (at : ℕ) (t : J.Rows)
          → at ≤ from + lease_ms
          → Other t (recover_expired_scan_jobs J at t).1
      releasing :
          (id worker : String) (state : JobState) (run message : Option String) (at : ℕ)
          (t : J.Rows)
          → (job_id == id && owner == worker) ≡ false
          → Other t (release_scan_job J id worker state run message at t).1

    pub data Others : J.Rows → J.Rows → Type 0 where
      quiet : (t : J.Rows) → Others t t
      next : (t u v : J.Rows) → Other t u → Others u v → Others t v
