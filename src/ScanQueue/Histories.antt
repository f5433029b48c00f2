-- ===== src/ScanQueue/Histories.antt =====
-- Histories of the queue of src/services/scanQueue.ts: any sequence of its operations, by any users and
-- workers, from an empty table.
use dragnet.Prelude.{ℕ, String, true, ◌&&◌, ◌==◌, Option, [], ◌≡◌, sym, subst, All}
use dragnet.Database.{Table, RowOrder}
use dragnet.Runs.{ReviewRun}
use dragnet.ScanQueue.{Job, JobState, is_terminal}
use dragnet.ScanQueue.Claim.{
  nothing, claimed, claim_next, renew_scan_job_lease, recover_expired_scan_jobs, release_scan_job,
}
use dragnet.ScanQueue.Admit.{Request, InFlight, admit_jobs}
use dragnet.ScanQueue.Control.{
  retry_failed_scan_job, prioritize_scan_job, cancel_scan_job_by_id, get_scan_job_for_pr,
  get_latest_scan_job_for_pr, is_active, latest_created,
}
use dragnet.ScanQueue.LifeCycle.{
  IsConsistent, AllConsistent, LeavesConsistent, recover-AllConsistent, renew-AllConsistent,
  release-AllConsistent, claim_next-LeavesConsistent,
}
use dragnet.ScanQueue.LifeSteps.{
  admit_jobs-AllConsistent, latest_answer-AllConsistent, retry-AllConsistent,
  prioritize-AllConsistent, shown-AllConsistent, cancel_found-AllConsistent,
}

module _ (J : Table Job) (ids : RowOrder String) (T : Table ReviewRun) (ttl : ℕ) where
  -- one call of an operation; a job is released in a state that has ended
  pub data Step : J.Rows → J.Rows → Type 0 where
    admit :
        (new_id : String) (now : ℕ) (input : Request) (t : J.Rows)
        → Step t (admit_jobs J ids new_id now input t).1
    claim :
        (limit : String → Option ℕ) (worker : String) (most now lease_ms : ℕ) (t t' : J.Rows)
        (job : Job)
        → claim_next J ids limit worker most now lease_ms t ≡ claimed job t'
        → Step t t'
    find_none :
        (limit : String → Option ℕ) (worker : String) (most now lease_ms : ℕ) (t t' : J.Rows)
        → claim_next J ids limit worker most now lease_ms t ≡ nothing t'
        → Step t t'
    renew :
        (id worker : String) (lease_ms now : ℕ) (t : J.Rows)
        → Step t (renew_scan_job_lease J id worker lease_ms now t).1
    recover : (now : ℕ) (t : J.Rows) → Step t (recover_expired_scan_jobs J now t).1
    release :
        (id worker : String) (state : JobState) (run message : Option String) (now : ℕ) (t : J.Rows)
        → is_terminal state ≡ true
        → Step t (release_scan_job J id worker state run message now t).1
    look_up :
        (pr_id : String) (now : ℕ) (t : J.Rows) → Step t (get_scan_job_for_pr J ids pr_id now t).1
    look_up_latest :
        (pr_id : String) (t : J.Rows) → Step t (get_latest_scan_job_for_pr J ids pr_id t).1
    cancel :
        (id : String) (now : ℕ) (f : InFlight T ttl) (t : J.Rows)
        → Step t (cancel_scan_job_by_id J ids T ttl id now f t).1
    retry : (id : String) (t : J.Rows) → Step t (retry_failed_scan_job J ids id t).1
    prioritize : (id : String) (t : J.Rows) → Step t (prioritize_scan_job J ids id t).1

  pub data Reach : J.Rows → Type 0 where
    begin : (t : J.Rows) → J.rows t ≡ [] → Reach t
    next : {t t' : J.Rows} → Reach t → Step t t' → Reach t'

  Step-AllConsistent : {t t' : J.Rows} → Step t t' → AllConsistent J t → AllConsistent J t'
  unfolding get_scan_job_for_pr get_latest_scan_job_for_pr cancel_scan_job_by_id
  Step-AllConsistent (admit new_id now input t) h =
      admit_jobs-AllConsistent J ids new_id now input t h
  Step-AllConsistent (claim limit worker most now lease_ms t t' job e) h =
      subst (LeavesConsistent J) e
        (claim_next-LeavesConsistent J ids limit worker most now lease_ms t h)
  Step-AllConsistent (find_none limit worker most now lease_ms t t' e) h =
      subst (LeavesConsistent J) e
        (claim_next-LeavesConsistent J ids limit worker most now lease_ms t h)
  Step-AllConsistent (renew id worker lease_ms now t) h =
      renew-AllConsistent J id worker lease_ms now t h
  Step-AllConsistent (recover now t) h = recover-AllConsistent J now t h
  Step-AllConsistent (release id worker state run message now t over) h =
      release-AllConsistent J id worker state run message now t over h
  Step-AllConsistent (look_up pr_id now t) h =
      let t' = (recover_expired_scan_jobs J now t).1 in
      shown-AllConsistent J ids now
        (J.find_first (λ j. j.pr_id == pr_id && is_active j.state) latest_created t') t'
        (recover-AllConsistent J now t h)
  Step-AllConsistent (look_up_latest pr_id t) h =
      latest_answer-AllConsistent J ids (J.find_first (λ j. j.pr_id == pr_id) latest_created t) t h
  Step-AllConsistent (cancel id now f t) h =
      cancel_found-AllConsistent J ids T ttl (J.find_first (λ j. j.id == id) latest_created t) id
        now f t h
  Step-AllConsistent (retry id t) h = retry-AllConsistent J ids id t h
  Step-AllConsistent (prioritize id t) h = prioritize-AllConsistent J ids id t h

  -- After any sequence of admissions, claims, renewals, recoveries, releases, look-ups, cancellations, retries
  -- and priorities, from an empty table, every job has a worker and a lease exactly while it is running, and
  -- a date of completion exactly when it has ended.
  pub Reach-AllConsistent : (t : J.Rows) → Reach t → AllConsistent J t
  Reach-AllConsistent t (begin s empty) = subst (All IsConsistent) (sym empty) tt
  Reach-AllConsistent t (next r s) = Step-AllConsistent s (Reach-AllConsistent _ r)
