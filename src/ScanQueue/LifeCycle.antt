-- ===== src/ScanQueue/LifeCycle.antt =====
-- The life of a job of src/services/scanQueue.ts over all operations on the queue: which columns go with
-- which state.
use dragnet.Prelude.{
  ℕ, zero, suc, ◌+◌, String, Bool, true, false, ◌&&◌, not, Option, some, List, [], ◌∷◌, eqb, leb,
  ◌==◌, if◌then◌else◌, is_some, ◌≡◌, refl, sym, subst, All, arith, Bool-cases, Option-cases, inl,
  inr,
}
use dragnet.Database.{Table, RowOrder}
use dragnet.ScanQueue.{
  Job, JobState, is_queued, is_running, is_terminal, wants_priority, normalize_explicit_priorities,
  queue_order,
}
use dragnet.ScanQueue.Rows.{All-update_where}
use dragnet.ScanQueue.Claim.{
  Claimed, no_fuel, nothing, claimed, start, is_live, back_to_queue, lease_expired, is_owned,
  finish, prepare, at_repo_limit, is_candidate, try_claim, claim_round, claim_loop, claim_prepared,
  claim_next, renew_scan_job_lease, recover_expired_scan_jobs, release_scan_job,
}

abbrev same : Bool → Bool → Bool
same true b = b
same false b = not b

-- A job has a worker and a lease exactly while it runs, and a date of completion exactly when it has ended.
abbrev pub IsConsistent : Job → Type 0
IsConsistent job =
    (is_some job.worker_id ≡ is_running job.state)
    × (is_some job.lease_expires_at ≡ is_running job.state)
    × (is_some job.completed_at ≡ is_terminal job.state)

module _ (J : Table Job) where
  abbrev pub AllConsistent : J.Rows → Type 0
  AllConsistent t = All IsConsistent (J.rows t)

  pub update-AllConsistent :
      (p : Job → Bool) (f : Job → Job) (t : J.Rows)
      → ((x : Job) → IsConsistent x → IsConsistent (if p x then f x else x))
      → AllConsistent t
      → AllConsistent (J.update_many p f t).1
  update-AllConsistent p f t keeps h =
      subst (All IsConsistent) (sym (J.update_many-rows p f t))
        (All-update_where IsConsistent IsConsistent p f (J.rows t) keeps h)

  -- a write whose data are consistent with every row that it meets
  pub written :
      (p : Job → Bool) (f : Job → Job) (x : Job)
      → (p x ≡ true → IsConsistent x → IsConsistent (f x))
      → IsConsistent x
      → IsConsistent (if p x then f x else x)
  written p f x g h = elim (Bool-cases (p x)) [ inl e ↦ rw e (g e h) | inr e ↦ rw e h ]

  pub normalize-AllConsistent :
      (t : J.Rows) → AllConsistent t → AllConsistent (normalize_explicit_priorities J t)
  unfolding normalize_explicit_priorities
  normalize-AllConsistent t =
      update-AllConsistent wants_priority (λ job. record job { priority = 10 }) t
        (λ x. written wants_priority (λ job. record job { priority = 10 }) x (λ e h. h))

  prepare-AllConsistent : (now : ℕ) (t : J.Rows) → AllConsistent t → AllConsistent (prepare J now t)
  unfolding prepare
  prepare-AllConsistent now t h =
      normalize-AllConsistent (J.update_many (lease_expired now) back_to_queue t).1 (
        update-AllConsistent (lease_expired now) back_to_queue t
          (λ x.
            written (lease_expired now) back_to_queue x (λ e k. (refl, refl, ground (arith, e, k))))
          h)

  pub recover-AllConsistent :
      (now : ℕ) (t : J.Rows) → AllConsistent t → AllConsistent (recover_expired_scan_jobs J now t).1
  unfolding recover_expired_scan_jobs
  recover-AllConsistent now t =
      update-AllConsistent (lease_expired now)
        (λ j. record (back_to_queue j) { resume_requested = true }) t
        (λ x.
          written (lease_expired now) (λ j. record (back_to_queue j) { resume_requested = true }) x
            (λ e k. (refl, refl, ground (arith, e, k))))

  pub renew-AllConsistent :
      (id worker : String) (lease_ms now : ℕ) (t : J.Rows)
      → AllConsistent t
      → AllConsistent (renew_scan_job_lease J id worker lease_ms now t).1
  unfolding renew_scan_job_lease
  renew-AllConsistent id worker lease_ms now t =
      update-AllConsistent (is_owned id worker)
        (λ j. record j { lease_expires_at = some (now + lease_ms) }) t
        (λ x.
          written (is_owned id worker) (λ j. record j { lease_expires_at = some (now + lease_ms) })
            x (λ e k. (k.0, ground (arith, e), k.2)))

  pub release-AllConsistent :
      (id worker : String) (state : JobState) (run message : Option String) (now : ℕ) (t : J.Rows)
      → is_terminal state ≡ true
      → AllConsistent t
      → AllConsistent (release_scan_job J id worker state run message now t).1
  unfolding release_scan_job
  release-AllConsistent id worker state run message now t over =
      update-AllConsistent (is_owned id worker) (finish state run message now) t (λ x.
        written (is_owned id worker) (finish state run message now) x
          (λ e k. (ground (arith, over), ground (arith, over), sym over)))

  -- what the search for a job leaves
  abbrev pub LeavesConsistent : Claimed J.Rows → Type 0
  LeavesConsistent no_fuel = Unit
  LeavesConsistent (nothing t) = AllConsistent t
  LeavesConsistent (claimed job t) = AllConsistent t

  module _ (ids : RowOrder String) (repo_limit : String → Option ℕ) (worker : String)
      (max_concurrent now lease_ms : ℕ) where
    start-AllConsistent :
        (next : Job) (t : J.Rows)
        → AllConsistent t
        → AllConsistent
            (J.update_many
              (λ j. j.id == next.id && is_queued j.state)
              (start worker now (now + lease_ms))
              t).1
    start-AllConsistent next t =
        update-AllConsistent (λ j. j.id == next.id && is_queued j.state)
          (start worker now (now + lease_ms)) t
          (λ x.
            written (λ j. j.id == next.id && is_queued j.state) (start worker now (now + lease_ms))
              x (λ e k. (refl, refl, ground (arith, e, k))))

    try_claim-LeavesConsistent :
        (again : List String → J.Rows → Claimed J.Rows) (excluded : List String) (next : Job)
        (t : J.Rows)
        → ((seen : List String) (u : J.Rows) → AllConsistent u → LeavesConsistent (again seen u))
        → AllConsistent t
        → LeavesConsistent
            (try_claim J ids repo_limit worker max_concurrent now lease_ms again excluded next t)
    unfolding try_claim
    try_claim-LeavesConsistent again excluded next t on h =
        let write =
          J.update_many (λ j. j.id == next.id && is_queued j.state)
            (start worker now (now + lease_ms)) t in
        elim (Bool-cases (at_repo_limit J repo_limit max_concurrent now next t)) [
          | inl full ↦ rw (full, try_claim) (on (next.id ∷ excluded) t h)
          | inr slot ↦ elim (Bool-cases (eqb write.0 1)) [
            | inl won ↦ rw (slot, won, try_claim) (start-AllConsistent next t h)
            | inr lost ↦
                rw (slot, lost, try_claim)
                  (on (next.id ∷ excluded) write.1 (start-AllConsistent next t h))
          ]
        ]

    claim_loop-LeavesConsistent :
        (fuel : ℕ) (excluded : List String) (t : J.Rows)
        → AllConsistent t
        → LeavesConsistent
            (claim_loop J ids repo_limit worker max_concurrent now lease_ms fuel excluded t)
    unfolding claim_loop claim_round
    claim_loop-LeavesConsistent zero excluded t h = tt
    claim_loop-LeavesConsistent (suc fuel) excluded t h =
        elim (Option-cases (J.find_first (is_candidate excluded) (queue_order ids) t)) [
          | inl e ↦ rw (e, claim_loop) h
          | inr (next, e) ↦
              rw (e, claim_loop)
                (try_claim-LeavesConsistent
                  (claim_loop J ids repo_limit worker max_concurrent now lease_ms fuel) excluded
                  next t (claim_loop-LeavesConsistent fuel) h)
        ]

    pub claim_next-LeavesConsistent :
        (t : J.Rows)
        → AllConsistent t
        → LeavesConsistent (claim_next J ids repo_limit worker max_concurrent now lease_ms t)
    unfolding claim_next claim_prepared
    claim_next-LeavesConsistent t h =
        let prepared = prepare J now t in
        elim (Bool-cases (leb max_concurrent (J.count (is_live now) prepared))) [
          | inl full ↦ rw (full, claim_next) (prepare-AllConsistent now t h)
          | inr room ↦
              rw (room, claim_next)
                (claim_loop-LeavesConsistent (suc (J.count (λ j. is_queued j.state) prepared)) []
                  prepared (prepare-AllConsistent now t h))
        ]
