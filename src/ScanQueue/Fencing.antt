-- ===== src/ScanQueue/Fencing.antt =====
-- A worker that lost its lease cannot touch the job, and a release ends the job once.
use mathlib.Core.Bool.{false≢true}
use dragnet.Prelude.{
  ℕ, ◌+◌, String, Bool, true, false, Option, some, List, [], ◌∷◌, ◌≡◌, refl, ap, sym, ◌∙◌, All,
  All-of_all, Memᴰ, arith, ◌==◌, count_where, if◌then◌else◌, Bool-cases, inl, inr, subst,
}
use dragnet.Database.{Table, update_where}
use dragnet.ScanQueue.{Job, JobState, is_terminal}
use dragnet.ScanQueue.Claim.{
  back_to_queue, lease_expired, is_owned, recover_expired_scan_jobs, renew_scan_job_lease,
  release_scan_job, finish,
}
use dragnet.ScanQueue.Rows.{All-update_where, UniqueIds, same_id, count_where-id}

none_where :
    (p : Job → Bool) (f : Job → Job) (js : List Job)
    → All (λ x. p x ≡ false) js
    → (count_where p js ≡ 0) × (update_where p f js ≡ js)
none_where p f [] h = (refl, refl)
none_where p f (x ∷ xs) h =
    let (zero, same) = none_where p f xs h.1 in (rw h.0 zero, rw (h.0, same))

abbrev requeue : Job → Job
requeue job = record (back_to_queue job) { resume_requested = true }

requeued_not_owned :
    (now : ℕ) (worker : String) (j x : Job)
    → lease_expired now j ≡ true
    → ((x.id == j.id) ≡ true → x ≡ j)
    → is_owned j.id worker (if lease_expired now x then requeue x else x) ≡ false
requeued_not_owned now worker j x lost same = elim (Bool-cases (lease_expired now x)) [
  | inl e ↦ rw e (ground arith)
  | inr e ↦ rw e (elim (Bool-cases (x.id == j.id)) [
    | inl i ↦ absurd (false≢true (sym e ∙ ap (lease_expired now) (same i) ∙ lost))
    | inr i ↦ ground arith
  ])
]

module _ (J : Table Job) (id worker : String) (later : ℕ) (t : J.Rows) where
  -- the answers of a renewal and of a release by a worker that owns no row of this id
  refused :
      (lease_ms : ℕ) (state : JobState) (run message : Option String)
      → All (λ x. is_owned id worker x ≡ false) (J.rows t)
      → let renewed = renew_scan_job_lease J id worker lease_ms later t in
        let released = release_scan_job J id worker state run message later t in
        (renewed.0 ≡ false)
        × (J.rows renewed.1 ≡ J.rows t)
        × (released.0 ≡ false)
        × (J.rows released.1 ≡ J.rows t)
  unfolding renew_scan_job_lease release_scan_job
  refused lease_ms state run message h =
      let renew = λ (x : Job). record x { lease_expires_at = some (later + lease_ms) } in
      let end = finish state run message later in
      let owned = is_owned id worker in
      (
        rw (J.update_many-count owned renew t, (none_where owned renew (J.rows t) h).0),
        J.update_many-rows owned renew t ∙ (none_where owned renew (J.rows t) h).1,
        rw (J.update_many-count owned end t, (none_where owned end (J.rows t) h).0),
        J.update_many-rows owned end t ∙ (none_where owned end (J.rows t) h).1,
      )

module _ (J : Table Job) (now : ℕ) (t : J.Rows) (j : Job) where
  not_owned :
      (worker : String)
      → UniqueIds (J.rows t)
      → Memᴰ j (J.rows t)
      → lease_expired now j ≡ true
      → All (λ x. is_owned j.id worker x ≡ false) (J.rows (recover_expired_scan_jobs J now t).1)
  unfolding recover_expired_scan_jobs
  not_owned worker u m lost =
      subst (All (λ x. is_owned j.id worker x ≡ false))
        (sym (J.update_many-rows (lease_expired now) requeue t))
        (All-update_where (λ x. (x.id == j.id) ≡ true → x ≡ j) (λ x. is_owned j.id worker x ≡ false)
          (lease_expired now) requeue (J.rows t) (λ x. requeued_not_owned now worker j x lost)
          (same_id j (J.rows t) u m))

  -- When the lease of a job has ended and recovery has run, no worker owns the job: a renewal and
  -- a release by any worker, whatever it reports, answer false and change no row.
  pub recover_expired_scan_jobs-fences :
      UniqueIds (J.rows t)
      → Memᴰ j (J.rows t)
      → lease_expired now j ≡ true
      → (worker : String) (lease_ms later : ℕ) (state : JobState) (run message : Option String)
      → let t' = (recover_expired_scan_jobs J now t).1 in
        let renewed = renew_scan_job_lease J j.id worker lease_ms later t' in
        let released = release_scan_job J j.id worker state run message later t' in
        (renewed.0 ≡ false)
        × (J.rows renewed.1 ≡ J.rows t')
        × (released.0 ≡ false)
        × (J.rows released.1 ≡ J.rows t')
  recover_expired_scan_jobs-fences u m lost worker lease_ms later state run message =
      refused J j.id worker later _ lease_ms state run message (not_owned worker u m lost)

ended_not_running :
    (state : JobState) (id worker : String) (x : Job) (run message : Option String) (now : ℕ)
    → is_terminal state ≡ true
    → is_owned id worker (finish state run message now x) ≡ false
ended_not_running state id worker x run message now terminal = ground arith

module _ (J : Table Job) (t : J.Rows) (j : Job) (worker : String) where
  released-rows :
      (state : JobState) (run message : Option String) (now : ℕ)
      → J.rows (release_scan_job J j.id worker state run message now t).1
        ≡ update_where (is_owned j.id worker) (finish state run message now) (J.rows t)
  unfolding release_scan_job
  released-rows state run message now =
      J.update_many-rows (is_owned j.id worker) (finish state run message now) t

  released_not_owned :
      (state : JobState) (run message : Option String) (now : ℕ)
      → is_terminal state ≡ true
      → All
          (λ x. is_owned j.id worker x ≡ false)
          (J.rows (release_scan_job J j.id worker state run message now t).1)
  released_not_owned state run message now terminal =
      let owns = is_owned j.id worker in
      let end = finish state run message now in
      subst (All (λ x. owns x ≡ false)) (sym (released-rows state run message now)) (
        All-update_where (λ x. Unit {0}) (λ x. owns x ≡ false) owns end (J.rows t)
          (λ x _. elim (Bool-cases (owns x)) [
            | inl e ↦ rw e (ended_not_running state j.id worker x run message now terminal)
            | inr e ↦ rw e e
          ])
          (All-of_all (λ x. Unit {0}) (J.rows t) (λ x. tt)))

  -- The worker that owns a job releases it once: the release answers true and writes the terminal
  -- state to that row alone, and the same worker's next renewal or release is refused.
  release_scan_job-once :
      UniqueIds (J.rows t)
      → Memᴰ j (J.rows t)
      → is_owned j.id worker j ≡ true
      → (state : JobState) (run message : Option String) (now : ℕ) → is_terminal state ≡ true
      → (lease_ms later : ℕ) (state' : JobState) (run' message' : Option String)
      → let released = release_scan_job J j.id worker state run message now t in
        (released.0 ≡ true)
        × (J.rows released.1
            ≡ update_where (is_owned j.id worker) (finish state run message now) (J.rows t))
        × ((renew_scan_job_lease J j.id worker lease_ms later released.1).0 ≡ false)
        × ((release_scan_job J j.id worker state' run' message' later released.1).0 ≡ false)
  release_scan_job-once u m owned state run message now terminal lease_ms later state' run'
        message' =
      let owns = is_owned j.id worker in
      let rest = (release_scan_job J j.id worker state run message now t).1 in
      let gone = released_not_owned state run message now terminal in
      (
        unfold release_scan_job in
            rw (
              J.update_many-count owns (finish state run message now) t,
              count_where-id owns j (J.rows t) u m owned (λ x h. ground arith),
            ),
        released-rows state run message now,
        (refused J j.id worker later rest lease_ms state run message gone).0,
        (refused J j.id worker later rest 0 state' run' message' gone).2,
      )
