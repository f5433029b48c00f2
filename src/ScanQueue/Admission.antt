-- ===== src/ScanQueue/Admission.antt =====
-- One job for each revision, and what an admission leaves alone: `admitScanJob` of
-- src/services/scanQueue.ts.
use dragnet.Prelude.{
  ℕ, ◌+◌, ◌≤◌, ◌<◌, String, Bool, true, false, ◌&&◌, ◌||◌, some, [], ◌∷◌, ◌≡◌, refl, ap, arith,
  Memᴰ, count_where, count_where-append, if◌then◌else◌, ◌==◌, eq_refl, Bool-cases, Option-cases,
  inl, inr, All-of_all, All-map,
}
use dragnet.Database.{Table, RowOrder}
use dragnet.ScanQueue.{
  Job, JobState, QueueJobView, is_queued, is_running, is_terminal, wants_priority, queue_order,
}
use dragnet.ScanQueue.Rows.{UniqueIds, same_id, count_where-lt}
use dragnet.ScanQueue.Admit.{
  Request, is_forced, is_revision, new_job, forced_again, queued_again, may_requeue_terminal,
  answer, requeue, admit_upserted, upsert, admit_jobs,
}
use dragnet.ScanQueue.Requeues.{count_where-none, count_where-answer, count_where-requeue}

either {ℓ} : {A : Type ℓ} (P : A → Type 0) (b : Bool) (x y : A) → P x → P y → P (if b then x else y)
either P true x y h k = h
either P false x y h k = k

not_both : (s : JobState) → is_terminal s ≡ true → is_running s ≡ false
not_both s h = ground arith

ended_not_running :
    (p : Job → Bool) (input : Request) (job x : Job)
    → (may_requeue_terminal input && is_terminal job.state) ≡ true
    → x ≡ job
    → (is_running (queued_again input x).state && p (queued_again input x))
      ≡ (is_running x.state && p x)
ended_not_running p input job x e same =
    ground (arith, not_both x.state, ap (λ j. is_terminal j.state) same)

module _ (J : Table Job) (ids : RowOrder String) (new_id : String) (now : ℕ) (input : Request) where
  count_where-admit_upserted :
      (pr commit : String) (job : Job) (t : J.Rows)
      → count_where (is_revision pr commit) (J.rows (admit_upserted J ids input job t).1)
        ≡ count_where (is_revision pr commit) (J.rows t)
  unfolding admit_upserted
  count_where-admit_upserted pr commit job t =
      let q = is_revision pr commit in
      let keeps : (x : Job) → wants_priority x ≡ true → q (record x { priority = 10 }) ≡ q x =
        λ x h. refl in
      let kept : (f : Job → Job)
          → ((x : Job) → q (f x) ≡ q x)
          → count_where q (J.rows (requeue J ids f job t).1) ≡ count_where q (J.rows t) =
        λ f same.
          count_where-requeue J ids q keeps f job t (All-of_all _ (J.rows t) (λ x h. same x)) in
      let P : QueueJobView × J.Rows → Type 0 =
        λ r. count_where q (J.rows r.1) ≡ count_where q (J.rows t) in
      either P
        (is_forced input && (is_running job.state || is_terminal job.state || is_queued job.state))
        (requeue J ids (forced_again input) job t)
        (if may_requeue_terminal input && is_terminal job.state
          then requeue J ids (queued_again input) job t
          else answer J ids job t)
        (kept (forced_again input) (λ x. refl))
        (either P (may_requeue_terminal input && is_terminal job.state)
          (requeue J ids (queued_again input) job t) (answer J ids job t)
          (kept (queued_again input) (λ x. refl)) (count_where-answer J ids q keeps job t))

  not_requeued :
      (p : Job → Bool) (job : Job) (t : J.Rows)
      → is_forced input ≡ false
      → (may_requeue_terminal input && is_terminal job.state) ≡ false
      → count_where (λ x. is_running x.state && p x) (J.rows (admit_upserted J ids input job t).1)
        ≡ count_where (λ x. is_running x.state && p x) (J.rows t)
  unfolding admit_upserted
  not_requeued p job t unforced stays =
      rw (unforced, stays)
        (count_where-answer J ids (λ x. is_running x.state && p x) (λ x h. ground arith) job t)

  -- an unforced admission and the jobs that run
  running_kept :
      (p : Job → Bool) (job : Job) (t : J.Rows)
      → is_forced input ≡ false
      → UniqueIds (J.rows t)
      → Memᴰ job (J.rows t)
      → count_where (λ x. is_running x.state && p x) (J.rows (admit_upserted J ids input job t).1)
        ≡ count_where (λ x. is_running x.state && p x) (J.rows t)
  unfolding admit_upserted
  running_kept p job t unforced u m =
      let q : Job → Bool = λ x. is_running x.state && p x in
      let keeps : (x : Job) → wants_priority x ≡ true → q (record x { priority = 10 }) ≡ q x =
        λ x h. ground arith in
      elim (Bool-cases (may_requeue_terminal input && is_terminal job.state)) [
        | inl e ↦
            rw (unforced, e)
              (count_where-requeue J ids q keeps (queued_again input) job t (
                All-map _ _ (J.rows t) (λ x same h. ended_not_running p input job x e (same h))
                  (same_id job (J.rows t) u m)))
        | inr e ↦ not_requeued p job t unforced e
      ]

  found_once :
      (job : Job) (t : J.Rows)
      → J.find_first (is_revision input.pr_id input.commit_hash) (queue_order ids) t ≡ some job
      → 0 < count_where (is_revision input.pr_id input.commit_hash) (J.rows t)
  found_once job t e =
      let mine = is_revision input.pr_id input.commit_hash in
      let fewer =
        count_where-lt mine (λ x. false) job (J.rows t) (λ x h. absurd (ground arith))
          (J.find_first-mem mine (queue_order ids) t job e)
          (J.find_first-match mine (queue_order ids) t job e) refl in
      omega (arith, fewer)

  count_where-created :
      (q : Job → Bool) (t : J.Rows)
      → count_where q (J.rows (J.create (new_job new_id now input) t))
        ≡ count_where q (J.rows t) + count_where q (new_job new_id now input ∷ [])
  count_where-created q t =
      rw (J.create-rows (new_job new_id now input) t)
        (count_where-append q (J.rows t) (new_job new_id now input ∷ []))

  -- If there is at most one job for the revision of the request, then after the admission there is
  -- exactly one, and the number of jobs for any other revision is as it was, whether the admission is
  -- forced or not and whatever state the job was in.
  pub admit_jobs-one_each :
      (t : J.Rows) (pr commit : String)
      → count_where (is_revision input.pr_id input.commit_hash) (J.rows t) ≤ 1
      → (input.pr_id == pr && input.commit_hash == commit) ≡ false
      → let t' = (admit_jobs J ids new_id now input t).1 in
        (count_where (is_revision input.pr_id input.commit_hash) (J.rows t') ≡ 1)
        × (count_where (is_revision pr commit) (J.rows t')
            ≡ count_where (is_revision pr commit) (J.rows t))
  unfolding admit_jobs upsert
  admit_jobs-one_each t pr commit few other =
      let mine = is_revision input.pr_id input.commit_hash in
      elim (Option-cases (J.find_first mine (queue_order ids) t)) [
        | inr (job, e) ↦
            rw (e, admit_jobs, upsert)
              (
                ground (
                  arith,
                  count_where-admit_upserted input.pr_id input.commit_hash job t,
                  found_once job t e,
                ),
                count_where-admit_upserted pr commit job t,
              )
        | inl e ↦
            let job = new_job new_id now input in
            let t' = J.create job t in
            rw (e, admit_jobs, upsert)
              (
                ground (
                  arith,
                  count_where-admit_upserted input.pr_id input.commit_hash job t',
                  count_where-created mine t,
                  count_where-none mine (J.rows t) (J.find_first-none mine (queue_order ids) t e),
                  eq_refl input.pr_id,
                  eq_refl input.commit_hash,
                ),
                ground (
                  arith,
                  count_where-admit_upserted pr commit job t',
                  count_where-created (is_revision pr commit) t,
                ),
              )
      ]

  -- An admission without force leaves the running jobs alone: of those that pass any test there are as
  -- many after it as before.
  pub admit_jobs-running :
      (p : Job → Bool) (t : J.Rows)
      → is_forced input ≡ false
      → UniqueIds (J.rows t)
      → count_where
          (λ x. is_running x.state && p x)
          (J.rows (admit_jobs J ids new_id now input t).1)
        ≡ count_where (λ x. is_running x.state && p x) (J.rows t)
  unfolding admit_jobs upsert
  admit_jobs-running p t unforced u =
      let mine = is_revision input.pr_id input.commit_hash in
      elim (Option-cases (J.find_first mine (queue_order ids) t)) [
        | inr (job, e) ↦
            rw (e, admit_jobs, upsert)
              (running_kept p job t unforced u (J.find_first-mem mine (queue_order ids) t job e))
        | inl e ↦
            let job = new_job new_id now input in
            let kept = not_requeued p job (J.create job t) unforced (ground arith) in
            let created = count_where-created (λ x. is_running x.state && p x) t in
            rw (e, admit_jobs, upsert) (ground (arith, kept, created))
      ]
