-- ===== src/ScanQueue/LifeSteps.antt =====
-- Histories of the queue of src/services/scanQueue.ts: sequences of its operations, each of which is one step,
-- from a table whose rows are consistent.
use dragnet.Prelude.{
  ℕ, String, ◌&&◌, ◌||◌, not, Option, none, some, [], ◌∷◌, eqb, ◌==◌, refl, sym, subst, All,
  All-append, Bool-cases, Option-cases, inl, inr,
}
use dragnet.Database.{Table, RowOrder}
use dragnet.Runs.{ReviewRun}
use dragnet.ScanQueue.{Job, is_queued, is_running, is_terminal, position_for, queue_order}
use dragnet.ScanQueue.Admit.{
  Request, InFlight, new_job, forced_again, queued_again, is_forced, may_requeue_terminal, answer,
  requeue, upsert, admit_upserted, admit_jobs, is_revision,
}
use dragnet.ScanQueue.Control.{
  is_active, is_failed, as_cancelled, as_retried, latest_created, retry_failed_scan_job,
  latest_answer, prioritize_scan_job, cancel_found, shown, has_lost_lease,
}
use dragnet.ScanQueue.LifeCycle.{
  IsConsistent, AllConsistent, update-AllConsistent, written, normalize-AllConsistent,
}

module _ (J : Table Job) (ids : RowOrder String) where
  pub answer-AllConsistent :
      (job : Job) (t : J.Rows) → AllConsistent J t → AllConsistent J (answer J ids job t).1
  unfolding answer position_for
  answer-AllConsistent job t h = elim (Bool-cases (is_queued job.state)) [
    | inl waits ↦ rw (waits, answer) (normalize-AllConsistent J t h)
    | inr other ↦ rw (other, answer) h
  ]

  pub requeue-AllConsistent :
      (f : Job → Job) (job : Job) (t : J.Rows)
      → ((x : Job) → IsConsistent (f x))
      → AllConsistent J t
      → AllConsistent J (requeue J ids f job t).1
  unfolding requeue
  requeue-AllConsistent f job t clean h =
      answer-AllConsistent (f job) (J.update_many (λ j. j.id == job.id) f t).1 (
        update-AllConsistent J (λ j. j.id == job.id) f t
          (λ x. written J (λ j. j.id == job.id) f x (λ e k. clean x)) h)

  pub admit_upserted-AllConsistent :
      (input : Request) (job : Job) (t : J.Rows)
      → AllConsistent J t
      → AllConsistent J (admit_upserted J ids input job t).1
  unfolding admit_upserted
  admit_upserted-AllConsistent input job t h =
      elim (Bool-cases (
        is_forced input
        && (is_running job.state || is_terminal job.state || is_queued job.state))) [
          | inl again ↦
              rw (again, admit_upserted)
                (requeue-AllConsistent (forced_again input) job t (λ x. (refl, refl, refl)) h)
          | inr kept ↦ elim (Bool-cases (may_requeue_terminal input && is_terminal job.state)) [
            | inl over ↦
                rw (kept, over, admit_upserted)
                  (requeue-AllConsistent (queued_again input) job t (λ x. (refl, refl, refl)) h)
            | inr stays ↦ rw (kept, stays, admit_upserted) (answer-AllConsistent job t h)
          ]
        ]

  pub upsert-AllConsistent :
      (new_id : String) (now : ℕ) (input : Request) (t : J.Rows)
      → AllConsistent J t
      → AllConsistent J (upsert J ids new_id now input t).1
  unfolding upsert
  upsert-AllConsistent new_id now input t h =
      elim (Option-cases
        (J.find_first (is_revision input.pr_id input.commit_hash) (queue_order ids) t)) [
          | inr (job, e) ↦ rw (e, upsert) h
          | inl e ↦
              rw (e, upsert)
                (subst (All IsConsistent) (sym (J.create-rows (new_job new_id now input) t)) (
                  All-append IsConsistent (J.rows t) (new_job new_id now input ∷ []) h
                    ((refl, refl, refl), tt)))
        ]

  pub admit_jobs-AllConsistent :
      (new_id : String) (now : ℕ) (input : Request) (t : J.Rows)
      → AllConsistent J t
      → AllConsistent J (admit_jobs J ids new_id now input t).1
  unfolding admit_jobs
  admit_jobs-AllConsistent new_id now input t h =
      let (job, u) = upsert J ids new_id now input t in
      admit_upserted-AllConsistent input job u (upsert-AllConsistent new_id now input t h)

  pub latest_answer-AllConsistent :
      (o : Option Job) (t : J.Rows)
      → AllConsistent J t
      → AllConsistent J (latest_answer J ids o t).1
  unfolding latest_answer
  latest_answer-AllConsistent none t h = h
  latest_answer-AllConsistent (some job) t h = answer-AllConsistent job t h

  pub retry-AllConsistent :
      (id : String) (t : J.Rows)
      → AllConsistent J t
      → AllConsistent J (retry_failed_scan_job J ids id t).1
  unfolding retry_failed_scan_job
  retry-AllConsistent id t h =
      let hit = λ (j : Job). j.id == id && is_failed j.state in
      let write = J.update_many hit as_retried t in
      let after =
        update-AllConsistent J hit as_retried t
          (λ x. written J hit as_retried x (λ e k. (refl, refl, refl))) h in
      elim (Bool-cases (eqb write.0 1)) [
        | inl once ↦
            rw (once, retry_failed_scan_job)
              (latest_answer-AllConsistent (J.find_first (λ j. j.id == id) latest_created write.1)
                write.1 after)
        | inr missed ↦ rw (missed, retry_failed_scan_job) after
      ]

  pub prioritize-AllConsistent :
      (id : String) (t : J.Rows)
      → AllConsistent J t
      → AllConsistent J (prioritize_scan_job J ids id t).1
  unfolding prioritize_scan_job
  prioritize-AllConsistent id t =
      let hit = λ (j : Job). j.id == id && is_queued j.state in
      let raise = λ (j : Job). record j { priority = 100 } in
      update-AllConsistent J hit raise t (λ x. written J hit raise x (λ e k. k))

  pub shown-AllConsistent :
      (now : ℕ) (o : Option Job) (t : J.Rows)
      → AllConsistent J t
      → AllConsistent J (shown J ids now o t).1
  unfolding shown
  shown-AllConsistent now none t h = h
  shown-AllConsistent now (some job) t h = elim (Bool-cases (has_lost_lease now job)) [
    | inl lost ↦ rw (lost, shown) h
    | inr kept ↦ rw (kept, shown) (answer-AllConsistent job t h)
  ]

  module _ (T : Table ReviewRun) (ttl : ℕ) where
    pub cancel_found-AllConsistent :
        (o : Option Job) (id : String) (now : ℕ) (f : InFlight T ttl) (t : J.Rows)
        → AllConsistent J t
        → AllConsistent J (cancel_found J ids T ttl o id now f t).1
    unfolding cancel_found
    cancel_found-AllConsistent none id now f t h = h
    cancel_found-AllConsistent (some job) id now f t h =
        let hit = λ (j : Job). j.id == id && is_active j.state in
        elim (Bool-cases (not (is_active job.state))) [
          | inl over ↦ rw (over, cancel_found) h
          | inr live ↦
              rw (live, cancel_found)
                (update-AllConsistent J hit (as_cancelled now) t
                  (λ x. written J hit (as_cancelled now) x (λ e k. (refl, refl, refl))) h)
        ]
