-- ===== src/ScanQueue/Tests.antt =====
-- Runs of the queue, and the theorems on it at concrete inputs.
use dragnet.Prelude.{
  ℕ, ◌+◌, ◌≤◌, ◌<◌, String, false, Option, none, some, List, [], ◌∷◌, ◌≡◌, refl, ◌⊎◌, Memᴰ, arith,
  count_where, ◌==◌, if◌then◌else◌,
}
use dragnet.Prelude.Dict
use dragnet.Database.{RowOrder}
use dragnet.Database.ListTable.{list_table, first}
use dragnet.ScanQueue.{
  Job, JobState, queued, running, completed, queue_order, normalize_explicit_priorities,
}
use dragnet.ScanQueue.Claim.{
  nothing, claimed, start, is_live, claim_next, claim_prepared, claim_loop, claim_round, try_claim,
  at_repo_limit, prepare, recover_expired_scan_jobs, renew_scan_job_lease, release_scan_job,
}
use dragnet.ScanQueue.Claims.{Answers}
use dragnet.ScanQueue.Rows.{UniqueIds}
use dragnet.ScanQueue.Slots.{claim_next-Answers, live-claim_next}
use dragnet.ScanQueue.Interleaving.{
  ClaimPhase, finding, writing, ended, claim_step, claiming, renewing, Others, quiet, next,
}
use dragnet.ScanQueue.Exclusion.{claim_step-exclusive}
use dragnet.ScanQueue.Fencing.{recover_expired_scan_jobs-fences}

-- an order in which the ids are not told apart
abbrev flat : RowOrder String
flat = record {
  before = λ a b. false;
  before_asym = λ a b h. refl;
  before_neg_trans = λ a b c h k. refl;
}

abbrev job : String → String → JobState → ℕ → Job
job id repo state priority = record {
  id = id;
  pr_id = id;
  repo_id = repo;
  commit_hash = "c0ffee";
  state = state;
  trigger_reason = "webhook";
  priority = priority;
  forced = false;
  resume_requested = false;
  fresh_requested = false;
  worker_id = none;
  lease_expires_at = none;
  claimed_at = none;
  completed_at = none;
  error_message = none;
  review_run_id = none;
  created_at = 5;
}

-- "slow" runs in repository r1 until 2000
abbrev slow : Job
slow = start "w0" 900 2000 (job "slow" "r1" running 0)

-- r1 has a limit of one scan
abbrev limits : String → Option ℕ
limits repo = if repo == "r1" then some 1 else none

abbrev jobs : List Job
jobs = job "a" "r1" queued 10 ∷ job "b" "r2" queued 0 ∷ slow ∷ []

abbrev b_started : Job
b_started = start "w1" 1000 1500 (job "b" "r2" queued 0)

abbrev after_b : List Job
after_b = job "a" "r1" queued 10 ∷ b_started ∷ slow ∷ []

jobs-UniqueIds : UniqueIds jobs
jobs-UniqueIds = ((refl, (refl, tt)), ((refl, tt), (tt, tt)))

-- "a" has the higher priority, and its repository is full
claims_b : claim_next (list_table Job) flat limits "w1" 3 1000 500 jobs ≡ claimed b_started after_b
unfolding claim_next claim_prepared claim_loop claim_round try_claim at_repo_limit prepare
    normalize_explicit_priorities first queue_order Dict.has
claims_b = refl

claim_next-Answers_example :
    let prepared = prepare (list_table Job) 1000 jobs in
    let r = claim_next (list_table Job) flat limits "w1" 3 1000 500 jobs in
    ((3 ≤ count_where (is_live 1000) prepared) × (r ≡ nothing prepared))
    ⊎ ((count_where (is_live 1000) prepared < 3)
        × Answers (list_table Job) flat limits "w1" 3 1000 500 prepared r)
claim_next-Answers_example =
    claim_next-Answers (list_table Job) flat limits "w1" 3 1000 500 jobs jobs-UniqueIds

live-claim_next_example :
    (count_where (is_live 1000) after_b
      ≡ count_where (is_live 1000) (prepare (list_table Job) 1000 jobs) + 1)
    × (count_where (is_live 1000) after_b ≤ 3)
live-claim_next_example =
    live-claim_next (list_table Job) flat limits "w1" 3 1000 500 jobs jobs-UniqueIds (omega arith)
      b_started after_b claims_b

-- two workers have found "b" before either writes
abbrev jobs_c : List Job
jobs_c = job "b" "r2" queued 5 ∷ job "c" "r3" queued 0 ∷ []

abbrev query : String → ℕ → ClaimPhase → List Job → ClaimPhase × List Job
query worker now = claim_step (list_table Job) flat limits worker 3 now 500

abbrev found_b : ClaimPhase
found_b = writing [] (job "b" "r2" queued 5)

abbrev first_write : ClaimPhase × List Job
first_write = query "w1" 1000 found_b jobs_c

b_won : first_write.0 ≡ ended (some (start "w1" 1000 1500 (job "b" "r2" queued 5)))
unfolding claim_step
b_won = refl

abbrev renewed_b : List Job
renewed_b = (renew_scan_job_lease (list_table Job) "b" "w1" 500 1200 first_write.1).1

abbrev recovered_b : List Job
recovered_b = (query "w3" 1450 ClaimPhase.recovering renewed_b).1

meanwhile : Others (list_table Job) flat "b" "w1" 1000 500 first_write.1 recovered_b
meanwhile =
    next first_write.1 renewed_b recovered_b (renewing "b" "w1" 1200 first_write.1 (omega arith)) (
      next renewed_b recovered_b recovered_b
        (claiming limits "w3" 3 1450 500 ClaimPhase.recovering renewed_b (omega arith))
        (quiet recovered_b))

claim_step-exclusive_example : (query "w2" 1400 found_b recovered_b).0 ≡ finding ("b" ∷ [])
claim_step-exclusive_example =
    claim_step-exclusive (list_table Job) flat limits limits "w1" "w2" 3 3 1000 1400 500 500 [] []
      (job "b" "r2" queued 5) (job "b" "r2" queued 5) (start "w1" 1000 1500 (job "b" "r2" queued 5))
      jobs_c recovered_b ((refl, tt), (tt, tt)) b_won meanwhile refl

slow_stored : Memᴰ slow jobs
slow_stored = Memᴰ.tail (Memᴰ.tail (Memᴰ.head refl))

recover_expired_scan_jobs-fences_example :
    let t' = (recover_expired_scan_jobs (list_table Job) 2001 jobs).1 in
    let renewed = renew_scan_job_lease (list_table Job) "slow" "w0" 500 2002 t' in
    let released = release_scan_job (list_table Job) "slow" "w0" completed none none 2002 t' in
    (renewed.0 ≡ false) × (renewed.1 ≡ t') × (released.0 ≡ false) × (released.1 ≡ t')
recover_expired_scan_jobs-fences_example =
    recover_expired_scan_jobs-fences (list_table Job) 2001 jobs slow jobs-UniqueIds slow_stored refl
      "w0" 500 2002 completed none none
