-- ===== src/ScanQueue/AdmitTests.antt =====
-- Admissions to a small queue, and the theorems on them.
use dragnet.Prelude.{
  String, Bool, true, false, ◌&&◌, Option, none, some, List, [], ◌∷◌, ◌≡◌, refl, count_where, arith,
  ◌==◌,
}
use dragnet.Database.{RowOrder}
use dragnet.Database.ListTable.{list_table, first}
use dragnet.ScanQueue.{Job, JobState, queued, running, completed, is_running, afk, position_for}
use dragnet.ScanQueue
use dragnet.ScanQueue.Admit
use dragnet.ScanQueue.Admit.{Request, is_revision, new_job, admit_jobs}
use dragnet.ScanQueue.Admission.{admit_jobs-one_each, admit_jobs-running}

-- an order in which the ids are not told apart
abbrev any_order : RowOrder String
any_order = record {
  before = λ a b. false;
  before_asym = λ a b h. refl;
  before_neg_trans = λ a b c h k. refl;
}

abbrev request : String → Option Bool → Request
request commit forced = record {
  pr_id = "pr1";
  repo_id = "r1";
  commit_hash = commit;
  trigger_reason = some "webhook";
  kind = none;
  forced = forced;
  resume_requested = none;
  fresh_requested = none;
}

-- the job of a first admission, running and ended
abbrev job_in : JobState → Job
job_in state = record (new_job "j1" 5 (request "c1" none)) { state = state; worker_id = some "w" }

abbrev ended : List Job
ended = job_in completed ∷ []

-- a webhook for a revision that has been scanned changes nothing
afk_is_idempotent :
    (admit_jobs (list_table Job) any_order "j2" 9 (request "c1" none) ended).1 ≡ ended
unfolding admit_jobs Admit.upsert Admit.admit_upserted Admit.answer position_for first
    ScanQueue.resolve_admit_kind
afk_is_idempotent = refl

-- a forced one puts it on the queue
forced_is_queued :
    (admit_jobs (list_table Job) any_order "j2" 9 (request "c1" (some true)) ended).0.state ≡ queued
unfolding admit_jobs Admit.upsert Admit.admit_upserted Admit.answer Admit.requeue position_for first
    ScanQueue.view
forced_is_queued = refl

admit_jobs-one_each_example :
    let t' = (admit_jobs (list_table Job) any_order "j2" 9 (request "c1" (some true)) ended).1 in
    (count_where (is_revision "pr1" "c1") t' ≡ 1)
    × (count_where (is_revision "pr1" "c2") t' ≡ count_where (is_revision "pr1" "c2") ended)
admit_jobs-one_each_example =
    admit_jobs-one_each (list_table Job) any_order "j2" 9 (request "c1" (some true)) ended "pr1"
      "c2" (omega arith) refl

abbrev busy : List Job
busy = job_in running ∷ []

abbrev of_w : Job → Bool
of_w job = job.id == "j1"

admit_jobs-running_example :
    count_where
      (λ x. is_running x.state && of_w x)
      (admit_jobs (list_table Job) any_order "j2" 9 (request "c2" none) busy).1
    ≡ count_where (λ x. is_running x.state && of_w x) busy
admit_jobs-running_example =
    admit_jobs-running (list_table Job) any_order "j2" 9 (request "c2" none) of_w busy refl (tt, tt)
