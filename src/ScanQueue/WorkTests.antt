-- ===== src/ScanQueue/WorkTests.antt =====
-- A history of one job, and ticks of a worker.
use dragnet.Prelude.{
  ℕ, ◌<◌, ◌≤◌, String, Bool, true, false, Option, none, some, get_or, List, [], ◌∷◌, ◌≡◌, ◌↔◌, refl,
  leb→le, arith,
}
use dragnet.Database.{RowOrder}
use dragnet.Database.ListTable.{list_table, first}
use dragnet.Runs.{ReviewRun}
use dragnet.ScanQueue.{Job, JobState, queued, completed, failed}
use dragnet.ScanQueue
use dragnet.ScanQueue.Admit
use dragnet.ScanQueue.Admit.{Request, new_job, admit_jobs}
use dragnet.ScanQueue.Claim.{
  claimed, start, claim_next, release_scan_job, claim_prepared, claim_loop, claim_round, try_claim,
  at_repo_limit, prepare,
}
use dragnet.ScanQueue.Control.{retry_failed_scan_job}
use dragnet.ScanQueue.LifeCycle.{AllConsistent}
use dragnet.ScanQueue.Histories.{Reach, Reach-AllConsistent}
use dragnet.ScanQueue.Histories
use dragnet.ScanQueue.Worker.{
  ScanBody, QueueWorker, new_worker, begin_pass, end_pass, tick, claim_gives, job_ends,
}
use dragnet.ScanQueue.Ticks.{IsServed, Reach-IsServed}
use dragnet.ScanQueue.Ticks

abbrev in_order : RowOrder String
in_order = record {
  before = λ a b. false;
  before_asym = λ a b h. refl;
  before_neg_trans = λ a b c h k. refl;
}

abbrev by_hand : Request
by_hand = record {
  pr_id = "pr1";
  repo_id = "r1";
  commit_hash = "c1";
  trigger_reason = none;
  kind = none;
  forced = none;
  resume_requested = none;
  fresh_requested = none;
}

abbrev no_limit : String → Option ℕ
no_limit repo = none

abbrev admitted : List Job
admitted = (admit_jobs (list_table Job) in_order "j1" 5 by_hand []).1

abbrev taken : Job
taken = start "w1" 10 510 (new_job "j1" 5 by_hand)

takes_it :
    claim_next (list_table Job) in_order no_limit "w1" 2 10 500 admitted
    ≡ claimed taken (taken ∷ [])
unfolding claim_next claim_prepared claim_loop claim_round try_claim at_repo_limit prepare
    ScanQueue.normalize_explicit_priorities first ScanQueue.queue_order dragnet.Prelude.Dict.has
    admit_jobs Admit.upsert Admit.admit_upserted Admit.answer ScanQueue.position_for
    ScanQueue.resolve_admit_kind
takes_it = refl

abbrev released : List Job
released =
    (release_scan_job (list_table Job) "j1" "w1" failed none (some "timeout") 20 (taken ∷ [])).1

-- admitted, claimed, failed and put on the queue again
retried-Reach :
    Reach
      (list_table Job)
      in_order
      (list_table ReviewRun)
      900
      (retry_failed_scan_job (list_table Job) in_order "j1" released).1
retried-Reach =
    Histories.next
      (Histories.next
        (Histories.next
          (Histories.next (Histories.begin [] refl) (Histories.admit "j1" 5 by_hand []))
          (Histories.claim no_limit "w1" 2 10 500 admitted (taken ∷ []) taken takes_it))
        (Histories.release "j1" "w1" failed none (some "timeout") 20 (taken ∷ []) refl))
      (Histories.retry "j1" released)

Reach-AllConsistent_example :
    AllConsistent (list_table Job) (retry_failed_scan_job (list_table Job) in_order "j1" released).1
Reach-AllConsistent_example =
    Reach-AllConsistent (list_table Job) in_order (list_table ReviewRun) 900
      (retry_failed_scan_job (list_table Job) in_order "j1" released).1 retried-Reach

-- one slot: a job is claimed, and a wake comes while the next claim is awaited after its end
abbrev busy : QueueWorker
busy = claim_gives 1 (tick 1 new_worker)

abbrev waiting : QueueWorker
waiting = tick 1 (job_ends 1 busy)

busy-Reach : Ticks.Reach 1 busy
unfolding tick begin_pass
busy-Reach =
    Ticks.next (Ticks.next Ticks.begin (Ticks.wakes new_worker))
      (Ticks.gives (tick 1 new_worker) (omega arith))

waiting-Reach : Ticks.Reach 1 waiting
unfolding tick begin_pass claim_gives end_pass
waiting-Reach =
    Ticks.next (Ticks.next busy-Reach (Ticks.finishes busy (omega arith)))
      (Ticks.wakes (job_ends 1 busy))

waiting_state :
    waiting
    ≡ record { stopped = false; ticking = true; wake_pending = true; active = 0; claims = 1 }
unfolding tick begin_pass claim_gives end_pass job_ends
waiting_state = refl

Reach-IsServed_example : IsServed 1 waiting
Reach-IsServed_example = Reach-IsServed 1 waiting waiting-Reach

abbrev body : ScanBody
body = record {
  run_id = some "run-1";
  message = none;
  error = none;
  is_interrupted = false;
  success = some true;
  terminal_is_failed = true;
  terminal_reason = some "no earned review";
  system_warn = none;
}
