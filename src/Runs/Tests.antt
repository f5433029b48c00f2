-- ===== src/Runs/Tests.antt =====
-- The theorems on the rows of runs at concrete inputs.
use dragnet.Prelude.{false, String, none, some, List, [], ◌∷◌, ◌≡◌, All}
use dragnet.Database.{update_where}
use dragnet.Database.ListTable.{list_table}
use dragnet.Runs.{
  ReviewRun, Checkpoint, in_progress, orphaned, reap_stale_runs, assert_no_active_scan,
}
use dragnet.Runs.Reaping.{is_stale, reap_stale_runs-clean}
use dragnet.Runs.Guard.{Means, assert_no_active_scan-Means}

-- a run of pr1 whose last heartbeat was at 400
abbrev old_run : ReviewRun
old_run = record {
  id = "run-1";
  pr_id = "pr1";
  status = in_progress;
  commit_hash = "c0ffee";
  diff_hash = "d1ff";
  review_config_hash = "cf9";
  started_at = 100;
  last_activity_at = some 400;
  last_checkpoint_at = none;
  completed_at = none;
  model = none;
  trigger_reason = none;
  rating = none;
  outcome = none;
  is_refused = false;
  refusal_note = none;
  reliability = none;
  chunks_total = 0;
  chunks_completed = 0;
  chunks_failed = 0;
  chunks_skipped = 0;
  terminal_class = none;
  system_warn = none;
}

abbrev live_run : ReviewRun
live_run = record old_run { id = "run-2"; last_activity_at = some 1900 }

abbrev runs : List ReviewRun
runs = old_run ∷ live_run ∷ []

reap_stale_runs-clean_example :
    let after = (reap_stale_runs (list_table ReviewRun) 900 2000 runs).1 in
    (after ≡ update_where (is_stale 900 2000) (orphaned 2000) runs)
    × All (λ r. is_stale 900 2000 r ≡ false) after
    × ((reap_stale_runs (list_table ReviewRun) 900 2000 after).0 ≡ 0)
reap_stale_runs-clean_example = reap_stale_runs-clean (list_table ReviewRun) 900 2000 runs

abbrev checkpoints : String → String → List Checkpoint
checkpoints repo_path run_id = []

assert_no_active_scan-Means_example :
    Means
      (list_table ReviewRun)
      900
      checkpoints
      "pr1"
      none
      2000
      runs
      (assert_no_active_scan (list_table ReviewRun) 900 checkpoints "pr1" false none 2000 runs)
assert_no_active_scan-Means_example =
    assert_no_active_scan-Means (list_table ReviewRun) 900 checkpoints "pr1" none 2000 runs
