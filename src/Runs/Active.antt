-- ===== src/Runs/Active.antt =====
-- src/lib/reviewFreshness.ts, `getActiveScan`: the run in progress that the web interface shows. It marks a
-- run failed that has gone stale or whose pull request has ended. The findings and the log lines of
-- the run, and the text of the warning, are left out.
use dragnet.Prelude.{
  ℕ, ◌-◌, String, Bool, false, ◌||◌, Option, none, some, get_or, List, ltb, ◌==◌, if◌then◌else◌,
  ◌≡◌, ◌≢◌, ◌↔◌, arith, Bool-cases, Option-cases, inl, inr,
}
use dragnet.Prelude.Text.{trim}
use dragnet.Database.{Table}
use dragnet.Runs.{
  ReviewRun, Checkpoint, Inspectable, last_activity, orphaned, in_progress_of, newest_first,
  running, assert_no_active_scan, check_active, offer_or_reap, inspectable,
}

-- `(prRow?.status ?? "").trim()`
abbrev pub has_ended : Option String → Bool
has_ended status =
    let text = trim (get_or status "") in
    text == "Failed" || text == "Completed" || text == "Merged"

module _ (T : Table ReviewRun) (stale_after_ms : ℕ) where
  open T use {Rows, find_first, update_many}

  unfoldable pub show_or_reap :
      Option ReviewRun → Option String → ℕ → Rows → Option ReviewRun × Rows
  show_or_reap none pr_status now t = (none, t)
  show_or_reap (some run) pr_status now t =
      if has_ended pr_status || ltb stale_after_ms (now - last_activity run)
      then (none, (update_many (λ r. r.id == run.id) (orphaned now) t).1)
      else (some run, t)

  unfoldable pub get_active_scan : String → Option String → ℕ → Rows → Option ReviewRun × Rows
  get_active_scan pr_id pr_status now t =
      show_or_reap (find_first (in_progress_of pr_id) newest_first t) pr_status now t

  module _ (list_run_checkpoints : String → String → List Checkpoint) where
    offer_or_reap-not_running :
        (found : ReviewRun) (o : Option Inspectable) (now : ℕ) (t : Rows) (run : ReviewRun)
        → (offer_or_reap T stale_after_ms list_run_checkpoints found o now t).0 ≢ running run
    unfolding offer_or_reap
    offer_or_reap-not_running found none now t run = ground arith
    offer_or_reap-not_running found (some o) now t run = ground arith

    -- The interface shows a run as active exactly when the guard on new scans reports it as running and
    -- the pull request has not ended, whatever repository the guard looks for checkpoints in.
    pub get_active_scan_iff :
        (pr_id : String) (pr_status repo_path : Option String) (now : ℕ) (t : Rows)
        (run : ReviewRun)
        → ((get_active_scan pr_id pr_status now t).0 ≡ some run) ↔ (
            ((assert_no_active_scan T stale_after_ms list_run_checkpoints pr_id false repo_path now
                t).0
              ≡ running run)
            × (has_ended pr_status ≡ false))
    unfolding get_active_scan show_or_reap assert_no_active_scan check_active
    get_active_scan_iff pr_id pr_status repo_path now t run =
        elim (Option-cases (find_first (in_progress_of pr_id) newest_first t)) [
          | inl e ↦ rw (e, get_active_scan) (ground arith)
          | inr (found, e) ↦ elim (Bool-cases (ltb stale_after_ms (now - last_activity found))) [
            | inl stale ↦ elim (Bool-cases (has_ended pr_status)) [
              | inl over ↦ rw (e, stale, over, get_active_scan) (ground arith)
              | inr open_pr ↦
                  rw (e, stale, open_pr, get_active_scan)
                    (ground (
                      arith,
                      offer_or_reap-not_running found
                          (inspectable T stale_after_ms list_run_checkpoints repo_path found) now t
                          run,
                    ))
            ]
            | inr live ↦ elim (Bool-cases (has_ended pr_status)) [
              | inl over ↦ rw (e, live, over, get_active_scan) (ground arith)
              | inr open_pr ↦ rw (e, live, open_pr, get_active_scan) (ground arith)
            ]
          ]
        ]
