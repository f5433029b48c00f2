-- ===== src/Runs/Guard.antt =====
-- What the answers of `assertNoActiveScan` mean.
use dragnet.Prelude.{
  ℕ, ◌-◌, ◌≤◌, ◌<◌, String, Bool, true, false, Option, none, some, List, ◌≡◌, ◌⊎◌, inl, inr, refl,
  ◌==◌, All, Memᴰ, arith, ltb, if◌then◌else◌,
}
use dragnet.Database.{Table, update_where}
use dragnet.Runs.{
  ReviewRun, Checkpoint, Inspectable, ActiveScanCheck, clear, running, stale_inspectable,
  last_activity, orphaned, newest_first, in_progress_of, inspectable, offer_or_reap, check_active,
  assert_no_active_scan,
}

-- `run` is the newest run of the pull request that is in progress.
pub record IsNewestActive (T : Table ReviewRun) (t : T.Rows) (pr : String) (run : ReviewRun)
    : Type 0 where
  pub stored : Memᴰ run (T.rows t)
  pub active : in_progress_of pr run ≡ true
  pub newest :
      All (λ x. in_progress_of pr x ≡ true → ltb run.started_at x.started_at ≡ false) (T.rows t)

module _ (T : Table ReviewRun) (stale_after_ms : ℕ)
    (list_run_checkpoints : String → String → List Checkpoint) (pr : String)
    (repo_path : Option String) (now : ℕ) (t : T.Rows) where
  abbrev pub Means : ActiveScanCheck × T.Rows → Type 0
  Means (running run, t') =
      IsNewestActive T t pr run × (now - last_activity run ≤ stale_after_ms) × (t' ≡ t)
  Means (stale_inspectable run found, t') =
      IsNewestActive T t pr run
      × (stale_after_ms < now - last_activity run)
      × (inspectable T stale_after_ms list_run_checkpoints repo_path run ≡ some found)
      × (t' ≡ t)
  Means (clear, t') =
      (All (λ r. in_progress_of pr r ≡ false) (T.rows t) × (t' ≡ t))
      ⊎ ((run : ReviewRun) × IsNewestActive T t pr run
          × (stale_after_ms < now - last_activity run)
          × (inspectable T stale_after_ms list_run_checkpoints repo_path run ≡ none)
          × (T.rows t' ≡ update_where (λ r. r.id == run.id) (orphaned now) (T.rows t)))

  found-IsNewestActive :
      (run : ReviewRun)
      → T.find_first (in_progress_of pr) newest_first t ≡ some run
      → IsNewestActive T t pr run
  found-IsNewestActive run e = record {
    stored = T.find_first-mem (in_progress_of pr) newest_first t run e;
    active = T.find_first-match (in_progress_of pr) newest_first t run e;
    newest = T.find_first-least (in_progress_of pr) newest_first t run e;
  }

  offer_or_reap-Means :
      (run : ReviewRun)
      → IsNewestActive T t pr run
      → stale_after_ms < now - last_activity run
      → (found : Option Inspectable)
      → inspectable T stale_after_ms list_run_checkpoints repo_path run ≡ found
      → Means (offer_or_reap T stale_after_ms list_run_checkpoints run found now t)
  unfolding offer_or_reap
  offer_or_reap-Means run h stale (some found) e = (h, stale, e, refl)
  offer_or_reap-Means run h stale none e =
      inr (run, h, stale, e, T.update_many-rows (λ r. r.id == run.id) (orphaned now) t)

  by_age :
      (run : ReviewRun)
      → IsNewestActive T t pr run
      → (b : Bool) → ltb stale_after_ms (now - last_activity run) ≡ b
      → Means (
          if b
          then offer_or_reap T stale_after_ms list_run_checkpoints run
              (inspectable T stale_after_ms list_run_checkpoints repo_path run)
              now
              t
          else (running run, t))
  by_age run h true e = offer_or_reap-Means run h (ground arith) _ refl
  by_age run h false e = (h, ground arith, refl)

  check_active-Means :
      (found : Option ReviewRun)
      → T.find_first (in_progress_of pr) newest_first t ≡ found
      → Means (check_active T stale_after_ms list_run_checkpoints found repo_path now t)
  unfolding check_active
  check_active-Means none e = inl (T.find_first-none (in_progress_of pr) newest_first t e, refl)
  check_active-Means (some run) e = by_age run (found-IsNewestActive run e) _ refl

  -- Without `force`, the answer is that of the newest run in progress: it blocks while its heartbeat
  -- is at most `stale_after_ms` old, it is offered for resumption if it is stale and has
  -- a checkpoint, and it alone is marked failed if it is stale and has none; with no run in progress
  -- the way is clear and nothing is written.
  pub assert_no_active_scan-Means :
      Means (assert_no_active_scan T stale_after_ms list_run_checkpoints pr false repo_path now t)
  unfolding assert_no_active_scan
  assert_no_active_scan-Means = check_active-Means _ refl
