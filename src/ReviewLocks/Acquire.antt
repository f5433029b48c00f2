-- ===== src/ReviewLocks/Acquire.antt =====
-- `acquireReviewLock` of src/lib/reviewLocks.ts: the in-memory check, the check of the rows in the
-- database, and the new entry. A caller that acquires gets the signal of a controller; its
-- `release()` is `end_review`.
use dragnet.Prelude.{ℕ, String, Bool, true, false, Option, none, some, List, ◌∷◌, if◌then◌else◌}
use dragnet.Prelude.Dict
use dragnet.Database.{Table}
use dragnet.Runs.{
  ReviewRun, Checkpoint, Inspectable, ActiveScanCheck, clear, running, stale_inspectable,
  assert_no_active_scan,
}
use dragnet.ReviewLocks.{Locks, Entry, entry_of, is_review_active, begin_review}

pub data LockResult : Type 0 where
  acquired : ℕ → LockResult
  busy_in_memory : LockResult
  busy_run : ReviewRun → LockResult
  inspectable_run : ReviewRun → Inspectable → LockResult

-- `force`: the entry that is there is aborted, whatever its age, and removed
unfoldable pub abort_existing : String → Option Entry → Locks → Locks
abort_existing pr_id none l = l
abort_existing pr_id (some existing) l = record l {
  active_reviews = Dict.delete l.active_reviews pr_id;
  aborted = existing.controller ∷ l.aborted;
}

unfoldable pub after_check : String → ℕ → ActiveScanCheck → Locks → LockResult × Locks
after_check pr_id now clear l = let (signal, l') = begin_review pr_id now l in (acquired signal, l')
after_check pr_id now (running run) l = (busy_run run, l)
after_check pr_id now (stale_inspectable run found) l = (inspectable_run run found, l)

module _ (T : Table ReviewRun) (ttl : ℕ)
    (list_run_checkpoints : String → String → List Checkpoint) where
  open T use {Rows}

  unfoldable pub check_database :
      String → Bool → Option String → ℕ → Locks → Rows → LockResult × Locks × Rows
  unfolding after_check
  check_database pr_id force repo_path now l t =
      let (check, t') =
        assert_no_active_scan T ttl list_run_checkpoints pr_id force repo_path now t in
      let (result, l') = after_check pr_id now check l in (result, l', t')

  unfoldable pub acquire_review_lock :
      String → Bool → Option String → ℕ → Locks → Rows → LockResult × Locks × Rows
  unfolding abort_existing check_database
  acquire_review_lock pr_id true repo_path now l t =
      check_database pr_id true repo_path now (abort_existing pr_id (entry_of l pr_id) l) t
  acquire_review_lock pr_id false repo_path now l t =
      let (active, l') = is_review_active ttl pr_id now l in
      if active then (busy_in_memory, l', t) else check_database pr_id false repo_path now l' t
