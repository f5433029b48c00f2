-- ===== src/ReviewLocks/Races.antt =====
-- What stopping a scan does in each phase of it, and what a late `release()` does to the scan that
-- replaced its own.
use dragnet.Prelude.{
  ℕ, suc, leb, ◌||◌, ◌-◌, ◌≤◌, ◌<◌, String, true, false, Option, none, some, List, ◌≡◌, refl, ap,
  arith, eq_refl,
}
use dragnet.Prelude.Dict
use dragnet.Prelude.Dict.{get-set, get-delete, has-add, has-remove}
use dragnet.Database.{Table}
use dragnet.Runs.{ReviewRun, Checkpoint, in_progress_of, newest_first, assert_no_active_scan}
use dragnet.ReviewLocks.{
  Locks, Entry, entry_of, is_aborted, is_review_active, abort_scan, begin_review, end_review,
  check_pending_abort,
}
use dragnet.ReviewLocks.Acquire.{acquired, abort_existing, after_check, acquire_review_lock}
use dragnet.ReviewLocks.Laws.{IsConsistent, abort_existing-fresh}

module _ (ttl : ℕ) (pr : String) (now : ℕ) (l : Locks) where
  -- Stopping a scan that has no entry yet is remembered: `abortScan` answers false, and of the two
  -- next calls of `checkPendingAbort` the first answers true and the second false.
  pub abort_scan-deferred :
      entry_of l pr ≡ none
      → let stopped = abort_scan ttl pr now l in
        let first = check_pending_abort pr stopped.1 in
        (stopped.0 ≡ false) × (first.0 ≡ true) × ((check_pending_abort pr first.1).0 ≡ false)
  unfolding abort_scan check_pending_abort
  abort_scan-deferred e = ground (
    arith,
    has-add l.pending_aborts pr pr,
    eq_refl pr,
    has-remove (Dict.add l.pending_aborts pr) pr pr,
  )

  module _ (e : Entry) (held : entry_of l pr ≡ some e) where
    -- Stopping a scan that has an entry answers true, removes the entry and any deferred stop, and
    -- aborts the scan exactly if it was started within the TTL.
    pub abort_scan-held :
        let stopped = abort_scan ttl pr now l in
        (stopped.0 ≡ true)
        × (entry_of stopped.1 pr ≡ none)
        × ((check_pending_abort pr stopped.1).0 ≡ false)
        × (is_aborted stopped.1.aborted e.controller
            ≡ (leb (now - e.started_at) ttl || is_aborted l.aborted e.controller))
    unfolding abort_scan check_pending_abort
    abort_scan-held =
        ground
          (arith, get-delete l.active_reviews pr pr, eq_refl pr, has-remove l.pending_aborts pr pr)

    -- A scan that was started longer ago than the TTL and is kept alive by its heartbeats is active,
    -- and yet stopping it only removes its entry: the answer is true, and its controller is not
    -- aborted.
    pub abort_scan-long_running :
        now - e.last_activity_at ≤ ttl
        → ttl < now - e.started_at
        → is_aborted l.aborted e.controller ≡ false
        → let stopped = abort_scan ttl pr now l in
          ((is_review_active ttl pr now l).0 ≡ true)
          × (stopped.0 ≡ true)
          × (is_aborted stopped.1.aborted e.controller ≡ false)
          × ((is_review_active ttl pr now stopped.1).0 ≡ false)
    unfolding abort_scan is_review_active
    abort_scan-long_running live old running =
        ground (arith, get-delete l.active_reviews pr pr, eq_refl pr)

not_active_after_end :
    (ttl : ℕ) (pr : String) (now : ℕ) (l : Locks)
    → is_review_active ttl pr now (end_review pr l) ≡ (false, end_review pr l)
unfolding is_review_active end_review
not_active_after_end ttl pr now l = ground (arith, get-delete l.active_reviews pr pr, eq_refl pr)

next-abort_existing :
    (pr : String) (o : Option Entry) (l : Locks)
    → (abort_existing pr o l).next_controller ≡ l.next_controller
unfolding abort_existing
next-abort_existing pr none l = refl
next-abort_existing pr (some e) l = refl

module _ (T : Table ReviewRun) (ttl : ℕ) (list_run_checkpoints : String → String → List Checkpoint)
    (pr : String) (repo_path : Option String) (now later : ℕ) (l : Locks) (t : T.Rows) where
  -- After a forced acquisition, the `release()` of the scan that it replaced removes the new entry:
  -- if no row of the database is in progress yet, an acquisition without force then succeeds too,
  -- with a second signal, while the first is not aborted.
  pub acquire_review_lock-late_release :
      IsConsistent l
      → T.find_first (in_progress_of pr) newest_first t ≡ none
      → let first = acquire_review_lock T ttl list_run_checkpoints pr true repo_path now l t in
        let released = end_review pr first.1 in
        let second =
          acquire_review_lock T ttl list_run_checkpoints pr false repo_path later released t in
        (first.0 ≡ acquired l.next_controller)
        × (second.0 ≡ acquired (suc l.next_controller))
        × (is_aborted second.1.aborted l.next_controller ≡ false)
  unfolding acquire_review_lock begin_review assert_no_active_scan after_check
  acquire_review_lock-late_release h idle =
      rw (not_active_after_end, idle)
        (unfold end_review in
          (
            ap acquired (next-abort_existing pr (entry_of l pr) l),
            ap (λ n. acquired (suc n)) (next-abort_existing pr (entry_of l pr) l),
            abort_existing-fresh pr l _ refl h,
          ))
