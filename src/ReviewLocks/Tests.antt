-- ===== src/ReviewLocks/Tests.antt =====
-- Runs of the locks, and the theorems on them at concrete inputs.
use dragnet.Prelude.{suc, String, true, false, none, some, List, [], ◌≡◌, refl, arith}
use dragnet.Prelude.Dict
use dragnet.Database.ListTable.{list_table, first}
use dragnet.Runs.{ReviewRun, Checkpoint, clear}
use dragnet.ReviewLocks.{
  Locks, Entry, entry_of, no_locks, is_aborted, is_review_active, abort_scan, begin_review,
  end_review, touch_review_activity, review_ttl_ms,
}
use dragnet.ReviewLocks.Acquire.{acquired, after_check, acquire_review_lock}
use dragnet.ReviewLocks.Steps.{Reach, start, next, finish_acquire, Reach-IsConsistent}
use dragnet.ReviewLocks.Races.{abort_scan-long_running, acquire_review_lock-late_release}

abbrev no_checkpoints : String → String → List Checkpoint
no_checkpoints repo_path run_id = []

abbrev no_runs : List ReviewRun
no_runs = []

-- a scan of pr1 since 100, and one of pr2 since 200
abbrev one_scan : Locks
one_scan = (after_check "pr1" 100 clear no_locks).1

abbrev two_scans : Locks
two_scans = (after_check "pr2" 200 clear one_scan).1

two_scans-Reach : Reach 900 two_scans
two_scans-Reach =
    next (next start (finish_acquire "pr1" 100 clear no_locks))
      (finish_acquire "pr2" 200 clear one_scan)

abbrev pr1_entry : Entry
pr1_entry = record { started_at = 100; last_activity_at = 100; controller = 0 }

pr1_held : entry_of two_scans "pr1" ≡ some pr1_entry
unfolding after_check begin_review Dict.get Dict.set
pr1_held = refl

abbrev pr2_entry : Entry
pr2_entry = record { started_at = 200; last_activity_at = 200; controller = 1 }

default_ttl : review_ttl_ms none ≡ 900000
unfolding review_ttl_ms
default_ttl = refl

pr3_free : entry_of two_scans "pr3" ≡ none
unfolding after_check begin_review Dict.get Dict.set
pr3_free = refl

-- the scan of pr1 has run for 1400 and had its last heartbeat 100 ago
abbrev long_scan : Locks
long_scan = touch_review_activity "pr1" 1400 two_scans

abbrev long_entry : Entry
long_entry = record { started_at = 100; last_activity_at = 1400; controller = 0 }

long_held : entry_of long_scan "pr1" ≡ some long_entry
unfolding after_check begin_review touch_review_activity Dict.get Dict.set
long_held = refl

long_not_aborted : is_aborted long_scan.aborted 0 ≡ false
unfolding after_check begin_review touch_review_activity Dict.get Dict.set
long_not_aborted = refl

abort_scan-long_running_example :
    let stopped = abort_scan 900 "pr1" 1500 long_scan in
    ((is_review_active 900 "pr1" 1500 long_scan).0 ≡ true)
    × (stopped.0 ≡ true)
    × (is_aborted stopped.1.aborted 0 ≡ false)
    × ((is_review_active 900 "pr1" 1500 stopped.1).0 ≡ false)
abort_scan-long_running_example =
    abort_scan-long_running 900 "pr1" 1500 long_scan long_entry long_held (omega arith)
      (omega arith) long_not_aborted

acquire_review_lock-late_release_example :
    let first_scan =
      acquire_review_lock
        (list_table ReviewRun)
        900
        no_checkpoints
        "pr1"
        true
        none
        300
        two_scans
        no_runs in
    let released = end_review "pr1" first_scan.1 in
    let second =
      acquire_review_lock
        (list_table ReviewRun)
        900
        no_checkpoints
        "pr1"
        false
        none
        310
        released
        no_runs in
    (first_scan.0 ≡ acquired two_scans.next_controller)
    × (second.0 ≡ acquired (suc two_scans.next_controller))
    × (is_aborted second.1.aborted two_scans.next_controller ≡ false)
unfolding first
acquire_review_lock-late_release_example =
    acquire_review_lock-late_release (list_table ReviewRun) 900 no_checkpoints "pr1" none 300 310
      two_scans no_runs (Reach-IsConsistent 900 two_scans two_scans-Reach) refl
