-- ===== src/ReviewLocks/Laws.antt =====
-- Controllers are never shared between scans, and the locks keep two scans of one pull request
-- apart.
use dragnet.Prelude.{
  ℕ, Bool, ◌-◌, ◌≤◌, ◌<◌, String, true, false, Option, none, some, List, [], ◌∷◌, ◌≡◌, refl, All,
  arith,
}
use dragnet.Database.{Table}
use dragnet.Runs.{ReviewRun, Checkpoint, assert_no_active_scan}
use dragnet.ReviewLocks.{Locks, Entry, entry_of, is_aborted, is_review_active, begin_review}
use dragnet.ReviewLocks.Acquire.{acquired, busy_in_memory, abort_existing, acquire_review_lock}

-- Every controller that the map or the list of aborts names was made before, and an entry's
-- controller belongs to no other entry.
pub record IsConsistent (l : Locks) : Type 0 where
  pub entries_made :
      (pr : String) (e : Entry) → entry_of l pr ≡ some e → e.controller < l.next_controller
  pub aborts_made : All (λ c. c < l.next_controller) l.aborted
  pub unshared :
      (p q : String) (d e : Entry)
      → entry_of l p ≡ some d
      → entry_of l q ≡ some e
      → d.controller ≡ e.controller
      → p ≡ q

fresh_not_aborted : (cs : List ℕ) (n : ℕ) → All (λ c. c < n) cs → is_aborted cs n ≡ false
fresh_not_aborted [] n h = refl
fresh_not_aborted (c ∷ cs) n h = ground (arith, fresh_not_aborted cs n)

pub abort_existing-fresh :
    (pr : String) (l : Locks) (o : Option Entry)
    → entry_of l pr ≡ o
    → IsConsistent l
    → is_aborted (abort_existing pr o l).aborted l.next_controller ≡ false
unfolding abort_existing
abort_existing-fresh pr l none e h = fresh_not_aborted l.aborted l.next_controller h.aborts_made
abort_existing-fresh pr l (some entry) e h =
    ground (
      arith,
      h.entries_made pr entry e,
      fresh_not_aborted l.aborted l.next_controller h.aborts_made,
    )

-- the scan that holds a lock is aborted; true where none does
abbrev pub is_entry_aborted : List ℕ → Option Entry → Bool
is_entry_aborted aborted none = true
is_entry_aborted aborted (some e) = is_aborted aborted e.controller

abort_existing-aborts :
    (pr : String) (o : Option Entry) (l : Locks)
    → is_entry_aborted (abort_existing pr o l).aborted o ≡ true
unfolding abort_existing
abort_existing-aborts pr none l = refl
abort_existing-aborts pr (some e) l = ground arith

module _ (T : Table ReviewRun) (ttl : ℕ) (list_run_checkpoints : String → String → List Checkpoint)
    (pr : String) (repo_path : Option String) (now : ℕ) (l : Locks) (t : T.Rows) where
  -- A forced acquisition always succeeds; its signal is that of a new controller, which nobody has
  -- aborted, and the scan that held the lock, if there was one, is aborted.
  pub acquire_review_lock-force :
      IsConsistent l
      → let after = acquire_review_lock T ttl list_run_checkpoints pr true repo_path now l t in
        (after.0 ≡ acquired l.next_controller)
        × (is_aborted after.1.aborted l.next_controller ≡ false)
        × (is_entry_aborted after.1.aborted (entry_of l pr) ≡ true)
        × (after.2 ≡ t)
  unfolding acquire_review_lock begin_review assert_no_active_scan
  acquire_review_lock-force h = (
    ground arith,
    abort_existing-fresh pr l _ refl h,
    abort_existing-aborts pr (entry_of l pr) l,
    refl,
  )

  -- While the entry of a pull request has had a heartbeat within the TTL, an acquisition without
  -- force is refused, and changes neither the locks nor the database.
  acquire_review_lock-busy :
      (e : Entry)
      → entry_of l pr ≡ some e
      → now - e.last_activity_at ≤ ttl
      → acquire_review_lock T ttl list_run_checkpoints pr false repo_path now l t
        ≡ (busy_in_memory, l, t)
  unfolding acquire_review_lock is_review_active
  acquire_review_lock-busy e held live = ground arith
