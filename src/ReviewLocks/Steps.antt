-- ===== src/ReviewLocks/Steps.antt =====
-- Whatever the callers of src/lib/reviewLocks.ts do, and in whatever order, the controllers stay
-- apart.
use dragnet.Prelude.{
  ℕ, suc, ◌-◌, ◌<◌, String, Option, none, some, ◌≡◌, refl, sym, ◌∙◌, All, All-map, arith, ◌⊎◌, ◌==◌,
  eq_iff, leb, Bool-cases, inl, inr,
}
use dragnet.Prelude.Dict
use dragnet.Prelude.Dict.{get-set, get-delete}
use dragnet.Runs.{ActiveScanCheck, clear, running, stale_inspectable}
use dragnet.ReviewLocks.{
  Locks, Entry, entry_of, no_locks, is_review_active, get_active_review_signal, abort_scan,
  begin_review, touch_review_activity, end_review, check_pending_abort, clear_pending_abort,
}
use dragnet.ReviewLocks.Acquire.{abort_existing, after_check}
use dragnet.ReviewLocks.Laws.{IsConsistent}

-- Each entry of `after` has the controller of the entry that `before` has under its key.
Within : Locks → Locks → Type 0
Within before after =
    (pr : String) (e : Entry)
    → entry_of after pr ≡ some e
    → (d : Entry) × (entry_of before pr ≡ some d) × (d.controller ≡ e.controller)

Within-IsConsistent :
    (before after : Locks)
    → IsConsistent before
    → Within before after
    → before.next_controller ≡ after.next_controller
    → All (λ c. c < after.next_controller) after.aborted
    → IsConsistent after
unfolding Within
Within-IsConsistent before after h w same made = record {
  entries_made = λ pr e held.
      let (d, there, eq) = w pr e held in omega (arith, h.entries_made pr d there, eq, same);
  aborts_made = made;
  unshared = λ p q d e hp hq shared.
      let (d', dp, de) = w p d hp in
      let (e', eq, ee) = w q e hq in h.unshared p q d' e' dp eq (de ∙ shared ∙ sym ee);
}

evict-Within :
    (l after : Locks) (pr : String)
    → after.active_reviews ≡ Dict.delete l.active_reviews pr
    → Within l after
unfolding Within
evict-Within l after pr gone p e held = (e, ground (arith, get-delete l.active_reviews pr p), refl)

same-Within : (l after : Locks) → after.active_reviews ≡ l.active_reviews → Within l after
unfolding Within
same-Within l after same p e held = (e, cc, refl)

set-Within :
    (l after : Locks) (pr : String) (d e : Entry)
    → entry_of l pr ≡ some d
    → d.controller ≡ e.controller
    → after.active_reviews ≡ Dict.set l.active_reviews pr e
    → Within l after
unfolding Within
set-Within l after pr d e there same put p f held = elim (Bool-cases (pr == p)) [
  | inl hit ↦ (d, ground (arith, eq_iff pr p), ground (arith, get-set l.active_reviews pr p e))
  | inr miss ↦ (f, ground (arith, get-set l.active_reviews pr p e), refl)
]

-- One call of a function of the module, at any time, for any pull request. The two halves of
-- `acquireReviewLock`, before and after its wait for the database, are steps of their own.
pub data Step (ttl : ℕ) : Locks → Locks → Type 0 where
  read_active : (pr : String) (now : ℕ) (l : Locks) → Step ttl l (is_review_active ttl pr now l).1
  read_signal :
      (pr : String) (now : ℕ) (l : Locks) → Step ttl l (get_active_review_signal ttl pr now l).1
  stop : (pr : String) (now : ℕ) (l : Locks) → Step ttl l (abort_scan ttl pr now l).1
  touch : (pr : String) (now : ℕ) (l : Locks) → Step ttl l (touch_review_activity pr now l)
  release : (pr : String) (l : Locks) → Step ttl l (end_review pr l)
  check_pending : (pr : String) (l : Locks) → Step ttl l (check_pending_abort pr l).1
  clear_pending : (pr : String) (l : Locks) → Step ttl l (clear_pending_abort pr l)
  force : (pr : String) (l : Locks) → Step ttl l (abort_existing pr (entry_of l pr) l)
  finish_acquire :
      (pr : String) (now : ℕ) (answer : ActiveScanCheck) (l : Locks)
      → Step ttl l (after_check pr now answer l).1

pub data Reach (ttl : ℕ) : Locks → Type 0 where
  start : Reach ttl no_locks
  next : {l l' : Locks} → Reach ttl l → Step ttl l l' → Reach ttl l'

module _ (l : Locks) (h : IsConsistent l) where
  dropped :
      (l' : Locks) (pr : String)
      → l'.active_reviews ≡ Dict.delete l.active_reviews pr
      → l.next_controller ≡ l'.next_controller
      → All (λ c. c < l'.next_controller) l'.aborted
      → IsConsistent l'
  dropped l' pr gone = Within-IsConsistent l l' h (evict-Within l l' pr gone)

  abort_existing-IsConsistent :
      (pr : String) (o : Option Entry) → entry_of l pr ≡ o → IsConsistent (abort_existing pr o l)
  unfolding abort_existing
  abort_existing-IsConsistent pr none e = h
  abort_existing-IsConsistent pr (some entry) e =
      dropped _ pr refl refl (h.entries_made pr entry e, h.aborts_made)

  evicted : (pr : String) → IsConsistent (end_review pr l)
  unfolding end_review
  evicted pr = dropped _ pr refl refl h.aborts_made

  -- a read leaves the locks, or drops an entry
  read_cases : (l' : Locks) (pr : String) → (l' ≡ l) ⊎ (l' ≡ end_review pr l) → IsConsistent l'
  read_cases l' pr (inl e) = rw e h
  read_cases l' pr (inr e) = rw e (evicted pr)

  abort_scan-IsConsistent :
      (ttl : ℕ) (pr : String) (now : ℕ) (o : Option Entry)
      → entry_of l pr ≡ o
      → IsConsistent (abort_scan ttl pr now l).1
  unfolding abort_scan
  abort_scan-IsConsistent ttl pr now none e =
      rw (e, abort_scan) (Within-IsConsistent l _ h (same-Within l _ refl) refl h.aborts_made)
  abort_scan-IsConsistent ttl pr now (some entry) e =
      elim (Bool-cases (leb (now - entry.started_at) ttl)) [
        | inl young ↦
            rw (e, abort_scan, young)
              (dropped _ pr refl refl (h.entries_made pr entry e, h.aborts_made))
        | inr old ↦ rw (e, abort_scan, old) (dropped _ pr refl refl h.aborts_made)
      ]

  touch-IsConsistent :
      (pr : String) (now : ℕ) (o : Option Entry)
      → entry_of l pr ≡ o
      → IsConsistent (touch_review_activity pr now l)
  unfolding touch_review_activity
  touch-IsConsistent pr now none e = rw (e, touch_review_activity) h
  touch-IsConsistent pr now (some entry) e =
      rw (e, touch_review_activity)
        (Within-IsConsistent l _ h
          (set-Within l _ pr entry (record entry { last_activity_at = now }) e refl refl) refl
          h.aborts_made)

  same_entries :
      (l' : Locks)
      → l'.active_reviews ≡ l.active_reviews
      → l.next_controller ≡ l'.next_controller
      → All (λ c. c < l'.next_controller) l'.aborted
      → IsConsistent l'
  same_entries l' e = Within-IsConsistent l l' h (same-Within l l' e)

  check_cases :
      (l' : Locks) (pr : String) → (l' ≡ l) ⊎ (l' ≡ clear_pending_abort pr l) → IsConsistent l'
  unfolding clear_pending_abort
  check_cases l' pr (inl e) = rw e h
  check_cases l' pr (inr e) = rw e (same_entries _ refl refl h.aborts_made)

  begin_review-IsConsistent : (pr : String) (now : ℕ) → IsConsistent (begin_review pr now l).1
  unfolding begin_review
  begin_review-IsConsistent pr now =
      let m = l.active_reviews in
      let new : Entry = record {
        started_at = now;
        last_activity_at = now;
        controller = l.next_controller;
      } in
      record {
        entries_made = λ p f held. ground (arith, get-set m pr p new, h.entries_made p f);
        aborts_made =
            All-map (λ c. c < l.next_controller) (λ c. c < suc l.next_controller) l.aborted
              (λ c k. omega arith) h.aborts_made;
        unshared = λ p q d e hp hq same. ground (
          arith,
          eq_iff pr p,
          eq_iff pr q,
          get-set m pr p new,
          get-set m pr q new,
          h.entries_made p d,
          h.entries_made q e,
          h.unshared p q d e,
        );
      }

-- No call of the module makes two pull requests share a controller, or a controller out of nothing.
Step-IsConsistent : (ttl : ℕ) {l l' : Locks} → Step ttl l l' → IsConsistent l → IsConsistent l'
unfolding is_review_active get_active_review_signal end_review check_pending_abort
    clear_pending_abort after_check
Step-IsConsistent ttl (read_active pr now l) h = read_cases l h _ pr (ground arith)
Step-IsConsistent ttl (read_signal pr now l) h = read_cases l h _ pr (ground arith)
Step-IsConsistent ttl (stop pr now l) h = abort_scan-IsConsistent l h ttl pr now _ refl
Step-IsConsistent ttl (touch pr now l) h = touch-IsConsistent l h pr now _ refl
Step-IsConsistent ttl (release pr l) h = evicted l h pr
Step-IsConsistent ttl (check_pending pr l) h = check_cases l h _ pr (ground arith)
Step-IsConsistent ttl (clear_pending pr l) h = same_entries l h _ refl refl h.aborts_made
Step-IsConsistent ttl (force pr l) h = abort_existing-IsConsistent l h pr _ refl
Step-IsConsistent ttl (finish_acquire pr now clear l) h = begin_review-IsConsistent l h pr now
Step-IsConsistent ttl (finish_acquire pr now (running run) l) h = h
Step-IsConsistent ttl (finish_acquire pr now (stale_inspectable run found) l) h = h

no_locks-IsConsistent : IsConsistent no_locks
unfolding Dict.get
no_locks-IsConsistent = record {
  entries_made = λ pr e held. cc;
  aborts_made = tt;
  unshared = λ p q d e hp hq same. cc;
}

-- After any calls of the module's functions, for any pull requests and in any order, no two entries
-- share a controller, and the controllers of the entries and of the aborts are among those made.
pub Reach-IsConsistent : (ttl : ℕ) (l : Locks) → Reach ttl l → IsConsistent l
Reach-IsConsistent ttl l start = no_locks-IsConsistent
Reach-IsConsistent ttl l (next r s) = Step-IsConsistent ttl s (Reach-IsConsistent ttl _ r)
