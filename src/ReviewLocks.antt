-- ===== src/ReviewLocks.antt =====
-- src/lib/reviewLocks.ts: the in-memory locks that keep two scans of one pull request apart.
-- The module-level `activeReviews` map and `pendingAborts` set are the fields of `Locks`. An
-- `AbortController` is an object that the map, the scan and its caller share: it is a number, and
-- `aborted` lists the controllers on which `abort()` was called. `Date.now()` is an argument; the
-- clock may stand still or go on. A log line is not modelled, and `abort()` does not throw.
pub mod Acquire
pub mod Laws
pub mod Steps
pub mod Forced
pub mod Races
mod Tests
use dragnet.Prelude.{
  ℕ, suc, ◌-◌, ◌*◌, String, Bool, true, false, Option, none, some, List, [], ◌∷◌, ltb, leb, eqb,
  ◌||◌, if◌then◌else◌,
}
use dragnet.Prelude.Dict
use dragnet.Prelude.Dict.{Dict}

pub record Entry : Type 0 where
  pub started_at : ℕ
  pub last_activity_at : ℕ
  pub controller : ℕ

pub record Locks : Type 0 where
  pub active_reviews : Dict Entry
  pub pending_aborts : List String
  pub aborted : List ℕ
  pub next_controller : ℕ

abbrev pub no_locks : Locks
no_locks = record { active_reviews = []; pending_aborts = []; aborted = []; next_controller = 0 }

-- `Number(process.env.DRAGNET_SCAN_STALE_AFTER_MS)`, `none` when it is not finite
unfoldable pub review_ttl_ms : Option ℕ → ℕ
review_ttl_ms none = 15 * 60 * 1000
review_ttl_ms (some configured) = if ltb 0 configured then configured else 15 * 60 * 1000

-- `controller.signal.aborted`
abbrev pub is_aborted : List ℕ → ℕ → Bool
is_aborted [] c = false
is_aborted (d ∷ ds) c = eqb d c || is_aborted ds c

abbrev pub entry_of : Locks → String → Option Entry
entry_of l pr_id = Dict.get l.active_reviews pr_id

abbrev evict : Locks → String → Locks
evict l pr_id = record l { active_reviews = Dict.delete l.active_reviews pr_id }

abbrev abort : Locks → ℕ → Locks
abort l controller = record l { aborted = controller ∷ l.aborted }

module _ (ttl : ℕ) where
  -- An entry whose heartbeat is too old is dropped on the read.
  unfoldable pub is_review_active : String → ℕ → Locks → Bool × Locks
  is_review_active pr_id now l = elim (entry_of l pr_id) [
    | none ↦ (false, l)
    | some entry ↦
        if ltb ttl (now - entry.last_activity_at) then (false, evict l pr_id) else (true, l)
  ]

  unfoldable pub get_active_review_signal : String → ℕ → Locks → Option ℕ × Locks
  get_active_review_signal pr_id now l = elim (entry_of l pr_id) [
    | none ↦ (none, l)
    | some entry ↦
        if ltb ttl (now - entry.last_activity_at)
        then (none, evict l pr_id)
        else (some entry.controller, l)
  ]

  -- The age that this compares with the TTL is that of `startedAt`.
  unfoldable pub abort_scan : String → ℕ → Locks → Bool × Locks
  abort_scan pr_id now l = elim (entry_of l pr_id) [
    | none ↦ (false, record l { pending_aborts = Dict.add l.pending_aborts pr_id })
    | some entry ↦
        let l' = if leb (now - entry.started_at) ttl then abort l entry.controller else l in
        (
          true,
          record l' {
            active_reviews = Dict.delete l'.active_reviews pr_id;
            pending_aborts = Dict.remove l'.pending_aborts pr_id;
          },
        )
  ]

unfoldable pub begin_review : String → ℕ → Locks → ℕ × Locks
begin_review pr_id now l = (
  l.next_controller,
  record l {
    active_reviews =
        Dict.set l.active_reviews pr_id
          (record { started_at = now; last_activity_at = now; controller = l.next_controller });
    next_controller = suc l.next_controller;
  },
)

-- The entry is mutated in place.
unfoldable pub touch_review_activity : String → ℕ → Locks → Locks
touch_review_activity pr_id now l = elim (entry_of l pr_id) [
  | none ↦ l
  | some entry ↦ record l {
    active_reviews = Dict.set l.active_reviews pr_id (record entry { last_activity_at = now });
  }
]

unfoldable pub end_review : String → Locks → Locks
end_review pr_id l = evict l pr_id

unfoldable pub check_pending_abort : String → Locks → Bool × Locks
check_pending_abort pr_id l =
    if Dict.has l.pending_aborts pr_id
    then (true, record l { pending_aborts = Dict.remove l.pending_aborts pr_id })
    else (false, l)

unfoldable pub clear_pending_abort : String → Locks → Locks
clear_pending_abort pr_id l = record l { pending_aborts = Dict.remove l.pending_aborts pr_id }
