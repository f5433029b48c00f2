-- ===== src/ScanQueue.antt =====
-- src/services/scanQueue.ts: the durable queue of scans, one row of the table `ScanJob` for each
-- revision of a pull request. This file has the rows and what the operations share; a date is
-- a number of milliseconds. The joined names of `QueueJobView` (repository, title, branch), the
-- `updatedAt` column and log lines are left out.
pub mod Claim
pub mod Rows
pub mod Claims
pub mod Slots
pub mod Interleaving
pub mod Exclusion
pub mod Uninterrupted
pub mod Fencing
pub mod Admit
pub mod Requeues
pub mod Admission
pub mod Control
pub mod LifeCycle
pub mod LifeSteps
pub mod Histories
pub mod Worker
pub mod Ticks
mod Tests
mod AdmitTests
mod WorkTests
use text.Mathlib.Text.{starts_with}
use dragnet.Prelude.{
  ℕ, ◌+◌, String, Bool, true, false, ◌&&◌, ◌||◌, Option, none, some, ◌≡◌, arith, ltb, eqb, ◌==◌,
  if◌then◌else◌,
}
use dragnet.Database.{Table, RowOrder}

pub data JobState : Type 0 where
  queued running completed failed cancelled interrupted : JobState

pub data AdmitKind : Type 0 where
  explicit afk : AdmitKind

pub record Job : Type 0 where
  pub id : String
  pub pr_id : String
  pub repo_id : String
  pub commit_hash : String
  pub state : JobState
  pub trigger_reason : String
  pub priority : ℕ
  pub forced : Bool
  pub resume_requested : Bool
  pub fresh_requested : Bool
  pub worker_id : Option String
  pub lease_expires_at : Option ℕ
  pub claimed_at : Option ℕ
  pub completed_at : Option ℕ
  pub error_message : Option String
  pub review_run_id : Option String
  pub created_at : ℕ

pub record QueueJobView : Type 0 where
  pub job_id : String
  pub pr_id : String
  pub commit_hash : String
  pub state : JobState
  pub queue_position : Option ℕ
  pub claimed_at : Option ℕ
  pub lease_expires_at : Option ℕ
  pub forced : Bool
  pub resume_requested : Bool
  pub fresh_requested : Bool
  pub priority : ℕ
  pub trigger_reason : String
  pub created_at : ℕ
  pub completed_at : Option ℕ
  pub error_message : Option String

unfoldable pub view : Job → Option ℕ → Bool → Bool → Bool → QueueJobView
view job queue_position forced resume_requested fresh_requested = record {
  job_id = job.id;
  pr_id = job.pr_id;
  commit_hash = job.commit_hash;
  state = job.state;
  queue_position = queue_position;
  claimed_at = job.claimed_at;
  lease_expires_at = job.lease_expires_at;
  forced = forced;
  resume_requested = resume_requested;
  fresh_requested = fresh_requested;
  priority = job.priority;
  trigger_reason = job.trigger_reason;
  created_at = job.created_at;
  completed_at = job.completed_at;
  error_message = job.error_message;
}

abbrev pub is_queued : JobState → Bool
is_queued queued = true
is_queued _ = false

abbrev pub is_running : JobState → Bool
is_running running = true
is_running _ = false

-- `TERMINAL_STATES`
abbrev pub is_terminal : JobState → Bool
is_terminal queued = false
is_terminal running = false
is_terminal _ = true

-- `AFK_TRIGGER_REASONS.has(triggerReason)`
abbrev pub is_afk_reason : String → Bool
is_afk_reason reason = reason == "webhook" || reason == "auto" || reason == "polling"

unfoldable pub resolve_admit_kind : Option String → Option AdmitKind → AdmitKind
resolve_admit_kind trigger_reason (some kind) = kind
resolve_admit_kind none none = explicit
resolve_admit_kind (some reason) none = if is_afk_reason reason then afk else explicit

-- rows of an explicit request that were written with priority 0
abbrev pub wants_priority : Job → Bool
wants_priority job =
    is_queued job.state
    && eqb job.priority 0
    && (job.trigger_reason == "manual"
        || starts_with job.trigger_reason "manual-"
        || job.trigger_reason == "prcheck"
        || job.trigger_reason == "prepush"
        || job.trigger_reason == "hosted")

-- `orderBy: [{ priority: "desc" }, { createdAt: "asc" }, { id: "asc" }]`, over the database's order
-- of texts
pub sooner : RowOrder String → Job → Job → Bool
sooner ids a b =
    if ltb b.priority a.priority
    then true
    else if ltb a.priority b.priority
    then false
    else if ltb a.created_at b.created_at
    then true
    else if ltb b.created_at a.created_at
    then false
    else ids.before a.id b.id

pub sooner_asym :
    (ids : RowOrder String) (a b : Job) → sooner ids a b ≡ true → sooner ids b a ≡ false
unfolding sooner
sooner_asym ids a b h = ground (arith, ids.before_asym a.id b.id)

pub sooner_neg_trans :
    (ids : RowOrder String) (a b c : Job)
    → sooner ids a b ≡ false
    → sooner ids b c ≡ false
    → sooner ids a c ≡ false
unfolding sooner
sooner_neg_trans ids a b c h k = ground (arith, ids.before_neg_trans a.id b.id c.id)

unfoldable pub queue_order : RowOrder String → RowOrder Job
unfolding sooner
queue_order ids = record {
  before = sooner ids;
  before_asym = sooner_asym ids;
  before_neg_trans = sooner_neg_trans ids;
}

module _ (J : Table Job) where
  open J use {Rows, count, update_many}

  unfoldable pub normalize_explicit_priorities : Rows → Rows
  normalize_explicit_priorities t =
      (update_many wants_priority (λ job. record job { priority = 10 }) t).1

  -- the `where` of `positionFor`
  abbrev pub is_ahead : RowOrder String → Job → Job → Bool
  is_ahead ids job other =
      is_queued other.state
      && (ltb job.priority other.priority
          || (eqb other.priority job.priority && ltb other.created_at job.created_at)
          || (eqb other.priority job.priority
              && eqb other.created_at job.created_at
              && ids.before other.id job.id))

  unfoldable pub position_for : RowOrder String → Job → Rows → Option ℕ × Rows
  position_for ids job t =
      if is_queued job.state
      then (let t' = normalize_explicit_priorities t in
          (some (count (is_ahead ids job) t' + 1), t'))
      else (none, t)
