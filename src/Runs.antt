-- ===== src/Runs.antt =====
-- src/lib/reviewFreshness.ts, the guard on rows of the table `ReviewRun` (`assertNoActiveScan`), and
-- src/services/runReaper.ts, the sweep at start-up. Of a row the columns are kept that these read
-- and write; a date is a number of milliseconds. `list_run_checkpoints` stands for the files that
-- src/services/checkpointStore.ts lists for a run.
pub mod Reaping
pub mod Guard
pub mod Freshness
pub mod CacheHits
pub mod Reports
pub mod Listed
pub mod Active
pub mod Revisions
mod Tests
mod ReportTests
use dragnet.Prelude.{
  ℕ, ◌-◌, String, Bool, true, false, ◌&&◌, ◌||◌, Option, none, some, get_or, List, [], ◌∷◌, ltb,
  ◌==◌, ◌≡◌, arith, if◌then◌else◌,
}
use dragnet.Database.{Table, RowOrder}

pub data RunStatus : Type 0 where
  in_progress completed failed : RunStatus

pub record ReviewRun : Type 0 where
  pub id : String
  pub pr_id : String
  pub status : RunStatus
  pub commit_hash : String
  pub diff_hash : String
  pub review_config_hash : String
  pub started_at : ℕ
  pub last_activity_at : Option ℕ
  pub last_checkpoint_at : Option ℕ
  pub completed_at : Option ℕ
  pub model : Option String
  pub trigger_reason : Option String
  pub rating : Option ℕ
  pub outcome : Option String
  pub is_refused : Bool
  pub refusal_note : Option String
  pub reliability : Option String
  pub chunks_total : ℕ
  pub chunks_completed : ℕ
  pub chunks_failed : ℕ
  pub chunks_skipped : ℕ
  pub terminal_class : Option String
  pub system_warn : Option String

-- The fields of a `CheckpointState` that the guard reads.
pub record Checkpoint : Type 0 where
  pub checkpoint_id : String
  pub loop_count : ℕ
  pub max_iterations : ℕ
  pub provider : Option String
  pub model : Option String

abbrev pub run_checkpoint_id : String
run_checkpoint_id = "__run"

abbrev pub is_in_progress : RunStatus → Bool
is_in_progress in_progress = true
is_in_progress _ = false

unfoldable pub last_activity : ReviewRun → ℕ
last_activity run = get_or run.last_activity_at (get_or run.last_checkpoint_at run.started_at)

-- what both reapers write to an orphaned row
abbrev pub orphaned : ℕ → ReviewRun → ReviewRun
orphaned now run = record run {
  status = failed;
  completed_at = some now;
  reliability = some "partial";
  terminal_class = some "infrastructure_failure";
  system_warn = some "Orphaned in_progress run reaped after losing its activity heartbeat.";
}

pub record Inspectable : Type 0 where
  pub checkpoint : String
  pub completed_iterations : ℕ
  pub total_iterations : ℕ
  pub last_provider : Option String
  pub last_model : Option String

-- `checkpoints.find((c) => c.checkpointId === RUN_CHECKPOINT_ID)`
find_run_level : List Checkpoint → Option Checkpoint
find_run_level [] = none
find_run_level (c ∷ cs) =
    let rest = find_run_level cs in if c.checkpoint_id == run_checkpoint_id then some c else rest

unfoldable pub inspect_stale_run : List Checkpoint → Option Inspectable
unfolding find_run_level
inspect_stale_run [] = none
inspect_stale_run (c ∷ cs) =
    let preferred = get_or (find_run_level (c ∷ cs)) c in
    some (record {
      checkpoint = preferred.checkpoint_id;
      completed_iterations = preferred.loop_count;
      total_iterations = preferred.max_iterations;
      last_provider = preferred.provider;
      last_model = preferred.model;
    })

pub data ActiveScanCheck : Type 0 where
  clear : ActiveScanCheck
  running : ReviewRun → ActiveScanCheck
  stale_inspectable : ReviewRun → Inspectable → ActiveScanCheck

pub newer_asym : (a b : ℕ) → ltb b a ≡ true → ltb a b ≡ false
newer_asym a b h = ground arith

pub newer_neg_trans : (a b c : ℕ) → ltb b a ≡ false → ltb c b ≡ false → ltb c a ≡ false
newer_neg_trans a b c h k = ground arith

-- `startedAt: "desc"`
abbrev pub newest_first : RowOrder ReviewRun
newest_first = record {
  before = λ a b. ltb b.started_at a.started_at;
  before_asym = λ a b. newer_asym a.started_at b.started_at;
  before_neg_trans = λ a b c. newer_neg_trans a.started_at b.started_at c.started_at;
}

-- `where: { prId, status: "in_progress" }`
abbrev pub in_progress_of : String → ReviewRun → Bool
in_progress_of pr run = run.pr_id == pr && is_in_progress run.status

module _ (T : Table ReviewRun) (stale_after_ms : ℕ)
    (list_run_checkpoints : String → String → List Checkpoint) where
  open T use {Rows, find_first, update_many}

  -- `repoPath ? await inspectStaleRun(repoPath, inProgress) : null`
  unfoldable pub inspectable : Option String → ReviewRun → Option Inspectable
  inspectable none run = none
  inspectable (some repo_path) run =
      if repo_path == "" then none else inspect_stale_run (list_run_checkpoints repo_path run.id)

  -- a run with a checkpoint is offered, and one without is reaped
  unfoldable pub offer_or_reap : ReviewRun → Option Inspectable → ℕ → Rows → ActiveScanCheck × Rows
  offer_or_reap run (some found) now t = (stale_inspectable run found, t)
  offer_or_reap run none now t = (clear, (update_many (λ r. r.id == run.id) (orphaned now) t).1)

  unfoldable pub check_active : Option ReviewRun → Option String → ℕ → Rows → ActiveScanCheck × Rows
  unfolding offer_or_reap
  check_active none repo_path now t = (clear, t)
  check_active (some run) repo_path now t =
      if ltb stale_after_ms (now - last_activity run)
      then offer_or_reap run (inspectable repo_path run) now t
      else (running run, t)

  unfoldable pub assert_no_active_scan :
      String → Bool → Option String → ℕ → Rows → ActiveScanCheck × Rows
  unfolding check_active
  assert_no_active_scan pr force repo_path now t =
      if force
      then (clear, t)
      else check_active (find_first (in_progress_of pr) newest_first t) repo_path now t

-- the three cases of the reaper's `OR`
unfoldable pub is_orphan : ℕ → ReviewRun → Bool
is_orphan cutoff run = is_in_progress run.status && elim run.last_activity_at [
  | some at ↦ ltb at cutoff
  | none ↦ elim run.last_checkpoint_at [
    | some at ↦ ltb at cutoff
    | none ↦ ltb run.started_at cutoff
  ]
]

module _ (T : Table ReviewRun) (stale_after_ms : ℕ) where
  open T use {Rows, update_many}

  unfoldable pub reap_stale_runs : ℕ → Rows → ℕ × Rows
  reap_stale_runs now t = update_many (is_orphan (now - stale_after_ms)) (orphaned now) t
