-- ===== src/Runs/Freshness.antt =====
-- src/lib/reviewFreshness.ts, the operations on the row of a run and `assertReviewFreshness`. A write that
-- fails is swallowed there, and here it writes no row. The texts of messages are left out.
use dragnet.Prelude.{
  ℕ, String, Bool, true, false, ◌&&◌, ◌||◌, Option, none, some, get_or, List, ltb, ◌==◌,
  if◌then◌else◌,
}
use dragnet.Database.{Table, RowOrder}
use dragnet.MergeGate.Reuse.{
  CacheIneligibilityReason, undefined, ReviewedRevision, evaluate_cache_eligibility,
}
use dragnet.Runs.{ReviewRun, RunStatus, in_progress, completed, failed, newer_asym, newer_neg_trans}

pub record NewRun : Type 0 where
  pub id : String
  pub pr_id : String
  pub commit_hash : String
  pub diff_hash : String
  pub review_config_hash : String
  pub model : Option String
  pub trigger_reason : Option String

-- the columns that `create` does not name have the defaults of the schema
unfoldable pub new_run : NewRun → ℕ → ReviewRun
new_run opts now = record {
  id = opts.id;
  pr_id = opts.pr_id;
  status = in_progress;
  commit_hash = opts.commit_hash;
  diff_hash = opts.diff_hash;
  review_config_hash = opts.review_config_hash;
  started_at = now;
  last_activity_at = none;
  last_checkpoint_at = none;
  completed_at = none;
  model = opts.model;
  trigger_reason = some (get_or opts.trigger_reason "manual");
  rating = none;
  outcome = none;
  is_refused = false;
  refusal_note = none;
  reliability = none;
  chunks_total = 0;
  chunks_completed = 0;
  chunks_failed = 0;
  chunks_skipped = 0;
  terminal_class = none;
  system_warn = none;
}

-- A field that is written only where it is given; it may be null.
pub data Given (A : Type 0) : Type 0 where
  absent : Given A
  given : A → Given A

abbrev pub or_kept : {A : Type 0} → Given A → A → A
or_kept absent old = old
or_kept (given a) old = a

pub data RunResult : Type 0 where
  is_completed : Option ℕ → Bool → Option String → Option String → RunResult
  is_failed : Given (Option ℕ) → RunResult

unfoldable pub completed_run :
    RunResult → Given (Option String) → Given (Option String) → ℕ → ReviewRun → ReviewRun
completed_run (is_completed rating refused note outcome) terminal_class system_warn now run =
    record run {
      status = completed;
      completed_at = some now;
      terminal_class = or_kept terminal_class run.terminal_class;
      system_warn = or_kept system_warn run.system_warn;
      rating = rating;
      outcome = outcome;
      is_refused = refused || run.is_refused;
      refusal_note = if refused then note else run.refusal_note;
    }
completed_run (is_failed rating) terminal_class system_warn now run = record run {
  status = failed;
  completed_at = some now;
  terminal_class = or_kept terminal_class run.terminal_class;
  system_warn = or_kept system_warn run.system_warn;
  rating = or_kept rating run.rating;
  outcome = none;
}

pub data ReviewFreshness : Type 0 where
  no_run stale_run : ReviewFreshness
  fresh : String → ℕ → ReviewFreshness

abbrev pub completed_time : ReviewRun → ℕ
completed_time run = get_or run.completed_at 0

-- `completedAt: "desc"`; every row that has ended has the date
abbrev pub latest_completed : RowOrder ReviewRun
latest_completed = record {
  before = λ a b. ltb (completed_time b) (completed_time a);
  before_asym = λ a b. newer_asym (completed_time a) (completed_time b);
  before_neg_trans =
      λ a b c. newer_neg_trans (completed_time a) (completed_time b) (completed_time c);
}

abbrev pub has_completed : RunStatus → Bool
has_completed completed = true
has_completed _ = false

abbrev pub completed_of : String → ReviewRun → Bool
completed_of pr run = run.pr_id == pr && has_completed run.status

-- `latest` as it is selected: without the fingerprint of the toolchain
abbrev pub revision_of : ReviewRun → ReviewedRevision
revision_of run = record {
  commit_hash = run.commit_hash;
  diff_hash = run.diff_hash;
  review_config_hash = run.review_config_hash;
  toolchain_fingerprint = undefined;
}

abbrev pub is_trusted : Option String → Bool
is_trusted none = true
is_trusted (some reliability) = reliability == "complete"

unfoldable pub judge_latest : ReviewRun → Option CacheIneligibilityReason → ReviewFreshness
judge_latest run (some reason) = stale_run
judge_latest run none = elim run.rating [
  | none ↦ stale_run
  | some rating ↦ if is_trusted run.reliability then fresh run.id rating else stale_run
]

module _ (T : Table ReviewRun) (chunks_of : String → List (Option String)) where
  open T use {Rows, find_first, update_many, create}

  unfoldable pub create_review_run : NewRun → ℕ → Rows → Rows
  create_review_run opts now t = create (new_run opts now) t

  unfoldable pub complete_review_run :
      String → RunResult → Given (Option String) → Given (Option String) → ℕ → Rows → Rows
  complete_review_run id result terminal_class system_warn now t =
      (update_many (λ r. r.id == id) (completed_run result terminal_class system_warn now) t).1

  unfoldable pub set_review_run_last_checkpoint_at : String → ℕ → Rows → Rows
  set_review_run_last_checkpoint_at id at t =
      (update_many (λ r. r.id == id)
        (λ r. record r { last_checkpoint_at = some at; last_activity_at = some at }) t).1

  unfoldable pub touch_review_run_activity : String → ℕ → Rows → Rows
  touch_review_run_activity id at t =
      (update_many (λ r. r.id == id) (λ r. record r { last_activity_at = some at }) t).1

  -- the chunks are read of a chunked run only
  unfoldable pub chunks_read : ReviewRun → Option (List (Option String))
  chunks_read run = if ltb 0 run.chunks_total then some (chunks_of run.id) else none

  unfoldable pub check_freshness : Option ReviewRun → ReviewedRevision → ReviewFreshness
  check_freshness none current = no_run
  check_freshness (some run) current = judge_latest run (
      evaluate_cache_eligibility (revision_of run) (some run.chunks_total) current
        (chunks_read run))

  unfoldable pub assert_review_freshness : String → ReviewedRevision → Rows → ReviewFreshness
  assert_review_freshness pr_id current t =
      check_freshness (find_first (completed_of pr_id) latest_completed t) current
