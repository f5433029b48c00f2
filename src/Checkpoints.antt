-- ===== src/Checkpoints.antt =====
-- The checkpoints of a scan in the database: persistReviewCheckpoint and readLatestReviewCheckpoint of
-- src/services/durableScanState.ts. The table is a parameter with what Prisma documents of the two queries
-- on its unique key, for which there is one row at most, so that the first of the newest rows is that row; `hash_json` is the hash of a state; a message is
-- its JSON. Writes that fail, which are swallowed there, are
-- left out.
pub mod Latest
mod Tests
use dragnet.Prelude.{
  ℕ, String, Bool, true, false, ◌&&◌, ◌||◌, not, Option, none, some, List, [], ◌∷◌, ltb, ◌==◌, ◌≡◌,
  if◌then◌else◌,
}

pub record CheckpointState : Type 0 where
  pub version : ℕ
  pub run_id : String
  pub checkpoint_id : String
  pub commit_hash : String
  pub diff_hash : String
  pub review_config_hash : String
  pub messages : List String
  pub loop_count : ℕ
  pub max_iterations : ℕ
  pub provider : String
  pub model : String
  pub written_at : ℕ

pub record ReviewCheckpoint : Type 0 where
  pub run_id : String
  pub checkpoint_id : String
  pub version : ℕ
  pub state_hash : String
  pub loop_count : ℕ
  pub provider : String
  pub model : String
  pub written_at : ℕ
  pub state : CheckpointState

abbrev pub has_key : String → String → ReviewCheckpoint → Bool
has_key run_id checkpoint_id row = row.run_id == run_id && row.checkpoint_id == checkpoint_id

pub record CheckpointTable : Type 1 where
  pub Rows : Type 0
  pub find_unique : String → String → Rows → Option ReviewCheckpoint
  pub upsert : ReviewCheckpoint → Rows → Rows
  pub find_unique-upsert :
      (run_id checkpoint_id : String) (new : ReviewCheckpoint) (t : Rows)
      → find_unique run_id checkpoint_id (upsert new t) ≡ (
          if has_key run_id checkpoint_id new then some new else find_unique run_id checkpoint_id t)

module _ (C : CheckpointTable) (hash_json : CheckpointState → String) where
  abbrev pub row_of : CheckpointState → ReviewCheckpoint
  row_of state = record {
    run_id = state.run_id;
    checkpoint_id = state.checkpoint_id;
    version = state.version;
    state_hash = hash_json state;
    loop_count = state.loop_count;
    provider = state.provider;
    model = state.model;
    written_at = state.written_at;
    state = state;
  }

  -- a stored state is kept that is further on, or the same
  abbrev pub is_kept : Option ReviewCheckpoint → CheckpointState → Bool
  is_kept none state = false
  is_kept (some row) state =
      ltb state.loop_count row.loop_count || row.state_hash == hash_json state

  unfoldable pub persist_review_checkpoint : CheckpointState → C.Rows → C.Rows
  persist_review_checkpoint state rows =
      if is_kept (C.find_unique state.run_id state.checkpoint_id rows) state
      then rows
      else C.upsert (row_of state) rows

  -- one after the other
  unfoldable pub persist_all : List CheckpointState → C.Rows → C.Rows
  persist_all [] rows = rows
  persist_all (state ∷ states) rows = persist_all states (persist_review_checkpoint state rows)

module _ (C : CheckpointTable) where
  unfoldable pub read_latest_review_checkpoint : String → String → C.Rows → Option CheckpointState
  read_latest_review_checkpoint run_id checkpoint_id rows =
      elim (C.find_unique run_id checkpoint_id rows) [ none ↦ none | some row ↦ some row.state ]
