-- ===== src/Checkpoints/Tests.antt =====
-- The checkpoints of one scan, written out of order.
use dragnet.Prelude.Strokes.{strokes, strokes-apart}
use dragnet.Prelude.{
  ℕ, ◌+◌, String, Option, none, some, List, [], ◌∷◌, ◌==◌, if◌then◌else◌, true, ◌≡◌, refl,
}
use dragnet.Checkpoints.{
  CheckpointTable, CheckpointState, ReviewCheckpoint, has_key, persist_all,
  read_latest_review_checkpoint,
}
use dragnet.Checkpoints.Latest.{progress_of, read_latest_review_checkpoint-furthest}

abbrev Rows : Type 0
Rows = String → String → Option ReviewCheckpoint

abbrev store : ReviewCheckpoint → Rows → Rows
store new t run_id checkpoint_id =
    if has_key run_id checkpoint_id new then some new else t run_id checkpoint_id

abbrev table : CheckpointTable
table = record {
  Rows = Rows;
  find_unique = λ run_id checkpoint_id t. t run_id checkpoint_id;
  upsert = store;
  find_unique-upsert = λ run_id checkpoint_id new t. refl;
}

abbrev hash_json : CheckpointState → String
hash_json state = strokes state.loop_count

apart : (a b : CheckpointState) → (hash_json a == hash_json b) ≡ true → a.loop_count ≡ b.loop_count
apart a b same = strokes-apart a.loop_count b.loop_count same

abbrev state_at : ℕ → CheckpointState
state_at loops = record {
  version = 1;
  run_id = "run";
  checkpoint_id = "__run";
  commit_hash = "c";
  diff_hash = "d";
  review_config_hash = "r";
  messages = [];
  loop_count = loops;
  max_iterations = 5;
  provider = "p";
  model = "m";
  written_at = 100 + loops;
}

abbrev written : List CheckpointState
written = state_at 1 ∷ state_at 3 ∷ state_at 2 ∷ state_at 3 ∷ []

abbrev empty : Rows
empty run_id checkpoint_id = none

read_latest_review_checkpoint-furthest_example :
    progress_of (
      read_latest_review_checkpoint table "run" "__run" (persist_all table hash_json written empty))
    ≡ 3
read_latest_review_checkpoint-furthest_example =
    read_latest_review_checkpoint-furthest table hash_json apart "run" "__run" written empty refl
