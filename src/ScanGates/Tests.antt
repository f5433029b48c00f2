-- ===== src/ScanGates/Tests.antt =====
-- The gates of a repository whose index is stale.
use dragnet.Prelude.{String, Bool, false, none, some, ◌≡◌, refl}
use dragnet.ScanGates.{
  ScanPreludeRepo, IndexFreshness, stale, Reindex, indexed, already_queued, pass, fail,
  indexing_in_progress, run_scan_prelude, check_index, clone_ready_result, after_remote,
}
use dragnet.ScanGates

abbrev repo : ScanPreludeRepo
repo = record {
  id = "r1";
  path = none;
  clone_url = some "https://example.org/r1.git";
  status = some "idle";
  last_fetch_error = none;
  provider = some "github";
}

abbrev is_stale_index : ScanPreludeRepo → IndexFreshness
is_stale_index r = stale

abbrev idle : String → Bool
idle id = false

abbrev folder : String → String → Reindex
folder id path = indexed

-- a fetch is under way
abbrev queued_before : String → Reindex
queued_before id = already_queued

waits :
    run_scan_prelude is_stale_index idle folder queued_before 0 repo ≡ fail indexing_in_progress 409
unfolding run_scan_prelude check_index ScanGates.reindex clone_ready_result after_remote
waits = refl
