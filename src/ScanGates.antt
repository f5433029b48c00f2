-- ===== src/ScanGates.antt =====
-- The gates before a scan: src/lib/scanPrelude.ts. The freshness of the index, the state of an indexing and the
-- two ways to index again are the source's own parameters. The texts of messages are left out.
pub mod Passing
mod Tests
use dragnet.Prelude.{
  ℕ, zero, String, Bool, true, false, ◌&&◌, ◌||◌, not, Option, none, some, get_or, ltb, ◌==◌,
  if◌then◌else◌,
}
use dragnet.Prelude.Text.{lower_case, includes, trim}

pub data ScanGateCode : Type 0 where
  config_required index_required indexing_in_progress stale_index reindex_failed diff_unavailable
        clone_failed :
      ScanGateCode

pub record ScanPreludeRepo : Type 0 where
  pub id : String
  pub path : Option String
  pub clone_url : Option String
  pub status : Option String
  pub last_fetch_error : Option String
  pub provider : Option String

-- what `assertIndexFresh` answers
pub data IndexFreshness : Type 0 where
  fresh needs_index stale : IndexFreshness

-- how an indexing ends: `enqueue` gives null where one is under way
pub data Reindex : Type 0 where
  indexed already_queued : Reindex
  throws : String → Reindex

pub data ScanPreludeResult : Type 0 where
  pass : Bool → ScanPreludeResult
  fail : ScanGateCode → ℕ → ScanPreludeResult

abbrev pub truthy : Option String → Bool
truthy none = false
truthy (some s) = not (s == "")

abbrev pub is_text : String → Option String → Bool
is_text t none = false
is_text t (some s) = s == t

unfoldable pub is_recoverable_missing_clone_path_error : String → Bool
is_recoverable_missing_clone_path_error detail =
    let text = lower_case detail in
    includes text "no such file or directory" || includes text "cannot change to"

-- `repo.lastFetchError?.trim() || "clone or fetch failed"`
abbrev pub fetch_detail : ScanPreludeRepo → String
fetch_detail repo =
    let text = trim (get_or repo.last_fetch_error "") in
    if text == "" then "clone or fetch failed" else text

unfoldable pub clone_ready_result : ScanPreludeRepo → Option ScanPreludeResult
clone_ready_result repo =
    if not (truthy repo.clone_url && not (is_text "local" repo.provider))
    then none
    else if is_text "error" repo.status || truthy repo.last_fetch_error
    then (if truthy repo.clone_url && is_recoverable_missing_clone_path_error (fetch_detail repo)
        then none
        else some (fail clone_failed 503))
    else if is_text "cloning" repo.status
    then some (fail clone_failed 503)
    else none

-- `/already in progress/i.test(msg)`
abbrev pub is_already_in_progress : String → Bool
is_already_in_progress message = includes (lower_case message) "already in progress"

abbrev pub after_throw : String → ScanPreludeResult
after_throw message =
    if is_already_in_progress message
    then fail indexing_in_progress 409
    else fail reindex_failed 500

-- the value that `indexFolder` gives is not read
unfoldable pub after_folder : Reindex → ScanPreludeResult
after_folder indexed = pass true
after_folder already_queued = pass true
after_folder (throws message) = after_throw message

unfoldable pub after_remote : Reindex → ScanPreludeResult
after_remote indexed = pass true
after_remote already_queued = fail indexing_in_progress 409
after_remote (throws message) = after_throw message

module _ (assert_index_fresh : ScanPreludeRepo → IndexFreshness) (is_indexing : String → Bool)
    (index_folder : String → String → Reindex) (reindex_remote : String → Reindex) where
  -- an index that is stale
  unfoldable pub reindex : ScanPreludeRepo → ScanPreludeResult
  reindex repo =
      if truthy repo.path
      then (if is_indexing repo.id
          then fail indexing_in_progress 409
          else after_folder (index_folder repo.id (get_or repo.path "")))
      else if truthy repo.clone_url
      then after_remote (reindex_remote repo.id)
      else fail reindex_failed 409

  unfoldable pub check_index : ScanPreludeRepo → IndexFreshness → ScanPreludeResult
  check_index repo fresh = pass false
  check_index repo needs_index =
      if is_indexing repo.id then fail indexing_in_progress 409 else fail index_required 409
  check_index repo stale = reindex repo

  -- `issues` is the number of configuration issues
  unfoldable pub run_scan_prelude : ℕ → ScanPreludeRepo → ScanPreludeResult
  run_scan_prelude issues repo =
      if ltb 0 issues
      then fail config_required 400
      else get_or (clone_ready_result repo) (check_index repo (assert_index_fresh repo))

unfoldable pub blocks_explicit_admit : ScanGateCode → Bool
blocks_explicit_admit stale_index = false
blocks_explicit_admit diff_unavailable = false
blocks_explicit_admit _ = true
