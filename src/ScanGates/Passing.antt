-- ===== src/ScanGates/Passing.antt =====
-- What the gates before a scan (src/lib/scanPrelude.ts) let through.
use dragnet.Prelude.{ℕ, String, Bool, true, false, ◌&&◌, ◌||◌, not, get_or, ltb, if◌then◌else◌, ◌≡◌}
use dragnet.ScanGates.{
  ScanPreludeRepo, IndexFreshness, fresh, needs_index, stale, Reindex, indexed, already_queued,
  throws, ScanPreludeResult, pass, fail, truthy, check_index, blocks_explicit_admit, is_text,
  fetch_detail, is_recoverable_missing_clone_path_error,
}

abbrev pub is_done : Reindex → Bool
is_done indexed = true
is_done already_queued = false
is_done (throws message) = false

abbrev pub throws_none : Reindex → Bool
throws_none (throws message) = false
throws_none _ = true

abbrev pub is_remote : ScanPreludeRepo → Bool
is_remote repo = truthy repo.clone_url && not (is_text "local" repo.provider)

-- the last clone or fetch failed, and the failure is not of a path that is missing on this host
abbrev pub is_lasting_failure : ScanPreludeRepo → Bool
is_lasting_failure repo =
    (is_text "error" repo.status || truthy repo.last_fetch_error)
    && not (is_recoverable_missing_clone_path_error (fetch_detail repo))

-- still cloning, with no failure reported
abbrev pub is_cloning : ScanPreludeRepo → Bool
is_cloning repo = is_text "cloning" repo.status && not (truthy repo.last_fetch_error)

-- a scan need not wait for a clone: there is none, or none under way and no failure that lasts
abbrev pub may_scan : ScanPreludeRepo → Bool
may_scan repo = not (is_remote repo) || not (is_lasting_failure repo || is_cloning repo)

module _ (assert_index_fresh : ScanPreludeRepo → IndexFreshness) (is_indexing : String → Bool)
    (index_folder : String → String → Reindex) (reindex_remote : String → Reindex) where
  -- the index was made anew, on the path of the repository or by a fetch of the clone
  abbrev pub is_reindexed : ScanPreludeRepo → Bool
  is_reindexed repo =
      if truthy repo.path
      then not (is_indexing repo.id) && throws_none (index_folder repo.id (get_or repo.path ""))
      else truthy repo.clone_url && is_done (reindex_remote repo.id)

  abbrev pub is_usable : ScanPreludeRepo → IndexFreshness → Bool
  is_usable repo fresh = true
  is_usable repo needs_index = false
  is_usable repo stale = is_reindexed repo

  abbrev pub is_stale : IndexFreshness → Bool
  is_stale stale = true
  is_stale _ = false

  -- of a scan that passes, and of one that a gate stops
  abbrev pub Means : ℕ → ScanPreludeRepo → ScanPreludeResult → Type 0
  Means issues repo (pass reindexed) =
      (ltb 0 issues ≡ false)
      × (may_scan repo ≡ true)
      × (is_usable repo (assert_index_fresh repo) ≡ true)
      × (reindexed ≡ is_stale (assert_index_fresh repo))
  Means issues repo (fail gate http_status) =
      (blocks_explicit_admit gate ≡ true)
      × ((ltb 0 issues || (not (may_scan repo) || not (is_usable repo (assert_index_fresh repo))))
          ≡ true)

  -- the same of an index alone
  abbrev IndexMeans : ScanPreludeRepo → IndexFreshness → ScanPreludeResult → Type 0
  IndexMeans repo freshness (pass reindexed) =
      (is_usable repo freshness ≡ true) × (reindexed ≡ is_stale freshness)
  IndexMeans repo freshness (fail gate http_status) =
      (blocks_explicit_admit gate ≡ true) × (is_usable repo freshness ≡ false)

  abbrev index_check : ScanPreludeRepo → IndexFreshness → ScanPreludeResult
  index_check = check_index assert_index_fresh is_indexing index_folder reindex_remote

  -- a result after the indexing, where its success is `done`
  abbrev ReindexMeans : Bool → ScanPreludeResult → Type 0
  ReindexMeans done (pass reindexed) = (done ≡ true) × (reindexed ≡ true)
  ReindexMeans done (fail gate http_status) = (blocks_explicit_admit gate ≡ true) × (done ≡ false)
