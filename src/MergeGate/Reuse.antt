-- ===== src/MergeGate/Reuse.antt =====
-- Whether a completed run may be used again: src/lib/cacheEligibility.ts, its whole decision.
use dragnet.Prelude.{
  ℕ, zero, suc, String, Bool, true, false, ◌&&◌, ◌||◌, not, Option, none, some, get_or, List, [],
  ◌∷◌, length, any, eqb, ◌==◌, if◌then◌else◌, ◌≡◌, ◌≢◌, ◌⊎◌, ◌↔◌, All, arith, eq_iff,
}
use dragnet.MergeGate.{is_text, is_present}

pub data CacheIneligibilityReason : Type 0 where
  commit_mismatch diff_mismatch config_mismatch toolchain_mismatch : CacheIneligibilityReason
  incomplete_chunks contradictory_chunks : CacheIneligibilityReason

-- An optional field that may also be null.
pub data Field : Type 0 where
  undefined null_value : Field
  text : String → Field

abbrev pub same_field : Field → Field → Bool
same_field undefined undefined = true
same_field null_value null_value = true
same_field (text a) (text b) = a == b
same_field _ _ = false

pub record ReviewedRevision : Type 0 where
  pub commit_hash : String
  pub diff_hash : String
  pub review_config_hash : String
  pub toolchain_fingerprint : Field

abbrev pub is_undefined : Field → Bool
is_undefined undefined = true
is_undefined _ = false

-- the rules on the chunks, `expected` being `chunksTotal ?? 0`
check_chunks : ℕ → List (Option String) → Option CacheIneligibilityReason
check_chunks zero [] = none
check_chunks zero (_ ∷ _) = some contradictory_chunks
check_chunks expected chunks =
    if not (eqb (length chunks) expected)
    then some incomplete_chunks
    else if any (λ s. not (is_text "completed" s)) chunks
    then some contradictory_chunks
    else none

-- `none` for `{ eligible: true }`
unfoldable pub evaluate_cache_eligibility :
    ReviewedRevision
    → Option ℕ
    → ReviewedRevision
    → Option (List (Option String))
    → Option CacheIneligibilityReason
unfolding check_chunks
evaluate_cache_eligibility run chunks_total current chunks =
    if not (run.commit_hash == current.commit_hash)
    then some commit_mismatch
    else if not (is_present current.diff_hash) || not (run.diff_hash == current.diff_hash)
    then some diff_mismatch
    else if not (run.review_config_hash == current.review_config_hash)
    then some config_mismatch
    else if not (is_undefined current.toolchain_fingerprint)
        && not (same_field run.toolchain_fingerprint current.toolchain_fingerprint)
    then some toolchain_mismatch
    else check_chunks (get_or chunks_total 0) (get_or chunks [])

-- what a run that may be used again has in common with the current revision
pub record IsReusable (run : ReviewedRevision) (total : Option ℕ) (current : ReviewedRevision)
    (chunks : Option (List (Option String))) : Type 0 where
  pub same_commit : run.commit_hash ≡ current.commit_hash
  pub has_diff : current.diff_hash ≢ ""
  pub same_diff : run.diff_hash ≡ current.diff_hash
  pub same_config : run.review_config_hash ≡ current.review_config_hash
  pub same_toolchain :
      (current.toolchain_fingerprint ≡ undefined)
      ⊎ (run.toolchain_fingerprint ≡ current.toolchain_fingerprint)
  pub counted : length (get_or chunks []) ≡ get_or total 0
  pub all_completed : All (λ s. s ≡ some "completed") (get_or chunks [])

is_text_iff : (t : String) (o : Option String) → (is_text t o ≡ true) ↔ (o ≡ some t)
is_text_iff t none = ground arith
is_text_iff t (some x) = ground (arith, eq_iff x t)

none_other_iff :
    (chunks : List (Option String))
    → (any (λ s. not (is_text "completed" s)) chunks ≡ false)
      ↔ All (λ s. s ≡ some "completed") chunks
none_other_iff [] = ground arith
none_other_iff (s ∷ rest) = ground (arith, is_text_iff "completed" s, none_other_iff rest)

check_chunks_iff :
    (expected : ℕ) (chunks : List (Option String))
    → (check_chunks expected chunks ≡ none)
      ↔ ((length chunks ≡ expected) × All (λ s. s ≡ some "completed") chunks)
unfolding check_chunks
check_chunks_iff zero [] = ground arith
check_chunks_iff zero (s ∷ rest) = ground arith
check_chunks_iff (suc n) chunks = ground (arith, none_other_iff chunks)

toolchain_iff :
    (r c : Field)
    → ((not (is_undefined c) && not (same_field r c)) ≡ false) ↔ ((c ≡ undefined) ⊎ (r ≡ c))
toolchain_iff r undefined = ground arith
toolchain_iff undefined null_value = ground arith
toolchain_iff null_value null_value = ground arith
toolchain_iff (text a) null_value = ground arith
toolchain_iff undefined (text c) = ground arith
toolchain_iff null_value (text c) = ground arith
toolchain_iff (text a) (text c) = ground (arith, eq_iff a c)

-- A completed run is taken from the cache exactly when the commit, the diff and the configuration
-- are those of the current revision, the current diff has a hash, the toolchain is not asked for or
-- is the same, there are as many chunk records as the run counts, and every one is completed.
pub evaluate_cache_eligibility_iff :
    (run : ReviewedRevision) (total : Option ℕ) (current : ReviewedRevision)
    (chunks : Option (List (Option String)))
    → (evaluate_cache_eligibility run total current chunks ≡ none)
      ↔ IsReusable run total current chunks
unfolding evaluate_cache_eligibility
evaluate_cache_eligibility_iff run total current chunks = ground (
  arith,
  eq_iff run.commit_hash current.commit_hash,
  eq_iff current.diff_hash "",
  eq_iff run.diff_hash current.diff_hash,
  eq_iff run.review_config_hash current.review_config_hash,
  toolchain_iff run.toolchain_fingerprint current.toolchain_fingerprint,
  check_chunks_iff (get_or total 0) (get_or chunks []),
)
