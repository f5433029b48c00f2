-- ===== src/TipReady/Tips.antt =====
-- Pinning the tip of one pull request: src/lib/tipReadyAfk.ts.
use Prim.Native.String
use dragnet.Prelude.{
  String, Bool, true, false, not, ◌&&◌, Option, none, some, get_or, List, [], ◌∷◌, eqb, ◌==◌,
  if◌then◌else◌,
}
use dragnet.Prelude.Text.{trim}
use dragnet.Runs.Revisions.{status_for_revision}
use dragnet.TipReady.{
  RepoLike, PullRequestRow, TipReadyResult, ready, not_ready, clone_failed, tip_context_failed,
  from_clone, hash_only, EventPrHint, UpdateTipHashResult, GitOutcome, ran, throws,
  PullRequestTable, is_sha, or_text, has_clone_access, trimmed, refspecs, head_candidates,
  commit_at,
}

module _ (P : PullRequestTable) where
  unfoldable pub find_pr_id_for_event : String → EventPrHint → P.Rows → Option String
  find_pr_id_for_event repo_id event t =
      let by_number : Option PullRequestRow = elim event.github_pr_number [
        | none ↦ none
        | some number ↦
            P.find_first
              (λ r.
                r.repo_id == repo_id
                && (elim r.github_pr_number [ none ↦ false | some n ↦ eqb n number ]))
              t
      ] in
      let branch = trimmed event.source_branch in
      let by_branch : Option PullRequestRow =
        if branch == ""
        then none
        else P.find_first (λ r. r.repo_id == repo_id && r.source_branch == branch) t in
      elim by_number [
        | some r ↦ some r.id
        | none ↦ elim by_branch [ none ↦ none | some r ↦ some r.id ]
      ]

  -- the row is written where its commit is another one
  unfoldable pub update_found :
      String → String → Option PullRequestRow → P.Rows → UpdateTipHashResult × P.Rows
  update_found pr_id tip none t =
      (record { previous = none; is_updated = false; head_sha = tip; is_missing = true }, t)
  update_found pr_id tip (some pr) t =
      if pr.commit_hash == tip
      then (
        record {
          previous = some pr.commit_hash;
          is_updated = false;
          head_sha = tip;
          is_missing = false;
        },
        t,
      )
      else (
        record {
          previous = some pr.commit_hash;
          is_updated = true;
          head_sha = tip;
          is_missing = false;
        },
        P.update pr_id tip (status_for_revision (some pr.status) (some pr.commit_hash) tip) t,
      )

  unfoldable pub update_pr_commit_to_provider_tip :
      String → String → P.Rows → UpdateTipHashResult × P.Rows
  update_pr_commit_to_provider_tip pr_id head_sha t =
      let tip = trim head_sha in
      if tip == ""
      then (record { previous = none; is_updated = false; head_sha = tip; is_missing = false }, t)
      else update_found pr_id tip (P.find_unique pr_id t) t

  module _ (G : Type 0) (run_git_in_repo : RepoLike → List String → G → GitOutcome × G) where
    abbrev pub is_fetched : GitOutcome → Bool
    is_fetched throws = false
    is_fetched (ran exit_code stdout) = eqb exit_code 0

    unfoldable pub fetch_head_and_base : RepoLike → Option String → Option String → G → Bool × G
    fetch_head_and_base repo head_ref base_ref g =
        let (outcome, g') =
          run_git_in_repo repo ("fetch" ∷ "origin" ∷ refspecs (trimmed head_ref) (trimmed base_ref))
            g in
        (is_fetched outcome, g')

    unfoldable pub try_candidates : RepoLike → List String → G → Option String × G
    try_candidates repo [] g = (none, g)
    try_candidates repo (candidate ∷ candidates) g = elim (candidate == "") [
      | true ↦ try_candidates repo candidates g
      | false ↦
          let (outcome, g') =
            run_git_in_repo repo ("rev-parse" ∷ "--verify" ∷ String.◌++◌ candidate "^{commit}" ∷ [])
              g in
          elim (commit_at outcome) [
            | some sha ↦ (some sha, g')
            | none ↦ try_candidates repo candidates g'
          ]
    ]

    unfoldable pub rev_parse_head : RepoLike → String → Option String → G → Option String × G
    rev_parse_head repo head_sha head_ref g =
        try_candidates repo (head_candidates head_sha (trimmed head_ref)) g

    -- `resolved || (SHA_RE.test(headSha) ? headSha : null)`
    abbrev pub pinned_of : Option String → String → Option String
    pinned_of (some sha) head_sha = some sha
    pinned_of none head_sha = if is_sha head_sha then some head_sha else none

    -- the row follows the provider, then the commit that git found
    abbrev pub update_given : String → String → P.Rows → P.Rows
    update_given pr_id provider_tip t =
        if provider_tip == "" then t else (update_pr_commit_to_provider_tip pr_id provider_tip t).1

    unfoldable pub pin : String → String → Option String → P.Rows → TipReadyResult × P.Rows
    pin pr_id head_sha none t = (not_ready tip_context_failed, t)
    pin pr_id head_sha (some pinned) t = (
      ready pinned from_clone,
      if pinned == head_sha then t else (update_pr_commit_to_provider_tip pr_id pinned t).1,
    )

    -- both callers resolve the head and pin it
    unfoldable pub resolve_and_pin :
        RepoLike → String → String → Option String → P.Rows → G → TipReadyResult × P.Rows × G
    resolve_and_pin repo pr_id head_sha head_ref t g =
        let (resolved, g') = rev_parse_head repo head_sha head_ref g in
        let (tip, t') = pin pr_id head_sha (pinned_of resolved head_sha) t in (tip, t', g')

    unfoldable pub ensure_fetched :
        RepoLike
        → String
        → PullRequestRow
        → String
        → String
        → Option String
        → Option String
        → P.Rows
        → G
        → TipReadyResult × P.Rows × G
    ensure_fetched repo pr_id pr provider_tip head_sha head_ref base_ref t g =
        let head = some (or_text head_ref pr.source_branch) in
        let (is_ok, g') =
          fetch_head_and_base repo head (some (or_text base_ref pr.target_branch)) g in
        elim is_ok [
          | false ↦ (not_ready clone_failed, t, g')
          | true ↦ resolve_and_pin repo pr_id head_sha head (update_given pr_id provider_tip t) g'
        ]

    unfoldable pub ensure_found :
        RepoLike
        → String
        → Option PullRequestRow
        → Option String
        → Option String
        → Option String
        → Option Bool
        → P.Rows
        → G
        → TipReadyResult × P.Rows × G
    ensure_found repo pr_id none provider_head_sha head_ref base_ref require_clone t g =
        (not_ready tip_context_failed, t, g)
    ensure_found repo pr_id (some pr) provider_head_sha head_ref base_ref require_clone t g =
        let provider_tip = trimmed provider_head_sha in
        let head_sha = if provider_tip == "" then pr.commit_hash else provider_tip in
        let clone_ok = has_clone_access (some repo) in
        if head_sha == ""
        then (not_ready tip_context_failed, t, g)
        else if not clone_ok
        then (if get_or require_clone clone_ok
            then (not_ready clone_failed, t, g)
            else (ready head_sha hash_only, update_given pr_id provider_tip t, g))
        else ensure_fetched repo pr_id pr provider_tip head_sha head_ref base_ref t g

    unfoldable pub ensure_tip_ready :
        RepoLike
        → String
        → Option String
        → Option String
        → Option String
        → Option Bool
        → P.Rows
        → G
        → TipReadyResult × P.Rows × G
    ensure_tip_ready repo pr_id provider_head_sha head_ref base_ref require_clone t g =
        ensure_found repo pr_id (P.find_unique pr_id t) provider_head_sha head_ref base_ref
          require_clone t g
