-- ===== src/TipReady/Others.antt =====
-- The rows of other pull requests while one is readied: src/lib/tipReadyAfk.ts.
use dragnet.Prelude.{
  String, Bool, false, Option, none, some, get_or, List, ◌==◌, if◌then◌else◌, ◌≡◌, refl, ◌∙◌,
  Bool-cases, inl, inr,
}
use dragnet.Prelude.Text.{trim}
use dragnet.TipReady.{
  RepoLike, PullRequestRow, GitOutcome, PullRequestTable, or_text, has_clone_access, trimmed,
}
use dragnet.TipReady.Tips.{
  update_given, fetch_head_and_base, pin, resolve_and_pin, ensure_fetched, ensure_found,
  ensure_tip_ready,
}
use dragnet.TipReady.Delivery.{
  Delivery, provider_head_sha_of, repo_of, is_preferred, head_ref_of, tip_of_clone, tip_of,
}
use dragnet.TipReady.Pinned.{update-other}

module _ (P : PullRequestTable) (G : Type 0) (run_git : RepoLike → List String → G → GitOutcome × G)
    (pr_id j : String) (other : (pr_id == j) ≡ false) where
  -- the row of the other pull request is as it was
  abbrev Same : P.Rows → P.Rows → Type 0
  Same before after = P.find_unique j after ≡ P.find_unique j before

  update_given-Same : (tip : String) (t : P.Rows) → Same t (update_given P G run_git pr_id tip t)
  update_given-Same tip t = elim (Bool-cases (tip == "")) [
    | inl empty ↦ rw empty refl
    | inr given ↦ rw given (update-other P pr_id j tip t other)
  ]

  pin-Same :
      (head_sha : String) (pinned : Option String) (t : P.Rows)
      → Same t (pin P G run_git pr_id head_sha pinned t).1
  unfolding pin
  pin-Same head_sha none t = refl
  pin-Same head_sha (some sha) t = elim (Bool-cases (sha == head_sha)) [
    | inl same ↦ rw (same, pin) refl
    | inr moved ↦ rw (moved, pin) (update-other P pr_id j sha t other)
  ]

  resolve_and_pin-Same :
      (repo : RepoLike) (head_sha : String) (head_ref : Option String) (tip : String) (t : P.Rows)
      (g : G)
      → Same t
          (resolve_and_pin P G run_git repo pr_id head_sha head_ref
            (update_given P G run_git pr_id tip t)
            g).1
  unfolding resolve_and_pin
  resolve_and_pin-Same repo head_sha head_ref tip t g =
      pin-Same head_sha _ (update_given P G run_git pr_id tip t) ∙ update_given-Same tip t

  ensure_fetched-Same :
      (repo : RepoLike) (r : PullRequestRow) (tip head_sha : String)
      (head_ref base_ref : Option String) (t : P.Rows) (g : G)
      → Same t (ensure_fetched P G run_git repo pr_id r tip head_sha head_ref base_ref t g).1
  unfolding ensure_fetched
  ensure_fetched-Same repo r tip head_sha head_ref base_ref t g =
      let head = some (or_text head_ref r.source_branch) in
      let fetched =
        fetch_head_and_base P G run_git repo head (some (or_text base_ref r.target_branch)) g in
      elim (Bool-cases fetched.0) [
        | inr failed ↦ rw (failed, ensure_fetched) refl
        | inl fine ↦
            rw (fine, ensure_fetched) (resolve_and_pin-Same repo head_sha head tip t fetched.1)
      ]

  pub ensure_found-Same :
      (repo : RepoLike) (o : Option PullRequestRow) (provider head_ref base_ref : Option String)
      (require_clone : Option Bool) (t : P.Rows) (g : G)
      → Same t
          (ensure_found P G run_git repo pr_id o provider head_ref base_ref require_clone t g).1
  unfolding ensure_found
  ensure_found-Same repo none provider head_ref base_ref require_clone t g = refl
  ensure_found-Same repo (some r) provider head_ref base_ref require_clone t g =
      let tip = trimmed provider in
      let head_sha = if tip == "" then r.commit_hash else tip in
      elim (Bool-cases (head_sha == "")) [
        | inl nothing ↦ rw (nothing, ensure_found) refl
        | inr something ↦ elim (Bool-cases (has_clone_access (some repo))) [
          | inl clone ↦
              rw (something, clone, ensure_found)
                (ensure_fetched-Same repo r tip head_sha head_ref base_ref t g)
          | inr bare ↦ elim (Bool-cases (get_or require_clone false)) [
            | inl required ↦ rw (something, bare, required, ensure_found) refl
            | inr free ↦ rw (something, bare, free, ensure_found) (update_given-Same tip t)
          ]
        ]
      ]

  tip_of_clone-Same :
      (repo : RepoLike) (o : Option PullRequestRow) (provider head_ref : Option String) (t : P.Rows)
      (g : G)
      → Same t (tip_of_clone P G run_git repo pr_id o provider head_ref t g).1
  unfolding tip_of_clone
  tip_of_clone-Same repo none provider head_ref t g = refl
  tip_of_clone-Same repo (some r) provider head_ref t g =
      let head_sha = trim (or_text provider r.commit_hash) in
      elim (Bool-cases (head_sha == "")) [
        | inl nothing ↦ rw (nothing, tip_of_clone) refl
        | inr something ↦
            rw (something, tip_of_clone)
              (resolve_and_pin-Same repo head_sha (some (or_text head_ref r.source_branch))
                (get_or provider "") t g)
      ]

  pub tip_of-Same :
      (d : Delivery) (preferred : Option String) (t : P.Rows) (g : G)
      → Same t (tip_of P G run_git d preferred pr_id t g).1
  unfolding tip_of ensure_tip_ready
  tip_of-Same d preferred t g =
      let provider = provider_head_sha_of d preferred pr_id in
      elim (Bool-cases (has_clone_access d.repo)) [
        | inl clone ↦
            rw (clone, tip_of)
              (tip_of_clone-Same (repo_of d) (P.find_unique pr_id t) provider
                (if is_preferred pr_id preferred then head_ref_of d.event else none) t g)
        | inr bare ↦
            rw (bare, tip_of, ensure_tip_ready)
              (ensure_found-Same (repo_of d) (P.find_unique pr_id t) provider none none (some false)
                t g)
      ]
