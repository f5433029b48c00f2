-- ===== src/TipReady/Ready.antt =====
-- What readying one pull request does to its row and to the others: src/lib/tipReadyAfk.ts.
use dragnet.Prelude.{
  ◌⊎◌, String, Bool, true, false, Option, none, some, get_or, List, ◌==◌, if◌then◌else◌, ◌≡◌, refl,
  sym, subst, ◌∙◌, Bool-cases, Option-cases, inl, inr,
}
use dragnet.Prelude.Text.{trim, trim_idem}
use dragnet.TipReady.{
  RepoLike, PullRequestRow, GitOutcome, PullRequestTable, or_text, has_clone_access, trimmed,
}
use dragnet.TipReady.Tips.{
  update_given, fetch_head_and_base, resolve_and_pin, ensure_fetched, ensure_found,
  ensure_tip_ready,
}
use dragnet.TipReady.Delivery.{
  Delivery, provider_head_sha_of, repo_of, is_preferred, head_ref_of, tip_of_clone, tip_of,
}
use dragnet.TipReady.Pinned.{HoldsTip, IsPinned, resolve_and_pin-IsPinned, update_given-row}

module _ (P : PullRequestTable) (G : Type 0)
    (run_git : RepoLike → List String → G → GitOutcome × G) where
  -- the head is the one that the provider gave, which is written, or else the stored one
  abbrev Heads : String → String → PullRequestRow → Type 0
  Heads tip head_sha r =
      (((tip == "") ≡ true) × (trim head_sha ≡ trim r.commit_hash))
      ⊎ (((tip == "") ≡ false) × ((trim tip == "") ≡ false) × (trim head_sha ≡ trim tip))

  Heads-row :
      (pr_id tip head_sha : String) (r : PullRequestRow) (t : P.Rows)
      → P.find_unique pr_id t ≡ some r
      → Heads tip head_sha r
      → (r' : PullRequestRow) × (P.find_unique pr_id (update_given P G run_git pr_id tip t)
          ≡ some r')
        × HoldsTip P head_sha (some r')
  Heads-row pr_id tip head_sha r t hit (inl (empty, same)) = (r, rw (empty, hit) refl, sym same)
  Heads-row pr_id tip head_sha r t hit (inr (given, trimmed_given, same)) =
      let (r', found, holds) = update_given-row P G run_git pr_id tip r t hit given trimmed_given in
      (r', found, holds ∙ sym same)

  Heads-IsPinned :
      (repo : RepoLike) (pr_id tip head_sha : String) (head_ref : Option String)
      (r : PullRequestRow) (t : P.Rows) (g : G)
      → P.find_unique pr_id t ≡ some r
      → Heads tip head_sha r
      → let after =
          resolve_and_pin P G run_git repo pr_id head_sha head_ref
            (update_given P G run_git pr_id tip t)
            g in
        IsPinned P pr_id after.0 after.1
  Heads-IsPinned repo pr_id tip head_sha head_ref r t g hit heads =
      let (r', found, holds) = Heads-row pr_id tip head_sha r t hit heads in
      resolve_and_pin-IsPinned P G run_git repo pr_id head_sha head_ref r'
        (update_given P G run_git pr_id tip t) g found holds

  ensure_fetched-IsPinned :
      (repo : RepoLike) (pr_id tip head_sha : String) (head_ref base_ref : Option String)
      (r : PullRequestRow) (t : P.Rows) (g : G)
      → P.find_unique pr_id t ≡ some r
      → Heads tip head_sha r
      → let after = ensure_fetched P G run_git repo pr_id r tip head_sha head_ref base_ref t g in
        IsPinned P pr_id after.0 after.1
  unfolding ensure_fetched
  ensure_fetched-IsPinned repo pr_id tip head_sha head_ref base_ref r t g hit heads =
      let head = some (or_text head_ref r.source_branch) in
      let fetched =
        fetch_head_and_base P G run_git repo head (some (or_text base_ref r.target_branch)) g in
      elim (Bool-cases fetched.0) [
        | inr failed ↦ rw (failed, ensure_fetched) tt
        | inl fine ↦
            rw (fine, ensure_fetched)
              (Heads-IsPinned repo pr_id tip head_sha head r t fetched.1 hit heads)
      ]

  trimmed-Heads :
      (provider : Option String) (r : PullRequestRow)
      → Heads
          (trimmed provider)
          (if trimmed provider == "" then r.commit_hash else trimmed provider)
          r
  trimmed-Heads provider r = elim (Bool-cases (trimmed provider == "")) [
    | inl empty ↦ inl (empty, rw empty refl)
    | inr given ↦ inr (given, rw (trim_idem (get_or provider "")) given, rw given refl)
  ]

  ensure_found-IsPinned :
      (repo : RepoLike) (pr_id : String) (provider head_ref base_ref : Option String)
      (require_clone : Option Bool) (r : PullRequestRow) (t : P.Rows) (g : G)
      → P.find_unique pr_id t ≡ some r
      → let after =
          ensure_found P G run_git repo pr_id
            (some r)
            provider
            head_ref
            base_ref
            require_clone
            t
            g in
        IsPinned P pr_id after.0 after.1
  unfolding ensure_found
  ensure_found-IsPinned repo pr_id provider head_ref base_ref require_clone r t g hit =
      let tip = trimmed provider in
      let head_sha = if tip == "" then r.commit_hash else tip in
      let heads = trimmed-Heads provider r in
      let (r', found, holds) = Heads-row pr_id tip head_sha r t hit heads in
      elim (Bool-cases (head_sha == "")) [
        | inl nothing ↦ rw (nothing, ensure_found) tt
        | inr something ↦ elim (Bool-cases (has_clone_access (some repo))) [
          | inl clone ↦
              rw (something, clone, ensure_found)
                (ensure_fetched-IsPinned repo pr_id tip head_sha head_ref base_ref r t g hit heads)
          | inr bare ↦ elim (Bool-cases (get_or require_clone false)) [
            | inl required ↦ rw (something, bare, required, ensure_found) tt
            | inr free ↦
                rw (something, bare, free, ensure_found)
                  (subst (HoldsTip P head_sha) (sym found) holds)
          ]
        ]
      ]

  ensure_tip_ready-IsPinned :
      (repo : RepoLike) (pr_id : String) (provider head_ref base_ref : Option String)
      (require_clone : Option Bool) (t : P.Rows) (g : G)
      → let after =
          ensure_tip_ready P G run_git repo pr_id provider head_ref base_ref require_clone t g in
        IsPinned P pr_id after.0 after.1
  unfolding ensure_tip_ready ensure_found
  ensure_tip_ready-IsPinned repo pr_id provider head_ref base_ref require_clone t g =
      elim (Option-cases (P.find_unique pr_id t)) [
        | inl missing ↦ rw (missing, ensure_tip_ready, ensure_found) tt
        | inr (r, hit) ↦
            subst
              (λ o.
                let after =
                  ensure_found P G run_git repo pr_id o provider head_ref base_ref require_clone t
                    g in
                IsPinned P pr_id after.0 after.1)
              (sym hit)
              (ensure_found-IsPinned repo pr_id provider head_ref base_ref require_clone r t g hit)
      ]

  clone-Heads :
      (provider : Option String) (r : PullRequestRow)
      → let head_sha = trim (or_text provider r.commit_hash) in
        (head_sha == "") ≡ false → Heads (get_or provider "") head_sha r
  clone-Heads none r h = inl (refl, trim_idem r.commit_hash)
  clone-Heads (some sha) r h = elim (Bool-cases (sha == "")) [
    | inl empty ↦ inl (empty, rw empty (trim_idem r.commit_hash))
    | inr given ↦ inr (given, rw given at h, rw given (trim_idem sha))
  ]

  tip_of_clone-IsPinned :
      (repo : RepoLike) (pr_id : String) (provider head_ref : Option String) (t : P.Rows) (g : G)
      → let after =
          tip_of_clone P G run_git repo pr_id (P.find_unique pr_id t) provider head_ref t g in
        IsPinned P pr_id after.0 after.1
  unfolding tip_of_clone
  tip_of_clone-IsPinned repo pr_id provider head_ref t g =
      elim (Option-cases (P.find_unique pr_id t)) [
        | inl missing ↦ rw (missing, tip_of_clone) tt
        | inr (r, hit) ↦
            let head_sha = trim (or_text provider r.commit_hash) in
            elim (Bool-cases (head_sha == "")) [
              | inl nothing ↦ rw (hit, nothing, tip_of_clone) tt
              | inr something ↦
                  rw (hit, something, tip_of_clone)
                    (Heads-IsPinned repo pr_id (get_or provider "") head_sha
                      (some (or_text head_ref r.source_branch)) r t g hit
                      (clone-Heads provider r something))
            ]
      ]

  pub tip_of-IsPinned :
      (d : Delivery) (preferred : Option String) (pr_id : String) (t : P.Rows) (g : G)
      → let after = tip_of P G run_git d preferred pr_id t g in IsPinned P pr_id after.0 after.1
  unfolding tip_of
  tip_of-IsPinned d preferred pr_id t g =
      let provider = provider_head_sha_of d preferred pr_id in
      elim (Bool-cases (has_clone_access d.repo)) [
        | inl clone ↦
            rw (clone, tip_of)
              (tip_of_clone-IsPinned (repo_of d) pr_id provider
                (if is_preferred pr_id preferred then head_ref_of d.event else none) t g)
        | inr bare ↦
            rw (bare, tip_of)
              (ensure_tip_ready-IsPinned (repo_of d) pr_id provider none none (some false) t g)
      ]
