-- ===== src/TipReady/Pinned.antt =====
-- The stored commit of a pull request whose tip is ready: src/lib/tipReadyAfk.ts.
use Prim.Native.String
use dragnet.Prelude.{
  String, true, false, ◌&&◌, Option, none, some, List, [], ◌∷◌, eqb, ◌==◌, ◌≡◌, refl, sym, ap,
  subst, ◌∙◌, arith, eq_iff, eq_refl, Bool-cases, Option-cases, inl, inr,
}
use dragnet.Prelude.Text.{trim, trim_idem}
use dragnet.TipReady.{
  RepoLike, PullRequestRow, TipReadyResult, ready, not_ready, GitOutcome, ran, throws,
  PullRequestTable, is_sha, trimmed, head_candidates, commit_at,
}
use dragnet.TipReady.Tips.{
  update_found, update_pr_commit_to_provider_tip, update_given, try_candidates, rev_parse_head,
  pinned_of, pin, resolve_and_pin,
}

-- a commit as git gives it
abbrev IsCommit : Option String → Type 0
IsCommit none = Unit
IsCommit (some sha) = (trim sha ≡ sha) × ((sha == "") ≡ false)

is_sha-nonempty : (s : String) → is_sha s ≡ true → (s == "") ≡ false
unfolding is_sha
is_sha-nonempty s h = elim (Bool-cases (s == "")) [
  | inl empty ↦ cc (subst (λ t. is_sha t ≡ true) ((eq_iff s "").0 empty) h)
  | inr other ↦ other
]

commit_at-IsCommit : (outcome : GitOutcome) → IsCommit (commit_at outcome)
commit_at-IsCommit throws = tt
commit_at-IsCommit (ran exit_code stdout) =
    elim (Bool-cases (eqb exit_code 0 && is_sha (trim stdout))) [
      | inl good ↦ rw good (trim_idem stdout, is_sha-nonempty (trim stdout) (ground (arith, good)))
      | inr bad ↦ rw bad tt
    ]

module _ (P : PullRequestTable) where
  -- the row of the pull request is at this tip, space at the ends aside
  abbrev pub HoldsTip : String → Option PullRequestRow → Type 0
  HoldsTip tip none = ⊥
  HoldsTip tip (some r) = trim r.commit_hash ≡ trim tip

  abbrev pub IsPinned : String → TipReadyResult → P.Rows → Type 0
  IsPinned pr_id (not_ready gate) t = Unit
  IsPinned pr_id (ready head_sha mode) t = HoldsTip head_sha (P.find_unique pr_id t)

  update_found-HoldsTip :
      (pr_id sha : String) (r : PullRequestRow) (t : P.Rows)
      → P.find_unique pr_id t ≡ some r
      → HoldsTip sha (P.find_unique pr_id (update_found P pr_id (trim sha) (some r) t).1)
  unfolding update_found
  update_found-HoldsTip pr_id sha r t hit = elim (Bool-cases (r.commit_hash == trim sha)) [
    | inl same ↦
        rw (same, update_found, hit)
          (ap trim ((eq_iff r.commit_hash (trim sha)).0 same) ∙ trim_idem sha)
    | inr other ↦ rw (other, update_found, P.find_unique-update, eq_refl pr_id, hit) (trim_idem sha)
  ]

  update-HoldsTip :
      (pr_id sha : String) (r : PullRequestRow) (t : P.Rows)
      → P.find_unique pr_id t ≡ some r
      → (trim sha == "") ≡ false
      → HoldsTip sha (P.find_unique pr_id (update_pr_commit_to_provider_tip P pr_id sha t).1)
  unfolding update_pr_commit_to_provider_tip
  update-HoldsTip pr_id sha r t hit given =
      rw (given, update_pr_commit_to_provider_tip, hit) (update_found-HoldsTip pr_id sha r t hit)

  update_found-other :
      (pr_id j tip : String) (o : Option PullRequestRow) (t : P.Rows)
      → (pr_id == j) ≡ false
      → P.find_unique j (update_found P pr_id tip o t).1 ≡ P.find_unique j t
  unfolding update_found
  update_found-other pr_id j tip none t other = refl
  update_found-other pr_id j tip (some r) t other = elim (Bool-cases (r.commit_hash == tip)) [
    | inl same ↦ rw (same, update_found) refl
    | inr moved ↦ rw (moved, update_found, P.find_unique-update, other) refl
  ]

  pub update-other :
      (pr_id j sha : String) (t : P.Rows)
      → (pr_id == j) ≡ false
      → P.find_unique j (update_pr_commit_to_provider_tip P pr_id sha t).1 ≡ P.find_unique j t
  unfolding update_pr_commit_to_provider_tip
  update-other pr_id j sha t other = elim (Bool-cases (trim sha == "")) [
    | inl empty ↦ rw (empty, update_pr_commit_to_provider_tip) refl
    | inr given ↦
        rw (given, update_pr_commit_to_provider_tip)
          (update_found-other pr_id j (trim sha) (P.find_unique pr_id t) t other)
  ]

  module _ (G : Type 0) (run_git : RepoLike → List String → G → GitOutcome × G) where
    try_candidates-IsCommit :
        (repo : RepoLike) (candidates : List String) (g : G)
        → IsCommit (try_candidates P G run_git repo candidates g).0
    unfolding try_candidates
    try_candidates-IsCommit repo [] g = tt
    try_candidates-IsCommit repo (c ∷ cs) g = elim (Bool-cases (c == "")) [
      | inl empty ↦ rw (empty, try_candidates) (try_candidates-IsCommit repo cs g)
      | inr given ↦
          let ran_on = run_git repo ("rev-parse" ∷ "--verify" ∷ String.◌++◌ c "^{commit}" ∷ []) g in
          elim (Option-cases (commit_at ran_on.0)) [
            | inl lost ↦ rw (given, lost, try_candidates) (try_candidates-IsCommit repo cs ran_on.1)
            | inr (sha, hit) ↦
                rw (given, hit, try_candidates) (subst IsCommit hit (commit_at-IsCommit ran_on.0))
          ]
    ]

    pin-IsPinned :
        (pr_id head_sha : String) (resolved : Option String) (r : PullRequestRow) (t : P.Rows)
        → IsCommit resolved
        → P.find_unique pr_id t ≡ some r
        → HoldsTip head_sha (some r)
        → let after = pin P G run_git pr_id head_sha (pinned_of P G run_git resolved head_sha) t in
          IsPinned pr_id after.0 after.1
    unfolding pin
    pin-IsPinned pr_id head_sha none r t commit hit holds = elim (Bool-cases (is_sha head_sha)) [
      | inl good ↦ rw (good, pin, eq_refl head_sha, hit) holds
      | inr bad ↦ rw (bad, pin) tt
    ]
    pin-IsPinned pr_id head_sha (some sha) r t commit hit holds =
        elim (Bool-cases (sha == head_sha)) [
          | inl same ↦ rw (same, pin, hit) (holds ∙ ap trim (sym ((eq_iff sha head_sha).0 same)))
          | inr other ↦ rw (other, pin) (update-HoldsTip pr_id sha r t hit (rw commit.0 commit.1))
        ]

    pub resolve_and_pin-IsPinned :
        (repo : RepoLike) (pr_id head_sha : String) (head_ref : Option String) (r : PullRequestRow)
        (t : P.Rows) (g : G)
        → P.find_unique pr_id t ≡ some r
        → HoldsTip head_sha (some r)
        → let after = resolve_and_pin P G run_git repo pr_id head_sha head_ref t g in
          IsPinned pr_id after.0 after.1
    unfolding resolve_and_pin rev_parse_head
    resolve_and_pin-IsPinned repo pr_id head_sha head_ref r t g hit holds =
        let candidates = head_candidates head_sha (trimmed head_ref) in
        pin-IsPinned pr_id head_sha (try_candidates P G run_git repo candidates g).0 r t
          (try_candidates-IsCommit repo candidates g) hit holds

    -- the row after the write that a given tip makes
    pub update_given-row :
        (pr_id tip : String) (r : PullRequestRow) (t : P.Rows)
        → P.find_unique pr_id t ≡ some r
        → (tip == "") ≡ false
        → (trim tip == "") ≡ false
        → (r' : PullRequestRow) × (P.find_unique pr_id (update_given P G run_git pr_id tip t)
            ≡ some r')
          × HoldsTip tip (some r')
    update_given-row pr_id tip r t hit given trimmed_given =
        let after = (update_pr_commit_to_provider_tip P pr_id tip t).1 in
        let holds = update-HoldsTip pr_id tip r t hit trimmed_given in
        elim (Option-cases (P.find_unique pr_id after)) [
          | inl lost ↦ absurd (subst (HoldsTip tip) lost holds)
          | inr (r', found) ↦ (r', rw (given, found) refl, subst (HoldsTip tip) found holds)
        ]
