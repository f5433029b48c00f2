-- ===== src/Reconcile/Failure.antt =====
-- When `reconcileFindingsAcrossRuns` (src/services/largePrReview/reconcile.ts) throws.
use dragnet.Prelude.{
  all-ext, String, Bool, true, ◌&&◌, not, some, List, [], ◌∷◌, filter, all, any, ◌==◌, is_some, ◌≡◌,
  refl, ap, ◌∙◌, All, All-map, arith, Bool-cases, inl, inr,
}
use dragnet.Prelude.Dict.{has}
use dragnet.Database.Keyed.{KeyedTable, has_id, has_id-update_where, has_id-delete}
use dragnet.Reconcile.{
  Finding, CodeSymbol, PriorUpdate, Regression, plan_reconcile, index, detect_regressions,
}
use dragnet.Reconcile.Plan.{plan_priors-updates, detect_loop-ids}
use dragnet.Reconcile.Runs.{
  bump, resolve_at, flag, write_updates, write_regressions, delete_matched, resolve_unmatched,
  resolve_all, resolved_ids, reconcile_found, reconcile_findings_across_runs, is_current, is_prior,
  is_resolved_before,
}

-- the regressions whose finding was deleted as a duplicate of a prior one
abbrev pub is_deleted : List String → Regression → Bool
is_deleted ids r = has ids r.current_finding_id

module _ {Score : Type 0} (T : KeyedTable (Finding Score) (λ f. f.id)) where
  abbrev found : String → T.Rows → Bool
  found k t = has_id (λ f. f.id) k (T.rows t)

  -- the two tables have rows for the same ids
  abbrev SameIds : T.Rows → T.Rows → Type 0
  SameIds t t' = (k : String) → found k t' ≡ found k t

  update-found :
      (k : String) (f : Finding Score → Finding Score) (t : T.Rows)
      → ((r : Finding Score) → (f r).id ≡ r.id)
      → found k t ≡ true
      → (t' : T.Rows) × ((T.update k f t ≡ some t') × SameIds t t')
  update-found k f t keeps h =
      let (t', (e, rows)) = T.update-present k f t h in
      (
        t',
        (
          e,
          λ j.
              ap (has_id (λ r. r.id) j) rows
              ∙ has_id-update_where (λ r. r.id) j (λ r. r.id == k) f (T.rows t) keeps,
        ),
      )

  write_updates-found :
      (run : String) (us : List (PriorUpdate Score)) (t : T.Rows)
      → All (λ u. found u.id t ≡ true) us
      → (t' : T.Rows) × ((write_updates T run us t ≡ some t') × SameIds t t')
  unfolding write_updates
  write_updates-found run [] t h = (t, (refl, λ k. refl))
  write_updates-found run (u ∷ us) t h =
      let (v, (e, same)) = update-found u.id (bump run u) t (λ r. refl) h.0 in
      let (w, (e', same')) = write_updates-found run us v (
        All-map (λ x. found x.id t ≡ true) (λ x. found x.id v ≡ true) us (λ x m. same x.id ∙ m)
          h.1) in
      (w, (rw (e, write_updates) e', λ k. same' k ∙ same k))

  write_regressions-found :
      (rs : List Regression) (t : T.Rows)
      → is_some (write_regressions T rs t) ≡ all (λ r. found r.current_finding_id t) rs
  unfolding write_regressions
  write_regressions-found [] t = refl
  write_regressions-found (r ∷ rs) t = elim (Bool-cases (found r.current_finding_id t)) [
    | inl here ↦
        let (v, (e, same)) = update-found r.current_finding_id (flag r) t (λ x. refl) here in
        rw (e, here, write_regressions)
          (write_regressions-found rs v
            ∙ all-ext (λ x. found x.current_finding_id v) (λ x. found x.current_finding_id t) rs
                (λ x. same x.current_finding_id))
    | inr gone ↦
        rw (T.update-missing r.current_finding_id (flag r) t gone, gone, write_regressions) refl
  ]

  found-delete_matched :
      (ids : List String) (k : String) (t : T.Rows)
      → found k (delete_matched T ids t) ≡ (found k t && not (has ids k))
  unfolding has
  found-delete_matched [] k t = ground arith
  found-delete_matched (i ∷ is) k t =
      ap (has_id (λ f. f.id) k) (T.delete_many-rows (λ f. has (i ∷ is) f.id) t)
      ∙ has_id-delete (λ f. f.id) k (i ∷ is) (T.rows t)

  resolve_all-SameIds :
      (run : String) (ids : List String) (t : T.Rows) → SameIds t (resolve_all T run ids t)
  resolve_all-SameIds run [] t k = refl
  resolve_all-SameIds run (i ∷ is) t k =
      ap (has_id (λ f. f.id) k) (T.update_many-rows (λ f. has (i ∷ is) f.id) (resolve_at run) t)
      ∙ has_id-update_where (λ f. f.id) k (λ f. has (i ∷ is) f.id) (resolve_at run) (T.rows t)
          (λ r. refl)

  all-not_deleted :
      (ids : List String) (rs : List Regression) (p : Regression → Bool)
      → All (λ r. p r ≡ not (is_deleted ids r)) rs
      → all p rs ≡ not (any (is_deleted ids) rs)
  all-not_deleted ids [] p h = refl
  all-not_deleted ids (r ∷ rs) p h = ground (arith, h.0, all-not_deleted ids rs p h.1)

  reconcile_found-is_some :
      (symbols : List CodeSymbol) (run : String)
      (currents priors resolved_findings : List (Finding Score)) (t : T.Rows)
      → All (λ f. found f.id t ≡ true) currents
      → All (λ f. found f.id t ≡ true) priors
      → is_some (reconcile_found T symbols run currents priors resolved_findings t)
        ≡ not (
            any
              (is_deleted (plan_reconcile currents priors).matched_new_ids)
              (detect_regressions currents resolved_findings))
  unfolding reconcile_found plan_reconcile detect_regressions
  reconcile_found-is_some symbols run currents priors resolved_findings t here before =
      let plan = plan_reconcile currents priors in
      let rs = detect_regressions currents resolved_findings in
      let left = filter (λ p. has plan.unmatched_prior_ids p.id) priors in
      let (v, (e, same)) =
        write_updates-found run plan.matched_prior_updates t
          (plan_priors-updates (λ k. found k t ≡ true) (index [] currents) priors before) in
      let w = delete_matched T plan.matched_new_ids v in
      let last = resolve_unmatched T symbols run left w in
      let kept : (k : String) → found k last ≡ (found k t && not (has plan.matched_new_ids k)) =
        λ k.
          resolve_all-SameIds run (resolved_ids symbols left) w k
          ∙ found-delete_matched plan.matched_new_ids k v
          ∙ ap (λ b. b && not (has plan.matched_new_ids k)) (same k) in
      rw (e, reconcile_found)
        (write_regressions-found rs last
          ∙ all-not_deleted plan.matched_new_ids rs (λ r. found r.current_finding_id last)
              (All-map (λ r. found r.current_finding_id t ≡ true)
                (λ r. found r.current_finding_id last ≡ not (is_deleted plan.matched_new_ids r)) rs
                (λ r h.
                  kept r.current_finding_id
                  ∙ ap (λ b. b && not (is_deleted plan.matched_new_ids r)) h)
                (detect_loop-ids (λ k. found k t ≡ true) currents [] resolved_findings here)))

  -- A reconciliation throws exactly when it finds a regression on a finding that it has deleted before, as
  -- the duplicate of an open one of an earlier run: it then updates a row that is gone.
  pub reconcile_findings_across_runs-fails :
      (symbols : List CodeSymbol) (pr_id run : String) (t : T.Rows)
      → let currents = T.find_many (is_current pr_id run) t in
        let priors = T.find_many (is_prior pr_id run) t in
        let resolved_findings = T.find_many (is_resolved_before pr_id) t in
        is_some (reconcile_findings_across_runs T symbols pr_id run t)
        ≡ not (
            any
              (is_deleted (plan_reconcile currents priors).matched_new_ids)
              (detect_regressions currents resolved_findings))
  unfolding reconcile_findings_across_runs
  reconcile_findings_across_runs-fails symbols pr_id run t =
      reconcile_found-is_some symbols run (T.find_many (is_current pr_id run) t)
        (T.find_many (is_prior pr_id run) t) (T.find_many (is_resolved_before pr_id) t) t
        (T.find_many-has_id (is_current pr_id run) t) (T.find_many-has_id (is_prior pr_id run) t)
