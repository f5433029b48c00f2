-- ===== src/Reconcile/Runs.antt =====
-- `reconcileFindingsAcrossRuns` of src/services/largePrReview/reconcile.ts over the table of findings and the
-- indexed symbols. A call of `update` that throws ends it with none; what it returns is left out but for
-- the table. Log lines are left out.
use dragnet.Prelude.{
  String, Bool, true, false, ◌&&◌, not, Option, none, some, List, [], ◌∷◌, filter, map, ◌==◌,
  is_some,
}
use dragnet.Prelude.Dict.{has}
use dragnet.Database.Keyed.{KeyedTable}
use dragnet.Reconcile.{
  Finding, FindingStatus, opened, resolved, truthy, same_text, CodeSymbol, resolve_symbol,
  PriorUpdate, Regression, plan_reconcile, detect_regressions,
}

abbrev pub is_open : Option FindingStatus → Bool
is_open (some opened) = true
is_open _ = false

abbrev pub is_resolved : Option FindingStatus → Bool
is_resolved (some resolved) = true
is_resolved _ = false

-- `{ not: run }` of a column, which a null does not meet
abbrev pub is_other : Option String → String → Bool
is_other none run = false
is_other (some id) run = not (id == run)

-- the code at the anchor has changed since the snapshot
abbrev pub is_changed : Option CodeSymbol → Option String → Bool
is_changed none snapshot = false
is_changed (some s) snapshot =
    not (s.source_hash == "") && truthy snapshot && not (same_text (some s.source_hash) snapshot)

module _ {Score : Type 0} where
  abbrev pub is_current : String → String → Finding Score → Bool
  is_current pr_id run f =
      f.pr_id == pr_id && same_text f.review_run_id (some run) && is_open f.status

  abbrev pub is_prior : String → String → Finding Score → Bool
  is_prior pr_id run f = f.pr_id == pr_id && is_open f.status && is_other f.last_seen_run_id run

  abbrev pub is_resolved_before : String → Finding Score → Bool
  is_resolved_before pr_id f =
      f.pr_id == pr_id && is_resolved f.status && is_some f.resolved_at_run_id

  abbrev pub bump : String → PriorUpdate Score → Finding Score → Finding Score
  bump run u f = record f {
    last_seen_run_id = some run;
    source_hash_at_insert = u.source_hash;
    verdict = u.verdict;
  }

  abbrev pub resolve_at : String → Finding Score → Finding Score
  resolve_at run f = record f { status = some resolved; resolved_at_run_id = some run }

  abbrev pub flag : Regression → Finding Score → Finding Score
  flag r f = record f { is_regression = true; regressed_from_run_id = r.regressed_from_run_id }

  -- the ids of the unmatched priors whose code has changed; the symbols are those of the first prior's
  -- repository
  unfoldable pub resolved_ids : List CodeSymbol → List (Finding Score) → List String
  resolved_ids symbols [] = []
  resolved_ids symbols (first ∷ others) =
      map (λ p. p.id)
        (filter
          (λ p.
            is_changed (resolve_symbol symbols first.repo_id p.filename p.line)
              p.source_hash_at_insert)
          (first ∷ others))

  abbrev id_of : Finding Score → String
  id_of f = f.id

  module _ (T : KeyedTable (Finding Score) (λ f. f.id)) where
    unfoldable pub write_updates : String → List (PriorUpdate Score) → T.Rows → Option T.Rows
    write_updates run [] t = some t
    write_updates run (u ∷ us) t = elim (T.update u.id (bump run u) t) [
      | none ↦ none
      | some t' ↦ write_updates run us t'
    ]

    unfoldable pub write_regressions : List Regression → T.Rows → Option T.Rows
    write_regressions [] t = some t
    write_regressions (r ∷ rs) t = elim (T.update r.current_finding_id (flag r) t) [
      | none ↦ none
      | some t' ↦ write_regressions rs t'
    ]

    abbrev pub delete_matched : List String → T.Rows → T.Rows
    delete_matched [] t = t
    delete_matched (id ∷ ids) t = T.delete_many (λ f. has (id ∷ ids) f.id) t

    abbrev pub resolve_all : String → List String → T.Rows → T.Rows
    resolve_all run [] t = t
    resolve_all run (id ∷ ids) t = T.update_many (λ f. has (id ∷ ids) f.id) (resolve_at run) t

    abbrev pub resolve_unmatched : List CodeSymbol → String → List (Finding Score) → T.Rows → T.Rows
    resolve_unmatched symbols run priors t = resolve_all run (resolved_ids symbols priors) t

    -- after the queries
    unfoldable pub reconcile_found :
        List CodeSymbol
        → String
        → List (Finding Score)
        → List (Finding Score)
        → List (Finding Score)
        → T.Rows
        → Option T.Rows
    reconcile_found symbols run currents priors resolved_findings t =
        let plan = plan_reconcile currents priors in
        elim (write_updates run plan.matched_prior_updates t) [
          | none ↦ none
          | some bumped ↦ write_regressions (detect_regressions currents resolved_findings) (
              resolve_unmatched symbols run (filter (λ p. has plan.unmatched_prior_ids p.id) priors)
                (delete_matched plan.matched_new_ids bumped))
        ]

    unfoldable pub reconcile_findings_across_runs :
        List CodeSymbol → String → String → T.Rows → Option T.Rows
    reconcile_findings_across_runs symbols pr_id run t =
        reconcile_found symbols run (T.find_many (is_current pr_id run) t)
          (T.find_many (is_prior pr_id run) t) (T.find_many (is_resolved_before pr_id) t) t
