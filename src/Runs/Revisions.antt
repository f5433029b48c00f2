-- ===== src/Runs/Revisions.antt =====
-- src/lib/prRevisionStatus.ts: a review counts for the commit that it scanned.
use dragnet.Prelude.{
  ℕ, ◌≤◌, String, Bool, true, false, ◌&&◌, ◌||◌, not, Option, none, some, get_or, List, [], ◌∷◌,
  ltb, count_where, ◌==◌, if◌then◌else◌, ◌≡◌, refl, subst, ap, sym, ◌∙◌, All, arith, Bool-cases,
  inl, inr,
}
use dragnet.Database.{Table, update_where}
use dragnet.Runs.{ReviewRun, in_progress_of, newest_first}

pub record PullRequest : Type 0 where
  pub id : String
  pub status : String
  pub commit_hash : String
  pub rating : Option ℕ

-- the status that a new tip leaves; an empty one is falsy
unfoldable pub status_for_revision : Option String → Option String → String → String
status_for_revision none previous current = "Pending"
status_for_revision (some status) previous current =
    if status == "Completed"
      && not (elim previous [ none ↦ false | some commit ↦ commit == current ])
    then "Pending"
    else if status == ""
    then "Pending"
    else status

-- `{ id: prId, commitHash: scannedCommit }`
abbrev pub is_scanned : String → String → PullRequest → Bool
is_scanned pr_id commit pr = pr.id == pr_id && pr.commit_hash == commit

-- the rows of the last write: the pull request at another commit, not merged and not failed
abbrev pub is_moved_on : String → String → PullRequest → Bool
is_moved_on pr_id commit pr =
    pr.id == pr_id
    && not (pr.commit_hash == commit)
    && not (pr.status == "Merged" || pr.status == "Failed")

-- `rating` is written where it is given; `none` stands for `undefined`, and `some none` for null
abbrev pub as_completed : Option (Option ℕ) → PullRequest → PullRequest
as_completed rating pr = record pr { status = "Completed"; rating = get_or rating pr.rating }

abbrev pub as_pending : PullRequest → PullRequest
as_pending pr = record pr { status = "Pending" }

-- a newer run scans another commit
abbrev pub is_superseded : String → Option ReviewRun → Bool
is_superseded commit none = false
is_superseded commit (some run) = not (run.commit_hash == commit)

module _ (P : Table PullRequest) (T : Table ReviewRun) where
  unfoldable pub after_completion : String → String → Option ReviewRun → P.Rows → Bool × P.Rows
  after_completion pr_id commit active t =
      if is_superseded commit active
      then (false, t)
      else (false, (P.update_many (is_moved_on pr_id commit) as_pending t).1)

  unfoldable pub complete_pr_review_if_current :
      String → String → Option (Option ℕ) → T.Rows → P.Rows → Bool × P.Rows
  complete_pr_review_if_current pr_id commit rating runs t =
      let (written, t') = P.update_many (is_scanned pr_id commit) (as_completed rating) t in
      if ltb 0 written
      then (true, t')
      else after_completion pr_id commit (T.find_first (in_progress_of pr_id) newest_first runs) t'

module _ (pr_id commit : String) where
  -- the row is not the one that was scanned, or it is completed
  abbrev pub is_done_if_scanned : PullRequest → Bool
  is_done_if_scanned pr = not (is_scanned pr_id commit pr) || pr.status == "Completed"

  abbrev pub is_completed_elsewhere : PullRequest → Bool
  is_completed_elsewhere pr = not (pr.commit_hash == commit) && pr.status == "Completed"

  abbrev pub is_closed_elsewhere : PullRequest → Bool
  is_closed_elsewhere pr =
      not (pr.commit_hash == commit) && (pr.status == "Merged" || pr.status == "Failed")

  -- what holds of the rows after the call, of those before it
  abbrev pub IsFair : List PullRequest → List PullRequest → Type 0
  IsFair before after =
      All (λ pr. is_done_if_scanned pr ≡ true) after
      × (count_where is_completed_elsewhere after ≤ count_where is_completed_elsewhere before)
      × (count_where is_closed_elsewhere after ≡ count_where is_closed_elsewhere before)

  as_completed-IsFair :
      (rating : Option (Option ℕ)) (prs : List PullRequest)
      → IsFair prs (update_where (is_scanned pr_id commit) (as_completed rating) prs)
  as_completed-IsFair rating [] = (tt, omega arith, refl)
  as_completed-IsFair rating (pr ∷ prs) =
      let (done, fewer, same) = as_completed-IsFair rating prs in
      elim (Bool-cases (is_scanned pr_id commit pr)) [
        | inl here ↦
            rw here ((ground arith, done), ground (arith, here, fewer), ground (arith, here, same))
        | inr other ↦
            rw other ((ground (arith, other), done), ground (arith, fewer), ground (arith, same))
      ]

  -- the counts of what the last write leaves
  as_pending-counts :
      (prs : List PullRequest)
      → let after = update_where (is_moved_on pr_id commit) as_pending prs in
        (count_where is_completed_elsewhere after ≤ count_where is_completed_elsewhere prs)
        × (count_where is_closed_elsewhere after ≡ count_where is_closed_elsewhere prs)
  as_pending-counts [] = (omega arith, refl)
  as_pending-counts (pr ∷ prs) =
      let (fewer, same) = as_pending-counts prs in
      elim (Bool-cases (is_moved_on pr_id commit pr)) [
        | inl moved ↦ rw moved (ground (arith, moved, fewer), ground (arith, moved, same))
        | inr stays ↦ rw stays (ground (arith, fewer), ground (arith, same))
      ]

  as_pending-done :
      (prs : List PullRequest)
      → All (λ pr. is_done_if_scanned pr ≡ true) prs
      → All
          (λ pr. is_done_if_scanned pr ≡ true)
          (update_where (is_moved_on pr_id commit) as_pending prs)
  as_pending-done [] h = tt
  as_pending-done (pr ∷ prs) h = elim (Bool-cases (is_moved_on pr_id commit pr)) [
    | inl moved ↦ rw moved (ground (arith, moved), as_pending-done prs h.1)
    | inr stays ↦ rw stays (h.0, as_pending-done prs h.1)
  ]

  as_pending-IsFair :
      (before prs : List PullRequest)
      → IsFair before prs
      → IsFair before (update_where (is_moved_on pr_id commit) as_pending prs)
  as_pending-IsFair before prs (done, fewer, same) =
      let (fewer', same') = as_pending-counts prs in
      (as_pending-done prs done, omega (arith, fewer, fewer'), same' ∙ same)

module _ (P : Table PullRequest) (T : Table ReviewRun) (pr_id commit : String) where
  after_completion-IsFair :
      (active : Option ReviewRun) (before : List PullRequest) (t : P.Rows)
      → IsFair pr_id commit before (P.rows t)
      → IsFair pr_id commit before (P.rows (after_completion P T pr_id commit active t).1)
        × ((after_completion P T pr_id commit active t).0 ≡ false)
  unfolding after_completion
  after_completion-IsFair active before t h = elim (Bool-cases (is_superseded commit active)) [
    | inl newer ↦ rw (newer, after_completion) (h, refl)
    | inr current ↦
        rw (current, P.update_many-rows (is_moved_on pr_id commit) as_pending t, after_completion)
          (as_pending-IsFair pr_id commit before (P.rows t) h, refl)
  ]

  -- A finished scan answers yes exactly when the pull request stands at the commit that it scanned, which is
  -- then completed; no pull request at another commit is completed by it, and those that are merged or
  -- failed stay so.
  pub complete_pr_review_if_current-IsFair :
      (rating : Option (Option ℕ)) (runs : T.Rows) (t : P.Rows)
      → let (done, after) = complete_pr_review_if_current P T pr_id commit rating runs t in
        (done ≡ ltb 0 (count_where (is_scanned pr_id commit) (P.rows t)))
        × IsFair pr_id commit (P.rows t) (P.rows after)
  unfolding complete_pr_review_if_current
  complete_pr_review_if_current-IsFair rating runs t =
      let (n, t') = P.update_many (is_scanned pr_id commit) (as_completed rating) t in
      let fair =
        subst (IsFair pr_id commit (P.rows t))
          (sym (P.update_many-rows (is_scanned pr_id commit) (as_completed rating) t))
          (as_completed-IsFair pr_id commit rating (P.rows t)) in
      let counted =
        ap (ltb 0) (P.update_many-count (is_scanned pr_id commit) (as_completed rating) t) in
      elim (Bool-cases (ltb 0 n)) [
        | inl some_row ↦ rw (some_row, complete_pr_review_if_current) (sym some_row ∙ counted, fair)
        | inr no_row ↦
            let (rest, answer) =
              after_completion-IsFair (T.find_first (in_progress_of pr_id) newest_first runs)
                (P.rows t) t' fair in
            rw (no_row, complete_pr_review_if_current) (answer ∙ sym no_row ∙ counted, rest)
      ]
