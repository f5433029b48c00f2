-- ===== src/TipReady/Admitted.antt =====
-- The jobs that a delivery adds to the queue: admitAfkAfterTipReady of src/lib/tipReadyAfk.ts with admitAfkScanJob of
-- src/services/scanQueue.ts.
use dragnet.Prelude.{
  ℕ, ◌<◌, String, Bool, false, Option, List, [], ◌∷◌, ◌==◌, ◌≡◌, refl, sym, ap, subst, ◌∙◌, arith,
  eq_iff, eq_refl, Bool-cases, inl, inr,
}
use dragnet.Prelude.Dict.{has, Distinct}
use dragnet.Database.{Table, RowOrder}
use dragnet.ScanQueue.{Job}
use dragnet.TipReady.{RepoLike, TipReadyResult, ready, not_ready, GitOutcome, PullRequestTable}
use dragnet.TipReady.Jobs
use dragnet.TipReady.Jobs.{admit-other, admit-OneEach}
use dragnet.TipReady.Delivery.{Delivery, DeliveryState, tip_of, admit_tip, admit_one, admit_each}
use dragnet.TipReady.Pinned.{HoldsTip, IsPinned}
use dragnet.TipReady.Ready.{tip_of-IsPinned}
use dragnet.TipReady.Others.{tip_of-Same}

module _ (J : Table Job) (ids : RowOrder String) (is_auto_rescan_enabled : String → Bool)
    (new_id : String → String) (now : ℕ) (P : PullRequestTable) (G : Type 0)
    (run_git : RepoLike → List String → G → GitOutcome × G) (d : Delivery)
    (preferred : Option String) where
  abbrev count_of : String → String → J.Rows → ℕ
  count_of = Jobs.count_of J ids is_auto_rescan_enabled new_id now

  abbrev OneEach : J.Rows → Type 0
  OneEach = Jobs.OneEach J ids is_auto_rescan_enabled new_id now

  abbrev State : Type 0
  State = DeliveryState P G run_git J ids is_auto_rescan_enabled new_id now

  abbrev tip_step : String → TipReadyResult → State → State
  tip_step = admit_tip P G run_git J ids is_auto_rescan_enabled new_id now d

  abbrev step : String → State → State
  step = admit_one P G run_git J ids is_auto_rescan_enabled new_id now d preferred

  abbrev each : List String → State → State
  each = admit_each P G run_git J ids is_auto_rescan_enabled new_id now d preferred

  tip_step-OneEach :
      (pr_id : String) (tip : TipReadyResult) (s : State)
      → OneEach s.jobs
      → OneEach (tip_step pr_id tip s).jobs
  unfolding admit_tip
  tip_step-OneEach pr_id (not_ready gate) s one = one
  tip_step-OneEach pr_id (ready head mode) s one =
      admit-OneEach J ids is_auto_rescan_enabled new_id now pr_id d.repo_id head d.trigger_reason
        s.jobs one

  tip_step-prs :
      (pr_id : String) (tip : TipReadyResult) (s : State) → (tip_step pr_id tip s).prs ≡ s.prs
  unfolding admit_tip
  tip_step-prs pr_id (not_ready gate) s = refl
  tip_step-prs pr_id (ready head mode) s = refl

  tip_step-other :
      (pr_id pr commit : String) (tip : TipReadyResult) (s : State)
      → OneEach s.jobs
      → (pr_id == pr) ≡ false
      → count_of pr commit (tip_step pr_id tip s).jobs ≡ count_of pr commit s.jobs
  unfolding admit_tip
  tip_step-other pr_id pr commit (not_ready gate) s one other = refl
  tip_step-other pr_id pr commit (ready head mode) s one other =
      admit-other J ids is_auto_rescan_enabled new_id now pr_id d.repo_id head d.trigger_reason pr
        commit s.jobs one (rw other refl)

  -- only a job for the tip that is ready is added
  tip_step-HoldsTip :
      (pr_id commit : String) (tip : TipReadyResult) (s : State)
      → OneEach s.jobs
      → IsPinned P pr_id tip s.prs
      → count_of pr_id commit s.jobs < count_of pr_id commit (tip_step pr_id tip s).jobs
      → HoldsTip P commit (P.find_unique pr_id s.prs)
  unfolding admit_tip
  tip_step-HoldsTip pr_id commit (not_ready gate) s one pinned grew = absurd (omega (arith, grew))
  tip_step-HoldsTip pr_id commit (ready head mode) s one pinned grew =
      elim (Bool-cases (head == commit)) [
        | inl same ↦
            subst (λ c. HoldsTip P c (P.find_unique pr_id s.prs)) ((eq_iff head commit).0 same)
              pinned
        | inr other ↦ absurd (
            omega (
              arith,
              grew,
              admit-other J ids is_auto_rescan_enabled new_id now pr_id d.repo_id head
                  d.trigger_reason pr_id commit s.jobs one (rw (eq_refl pr_id, other) refl),
            ))
      ]

  step-OneEach : (pr_id : String) (s : State) → OneEach s.jobs → OneEach (step pr_id s).jobs
  unfolding admit_one
  step-OneEach pr_id s one =
      let (tip, prs, git) = tip_of P G run_git d preferred pr_id s.prs s.git in
      tip_step-OneEach pr_id tip (record s { prs = prs; git = git }) one

  -- another pull request keeps its row and its jobs
  abbrev Kept : String → String → State → State → Type 0
  Kept pr commit before after =
      (P.find_unique pr after.prs ≡ P.find_unique pr before.prs)
      × (count_of pr commit after.jobs ≡ count_of pr commit before.jobs)

  step-Kept :
      (pr_id pr commit : String) (s : State)
      → OneEach s.jobs
      → (pr_id == pr) ≡ false
      → Kept pr commit s (step pr_id s)
  unfolding admit_one
  step-Kept pr_id pr commit s one other =
      let (tip, prs, git) = tip_of P G run_git d preferred pr_id s.prs s.git in
      let begun : State = record s { prs = prs; git = git } in
      (
        ap (P.find_unique pr) (tip_step-prs pr_id tip begun)
            ∙ tip_of-Same P G run_git pr_id pr other d preferred s.prs s.git,
        tip_step-other pr_id pr commit tip begun one other,
      )

  step-HoldsTip :
      (pr_id commit : String) (s : State)
      → OneEach s.jobs
      → count_of pr_id commit s.jobs < count_of pr_id commit (step pr_id s).jobs
      → HoldsTip P commit (P.find_unique pr_id (step pr_id s).prs)
  unfolding admit_one
  step-HoldsTip pr_id commit s one grew =
      let (tip, prs, git) = tip_of P G run_git d preferred pr_id s.prs s.git in
      let begun : State = record s { prs = prs; git = git } in
      subst (λ (t : P.Rows). HoldsTip P commit (P.find_unique pr_id t))
        (sym (tip_step-prs pr_id tip begun))
        (tip_step-HoldsTip pr_id commit tip begun one
          (tip_of-IsPinned P G run_git d preferred pr_id s.prs s.git) grew)

  each-Kept :
      (pr_ids : List String) (pr commit : String) (s : State)
      → OneEach s.jobs
      → has pr_ids pr ≡ false
      → Kept pr commit s (each pr_ids s)
  unfolding admit_each has
  each-Kept [] pr commit s one absent = (refl, refl)
  each-Kept (p ∷ ps) pr commit s one absent =
      let (row, jobs) = step-Kept p pr commit s one (ground (arith, absent)) in
      let (row_after, jobs_after) =
        each-Kept ps pr commit (step p s) (step-OneEach p s one) (ground (arith, absent)) in
      (row_after ∙ row, jobs_after ∙ jobs)

  pub each-OneEach :
      (pr_ids : List String) (s : State) → OneEach s.jobs → OneEach (each pr_ids s).jobs
  unfolding admit_each
  each-OneEach [] s one = one
  each-OneEach (p ∷ ps) s one = each-OneEach ps (step p s) (step-OneEach p s one)

  -- a revision for which a job was added is that of its pull request's tip at the end
  pub each-HoldsTip :
      (pr_ids : List String) (s : State)
      → Distinct pr_ids
      → OneEach s.jobs
      → (pr commit : String) → count_of pr commit s.jobs < count_of pr commit (each pr_ids s).jobs
      → HoldsTip P commit (P.find_unique pr (each pr_ids s).prs)
  unfolding admit_each
  each-HoldsTip [] s distinct one pr commit grew = absurd (omega (arith, grew))
  each-HoldsTip (p ∷ ps) s distinct one pr commit grew = elim (Bool-cases (p == pr)) [
    | inr other ↦
        let (row, jobs) = step-Kept p pr commit s one other in
        each-HoldsTip ps (step p s) distinct.1 (step-OneEach p s one) pr commit
          (omega (arith, grew, jobs))
    | inl same ↦
        let here : p ≡ pr = (eq_iff p pr).0 same in
        let (row, jobs) = each-Kept ps p commit (step p s) (step-OneEach p s one) distinct.0 in
        let grew_here : count_of p commit s.jobs < count_of p commit (each ps (step p s)).jobs =
          subst (λ k. count_of k commit s.jobs < count_of k commit (each ps (step p s)).jobs)
            (sym here) grew in
        subst (λ k. HoldsTip P commit (P.find_unique k (each ps (step p s)).prs)) here
          (subst (HoldsTip P commit) (sym row)
            (step-HoldsTip p commit s one (omega (arith, grew_here, jobs))))
  ]
