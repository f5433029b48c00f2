-- ===== src/TipReady/Delivery.antt =====
-- Admission after the tips are ready: admitAfkAfterTipReady of src/lib/tipReadyAfk.ts, over the jobs of the queue.
-- `new_id` gives the id of a new job, and `now` is the time of the delivery.
use dragnet.Prelude.{
  ℕ, ◌+◌, String, Bool, true, false, not, ◌&&◌, Option, none, some, get_or, List, [], ◌∷◌, ◌++◌,
  ◌==◌, is_some, if◌then◌else◌, eqb,
}
use dragnet.Prelude.Dict
use dragnet.Prelude.Dict.{Dict, has}
use dragnet.Prelude.Text.{trim}
use dragnet.Database.{Table, RowOrder}
use dragnet.ScanQueue.{Job}
use dragnet.ScanQueue.Control.{admit_afk_scan_job}
use dragnet.TipReady.{
  RepoLike, PullRequestRow, TipReadyGate, TipReadyResult, ready, not_ready, clone_failed,
  tip_context_failed, EventPrHint, GitOutcome, PullRequestTable, order_pr_ids_preferring_event,
  has_clone_access, or_text, truthy,
}
use dragnet.TipReady.Tips.{
  find_pr_id_for_event, update_given, fetch_head_and_base, resolve_and_pin, ensure_tip_ready,
}

abbrev pub is_none {ℓ} : {A : Type ℓ} → List A → Bool
is_none [] = true
is_none (x ∷ xs) = false

pub record AdmitAfkAfterTipReadyResult : Type 0 where
  pub admitted : ℕ
  pub preferred_pr_id : Option String
  pub is_error : Bool
  pub tip_ready_failed : List (String × TipReadyGate)

pub record Delivery : Type 0 where
  pub repo_id : String
  pub pr_ids : List String
  pub trigger_reason : String
  pub repo : Option RepoLike
  pub event : Option EventPrHint
  pub provider_tips : Dict String
  pub is_clone_failed : Bool

abbrev pub head_sha_of : Option EventPrHint → Option String
head_sha_of none = none
head_sha_of (some event) = event.head_sha

abbrev pub head_ref_of : Option EventPrHint → Option String
head_ref_of none = none
head_ref_of (some event) = event.head_ref

abbrev pub base_ref_of : Option EventPrHint → Option String
base_ref_of none = none
base_ref_of (some event) = event.base_ref

abbrev pub is_preferred : String → Option String → Bool
is_preferred pr_id none = false
is_preferred pr_id (some preferred) = pr_id == preferred

-- `(isPreferred ? event.headSha : undefined) || providerTips?.[prId]`
abbrev pub provider_head_sha_of : Delivery → Option String → String → Option String
provider_head_sha_of d preferred pr_id =
    let own = if is_preferred pr_id preferred then head_sha_of d.event else none in
    if truthy own then own else Dict.get d.provider_tips pr_id

abbrev pub repo_of : Delivery → RepoLike
repo_of d = get_or d.repo (record { id = d.repo_id; path = none; clone_url = none })

-- the pull requests of the delivery, the one of the event in front
abbrev pub ordered_ids : Delivery → Option String → List String
ordered_ids d none = order_pr_ids_preferring_event d.pr_ids none
ordered_ids d (some preferred) =
    order_pr_ids_preferring_event
      (if not (preferred == "") && not (has d.pr_ids preferred)
        then preferred ∷ d.pr_ids
        else d.pr_ids)
      (some preferred)

module _ (P : PullRequestTable) (G : Type 0)
    (run_git_in_repo : RepoLike → List String → G → GitOutcome × G) where
  -- with a clone, after the fetch of the delivery
  unfoldable pub tip_of_clone :
      RepoLike
      → String
      → Option PullRequestRow
      → Option String
      → Option String
      → P.Rows
      → G
      → TipReadyResult × P.Rows × G
  tip_of_clone repo pr_id none provider_head_sha head_ref t g = (not_ready tip_context_failed, t, g)
  tip_of_clone repo pr_id (some pr) provider_head_sha head_ref t g =
      let head_sha = trim (or_text provider_head_sha pr.commit_hash) in
      if head_sha == ""
      then (not_ready tip_context_failed, t, g)
      else resolve_and_pin P G run_git_in_repo repo pr_id head_sha
          (some (or_text head_ref pr.source_branch))
          (update_given P G run_git_in_repo pr_id (get_or provider_head_sha "") t) g

  unfoldable pub tip_of :
      Delivery → Option String → String → P.Rows → G → TipReadyResult × P.Rows × G
  tip_of d preferred pr_id t g =
      let provider_head_sha = provider_head_sha_of d preferred pr_id in
      if not (has_clone_access d.repo)
      then ensure_tip_ready P G run_git_in_repo (repo_of d) pr_id provider_head_sha none none
          (some false) t g
      else tip_of_clone (repo_of d) pr_id (P.find_unique pr_id t) provider_head_sha
          (if is_preferred pr_id preferred then head_ref_of d.event else none) t g

module _ (P : PullRequestTable) (G : Type 0)
    (run_git_in_repo : RepoLike → List String → G → GitOutcome × G) (J : Table Job)
    (ids : RowOrder String) (is_auto_rescan_enabled : String → Bool) (new_id : String → String)
    (now : ℕ) where
  -- the rows that a delivery reads and writes, and what it has counted
  pub record DeliveryState : Type 0 where
    pub prs : P.Rows
    pub jobs : J.Rows
    pub git : G
    pub admitted : ℕ
    pub tip_ready_failed : List (String × TipReadyGate)

  -- a tip that is ready is admitted; null, where the policy disables it, is not counted
  unfoldable pub admit_tip : Delivery → String → TipReadyResult → DeliveryState → DeliveryState
  admit_tip d pr_id (not_ready gate) s = record s {
    tip_ready_failed = s.tip_ready_failed ++ (pr_id, gate) ∷ [];
  }
  admit_tip d pr_id (ready head_sha mode) s =
      let (job, jobs) =
        admit_afk_scan_job J ids is_auto_rescan_enabled (new_id pr_id) now pr_id d.repo_id head_sha
          d.trigger_reason s.jobs in
      record s { jobs = jobs; admitted = if is_some job then s.admitted + 1 else s.admitted }

  unfoldable pub admit_one : Delivery → Option String → String → DeliveryState → DeliveryState
  admit_one d preferred pr_id s =
      let (tip, prs, git) = tip_of P G run_git_in_repo d preferred pr_id s.prs s.git in
      admit_tip d pr_id tip (record s { prs = prs; git = git })

  unfoldable pub admit_each : Delivery → Option String → List String → DeliveryState → DeliveryState
  admit_each d preferred [] s = s
  admit_each d preferred (pr_id ∷ pr_ids) s =
      admit_each d preferred pr_ids (admit_one d preferred pr_id s)

  -- `error` is there where some tip failed and nothing was admitted; a query does not fail
  abbrev pub result_of : Option String → DeliveryState → AdmitAfkAfterTipReadyResult
  result_of preferred s = record {
    admitted = s.admitted;
    preferred_pr_id = preferred;
    is_error = not (is_none s.tip_ready_failed) && eqb s.admitted 0;
    tip_ready_failed = s.tip_ready_failed;
  }

  -- one fetch for the delivery, where there is a clone and something to admit
  unfoldable pub shared_fetch : Delivery → List String → G → Bool × G
  shared_fetch d pr_ids g =
      if has_clone_access d.repo && not (is_none pr_ids)
      then fetch_head_and_base P G run_git_in_repo (repo_of d) (head_ref_of d.event)
          (base_ref_of d.event) g
      else (true, g)

  abbrev pub fetch_failed : Option String → AdmitAfkAfterTipReadyResult
  fetch_failed preferred = record {
    admitted = 0;
    preferred_pr_id = preferred;
    is_error = true;
    tip_ready_failed = ("*", clone_failed) ∷ [];
  }

  abbrev pub preferred_of : Delivery → P.Rows → Option String
  preferred_of d prs = elim d.event [
    | none ↦ none
    | some event ↦ find_pr_id_for_event P d.repo_id event prs
  ]

  unfoldable pub admit_fetched :
      Delivery → Option String → Bool → DeliveryState → AdmitAfkAfterTipReadyResult × DeliveryState
  admit_fetched d preferred false s = (fetch_failed preferred, s)
  admit_fetched d preferred true s =
      let after = admit_each d preferred (ordered_ids d preferred) s in
      (result_of preferred after, after)

  unfoldable pub admit_afk_after_tip_ready :
      Delivery → P.Rows → J.Rows → G → AdmitAfkAfterTipReadyResult × DeliveryState
  admit_afk_after_tip_ready d prs jobs git =
      let start : DeliveryState = record {
        prs = prs;
        jobs = jobs;
        git = git;
        admitted = 0;
        tip_ready_failed = [];
      } in
      if d.is_clone_failed
      then (
        record { admitted = 0; preferred_pr_id = none; is_error = true; tip_ready_failed = [] },
        start,
      )
      else let preferred = preferred_of d prs in
        let (is_ok, git') = shared_fetch d (ordered_ids d preferred) git in
        admit_fetched d preferred is_ok (record start { git = git' })
