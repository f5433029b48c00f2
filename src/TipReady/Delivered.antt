-- ===== src/TipReady/Delivered.antt =====
-- A whole delivery: admitAfkAfterTipReady of src/lib/tipReadyAfk.ts.
use dragnet.Prelude.{
  ℕ, ◌≤◌, ◌⊎◌, ltb, String, Bool, true, false, not, ◌&&◌, Option, none, some, List, [], ◌∷◌, filter,
  ◌==◌, if◌then◌else◌, ◌≡◌, refl, arith, Bool-cases, inl, inr,
}
use dragnet.Prelude.Dict.{has, Distinct}
use dragnet.Database.{Table, RowOrder}
use dragnet.ScanQueue.{Job}
use dragnet.TipReady.{RepoLike, GitOutcome, PullRequestTable, order_pr_ids_preferring_event}
use dragnet.TipReady.Delivery.{
  Delivery, DeliveryState, AdmitAfkAfterTipReadyResult, ordered_ids, preferred_of, shared_fetch,
  admit_each, admit_fetched, admit_afk_after_tip_ready,
}
use dragnet.TipReady.Pinned.{HoldsTip}
use dragnet.TipReady.Jobs.{OneEach, count_of}
use dragnet.TipReady.Admitted.{each-OneEach, each-HoldsTip}

has-filter_absent :
    (p : String → Bool) (xs : List String) (k : String)
    → has xs k ≡ false
    → has (filter p xs) k ≡ false
unfolding has
has-filter_absent p [] k h = refl
has-filter_absent p (x ∷ xs) k h = ground (arith, h, has-filter_absent p xs k (ground (arith, h)))

has-filter_itself : (xs : List String) (k : String) → has (filter (λ x. not (x == k)) xs) k ≡ false
unfolding has
has-filter_itself [] k = refl
has-filter_itself (x ∷ xs) k = ground (arith, has-filter_itself xs k)

filter-Distinct : (p : String → Bool) (xs : List String) → Distinct xs → Distinct (filter p xs)
filter-Distinct p [] d = tt
filter-Distinct p (x ∷ xs) d = elim (Bool-cases (p x)) [
  | inl stays ↦ rw stays (has-filter_absent p xs x d.0, filter-Distinct p xs d.1)
  | inr goes ↦ rw goes (filter-Distinct p xs d.1)
]

order-Distinct :
    (xs : List String) (preferred : Option String)
    → Distinct xs
    → Distinct (order_pr_ids_preferring_event xs preferred)
unfolding order_pr_ids_preferring_event
order-Distinct xs none d = d
order-Distinct xs (some k) d = elim (Bool-cases (k == "")) [
  | inl empty ↦ rw (empty, order_pr_ids_preferring_event) d
  | inr given ↦ elim (Bool-cases (has xs k)) [
    | inr absent ↦ rw (given, absent, order_pr_ids_preferring_event) d
    | inl there ↦
        rw (given, there, order_pr_ids_preferring_event)
          (has-filter_itself xs k, filter-Distinct (λ x. not (x == k)) xs d)
  ]
]

ordered_ids-Distinct :
    (d : Delivery) (preferred : Option String)
    → Distinct d.pr_ids
    → Distinct (ordered_ids d preferred)
ordered_ids-Distinct d none once = order-Distinct d.pr_ids none once
ordered_ids-Distinct d (some k) once = elim (Bool-cases (not (k == "") && not (has d.pr_ids k))) [
  | inl missing ↦
      rw missing (order-Distinct (k ∷ d.pr_ids) (some k) (ground (arith, missing), once))
  | inr there ↦ rw there (order-Distinct d.pr_ids (some k) once)
]

module _ (J : Table Job) (ids : RowOrder String) (is_auto_rescan_enabled : String → Bool)
    (new_id : String → String) (now : ℕ) (P : PullRequestTable) (G : Type 0)
    (run_git : RepoLike → List String → G → GitOutcome × G) (d : Delivery) where
  abbrev State : Type 0
  State = DeliveryState P G run_git J ids is_auto_rescan_enabled new_id now

  abbrev pub count : String → String → J.Rows → ℕ
  count = count_of J ids is_auto_rescan_enabled new_id now

  abbrev pub AtMostOne : J.Rows → Type 0
  AtMostOne = OneEach J ids is_auto_rescan_enabled new_id now

  abbrev pub deliver : P.Rows → J.Rows → G → AdmitAfkAfterTipReadyResult × State
  deliver = admit_afk_after_tip_ready P G run_git J ids is_auto_rescan_enabled new_id now d

  -- there is one job at most, and one was only added for the tip that is stored at the end
  abbrev pub Follows : J.Rows → String → String → State → Type 0
  Follows jobs pr commit after =
      (count pr commit after.jobs ≤ 1)
      × ((count pr commit after.jobs ≤ count pr commit jobs)
          ⊎ HoldsTip P commit (P.find_unique pr after.prs))

  admit_fetched-Follows :
      (preferred : Option String) (is_ok : Bool) (s : State) (pr commit : String)
      → Distinct d.pr_ids
      → AtMostOne s.jobs
      → Follows s.jobs pr commit
          (admit_fetched P G run_git J ids is_auto_rescan_enabled new_id now d preferred is_ok s).1
  unfolding admit_fetched
  admit_fetched-Follows preferred false s pr commit once one = (one pr commit, inl (omega arith))
  admit_fetched-Follows preferred true s pr commit once one =
      let listed = ordered_ids d preferred in
      let after =
        admit_each P G run_git J ids is_auto_rescan_enabled new_id now d preferred listed s in
      (
        each-OneEach J ids is_auto_rescan_enabled new_id now P G run_git d preferred listed s one pr
            commit,
        elim (Bool-cases (ltb (count pr commit s.jobs) (count pr commit after.jobs))) [
          | inr same ↦ inl (ground (arith, same))
          | inl grew ↦ inr (
              each-HoldsTip J ids is_auto_rescan_enabled new_id now P G run_git d preferred listed s
                (ordered_ids-Distinct d preferred once) one pr commit (ground (arith, grew)))
        ],
      )

  either-Follows :
      (b : Bool) (jobs : J.Rows) (pr commit : String) (x y : AdmitAfkAfterTipReadyResult × State)
      → Follows jobs pr commit x.1
      → Follows jobs pr commit y.1
      → Follows jobs pr commit (if b then x else y).1
  either-Follows true jobs pr commit x y h k = h
  either-Follows false jobs pr commit x y h k = k

  -- The delivery lists each pull request once, and before it there was at most one job for each revision. Then
  -- after it there is still at most one for each, and a job was added only for a revision that is the stored
  -- tip of its pull request at the end, space at the ends of the commit aside.
  pub admit_afk_after_tip_ready-Follows :
      (prs : P.Rows) (jobs : J.Rows) (git : G) (pr commit : String)
      → Distinct d.pr_ids
      → AtMostOne jobs
      → Follows jobs pr commit (deliver prs jobs git).1
  unfolding admit_afk_after_tip_ready
  admit_afk_after_tip_ready-Follows prs jobs git pr commit once one =
      let preferred = preferred_of P G run_git J ids is_auto_rescan_enabled new_id now d prs in
      let (is_ok, git') =
        shared_fetch P G run_git J ids is_auto_rescan_enabled new_id now d (ordered_ids d preferred)
          git in
      let start : State = record {
        prs = prs;
        jobs = jobs;
        git = git';
        admitted = 0;
        tip_ready_failed = [];
      } in
      either-Follows d.is_clone_failed jobs pr commit _ _ (one pr commit, inl (omega arith))
        (admit_fetched-Follows preferred is_ok start pr commit once one)
