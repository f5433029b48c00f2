-- ===== src/TipReady/Tests.antt =====
-- A push event for a pull request of a repository with a clone whose local branch is behind.
use dragnet.Prelude.{
  ℕ, String, Bool, true, false, Option, none, some, List, [], ◌∷◌, ◌==◌, if◌then◌else◌, ◌≡◌, refl,
  arith,
}
use dragnet.Prelude.Text.{trim}
use dragnet.Prelude.Dict.{has}
use dragnet.Database.{RowOrder}
use dragnet.Database.ListTable.{list_table}
use dragnet.ScanQueue.{Job}
use dragnet.TipReady.{
  RepoLike, PullRequestRow, ready, from_clone, GitOutcome, ran, PullRequestTable, is_sha,
  order_pr_ids_preferring_event,
}
use dragnet.TipReady.Tips.{resolve_and_pin, rev_parse_head, try_candidates, pin}
use dragnet.TipReady.Delivery.{Delivery}
use dragnet.TipReady.Delivered.{Follows, deliver, admit_afk_after_tip_ready-Follows}

abbrev Rows : Type 0
Rows = String → Option PullRequestRow

abbrev write : String → String → String → Rows → Rows
write k commit status t j =
    if k == j
    then elim (t j) [
      | none ↦ none
      | some r ↦ some (record r { commit_hash = commit; status = status })
    ]
    else t j

abbrev matching : (PullRequestRow → Bool) → Option PullRequestRow → Option PullRequestRow
matching p none = none
matching p (some r) = if p r then some r else none

abbrev table : PullRequestTable
table = record {
  Rows = Rows;
  find_unique = λ k t. t k;
  find_first = λ p t. matching p (t "pr1");
  update = write;
  find_unique-update = λ k j commit status t. refl;
}

abbrev pr1 : PullRequestRow
pr1 = record {
  id = "pr1";
  repo_id = "r1";
  github_pr_number = some 7;
  source_branch = "feature";
  target_branch = "main";
  commit_hash = "aaaaaaa";
  status = "Completed";
}

abbrev prs : Rows
prs k = if k == "pr1" then some pr1 else none

-- git only knows the local branch, at a commit from before the push
-- git knows the local branch alone, at a commit from before the push
abbrev answer : List String → GitOutcome
answer args =
    if has args "feature^{commit}"
    then ran 0 "0123abc\n"
    else if has args "fetch"
    then ran 0 ""
    else ran 1 ""

abbrev behind : RepoLike → List String → ℕ → GitOutcome × ℕ
behind repo args g = (answer args, g)

abbrev clone : RepoLike
clone = record { id = "r1"; path = some "/repos/r1"; clone_url = none }

-- the provider's tip is not found, and the pull request is pinned to the old commit of the local branch
pins_old_commit :
    (resolve_and_pin table ℕ behind clone "pr1" "fedcba9" (some "feature") prs 0).0
    ≡ ready "0123abc" from_clone
unfolding resolve_and_pin rev_parse_head try_candidates pin has trim is_sha
pins_old_commit = refl

prefers_event :
    order_pr_ids_preferring_event ("a" ∷ "b" ∷ "c" ∷ []) (some "b") ≡ "b" ∷ "a" ∷ "c" ∷ []
unfolding order_pr_ids_preferring_event has
prefers_event = refl

abbrev any_order : RowOrder String
any_order = record {
  before = λ a b. false;
  before_asym = λ a b h. refl;
  before_neg_trans = λ a b c h k. refl;
}

abbrev always : String → Bool
always repo_id = true

abbrev push : Delivery
push = record {
  repo_id = "r1";
  pr_ids = "pr1" ∷ [];
  trigger_reason = "webhook";
  repo = some clone;
  event = some (record {
    github_pr_number = some 7;
    source_branch = none;
    head_sha = some "fedcba9";
    head_ref = some "feature";
    base_ref = some "main";
  });
  provider_tips = [];
  is_clone_failed = false;
}

abbrev new_id : String → String
new_id pr_id = "job"

admit_afk_after_tip_ready-Follows_example :
    Follows
      (list_table Job)
      any_order
      always
      new_id
      5
      table
      ℕ
      behind
      push
      []
      "pr1"
      "0123abc"
      (deliver (list_table Job) any_order always new_id 5 table ℕ behind push prs [] 0).1
unfolding has
admit_afk_after_tip_ready-Follows_example =
    admit_afk_after_tip_ready-Follows (list_table Job) any_order always new_id 5 table ℕ behind push
      prs [] 0 "pr1" "0123abc" (refl, tt) (λ pr commit. omega arith)
