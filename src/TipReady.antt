-- ===== src/TipReady.antt =====
-- The tips of pull requests that a delivery of a webhook or of the poller brings: src/lib/tipReadyAfk.ts. The
-- table of pull requests and git, which takes and returns its own state, are parameters. The review tree and the
-- overlay, whose failure is only logged, are left out, and so are the texts of reasons.
pub mod Tips
pub mod Delivery
pub mod Pinned
pub mod Ready
pub mod Others
pub mod Jobs
pub mod Admitted
pub mod Delivered
mod Tests
use Prim.Native.Char.{Char, code}
use Prim.Native.String.{count}
use Prim.Native.String
use dragnet.Prelude.{
  ℕ, String, Bool, true, false, not, ◌&&◌, ◌||◌, Option, none, some, get_or, List, [], ◌∷◌, ◌++◌,
  filter, leb, eqb, ◌==◌, is_some, if◌then◌else◌, ◌≡◌,
}
use dragnet.Prelude.Dict.{has}
use dragnet.Prelude.Text.{trim}

pub record RepoLike : Type 0 where
  pub id : String
  pub path : Option String
  pub clone_url : Option String

pub record PullRequestRow : Type 0 where
  pub id : String
  pub repo_id : String
  pub github_pr_number : Option ℕ
  pub source_branch : String
  pub target_branch : String
  pub commit_hash : String
  pub status : String

pub data TipReadyGate : Type 0 where
  clone_failed tip_context_failed : TipReadyGate

pub data TipMode : Type 0 where
  from_clone hash_only : TipMode

pub data TipReadyResult : Type 0 where
  ready : String → TipMode → TipReadyResult
  not_ready : TipReadyGate → TipReadyResult

pub record EventPrHint : Type 0 where
  pub github_pr_number : Option ℕ
  pub source_branch : Option String
  pub head_sha : Option String
  pub head_ref : Option String
  pub base_ref : Option String

pub record UpdateTipHashResult : Type 0 where
  pub previous : Option String
  pub is_updated : Bool
  pub head_sha : String
  pub is_missing : Bool

pub data GitOutcome : Type 0 where
  ran : ℕ → String → GitOutcome
  throws : GitOutcome

-- the table of pull requests; an update is made of a row that was found
pub record PullRequestTable : Type 1 where
  pub Rows : Type 0
  pub find_unique : String → Rows → Option PullRequestRow
  pub find_first : (PullRequestRow → Bool) → Rows → Option PullRequestRow
  pub update : String → String → String → Rows → Rows
  pub find_unique-update :
      (k j commit status : String) (t : Rows)
      → find_unique j (update k commit status t) ≡ (
          if k == j
          then elim (find_unique j t) [
            | none ↦ none
            | some r ↦ some (record r { commit_hash = commit; status = status })
          ]
          else find_unique j t)

-- `/^[0-9a-f]{7,40}$/i`
is_hex : String → Bool
is_hex String.[] = true
is_hex (String.◌∷◌ c s) =
    let n = code c in
    ((leb 48 n && leb n 57) || (leb 97 n && leb n 102) || (leb 65 n && leb n 70)) && is_hex s

unfoldable pub is_sha : String → Bool
unfolding is_hex
is_sha s = leb 7 (count s) && leb (count s) 40 && is_hex s

abbrev pub truthy : Option String → Bool
truthy none = false
truthy (some s) = not (s == "")

-- `a || b`
abbrev pub or_text : Option String → String → String
or_text none b = b
or_text (some a) b = if a == "" then b else a

unfoldable pub order_pr_ids_preferring_event : List String → Option String → List String
order_pr_ids_preferring_event pr_ids none = pr_ids
order_pr_ids_preferring_event pr_ids (some preferred) =
    if preferred == ""
    then pr_ids
    else if not (has pr_ids preferred)
    then pr_ids
    else preferred ∷ filter (λ id. not (id == preferred)) pr_ids

abbrev pub has_clone_access : Option RepoLike → Bool
has_clone_access none = false
has_clone_access (some repo) = truthy repo.path || truthy repo.clone_url

-- `ref?.trim()`, empty where there is none
abbrev pub trimmed : Option String → String
trimmed ref = trim (get_or ref "")

abbrev pub refspec : String → String
refspec ref = String.◌++◌ "+refs/heads/" (String.◌++◌ ref (String.◌++◌ ":refs/remotes/origin/" ref))

abbrev pub refspecs : String → String → List String
refspecs head base =
    (if head == "" then [] else refspec head ∷ [])
    ++ (if base == "" || base == head then [] else refspec base ∷ [])

-- what may name the head, in the order in which it is tried
abbrev pub head_candidates : String → String → List String
head_candidates head_sha head =
    head_sha
    ∷ (if head == ""
        then []
        else head
          ∷ String.◌++◌ "refs/remotes/origin/" head
          ∷ String.◌++◌ "origin/" head
          ∷ String.◌++◌ "refs/heads/" head
          ∷ [])

abbrev pub commit_at : GitOutcome → Option String
commit_at throws = none
commit_at (ran exit_code stdout) =
    if eqb exit_code 0 && is_sha (trim stdout) then some (trim stdout) else none
