-- ===== src/TipReady/Jobs.antt =====
-- The jobs that one AFK request adds to the queue: admitAfkScanJob of src/services/scanQueue.ts.
use dragnet.Prelude.{
  ℕ, ◌≤◌, String, Bool, false, ◌&&◌, ◌==◌, count_where, ◌≡◌, refl, subst, arith, eq_iff, Bool-cases,
  inl, inr,
}
use dragnet.Database.{Table, RowOrder}
use dragnet.ScanQueue.{Job}
use dragnet.ScanQueue.Admit.{is_revision}
use dragnet.ScanQueue.Admission.{admit_jobs-one_each}
use dragnet.ScanQueue.Control.{afk_request, admit_afk_scan_job}

-- a revision of another pull request
other_revision : (pr_id head : String) → (pr : String) × ((pr_id == pr && head == "") ≡ false)
other_revision pr_id head = elim (Bool-cases (pr_id == "")) [
  | inr other ↦ ("", rw other refl)
  | inl empty ↦ ("x", rw ((eq_iff pr_id "").0 empty) refl)
]

module _ (J : Table Job) (ids : RowOrder String) (is_auto_rescan_enabled : String → Bool)
    (new_id : String → String) (now : ℕ) where
  abbrev pub count_of : String → String → J.Rows → ℕ
  count_of pr commit t = count_where (is_revision pr commit) (J.rows t)

  -- at most one job for each revision
  abbrev pub OneEach : J.Rows → Type 0
  OneEach t = (pr commit : String) → count_of pr commit t ≤ 1

  abbrev pub admit : String → String → String → String → J.Rows → J.Rows
  admit pr_id repo_id head reason t =
      (admit_afk_scan_job J ids is_auto_rescan_enabled (new_id pr_id) now pr_id repo_id head reason
        t).1

  pub admit-other :
      (pr_id repo_id head reason pr commit : String) (t : J.Rows)
      → OneEach t
      → (pr_id == pr && head == commit) ≡ false
      → count_of pr commit (admit pr_id repo_id head reason t) ≡ count_of pr commit t
  unfolding admit_afk_scan_job
  admit-other pr_id repo_id head reason pr commit t one other =
      elim (Bool-cases (is_auto_rescan_enabled repo_id)) [
        | inr off ↦ rw (off, admit, admit_afk_scan_job) refl
        | inl on ↦
            rw (on, admit, admit_afk_scan_job)
              (admit_jobs-one_each J ids (new_id pr_id) now (afk_request pr_id repo_id head reason)
                t pr commit (one pr_id head) other).1
      ]

  admit-own :
      (pr_id repo_id head reason : String) (t : J.Rows)
      → OneEach t
      → count_of pr_id head (admit pr_id repo_id head reason t) ≤ 1
  unfolding admit_afk_scan_job
  admit-own pr_id repo_id head reason t one = elim (Bool-cases (is_auto_rescan_enabled repo_id)) [
    | inr off ↦ rw (off, admit, admit_afk_scan_job) (one pr_id head)
    | inl on ↦
        let (pr, other) = other_revision pr_id head in
        let (single, _) =
          admit_jobs-one_each J ids (new_id pr_id) now (afk_request pr_id repo_id head reason) t pr
            "" (one pr_id head) other in
        rw (on, admit, admit_afk_scan_job) (omega (arith, single))
  ]

  pub admit-OneEach :
      (pr_id repo_id head reason : String) (t : J.Rows)
      → OneEach t
      → OneEach (admit pr_id repo_id head reason t)
  admit-OneEach pr_id repo_id head reason t one pr commit =
      elim (Bool-cases (pr_id == pr && head == commit)) [
        | inr other ↦
            omega
              (arith, admit-other pr_id repo_id head reason pr commit t one other, one pr commit)
        | inl same ↦
            let same_pr : pr_id ≡ pr = (eq_iff pr_id pr).0 (ground (arith, same)) in
            let same_commit : head ≡ commit = (eq_iff head commit).0 (ground (arith, same)) in
            subst (λ k. count_of k commit (admit pr_id repo_id head reason t) ≤ 1) same_pr
              (subst (λ c. count_of pr_id c (admit pr_id repo_id head reason t) ≤ 1) same_commit
                (admit-own pr_id repo_id head reason t one))
      ]
