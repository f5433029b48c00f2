-- ===== src/LargePrReview/Conservation.antt =====
-- Every code file is in one chunk of the plan that src/services/largePrReview/chunker.ts makes.
use dragnet.Prelude.{
  ℕ, suc, ◌+◌, String, Bool, ◌&&◌, Option, get_or, List, [], ◌∷◌, ◌++◌, filter, count_where, ltb,
  ◌≡◌, refl, ap, arith, Bool-cases, inl, inr, count_where-append,
}
use dragnet.Database.{RowOrder}
use dragnet.LargePrReview.{
  FileClassification, ChunkPlan, is_code, insert, sort, flush, fill, is_filled, to_plans,
  chunk_diff, chunk_line_cap,
}

abbrev pub concat : List (List FileClassification) → List FileClassification
concat [] = []
concat (group ∷ groups) = group ++ concat groups

-- the files of a plan, in the order of its chunks
abbrev pub files_of : List ChunkPlan → List FileClassification
files_of [] = []
files_of (plan ∷ plans) = plan.files ++ files_of plans

module _ (p : FileClassification → Bool) where
  -- the files of the groups that pass the test
  abbrev count_in : List (List FileClassification) → ℕ
  count_in groups = count_where p (concat groups)

  count_in-flush :
      (current : List FileClassification) (groups : List (List FileClassification))
      → count_in (flush current groups) ≡ count_where p current + count_in groups
  count_in-flush [] groups = omega arith
  count_in-flush (file ∷ files) groups =
      ground (arith, count_where-append p (file ∷ files) (concat groups))

  count_in-fill :
      (limit : ℕ) (current : List FileClassification) (lines : ℕ) (files : List FileClassification)
      → count_in (fill limit current lines files) ≡ count_where p current + count_where p files
  unfolding fill
  count_in-fill limit current lines [] = count_in-flush current []
  count_in-fill limit current lines (file ∷ rest) = elim (Bool-cases (ltb limit file.line_count)) [
    | inl big ↦
        rw (big, fill)
          (ground (
            arith,
            count_in-flush current ((file ∷ []) ∷ fill limit [] 0 rest),
            count_in-fill limit [] 0 rest,
          ))
    | inr small ↦ elim (Bool-cases (is_filled current && ltb limit (lines + file.line_count))) [
      | inl full ↦
          rw (small, full, fill)
            (ground (
              arith,
              count_where-append p current (concat (fill limit (file ∷ []) file.line_count rest)),
              count_in-fill limit (file ∷ []) file.line_count rest,
            ))
      | inr room ↦
          rw (small, room, fill)
            (ground (
              arith,
              count_where-append p current (file ∷ []),
              count_in-fill limit (current ++ file ∷ []) (lines + file.line_count) rest,
            ))
    ]
  ]

  count_where-insert :
      (locale : RowOrder String) (file : FileClassification) (files : List FileClassification)
      → count_where p (insert locale file files) ≡ count_where p (file ∷ files)
  unfolding insert
  count_where-insert locale file [] = refl
  count_where-insert locale file (first ∷ rest) =
      ground (arith, count_where-insert locale file rest)

  count_where-sort :
      (locale : RowOrder String) (files : List FileClassification)
      → count_where p (sort locale files) ≡ count_where p files
  unfolding sort
  count_where-sort locale [] = refl
  count_where-sort locale (file ∷ files) =
      ground
        (arith, count_where-insert locale file (sort locale files), count_where-sort locale files)

  count_where-filter :
      (q : FileClassification → Bool) (files : List FileClassification)
      → count_where p (filter q files) ≡ count_where (λ x. q x && p x) files
  count_where-filter q [] = refl
  count_where-filter q (file ∷ files) = ground (arith, count_where-filter q files)

files_of-to_plans :
    (n : ℕ) (groups : List (List FileClassification)) → files_of (to_plans n groups) ≡ concat groups
unfolding to_plans
files_of-to_plans n [] = refl
files_of-to_plans n (group ∷ groups) = ap (λ rest. group ++ rest) (files_of-to_plans (suc n) groups)

-- A plan drops, adds and duplicates no file: of the files that pass any test, the chunks hold together
-- as many as there are code files that pass it in the diff, for every cap.
pub count_where-chunk_diff :
    (p : FileClassification → Bool) (locale : RowOrder String) (limit : Option ℕ)
    (files : List FileClassification)
    → count_where p (files_of (chunk_diff locale limit files))
      ≡ count_where (λ file. is_code file && p file) files
unfolding chunk_diff
count_where-chunk_diff p locale limit files =
    let sorted = sort locale (filter is_code files) in
    ground (
      arith,
      ap (count_where p) (files_of-to_plans 1 (fill (get_or limit chunk_line_cap) [] 0 sorted)),
      count_in-fill p (get_or limit chunk_line_cap) [] 0 sorted,
      count_where-sort p locale (filter is_code files),
      count_where-filter p is_code files,
    )
