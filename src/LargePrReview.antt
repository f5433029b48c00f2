-- ===== src/LargePrReview.antt =====
-- src/services/largePrReview/chunker.ts: how the code files of a large diff are put into chunks. A chunk
-- keeps its number, its files and its lines; the label, the sorted paths and the security flag, which are
-- read off the files, are left out. `localeCompare` is an argument, as an order of texts.
pub mod Conservation
pub mod Sizes
mod Tests
use dragnet.Prelude.{
  ℕ, suc, ◌+◌, String, Bool, true, false, ◌&&◌, Option, none, some, get_or, List, [], ◌∷◌, ◌++◌,
  filter, ltb, if◌then◌else◌,
}
use dragnet.Database.{RowOrder}

pub data FileClass : Type 0 where
  code docs generated lock vendor : FileClass

pub record FileClassification : Type 0 where
  pub filename : String
  pub package_key : String
  pub type_bucket : String
  pub line_count : ℕ
  pub file_class : FileClass

pub record ChunkPlan : Type 0 where
  pub index : ℕ
  pub files : List FileClassification
  pub line_count : ℕ

abbrev pub chunk_line_cap : ℕ
chunk_line_cap = 600

abbrev pub is_code : FileClassification → Bool
is_code file = elim file.file_class [ code ↦ true | _ ↦ false ]

-- `files.reduce((sum, file) => sum + file.lineCount, 0)`
abbrev pub lines_of : List FileClassification → ℕ
lines_of [] = 0
lines_of (file ∷ files) = file.line_count + lines_of files

module _ (locale : RowOrder String) where
  -- `compareFiles(a, b) < 0`
  unfoldable pub precedes : FileClassification → FileClassification → Bool
  precedes a b =
      if locale.before a.package_key b.package_key
      then true
      else if locale.before b.package_key a.package_key
      then false
      else if locale.before a.type_bucket b.type_bucket
      then true
      else if locale.before b.type_bucket a.type_bucket
      then false
      else locale.before a.filename b.filename

  -- before the first file that does not come before it, so that equal files keep their order
  unfoldable pub insert : FileClassification → List FileClassification → List FileClassification
  insert file [] = file ∷ []
  insert file (first ∷ rest) =
      let later = insert file rest in
      if precedes first file then first ∷ later else file ∷ first ∷ rest

  -- `.sort(compareFiles)`
  unfoldable pub sort : List FileClassification → List FileClassification
  sort [] = []
  sort (file ∷ files) = insert file (sort files)

-- `if (current.length > 0) groups.push(current)`, before the groups that follow
abbrev pub flush :
    List FileClassification → List (List FileClassification) → List (List FileClassification)
flush [] groups = groups
flush (file ∷ files) groups = (file ∷ files) ∷ groups

abbrev pub is_filled : List FileClassification → Bool
is_filled [] = false
is_filled (_ ∷ _) = true

-- the loop over the files, with the chunk that is being filled and its lines
unfoldable pub fill :
    ℕ → List FileClassification → ℕ → List FileClassification → List (List FileClassification)
fill cap current current_lines [] = flush current []
fill cap current current_lines (file ∷ rest) = elim (ltb cap file.line_count) [
  | true ↦ flush current ((file ∷ []) ∷ fill cap [] 0 rest)
  | false ↦ elim (is_filled current && ltb cap (current_lines + file.line_count)) [
    | true ↦ current ∷ fill cap (file ∷ []) file.line_count rest
    | false ↦ fill cap (current ++ file ∷ []) (current_lines + file.line_count) rest
  ]
]

unfoldable pub to_plans : ℕ → List (List FileClassification) → List ChunkPlan
to_plans n [] = []
to_plans n (group ∷ groups) =
    record { index = n; files = group; line_count = lines_of group } ∷ to_plans (suc n) groups

-- `chunkDiff`, without the warnings of `verifyChunkPlan`
unfoldable pub chunk_diff : RowOrder String → Option ℕ → List FileClassification → List ChunkPlan
chunk_diff locale cap files =
    to_plans 1 (fill (get_or cap chunk_line_cap) [] 0 (sort locale (filter is_code files)))
