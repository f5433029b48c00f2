-- ===== src/LargePrReview/Tests.antt =====
-- The plan of a small diff, and the theorems on it.
use dragnet.Prelude.{
  ℕ, String, Bool, false, ◌&&◌, none, get_or, List, [], ◌∷◌, count_where, ltb, ◌≡◌, refl, All,
}
use dragnet.Database.{RowOrder}
use dragnet.LargePrReview.{
  FileClass, code, docs, FileClassification, ChunkPlan, is_code, chunk_diff, chunk_line_cap,
}
use dragnet.LargePrReview
use dragnet.LargePrReview.Conservation.{files_of, count_where-chunk_diff}
use dragnet.LargePrReview.Sizes.{IsBounded, IsTight, groups_of, chunk_diff-sizes}

-- an order that tells no texts apart
abbrev flat : RowOrder String
flat = record {
  before = λ a b. false;
  before_asym = λ a b h. refl;
  before_neg_trans = λ a b c h k. refl;
}

abbrev source_file : String → ℕ → FileClass → FileClassification
source_file name lines kind = record {
  filename = name;
  package_key = "app";
  type_bucket = "ts";
  line_count = lines;
  file_class = kind;
}

abbrev diff : List FileClassification
diff =
    source_file "a.ts" 400 code
    ∷ source_file "README.md" 90 docs
    ∷ source_file "b.ts" 300 code
    ∷ source_file "c.ts" 250 code
    ∷ source_file "d.ts" 900 code
    ∷ []

plan_of_diff :
    groups_of (chunk_diff flat none diff)
    ≡ (source_file "a.ts" 400 code ∷ [])
      ∷ (source_file "b.ts" 300 code ∷ source_file "c.ts" 250 code ∷ [])
      ∷ (source_file "d.ts" 900 code ∷ [])
      ∷ []
unfolding chunk_diff LargePrReview.fill LargePrReview.sort LargePrReview.insert
    LargePrReview.precedes LargePrReview.to_plans
plan_of_diff = refl

abbrev is_long : FileClassification → Bool
is_long file = ltb 260 file.line_count

count_where-chunk_diff_example :
    count_where is_long (files_of (chunk_diff flat none diff))
    ≡ count_where (λ file. is_code file && is_long file) diff
count_where-chunk_diff_example = count_where-chunk_diff is_long flat none diff

chunk_diff-sizes_example :
    All (IsBounded (get_or none chunk_line_cap)) (groups_of (chunk_diff flat none diff))
    × IsTight (get_or none chunk_line_cap) (groups_of (chunk_diff flat none diff))
chunk_diff-sizes_example = chunk_diff-sizes flat none diff
