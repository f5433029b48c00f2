-- ===== src/Stability/Tests.antt =====
-- Three clean scans after one that is not, with weights in tenths.
use Prim.Native.Nat.{◌+◌}
use dragnet.Prelude.{
  ℕ, String, Option, none, some, List, [], ◌∷◌, leb, if◌then◌else◌, ◌==◌, ◌≡◌, refl,
}
use mathlib.Core.List.{reverse}
use dragnet.Stability.{RatingTrendEntry, Weights, compute_stability, stability_loop}
use dragnet.Stability.Rounds.{IsNewestRun, compute_stability-IsNewestRun}

abbrev tenths : Weights
tenths = record { Weight = ℕ; nothing = 0; half = 5; add = λ a b. a + b; at_least = λ a b. leb b a }

abbrev entry : String → ℕ → Option String → RatingTrendEntry
entry id rating model = record {
  run_id = id;
  rating = some rating;
  completed_at = none;
  commit_hash = "c";
  new_findings_count = 0;
  model = model;
}

abbrev trend : List RatingTrendEntry
trend =
    entry "r0" 9 none
    ∷ entry "r1" 4 none
    ∷ entry "r2" 8 none
    ∷ entry "r3" 9 (some "claude-opus")
    ∷ entry "r4" 9 (some "")
    ∷ []

abbrev lookup : Option String → ℕ
lookup none = 5
lookup (some model) = if model == "" then 5 else 10

counts_three : (compute_stability tenths lookup 25 8 trend).consecutive_clean_rounds ≡ 3
unfolding compute_stability stability_loop
counts_three = refl

compute_stability-IsNewestRun_example :
    IsNewestRun tenths lookup 25 8 0 0 (reverse trend) (compute_stability tenths lookup 25 8 trend)
compute_stability-IsNewestRun_example = compute_stability-IsNewestRun tenths lookup 25 8 trend
