-- ===== src/Stability.antt =====
-- The stability of a pull request over its scans: src/lib/stabilityScore.ts. The thresholds are arguments, as
-- the options and the environment give them; the weights are numbers of JavaScript, which are a parameter.
pub mod Rounds
mod Tests
use mathlib.Core.List.{reverse}
use dragnet.Prelude.{
  ℕ, zero, ◌+◌, String, Bool, true, false, ◌&&◌, not, Option, none, some, List, [], ◌∷◌, leb, eqb,
  ◌==◌, if◌then◌else◌,
}

pub record RatingTrendEntry : Type 0 where
  pub run_id : String
  pub rating : Option ℕ
  pub completed_at : Option ℕ
  pub commit_hash : String
  pub new_findings_count : ℕ
  pub model : Option String

-- the numbers of weights, without laws
pub record Weights : Type 1 where
  pub Weight : Type 0
  pub nothing : Weight
  pub half : Weight
  pub add : Weight → Weight → Weight
  pub at_least : Weight → Weight → Bool

abbrev pub is_rating_reached : ℕ → Option ℕ → Bool
is_rating_reached threshold none = false
is_rating_reached threshold (some rating) = leb threshold rating

abbrev pub is_clean : ℕ → RatingTrendEntry → Bool
is_clean threshold entry =
    is_rating_reached threshold entry.rating && eqb entry.new_findings_count 0

module _ (W : Weights) where
  pub record StabilityResult : Type 0 where
    pub consecutive_clean_rounds : ℕ
    pub ready_to_merge : Bool
    pub last_unstable_run_id : Option String
    pub weighted_stability : W.Weight

  -- `entry.model ? lookupModelTrustWeight(entry.model) : 0.5`
  abbrev pub model_weight : (Option String → W.Weight) → Option String → W.Weight
  model_weight lookup none = W.half
  model_weight lookup (some model) = if model == "" then W.half else lookup (some model)

  -- the loop over the entries, the newest first, with what it has summed up
  unfoldable pub stability_loop :
      (Option String → W.Weight)
      → W.Weight
      → ℕ
      → ℕ
      → W.Weight
      → List RatingTrendEntry
      → StabilityResult
  stability_loop lookup weight_threshold threshold rounds weight [] = record {
    consecutive_clean_rounds = rounds;
    ready_to_merge = W.at_least weight weight_threshold;
    last_unstable_run_id = none;
    weighted_stability = weight;
  }
  stability_loop lookup weight_threshold threshold rounds weight (entry ∷ entries) =
      elim (is_clean threshold entry) [
        | true ↦
            stability_loop lookup weight_threshold threshold (rounds + 1)
              (W.add weight (model_weight lookup entry.model)) entries
        | false ↦ record {
          consecutive_clean_rounds = rounds;
          ready_to_merge = W.at_least weight weight_threshold;
          last_unstable_run_id = some entry.run_id;
          weighted_stability = weight;
        }
      ]

  unfoldable pub compute_stability :
      (Option String → W.Weight) → W.Weight → ℕ → List RatingTrendEntry → StabilityResult
  compute_stability lookup weight_threshold threshold [] = record {
    consecutive_clean_rounds = 0;
    ready_to_merge = false;
    last_unstable_run_id = none;
    weighted_stability = W.nothing;
  }
  compute_stability lookup weight_threshold threshold (entry ∷ entries) =
      stability_loop lookup weight_threshold threshold 0 W.nothing (reverse (entry ∷ entries))

  unfoldable pub weight_loop :
      (Option String → W.Weight) → ℕ → W.Weight → List RatingTrendEntry → W.Weight
  weight_loop lookup threshold weight [] = weight
  weight_loop lookup threshold weight (entry ∷ entries) = elim (is_clean threshold entry) [
    | true ↦ weight_loop lookup threshold (W.add weight (lookup entry.model)) entries
    | false ↦ weight
  ]

  -- the weighted stability, and whether it is enough to merge
  unfoldable pub compute_weighted_stability :
      (Option String → W.Weight) → W.Weight → ℕ → List RatingTrendEntry → W.Weight × Bool
  compute_weighted_stability lookup weight_threshold threshold [] = (W.nothing, false)
  compute_weighted_stability lookup weight_threshold threshold (entry ∷ entries) =
      let weight = weight_loop lookup threshold W.nothing (reverse (entry ∷ entries)) in
      (weight, W.at_least weight weight_threshold)
