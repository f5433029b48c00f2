-- ===== src/Stability/Rounds.antt =====
-- What the stability of a pull request (src/lib/stabilityScore.ts) counts, and that its two computations agree.
use mathlib.Core.List.{reverse}
use dragnet.Prelude.{
  ℕ, ◌+◌, String, true, false, Option, none, some, List, [], ◌∷◌, ◌++◌, All, length, ap, sym, ◌≡◌,
  refl, arith, Bool-cases, inl, inr,
}
use dragnet.Stability.{
  RatingTrendEntry, is_clean, Weights, StabilityResult, model_weight, stability_loop,
  compute_stability, weight_loop, compute_weighted_stability,
}

module _ (W : Weights) (lookup : Option String → W.Weight) (weight_threshold : W.Weight)
    (threshold : ℕ) where
  -- the sum of the weights, in the order of the loop
  abbrev pub sum_weights : W.Weight → List RatingTrendEntry → W.Weight
  sum_weights weight [] = weight
  sum_weights weight (entry ∷ entries) =
      sum_weights (W.add weight (model_weight W lookup entry.model)) entries

  -- what is reported of the entries before the run
  abbrev pub Stops : List RatingTrendEntry → Option String → Type 0
  Stops [] last = last ≡ none
  Stops (entry ∷ entries) last = (is_clean threshold entry ≡ false) × (last ≡ some entry.run_id)

  -- the entries, the newest first, are a run of clean ones and the rest, and the result is that of the run
  abbrev pub IsNewestRun : ℕ → W.Weight → List RatingTrendEntry → StabilityResult W → Type 0
  IsNewestRun rounds weight entries result =
      (clean : List RatingTrendEntry) × (rest : List RatingTrendEntry) × (entries ≡ clean ++ rest)
      × (All (λ entry. is_clean threshold entry ≡ true) clean)
      × (Stops rest result.last_unstable_run_id)
      × (result.consecutive_clean_rounds ≡ rounds + length clean)
      × (result.weighted_stability ≡ sum_weights weight clean)

  abbrev loop : ℕ → W.Weight → List RatingTrendEntry → StabilityResult W
  loop = stability_loop W lookup weight_threshold threshold

  longer :
      (rounds : ℕ) (weight : W.Weight) (entry : RatingTrendEntry) (entries : List RatingTrendEntry)
      (result : StabilityResult W)
      → is_clean threshold entry ≡ true
      → IsNewestRun (rounds + 1) (W.add weight (model_weight W lookup entry.model)) entries result
      → IsNewestRun rounds weight (entry ∷ entries) result
  longer rounds weight entry entries result clean (run, rest, split, all_clean, stops, count, sum) =
      (
        entry ∷ run,
        rest,
        ap (λ xs. entry ∷ xs) split,
        (clean, all_clean),
        stops,
        omega (arith, count),
        sum,
      )

  stability_loop-IsNewestRun :
      (entries : List RatingTrendEntry) (rounds : ℕ) (weight : W.Weight)
      → IsNewestRun rounds weight entries (loop rounds weight entries)
  unfolding stability_loop
  stability_loop-IsNewestRun [] rounds weight = ([], [], refl, tt, refl, omega arith, refl)
  stability_loop-IsNewestRun (entry ∷ entries) rounds weight =
      elim (Bool-cases (is_clean threshold entry)) [
        | inr unclean ↦
            rw (unclean, stability_loop)
              ([], entry ∷ entries, refl, tt, (unclean, refl), omega arith, refl)
        | inl clean ↦
            let weight_here = W.add weight (model_weight W lookup entry.model) in
            rw (clean, stability_loop)
              (longer rounds weight entry entries (loop (rounds + 1) weight_here entries) clean
                (stability_loop-IsNewestRun entries (rounds + 1) weight_here))
      ]

  -- The rounds that count are the longest run of clean scans from the newest one back: each of them is rated at
  -- least the threshold and found nothing new, the scan before them, if any, did not and is the one that is
  -- reported as unstable, and the weight is the sum of theirs.
  pub compute_stability-IsNewestRun :
      (trend : List RatingTrendEntry)
      → IsNewestRun 0 W.nothing
          (reverse trend)
          (compute_stability W lookup weight_threshold threshold trend)
  unfolding compute_stability
  compute_stability-IsNewestRun [] = ([], [], refl, tt, refl, refl, refl)
  compute_stability-IsNewestRun (entry ∷ entries) =
      stability_loop-IsNewestRun (reverse (entry ∷ entries)) 0 W.nothing

  weight_loop-same :
      (neutral : (model : Option String) → model_weight W lookup model ≡ lookup model)
      (entries : List RatingTrendEntry) (rounds : ℕ) (weight : W.Weight)
      → let result = loop rounds weight entries in
        (weight_loop W lookup threshold weight entries ≡ result.weighted_stability)
        × (result.ready_to_merge ≡ W.at_least result.weighted_stability weight_threshold)
  unfolding stability_loop weight_loop
  weight_loop-same neutral [] rounds weight = (refl, refl)
  weight_loop-same neutral (entry ∷ entries) rounds weight =
      elim (Bool-cases (is_clean threshold entry)) [
        | inr unclean ↦ rw (unclean, stability_loop, weight_loop) (refl, refl)
        | inl clean ↦
            let weight_here = W.add weight (model_weight W lookup entry.model) in
            rw (clean, stability_loop, weight_loop, sym (neutral entry.model))
              (weight_loop-same neutral entries (rounds + 1) weight_here)
      ]

  -- Where the lookup gives a half for a model that is missing or has no name, and both computations have the same
  -- thresholds, they agree on the weight and on whether it is enough to merge.
  compute_weighted_stability-same :
      (neutral : (model : Option String) → model_weight W lookup model ≡ lookup model)
      (trend : List RatingTrendEntry)
      → let result = compute_stability W lookup weight_threshold threshold trend in
        compute_weighted_stability W lookup weight_threshold threshold trend
        ≡ (result.weighted_stability, result.ready_to_merge)
  unfolding compute_stability compute_weighted_stability
  compute_weighted_stability-same neutral [] = refl
  compute_weighted_stability-same neutral (entry ∷ entries) =
      let (same, ready) = weight_loop-same neutral (reverse (entry ∷ entries)) 0 W.nothing in
      rw (same, ready) refl
