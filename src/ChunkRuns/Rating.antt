-- ===== src/ChunkRuns/Rating.antt =====
-- The rating of a run of chunks (src/services/largePrReview/aggregator.ts).
use dragnet.Prelude.{
  ℕ, suc, ◌+◌, ◌*◌, ◌≤◌, ◌<◌, max, true, Option, get_or, List, [], ◌∷◌, filter, ltb, ◌||◌, ◌≡◌, All,
  arith, Option-cases, Bool-cases, All-filter, inl, inr,
}
use native.Mathlib.Nat.{mul-add, mul-le-mul_right, le-div_iff_mul-le, div-lt_iff_lt-mul}
use dragnet.ChunkRuns.{Chunk}
use dragnet.ChunkRuns.Aggregate.{
  is_rated, weight, weighted_total, round_div, rating_of_rated, weighted_rating, aggregate_results,
  coverage_of, is_security, reliability_of,
}

module _ (low high : ℕ) where
  -- where the chunk has a rating, it lies between the two
  abbrev pub IsBetween : Option ℕ → Type 0
  IsBetween rating = (low ≤ get_or rating low) × (get_or rating high ≤ high)

  weigh_lower : (r m t w : ℕ) → low ≤ r → low * w ≤ t → low * (m + w) ≤ r * m + t
  weigh_lower r m t w h k = omega (arith, mul-le-mul_right m h, mul-add low m w, k)

  weigh_upper : (r m t w : ℕ) → r ≤ high → t ≤ high * w → r * m + t ≤ high * (m + w)
  weigh_upper r m t w h k = omega (arith, mul-le-mul_right m h, mul-add high m w, k)

  abbrev IsRatedBetween : Chunk → Type 0
  IsRatedBetween c = IsBetween c.rating × (is_rated c ≡ true)

  totals :
      (cs : List Chunk)
      → All IsRatedBetween cs
      → (low * weight cs ≤ weighted_total cs) × (weighted_total cs ≤ high * weight cs)
  totals [] h = (omega arith, omega arith)
  totals (c ∷ cs) h = elim (Option-cases c.rating) [
    | inl e ↦ absurd (ground (arith, h.0.1, e))
    | inr (r, e) ↦ rw e (
      weigh_lower r (max 1 c.line_count) (weighted_total cs) (weight cs) (ground (arith, e, h.0.0))
          (totals cs h.1).0,
      weigh_upper r (max 1 c.line_count) (weighted_total cs) (weight cs) (ground (arith, e, h.0.0))
          (totals cs h.1).1,
    )
  ]

  round_div-between :
      (t w : ℕ)
      → 0 < w
      → low * w ≤ t
      → t ≤ high * w
      → (low ≤ round_div t w) × (round_div t w ≤ high)
  unfolding round_div
  round_div-between t w pos lower upper = (
    (le-div_iff_mul-le {k = 2 * w} {x = low} {y = 2 * t + w} (omega arith)).1
        (omega (arith, lower)),
    omega (
      arith,
      (div-lt_iff_lt-mul {k = 2 * w} {x = 2 * t + w} {y = suc high} (omega arith)).1
          (omega (arith, upper)),
    ),
  )

  rating_of_rated-IsBetween :
      (cs : List Chunk) → All IsRatedBetween cs → IsBetween (rating_of_rated cs)
  rating_of_rated-IsBetween [] h = (omega arith, omega arith)
  rating_of_rated-IsBetween (c ∷ cs) h =
      let (lower, upper) = totals (c ∷ cs) h in
      round_div-between (weighted_total (c ∷ cs)) (weight (c ∷ cs)) (omega arith) lower upper

-- The rating of a run lies between any two bounds that the ratings of its chunks keep.
pub aggregate_results-IsBetween :
    (low high : ℕ) (chunks : List Chunk)
    → All (λ c. IsBetween low high c.rating) chunks
    → IsBetween low high (aggregate_results chunks).rating
unfolding aggregate_results weighted_rating
aggregate_results-IsBetween low high chunks h =
    elim (Bool-cases
      (ltb 0 (coverage_of chunks).chunks_incomplete || is_security (reliability_of chunks))) [
        | inl null ↦ rw (null, aggregate_results) (omega arith, omega arith)
        | inr rated ↦
            rw (rated, aggregate_results)
              (rating_of_rated-IsBetween low high (filter is_rated chunks)
                (All-filter (λ c. IsBetween low high c.rating) is_rated chunks h))
      ]
