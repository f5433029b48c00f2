-- ===== src/Rejects.antt =====
-- What two passes rejected of a scan's findings: src/lib/skepticRating.ts. The confidence of a
-- candidate, a fraction that is not read here, is left out.
pub mod Survivors
mod Tests
use dragnet.Prelude.{
  ℕ, ◌-◌, String, Bool, true, false, Option, List, [], ◌∷◌, length, count_where, eqb, ltb, leb,
  if◌then◌else◌,
}
use dragnet.Prelude.Dict.{Dict, add}

pub record CandidateFinding : Type 0 where
  pub id : String
  pub category : String
  pub severity : String
  pub filename : String
  pub line : Option ℕ
  pub explanation : String
  pub source : Option String

pub data VerdictKind : Type 0 where
  confirmed rejected downgraded : VerdictKind

pub record SkepticVerdict : Type 0 where
  pub verdict : VerdictKind
  pub note : String
  pub new_severity : Option String

-- the integers, over the native numbers
pub data ℤ : Type 0 where
  pos negsuc : ℕ → ℤ

abbrev pub difference : ℕ → ℕ → ℤ
difference a b = if leb b a then pos (a - b) else negsuc (b - a - 1)

abbrev is_zero : ℤ → Bool
is_zero (pos n) = eqb n 0
is_zero (negsuc n) = false

pub record RejectSummary : Type 0 where
  pub total_rejected : ℕ
  pub skeptic_rejected_count : ℕ
  pub verifier_rejected_count : ℕ
  pub survivor_count : ℤ
  pub all_rejected : Bool
  pub any_rejected : Bool
  pub combined_rejected_ids : List String

abbrev pub is_skeptic_rejected : SkepticVerdict → Bool
is_skeptic_rejected verdict = elim verdict.verdict [ rejected ↦ true | _ ↦ false ]

unfoldable pub combine : List String → Dict SkepticVerdict → List String
combine ids [] = ids
combine ids ((id, verdict) ∷ m) =
    combine (if is_skeptic_rejected verdict then add ids id else ids) m

unfoldable pub summarize_rejects :
    List CandidateFinding → List String → Dict SkepticVerdict → RejectSummary
summarize_rejects [] verifier_rejected_ids skeptic_map = record {
  total_rejected = 0;
  skeptic_rejected_count = 0;
  verifier_rejected_count = 0;
  survivor_count = pos 0;
  all_rejected = false;
  any_rejected = false;
  combined_rejected_ids = [];
}
summarize_rejects (candidate ∷ candidates) verifier_rejected_ids skeptic_map =
    let combined = combine verifier_rejected_ids skeptic_map in
    let survivors = difference (length (candidate ∷ candidates)) (length combined) in
    record {
      total_rejected = length combined;
      skeptic_rejected_count =
          count_where (λ (entry : String × SkepticVerdict). is_skeptic_rejected entry.1)
            skeptic_map;
      verifier_rejected_count = length verifier_rejected_ids;
      survivor_count = survivors;
      all_rejected = is_zero survivors;
      any_rejected = ltb 0 (length combined);
      combined_rejected_ids = combined;
    }
