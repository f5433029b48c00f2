-- ===== src/Rejects/Tests.antt =====
-- Three findings: the verifier and the skeptic reject the same one, the skeptic another.
use dragnet.Prelude.{
  String, not, ◌&&◌, none, some, List, [], ◌∷◌, length, count_where, all, ltb, ◌≡◌, refl,
}
use dragnet.Prelude.Dict.{Dict, Distinct, add, has}
use dragnet.Rejects.{
  CandidateFinding, SkepticVerdict, VerdictKind, confirmed, rejected, pos, combine,
  summarize_rejects,
}
use dragnet.Rejects.Survivors.{ids, is_refuted, summarize_rejects-survivors}

abbrev candidate : String → CandidateFinding
candidate id = record {
  id = id;
  category = "Style";
  severity = "warning";
  filename = "a.ts";
  line = some 3;
  explanation = "e";
  source = none;
}

abbrev candidates : List CandidateFinding
candidates = candidate "a" ∷ candidate "b" ∷ candidate "c" ∷ []

abbrev verdict_of : VerdictKind → SkepticVerdict
verdict_of v = record { verdict = v; note = "n"; new_severity = none }

abbrev verdicts : Dict SkepticVerdict
verdicts =
    ("a", verdict_of rejected) ∷ ("b", verdict_of confirmed) ∷ ("c", verdict_of rejected) ∷ []

abbrev refused : List String
refused = "a" ∷ []

one_survives : (summarize_rejects candidates refused verdicts).survivor_count ≡ pos 1
unfolding summarize_rejects combine add has
one_survives = refl

candidates-Distinct : Distinct (ids candidates)
unfolding has
candidates-Distinct = (refl, (refl, (refl, tt)))

summarize_rejects-survivors_example :
    let summary = summarize_rejects candidates refused verdicts in
    (summary.total_rejected ≡ count_where (is_refuted refused verdicts) (ids candidates))
    × (summary.survivor_count
        ≡ pos (count_where (λ k. not (is_refuted refused verdicts k)) (ids candidates)))
    × (summary.all_rejected
        ≡ (ltb 0 (length candidates) && all (is_refuted refused verdicts) (ids candidates)))
unfolding has
summarize_rejects-survivors_example =
    summarize_rejects-survivors candidates refused verdicts candidates-Distinct (refl, tt)
      (refl, tt) (refl, (refl, (refl, tt)))
