-- ===== src/Reconcile/Plan.antt =====
-- What the plan of a reconciliation (planReconcile and detectRegressions in
-- src/services/largePrReview/reconcile.ts) holds.
use dragnet.Prelude.{
  ℕ, suc, ◌+◌, ◌≤◌, String, Bool, ◌&&◌, not, Option, none, some, List, [], ◌∷◌, length, count_where,
  ◌==◌, if◌then◌else◌, ◌≡◌, refl, ap, subst, All, arith, Bool-cases, Option-cases, inl, inr,
}
use dragnet.Prelude.Dict.{Dict, get, set, delete, has, add}
use dragnet.Reconcile.{
  Finding, plan_priors, plan_prior, plan_reconcile, index, put, find_match, detect_one, detect_loop,
  is_regression_of, same_text, truthy,
}

abbrev OnSome : {A : Type 0} → (A → Type 0) → Option A → Type 0
OnSome P none = Unit
OnSome P (some a) = P a

module _ {Score : Type 0} (P : String → Type 0) where
  pub plan_priors-updates :
      (m : Dict (Finding Score)) (ps : List (Finding Score))
      → All (λ p. P p.id) ps
      → All (λ u. P u.id) (plan_priors m ps).matched_prior_updates
  unfolding plan_priors plan_prior
  plan_priors-updates m [] h = tt
  plan_priors-updates m (p ∷ ps) h = elim (Option-cases p.fingerprint) [
    | inl e ↦ rw (e, plan_prior) (plan_priors-updates m ps h.1)
    | inr (key, e) ↦ elim (Bool-cases (key == "")) [
      | inl empty ↦ rw (e, empty, plan_prior) (plan_priors-updates m ps h.1)
      | inr full ↦ elim (Option-cases (get m key)) [
        | inl lost ↦ rw (e, full, lost, plan_prior) (plan_priors-updates m ps h.1)
        | inr (f, found) ↦
            rw (e, full, found, plan_prior) (h.0, plan_priors-updates (delete m key) ps h.1)
      ]
    ]
  ]

  find_match-OnSome :
      (consumed : List String) (key : String) (cs : List (Finding Score))
      → All (λ x. P x.id) cs
      → OnSome (λ c. P c.id) (find_match consumed key cs)
  unfolding find_match
  find_match-OnSome consumed key [] h = tt
  find_match-OnSome consumed key (x ∷ cs) h =
      elim (Bool-cases
        (not (has consumed x.id) && (truthy x.fingerprint && same_text x.fingerprint (some key)))) [
          | inl hit ↦ rw (hit, find_match) h.0
          | inr miss ↦ rw (miss, find_match) (find_match-OnSome consumed key cs h.1)
        ]

  detect_one-OnSome :
      (cs : List (Finding Score)) (consumed : List String) (p : Finding Score)
      → All (λ x. P x.id) cs
      → OnSome (λ r. P r.current_finding_id) (detect_one cs consumed p)
  unfolding detect_one
  detect_one-OnSome cs consumed p h = elim (Option-cases p.fingerprint) [
    | inl e ↦ rw (e, detect_one) tt
    | inr (key, e) ↦ elim (Option-cases (find_match consumed key cs)) [
      | inl lost ↦ rw (e, lost, detect_one) tt
      | inr (c, hit) ↦ elim (Bool-cases (is_regression_of c p)) [
        | inl yes_again ↦
            rw (e, hit, yes_again, detect_one)
              (subst (OnSome (λ x. P x.id)) hit (find_match-OnSome consumed key cs h))
        | inr same ↦ rw (e, hit, same, detect_one) tt
      ]
    ]
  ]

  pub detect_loop-ids :
      (cs : List (Finding Score)) (consumed : List String) (ps : List (Finding Score))
      → All (λ x. P x.id) cs
      → All (λ r. P r.current_finding_id) (detect_loop cs consumed ps)
  unfolding detect_loop
  detect_loop-ids cs consumed [] h = tt
  detect_loop-ids cs consumed (p ∷ ps) h = elim (Option-cases (detect_one cs consumed p)) [
    | inl e ↦ rw (e, detect_loop) (detect_loop-ids cs consumed ps h)
    | inr (r, e) ↦
        rw (e, detect_loop)
          (
            subst (OnSome (λ x. P x.current_finding_id)) e (detect_one-OnSome cs consumed p h),
            detect_loop-ids cs (add consumed r.current_finding_id) ps h,
          )
  ]

abbrev one_if : Bool → ℕ
one_if b = if b then 1 else 0

OnSome-map :
    {A : Type 0} (P Q : A → Type 0) (o : Option A) → ((a : A) → P a → Q a) → OnSome P o → OnSome Q o
OnSome-map P Q none f h = tt
OnSome-map P Q (some a) f h = f a h

module _ {Score : Type 0} (k : String) where
  -- how many entries of the map are findings with the id
  abbrev entries : Dict (Finding Score) → ℕ
  entries m = count_where (λ e. e.1.id == k) m

  entries-set :
      (m : Dict (Finding Score)) (key : String) (f : Finding Score)
      → entries (set m key f) ≤ entries m + one_if (f.id == k)
  unfolding set
  entries-set [] key f = ground arith
  entries-set ((j, g) ∷ m) key f = ground (arith, entries-set m key f)

  entries-put :
      (m : Dict (Finding Score)) (key : Option String) (f : Finding Score)
      → entries (put m key f) ≤ entries m + one_if (f.id == k)
  entries-put m none f = ground arith
  entries-put m (some key) f = ground (arith, entries-set m key f)

  entries-index :
      (m : Dict (Finding Score)) (fs : List (Finding Score))
      → entries (index m fs) ≤ entries m + count_where (λ f. f.id == k) fs
  unfolding index
  entries-index m [] = omega arith
  entries-index m (f ∷ fs) =
      ground (arith, entries-index (put m f.fingerprint f) fs, entries-put m f.fingerprint f)

  entries-delete_mono :
      (m : Dict (Finding Score)) (key : String) → entries (delete m key) ≤ entries m
  unfolding delete
  entries-delete_mono [] key = omega arith
  entries-delete_mono ((j, g) ∷ m) key = ground (arith, entries-delete_mono m key)

  entries-delete :
      (m : Dict (Finding Score)) (key : String)
      → OnSome (λ f. one_if (f.id == k) + entries (delete m key) ≤ entries m) (get m key)
  unfolding get delete
  entries-delete [] key = tt
  entries-delete ((j, g) ∷ m) key = elim (Bool-cases (j == key)) [
    | inl here ↦ rw (here, get) (ground (arith, entries-delete_mono m key))
    | inr there ↦
        rw (there, get)
          (OnSome-map (λ f. one_if (f.id == k) + entries (delete m key) ≤ entries m)
            (λ f. one_if (f.id == k) + entries ((j, g) ∷ delete m key) ≤ entries ((j, g) ∷ m))
            (get m key) (λ f h. ground (arith, h)) (entries-delete m key))
  ]

  plan_priors-counts :
      (m : Dict (Finding Score)) (ps : List (Finding Score))
      → let plan = plan_priors m ps in
        (count_where (λ u. u.id == k) plan.matched_prior_updates
            + count_where (λ i. i == k) plan.unmatched_prior_ids
          ≡ count_where (λ p. p.id == k) ps)
        × (count_where (λ i. i == k) plan.matched_new_ids ≤ entries m)
  unfolding plan_priors plan_prior
  plan_priors-counts m [] = (refl, omega arith)
  plan_priors-counts m (p ∷ ps) = elim (Option-cases p.fingerprint) [
    | inl e ↦
        rw (e, plan_prior)
          (ground (arith, (plan_priors-counts m ps).0), (plan_priors-counts m ps).1)
    | inr (key, e) ↦ elim (Bool-cases (key == "")) [
      | inl empty ↦
          rw (e, empty, plan_prior)
            (ground (arith, (plan_priors-counts m ps).0), (plan_priors-counts m ps).1)
      | inr full ↦ elim (Option-cases (get m key)) [
        | inl lost ↦
            rw (e, full, lost, plan_prior)
              (ground (arith, (plan_priors-counts m ps).0), (plan_priors-counts m ps).1)
        | inr (f, found) ↦
            rw (e, full, found, plan_prior)
              (let less =
                  subst (OnSome (λ x. one_if (x.id == k) + entries (delete m key) ≤ entries m))
                    found (entries-delete m key) in
                let (all_kept, few) = plan_priors-counts (delete m key) ps in
                (ground (arith, all_kept), ground (arith, few, less)))
      ]
    ]
  ]

plan_priors-length :
    {Score : Type 0} (m : Dict (Finding Score)) (ps : List (Finding Score))
    → length (plan_priors m ps).matched_new_ids ≡ length (plan_priors m ps).matched_prior_updates
unfolding plan_priors plan_prior
plan_priors-length m [] = refl
plan_priors-length m (p ∷ ps) = elim (Option-cases p.fingerprint) [
  | inl e ↦ rw (e, plan_prior) (plan_priors-length m ps)
  | inr (key, e) ↦ elim (Bool-cases (key == "")) [
    | inl empty ↦ rw (e, empty, plan_prior) (plan_priors-length m ps)
    | inr full ↦ elim (Option-cases (get m key)) [
      | inl lost ↦ rw (e, full, lost, plan_prior) (plan_priors-length m ps)
      | inr (f, found) ↦
          rw (e, full, found, plan_prior) (ap suc (plan_priors-length (delete m key) ps))
    ]
  ]
]

-- A plan keeps every open finding of earlier runs exactly once, as matched or as unmatched, and deletes no
-- finding of the current run more often than it was found; it updates one earlier finding for each that
-- it deletes.
plan_reconcile-counts :
    {Score : Type 0} (currents priors : List (Finding Score)) (k : String)
    → let plan = plan_reconcile currents priors in
      (count_where (λ u. u.id == k) plan.matched_prior_updates
          + count_where (λ i. i == k) plan.unmatched_prior_ids
        ≡ count_where (λ p. p.id == k) priors)
      × (count_where (λ i. i == k) plan.matched_new_ids ≤ count_where (λ c. c.id == k) currents)
      × (length plan.matched_new_ids ≡ length plan.matched_prior_updates)
unfolding plan_reconcile
plan_reconcile-counts currents priors k =
    let (all_kept, few) = plan_priors-counts k (index [] currents) priors in
    (
      all_kept,
      omega (arith, few, entries-index k [] currents),
      plan_priors-length (index [] currents) priors,
    )
