-- ===== src/Rejects/Survivors.antt =====
-- Who survives both passes (src/lib/skepticRating.ts).
use dragnet.Prelude.{
  ℕ, suc, ◌+◌, String, Bool, true, false, not, ◌||◌, ◌&&◌, List, [], ◌∷◌, length, count_where, all,
  any, All, eqb, ltb, leb, ◌==◌, ◌≡◌, refl, arith, eq_iff, subst, sym, ap, ◌∙◌, Bool-cases, inl,
  inr,
}
use dragnet.Prelude.Dict.{Dict, Distinct, add, has, has-add}
use dragnet.Rejects.{
  CandidateFinding, SkepticVerdict, pos, difference, is_skeptic_rejected, combine,
  summarize_rejects,
}

abbrev pub ids : List CandidateFinding → List String
ids [] = []
ids (c ∷ cs) = c.id ∷ ids cs

abbrev pub Within : List String → List String → Type 0
Within all_ids s = All (λ k. has all_ids k ≡ true) s

-- the skeptic rejected the candidate
abbrev pub is_doubted : Dict SkepticVerdict → String → Bool
is_doubted m k =
    any (λ (entry : String × SkepticVerdict). is_skeptic_rejected entry.1 && entry.0 == k) m

count_where-has_nil : (xs : List String) → count_where (has []) xs ≡ 0
unfolding has
count_where-has_nil [] = refl
count_where-has_nil (x ∷ xs) = count_where-has_nil xs

count_where-absent :
    (k : String) (xs : List String) → has xs k ≡ false → count_where (λ x. k == x) xs ≡ 0
unfolding has
count_where-absent k [] h = refl
count_where-absent k (x ∷ xs) h =
    ground (arith, eq_iff k x, eq_iff x k, h, count_where-absent k xs (ground (arith, h)))

count_where-one :
    (k : String) (xs : List String)
    → Distinct xs
    → has xs k ≡ true
    → count_where (λ x. k == x) xs ≡ 1
unfolding has
count_where-one k [] d h = ground arith
count_where-one k (x ∷ xs) d h = elim (Bool-cases (k == x)) [
  | inl same ↦
      let absent : has xs k ≡ false =
        subst (λ y. has xs y ≡ false) (sym ((eq_iff k x).0 same)) d.0 in
      ground (arith, same, count_where-absent k xs absent)
  | inr other ↦ ground (
    arith,
    other,
    eq_iff k x,
    eq_iff x k,
    count_where-one k xs d.1 (ground (arith, h, other, eq_iff k x, eq_iff x k)),
  )
]

count_where-split :
    (k : String) (s xs : List String)
    → has s k ≡ false
    → count_where (has (k ∷ s)) xs ≡ count_where (λ x. k == x) xs + count_where (has s) xs
unfolding has
count_where-split k s [] h = omega arith
count_where-split k s (x ∷ xs) h = elim (Bool-cases (k == x)) [
  | inl same ↦
      let absent : has s x ≡ false = subst (λ y. has s y ≡ false) ((eq_iff k x).0 same) h in
      ground (arith, same, absent, count_where-split k s xs h)
  | inr other ↦ ground (arith, other, count_where-split k s xs h)
]

-- a set within distinct names is as large as what it counts of them
count_where-has :
    (xs s : List String)
    → Distinct xs
    → Distinct s
    → Within xs s
    → count_where (has s) xs ≡ length s
count_where-has xs [] d e w = count_where-has_nil xs
count_where-has xs (k ∷ s) d e w = omega (
  arith,
  count_where-split k s xs e.0,
  count_where-one k xs d w.0,
  count_where-has xs s d e.1 w.1,
)

add-Distinct : (s : List String) (k : String) → Distinct s → Distinct (add s k)
unfolding add
add-Distinct s k d = elim (Bool-cases (has s k)) [
  | inl there ↦ rw there d
  | inr new ↦ rw new (new, d)
]

add-Within : (xs s : List String) (k : String) → has xs k ≡ true → Within xs s → Within xs (add s k)
unfolding add
add-Within xs s k h w = elim (Bool-cases (has s k)) [
  | inl there ↦ rw there w
  | inr new ↦ rw new (h, w)
]

combine-Distinct : (s : List String) (m : Dict SkepticVerdict) → Distinct s → Distinct (combine s m)
unfolding combine
combine-Distinct s [] d = d
combine-Distinct s ((id, verdict) ∷ m) d = elim (Bool-cases (is_skeptic_rejected verdict)) [
  | inl refuted ↦ rw (refuted, combine) (combine-Distinct (add s id) m (add-Distinct s id d))
  | inr kept ↦ rw (kept, combine) (combine-Distinct s m d)
]

-- the keys of the skeptic's verdicts
abbrev pub keys : Dict SkepticVerdict → List String
keys [] = []
keys ((id, verdict) ∷ m) = id ∷ keys m

combine-Within :
    (xs s : List String) (m : Dict SkepticVerdict)
    → Within xs s
    → Within xs (keys m)
    → Within xs (combine s m)
unfolding combine
combine-Within xs s [] w v = w
combine-Within xs s ((id, verdict) ∷ m) w v = elim (Bool-cases (is_skeptic_rejected verdict)) [
  | inl refuted ↦
      rw (refuted, combine) (combine-Within xs (add s id) m (add-Within xs s id v.0 w) v.1)
  | inr kept ↦ rw (kept, combine) (combine-Within xs s m w v.1)
]

-- an id is in the combined set where a pass rejected it
has-combine :
    (s : List String) (m : Dict SkepticVerdict) (k : String)
    → has (combine s m) k ≡ (has s k || is_doubted m k)
unfolding combine
has-combine s [] k = ground arith
has-combine s ((id, verdict) ∷ m) k = elim (Bool-cases (is_skeptic_rejected verdict)) [
  | inl refuted ↦ rw (refuted, combine) (ground (arith, has-combine (add s id) m k, has-add s id k))
  | inr kept ↦ rw (kept, combine) (ground (arith, has-combine s m k))
]

-- a pass rejected the finding
abbrev pub is_refuted : List String → Dict SkepticVerdict → String → Bool
is_refuted verifier_rejected_ids m k = has verifier_rejected_ids k || is_doubted m k

survivors_count :
    (p q : String → Bool) (xs : List String)
    → ((k : String) → p k ≡ q k)
    → count_where p xs + count_where (λ k. not (q k)) xs ≡ length xs
survivors_count p q [] h = omega arith
survivors_count p q (x ∷ xs) h = ground (arith, h x, survivors_count p q xs h)

length-ids : (cs : List CandidateFinding) → length (ids cs) ≡ length cs
length-ids [] = refl
length-ids (c ∷ cs) = ap suc (length-ids cs)

all-none :
    (q : String → Bool) (xs : List String) → eqb (count_where (λ k. not (q k)) xs) 0 ≡ all q xs
all-none q [] = ground arith
all-none q (x ∷ xs) = ground (arith, all-none q xs)

difference-sum : (a b c : ℕ) → a ≡ b + c → difference a b ≡ pos c
difference-sum a b c h =
    let enough : leb b a ≡ true = ground (arith, h) in rw enough (ap pos (omega (arith, h)))

count_where-ext :
    (p q : String → Bool) (xs : List String)
    → ((k : String) → p k ≡ q k)
    → count_where p xs ≡ count_where q xs
count_where-ext p q [] h = refl
count_where-ext p q (x ∷ xs) h = ground (arith, h x, count_where-ext p q xs h)

-- Every candidate has an id of its own, the ids that the verifier rejected are a set of theirs, and so are those
-- with a verdict of the skeptic. Then the candidates that are counted as rejected are those that one of
-- the passes rejected, the survivors are all the others, never fewer than none, and everything counts as rejected
-- exactly when there are candidates and each was rejected.
pub summarize_rejects-survivors :
    (cs : List CandidateFinding) (v : List String) (m : Dict SkepticVerdict)
    → Distinct (ids cs)
    → Distinct v
    → Within (ids cs) v
    → Within (ids cs) (keys m)
    → let summary = summarize_rejects cs v m in
      (summary.total_rejected ≡ count_where (is_refuted v m) (ids cs))
      × (summary.survivor_count ≡ pos (count_where (λ k. not (is_refuted v m k)) (ids cs)))
      × (summary.all_rejected ≡ (ltb 0 (length cs) && all (is_refuted v m) (ids cs)))
unfolding summarize_rejects
summarize_rejects-survivors [] v m unique set within_v within_m = (refl, refl, refl)
summarize_rejects-survivors (c ∷ cs) v m unique set within_v within_m =
    let xs = ids (c ∷ cs) in
    let combined = combine v m in
    let total : count_where (has combined) xs ≡ length combined =
      count_where-has xs combined unique (combine-Distinct v m set)
        (combine-Within xs v m within_v within_m) in
    let some_one : ltb 0 (length (c ∷ cs)) ≡ true = ground arith in
    let others = survivors_count (has combined) (is_refuted v m) xs (has-combine v m) in
    let survivors =
      difference-sum (length (c ∷ cs)) (length combined)
        (count_where (λ k. not (is_refuted v m k)) xs)
        (omega (arith, total, others, length-ids (c ∷ cs))) in
    (
      sym total ∙ count_where-ext (has combined) (is_refuted v m) xs (has-combine v m),
      survivors,
      rw (survivors, sym (all-none (is_refuted v m) xs), some_one) refl,
    )
