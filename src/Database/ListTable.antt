-- ===== src/Database/ListTable.antt =====
-- A table held as a list, which runs in tests and meets what `Table` asks of a database.
use dragnet.Prelude.{
  Bool, true, false, Option, none, some, List, [], ◌∷◌, ◌++◌, ◌≡◌, refl, All, Memᴰ, All-map, arith,
  count_where, if◌then◌else◌, Bool-cases, inl, inr, Option-cases, ◌⊎◌,
}
use dragnet.Database.{Table, RowOrder, update_where}

module _ {Row : Type 0} where
  abbrev pub pick : RowOrder Row → Row → Option Row → Row
  pick o r none = r
  pick o r (some s) = if o.before s r then s else r

  unfoldable pub first : (Row → Bool) → RowOrder Row → List Row → Option Row
  first p o [] = none
  first p o (r ∷ rs) = let rest = first p o rs in if p r then some (pick o r rest) else rest

  pub first-none :
      (p : Row → Bool) (o : RowOrder Row) (t : List Row)
      → first p o t ≡ none
      → All (λ r. p r ≡ false) t
  unfolding first
  first-none p o [] h = tt
  first-none p o (r ∷ rs) h = (ground arith, first-none p o rs (ground arith))

  pub first-match :
      (p : Row → Bool) (o : RowOrder Row) (t : List Row) (r : Row)
      → first p o t ≡ some r
      → p r ≡ true
  unfolding first
  first-match p o [] r h = cc
  first-match p o (s ∷ rs) r h = ground (arith, first-match p o rs r)

  -- The row found is the first one or was found in the rest.
  first-cases :
      (p : Row → Bool) (o : RowOrder Row) (s r : Row) (rs : List Row)
      → first p o (s ∷ rs) ≡ some r
      → (r ≡ s) ⊎ (first p o rs ≡ some r)
  unfolding first
  first-cases p o s r rs h = ground arith

  pub first-mem :
      (p : Row → Bool) (o : RowOrder Row) (t : List Row) (r : Row) → first p o t ≡ some r → Memᴰ r t
  unfolding first
  first-mem p o [] r h = cc
  first-mem p o (s ∷ rs) r h = elim (first-cases p o s r rs h) [
    | inl e ↦ Memᴰ.head e
    | inr e ↦ Memᴰ.tail (first-mem p o rs r e)
  ]

  none_before :
      (o : RowOrder Row) (p : Row → Bool) (s r : Row) (rs : List Row)
      → o.before s r ≡ false
      → All (λ x. p x ≡ true → o.before x s ≡ false) rs
      → All (λ x. p x ≡ true → o.before x r ≡ false) rs
  none_before o p s r rs h =
      All-map (λ x. p x ≡ true → o.before x s ≡ false) (λ x. p x ≡ true → o.before x r ≡ false) rs
        (λ x k m. o.before_neg_trans x s r (k m) h)

  not_before_self : (o : RowOrder Row) (r : Row) → o.before r r ≡ false
  not_before_self o r = elim (Bool-cases (o.before r r)) [ inl e ↦ o.before_asym r r e | inr e ↦ e ]

  none_matching :
      (p : Row → Bool) (o : RowOrder Row) (r : Row) (rs : List Row)
      → All (λ x. p x ≡ false) rs
      → All (λ x. p x ≡ true → o.before x r ≡ false) rs
  none_matching p o r rs =
      All-map (λ x. p x ≡ false) (λ x. p x ≡ true → o.before x r ≡ false) rs (λ x k m. cc)

  pub first-least :
      (p : Row → Bool) (o : RowOrder Row) (t : List Row) (r : Row)
      → first p o t ≡ some r
      → All (λ x. p x ≡ true → o.before x r ≡ false) t
  unfolding first
  first-least p o [] r h = tt
  first-least p o (x ∷ rs) r h = elim (Bool-cases (p x)) [
    | inr out ↦ (λ m. cc, first-least p o rs r (ground arith))
    | inl fits ↦ elim (Option-cases (first p o rs)) [
      | inl e ↦
          let at_head : r ≡ x = ground arith in
          (λ m. rw at_head (not_before_self o x), none_matching p o r rs (first-none p o rs e))
      | inr (s, e) ↦ elim (Bool-cases (o.before s x)) [
        | inl sooner ↦
            let in_rest : r ≡ s = ground arith in
            (λ m. rw in_rest (o.before_asym s x sooner), first-least p o rs r (rw in_rest e))
        | inr later ↦
            let at_head : r ≡ x = ground arith in
            (
              λ m. rw at_head (not_before_self o x),
              none_before o p s r rs (rw at_head later) (first-least p o rs s e),
            )
      ]
    ]
  ]

abbrev pub list_table : (Row : Type 0) → Table Row
list_table Row = record {
  Rows = List Row;
  rows = λ t. t;
  find_first = first;
  count = count_where;
  update_many = λ p f t. (count_where p t, update_where p f t);
  create = λ r t. t ++ r ∷ [];
  find_first-none = first-none;
  find_first-mem = first-mem;
  find_first-match = first-match;
  find_first-least = first-least;
  count_lem = λ p t. refl;
  update_many-count = λ p f t. refl;
  update_many-rows = λ p f t. refl;
  create-rows = λ r t. refl;
}
