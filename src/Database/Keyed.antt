-- ===== src/Database/Keyed.antt =====
-- A table whose rows have an id, with the queries of src/services/largePrReview/reconcile.ts and what Prisma
-- documents of them: `update` of a row that is not there throws, `updateMany` and `deleteMany` do not.
-- A list of rows meets the laws.
use dragnet.Prelude.{
  String, Bool, true, false, not, Option, none, some, List, [], ◌∷◌, filter, any, ◌==◌, ◌≡◌, refl,
  ap, All, if◌then◌else◌, arith, eq_refl, eq_iff, ◌&&◌, Bool-cases, inl, inr,
}
use dragnet.Prelude.Dict.{has}
use dragnet.Database.{update_where}

-- a row with this id is in the list
abbrev pub has_id {ℓ} : {Row : Type ℓ} → (Row → String) → String → List Row → Bool
has_id id k rows = any (λ r. id r == k) rows

pub record KeyedTable (Row : Type 0) (id : Row → String) : Type 1 where
  pub Rows : Type 0
  pub rows : Rows → List Row
  -- `findMany({ where })`, in an order of the database's choice
  pub find_many : (Row → Bool) → Rows → List Row
  -- `update({ where: { id }, data })`, none where it throws
  pub update : String → (Row → Row) → Rows → Option Rows
  pub update_many : (Row → Bool) → (Row → Row) → Rows → Rows
  pub delete_many : (Row → Bool) → Rows → Rows
  pub find_many-has_id :
      (p : Row → Bool) (t : Rows) → All (λ r. has_id id (id r) (rows t) ≡ true) (find_many p t)
  pub update-missing :
      (k : String) (f : Row → Row) (t : Rows) → has_id id k (rows t) ≡ false → update k f t ≡ none
  pub update-present :
      (k : String) (f : Row → Row) (t : Rows)
      → has_id id k (rows t) ≡ true
      → (t' : Rows) × ((update k f t ≡ some t')
          × (rows t' ≡ update_where (λ r. id r == k) f (rows t)))
  pub update_many-rows :
      (p : Row → Bool) (f : Row → Row) (t : Rows)
      → rows (update_many p f t) ≡ update_where p f (rows t)
  pub delete_many-rows :
      (p : Row → Bool) (t : Rows) → rows (delete_many p t) ≡ filter (λ r. not (p r)) (rows t)

module _ {Row : Type 0} (id : Row → String) where
  abbrev pub update_list : String → (Row → Row) → List Row → Option (List Row)
  update_list k f rows =
      if has_id id k rows then some (update_where (λ r. id r == k) f rows) else none

  pub filter-has_id :
      (p : Row → Bool) (seen rows : List Row)
      → All (λ r. has_id id (id r) seen ≡ true) rows
      → All (λ r. has_id id (id r) seen ≡ true) (filter p rows)
  filter-has_id p seen [] h = tt
  filter-has_id p seen (r ∷ rows) h = ground (arith, filter-has_id p seen rows h.1)

  -- rows further to the front stay found
  has_id-tail :
      (r : Row) (seen rows : List Row)
      → All (λ x. has_id id (id x) seen ≡ true) rows
      → All (λ x. has_id id (id x) (r ∷ seen) ≡ true) rows
  has_id-tail r seen [] h = tt
  has_id-tail r seen (x ∷ rows) h = (ground (arith, h.0), has_id-tail r seen rows h.1)

  pub has_id-rows : (rows : List Row) → All (λ r. has_id id (id r) rows ≡ true) rows
  has_id-rows [] = tt
  has_id-rows (r ∷ rows) =
      (ground (arith, eq_refl (id r)), has_id-tail r rows rows (has_id-rows rows))

  pub update_list-missing :
      (k : String) (f : Row → Row) (t : List Row) → has_id id k t ≡ false → update_list k f t ≡ none
  update_list-missing k f t h = rw h refl

  pub update_list-present :
      (k : String) (f : Row → Row) (t : List Row)
      → has_id id k t ≡ true
      → (t' : List Row) × ((update_list k f t ≡ some t') × (t' ≡ update_where (λ r. id r == k) f t))
  update_list-present k f t h = (update_where (λ r. id r == k) f t, (rw h refl, refl))

  abbrev pub keyed_list : KeyedTable Row id
  keyed_list = record {
    Rows = List Row;
    rows = λ t. t;
    find_many = filter;
    update = update_list;
    update_many = update_where;
    delete_many = λ p. filter (λ r. not (p r));
    find_many-has_id = λ p t. filter-has_id p t t (has_id-rows t);
    update-missing = update_list-missing;
    update-present = update_list-present;
    update_many-rows = λ p f t. refl;
    delete_many-rows = λ p t. refl;
  }

  -- writes that keep the ids keep what is found
  pub has_id-update_where :
      (k : String) (p : Row → Bool) (f : Row → Row) (rows : List Row)
      → ((r : Row) → id (f r) ≡ id r)
      → has_id id k (update_where p f rows) ≡ has_id id k rows
  has_id-update_where k p f [] keeps = refl
  has_id-update_where k p f (r ∷ rows) keeps =
      ground (arith, keeps r, has_id-update_where k p f rows keeps)

  pub has_id-delete :
      (k : String) (ids : List String) (rows : List Row)
      → has_id id k (filter (λ r. not (has ids (id r))) rows)
        ≡ (has_id id k rows && not (has ids k))
  has_id-delete k ids [] = refl
  has_id-delete k ids (r ∷ rows) = elim (Bool-cases (id r == k)) [
    | inl e ↦ ground (arith, e, ap (has ids) ((eq_iff (id r) k).0 e), has_id-delete k ids rows)
    | inr ne ↦ ground (arith, ne, has_id-delete k ids rows)
  ]
