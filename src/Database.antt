-- ===== src/Database.antt =====
-- The tables that the code reads and writes through Prisma (prisma/schema.prisma). The database is
-- not code of this repository: a table is a parameter, with the queries that the code makes of it
-- and what Prisma documents of each as laws. A query is one atomic step, and does not fail.
pub mod ListTable
pub mod Keyed
use dragnet.Prelude.{
  ℕ, Bool, true, false, Option, none, some, List, [], ◌∷◌, ◌++◌, map, ◌≡◌, All, Memᴰ, count_where,
  if◌then◌else◌,
}

-- `updateMany({ where: p, data: f })` on the rows of a table
abbrev pub update_where {ℓ} : {Row : Type ℓ} → (Row → Bool) → (Row → Row) → List Row → List Row
update_where p f [] = []
update_where p f (r ∷ rs) = (if p r then f r else r) ∷ update_where p f rs

-- `orderBy`: a strict weak order, in which rows that agree on all the columns are not told apart
pub record RowOrder (Row : Type 0) : Type 0 where
  pub before : Row → Row → Bool
  pub before_asym : (a b : Row) → before a b ≡ true → before b a ≡ false
  pub before_neg_trans :
      (a b c : Row) → before a b ≡ false → before b c ≡ false → before a c ≡ false

pub record Table (Row : Type 0) : Type 1 where
  pub Rows : Type 0
  pub rows : Rows → List Row
  -- `findFirst({ where, orderBy })`: no matching row stands before the one returned
  pub find_first : (Row → Bool) → RowOrder Row → Rows → Option Row
  pub count : (Row → Bool) → Rows → ℕ
  -- `updateMany({ where, data })`: the count of rows written, and the table
  pub update_many : (Row → Bool) → (Row → Row) → Rows → ℕ × Rows
  pub create : Row → Rows → Rows
  pub find_first-none :
      (p : Row → Bool) (o : RowOrder Row) (t : Rows)
      → find_first p o t ≡ none
      → All (λ r. p r ≡ false) (rows t)
  pub find_first-mem :
      (p : Row → Bool) (o : RowOrder Row) (t : Rows) (r : Row)
      → find_first p o t ≡ some r
      → Memᴰ r (rows t)
  pub find_first-match :
      (p : Row → Bool) (o : RowOrder Row) (t : Rows) (r : Row)
      → find_first p o t ≡ some r
      → p r ≡ true
  pub find_first-least :
      (p : Row → Bool) (o : RowOrder Row) (t : Rows) (r : Row)
      → find_first p o t ≡ some r
      → All (λ x. p x ≡ true → o.before x r ≡ false) (rows t)
  pub count_lem : (p : Row → Bool) (t : Rows) → count p t ≡ count_where p (rows t)
  pub update_many-count :
      (p : Row → Bool) (f : Row → Row) (t : Rows) → (update_many p f t).0 ≡ count_where p (rows t)
  pub update_many-rows :
      (p : Row → Bool) (f : Row → Row) (t : Rows)
      → rows (update_many p f t).1 ≡ update_where p f (rows t)
  pub create-rows : (r : Row) (t : Rows) → rows (create r t) ≡ rows t ++ r ∷ []
