-- ===== src/ScanQueue/Rows.antt =====
-- Facts on rows with unique ids: what an update of one row, found by its id, does to the counts.
use dragnet.Prelude.{
  suc, ◌+◌, ◌<◌, String, Bool, true, false, List, [], ◌∷◌, ◌≡◌, refl, ap, sym, All, Memᴰ, arith,
  ◌==◌, eq_iff, count_where, count_where_mono, if◌then◌else◌, subst,
}
use dragnet.Database.{update_where}
use dragnet.ScanQueue.{Job}

-- `id` is the key of the table.
abbrev pub UniqueIds : List Job → Type 0
UniqueIds [] = Unit
UniqueIds (j ∷ js) = All (λ x. (x.id == j.id) ≡ false) js × UniqueIds js

pub All-mem {ℓ} : {A : Type 0} (P : A → Type ℓ) (x : A) (xs : List A) → All P xs → Memᴰ x xs → P x
All-mem P x [] h m = elim m [ ]
All-mem P x (y ∷ ys) h (Memᴰ.head e) = subst P (sym e) h.0
All-mem P x (y ∷ ys) h (Memᴰ.tail m) = All-mem P x ys h.1 m

other_ids :
    (j : Job) (js : List Job)
    → All (λ x. (x.id == j.id) ≡ false) js
    → All (λ x. (x.id == j.id) ≡ true → x ≡ j) js
other_ids j [] h = tt
other_ids j (k ∷ ks) h = (λ e. cc, other_ids j ks h.1)

-- The rows with the id of a stored row are that row.
pub same_id :
    (j : Job) (js : List Job)
    → UniqueIds js
    → Memᴰ j js
    → All (λ x. (x.id == j.id) ≡ true → x ≡ j) js
same_id j [] u m = elim m [ ]
same_id j (k ∷ ks) u (Memᴰ.head e) =
    (λ _. sym e, other_ids j ks (subst (λ y. All (λ x. (x.id == y.id) ≡ false) ks) (sym e) u.0))
same_id j (k ∷ ks) u (Memᴰ.tail m) =
    let apart : (j.id == k.id) ≡ false = All-mem (λ x. (x.id == k.id) ≡ false) j ks u.0 m in
    (λ e. ground (arith, eq_iff k.id j.id, eq_iff j.id k.id), same_id j ks u.1 m)

pub none_with_id :
    (p : Job → Bool) (j : Job) (js : List Job)
    → ((x : Job) → p x ≡ true → (x.id == j.id) ≡ true)
    → All (λ x. (x.id == j.id) ≡ false) js
    → count_where p js ≡ 0
none_with_id p j [] h u = refl
none_with_id p j (k ∷ ks) h u = ground (arith, h k, none_with_id p j ks h)

-- A query for the row of an id finds one row.
pub count_where-id :
    (p : Job → Bool) (j : Job) (js : List Job)
    → UniqueIds js
    → Memᴰ j js
    → p j ≡ true
    → ((x : Job) → p x ≡ true → (x.id == j.id) ≡ true)
    → count_where p js ≡ 1
count_where-id p j [] u m h only = elim m [ ]
count_where-id p j (k ∷ ks) u (Memᴰ.head e) h only =
    let hit : p k ≡ true = rw (sym e) h in
    let rest : count_where p ks ≡ 0 = none_with_id p j ks only (rw e u.0) in rw hit (ap suc rest)
count_where-id p j (k ∷ ks) u (Memᴰ.tail m) h only =
    let apart : (j.id == k.id) ≡ false = All-mem (λ x. (x.id == k.id) ≡ false) j ks u.0 m in
    let miss : p k ≡ false = ground (arith, only k, eq_iff k.id j.id, eq_iff j.id k.id) in
    rw miss (count_where-id p j ks u.1 m h only)

-- An update that makes the rows it writes pass a test adds them to the count.
pub count_where-update_where :
    (p q : Job → Bool) (f : Job → Job) (js : List Job)
    → ((x : Job) → p x ≡ true → (q x ≡ false) × (q (f x) ≡ true))
    → count_where q (update_where p f js) ≡ count_where q js + count_where p js
count_where-update_where p q f [] h = omega arith
count_where-update_where p q f (x ∷ xs) h = ground (arith, h x, count_where-update_where p q f xs h)

-- A count falls when a stored row no longer passes the test.
pub count_where-lt :
    (p q : Job → Bool) (j : Job) (js : List Job)
    → ((x : Job) → q x ≡ true → p x ≡ true)
    → Memᴰ j js
    → p j ≡ true
    → q j ≡ false
    → count_where q js < count_where p js
count_where-lt p q j [] h m pj qj = elim m [ ]
count_where-lt p q j (k ∷ ks) h (Memᴰ.head e) pj qj =
    let pk : p k ≡ true = rw (sym e) pj in
    let qk : q k ≡ false = rw (sym e) qj in ground (arith, count_where_mono q p ks h)
count_where-lt p q j (k ∷ ks) h (Memᴰ.tail m) pj qj =
    ground (arith, h k, count_where-lt p q j ks h m pj qj)

All-id-update :
    (p : Job → Bool) (f : Job → Job) (i : String) (js : List Job)
    → ((x : Job) → (f x).id ≡ x.id)
    → All (λ x. (x.id == i) ≡ false) js
    → All (λ x. (x.id == i) ≡ false) (update_where p f js)
All-id-update p f i [] h u = tt
All-id-update p f i (k ∷ ks) h u = (ground (arith, h k), All-id-update p f i ks h u.1)

-- An update that leaves the ids alone keeps them unique.
pub update_where-UniqueIds :
    (p : Job → Bool) (f : Job → Job) (js : List Job)
    → ((x : Job) → (f x).id ≡ x.id)
    → UniqueIds js
    → UniqueIds (update_where p f js)
update_where-UniqueIds p f [] h u = tt
update_where-UniqueIds p f (k ∷ ks) h u =
    let k' : Job = if p k then f k else k in
    let same : k'.id ≡ k.id = ground (arith, h k) in
    (
      subst (λ i. All (λ x. (x.id == i) ≡ false) (update_where p f ks)) (sym same)
          (All-id-update p f k.id ks h u.0),
      update_where-UniqueIds p f ks h u.1,
    )

pub All-update_where :
    (P Q : Job → Type 0) (p : Job → Bool) (f : Job → Job) (js : List Job)
    → ((x : Job) → P x → Q (if p x then f x else x))
    → All P js
    → All Q (update_where p f js)
All-update_where P Q p f [] h k = tt
All-update_where P Q p f (x ∷ xs) h k = (h x k.0, All-update_where P Q p f xs h k.1)
