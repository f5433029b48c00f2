-- ===== src/Prelude/Dict.antt =====
-- JavaScript's `Map` and `Set` with string keys: an association list in insertion order. `set` on a
-- key that is there keeps its place.
use mathlib.Core.Path.{◌≡◌, refl}
use mathlib.Core.Bool.{Bool, false, ◌||◌}
use mathlib.Core.List.{List, [], ◌∷◌}
use mathlib.Core.Option.{Option, none, some}
use Prim.Native.String.{String}
use native.Mathlib.Omega.{arith}
use text.Mathlib.Text.{◌==◌}
use text.Mathlib.TextEquality.{eq_iff}
use dragnet.Prelude.Tests.{if◌then◌else◌}

abbrev pub Dict {ℓ} : Type ℓ → Type ℓ
Dict V = List (String × V)

module _ {ℓ} {V : Type ℓ} where
  unfoldable pub get : Dict V → String → Option V
  get [] k = none
  get ((j, v) ∷ m) k = let rest = get m k in if j == k then some v else rest

  unfoldable pub set : Dict V → String → V → Dict V
  set [] k v = (k, v) ∷ []
  set ((j, w) ∷ m) k v = let rest = set m k v in if j == k then (j, v) ∷ m else (j, w) ∷ rest

  unfoldable pub delete : Dict V → String → Dict V
  delete [] k = []
  delete ((j, w) ∷ m) k = let rest = delete m k in if j == k then rest else (j, w) ∷ rest

  pub get-set :
      (m : Dict V) (k j : String) (v : V) → get (set m k v) j ≡ (if k == j then some v else get m j)
  unfolding get set
  get-set [] k j v = refl
  get-set ((i, w) ∷ m) k j v = ground (arith, eq_iff k j, eq_iff i k, eq_iff i j, get-set m k j v)

  pub get-delete :
      (m : Dict V) (k j : String) → get (delete m k) j ≡ (if k == j then none else get m j)
  unfolding get delete
  get-delete [] k j = ground arith
  get-delete ((i, w) ∷ m) k j = ground (arith, eq_iff k j, eq_iff i k, eq_iff i j, get-delete m k j)

-- A `Set` of strings.
unfoldable pub has : List String → String → Bool
has [] k = false
has (j ∷ s) k = j == k || has s k

-- no name twice
abbrev pub Distinct : List String → Type 0
Distinct [] = Unit
Distinct (k ∷ s) = (has s k ≡ false) × Distinct s

unfoldable pub add : List String → String → List String
unfolding has
add s k = if has s k then s else k ∷ s

unfoldable pub remove : List String → String → List String
remove [] k = []
remove (j ∷ s) k = let rest = remove s k in if j == k then rest else j ∷ rest

pub has-add : (s : List String) (k j : String) → has (add s k) j ≡ (k == j || has s j)
unfolding add
has-add s k j = ground (arith, eq_iff k j)

pub has-remove :
    (s : List String) (k j : String) → has (remove s k) j ≡ (if k == j then false else has s j)
unfolding has remove
has-remove [] k j = ground arith
has-remove (i ∷ s) k j = ground (arith, eq_iff k j, eq_iff i k, eq_iff i j, has-remove s k j)
