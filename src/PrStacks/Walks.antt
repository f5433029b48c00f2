-- ===== src/PrStacks/Walks.antt =====
-- The walk down a stack of pull requests (src/lib/prStackTopology.ts): what it lists, and that the ceiling on
-- its steps never ends it.
use mathlib.Core.List.{reverse}
use dragnet.Prelude.{
  ◌||◌, ℕ, zero, suc, ◌+◌, ◌<◌, ◌≤◌, String, Bool, true, false, not, Option, none, some, List, [],
  ◌∷◌, length, count_where, map, if◌then◌else◌, ◌==◌, ◌≡◌, refl, sym, ap, ◌∙◌, subst, arith,
  Bool-cases, Option-cases, inl, inr, eq_iff, eq_refl,
}
use dragnet.Prelude.Dict.{Dict, get, get-set, set, has}
use dragnet.Database.Keyed.{has_id}
use dragnet.PrStacks.{PrTopologyInput, index_sources, walk, dependency, topology_of}

-- the first pull request of the list whose source is this branch
abbrev pub first_from : String → List PrTopologyInput → Option PrTopologyInput
first_from branch [] = none
first_from branch (pr ∷ prs) = if pr.source_branch == branch then some pr else first_from branch prs

abbrev or_first : Option PrTopologyInput → Option PrTopologyInput → Option PrTopologyInput
or_first none o = o
or_first (some pr) o = some pr

shadowed :
    (m : Dict PrTopologyInput) (pr : PrTopologyInput) (prs : List PrTopologyInput) (branch : String)
    (taken_by : PrTopologyInput)
    → get m pr.source_branch ≡ some taken_by
    → or_first (get m branch) (first_from branch prs)
      ≡ or_first (get m branch) (first_from branch (pr ∷ prs))
shadowed m pr prs branch taken_by taken = elim (Bool-cases (pr.source_branch == branch)) [
  | inr other ↦ rw other refl
  | inl same ↦
      let here : get m branch ≡ some taken_by =
        subst (λ b. get m b ≡ some taken_by) ((eq_iff pr.source_branch branch).0 same) taken in
      rw here refl
]

entered :
    (m : Dict PrTopologyInput) (pr : PrTopologyInput) (prs : List PrTopologyInput) (branch : String)
    → get m pr.source_branch ≡ none
    → or_first
        (if pr.source_branch == branch then some pr else get m branch)
        (first_from branch prs)
      ≡ or_first (get m branch) (first_from branch (pr ∷ prs))
entered m pr prs branch free = elim (Bool-cases (pr.source_branch == branch)) [
  | inr other ↦ rw other refl
  | inl same ↦
      let here : get m branch ≡ none =
        subst (λ b. get m b ≡ none) ((eq_iff pr.source_branch branch).0 same) free in
      rw (same, here) refl
]

get-index_sources :
    (m : Dict PrTopologyInput) (prs : List PrTopologyInput) (branch : String)
    → get (index_sources m prs) branch ≡ or_first (get m branch) (first_from branch prs)
unfolding index_sources
get-index_sources m [] branch = elim (Option-cases (get m branch)) [
  | inl miss ↦ rw miss refl
  | inr (pr, hit) ↦ rw hit refl
]
get-index_sources m (pr ∷ prs) branch = elim (Option-cases (get m pr.source_branch)) [
  | inr (taken_by, taken) ↦
      rw (taken, index_sources, get-index_sources m prs branch)
        (shadowed m pr prs branch taken_by taken)
  | inl free ↦
      rw
        (
          free,
          index_sources,
          get-index_sources (set m pr.source_branch pr) prs branch,
          get-set m pr.source_branch branch pr,
        )
        (entered m pr prs branch free)
]

first_from-stored :
    (branch : String) (prs : List PrTopologyInput) (dep : PrTopologyInput)
    → first_from branch prs ≡ some dep
    → has_id (λ p. p.id) dep.id prs ≡ true
first_from-stored branch [] dep h = cc h
first_from-stored branch (pr ∷ prs) dep h = elim (Bool-cases (pr.source_branch == branch)) [
  | inl here ↦
      let shown : first_from branch (pr ∷ prs) ≡ some pr = rw here refl in
      let same : pr ≡ dep = cc (shown, h) in rw (sym same, eq_refl pr.id) refl
  | inr there ↦
      let later : first_from branch (pr ∷ prs) ≡ first_from branch prs = rw there refl in
      let stored = first_from-stored branch prs dep (sym later ∙ h) in ground (arith, stored)
]

-- each is the first pull request from the branch that the one before it lands on, from the closest to the root
abbrev pub IsChain : List PrTopologyInput → String → List PrTopologyInput → Type 0
IsChain prs cursor [] = Unit
IsChain prs cursor (dep ∷ deps) =
    (first_from cursor prs ≡ some dep) × IsChain prs dep.target_branch deps

-- none is listed twice, and none of those seen before
abbrev pub IsFresh : List String → List PrTopologyInput → Type 0
IsFresh visited [] = Unit
IsFresh visited (dep ∷ deps) = (has visited dep.id ≡ false) × IsFresh (dep.id ∷ visited) deps

module _ (prs : List PrTopologyInput) where
  abbrev sources : Dict PrTopologyInput
  sources = index_sources [] prs

  found : (branch : String) → get sources branch ≡ first_from branch prs
  unfolding get
  found branch = get-index_sources [] prs branch

  -- the walk has no further step to take
  abbrev pub is_stop : List String → String → Bool
  is_stop visited cursor =
      cursor == "" || (elim (first_from cursor prs) [ none ↦ true | some dep ↦ has visited dep.id ])

  abbrev pub StopsAfter : List String → String → List PrTopologyInput → Type 0
  StopsAfter visited cursor [] = is_stop visited cursor ≡ true
  StopsAfter visited cursor (dep ∷ deps) = StopsAfter (dep.id ∷ visited) dep.target_branch deps

  abbrev pub IsWalk : List String → String → List PrTopologyInput → Type 0
  IsWalk visited cursor deps =
      IsChain prs cursor deps × IsFresh visited deps × StopsAfter visited cursor deps

  -- the pull requests that are not visited
  abbrev left : List String → List PrTopologyInput → ℕ
  left visited rows = count_where (λ p. not (has visited p.id)) rows

  left_mono :
      (k : String) (visited : List String) (rows : List PrTopologyInput)
      → left (k ∷ visited) rows ≤ left visited rows
  unfolding has
  left_mono k visited [] = omega arith
  left_mono k visited (p ∷ rows) = ground (arith, left_mono k visited rows)

  left-falls :
      (k : String) (visited : List String) (rows : List PrTopologyInput)
      → has_id (λ p. p.id) k rows ≡ true
      → has visited k ≡ false
      → left (k ∷ visited) rows < left visited rows
  unfolding has
  left-falls k visited [] h new = cc
  left-falls k visited (p ∷ rows) h new = elim (Bool-cases (p.id == k)) [
    | inl here ↦
        let e : has visited p.id ≡ false = ap (has visited) ((eq_iff p.id k).0 here) ∙ new in
        let back : (k == p.id) ≡ true = (eq_iff k p.id).1 (sym ((eq_iff p.id k).0 here)) in
        rw (e, back) (ground (arith, left_mono k visited rows))
    | inr there ↦ ground (arith, there, left-falls k visited rows, new)
  ]

  stop_over :
      (visited : List String) (cursor : String)
      → (cursor == "") ≡ true
      → is_stop visited cursor ≡ true
  stop_over visited cursor h = rw h refl

  stop_lost :
      (visited : List String) (cursor : String)
      → first_from cursor prs ≡ none
      → is_stop visited cursor ≡ true
  stop_lost visited cursor h = rw h (ground arith)

  stop_seen :
      (visited : List String) (cursor : String) (dep : PrTopologyInput)
      → first_from cursor prs ≡ some dep
      → has visited dep.id ≡ true
      → is_stop visited cursor ≡ true
  stop_seen visited cursor dep hit seen = rw (hit, seen) (ground arith)

  walk-IsWalk :
      (safety : ℕ) (visited : List String) (cursor : String)
      → left visited prs < safety
      → IsWalk visited cursor (walk sources safety visited cursor)
  unfolding walk
  walk-IsWalk zero visited cursor h = absurd (omega (arith, h))
  walk-IsWalk (suc safety) visited cursor h = elim (Bool-cases (cursor == "")) [
    | inl over ↦ rw (over, walk) (tt, tt, stop_over visited cursor over)
    | inr going ↦ elim (Option-cases (first_from cursor prs)) [
      | inl lost ↦ rw (going, found cursor ∙ lost, walk) (tt, tt, stop_lost visited cursor lost)
      | inr (dep, hit) ↦ elim (Bool-cases (has visited dep.id)) [
        | inl seen ↦
            rw (going, found cursor ∙ hit, seen, walk)
              (tt, tt, stop_seen visited cursor dep hit seen)
        | inr new ↦
            let (chain, fresh, stops) = walk-IsWalk safety (dep.id ∷ visited) dep.target_branch (
              omega (
                arith,
                h,
                left-falls dep.id visited prs (first_from-stored cursor prs dep hit) new,
              )) in
            rw (going, found cursor ∙ hit, new, walk) ((hit, chain), (new, fresh), stops)
      ]
    ]
  ]

  left-length :
      (visited : List String) (rows : List PrTopologyInput) → left visited rows < length rows + 1
  left-length visited [] = omega arith
  left-length visited (p ∷ rows) = ground (arith, left-length visited rows)

-- The dependencies of a pull request, from the root of its stack up, are those of a walk down it: each is the
-- first pull request of the list from the branch below, starting with the target branch; none is listed twice,
-- nor the pull request itself; and the walk ends where no branch is left, no pull request of the list comes
-- from the branch, or the first that does closes a cycle, never at the ceiling of its steps.
pub topology_of-IsWalk :
    (prs : List PrTopologyInput) (scanned : List String) (pr : PrTopologyInput)
    → (below : List PrTopologyInput) × (((topology_of prs scanned pr).dependencies
          ≡ reverse (map (dependency scanned) below))
        × IsWalk prs (pr.id ∷ []) pr.target_branch below)
unfolding topology_of
topology_of-IsWalk prs scanned pr = (
  walk (index_sources [] prs) (length prs + 1) (pr.id ∷ []) pr.target_branch,
  (
    refl,
    walk-IsWalk prs (length prs + 1) (pr.id ∷ []) pr.target_branch
        (left-length prs (pr.id ∷ []) prs),
  ),
)
