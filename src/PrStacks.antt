-- ===== src/PrStacks.antt =====
-- The stacks of pull requests: src/lib/prStackTopology.ts. A map is a dictionary, and the walk down a stack
-- runs on the source's own ceiling of steps. The warning on a cycle is left out.
pub mod Walks
mod Tests
use mathlib.Core.List.{reverse}
use dragnet.Prelude.{
  ℕ, zero, suc, ◌+◌, String, Bool, true, false, not, Option, none, some, List, [], ◌∷◌, ◌++◌,
  length, count_where, map, ◌==◌, if◌then◌else◌, is_some,
}
use dragnet.Prelude.Dict.{Dict, get, set, has}

pub record PrTopologyInput : Type 0 where
  pub id : String
  pub source_branch : String
  pub target_branch : String
  pub rating : Option ℕ

pub record PrDependency : Type 0 where
  pub pr_id : String
  pub source_branch : String
  pub target_branch : String
  pub is_scanned : Bool
  pub rating : Option ℕ

pub record PrTopology : Type 0 where
  pub stack_depth : ℕ
  pub dependencies : List PrDependency
  pub unscanned_deps_count : ℕ

-- the first pull request of a source branch is kept
abbrev pub add_source : Dict PrTopologyInput → PrTopologyInput → Dict PrTopologyInput
add_source m pr = if is_some (get m pr.source_branch) then m else set m pr.source_branch pr

unfoldable pub index_sources : Dict PrTopologyInput → List PrTopologyInput → Dict PrTopologyInput
index_sources m [] = m
index_sources m (pr ∷ prs) = index_sources (add_source m pr) prs

-- the pull requests below `cursor`, the closest one first, in at most `safety` steps
unfoldable pub walk : Dict PrTopologyInput → ℕ → List String → String → List PrTopologyInput
walk sources zero visited cursor = []
walk sources (suc safety) visited cursor = elim (cursor == "") [
  | true ↦ []
  | false ↦ elim (get sources cursor) [
    | none ↦ []
    | some dep ↦ elim (has visited dep.id) [
      | true ↦ []
      | false ↦ dep ∷ walk sources safety (dep.id ∷ visited) dep.target_branch
    ]
  ]
]

abbrev pub dependency : List String → PrTopologyInput → PrDependency
dependency scanned dep = record {
  pr_id = dep.id;
  source_branch = dep.source_branch;
  target_branch = dep.target_branch;
  is_scanned = has scanned dep.id;
  rating = dep.rating;
}

unfoldable pub topology_of : List PrTopologyInput → List String → PrTopologyInput → PrTopology
topology_of prs scanned pr =
    let below = walk (index_sources [] prs) (length prs + 1) (pr.id ∷ []) pr.target_branch in
    let dependencies = reverse (map (dependency scanned) below) in
    record {
      stack_depth = length dependencies;
      dependencies = dependencies;
      unscanned_deps_count = count_where (λ d. not d.is_scanned) dependencies;
    }

unfoldable pub set_topologies :
    List PrTopologyInput → List String → Dict PrTopology → List PrTopologyInput → Dict PrTopology
set_topologies all scanned m [] = m
set_topologies all scanned m (pr ∷ prs) =
    set_topologies all scanned (set m pr.id (topology_of all scanned pr)) prs

unfoldable pub compute_stack_topology : List PrTopologyInput → List String → Dict PrTopology
compute_stack_topology prs scanned = set_topologies prs scanned [] prs
