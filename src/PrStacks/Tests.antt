-- ===== src/PrStacks/Tests.antt =====
-- A stack of three pull requests, and one that closes a cycle.
use mathlib.Core.List.{reverse}
use dragnet.Prelude.{String, true, false, none, some, List, [], ◌∷◌, map, ◌≡◌, refl}
use dragnet.PrStacks.{PrTopologyInput, dependency, topology_of, walk}
use dragnet.PrStacks
use dragnet.PrStacks.Walks.{IsWalk, topology_of-IsWalk}

abbrev pr : String → String → String → PrTopologyInput
pr id source target = record {
  id = id;
  source_branch = source;
  target_branch = target;
  rating = none;
}

abbrev stack : List PrTopologyInput
stack = pr "1" "feat/a" "main" ∷ pr "2" "feat/b" "feat/a" ∷ pr "3" "feat/c" "feat/b" ∷ []

abbrev cycle : List PrTopologyInput
cycle = pr "1" "feat/a" "feat/b" ∷ pr "2" "feat/b" "feat/a" ∷ []

root_first :
    (topology_of stack ("1" ∷ []) (pr "3" "feat/c" "feat/b")).dependencies
    ≡ dependency ("1" ∷ []) (pr "1" "feat/a" "main")
      ∷ dependency ("1" ∷ []) (pr "2" "feat/b" "feat/a")
      ∷ []
unfolding topology_of walk PrStacks.index_sources dragnet.Prelude.Dict.get dragnet.Prelude.Dict.set
    dragnet.Prelude.Dict.has
root_first = refl

cycle_ends : (topology_of cycle [] (pr "1" "feat/a" "feat/b")).stack_depth ≡ 1
unfolding topology_of walk PrStacks.index_sources dragnet.Prelude.Dict.get dragnet.Prelude.Dict.set
    dragnet.Prelude.Dict.has
cycle_ends = refl

topology_of-IsWalk_example :
    (below : List PrTopologyInput) × (((topology_of stack []
          (pr "3" "feat/c" "feat/b")).dependencies
        ≡ reverse (map (dependency []) below))
      × IsWalk stack ("3" ∷ []) "feat/b" below)
topology_of-IsWalk_example = topology_of-IsWalk stack [] (pr "3" "feat/c" "feat/b")
