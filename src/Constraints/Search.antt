-- ===== src/Constraints/Search.antt =====
-- `hasDependencyPath` of libs/runtime/src/runtime/workspace/workspace-ordering.ts. Its stack is a list
-- with the top first. The loop runs on fuel, and `none` says that the fuel was not enough.
use seqlane.Prelude.{
  ℕ, zero, suc, ◌+◌, String, Bool, true, false, Option, none, some, List, [], ◌∷◌, or_else, length,
  lookup, has,
}

-- The dependencies of each node.
abbrev pub Dependencies : Type 0
Dependencies = List (String × List String)

-- `dependencies.get(current) ?? []`
abbrev pub dependencies_at : Dependencies → String → List String
dependencies_at deps node = or_else (lookup node deps) []

-- `pending.push(dependency)` for each dependency.
abbrev pub push_all : List String → List String → List String
push_all [] pending = pending
push_all (d ∷ ds) pending = push_all ds (d ∷ pending)

-- The `while` loop.
unfoldable pub search : ℕ → Dependencies → String → List String → List String → Option Bool
unfolding has lookup
search zero deps target visited pending = none
search (suc fuel) deps target visited [] = some false
search (suc fuel) deps target visited (current ∷ pending) = elim (has current visited) [
  | true ↦ search fuel deps target visited pending
  | false ↦ elim (has target (dependencies_at deps current)) [
    | true ↦ some true
    | false ↦
        search fuel deps target (current ∷ visited)
          (push_all (dependencies_at deps current) pending)
  ]
]

-- All entries of the map together.
unfoldable pub edge_count : Dependencies → ℕ
edge_count [] = 0
edge_count ((node, ds) ∷ deps) = length ds + edge_count deps

-- Every round pops a node, and a node's dependencies are pushed once.
unfoldable pub search_fuel : Dependencies → ℕ
unfolding edge_count
search_fuel deps = suc (suc (edge_count deps))

unfoldable pub has_dependency_path : Dependencies → String → String → Bool
unfolding search search_fuel
has_dependency_path deps start target =
    or_else (search (search_fuel deps) deps target [] (start ∷ [])) false
