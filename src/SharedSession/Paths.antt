-- ===== src/SharedSession/Paths.antt =====
-- The search of shared-session-order.ts answers as that of workspace-ordering.ts.
use seqlane.Prelude.{
  ℕ, zero, suc, String, ◌≡◌, refl, inl, inr, ◌↔◌, true, Option, none, some, List, [], ◌∷◌,
  Bool-cases, Option-cases, lookup, has, ◌∙◌, sym, arith,
}
use seqlane.Plan.Nodes.{PlanNode, depends_on_of}
use seqlane.Constraints.Search.{push_all, search, search_fuel, has_dependency_path}
use seqlane.Constraints.Paths.{DependencyPath, has_dependency_path_correct}
use seqlane.SharedSession.Preflight.{edges_of, search_nodes, has_node_path}

-- The dependencies of a node, if it is there.
abbrev entry_of : Option PlanNode → Option (List String)
entry_of none = none
entry_of (some n) = some (depends_on_of n)

lookup-edges_of :
    (nodes : List (String × PlanNode)) (id : String)
    → lookup id (edges_of nodes) ≡ entry_of (lookup id nodes)
unfolding edges_of lookup
lookup-edges_of [] id = refl
lookup-edges_of ((key, n) ∷ rest) id = ground (arith, lookup-edges_of rest id)

search_nodes-search :
    (fuel : ℕ) (nodes : List (String × PlanNode)) (target : String) (visited pending : List String)
    → search_nodes fuel nodes target visited pending
      ≡ search fuel (edges_of nodes) target visited pending
unfolding search_nodes search has
search_nodes-search zero nodes target visited pending = refl
search_nodes-search (suc fuel) nodes target visited [] = refl
search_nodes-search (suc fuel) nodes target visited (current ∷ pending) =
    elim (Bool-cases (has current visited)) [
      | inl seen ↦ ground (arith, seen, search_nodes-search fuel nodes target visited pending)
      | inr fresh ↦ elim (Option-cases (lookup current nodes)) [
        | inl e ↦ ground (
          arith,
          fresh,
          e,
          lookup-edges_of nodes current,
          search_nodes-search fuel nodes target (current ∷ visited) pending,
        )
        | inr (n, e) ↦ elim (Bool-cases (has target (depends_on_of n))) [
          | inl found ↦ ground (arith, fresh, e, found, lookup-edges_of nodes current)
          | inr other ↦ ground (
            arith,
            fresh,
            e,
            other,
            lookup-edges_of nodes current,
            search_nodes-search fuel nodes target (current ∷ visited)
                (push_all (depends_on_of n) pending),
          )
        ]
      ]
    ]

pub has_node_path_correct :
    (nodes : List (String × PlanNode)) (a b : String)
    → (has_node_path nodes a b ≡ true) ↔ DependencyPath (edges_of nodes) a b
unfolding has_node_path has_dependency_path
has_node_path_correct nodes a b =
    let same : has_node_path nodes a b ≡ has_dependency_path (edges_of nodes) a b =
      ground (arith, search_nodes-search (search_fuel (edges_of nodes)) nodes b [] (a ∷ [])) in
    let (yes', no') = has_dependency_path_correct (edges_of nodes) a b in
    (λ e. yes' (sym same ∙ e), λ p. same ∙ no' p)
