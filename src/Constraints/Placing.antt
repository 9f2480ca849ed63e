-- ===== src/Constraints/Placing.antt =====
-- The nodes that workspace-ordering.ts gives accesses to are those of the plan.
use seqlane.Prelude.{
  String, ◌≡◌, refl, true, List, [], ◌∷◌, ◌++◌, map, has, Distinct, eq_iff, arith,
}
use seqlane.Plan.Nodes.{PlanNode, node_id_of}
use seqlane.Validation.Accepted.{ids_of}
use seqlane.Constraints.Lowering.{Placed}
use seqlane.Constraints.Accesses.{
  WorkspaceResourceRegistry, Accesses, invalid_identity, accesses, Placement, misplaced, placed,
  place, workspace_accesses_for_node, place_nodes,
}
use seqlane.Constraints.Extended.{AreApart}

unfoldable pub placed_ids : List Placed → List String
placed_ids ps = map (λ p. p.node_id) ps

pub place-ids :
    (ns : List PlanNode) (registry : WorkspaceResourceRegistry) (ps : List Placed)
    → place_nodes ns registry ≡ placed ps
    → placed_ids ps ≡ ids_of ns
unfolding place_nodes placed_ids
place-ids [] registry ps e = ground (arith, e)
place-ids (n ∷ ns) registry ps e =
    by_node (place-ids ns registry) (workspace_accesses_for_node n registry)
      (place_nodes ns registry) refl e
  where
    by_node :
        ((qs : List Placed) → place_nodes ns registry ≡ placed qs → placed_ids qs ≡ ids_of ns)
        → (a : Accesses) (rest : Placement) → place_nodes ns registry ≡ rest
        → place (node_id_of n) a rest ≡ placed ps
        → placed_ids ps ≡ ids_of (n ∷ ns)
    by_node ih (invalid_identity id) rest f g = absurd (cc)
    by_node ih (accesses as') (misplaced id) f g = absurd (cc)
    by_node ih (accesses as') (placed qs) f g = ground (arith, g, ih qs f)

pub apart_of :
    (ids : List String) (ps : List Placed)
    → ((id : String) → has id (placed_ids ps) ≡ true → has id ids ≡ true)
    → Distinct (placed_ids ps)
    → AreApart ids ps
unfolding placed_ids has
apart_of ids [] part h = tt
apart_of ids (p ∷ ps) part h = (
  part p.node_id (ground (arith, eq_iff p.node_id p.node_id)),
  h.0,
  apart_of ids ps (λ id m. part id (ground (arith, m))) h.1,
)

pub in_list :
    (before : List Placed) (left : Placed) (between : List Placed) (right : Placed)
    (rest : List Placed)
    → has right.node_id (placed_ids (before ++ left ∷ between ++ right ∷ rest)) ≡ true
unfolding placed_ids has
in_list [] left [] right rest = ground (arith, eq_iff right.node_id right.node_id)
in_list [] left (p ∷ between) right rest = ground (arith, in_list [] left between right rest)
in_list (p ∷ before) left between right rest =
    ground (arith, in_list before left between right rest)
