-- ===== src/PlanOrdering/Tests.antt =====
-- Plans that plan-ordering.ts orders and rejects.
use seqlane.Prelude.{
  String, ◌≡◌, ◌≢◌, refl, Bool, true, none, some, List, [], ◌∷◌, map, lookup, has,
}
use seqlane.Binding.Json.{null}
use seqlane.Constraints.Paths.{DependencyPath, edge, via}
use seqlane.WorkspaceLock.State.{shared}
use seqlane.Plan.Nodes.{PlanNode, task, node_id_of}
use seqlane.PlanOrdering.Text.{text_lt}
use seqlane.Validation.Issues.{dependency_cycle, issue_if}
use seqlane.Validation.Plan.{Plan}
use seqlane.Validation.WellFormed.{IsGraph}
use seqlane.Validation.Acyclic.{graph_of}
use seqlane.PlanOrdering.Order.{Ordered, starved, rejected, ordered, order_parsed_plan_nodes}
use seqlane.PlanOrdering.Ends.{order_parsed_plan_nodes-ends}
use seqlane.PlanOrdering.Complete.{IsOrderedOrRejected, order_plan_nodes-IsOrderedOrRejected}
use seqlane.PlanOrdering.Cycles.{cyclic-rejected}

abbrev step_of : String → List String → PlanNode
step_of id depends_on = task (record {
  task_id = id;
  node_id = id;
  workspace = shared;
  session = none;
  input = null;
  depends_on = depends_on;
})

abbrev ids_in : Ordered → List String
ids_in (ordered ns) = map node_id_of ns
ids_in _ = []

abbrev diamond : List PlanNode
diamond =
    step_of "end" ("right" ∷ "left" ∷ [])
    ∷ step_of "right" ("start" ∷ [])
    ∷ step_of "start" []
    ∷ step_of "left" ("start" ∷ [])
    ∷ []

diamond_ordered : ids_in (order_parsed_plan_nodes diamond) ≡ "start" ∷ "left" ∷ "right" ∷ "end" ∷ []
unfolding order_parsed_plan_nodes
diamond_ordered = refl

prefix_first : text_lt "node" "node-1" ≡ true
unfolding text_lt
prefix_first = refl

abbrev diamond_plan : Plan
diamond_plan = record { nodes = diamond; output = null }

order_plan_nodes-IsOrderedOrRejected_example :
    IsOrderedOrRejected true (some (λ id. some true)) (λ (d : Bool). d) diamond_plan
order_plan_nodes-IsOrderedOrRejected_example =
    order_plan_nodes-IsOrderedOrRejected true (some (λ id. some true)) (λ (d : Bool). d)
      diamond_plan

abbrev loop : List PlanNode
loop = step_of "a" ("b" ∷ []) ∷ step_of "b" ("a" ∷ []) ∷ []

order_parsed_plan_nodes-ends_example : order_parsed_plan_nodes loop ≢ starved
order_parsed_plan_nodes-ends_example = order_parsed_plan_nodes-ends loop

loop-IsGraph : IsGraph loop
unfolding has
loop-IsGraph = record {
  distinct = (refl, (refl, tt));
  dependencies = (
    record { distinct = (refl, tt); known = ((refl, refl), tt) },
    (record { distinct = (refl, tt); known = ((refl, refl), tt) }, tt),
  );
}

loop_path : DependencyPath (graph_of loop) "a" "a"
unfolding has lookup
loop_path = via {d = "b"} refl (edge refl)

cyclic-rejected_example :
    order_parsed_plan_nodes loop ≡ rejected (issue_if true dependency_cycle none)
cyclic-rejected_example = cyclic-rejected loop "a" loop-IsGraph loop_path
