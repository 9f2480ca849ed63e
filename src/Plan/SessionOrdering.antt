-- ===== src/Plan/SessionOrdering.antt =====
-- `lowerReuseSessionOrdering` and `withLoweredPlanNodes` of libs/runtime/src/runtime/session/session-ordering.ts. Its map is
-- passed from node to node.
use seqlane.Prelude.{String, Option, none, some, List, [], ◌∷◌, map, or_else, lookup, insert, add}
use seqlane.Plan.Nodes.{
  PlanSessionPolicy, isolated, reuse, fork, TaskNode, PlanNode, task, node_id_of,
}

-- `previous !== undefined && !dependsOn.includes(previous)`, and the append.
abbrev pub add_previous : Option String → List String → List String
add_previous none depends_on = depends_on
add_previous (some previous) depends_on = add previous depends_on

-- The body of the callback for a task, by its session.
unfoldable pub lower_task :
    List (String × String) → TaskNode → Option PlanSessionPolicy → List (String × String) × PlanNode
unfolding add lookup insert
lower_task last_reuse n none = (last_reuse, task n)
lower_task last_reuse n (some (isolated model)) = (last_reuse, task n)
lower_task last_reuse n (some (fork from model)) =
    (last_reuse, task (record n { depends_on = add from n.depends_on }))
lower_task last_reuse n (some (reuse from)) = (
  insert from n.node_id last_reuse,
  task (record n { depends_on = add_previous (lookup from last_reuse) (add from n.depends_on) }),
)

unfoldable pub lower_node : List (String × String) → PlanNode → List (String × String) × PlanNode
unfolding lower_task
lower_node last_reuse (task n) = lower_task last_reuse n n.session
lower_node last_reuse n = (last_reuse, n)

unfoldable pub lower_nodes : List (String × String) → List PlanNode → List PlanNode
unfolding lower_node
lower_nodes last_reuse [] = []
lower_nodes last_reuse (n ∷ ns) =
    let (last_reuse', n') = lower_node last_reuse n in n' ∷ lower_nodes last_reuse' ns

unfoldable pub lower_reuse_session_ordering : List PlanNode → List PlanNode
unfolding lower_nodes
lower_reuse_session_ordering nodes = lower_nodes [] nodes

-- `new Map(loweredNodes.map((node) => [node.nodeId, node]))`
unfoldable pub nodes_by_id : List PlanNode → List (String × PlanNode) → List (String × PlanNode)
unfolding insert
nodes_by_id [] by_id = by_id
nodes_by_id (n ∷ ns) by_id = nodes_by_id ns (insert (node_id_of n) n by_id)

-- The nodes of the plan that `withLoweredPlanNodes` returns.
unfoldable pub with_lowered_plan_nodes : List PlanNode → List PlanNode → List PlanNode
unfolding nodes_by_id lookup
with_lowered_plan_nodes nodes lowered =
    map (λ n. or_else (lookup (node_id_of n) (nodes_by_id lowered [])) n) nodes
