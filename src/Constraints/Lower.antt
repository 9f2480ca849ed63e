-- ===== src/Constraints/Lower.antt =====
-- `lowerWorkspaceOrdering` of libs/runtime/src/runtime/workspace/workspace-ordering.ts.
use seqlane.Prelude.{String, true, false, none, some, List, [], length, map, if◌then◌else◌, num_eq}
use seqlane.Plan.Nodes.{
  PlanNode, task, workflow, validation_check, validation_gate, repeat, choice, node_id_of,
  depends_on_of,
}
use seqlane.Constraints.Search.{Dependencies, dependencies_at}
use seqlane.Constraints.Lowering.{initial_dependencies, constrain_all}
use seqlane.Constraints.Accesses.{WorkspaceResourceRegistry, misplaced, placed, place_nodes}
use seqlane.Constraints.Cycle.{assert_acyclic}

-- `{ ...node, dependsOn }`
abbrev pub with_depends_on : List String → PlanNode → PlanNode
with_depends_on ds (task n) = task (record {
  task_id = n.task_id;
  node_id = n.node_id;
  workspace = n.workspace;
  session = n.session;
  input = n.input;
  depends_on = ds;
})
with_depends_on ds (workflow n) = workflow (record {
  workflow_id = n.workflow_id;
  node_id = n.node_id;
  workspace = n.workspace;
  input = n.input;
  depends_on = ds;
})
with_depends_on ds (validation_check n) =
    validation_check
      (record { node_id = n.node_id; source = n.source; input = n.input; depends_on = ds })
with_depends_on ds (validation_gate n) = validation_gate (record {
  node_id = n.node_id;
  input = n.input;
  check_node_id = n.check_node_id;
  policy = n.policy;
  depends_on = ds;
})
with_depends_on ds (repeat n) = repeat (record {
  node_id = n.node_id;
  input = n.input;
  depends_on = ds;
  maximum_iterations = n.maximum_iterations;
  attempt = n.attempt;
  validation = n.validation;
  until = n.until;
  next_input = n.next_input;
})
with_depends_on ds (choice n) = choice (record {
  node_id = n.node_id;
  condition = n.condition;
  then_node = n.then_node;
  else_node = n.else_node;
  then_validation = n.then_validation;
  else_validation = n.else_validation;
  depends_on = ds;
})

-- A node keeps its dependencies where there are as many in the map.
unfoldable pub lower_dependencies : Dependencies → PlanNode → PlanNode
lower_dependencies deps n =
    if num_eq (length (dependencies_at deps (node_id_of n))) (length (depends_on_of n))
    then n
    else with_depends_on (dependencies_at deps (node_id_of n)) n

-- The nodes, or the error that is thrown.
pub data Lowered : Type 0 where
  starved : Lowered
  bad_identity : String → Lowered
  introduced_cycle : Lowered
  lowered : List PlanNode → Lowered

unfoldable pub checked : List PlanNode → Lowered
unfolding assert_acyclic
checked ns = elim (assert_acyclic ns) [
  | none ↦ starved
  | some true ↦ lowered ns
  | some false ↦ introduced_cycle
]

unfoldable pub lower_workspace_ordering : List PlanNode → WorkspaceResourceRegistry → Lowered
unfolding place_nodes initial_dependencies constrain_all lower_dependencies checked
lower_workspace_ordering ns registry = elim (place_nodes ns registry) [
  | misplaced id ↦ bad_identity id
  | placed ps ↦
      checked (map (lower_dependencies (constrain_all (initial_dependencies ns []) ps)) ns)
]
