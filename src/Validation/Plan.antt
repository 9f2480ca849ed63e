-- ===== src/Validation/Plan.antt =====
-- `validateParsedPlan` of libs/runtime/src/runtime/validation/plan-validation.ts: a plan that
-- satisfies `planSchema`, so there are no canonical issues.
use seqlane.Prelude.{
  String, true, false, not, Option, none, some, List, [], ◌∷◌, ◌++◌, is_empty, if◌then◌else◌,
  insert, has, add, ◌==◌,
}
use seqlane.Binding.Json.{Json}
use seqlane.Plan.Nodes.{
  PlanNode, task, workflow, validation_check, validation_gate, repeat, choice, node_id_of,
  depends_on_of,
}
use seqlane.Validation.Issues.{
  PlanValidationIssue, empty_node_id, duplicate_node_id, unknown_dependency, self_dependency,
  duplicate_dependency, dependency_cycle as dependency_cycle_code, unknown_value_ref_target,
  issue_if,
}
use seqlane.Validation.References.{NodesById, is_known, validate_references}
use seqlane.Validation.Sessions.{session_issues}
use seqlane.Validation.Nodes.{
  Definitions, validate_task_definition, validate_workflow_node, validate_check, validate_gate,
}
use seqlane.Validation.Choice.{validate_choice}
use seqlane.Validation.Repeat.{validate_repeat}
use seqlane.Validation.Cycle.{Visit, cycle, dependency_cycle}

pub record Plan : Type 0 where
  pub nodes : List PlanNode
  pub output : Json

-- The first loop: `nodesById`, which keeps the first node of an id.
unfoldable pub index_nodes : List PlanNode → NodesById → NodesById
unfolding is_known insert
index_nodes [] nodes = nodes
index_nodes (n ∷ ns) nodes =
    index_nodes ns (if is_known nodes (node_id_of n) then nodes else insert (node_id_of n) n nodes)

unfoldable pub id_issues : List PlanNode → NodesById → List PlanValidationIssue
unfolding is_known insert
id_issues [] nodes = []
id_issues (n ∷ ns) nodes =
    issue_if (node_id_of n == "") empty_node_id (some (node_id_of n))
    ++ issue_if (is_known nodes (node_id_of n)) duplicate_node_id (some (node_id_of n))
    ++ id_issues ns (if is_known nodes (node_id_of n) then nodes else insert (node_id_of n) n nodes)

-- The loop over the dependencies of a node; `seen` are the earlier ones.
unfoldable pub dependency_issues :
    String → NodesById → List String → List String → List PlanValidationIssue
unfolding has add is_known
dependency_issues id nodes seen [] = []
dependency_issues id nodes seen (d ∷ ds) =
    issue_if (has d seen) duplicate_dependency (some id)
    ++ (if d == id
        then issue_if true self_dependency (some id)
        else issue_if (not (is_known nodes d)) unknown_dependency (some id))
    ++ dependency_issues id nodes (add d seen) ds

-- `node.input`, which a choice does not have.
abbrev pub input_of : PlanNode → Option Json
input_of (task n) = some n.input
input_of (workflow n) = some n.input
input_of (validation_check n) = some n.input
input_of (validation_gate n) = some n.input
input_of (repeat n) = some n.input
input_of (choice n) = none

abbrev pub binding_issues : Option PlanNode → NodesById → Option Json → List PlanValidationIssue
binding_issues owner nodes none = []
binding_issues owner nodes (some binding) =
    validate_references
      (record {
        owner = owner;
        nodes = nodes;
        allowed_node_ids = [];
        allow_workflow_input = true;
        unknown_reference_code = unknown_value_ref_target;
      })
      binding

module _ {D : Type 0} (defs : Definitions D) where
  -- The checks of one type of node.
  unfoldable pub kind_issues : PlanNode → NodesById → List PlanValidationIssue
  unfolding validate_task_definition validate_workflow_node validate_check validate_gate
      validate_repeat validate_choice
  kind_issues (task n) nodes = validate_task_definition defs n
  kind_issues (workflow n) nodes = validate_workflow_node defs n
  kind_issues (validation_check n) nodes = validate_check defs n
  kind_issues (validation_gate n) nodes = validate_gate n nodes false none
  kind_issues (repeat n) nodes = validate_repeat defs n nodes
  kind_issues (choice n) nodes = validate_choice defs n nodes

  -- The second loop.
  unfoldable pub node_issues : List PlanNode → NodesById → List PlanValidationIssue
  unfolding dependency_issues validate_references kind_issues
  node_issues [] nodes = []
  node_issues (n ∷ ns) nodes =
      dependency_issues (node_id_of n) nodes [] (depends_on_of n)
      ++ binding_issues (some n) nodes (input_of n)
      ++ kind_issues n nodes
      ++ node_issues ns nodes

  -- The issues before the search for a cycle.
  unfoldable pub semantic_issues : Plan → List PlanValidationIssue
  unfolding id_issues index_nodes node_issues session_issues validate_references
  semantic_issues plan =
      let nodes = index_nodes plan.nodes [] in
      id_issues plan.nodes []
      ++ node_issues plan.nodes nodes
      ++ session_issues plan.nodes nodes
      ++ binding_issues none nodes (some plan.output)

abbrev pub cycle_issues : Visit → List PlanValidationIssue
cycle_issues (cycle c) = issue_if true dependency_cycle_code none
cycle_issues _ = []

module _ {D : Type 0} (defs : Definitions D) where
  -- The issues of the error that is thrown; none are thrown where there are none.
  unfoldable pub validate_parsed_plan : Plan → List PlanValidationIssue
  unfolding semantic_issues dependency_cycle index_nodes
  validate_parsed_plan plan =
      if is_empty (semantic_issues defs plan)
      then cycle_issues (dependency_cycle plan.nodes (index_nodes plan.nodes []))
      else semantic_issues defs plan
