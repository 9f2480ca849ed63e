-- ===== src/Validation/Nodes.antt =====
-- `validateTaskDefinition`, `validateWorkflowNode` and `validateValidationNode` of
-- libs/runtime/src/runtime/validation/plan-validation.ts, for nodes that satisfy the schemas of
-- libs/core/src/plan-types.ts: their policies and sources are valid. `D` is the type of a task
-- definition, and `well_formed` the answer of `taskDefinitionSchema`.
use seqlane.Prelude.{
  String, Bool, true, false, ◌&&◌, not, Option, none, some, List, [], ◌++◌, if◌then◌else◌, lookup,
  has,
}
use seqlane.Plan.Nodes.{
  TaskNode, WorkflowNode, ValidationSource, mechanical, task_source, ValidationCheckNode,
  ValidationGatePolicy, fail, repeat_postcondition, ValidationGateNode, PlanNode, validation_check,
}
use seqlane.Validation.Issues.{
  PlanValidationIssue, missing_task_definition, invalid_task_definition,
  missing_workflow_definition, repeat_postcondition_outside_body, unknown_validation_check,
  validation_check_not_dependency, repeat_postcondition_check_out_of_scope, issue_if,
}
use seqlane.Validation.References.{NodesById}

-- The registries, and `validateDefinitions`.
pub record Definitions (D : Type 0) : Type 0 where
  pub task_definitions : Option (String → Option D)
  pub well_formed : D → Bool
  pub workflow_definitions : Option (String → Bool)
  pub validate_definitions : Bool

module _ {D : Type 0} (defs : Definitions D) where
  -- `taskDefinitions?.get(taskId)`
  abbrev pub definition_of : String → Option D
  definition_of id = elim defs.task_definitions [ none ↦ none | some get ↦ get id ]

  abbrev pub has_workflow : String → Bool
  has_workflow id = elim defs.workflow_definitions [ none ↦ false | some has ↦ has id ]

  unfoldable pub validate_task_definition : TaskNode → List PlanValidationIssue
  validate_task_definition n =
      if not defs.validate_definitions then [] else elim (definition_of n.task_id) [
        | none ↦ issue_if true missing_task_definition (some n.node_id)
        | some d ↦ issue_if (not (defs.well_formed d)) invalid_task_definition (some n.node_id)
      ]

  unfoldable pub validate_workflow_node : WorkflowNode → List PlanValidationIssue
  validate_workflow_node n =
      issue_if (defs.validate_definitions && not (has_workflow n.workflow_id))
        missing_workflow_definition (some n.node_id)

  abbrev check_source_issues : ValidationSource → String → List PlanValidationIssue
  check_source_issues (mechanical id) node_id = []
  check_source_issues (task_source id workspace) node_id = elim (definition_of id) [
    | none ↦ []
    | some d ↦ issue_if (not (defs.well_formed d)) invalid_task_definition (some node_id)
  ]

  -- `validateValidationNode` of a check.
  unfoldable pub validate_check : ValidationCheckNode → List PlanValidationIssue
  validate_check n =
      if defs.validate_definitions then check_source_issues n.source n.node_id else []

abbrev pub is_repeat_postcondition : ValidationGatePolicy → Bool
is_repeat_postcondition fail = false
is_repeat_postcondition repeat_postcondition = true

abbrev pub is_check : Option PlanNode → Bool
is_check (some (validation_check n)) = true
is_check _ = false

-- `inRepeatBody && bodyNodeIds && !bodyNodeIds.has(checkNodeId)`
abbrev pub is_outside : Bool → Option (List String) → String → Bool
is_outside in_body none id = false
is_outside in_body (some body) id = in_body && not (has id body)

-- `validateValidationNode` of a gate.
unfoldable pub validate_gate :
    ValidationGateNode → NodesById → Bool → Option (List String) → List PlanValidationIssue
unfolding lookup has
validate_gate n nodes in_repeat_body body_node_ids =
    issue_if (is_repeat_postcondition n.policy && not in_repeat_body)
      repeat_postcondition_outside_body (some n.node_id)
    ++ (if not (is_check (lookup n.check_node_id nodes))
        then issue_if true unknown_validation_check (some n.node_id)
        else issue_if (not (has n.check_node_id n.depends_on)) validation_check_not_dependency
            (some n.node_id))
    ++ issue_if (is_outside in_repeat_body body_node_ids n.check_node_id)
        repeat_postcondition_check_out_of_scope (some n.node_id)
