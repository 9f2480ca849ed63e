-- ===== src/Validation/Choice.antt =====
-- `validateChoice` of libs/runtime/src/runtime/validation/plan-validation.ts.
use seqlane.Prelude.{
  String, Bool, true, false, ◌&&◌, ◌||◌, not, Option, none, some, List, [], ◌∷◌, ◌++◌, map,
  if◌then◌else◌, holds_name, is_some, text_append, lookup, insert, has, ◌==◌,
}
use seqlane.Binding.Json.{Json}
use seqlane.Binding.Resolve.{workflow_input_node_id, referenced_node_ids}
use seqlane.Plan.Nodes.{
  PlanSessionPolicy, reuse, fork, TaskNode, RunnableNode, run_task, run_workflow, ChoiceNode, task,
  choice,
}
use seqlane.Validation.Issues.{
  PlanValidationIssue, duplicate_node_id, unknown_value_ref_target, invalid_choice_condition,
  invalid_choice_arm_reference, invalid_session_source, issue_if,
}
use seqlane.Validation.References.{NodesById, is_known, reference_issues}
use seqlane.Validation.Sessions.{as_task, session_issues}
use seqlane.Validation.Nodes.{Definitions, validate_task_definition, validate_workflow_node}

abbrev pub arm_id : RunnableNode → String
arm_id (run_task n) = n.node_id
arm_id (run_workflow n) = n.node_id

abbrev pub arm_depends_on : RunnableNode → List String
arm_depends_on (run_task n) = n.depends_on
arm_depends_on (run_workflow n) = n.depends_on

abbrev pub arm_input : RunnableNode → Json
arm_input (run_task n) = n.input
arm_input (run_workflow n) = n.input

-- The source of a session that is reused or forked.
abbrev pub session_from : Option PlanSessionPolicy → Option String
session_from (some (reuse from)) = some from
session_from (some (fork from model)) = some from
session_from _ = none

abbrev pub arm_session_from : RunnableNode → Option String
arm_session_from (run_task n) = session_from n.session
arm_session_from (run_workflow n) = none

abbrev pub node_ids_of : NodesById → List String
node_ids_of nodes = map (λ e. e.0) nodes

-- The ids that stand before `id`; all of them where it is missing.
unfoldable pub ids_before : String → List String → List String
ids_before id [] = []
ids_before id (k ∷ ks) = if k == id then [] else k ∷ ids_before id ks

-- `path[0] === segment`
abbrev pub starts_with : String → List String → Bool
starts_with segment [] = false
starts_with segment (s ∷ rest) = s == segment

unfoldable pub condition_issues : ChoiceNode → NodesById → List String → List PlanValidationIssue
unfolding has reference_issues
condition_issues n nodes prior =
    if not (n.condition.node_id == workflow_input_node_id)
      && (not (has n.condition.node_id prior) || not (starts_with "output" n.condition.path))
    then issue_if true invalid_choice_condition (some n.node_id)
    else reference_issues
        (record {
          owner = some (choice n);
          nodes = nodes;
          allowed_node_ids = [];
          allow_workflow_input = true;
          unknown_reference_code = unknown_value_ref_target;
        })
        n.condition

-- `arm.session.from === dependency` and the arm does not read its output.
unfoldable pub is_session_only : RunnableNode → String → Bool
unfolding has referenced_node_ids
is_session_only arm dependency =
    holds_name (arm_session_from arm) dependency
    && not (has dependency (referenced_node_ids (arm_input arm)))

unfoldable pub arm_dependency_issues :
    ChoiceNode → RunnableNode → List String → List String → List PlanValidationIssue
unfolding has is_session_only
arm_dependency_issues n arm prior [] = []
arm_dependency_issues n arm prior (d ∷ ds) =
    issue_if (not (has d prior) || not (is_session_only arm d) && not (has d n.depends_on))
      invalid_choice_arm_reference (some n.node_id)
    ++ arm_dependency_issues n arm prior ds

unfoldable pub arm_reference_issues :
    ChoiceNode → RunnableNode → List String → List String → List PlanValidationIssue
unfolding has
arm_reference_issues n arm prior [] = []
arm_reference_issues n arm prior (r ∷ rs) =
    issue_if
      (not (r == workflow_input_node_id)
        && (not (has r prior) || not (has r (arm_depends_on arm)) || not (has r n.depends_on)))
      invalid_choice_arm_reference (some n.node_id)
    ++ arm_reference_issues n arm prior rs

-- The issues of a session source of a task arm.
unfoldable pub arm_source_issues :
    TaskNode → NodesById → List String → Option String → List PlanValidationIssue
unfolding has lookup
arm_source_issues n nodes prior none = []
arm_source_issues n nodes prior (some from) =
    issue_if
      (not (has from prior)
        || not (is_some (as_task (lookup from nodes)))
        || not (has from n.depends_on))
      invalid_session_source (some n.node_id)

module _ {D : Type 0} (defs : Definitions D) where
  unfoldable pub arm_node_issues : RunnableNode → NodesById → List String → List PlanValidationIssue
  unfolding validate_task_definition validate_workflow_node session_issues arm_source_issues insert
  arm_node_issues (run_task n) nodes prior =
      validate_task_definition defs n
      ++ session_issues (task n ∷ []) (insert n.node_id (task n) nodes)
      ++ arm_source_issues n nodes prior (session_from n.session)
  arm_node_issues (run_workflow n) nodes prior = validate_workflow_node defs n

  -- One round of the loop over the arms.
  unfoldable pub validate_arm :
      ChoiceNode → String → RunnableNode → NodesById → List String → List PlanValidationIssue
  unfolding is_known arm_dependency_issues arm_reference_issues referenced_node_ids arm_node_issues
  validate_arm n key arm nodes prior =
      issue_if
        (not (arm_id arm == text_append n.node_id (text_append ":" key))
          || is_known nodes (arm_id arm))
        duplicate_node_id (some n.node_id)
      ++ arm_dependency_issues n arm prior (arm_depends_on arm)
      ++ arm_reference_issues n arm prior (referenced_node_ids (arm_input arm))
      ++ arm_node_issues arm nodes prior

  unfoldable pub validate_choice : ChoiceNode → NodesById → List PlanValidationIssue
  unfolding ids_before condition_issues validate_arm
  validate_choice n nodes =
      let prior = ids_before n.node_id (node_ids_of nodes) in
      condition_issues n nodes prior
      ++ validate_arm n "then" n.then_node nodes prior
      ++ validate_arm n "else" n.else_node nodes prior
