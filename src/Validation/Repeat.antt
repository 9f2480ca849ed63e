-- ===== src/Validation/Repeat.antt =====
-- `validateRepeat` and `validateRepeatScopedReferences` of
-- libs/runtime/src/runtime/validation/plan-validation.ts.
use seqlane.Prelude.{
  ℕ, String, Bool, true, false, ◌&&◌, ◌||◌, not, Option, none, some, List, [], ◌∷◌, ◌++◌, ltb,
  if◌then◌else◌, is_empty, is_some, holds_name, text_append, lookup, insert, has, add, add_all,
  ◌==◌,
}
use seqlane.Binding.Json.{
  Json, undefined, null, boolean, number, string, array, object, Elements, last, element, Entries,
  empty, entry, ValueRef, parse_ref,
}
use seqlane.Plan.Nodes.{
  TaskNode, RunnableNode, run_task, run_workflow, RepeatNode, PlanNode, task, workflow,
  validation_gate, repeat,
}
use seqlane.Validation.Issues.{
  PlanValidationIssue, duplicate_node_id, self_dependency, duplicate_dependency,
  missing_value_ref_dependency, invalid_repeat_limit, invalid_repeat_condition,
  invalid_repeat_reference, issue_if,
}
use seqlane.Validation.References.{NodesById, is_known}
use seqlane.Validation.Sessions.{source_issues, session_issues}
use seqlane.Validation.Nodes.{Definitions, validate_task_definition, validate_workflow_node}
use seqlane.Validation.Choice.{
  arm_id, arm_depends_on, arm_input, session_from, node_ids_of, ids_before, starts_with,
}

abbrev pub max_repeat_body_executions : ℕ
max_repeat_body_executions = 1000

-- `isValidRepeatOuterReference`
unfoldable pub is_valid_outer_reference : Option PlanNode → List String → Bool
is_valid_outer_reference (some (validation_gate n)) path =
    starts_with "value" path || starts_with "validation" path
is_valid_outer_reference (some (task n)) path = starts_with "output" path
is_valid_outer_reference (some (workflow n)) path = starts_with "output" path
is_valid_outer_reference (some (repeat n)) path = starts_with "output" path
is_valid_outer_reference _ path = false

-- The parameters of `validateRepeatScopedReferences`.
pub record RepeatScope : Type 0 where
  pub repeat_node_id : String
  pub allowed_node_ids : List String
  pub attempt_node_id : Option String
  pub outer_nodes : Option NodesById
  pub declared_dependencies : Option (List String)

abbrev pub is_outer : Option NodesById → String → Bool
is_outer none id = false
is_outer (some nodes) id = is_some (lookup id nodes)

abbrev pub outer_node : Option NodesById → String → Option PlanNode
outer_node none id = none
outer_node (some nodes) id = lookup id nodes

abbrev pub is_declared : Option (List String) → String → Bool
is_declared none id = false
is_declared (some ids) id = has id ids

-- The reference is to an outer node that is not the attempt.
unfoldable pub reads_outer : RepeatScope → ValueRef → Bool
unfolding lookup
reads_outer s r = is_outer s.outer_nodes r.node_id && not (holds_name s.attempt_node_id r.node_id)

unfoldable pub scoped_issues : RepeatScope → ValueRef → List PlanValidationIssue
unfolding reads_outer has lookup is_valid_outer_reference
scoped_issues s r =
    issue_if (reads_outer s r && not (is_declared s.declared_dependencies r.node_id))
      missing_value_ref_dependency (some s.repeat_node_id)
    ++ issue_if
        (not (has r.node_id s.allowed_node_ids)
          || holds_name s.attempt_node_id r.node_id && not (starts_with "output" r.path)
          || reads_outer s r
            && not (is_valid_outer_reference (outer_node s.outer_nodes r.node_id) r.path))
        invalid_repeat_reference (some s.repeat_node_id)

unfoldable mutual
  unfolding parse_ref scoped_issues

  pub validate_scoped : RepeatScope → Json → List PlanValidationIssue
  validate_scoped s (object es) = elim (parse_ref es) [
    | some r ↦ scoped_issues s r
    | none ↦ validate_scoped_entries s es
  ]
  validate_scoped s (array vs) = validate_scoped_elements s vs
  validate_scoped s undefined = []
  validate_scoped s null = []
  validate_scoped s (boolean b) = []
  validate_scoped s (number n) = []
  validate_scoped s (string t) = []

  pub validate_scoped_elements : RepeatScope → Elements → List PlanValidationIssue
  validate_scoped_elements s last = []
  validate_scoped_elements s (element v vs) = validate_scoped s v ++ validate_scoped_elements s vs

  pub validate_scoped_entries : RepeatScope → Entries → List PlanValidationIssue
  validate_scoped_entries s empty = []
  validate_scoped_entries s (entry key v rest) =
      validate_scoped s v ++ validate_scoped_entries s rest

-- The loop over the dependencies of the attempt; `seen` are the earlier ones.
unfoldable pub attempt_dependency_issues :
    RepeatNode → NodesById → List String → List String → List PlanValidationIssue
unfolding has is_known add
attempt_dependency_issues n nodes seen [] = []
attempt_dependency_issues n nodes seen (d ∷ ds) =
    issue_if (has d seen) duplicate_dependency (some (arm_id n.attempt))
    ++ (if d == arm_id n.attempt
        then issue_if true self_dependency (some (arm_id n.attempt))
        else if not (is_known nodes d)
        then issue_if true invalid_repeat_reference (some (arm_id n.attempt))
        else issue_if (not (has d n.depends_on)) missing_value_ref_dependency (some n.node_id))
    ++ attempt_dependency_issues n nodes (add d seen) ds

-- The attempt's input is a reference to `id` itself.
abbrev pub is_plain_reference : Json → String → Bool
is_plain_reference (object es) id = elim (parse_ref es) [
  | none ↦ false
  | some r ↦ r.node_id == id && is_empty r.path
]
is_plain_reference _ id = false

unfoldable pub attempt_input_issues : RepeatNode → List PlanValidationIssue
unfolding validate_scoped parse_ref
attempt_input_issues n =
    let input_id = text_append n.node_id ":input" in
    validate_scoped
      (record {
        repeat_node_id = n.node_id;
        allowed_node_ids = input_id ∷ [];
        attempt_node_id = none;
        outer_nodes = none;
        declared_dependencies = none;
      })
      (arm_input n.attempt)
    ++ issue_if (not (is_plain_reference (arm_input n.attempt) input_id)) invalid_repeat_reference
        (some (arm_id n.attempt))

-- The session of a task that is the attempt.
unfoldable pub attempt_session_issues : TaskNode → NodesById → List PlanValidationIssue
unfolding source_issues session_issues insert
attempt_session_issues n nodes =
    if not (is_some n.session)
    then []
    else elim (session_from n.session) [ none ↦ [] | some from ↦ source_issues nodes n from ]
      ++ session_issues (task n ∷ []) (insert n.node_id (task n) nodes)

unfoldable pub until_issues : RepeatNode → NodesById → List String → List PlanValidationIssue
unfolding has lookup is_valid_outer_reference
until_issues n nodes prior =
    let r = n.until in
    let of_attempt = r.node_id == arm_id n.attempt && starts_with "output" r.path in
    let of_prior =
      has r.node_id prior
      && has r.node_id n.depends_on
      && is_valid_outer_reference (lookup r.node_id nodes) r.path in
    issue_if (has r.node_id prior && not (has r.node_id n.depends_on)) missing_value_ref_dependency
      (some n.node_id)
    ++ issue_if (not of_attempt && not of_prior) invalid_repeat_condition (some n.node_id)

unfoldable pub next_input_issues :
    RepeatNode → NodesById → List String → Option Json → List PlanValidationIssue
unfolding validate_scoped add_all
next_input_issues n nodes prior none = []
next_input_issues n nodes prior (some binding) =
    validate_scoped
      (record {
        repeat_node_id = n.node_id;
        allowed_node_ids = add_all prior (text_append n.node_id ":input" ∷ arm_id n.attempt ∷ []);
        attempt_node_id = some (arm_id n.attempt);
        outer_nodes = some nodes;
        declared_dependencies = some n.depends_on;
      })
      binding

-- `outerNodeIds.slice(0, currentIndex)`, or nothing where the repeat is not among them.
unfoldable pub prior_ids : RepeatNode → NodesById → List String
unfolding lookup ids_before
prior_ids n nodes =
    if is_some (lookup n.node_id nodes) then ids_before n.node_id (node_ids_of nodes) else []

abbrev pub sessions_of : RunnableNode → NodesById → List PlanValidationIssue
sessions_of (run_task n) nodes = attempt_session_issues n nodes
sessions_of (run_workflow n) nodes = []

module _ {D : Type 0} (defs : Definitions D) where
  unfoldable pub attempt_node_issues : RunnableNode → List PlanValidationIssue
  unfolding validate_task_definition validate_workflow_node
  attempt_node_issues (run_task n) = validate_task_definition defs n
  attempt_node_issues (run_workflow n) = validate_workflow_node defs n

  unfoldable pub validate_repeat : RepeatNode → NodesById → List PlanValidationIssue
  unfolding is_known attempt_dependency_issues attempt_input_issues attempt_node_issues
      attempt_session_issues until_issues next_input_issues prior_ids
  validate_repeat n nodes =
      let prior = prior_ids n nodes in
      issue_if (ltb n.maximum_iterations 1 || ltb max_repeat_body_executions n.maximum_iterations)
        invalid_repeat_limit (some n.node_id)
      ++ issue_if (arm_id n.attempt == "" || is_known nodes (arm_id n.attempt)) duplicate_node_id
          (some n.node_id)
      ++ attempt_dependency_issues n nodes [] (arm_depends_on n.attempt)
      ++ attempt_input_issues n
      ++ attempt_node_issues n.attempt
      ++ sessions_of n.attempt nodes
      ++ until_issues n nodes prior
      ++ next_input_issues n nodes prior n.next_input
