-- ===== src/Validation/References.antt =====
-- `validateReferences` of libs/runtime/src/runtime/validation/plan-validation.ts. A reference that
-- satisfies `valueRefSchema` has a node id and a path of texts, so their own tests cannot fail.
use seqlane.Prelude.{
  String, Bool, true, false, not, Option, none, some, List, [], ◌++◌, is_some, if◌then◌else◌,
  holds_name, lookup, has, ◌==◌,
}
use seqlane.Binding.Json.{
  Json, undefined, null, boolean, number, string, array, object, Elements, last, element, Entries,
  empty, entry, ValueRef, value_at, as_text, parse_ref,
}
use seqlane.Binding.Resolve.{workflow_input_node_id}
use seqlane.Plan.Nodes.{PlanNode, node_id_of, depends_on_of}
use seqlane.Validation.Issues.{
  PlanValidationIssueCode, missing_value_ref_dependency, invalid_value_ref_path,
  invalid_repeat_body_reference, PlanValidationIssue, issue_if,
}

-- `nodesById`, in insertion order.
abbrev pub NodesById : Type 0
NodesById = List (String × PlanNode)

unfoldable pub is_known : NodesById → String → Bool
unfolding lookup
is_known nodes id = is_some (lookup id nodes)

abbrev pub owner_id : Option PlanNode → Option String
owner_id none = none
owner_id (some owner) = some (node_id_of owner)

-- `owner && !owner.dependsOn.includes(nodeId)`
unfoldable pub lacks_dependency : Option PlanNode → String → Bool
unfolding has
lacks_dependency none id = false
lacks_dependency (some owner) id = not (has id (depends_on_of owner))

-- What stays the same while a binding is walked: the parameters of `validateReferences`.
pub record Scope : Type 0 where
  pub owner : Option PlanNode
  pub nodes : NodesById
  pub allowed_node_ids : List String
  pub allow_workflow_input : Bool
  pub unknown_reference_code : PlanValidationIssueCode

unfoldable pub reference_issues : Scope → ValueRef → List PlanValidationIssue
unfolding has is_known lacks_dependency
reference_issues s r =
    if r.node_id == workflow_input_node_id
    then issue_if (not s.allow_workflow_input) invalid_repeat_body_reference (owner_id s.owner)
    else if has r.node_id s.allowed_node_ids
    then issue_if (lacks_dependency s.owner r.node_id) missing_value_ref_dependency
        (owner_id s.owner)
    else if not (is_known s.nodes r.node_id)
    then issue_if true s.unknown_reference_code (owner_id s.owner)
    else issue_if (lacks_dependency s.owner r.node_id) missing_value_ref_dependency
        (owner_id s.owner)

-- An object tagged as a reference that is none.
unfoldable pub is_tagged : Entries → Bool
unfolding value_at
is_tagged es = holds_name (as_text (value_at "type" es)) "ref"

unfoldable mutual
  unfolding parse_ref is_tagged reference_issues

  pub validate_references : Scope → Json → List PlanValidationIssue
  validate_references s (object es) = elim (parse_ref es) [
    | some r ↦ reference_issues s r
    | none ↦
        if is_tagged es
        then issue_if true invalid_value_ref_path (owner_id s.owner)
        else validate_entries s es
  ]
  validate_references s (array vs) = validate_elements s vs
  validate_references s undefined = []
  validate_references s null = []
  validate_references s (boolean b) = []
  validate_references s (number n) = []
  validate_references s (string t) = []

  pub validate_elements : Scope → Elements → List PlanValidationIssue
  validate_elements s last = []
  validate_elements s (element v vs) = validate_references s v ++ validate_elements s vs

  pub validate_entries : Scope → Entries → List PlanValidationIssue
  validate_entries s empty = []
  validate_entries s (entry key v rest) = validate_references s v ++ validate_entries s rest
