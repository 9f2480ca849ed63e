-- ===== src/Validation/Issues.antt =====
-- The issues of libs/runtime/src/runtime/validation/plan-validation.ts, and how the checks report
-- them. A check returns the issues that it adds, in order; the array of the source is their
-- concatenation. The message of an issue, prose made of the same names, is left out.
use seqlane.Prelude.{String, Bool, Option, List, [], ◌∷◌, if◌then◌else◌}

pub data PlanValidationIssueCode : Type 0 where
  empty_node_id duplicate_node_id unknown_dependency self_dependency duplicate_dependency :
      PlanValidationIssueCode
  dependency_cycle unknown_value_ref_target missing_value_ref_dependency invalid_value_ref_path :
      PlanValidationIssueCode
  invalid_repeat_limit invalid_repeat_condition invalid_repeat_body_reference :
      PlanValidationIssueCode
  invalid_repeat_reference repeat_postcondition_outside_body : PlanValidationIssueCode
  repeat_postcondition_check_out_of_scope invalid_choice_condition : PlanValidationIssueCode
  invalid_choice_arm_reference unknown_validation_check : PlanValidationIssueCode
  validation_check_not_dependency invalid_session_source : PlanValidationIssueCode
  missing_session_dependency missing_task_definition invalid_task_definition :
      PlanValidationIssueCode
  missing_workflow_definition : PlanValidationIssueCode

pub record PlanValidationIssue : Type 0 where
  pub code : PlanValidationIssueCode
  pub node_id : Option String

-- `if (test) addIssue(issues, code, …, node_id)`
abbrev pub issue_if : Bool → PlanValidationIssueCode → Option String → List PlanValidationIssue
issue_if test code node_id = if test then record { code = code; node_id = node_id } ∷ [] else []
