-- ===== src/Validation/Tests.antt =====
-- Plans that plan-validation.ts accepts and rejects, and the theorems at one.
use seqlane.Prelude.{String, ◌≡◌, ◌≢◌, refl, Bool, true, Option, none, some, List, [], ◌∷◌, map}
use seqlane.Binding.Json.{Json, null, string, object}
use seqlane.Binding.Serialize.{ref_entries}
use seqlane.WorkspaceLock.State.{shared}
use seqlane.Plan.Nodes.{PlanSessionPolicy, reuse, PlanNode, task}
use seqlane.Constraints.Paths.{DependencyPath}
use seqlane.Validation.Issues.{
  PlanValidationIssueCode, duplicate_node_id, unknown_dependency, missing_value_ref_dependency,
  dependency_cycle as cycle_code,
}
use seqlane.Validation.References.{NodesById}
use seqlane.Validation.Sessions.{start_resolving, resolve_all}
use seqlane.Validation.Selected.{resolve_all-ends}
use seqlane.Validation.Nodes.{Definitions}
use seqlane.Validation.Cycle.{starved, dependency_cycle}
use seqlane.Validation.Plan.{Plan, index_nodes, validate_parsed_plan}
use seqlane.Validation.WellFormed.{IsWellFormed, accepted-IsWellFormed}
use seqlane.Validation.Fed.{dependency_cycle-ends}
use seqlane.Validation.Acyclic.{graph_of, accepted-acyclic}

abbrev definitions : Definitions Bool
definitions = record {
  task_definitions = some (λ id. some true);
  well_formed = λ d. d;
  workflow_definitions = none;
  validate_definitions = true;
}

abbrev reading : String → Json
reading id = object (ref_entries (record { node_id = id; path = "output" ∷ [] }))

abbrev step_of : String → Option PlanSessionPolicy → Json → List String → PlanNode
step_of id session input depends_on = task (record {
  task_id = id;
  node_id = id;
  workspace = shared;
  session = session;
  input = input;
  depends_on = depends_on;
})

abbrev plan_of : List PlanNode → Plan
plan_of nodes = record { nodes = nodes; output = null }

abbrev code_step : PlanNode
code_step = step_of "code" (some (reuse "plan")) (reading "plan") ("plan" ∷ [])

abbrev good : Plan
good = plan_of (step_of "plan" none (reading "__seqlane_input") [] ∷ code_step ∷ [])

good_accepted : validate_parsed_plan definitions good ≡ []
unfolding validate_parsed_plan
good_accepted = refl

codes_of : Plan → List PlanValidationIssueCode
unfolding validate_parsed_plan
codes_of plan = map (λ issue. issue.code) (validate_parsed_plan definitions plan)

abbrev cyclic : List PlanNode
cyclic = step_of "a" none null ("b" ∷ []) ∷ step_of "b" none null ("a" ∷ []) ∷ []

cyclic_rejected : codes_of (plan_of cyclic) ≡ cycle_code ∷ []
unfolding codes_of
cyclic_rejected = refl

several_rejected :
    codes_of (plan_of (step_of "a" none null ("z" ∷ []) ∷ step_of "a" none (reading "a") [] ∷ []))
    ≡ duplicate_node_id ∷ unknown_dependency ∷ missing_value_ref_dependency ∷ []
unfolding codes_of
several_rejected = refl

accepted-IsWellFormed_example : IsWellFormed good.nodes
accepted-IsWellFormed_example = accepted-IsWellFormed definitions good good_accepted

abbrev results : List (String × Json)
results = ("plan", string "ready") ∷ []

accepted-acyclic_example : ¬ DependencyPath (graph_of good.nodes) "code" "code"
accepted-acyclic_example = accepted-acyclic definitions good "code" good_accepted

dependency_cycle-ends_example : dependency_cycle cyclic (index_nodes cyclic []) ≢ starved
dependency_cycle-ends_example = dependency_cycle-ends cyclic

-- Each of the two tasks reuses the session of the other one.
abbrev mutual_reuse : NodesById
mutual_reuse =
    ("a", step_of "a" (some (reuse "b")) null ("b" ∷ []))
    ∷ ("b", step_of "b" (some (reuse "a")) null ("a" ∷ []))
    ∷ []

resolve_all-ends_example :
    resolve_all mutual_reuse (some start_resolving) (map (λ entry. entry.1) mutual_reuse) ≢ none
resolve_all-ends_example =
    resolve_all-ends mutual_reuse start_resolving (map (λ entry. entry.1) mutual_reuse)
