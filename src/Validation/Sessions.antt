-- ===== src/Validation/Sessions.antt =====
-- `resolveSessionSelections` of libs/runtime/src/runtime/validation/plan-validation.ts, for policies
-- that satisfy `planSessionPolicySchema`: these have a model only under `isolated` and `fork`, and a
-- valid one. A chain of sources is followed on fuel; `none` says that the fuel was not enough.
use seqlane.Prelude.{
  ℕ, zero, suc, String, true, false, not, Option, none, some, List, [], ◌∷◌, ◌++◌, or_option,
  is_some, length, lookup, insert, has, without,
}
use seqlane.Binding.Json.{Json}
use seqlane.Plan.Nodes.{PlanSessionPolicy, isolated, reuse, fork, TaskNode, PlanNode, task}
use seqlane.Validation.Issues.{
  PlanValidationIssue, invalid_session_source, missing_session_dependency, issue_if,
}
use seqlane.Validation.References.{NodesById}

abbrev pub as_task : Option PlanNode → Option TaskNode
as_task (some (task n)) = some n
as_task _ = none

-- `selections`, `resolving` and the issues so far, and what `resolve` returned.
pub record Resolving : Type 0 where
  pub selections : List (String × Option Json)
  pub resolving : List String
  pub issues : List PlanValidationIssue
  pub returned : Option Json

abbrev pub return : Resolving → Option Json → Resolving
return st selection = record st { returned = selection }

-- `selections.set(nodeId, selection); resolving.delete(nodeId); return selection;`
unfoldable pub settle_selection : Resolving → String → Option Json → Resolving
unfolding insert without
settle_selection st id selection = record st {
  selections = insert id selection st.selections;
  resolving = without id st.resolving;
  returned = selection;
}

-- The issues of a reuse or a fork of `from`.
unfoldable pub source_issues : NodesById → TaskNode → String → List PlanValidationIssue
unfolding lookup has
source_issues nodes n from =
    issue_if (not (is_some (as_task (lookup from nodes)))) invalid_session_source (some n.node_id)
    ++ issue_if (not (has from n.depends_on)) missing_session_dependency (some n.node_id)

-- `inheritedSelection` is there; `declared` is the model of a fork.
abbrev pub inherit : String → Option Json → Option Resolving → Option Resolving
inherit id declared none = none
inherit id declared (some st) = some (settle_selection st id (or_option declared st.returned))

-- A reuse or a fork of `from` by the task `n`; `go` is `resolve`.
unfoldable pub resolve_source :
    NodesById
    → Resolving
    → TaskNode
    → String
    → Option Json
    → String
    → (Resolving → String → Option Resolving)
    → Option Resolving
unfolding source_issues lookup settle_selection
resolve_source nodes st n from declared id go =
    let st' = record st { issues = st.issues ++ source_issues nodes n from } in
    elim (as_task (lookup from nodes)) [
      | none ↦ inherit id declared (some (return st' none))
      | some source ↦ inherit id declared (go st' source.node_id)
    ]

unfoldable pub resolve_policy :
    NodesById
    → Resolving
    → TaskNode
    → Option PlanSessionPolicy
    → String
    → (Resolving → String → Option Resolving)
    → Option Resolving
unfolding resolve_source settle_selection
resolve_policy nodes st n none id go = some (settle_selection st id none)
resolve_policy nodes st n (some (isolated model)) id go = some (settle_selection st id model)
resolve_policy nodes st n (some (reuse from)) id go = resolve_source nodes st n from none id go
resolve_policy nodes st n (some (fork from model)) id go =
    resolve_source nodes st n from model id go

-- `resolve`
unfoldable pub resolve_selection : ℕ → NodesById → Resolving → String → Option Resolving
unfolding lookup has resolve_policy
resolve_selection zero nodes st id = none
resolve_selection (suc fuel) nodes st id = elim (lookup id st.selections) [
  | some selection ↦ some (return st selection)
  | none ↦ elim (has id st.resolving) [
    | true ↦ some (return st none)
    | false ↦ elim (as_task (lookup id nodes)) [
      | none ↦ some (return st none)
      | some n ↦
          resolve_policy nodes (record st { resolving = id ∷ st.resolving }) n n.session id
            (resolve_selection fuel nodes)
    ]
  ]
]

-- Each call of `resolve` that goes deeper adds a node of the map to `resolving`.
unfoldable pub selection_fuel : NodesById → ℕ
selection_fuel nodes = suc (suc (length nodes))

unfoldable pub resolve_all : NodesById → Option Resolving → List PlanNode → Option Resolving
unfolding resolve_selection selection_fuel
resolve_all nodes none ns = none
resolve_all nodes (some st) [] = some st
resolve_all nodes (some st) (task n ∷ ns) =
    resolve_all nodes (resolve_selection (selection_fuel nodes) nodes st n.node_id) ns
resolve_all nodes (some st) (n ∷ ns) = resolve_all nodes (some st) ns

abbrev pub issues_of : Option Resolving → List PlanValidationIssue
issues_of none = []
issues_of (some st) = st.issues

unfoldable pub start_resolving : Resolving
start_resolving = record { selections = []; resolving = []; issues = []; returned = none }

-- `resolveSessionSelections`, by the issues that it adds.
unfoldable pub session_issues : List PlanNode → NodesById → List PlanValidationIssue
unfolding resolve_all start_resolving
session_issues ns nodes = issues_of (resolve_all nodes (some start_resolving) ns)
