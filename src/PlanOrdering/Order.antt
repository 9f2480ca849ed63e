-- ===== src/PlanOrdering/Order.antt =====
-- `orderParsedPlanNodes` and `orderPlanNodes` of libs/runtime/src/runtime/plan/plan-ordering.ts. The
-- `while` loop runs on fuel, and `starved` says that the fuel was not enough. A count of remaining
-- dependencies is a natural number: the code counts on below 0, where no test holds either.
use seqlane.Prelude.{
  ℕ, zero, suc, ◌+◌, ◌-◌, String, Bool, true, not, Option, none, some, List, [], ◌∷◌, ◌++◌, or_else,
  is_empty, length, if◌then◌else◌, num_eq, lookup, insert, sort,
}
use seqlane.Plan.Nodes.{PlanNode, node_id_of, depends_on_of}
use seqlane.Validation.Issues.{PlanValidationIssue, dependency_cycle, issue_if}
use seqlane.Validation.Nodes.{Definitions}
use seqlane.Validation.Plan.{Plan, validate_parsed_plan}
use seqlane.PlanOrdering.Text.{text_lt}

-- `compareNodes(left, right) <= 0`
unfoldable pub node_before : PlanNode → PlanNode → Bool
unfolding text_lt
node_before left right = not (text_lt (node_id_of right) (node_id_of left))

unfoldable pub insert_ready_node : List PlanNode → PlanNode → List PlanNode
unfolding node_before sort
insert_ready_node queue node = sort node_before (queue ++ node ∷ [])

-- `dependents` and `remainingDependencies`.
pub record Tables : Type 0 where
  pub dependents : List (String × List PlanNode)
  pub remaining : List (String × ℕ)

abbrev pub dependents_at : String → List (String × List PlanNode) → List PlanNode
dependents_at id dependents = or_else (lookup id dependents) []

-- `remainingDependencies.get(nodeId) ?? 0`
abbrev pub remaining_at : String → List (String × ℕ) → ℕ
remaining_at id remaining = or_else (lookup id remaining) 0

-- The inner loop over `node.dependsOn`.
unfoldable pub add_dependent :
    PlanNode → List String → List (String × List PlanNode) → List (String × List PlanNode)
unfolding lookup insert
add_dependent n [] dependents = dependents
add_dependent n (d ∷ ds) dependents =
    add_dependent n ds (insert d (dependents_at d dependents ++ n ∷ []) dependents)

-- The first loop.
unfoldable pub tabulate : List PlanNode → Tables → Tables
unfolding add_dependent insert
tabulate [] t = t
tabulate (n ∷ ns) t = tabulate ns (record {
  dependents = add_dependent n (depends_on_of n) t.dependents;
  remaining = insert (node_id_of n) (length (depends_on_of n)) t.remaining;
})

-- `plan.nodes.filter(({ nodeId }) => remainingDependencies.get(nodeId) === 0)`
unfoldable pub without_dependencies : List (String × ℕ) → List PlanNode → List PlanNode
unfolding lookup
without_dependencies remaining [] = []
without_dependencies remaining (n ∷ ns) =
    let rest = without_dependencies remaining ns in
    elim (lookup (node_id_of n) remaining) [
      | none ↦ rest
      | some count ↦ if num_eq count 0 then n ∷ rest else rest
    ]

-- `remainingDependencies` and `ready`.
pub record Front : Type 0 where
  pub remaining : List (String × ℕ)
  pub ready : List PlanNode

-- One round of the loop over the dependents of a node.
unfoldable pub release : PlanNode → Front → Front
unfolding lookup insert insert_ready_node
release n f = record {
  remaining = insert (node_id_of n) (remaining_at (node_id_of n) f.remaining - 1) f.remaining;
  ready =
      if num_eq (remaining_at (node_id_of n) f.remaining) 1
      then insert_ready_node f.ready n
      else f.ready;
}

unfoldable pub release_all : List PlanNode → Front → Front
unfolding release
release_all [] f = f
release_all (n ∷ ns) f = release_all ns (release n f)

-- The `while` loop, which returns `orderedNodes`.
unfoldable pub order_loop :
    ℕ
    → List (String × List PlanNode)
    → List (String × ℕ)
    → List PlanNode
    → List PlanNode
    → Option (List PlanNode)
unfolding lookup release_all
order_loop zero dependents remaining ready ordered = none
order_loop (suc fuel) dependents remaining [] ordered = some ordered
order_loop (suc fuel) dependents remaining (n ∷ ready) ordered =
    let front =
      release_all (dependents_at (node_id_of n) dependents)
        (record { remaining = remaining; ready = ready }) in
    order_loop fuel dependents front.remaining front.ready (ordered ++ n ∷ [])

-- A node is ready at the start, or once when its count becomes 0.
unfoldable pub order_fuel : List PlanNode → ℕ
order_fuel ns = suc (length ns + length ns)

unfoldable pub order_all : List PlanNode → Option (List PlanNode)
unfolding tabulate without_dependencies sort node_before order_loop order_fuel
order_all ns =
    let t = tabulate ns (record { dependents = []; remaining = [] }) in
    order_loop (order_fuel ns) t.dependents t.remaining
      (sort node_before (without_dependencies t.remaining ns)) []

-- What the functions return, or the issues of the error that they throw.
pub data Ordered : Type 0 where
  starved : Ordered
  rejected : List PlanValidationIssue → Ordered
  ordered : List PlanNode → Ordered

unfoldable pub order_parsed_plan_nodes : List PlanNode → Ordered
unfolding order_all
order_parsed_plan_nodes ns = elim (order_all ns) [
  | none ↦ starved
  | some nodes ↦
      if num_eq (length nodes) (length ns)
      then ordered nodes
      else rejected (issue_if true dependency_cycle none)
]

-- The registries that `validatePlan` is called with: there are no workflow definitions.
abbrev pub ordering_definitions :
    {D : Type 0} → Bool → Option (String → Option D) → (D → Bool) → Definitions D
ordering_definitions validate_definitions task_definitions well_formed = record {
  task_definitions = task_definitions;
  well_formed = well_formed;
  workflow_definitions = none;
  validate_definitions = validate_definitions;
}

-- For a plan that satisfies `planSchema`. `well_formed` is the answer of `taskDefinitionSchema`.
unfoldable pub order_plan_nodes :
    {D : Type 0} → Bool → Option (String → Option D) → (D → Bool) → Plan → Ordered
unfolding validate_parsed_plan order_parsed_plan_nodes
order_plan_nodes validate_definitions task_definitions well_formed plan =
    let issues =
      validate_parsed_plan (ordering_definitions validate_definitions task_definitions well_formed)
        plan in
    if is_empty issues then order_parsed_plan_nodes plan.nodes else rejected issues
