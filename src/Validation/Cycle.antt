-- ===== src/Validation/Cycle.antt =====
-- `dependencyCycle` of libs/runtime/src/runtime/validation/plan-validation.ts. The recursion of
-- `visit` runs on fuel, and `starved` says that the fuel was not enough.
use seqlane.Prelude.{
  ℕ, zero, suc, String, true, false, Option, none, some, List, [], ◌∷◌, ◌++◌, length, if◌then◌else◌,
  lookup, insert, ◌==◌,
}
use seqlane.Plan.Nodes.{PlanNode, node_id_of, depends_on_of}
use seqlane.Validation.References.{NodesById, is_known}

pub data Mark : Type 0 where
  visiting visited : Mark

-- `state` and `path`.
pub record Walk : Type 0 where
  pub marks : List (String × Mark)
  pub path : List String

-- What `visit` does: it returns a cycle, or undefined.
pub data Visit : Type 0 where
  starved : Visit
  cycle : List String → Visit
  passed : Walk → Visit

-- `path.slice(path.indexOf(nodeId))`
unfoldable pub from_id : String → List String → List String
from_id id [] = []
from_id id (k ∷ ks) = if k == id then k ∷ ks else from_id id ks

-- `path.pop()`
unfoldable pub drop_last : List String → List String
drop_last [] = []
drop_last (k ∷ []) = []
drop_last (k ∷ j ∷ ks) = k ∷ drop_last (j ∷ ks)

-- `node.dependsOn`, where there is a node.
abbrev pub node_dependencies : Option PlanNode → List String
node_dependencies none = []
node_dependencies (some n) = depends_on_of n

-- The loop over the dependencies; `go` is `visit`.
unfoldable pub visit_each : NodesById → Walk → List String → (Walk → String → Visit) → Visit
unfolding is_known
visit_each nodes w [] go = passed w
visit_each nodes w (d ∷ ds) go = elim (is_known nodes d) [
  | false ↦ visit_each nodes w ds go
  | true ↦ elim (go w d) [
    | starved ↦ starved
    | cycle c ↦ cycle c
    | passed w' ↦ visit_each nodes w' ds go
  ]
]

-- The end of `visit`.
abbrev pub leave_node : String → Visit → Visit
leave_node id starved = starved
leave_node id (cycle c) = cycle c
leave_node id (passed w) =
    passed (record { marks = insert id visited w.marks; path = drop_last w.path })

abbrev pub enter_node : String → Walk → Walk
enter_node id w = record { marks = insert id visiting w.marks; path = w.path ++ id ∷ [] }

unfoldable pub visit : ℕ → NodesById → Walk → String → Visit
unfolding lookup insert from_id drop_last visit_each
visit zero nodes w id = starved
visit (suc fuel) nodes w id = elim (lookup id w.marks) [
  | some visiting ↦ cycle (from_id id w.path ++ id ∷ [])
  | some visited ↦ passed w
  | none ↦
      leave_node id (
        visit_each nodes (enter_node id w) (node_dependencies (lookup id nodes)) (visit fuel nodes))
]

-- Each call of `visit` that goes deeper marks a node of the map.
unfoldable pub visit_fuel : NodesById → ℕ
visit_fuel nodes = suc (length nodes)

unfoldable pub visit_nodes : NodesById → Walk → List PlanNode → Visit
unfolding visit visit_fuel
visit_nodes nodes w [] = passed w
visit_nodes nodes w (n ∷ ns) = elim (visit (visit_fuel nodes) nodes w (node_id_of n)) [
  | starved ↦ starved
  | cycle c ↦ cycle c
  | passed w' ↦ visit_nodes nodes w' ns
]

unfoldable pub dependency_cycle : List PlanNode → NodesById → Visit
unfolding visit_nodes
dependency_cycle ns nodes = visit_nodes nodes (record { marks = []; path = [] }) ns
