-- ===== src/Constraints/Lowering.antt =====
-- The loop of `lowerWorkspaceOrdering` in
-- libs/runtime/src/runtime/workspace/workspace-ordering.ts, which adds the edges between nodes whose
-- accesses conflict. The accesses of each node are given.
use seqlane.Prelude.{
  String, Bool, false, ◌&&◌, ◌||◌, not, none, some, List, [], ◌∷◌, if◌then◌else◌, lookup, insert,
  add, add_all, ◌==◌,
}
use seqlane.WorkspaceLock.State.{WorkspacePolicy, is_shared}
use seqlane.Plan.Nodes.{PlanNode, node_id_of, depends_on_of}
use seqlane.Constraints.Search.{Dependencies, has_dependency_path}

pub record WorkspaceAccess : Type 0 where
  pub policy : WorkspacePolicy
  pub resource_key : String

-- A node with its accesses: `nodes[index]` and `accesses[index]`.
pub record Placed : Type 0 where
  pub node_id : String
  pub accesses : List WorkspaceAccess

unfoldable pub conflicts : WorkspaceAccess → WorkspaceAccess → Bool
conflicts left right =
    left.resource_key == right.resource_key
    && (not (is_shared left.policy) || not (is_shared right.policy))

unfoldable pub conflicts_any : WorkspaceAccess → List WorkspaceAccess → Bool
unfolding conflicts
conflicts_any left [] = false
conflicts_any left (right ∷ rights) = conflicts left right || conflicts_any left rights

-- `left.some((leftAccess) => right.some((rightAccess) => conflicts(leftAccess, rightAccess)))`
unfoldable pub any_conflict : List WorkspaceAccess → List WorkspaceAccess → Bool
unfolding conflicts_any
any_conflict [] rights = false
any_conflict (left ∷ lefts) rights = conflicts_any left rights || any_conflict lefts rights

-- `new Map(nodes.map((node) => [node.nodeId, new Set(node.dependsOn)]))`
unfoldable pub initial_dependencies : List PlanNode → Dependencies → Dependencies
unfolding insert add_all
initial_dependencies [] deps = deps
initial_dependencies (n ∷ ns) deps =
    initial_dependencies ns (insert (node_id_of n) (add_all (depends_on_of n) []) deps)

-- `dependencies.get(rightNodeId)?.add(leftNodeId)`
unfoldable pub add_edge : Dependencies → String → String → Dependencies
unfolding lookup insert add
add_edge deps right left = elim (lookup right deps) [
  | none ↦ deps
  | some ds ↦ insert right (add left ds) deps
]

-- The body of the inner loop.
unfoldable pub constrain_pair : Dependencies → Placed → Placed → Dependencies
unfolding any_conflict has_dependency_path add_edge
constrain_pair deps left right =
    if not (any_conflict left.accesses right.accesses)
    then deps
    else if has_dependency_path deps left.node_id right.node_id
        || has_dependency_path deps right.node_id left.node_id
    then deps
    else add_edge deps right.node_id left.node_id

unfoldable pub constrain_later : Dependencies → Placed → List Placed → Dependencies
unfolding constrain_pair
constrain_later deps left [] = deps
constrain_later deps left (right ∷ rest) =
    constrain_later (constrain_pair deps left right) left rest

unfoldable pub constrain_all : Dependencies → List Placed → Dependencies
unfolding constrain_later
constrain_all deps [] = deps
constrain_all deps (left ∷ rest) = constrain_all (constrain_later deps left rest) rest
