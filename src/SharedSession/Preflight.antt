-- ===== src/SharedSession/Preflight.antt =====
-- The functions of libs/runtime/src/runtime/session/shared-session-order.ts. The key of a session, a
-- symbol, is a text. The search for a path runs on fuel, and `none` says that it was not enough.
use seqlane.Prelude.{
  ℕ, zero, suc, String, Bool, true, false, ◌||◌, not, Option, none, some, List, [], ◌∷◌, ◌++◌,
  or_else, if◌then◌else◌, lookup, insert, has,
}
use seqlane.Plan.Nodes.{PlanNode, node_id_of, depends_on_of}
use seqlane.Constraints.Search.{Dependencies, push_all, search_fuel}

pub record SharedSessionInvocation : Type 0 where
  pub node_id : String
  pub invocation_id : String

pub record SharedSessionTaskPair : Type 0 where
  pub first : SharedSessionInvocation
  pub second : SharedSessionInvocation
  pub ordered : Bool

-- `context.invocationIds`, and the keys of `context.resolvedSessions`.
pub record Context : Type 0 where
  pub invocation_ids : String → Option String
  pub resolved_sessions : String → Option String

-- `new Map(compiled.orderedNodes.map((node) => [node.nodeId, node]))`
unfoldable pub ordered_nodes_by_id :
    List PlanNode → List (String × PlanNode) → List (String × PlanNode)
unfolding insert
ordered_nodes_by_id [] nodes = nodes
ordered_nodes_by_id (n ∷ ns) nodes = ordered_nodes_by_id ns (insert (node_id_of n) n nodes)

-- The dependencies of the nodes of the map.
unfoldable pub edges_of : List (String × PlanNode) → Dependencies
edges_of [] = []
edges_of ((id, n) ∷ rest) = (id, depends_on_of n) ∷ edges_of rest

-- The `while` loop of `hasDependencyPath`.
unfoldable pub search_nodes :
    ℕ → List (String × PlanNode) → String → List String → List String → Option Bool
unfolding lookup has
search_nodes zero nodes target visited pending = none
search_nodes (suc fuel) nodes target visited [] = some false
search_nodes (suc fuel) nodes target visited (current ∷ pending) = elim (has current visited) [
  | true ↦ search_nodes fuel nodes target visited pending
  | false ↦ elim (lookup current nodes) [
    | none ↦ search_nodes fuel nodes target (current ∷ visited) pending
    | some n ↦ elim (has target (depends_on_of n)) [
      | true ↦ some true
      | false ↦
          search_nodes fuel nodes target (current ∷ visited) (push_all (depends_on_of n) pending)
    ]
  ]
]

unfoldable pub has_node_path : List (String × PlanNode) → String → String → Bool
unfolding search_nodes search_fuel edges_of
has_node_path nodes node_id dependency_id =
    or_else (search_nodes (search_fuel (edges_of nodes)) nodes dependency_id [] (node_id ∷ []))
      false

-- The key of the session of an invocation, if both are there.
abbrev pub session_of : Context → Option String → Option String
session_of context none = none
session_of context (some id) = context.resolved_sessions id

-- `sessions.set(session.key, [...invocations, { nodeId, invocationId }])`
abbrev pub join_session :
    String
    → Option String
    → Option String
    → List (String × List SharedSessionInvocation)
    → List (String × List SharedSessionInvocation)
join_session node_id (some id) (some key) sessions =
    insert key
      (or_else (lookup key sessions) [] ++ record { node_id = node_id; invocation_id = id } ∷ [])
      sessions
join_session node_id _ _ sessions = sessions

-- The first loop of `preflightSharedSessionOrder`.
unfoldable pub group_sessions :
    Context
    → List PlanNode
    → List (String × List SharedSessionInvocation)
    → List (String × List SharedSessionInvocation)
unfolding lookup insert
group_sessions context [] sessions = sessions
group_sessions context (n ∷ ns) sessions = group_sessions context ns (
    join_session (node_id_of n) (context.invocation_ids (node_id_of n))
      (session_of context (context.invocation_ids (node_id_of n))) sessions)

-- `pairs.push(...)`
abbrev pub pair_of :
    List (String × PlanNode)
    → SharedSessionInvocation
    → SharedSessionInvocation
    → SharedSessionTaskPair
pair_of nodes first second = record {
  first = first;
  second = second;
  ordered =
      has_node_path nodes first.node_id second.node_id
      || has_node_path nodes second.node_id first.node_id;
}

unfoldable pub pairs_with :
    List (String × PlanNode)
    → SharedSessionInvocation
    → List SharedSessionInvocation
    → List SharedSessionTaskPair
unfolding has_node_path
pairs_with nodes first [] = []
pairs_with nodes first (second ∷ rest) = pair_of nodes first second ∷ pairs_with nodes first rest

unfoldable pub pairs_in :
    List (String × PlanNode) → List SharedSessionInvocation → List SharedSessionTaskPair
unfolding pairs_with
pairs_in nodes [] = []
pairs_in nodes (first ∷ rest) = pairs_with nodes first rest ++ pairs_in nodes rest

unfoldable pub pairs_of :
    List (String × PlanNode)
    → List (String × List SharedSessionInvocation)
    → List SharedSessionTaskPair
unfolding pairs_in
pairs_of nodes [] = []
pairs_of nodes ((key, invocations) ∷ rest) = pairs_in nodes invocations ++ pairs_of nodes rest

unfoldable pub preflight_shared_session_order : Context → List PlanNode → List SharedSessionTaskPair
unfolding ordered_nodes_by_id group_sessions pairs_of
preflight_shared_session_order context ns =
    pairs_of (ordered_nodes_by_id ns []) (group_sessions context ns [])

-- `rejectUnorderedSharedSessionPairs`: the pair of the error, if it throws.
unfoldable pub reject_unordered_pairs : List SharedSessionTaskPair → Option SharedSessionTaskPair
reject_unordered_pairs [] = none
reject_unordered_pairs (pair ∷ pairs) =
    if not pair.ordered then some pair else reject_unordered_pairs pairs
