-- ===== src/Constraints/Cycle.antt =====
-- `assertAcyclic` of libs/runtime/src/runtime/workspace/workspace-ordering.ts. Its loop runs on fuel,
-- as that of plan-ordering.ts does, and `none` says that the fuel was not enough.
use seqlane.Prelude.{
  ℕ, zero, suc, ◌+◌, ◌-◌, String, Bool, not, Option, none, some, List, [], ◌∷◌, ◌++◌, or_else,
  length, if◌then◌else◌, num_eq, lookup, insert, has, add_all, sort,
}
use seqlane.Plan.Nodes.{PlanNode, node_id_of, depends_on_of}
use seqlane.Validation.Accepted.{ids_of}
use seqlane.PlanOrdering.Text.{text_lt}
use seqlane.PlanOrdering.Order.{order_fuel}

-- The comparison of `sort()`, which is that of code units.
unfoldable pub id_before : String → String → Bool
unfolding text_lt
id_before left right = not (text_lt right left)

-- `dependsOn.filter((dependency) => nodeIds.has(dependency)).length`
unfoldable pub known_count : List String → List String → ℕ
unfolding has
known_count node_ids [] = 0
known_count node_ids (d ∷ ds) = (if has d node_ids then 1 else 0) + known_count node_ids ds

unfoldable pub known_counts : List String → List PlanNode → List (String × ℕ) → List (String × ℕ)
unfolding known_count insert
known_counts node_ids [] remaining = remaining
known_counts node_ids (n ∷ ns) remaining =
    known_counts node_ids ns
      (insert (node_id_of n) (known_count node_ids (depends_on_of n)) remaining)

abbrev pub children_at : String → List (String × List String) → List String
children_at id dependents = or_else (lookup id dependents) []

unfoldable pub add_child :
    List String → String → List String → List (String × List String) → List (String × List String)
unfolding has lookup insert
add_child node_ids id [] dependents = dependents
add_child node_ids id (d ∷ ds) dependents = add_child node_ids id ds (
    if has d node_ids
    then insert d (children_at d dependents ++ id ∷ []) dependents
    else dependents)

unfoldable pub add_children :
    List String → List PlanNode → List (String × List String) → List (String × List String)
unfolding add_child
add_children node_ids [] dependents = dependents
add_children node_ids (n ∷ ns) dependents =
    add_children node_ids ns (add_child node_ids (node_id_of n) (depends_on_of n) dependents)

-- `nodes.filter(({ nodeId }) => remaining.get(nodeId) === 0).map(({ nodeId }) => nodeId)`
unfoldable pub free_ids : List (String × ℕ) → List PlanNode → List String
unfolding lookup
free_ids remaining [] = []
free_ids remaining (n ∷ ns) =
    let rest = free_ids remaining ns in
    elim (lookup (node_id_of n) remaining) [
      | none ↦ rest
      | some count ↦ if num_eq count 0 then node_id_of n ∷ rest else rest
    ]

-- `remaining` and `ready`.
pub record IdFront : Type 0 where
  pub remaining : List (String × ℕ)
  pub ready : List String

unfoldable pub release_id : String → IdFront → IdFront
unfolding lookup insert sort id_before
release_id id f = record {
  remaining = insert id (or_else (lookup id f.remaining) 0 - 1) f.remaining;
  ready =
      if num_eq (or_else (lookup id f.remaining) 0) 1
      then sort id_before (f.ready ++ id ∷ [])
      else f.ready;
}

unfoldable pub release_ids : List String → IdFront → IdFront
unfolding release_id
release_ids [] f = f
release_ids (id ∷ ids) f = release_ids ids (release_id id f)

-- The `while` loop, which counts the visited nodes.
unfoldable pub count_visited :
    ℕ → List (String × List String) → List (String × ℕ) → List String → ℕ → Option ℕ
unfolding lookup release_ids
count_visited zero dependents remaining ready visited = none
count_visited (suc fuel) dependents remaining [] visited = some visited
count_visited (suc fuel) dependents remaining (id ∷ ready) visited =
    let front =
      release_ids (children_at id dependents) (record { remaining = remaining; ready = ready }) in
    count_visited fuel dependents front.remaining front.ready (visited + 1)

unfoldable pub visited_count : List PlanNode → Option ℕ
unfolding add_all known_counts add_children free_ids sort id_before count_visited order_fuel
visited_count ns =
    let node_ids = add_all (ids_of ns) [] in
    let remaining = known_counts node_ids ns [] in
    count_visited (order_fuel ns) (add_children node_ids ns []) remaining
      (sort id_before (free_ids remaining ns)) 0

-- Whether `assertAcyclic` returns.
unfoldable pub assert_acyclic : List PlanNode → Option Bool
unfolding visited_count
assert_acyclic ns = elim (visited_count ns) [
  | none ↦ none
  | some visited ↦ some (num_eq visited (length ns))
]
