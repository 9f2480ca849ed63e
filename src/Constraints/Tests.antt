-- ===== src/Constraints/Tests.antt =====
-- A map of dependencies with a cycle, and the theorems at it.
use seqlane.Prelude.{
  String, is_some, lookup, has, ◌≡◌, refl, ◌↔◌, Bool, true, false, none, some, List, [], ◌∷◌, ◌++◌,
  if◌then◌else◌, ◌==◌,
}
use seqlane.Binding.Json.{null}
use seqlane.Plan.Nodes.{PlanNode, task}
use seqlane.Validation.WellFormed.{IsGraph}
use seqlane.Validation.Acyclic.{graph_of}
use seqlane.PlanOrdering.Order.{order_all}
use seqlane.PlanOrdering.Counts.{IsExecutable}
use seqlane.Constraints.Accesses.{WorkspaceResourceRegistry, placed, place_nodes}
use seqlane.Constraints.Cycle.{visited_count}
use seqlane.Constraints.Lower.{lowered, lower_workspace_ordering}
use seqlane.Constraints.Simulated.{count_of, visited_count-order_all}
use seqlane.Constraints.Answers.{
  IsLoweredOrRejected, lower_workspace_ordering-IsLoweredOrRejected, conflicts-IsOrdered,
}
use seqlane.Constraints.Search.{Dependencies, search, search_fuel, has_dependency_path}
use seqlane.WorkspaceLock.State.{WorkspacePolicy, shared, exclusive}
use seqlane.Constraints.Lowering.{WorkspaceAccess, Placed, any_conflict, constrain_all}
use seqlane.Constraints.Serialized.{IsOrdered, conflicting-IsOrdered}
use seqlane.Constraints.Ends.{search-answers}
use seqlane.Constraints.Paths.{DependencyPath, has_dependency_path_correct}

abbrev deps : Dependencies
deps = ("test", "code" ∷ []) ∷ ("code", "plan" ∷ "test" ∷ []) ∷ ("plan", []) ∷ []

test_to_plan : has_dependency_path deps "test" "plan" ≡ true
unfolding has_dependency_path
test_to_plan = refl

plan_to_test : has_dependency_path deps "plan" "test" ≡ false
unfolding has_dependency_path
plan_to_test = refl

search-answers_example :
    (answer : Bool) × (search (search_fuel deps) deps "plan" [] ("test" ∷ []) ≡ some answer)
search-answers_example = search-answers deps "test" "plan"

has_dependency_path_correct_example :
    (has_dependency_path deps "test" "plan" ≡ true) ↔ DependencyPath deps "test" "plan"
has_dependency_path_correct_example = has_dependency_path_correct deps "test" "plan"

abbrev access : WorkspacePolicy → List WorkspaceAccess
access policy = record { policy = policy; resource_key = "repo" } ∷ []

abbrev reader : Placed
reader = record { node_id = "read"; accesses = access shared }

abbrev writer : Placed
writer = record { node_id = "write"; accesses = access exclusive }

abbrev other : Placed
other = record { node_id = "other"; accesses = [] }

abbrev free : Dependencies
free = ("read", []) ∷ ("other", []) ∷ ("write", []) ∷ []

writer_waits :
    constrain_all free (reader ∷ other ∷ writer ∷ [])
    ≡ ("read", []) ∷ ("other", []) ∷ ("write", "read" ∷ []) ∷ []
unfolding constrain_all has_dependency_path
writer_waits = refl

reader_writer_conflict : any_conflict reader.accesses writer.accesses ≡ true
unfolding any_conflict
reader_writer_conflict = refl

writer_known : is_some (lookup "write" free) ≡ true
unfolding lookup
writer_known = refl

conflicting-IsOrdered_example :
    IsOrdered (constrain_all free (reader ∷ other ∷ writer ∷ [])) reader writer
conflicting-IsOrdered_example =
    conflicting-IsOrdered [] reader (other ∷ []) writer [] free reader_writer_conflict writer_known

abbrev node_of : String → WorkspacePolicy → List String → PlanNode
node_of id policy ds = task (record {
  task_id = id;
  node_id = id;
  workspace = policy;
  session = none;
  input = null;
  depends_on = ds;
})

abbrev steps : List PlanNode
steps = node_of "read" shared [] ∷ node_of "other" shared [] ∷ node_of "write" exclusive [] ∷ []

-- The first and the last node work in one checkout.
abbrev registry : WorkspaceResourceRegistry
registry = some (λ id.
    if id == "other"
    then some (record { key = "/tmp"; resources = none })
    else some (record { key = "/repo"; resources = none }))

abbrev waiting : List PlanNode
waiting =
    node_of "read" shared []
    ∷ node_of "other" shared []
    ∷ node_of "write" exclusive ("read" ∷ [])
    ∷ []

steps_lowered : lower_workspace_ordering steps registry ≡ lowered waiting
unfolding lower_workspace_ordering has_dependency_path
steps_lowered = refl

steps-IsGraph : IsGraph steps
unfolding has
steps-IsGraph = record {
  distinct = (refl, (refl, (refl, tt)));
  dependencies = (
    record { distinct = tt; known = tt },
    (record { distinct = tt; known = tt }, (record { distinct = tt; known = tt }, tt)),
  );
}

steps-IsExecutable : IsExecutable [] steps
steps-IsExecutable = (tt, (tt, (tt, tt)))

lower_workspace_ordering-IsLoweredOrRejected_example : IsLoweredOrRejected steps registry
lower_workspace_ordering-IsLoweredOrRejected_example =
    lower_workspace_ordering-IsLoweredOrRejected steps registry steps-IsGraph steps-IsExecutable

visited_count-order_all_example : visited_count steps ≡ count_of (order_all steps)
visited_count-order_all_example = visited_count-order_all steps steps-IsGraph

abbrev placed_at : String → WorkspacePolicy → String → Placed
placed_at id policy key = record {
  node_id = id;
  accesses = record { policy = policy; resource_key = key } ∷ [];
}

steps_placed :
    place_nodes steps registry
    ≡ placed (
        []
        ++ placed_at "read" shared "/repo" ∷ (placed_at "other" shared "/tmp" ∷ [])
        ++ placed_at "write" exclusive "/repo" ∷ [])
unfolding place_nodes
steps_placed = refl

steps_conflict :
    any_conflict
      (placed_at "read" shared "/repo").accesses
      (placed_at "write" exclusive "/repo").accesses
    ≡ true
unfolding any_conflict
steps_conflict = refl

conflicts-IsOrdered_example :
    IsOrdered
      (graph_of waiting)
      (placed_at "read" shared "/repo")
      (placed_at "write" exclusive "/repo")
conflicts-IsOrdered_example =
    conflicts-IsOrdered steps registry [] (placed_at "read" shared "/repo")
      (placed_at "other" shared "/tmp" ∷ []) (placed_at "write" exclusive "/repo") [] waiting
      steps-IsGraph steps-IsExecutable steps_placed steps_conflict steps_lowered
