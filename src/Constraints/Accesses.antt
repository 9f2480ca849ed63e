-- ===== src/Constraints/Accesses.antt =====
-- The accesses of a node to workspace resources, in
-- libs/runtime/src/runtime/workspace/workspace-ordering.ts. Of a resource that another one covers, only
-- the key is read.
use seqlane.Prelude.{
  String, Bool, false, ◌||◌, not, Option, none, some, List, [], ◌∷◌, or_else, is_empty,
  if◌then◌else◌, lookup, insert, ◌==◌,
}
use seqlane.WorkspaceLock.State.{WorkspacePolicy, shared, exclusive, is_shared}
use seqlane.Plan.Nodes.{
  RunnableNode, run_task, run_workflow, mechanical, task_source, PlanNode, task, workflow,
  validation_check, validation_gate, repeat, choice, node_id_of,
}
use seqlane.Constraints.Lowering.{WorkspaceAccess, Placed}

pub record WorkspaceResource : Type 0 where
  pub key : String
  pub resources : Option (List String)

abbrev pub WorkspaceResourceRegistry : Type 0
WorkspaceResourceRegistry = Option (String → Option WorkspaceResource)

-- `DEFAULT_WORKSPACE_RESOURCE`
abbrev pub default_workspace_resource : String
default_workspace_resource = "seqlane:runtime-workspace"

abbrev resource_of : String → WorkspaceResourceRegistry → Option WorkspaceResource
resource_of id none = none
resource_of id (some get) = get id

-- `workspaceResourcesForId`, by its keys.
unfoldable pub workspace_resources_for_id : String → WorkspaceResourceRegistry → List String
workspace_resources_for_id id registry = elim (resource_of id registry) [
  | none ↦ default_workspace_resource ∷ []
  | some resource ↦
      if is_empty (or_else resource.resources [])
      then resource.key ∷ []
      else or_else resource.resources []
]

abbrev first_or_default : List String → String
first_or_default [] = default_workspace_resource
first_or_default (key ∷ keys) = key

-- The accesses, or the id of the `WorkspaceConstraintError`.
pub data Accesses : Type 0 where
  invalid_identity : String → Accesses
  accesses : List WorkspaceAccess → Accesses

abbrev pub valid_access : String → WorkspacePolicy → String → Accesses
valid_access id policy key =
    if key == ""
    then invalid_identity id
    else accesses (record { policy = policy; resource_key = key } ∷ [])

-- `taskWorkspace` and `workflowWorkspace`
unfoldable pub task_workspace : String → WorkspacePolicy → WorkspaceResourceRegistry → Accesses
unfolding workspace_resources_for_id
task_workspace id policy registry =
    valid_access id policy (first_or_default (workspace_resources_for_id id registry))

abbrev is_exclusive : Option WorkspaceAccess → Bool
is_exclusive none = false
is_exclusive (some access) = not (is_shared access.policy)

-- One round of the loop of `workspaceAccessesForRepeat`.
unfoldable pub merge_access :
    WorkspaceAccess → List (String × WorkspaceAccess) → List (String × WorkspaceAccess)
unfolding lookup insert
merge_access access merged =
    insert access.resource_key
      (record {
        resource_key = access.resource_key;
        policy =
            if is_exclusive (lookup access.resource_key merged) || not (is_shared access.policy)
            then exclusive
            else shared;
      })
      merged

abbrev values : List (String × WorkspaceAccess) → List WorkspaceAccess
values [] = []
values ((key, access) ∷ rest) = access ∷ values rest

abbrev merge_accesses :
    List WorkspaceAccess → List (String × WorkspaceAccess) → List WorkspaceAccess
merge_accesses [] merged = values merged
merge_accesses (access ∷ rest) merged = merge_accesses rest (merge_access access merged)

abbrev merged_accesses : Accesses → Accesses
merged_accesses (invalid_identity id) = invalid_identity id
merged_accesses (accesses as') = accesses (merge_accesses as' [])

-- `workspaceAccessesForRepeat`, whose body is the attempt.
unfoldable pub workspace_accesses_for_repeat : RunnableNode → WorkspaceResourceRegistry → Accesses
unfolding task_workspace merge_access
workspace_accesses_for_repeat (run_task n) registry =
    merged_accesses (task_workspace n.task_id n.workspace registry)
workspace_accesses_for_repeat (run_workflow n) registry =
    merged_accesses (task_workspace n.workflow_id n.workspace registry)

-- `resources.map(...)`
abbrev all_accesses : WorkspacePolicy → List String → List WorkspaceAccess
all_accesses policy [] = []
all_accesses policy (key ∷ keys) =
    record { policy = policy; resource_key = key } ∷ all_accesses policy keys

-- `workspaceResourcesForPlanNode`, by its keys.
unfoldable pub workspace_resources_for_plan_node :
    PlanNode → WorkspaceResourceRegistry → List String
unfolding workspace_resources_for_id
workspace_resources_for_plan_node (task n) registry = workspace_resources_for_id n.task_id registry
workspace_resources_for_plan_node (workflow n) registry =
    workspace_resources_for_id n.workflow_id registry
workspace_resources_for_plan_node (validation_check n) registry = elim n.source [
  | mechanical id ↦ default_workspace_resource ∷ []
  | task_source id workspace ↦ workspace_resources_for_id id registry
]
workspace_resources_for_plan_node (validation_gate n) registry = default_workspace_resource ∷ []
workspace_resources_for_plan_node (repeat n) registry = default_workspace_resource ∷ []
workspace_resources_for_plan_node (choice n) registry = default_workspace_resource ∷ []

unfoldable pub workspace_accesses_for_node : PlanNode → WorkspaceResourceRegistry → Accesses
unfolding workspace_resources_for_plan_node task_workspace workspace_accesses_for_repeat
workspace_accesses_for_node (task n) registry =
    accesses (all_accesses n.workspace (workspace_resources_for_plan_node (task n) registry))
workspace_accesses_for_node (workflow n) registry =
    accesses (all_accesses n.workspace (workspace_resources_for_plan_node (workflow n) registry))
workspace_accesses_for_node (validation_check n) registry = elim n.source [
  | mechanical id ↦ accesses []
  | task_source id workspace ↦ task_workspace id workspace registry
]
workspace_accesses_for_node (validation_gate n) registry = accesses []
workspace_accesses_for_node (repeat n) registry = workspace_accesses_for_repeat n.attempt registry
workspace_accesses_for_node (choice n) registry = accesses []

-- The accesses of all nodes, or the first error.
pub data Placement : Type 0 where
  misplaced : String → Placement
  placed : List Placed → Placement

abbrev pub place : String → Accesses → Placement → Placement
place node_id (invalid_identity id) rest = misplaced id
place node_id (accesses as') (misplaced id) = misplaced id
place node_id (accesses as') (placed ps) =
    placed (record { node_id = node_id; accesses = as' } ∷ ps)

-- `nodes.map((node) => workspaceAccessesForNode(node, workspaceResources))`
unfoldable pub place_nodes : List PlanNode → WorkspaceResourceRegistry → Placement
unfolding workspace_accesses_for_node
place_nodes [] registry = placed []
place_nodes (n ∷ ns) registry =
    place (node_id_of n) (workspace_accesses_for_node n registry) (place_nodes ns registry)
