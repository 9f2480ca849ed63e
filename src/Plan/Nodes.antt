-- ===== src/Plan/Nodes.antt =====
-- The nodes of a plan, of libs/core/src/plan-types.ts. A model selection is passed on as a value.
use seqlane.Prelude.{String, ℕ, Option, List}
use seqlane.Binding.Json.{Json, ValueRef}
use seqlane.WorkspaceLock.State.{WorkspacePolicy}

pub data PlanSessionPolicy : Type 0 where
  isolated : (model : Option Json) → PlanSessionPolicy
  reuse : (from : String) → PlanSessionPolicy
  fork : (from : String) (model : Option Json) → PlanSessionPolicy

pub record TaskNode : Type 0 where
  pub task_id : String
  pub node_id : String
  pub workspace : WorkspacePolicy
  pub session : Option PlanSessionPolicy
  pub input : Json
  pub depends_on : List String

pub record WorkflowNode : Type 0 where
  pub workflow_id : String
  pub node_id : String
  pub workspace : WorkspacePolicy
  pub input : Json
  pub depends_on : List String

pub data ValidationSource : Type 0 where
  mechanical : (validator_id : String) → ValidationSource
  task_source : (task_id : String) (workspace : WorkspacePolicy) → ValidationSource

pub record ValidationCheckNode : Type 0 where
  pub node_id : String
  pub source : ValidationSource
  pub input : Json
  pub depends_on : List String

pub data ValidationGatePolicy : Type 0 where
  fail repeat_postcondition : ValidationGatePolicy

pub record ValidationGateNode : Type 0 where
  pub node_id : String
  pub input : Json
  pub check_node_id : String
  pub policy : ValidationGatePolicy
  pub depends_on : List String

pub data RunnableNode : Type 0 where
  run_task : TaskNode → RunnableNode
  run_workflow : WorkflowNode → RunnableNode

-- The validation of an attempt or of a branch is its source.
pub record RepeatNode : Type 0 where
  pub node_id : String
  pub input : Json
  pub depends_on : List String
  pub maximum_iterations : ℕ
  pub attempt : RunnableNode
  pub validation : Option ValidationSource
  pub until : ValueRef
  pub next_input : Option Json

pub record ChoiceNode : Type 0 where
  pub node_id : String
  pub condition : ValueRef
  pub then_node : RunnableNode
  pub else_node : RunnableNode
  pub then_validation : Option ValidationSource
  pub else_validation : Option ValidationSource
  pub depends_on : List String

pub data PlanNode : Type 0 where
  task : TaskNode → PlanNode
  workflow : WorkflowNode → PlanNode
  validation_check : ValidationCheckNode → PlanNode
  validation_gate : ValidationGateNode → PlanNode
  repeat : RepeatNode → PlanNode
  choice : ChoiceNode → PlanNode

-- `node.nodeId`
abbrev pub node_id_of : PlanNode → String
node_id_of (task n) = n.node_id
node_id_of (workflow n) = n.node_id
node_id_of (validation_check n) = n.node_id
node_id_of (validation_gate n) = n.node_id
node_id_of (repeat n) = n.node_id
node_id_of (choice n) = n.node_id

-- `node.dependsOn`
abbrev pub depends_on_of : PlanNode → List String
depends_on_of (task n) = n.depends_on
depends_on_of (workflow n) = n.depends_on
depends_on_of (validation_check n) = n.depends_on
depends_on_of (validation_gate n) = n.depends_on
depends_on_of (repeat n) = n.depends_on
depends_on_of (choice n) = n.depends_on
