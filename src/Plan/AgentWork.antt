-- ===== src/Plan/AgentWork.antt =====
-- libs/runtime/src/runtime/plan/agent-work.ts.
use seqlane.Prelude.{Bool, true, false, ◌||◌, Option, none, some, List, [], ◌∷◌}
use seqlane.Plan.Nodes.{
  RunnableNode, run_task, run_workflow, ValidationSource, mechanical, task_source, PlanNode, task,
  workflow, validation_check, validation_gate, repeat, choice,
}

abbrev pub is_task_source : ValidationSource → Bool
is_task_source (mechanical id) = false
is_task_source (task_source id workspace) = true

abbrev pub has_task_source : Option ValidationSource → Bool
has_task_source none = false
has_task_source (some source) = is_task_source source

-- `nodeContainsAgentWork` of the attempt of a repeat, which is a task or a workflow.
unfoldable pub attempt_contains_agent_work : RunnableNode → Bool
attempt_contains_agent_work (run_task n) = false
attempt_contains_agent_work (run_workflow n) = false

unfoldable pub node_contains_agent_work : PlanNode → Bool
unfolding attempt_contains_agent_work
node_contains_agent_work (task n) = false
node_contains_agent_work (validation_check n) = is_task_source n.source
node_contains_agent_work (validation_gate n) = false
node_contains_agent_work (workflow n) = false
node_contains_agent_work (choice n) =
    has_task_source n.then_validation || has_task_source n.else_validation
node_contains_agent_work (repeat n) = attempt_contains_agent_work n.attempt

unfoldable pub plan_contains_agent_work : List PlanNode → Bool
unfolding node_contains_agent_work
plan_contains_agent_work [] = false
plan_contains_agent_work (n ∷ ns) = node_contains_agent_work n || plan_contains_agent_work ns
