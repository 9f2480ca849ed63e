-- ===== src/Plan/Tests.antt =====
-- A plan whose tasks share a session, and the theorems at it.
use seqlane.Prelude.{
  String, ◌≡◌, refl, true, Option, none, some, List, [], ◌∷◌, map, get_elem?, has, ◌==◌, ◌||◌,
  holds_name,
}
use seqlane.Binding.Json.{null}
use seqlane.WorkspaceLock.State.{shared}
use seqlane.Plan.Nodes.{
  PlanSessionPolicy, reuse, fork, task_source, PlanNode, task, validation_check, node_id_of,
  depends_on_of,
}
use seqlane.Plan.AgentWork.{plan_contains_agent_work}
use seqlane.Plan.SessionOrdering.{lower_reuse_session_ordering}
use seqlane.Plan.ReuseOrder.{reuse-depends_on}
use seqlane.Plan.Kept.{lowered-dependency_kept}

abbrev step_of : String → Option PlanSessionPolicy → List String → PlanNode
step_of id session depends_on = task (record {
  task_id = id;
  node_id = id;
  workspace = shared;
  session = session;
  input = null;
  depends_on = depends_on;
})

abbrev check : PlanNode
check = validation_check (record {
  node_id = "check";
  source = task_source "review" shared;
  input = null;
  depends_on = "plan" ∷ [];
})

abbrev first_part : List PlanNode
first_part =
    step_of "plan" none []
    ∷ step_of "code" (some (reuse "plan")) []
    ∷ step_of "ask" (some (fork "plan" none)) []
    ∷ check
    ∷ []

abbrev test_step : PlanNode
test_step = step_of "test" (some (reuse "plan")) ("check" ∷ [])

abbrev nodes : List PlanNode
nodes =
    step_of "plan" none []
    ∷ step_of "code" (some (reuse "plan")) []
    ∷ step_of "ask" (some (fork "plan" none)) []
    ∷ check
    ∷ test_step
    ∷ []

lowered_dependencies :
    map depends_on_of (lower_reuse_session_ordering nodes)
    ≡ [] ∷ ("plan" ∷ []) ∷ ("plan" ∷ []) ∷ ("plan" ∷ []) ∷ ("check" ∷ "plan" ∷ "code" ∷ []) ∷ []
unfolding lower_reuse_session_ordering
lowered_dependencies = refl

nodes_have_agent_work : plan_contains_agent_work nodes ≡ true
unfolding plan_contains_agent_work
nodes_have_agent_work = refl

reuse-depends_on_example :
    (n' : PlanNode) × (get_elem? (lower_reuse_session_ordering nodes) 4 ≡ some n')
    × (node_id_of n' ≡ "test")
    × ((d : String)
        → has d (depends_on_of n')
          ≡ (has d (depends_on_of test_step) || "plan" == d || holds_name (some "code") d))
reuse-depends_on_example = reuse-depends_on first_part test_step [] "plan" refl

test_needs_check : has "check" (depends_on_of test_step) ≡ true
unfolding has
test_needs_check = refl

lowered-dependency_kept_example :
    (n' : PlanNode) × (get_elem? (lower_reuse_session_ordering nodes) 4 ≡ some n')
    × (node_id_of n' ≡ "test")
    × (has "check" (depends_on_of n') ≡ true)
lowered-dependency_kept_example =
    lowered-dependency_kept nodes 4 test_step "check" refl test_needs_check
