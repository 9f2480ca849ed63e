-- ===== src/SharedSession/Tests.antt =====
-- Plans of three tasks, two of which share a session.
use seqlane.Prelude.{String, ◌≡◌, refl, false, none, some, List, [], ◌∷◌, if◌then◌else◌, ◌==◌}
use seqlane.Binding.Json.{null}
use seqlane.WorkspaceLock.State.{shared}
use seqlane.Plan.Nodes.{PlanNode, task}
use seqlane.SharedSession.Preflight.{
  SharedSessionTaskPair, Context, preflight_shared_session_order, reject_unordered_pairs,
}
use seqlane.SharedSession.Ordered.{AreOrdered, Uses, unrejected-AreOrdered}
use seqlane.SharedSession.Rejected.{IsUnordered, rejected-IsUnordered}

abbrev step_of : String → List String → PlanNode
step_of id depends_on = task (record {
  task_id = id;
  node_id = id;
  workspace = shared;
  session = none;
  input = null;
  depends_on = depends_on;
})

-- The invocation of a node has its id, and that of "test" has a session of its own.
abbrev context : Context
context = record {
  invocation_ids = λ id. some id;
  resolved_sessions = λ id. if id == "test" then some "own" else some "common";
}

abbrev plan : PlanNode
plan = step_of "plan" []

abbrev test : PlanNode
test = step_of "test" ("plan" ∷ [])

abbrev code : PlanNode
code = step_of "code" ("test" ∷ [])

chain_passes :
    reject_unordered_pairs (preflight_shared_session_order context (plan ∷ test ∷ code ∷ [])) ≡ none
unfolding reject_unordered_pairs preflight_shared_session_order
chain_passes = refl

plan-Uses : Uses context plan "common"
plan-Uses = record { invocation_id = "plan"; invoked = refl; resolved = refl }

code-Uses : Uses context code "common"
code-Uses = record { invocation_id = "code"; invoked = refl; resolved = refl }

unrejected-AreOrdered_example : AreOrdered (plan ∷ test ∷ code ∷ []) "plan" "code"
unrejected-AreOrdered_example =
    unrejected-AreOrdered context [] plan (test ∷ []) code [] "common" plan-Uses code-Uses
      chain_passes

abbrev review : PlanNode
review = step_of "review" []

abbrev clash : SharedSessionTaskPair
clash = record {
  first = record { node_id = "plan"; invocation_id = "plan" };
  second = record { node_id = "review"; invocation_id = "review" };
  ordered = false;
}

fork_rejected :
    reject_unordered_pairs (preflight_shared_session_order context (plan ∷ review ∷ []))
    ≡ some clash
unfolding reject_unordered_pairs preflight_shared_session_order
fork_rejected = refl

rejected-IsUnordered_example : IsUnordered context (plan ∷ review ∷ []) clash
rejected-IsUnordered_example = rejected-IsUnordered context (plan ∷ review ∷ []) clash fork_rejected
