-- ===== src/Plan/Kept.antt =====
-- What `lowerReuseSessionOrdering` leaves as it is.
use seqlane.Prelude.{
  ℕ, zero, suc, String, ◌≡◌, refl, true, Option, none, some, List, [], ◌∷◌, get_elem?, lookup, has,
  add-grows, arith,
}
use seqlane.Plan.Nodes.{
  PlanSessionPolicy, isolated, reuse, fork, TaskNode, PlanNode, task, workflow, validation_check,
  validation_gate, repeat, choice, node_id_of, depends_on_of,
}
use seqlane.Plan.SessionOrdering.{
  add_previous, lower_task, lower_node, lower_nodes, lower_reuse_session_ordering,
}

-- The node has the same id, and no dependency is lost.
abbrev Keeps : PlanNode → PlanNode → String → Type 0
Keeps n n' d = (node_id_of n' ≡ node_id_of n) × (has d (depends_on_of n') ≡ true)

add_previous-grows :
    (o : Option String) (d : String) (ds : List String)
    → has d ds ≡ true
    → has d (add_previous o ds) ≡ true
add_previous-grows none d ds h = h
add_previous-grows (some p) d ds h = add-grows p d ds h

task-Keeps :
    (last : List (String × String)) (n : TaskNode) (session : Option PlanSessionPolicy) (d : String)
    → has d n.depends_on ≡ true
    → Keeps (task n) (lower_task last n session).1 d
unfolding lower_task
task-Keeps last n none d h = (refl, h)
task-Keeps last n (some (isolated m)) d h = (refl, h)
task-Keeps last n (some (fork from m)) d h = (refl, add-grows from d n.depends_on h)
task-Keeps last n (some (reuse from)) d h =
    (refl, add_previous-grows (lookup from last) d _ (add-grows from d n.depends_on h))

node-Keeps :
    (last : List (String × String)) (n : PlanNode) (d : String)
    → has d (depends_on_of n) ≡ true
    → Keeps n (lower_node last n).1 d
unfolding lower_node
node-Keeps last (task n) d h = task-Keeps last n n.session d h
node-Keeps last (workflow n) d h = (refl, h)
node-Keeps last (validation_check n) d h = (refl, h)
node-Keeps last (validation_gate n) d h = (refl, h)
node-Keeps last (repeat n) d h = (refl, h)
node-Keeps last (choice n) d h = (refl, h)

nodes-Keeps :
    (nodes : List PlanNode) (last : List (String × String)) (i : ℕ) (n : PlanNode) (d : String)
    → get_elem? nodes i ≡ some n
    → has d (depends_on_of n) ≡ true
    → (n' : PlanNode) × (get_elem? (lower_nodes last nodes) i ≡ some n') × Keeps n n' d
unfolding lower_nodes
nodes-Keeps [] last i n d at_i h = absurd (cc)
nodes-Keeps (m ∷ nodes) last zero n d at_i h =
    let same : m ≡ n = ground arith in
    ((lower_node last m).1, refl, rw same (node-Keeps last n d h))
nodes-Keeps (m ∷ nodes) last (suc i) n d at_i h =
    nodes-Keeps nodes (lower_node last m).0 i n d at_i h

-- At the place of a node that depends on `d`, the lowered list has a node with the same id that
-- depends on `d` too.
pub lowered-dependency_kept :
    (nodes : List PlanNode) (i : ℕ) (n : PlanNode) (d : String)
    → get_elem? nodes i ≡ some n
    → has d (depends_on_of n) ≡ true
    → (n' : PlanNode) × (get_elem? (lower_reuse_session_ordering nodes) i ≡ some n')
      × (node_id_of n' ≡ node_id_of n)
      × (has d (depends_on_of n') ≡ true)
unfolding lower_reuse_session_ordering
lowered-dependency_kept nodes i n d at_i h =
    let (n', found, kept) = nodes-Keeps nodes [] i n d at_i h in (n', found, kept.0, kept.1)
