-- ===== src/Validation/Fed.antt =====
-- The search for a cycle in plan-validation.ts always answers.
use seqlane.Prelude.{
  ℕ, zero, suc, ◌≤◌, ◌<◌, String, ◌≡◌, ◌≢◌, refl, sym, ◌∙◌, subst, true, Option, none, some, List,
  [], ◌∷◌, ◌++◌, length, lookup, insert, has, All, eq_iff, arith,
}
use seqlane.Plan.Nodes.{PlanNode, node_id_of}
use seqlane.Validation.References.{NodesById, is_known}
use seqlane.Validation.Cycle.{
  Mark, visiting, visited, Walk, Visit, starved, cycle, passed, node_dependencies, from_id,
  visit_each, leave_node, enter_node, visit, visit_fuel, visit_nodes, dependency_cycle,
}
use seqlane.Validation.Plan.{index_nodes}
use seqlane.Validation.Accepted.{ids_of, is_known-index}
use seqlane.Validation.Ends.{
  unmarked, Keeps, insert-Keeps, unmarked-mark, Ends, visit_each-Keeps, visit_each-fed,
}

abbrev on_mark : ℕ → NodesById → Walk → String → Option Mark → Visit
on_mark fuel nodes w id (some visiting) = cycle (from_id id w.path ++ id ∷ [])
on_mark fuel nodes w id (some visited) = passed w
on_mark fuel nodes w id none =
    leave_node id
      (visit_each nodes (enter_node id w) (node_dependencies (lookup id nodes)) (visit fuel nodes))

visit-suc :
    (fuel : ℕ) (nodes : NodesById) (w : Walk) (id : String)
    → visit (suc fuel) nodes w id ≡ on_mark fuel nodes w id (lookup id w.marks)
unfolding visit
visit-suc fuel nodes w id = by_mark (lookup id w.marks)
  where
    by_mark :
        (m : Option Mark)
        → elim m [
          | some visiting ↦ cycle (from_id id w.path ++ id ∷ [])
          | some visited ↦ passed w
          | none ↦ leave_node id (
              visit_each nodes
                (enter_node id w)
                (node_dependencies (lookup id nodes))
                (visit fuel nodes))
        ]
          ≡ on_mark fuel nodes w id m
    by_mark (some visiting) = refl
    by_mark (some visited) = refl
    by_mark none = refl

leave-Keeps :
    (id : String) (v : Visit) (w' : Walk) (old : List (String × Mark))
    → leave_node id v ≡ passed w'
    → ((w : Walk) → v ≡ passed w → Keeps old w.marks)
    → Keeps old w'.marks
leave-Keeps id starved w' old e k = absurd (cc)
leave-Keeps id (cycle c) w' old e k = absurd (cc)
leave-Keeps id (passed w) w' old e k =
    let same : insert id visited w.marks ≡ w'.marks = ground (arith, e) in
    subst (Keeps old) same (λ v h. insert-Keeps id visited w.marks v (k w refl v h))

leave-fed : (id : String) (v : Visit) → v ≢ starved → leave_node id v ≢ starved
leave-fed id starved h = absurd (h refl)
leave-fed id (cycle c) h = λ e. cc
leave-fed id (passed w) h = λ e. cc

visit-Ends : (fuel : ℕ) (nodes : NodesById) → Ends nodes fuel (visit fuel nodes)
unfolding visit
visit-Ends zero nodes = record {
  keeps = λ w w' d e. absurd (cc);
  fed = λ w d few. absurd (omega arith);
}
visit-Ends (suc fuel) nodes = record {
  keeps = λ w w' id e.
      keeps_by (visit-Ends fuel nodes) w w' id (lookup id w.marks)
        (sym (visit-suc fuel nodes w id) ∙ e);
  fed = λ w id few known.
      subst (λ z. z ≢ starved) (sym (visit-suc fuel nodes w id))
        (fed_by (visit-Ends fuel nodes) w id few known (lookup id w.marks) refl);
}
  where
    keeps_by :
        Ends nodes fuel (visit fuel nodes)
        → (w w' : Walk) (id : String) (m : Option Mark) → on_mark fuel nodes w id m ≡ passed w'
        → Keeps w.marks w'.marks
    keeps_by step w w' id (some visiting) e = absurd (cc)
    keeps_by step w w' id (some visited) e =
        let same : w ≡ w' = ground (arith, e) in subst (λ z. Keeps w.marks z.marks) same (λ v h. h)
    keeps_by step w w' id none e = leave-Keeps id _ w' w.marks e (λ w₁ f v h.
        visit_each-Keeps nodes fuel (node_dependencies (lookup id nodes)) (enter_node id w) w₁
          (visit fuel nodes) step f v (insert-Keeps id visiting w.marks v h))

    fed_by :
        Ends nodes fuel (visit fuel nodes)
        → (w : Walk) (id : String) → unmarked nodes w.marks < suc fuel
        → is_known nodes id ≡ true
        → (m : Option Mark) → lookup id w.marks ≡ m
        → on_mark fuel nodes w id m ≢ starved
    fed_by step w id few known (some visiting) f = λ e. cc
    fed_by step w id few known (some visited) f = λ e. cc
    fed_by step w id few known none f = leave-fed id _ (
        visit_each-fed nodes fuel (node_dependencies (lookup id nodes)) (enter_node id w)
          (visit fuel nodes) step
          (omega (arith, few, unmarked-mark nodes id visiting w.marks f known)))

unmarked-le :
    (nodes : NodesById) (marks : List (String × Mark)) → unmarked nodes marks ≤ length nodes
unfolding unmarked
unmarked-le [] marks = omega arith
unmarked-le ((id, n) ∷ nodes) marks = ground (arith, unmarked-le nodes marks)

visit_nodes-fed :
    (nodes : NodesById) (ns : List PlanNode) (w : Walk)
    → All (λ n. is_known nodes (node_id_of n) ≡ true) ns
    → visit_nodes nodes w ns ≢ starved
unfolding visit_nodes visit_fuel
visit_nodes-fed nodes [] w h = λ e. cc
visit_nodes-fed nodes (n ∷ ns) w h =
    by_visit (visit (visit_fuel nodes) nodes w (node_id_of n)) refl
      (λ w₁. visit_nodes-fed nodes ns w₁ h.1)
  where
    first : visit (visit_fuel nodes) nodes w (node_id_of n) ≢ starved
    first =
        (visit-Ends (visit_fuel nodes) nodes).fed w (node_id_of n)
          (omega (arith, unmarked-le nodes w.marks)) h.0

    by_visit :
        (v : Visit)
        → visit (visit_fuel nodes) nodes w (node_id_of n) ≡ v
        → ((w₁ : Walk) → visit_nodes nodes w₁ ns ≢ starved)
        → elim v [ starved ↦ starved | cycle c ↦ cycle c | passed w₁ ↦ visit_nodes nodes w₁ ns ]
          ≢ starved
    by_visit starved f rest = absurd (first f)
    by_visit (cycle c) f rest = λ e. cc
    by_visit (passed w₁) f rest = rest w₁

All-known :
    (ns : List PlanNode) (nodes : NodesById)
    → ((n : String) → has n (ids_of ns) ≡ true → is_known nodes n ≡ true)
    → All (λ n. is_known nodes (node_id_of n) ≡ true) ns
unfolding has
All-known [] nodes h = tt
All-known (n ∷ ns) nodes h = (
  h (node_id_of n) (ground (arith, eq_iff (node_id_of n) (node_id_of n))),
  All-known ns nodes (λ id m. h id (ground (arith, m))),
)

-- The search for a cycle over the nodes of any plan, one with cycles, unknown dependencies or
-- repeated ids included, ends within its fuel, one more than the nodes of the map.
pub dependency_cycle-ends : (ns : List PlanNode) → dependency_cycle ns (index_nodes ns []) ≢ starved
unfolding dependency_cycle
dependency_cycle-ends ns =
    visit_nodes-fed (index_nodes ns []) ns (record { marks = []; path = [] })
      (All-known ns (index_nodes ns []) (λ id m. ground (arith, m, is_known-index ns [] id)))
