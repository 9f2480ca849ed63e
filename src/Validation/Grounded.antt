-- ===== src/Validation/Grounded.antt =====
-- What `dependencyCycle` of plan-validation.ts has visited when it finds no cycle.
use seqlane.Prelude.{
  has-All, ℕ, zero, suc, String, ◌≡◌, refl, subst, inl, inr, true, Option, none, some, List, [],
  ◌∷◌, ◌++◌, Bool-cases, lookup, insert, lookup-insert, has, All, ◌==◌, eq_iff, arith,
}
use seqlane.Plan.Nodes.{PlanNode, node_id_of}
use seqlane.Validation.References.{NodesById, is_known}
use seqlane.Validation.Cycle.{
  Mark, visiting, visited, Walk, Visit, starved, cycle, passed, node_dependencies, from_id,
  visit_each, leave_node, enter_node, visit, visit_fuel, visit_nodes, dependency_cycle,
}

abbrev pub known_dependencies : NodesById → String → List String
known_dependencies nodes id = node_dependencies (lookup id nodes)

-- Every chain of dependencies from the node ends.
pub data IsGrounded (nodes : NodesById) : String → Type 0 where
  grounded :
      (id : String)
      → ((d : String)
          → has d (known_dependencies nodes id) ≡ true
          → is_known nodes d ≡ true
          → IsGrounded nodes d)
      → IsGrounded nodes id

abbrev AreGrounded : NodesById → Walk → Type 0
AreGrounded nodes w = (v : String) → lookup v w.marks ≡ some visited → IsGrounded nodes v

-- `visit` keeps the visited nodes grounded, and grounds the node.
abbrev Grounds : NodesById → (Walk → String → Visit) → Type 0
Grounds nodes go =
    (w w' : Walk) (d : String)
    → AreGrounded nodes w
    → go w d ≡ passed w'
    → AreGrounded nodes w' × IsGrounded nodes d

passed_each :
    (nodes : NodesById) (w w' : Walk) (d : String) (ds : List String) (go : Walk → String → Visit)
    → visit_each nodes w (d ∷ ds) go ≡ passed w'
    → is_known nodes d ≡ true
    → (w₁ : Walk) × (go w d ≡ passed w₁) × (visit_each nodes w₁ ds go ≡ passed w')
unfolding visit_each
passed_each nodes w w' d ds go e known = by_visit (go w d) refl (ground (arith, e, known))
  where
    by_visit :
        (v : Visit)
        → go w d ≡ v
        → elim v [ starved ↦ starved | cycle c ↦ cycle c | passed w₁ ↦ visit_each nodes w₁ ds go ]
          ≡ passed w'
        → (w₁ : Walk) × (go w d ≡ passed w₁) × (visit_each nodes w₁ ds go ≡ passed w')
    by_visit starved f g = absurd (cc)
    by_visit (cycle c) f g = absurd (cc)
    by_visit (passed w₁) f g = (w₁, f, g)

visit_each-Grounds :
    (nodes : NodesById) (ds : List String) (w w' : Walk) (go : Walk → String → Visit)
    → Grounds nodes go
    → AreGrounded nodes w
    → visit_each nodes w ds go ≡ passed w'
    → AreGrounded nodes w' × All (λ d. is_known nodes d ≡ true → IsGrounded nodes d) ds
unfolding visit_each
visit_each-Grounds nodes [] w w' go step h e =
    let same : w ≡ w' = ground arith in (subst (AreGrounded nodes) same h, tt)
visit_each-Grounds nodes (d ∷ ds) w w' go step h e = elim (Bool-cases (is_known nodes d)) [
  | inl known ↦
      let (w₁, here, rest) = passed_each nodes w w' d ds go e known in
      let (h₁, g) = step w w₁ d h here in
      let (h', all) = visit_each-Grounds nodes ds w₁ w' go step h₁ rest in (h', (λ k. g, all))
  | inr unknown ↦
      let (h', all) = visit_each-Grounds nodes ds w w' go step h (ground (arith, e, unknown)) in
      (h', (λ k. absurd (ground (arith, k, unknown)), all))
]

left_passed :
    (id : String) (v : Visit) (w' : Walk)
    → leave_node id v ≡ passed w'
    → (w : Walk) × (v ≡ passed w) × (w'.marks ≡ insert id visited w.marks)
left_passed id starved w' e = absurd (cc)
left_passed id (cycle c) w' e = absurd (cc)
left_passed id (passed w) w' e = (w, refl, ground (arith, e))

enter-AreGrounded :
    (nodes : NodesById) (id : String) (w : Walk)
    → AreGrounded nodes w
    → AreGrounded nodes (enter_node id w)
enter-AreGrounded nodes id w h v e = h v (ground (arith, e, lookup-insert id v visiting w.marks))

leave-AreGrounded :
    (nodes : NodesById) (id : String) (w w' : Walk)
    → AreGrounded nodes w
    → IsGrounded nodes id
    → w'.marks ≡ insert id visited w.marks
    → AreGrounded nodes w'
leave-AreGrounded nodes id w w' h g same v e = elim (Bool-cases (id == v)) [
  | inl is ↦ subst (IsGrounded nodes) ((eq_iff id v).0 is) g
  | inr other ↦ h v (ground (arith, e, same, other, lookup-insert id v visited w.marks))
]

visit-Grounds : (fuel : ℕ) (nodes : NodesById) → Grounds nodes (visit fuel nodes)
unfolding visit
visit-Grounds zero nodes w w' id h e = absurd (cc)
visit-Grounds (suc fuel) nodes w w' id h e =
    by_mark (visit-Grounds fuel nodes) (lookup id w.marks) refl e
  where
    by_mark :
        Grounds nodes (visit fuel nodes)
        → (m : Option Mark) → lookup id w.marks ≡ m
        → elim m [
          | some visiting ↦ cycle (from_id id w.path ++ id ∷ [])
          | some visited ↦ passed w
          | none ↦
              leave_node id (
                visit_each nodes (enter_node id w) (known_dependencies nodes id) (visit fuel nodes))
        ]
          ≡ passed w'
        → AreGrounded nodes w' × IsGrounded nodes id
    by_mark step (some visiting) f g = absurd (cc)
    by_mark step (some visited) f g =
        let same : w ≡ w' = ground (arith, g) in (subst (AreGrounded nodes) same h, h id f)
    by_mark step none f g =
        let (w₁, ran, same) = left_passed id _ w' g in
        let (h₁, all) =
          visit_each-Grounds nodes (known_dependencies nodes id) (enter_node id w) w₁
            (visit fuel nodes) step (enter-AreGrounded nodes id w h) ran in
        let self = grounded id (λ d m k.
          has-All (λ c. is_known nodes c ≡ true → IsGrounded nodes c) d
            (known_dependencies nodes id) m all k) in
        (leave-AreGrounded nodes id w₁ w' h₁ self same, self)

passed_nodes :
    (nodes : NodesById) (w w' : Walk) (n : PlanNode) (ns : List PlanNode)
    → visit_nodes nodes w (n ∷ ns) ≡ passed w'
    → (w₁ : Walk) × (visit (visit_fuel nodes) nodes w (node_id_of n) ≡ passed w₁)
      × (visit_nodes nodes w₁ ns ≡ passed w')
unfolding visit_nodes
passed_nodes nodes w w' n ns e = by_visit (visit (visit_fuel nodes) nodes w (node_id_of n)) refl e
  where
    by_visit :
        (v : Visit)
        → visit (visit_fuel nodes) nodes w (node_id_of n) ≡ v
        → elim v [ starved ↦ starved | cycle c ↦ cycle c | passed w₁ ↦ visit_nodes nodes w₁ ns ]
          ≡ passed w'
        → (w₁ : Walk) × (visit (visit_fuel nodes) nodes w (node_id_of n) ≡ passed w₁)
          × (visit_nodes nodes w₁ ns ≡ passed w')
    by_visit starved f g = absurd (cc)
    by_visit (cycle c) f g = absurd (cc)
    by_visit (passed w₁) f g = (w₁, f, g)

visit_nodes-grounds :
    (nodes : NodesById) (ns : List PlanNode) (w w' : Walk)
    → AreGrounded nodes w
    → visit_nodes nodes w ns ≡ passed w'
    → All (λ n. IsGrounded nodes (node_id_of n)) ns
visit_nodes-grounds nodes [] w w' h e = tt
visit_nodes-grounds nodes (n ∷ ns) w w' h e =
    let (w₁, here, rest) = passed_nodes nodes w w' n ns e in
    let (h₁, g) = visit-Grounds (visit_fuel nodes) nodes w w₁ (node_id_of n) h here in
    (g, visit_nodes-grounds nodes ns w₁ w' h₁ rest)

-- Where no cycle is found, every node of the list is grounded.
pub passed-AreGrounded :
    (ns : List PlanNode) (nodes : NodesById) (w : Walk)
    → dependency_cycle ns nodes ≡ passed w
    → All (λ n. IsGrounded nodes (node_id_of n)) ns
unfolding dependency_cycle lookup
passed-AreGrounded ns nodes w e =
    visit_nodes-grounds nodes ns (record { marks = []; path = [] }) w (λ v f. absurd (cc)) e
