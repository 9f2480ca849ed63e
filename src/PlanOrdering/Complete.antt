-- ===== src/PlanOrdering/Complete.antt =====
-- plan-ordering.ts orders every plan that is accepted.
use seqlane.Prelude.{
  ℕ, String, ◌≡◌, ◌≢◌, ◌⊎◌, sym, ◌∙◌, ap, subst, inl, inr, Bool, true, Option, some, List, [], ◌∷◌,
  List-cases, length, Option-cases, has, All, eq_iff, arith,
}
use seqlane.Plan.Nodes.{PlanNode, node_id_of}
use seqlane.Validation.Issues.{PlanValidationIssue}
use seqlane.Validation.References.{is_known}
use seqlane.Validation.Plan.{Plan, index_nodes, validate_parsed_plan}
use seqlane.Validation.Accepted.{ids_of, is_known-index}
use seqlane.Validation.WellFormed.{IsGraph, well_formed-IsGraph, accepted-IsWellFormed}
use seqlane.Validation.Grounded.{IsGrounded, grounded, known_dependencies}
use seqlane.Validation.Acyclic.{
  graph-index, lookup-graph, dependency-has, node_at, node_at-id, All-node_at, accepted-IsGrounded,
}
use seqlane.PlanOrdering.Order.{
  order_all, rejected, ordered, order_parsed_plan_nodes, ordering_definitions, order_plan_nodes,
}
use seqlane.PlanOrdering.Ends.{order_all-ends}
use seqlane.PlanOrdering.Tables.{IsOfPlan, dependencies_in}
use seqlane.PlanOrdering.Counts.{open_count-done}
use seqlane.PlanOrdering.Loop.{IsConsistent}
use seqlane.PlanOrdering.Picked.{nodes-IsRest}
use seqlane.PlanOrdering.Start.{node_at-some, graph-IsRegular}
use seqlane.PlanOrdering.Execution.{order_all-IsConsistent, IsExecutionOrder, full-IsExecutionOrder}

pub dependencies_in-known :
    (ns : List PlanNode) (id : String)
    → dependencies_in ns id ≡ known_dependencies (index_nodes ns []) id
dependencies_in-known ns id = sym (lookup-graph ns id) ∙ graph-index ns id

pub dependency-known :
    (ns : List PlanNode) (id d : String)
    → IsGraph ns
    → has d (dependencies_in ns id) ≡ true
    → has d (ids_of ns) ≡ true
dependency-known ns id d h m =
    dependency-has ns id d h (subst (λ ds. has d ds ≡ true) (sym (lookup-graph ns id)) m)

-- Where the loop stops, every grounded node is ordered.
grounded-ordered :
    (ns result : List PlanNode) (left : List (String × ℕ)) (id : String)
    → IsGraph ns
    → IsConsistent ns left [] result
    → IsGrounded (index_nodes ns []) id
    → has id (ids_of ns) ≡ true
    → has id (ids_of result) ≡ true
unfolding is_known has
grounded-ordered ns result left id h c (grounded self f) m =
    let none_open = open_count-done (ids_of result) (dependencies_in ns id) (λ d k.
      let there = dependency-known ns id d h k in
      grounded-ordered ns result left d h c
        (f d (subst (λ ds. has d ds ≡ true) (dependencies_in-known ns id) k)
          (ground (arith, is_known-index ns [] d, there)))
        there) in
    ground (arith, m, c.due id, c.counts id, none_open)

ordered-IsOfPlan :
    (ns result : List PlanNode) (n : PlanNode)
    → All (IsOfPlan ns) result
    → IsOfPlan ns n
    → has (node_id_of n) (ids_of result) ≡ true
    → IsOfPlan result n
ordered-IsOfPlan ns result n all own m =
    let (k, e) = node_at-some result (node_id_of n) m in
    let other = All-node_at (IsOfPlan ns) result (node_id_of n) k all e in
    let same_id = node_at-id result (node_id_of n) k e in
    let both : some k ≡ some n = sym other ∙ ap (λ i. node_at i ns) same_id ∙ own in e ∙ both

grounded-All :
    (ns result : List PlanNode) (left : List (String × ℕ)) (xs : List PlanNode)
    → IsGraph ns
    → IsConsistent ns left [] result
    → ((id : String) → has id (ids_of ns) ≡ true → IsGrounded (index_nodes ns []) id)
    → All (IsOfPlan ns) xs
    → ((id : String) → has id (ids_of xs) ≡ true → has id (ids_of ns) ≡ true)
    → All (IsOfPlan result) xs
unfolding has
grounded-All ns result left [] h c g own part = tt
grounded-All ns result left (x ∷ xs) h c g own part =
    let there = part (node_id_of x) (ground (arith, eq_iff (node_id_of x) (node_id_of x))) in
    (
      ordered-IsOfPlan ns result x c.ordered_of_plan own.0
          (grounded-ordered ns result left (node_id_of x) h c (g (node_id_of x) there) there),
      grounded-All ns result left xs h c g own.1 (λ id m. part id (ground (arith, m))),
    )

-- A plan whose nodes are all grounded is ordered.
pub grounded-order :
    (ns : List PlanNode)
    → IsGraph ns
    → ((id : String) → has id (ids_of ns) ≡ true → IsGrounded (index_nodes ns []) id)
    → (result : List PlanNode) × (order_parsed_plan_nodes ns ≡ ordered result)
      × IsExecutionOrder ns result
unfolding order_parsed_plan_nodes
grounded-order ns h g = elim (Option-cases (order_all ns)) [
  | inl f ↦ absurd (order_all-ends ns f)
  | inr (result, f) ↦
      let (left, c) = order_all-IsConsistent ns result h f in
      let regular = graph-IsRegular ns h in
      let (more, r) = nodes-IsRest result ns c.distinct_ordered c.ordered_of_plan in
      let (more', r') =
        nodes-IsRest ns result h.distinct
          (grounded-All ns result left ns h c g regular.of_plan (λ id m. m)) in
      let same : length result ≡ length ns = omega (arith, r.size, r'.size) in
      (result, ground (arith, f, same), full-IsExecutionOrder ns result left c same)
]

module _ {D : Type 0} (validate_definitions : Bool) (task_definitions : Option (String → Option D))
    (well_formed : D → Bool) where
  abbrev found : Plan → List PlanValidationIssue
  found plan =
      validate_parsed_plan (ordering_definitions validate_definitions task_definitions well_formed)
        plan

  -- The plan is rejected for the issues that the validation finds, or it is ordered.
  abbrev pub IsOrderedOrRejected : Plan → Type 0
  IsOrderedOrRejected plan =
      (found plan ≢ [])
        × (order_plan_nodes validate_definitions task_definitions well_formed plan
            ≡ rejected (found plan))
      ⊎ (found plan ≡ [])
        × (result : List PlanNode) × (order_plan_nodes validate_definitions task_definitions
              well_formed plan
            ≡ ordered result)
        × IsExecutionOrder plan.nodes result

  -- `orderPlanNodes` throws the issues that the validation finds, if there are any. Where it finds
  -- none, it returns all nodes of the plan, each once and behind all of its dependencies.
  pub order_plan_nodes-IsOrderedOrRejected : (plan : Plan) → IsOrderedOrRejected plan
  unfolding order_plan_nodes
  order_plan_nodes-IsOrderedOrRejected plan =
      let defs = ordering_definitions validate_definitions task_definitions well_formed in
      elim (List-cases (found plan)) [
        | inl e ↦
            let (result, f, order) =
              grounded-order plan.nodes
                (well_formed-IsGraph plan.nodes (accepted-IsWellFormed defs plan e))
                (λ id m. accepted-IsGrounded defs plan id e m) in
            inr (e, result, ground (arith, e, f), order)
        | inr (x, rest, e) ↦ inl (λ f. ground (arith, e, f), ground (arith, e))
      ]
