-- ===== src/PlanOrdering/Cycles.antt =====
-- The guard of plan-ordering.ts: a plan with a cycle is not ordered, though nothing validated it.
use seqlane.Prelude.{
  String, ◌≡◌, sym, ◌∙◌, subst, inl, inr, true, ◌||◌, none, List, [], ◌∷◌, num_eq, length,
  Bool-cases, Option-cases, has, has-All, All, ◌==◌, eq_iff, arith,
}
use seqlane.Plan.Nodes.{PlanNode, node_id_of, depends_on_of}
use seqlane.Constraints.Paths.{DependencyPath}
use seqlane.Validation.Issues.{dependency_cycle, issue_if}
use seqlane.Validation.Cycle.{node_dependencies}
use seqlane.Validation.Plan.{index_nodes}
use seqlane.Validation.Accepted.{ids_of}
use seqlane.Validation.WellFormed.{IsGraph}
use seqlane.Validation.Grounded.{IsGrounded, grounded}
use seqlane.Validation.Acyclic.{graph_of, dependency-has, last_of, grounded-acyclic}
use seqlane.PlanOrdering.Order.{order_all, rejected, order_parsed_plan_nodes}
use seqlane.PlanOrdering.Ends.{order_all-ends}
use seqlane.PlanOrdering.Tables.{IsOfPlan}
use seqlane.PlanOrdering.Counts.{IsExecutable}
use seqlane.PlanOrdering.Picked.{nodes-IsRest}
use seqlane.PlanOrdering.Execution.{order_all-IsConsistent, length-zero}
use seqlane.PlanOrdering.Complete.{dependencies_in-known}

pub executable-AreGrounded :
    (ns xs : List PlanNode) (done : List String) (id : String)
    → IsExecutable done xs
    → All (IsOfPlan ns) xs
    → ((d : String) → has d done ≡ true → IsGrounded (index_nodes ns []) d)
    → has id (ids_of xs) ≡ true
    → IsGrounded (index_nodes ns []) id
unfolding has
executable-AreGrounded ns [] done id h p g m = absurd (ground arith)
executable-AreGrounded ns (x ∷ xs) done id h p g m = elim (Bool-cases (node_id_of x == id)) [
  | inl e ↦ subst (IsGrounded (index_nodes ns [])) ((eq_iff (node_id_of x) id).0 e) first
  | inr e ↦
      executable-AreGrounded ns xs (node_id_of x ∷ done) id h.1 p.1
        (λ d k. elim (Bool-cases (node_id_of x == d)) [
          | inl same ↦
              subst (IsGrounded (index_nodes ns [])) ((eq_iff (node_id_of x) d).0 same) first
          | inr other ↦ g d (ground (arith, k, other))
        ])
        (ground (arith, m, e))
]
  where
    first : IsGrounded (index_nodes ns []) (node_id_of x)
    first = grounded (node_id_of x) (λ d k known. g d (
        has-All (λ c. has c done ≡ true) d (depends_on_of x)
          (subst (λ o. has d (node_dependencies o) ≡ true) p.0
            (subst (λ ds. has d ds ≡ true) (sym (dependencies_in-known ns (node_id_of x))) k))
          h.0))

-- A plan with distinct ids and good dependencies in which some node depends on itself, at once or by
-- way of others, makes `orderParsedPlanNodes` throw the issue of a cycle, also where no validation ran.
pub cyclic-rejected :
    (ns : List PlanNode) (id : String)
    → IsGraph ns
    → DependencyPath (graph_of ns) id id
    → order_parsed_plan_nodes ns ≡ rejected (issue_if true dependency_cycle none)
unfolding order_parsed_plan_nodes has
cyclic-rejected ns id h path = elim (Option-cases (order_all ns)) [
  | inl f ↦ absurd (order_all-ends ns f)
  | inr (result, f) ↦ elim (Bool-cases (num_eq (length result) (length ns))) [
    | inl full ↦
        let (left, c) = order_all-IsConsistent ns result h f in
        let (rest, r) = nodes-IsRest result ns c.distinct_ordered c.ordered_of_plan in
        let none_left = length-zero rest (omega (arith, r.size, same_length result ns full)) in
        let (last, m) = last_of (graph_of ns) id id path in
        let there =
          subst (λ (xs : List PlanNode). (has id (ids_of result) || has id (ids_of xs)) ≡ true)
            none_left (sym (r.ids id) ∙ dependency-has ns last id h m) in
        absurd (
          grounded-acyclic ns id h
            (executable-AreGrounded ns result [] id c.executable c.ordered_of_plan
              (λ d k. absurd (ground (arith, k))) (ground (arith, there)))
            path)
    | inr other ↦ ground (arith, f, other)
  ]
]
  where
    same_length :
        (xs ys : List PlanNode) → num_eq (length xs) (length ys) ≡ true → length xs ≡ length ys
    same_length xs ys e = ground (arith, e)
