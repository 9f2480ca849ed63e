-- ===== src/PlanOrdering/Execution.antt =====
-- What plan-ordering.ts returns: an order in which every node can be executed.
use seqlane.Prelude.{
  ◌∙◌, append-nil, ℕ, String, ◌≡◌, refl, sym, ap, subst, inl, inr, some, List, [], ◌∷◌, ◌++◌,
  length, num_eq, Bool-cases, Option-cases, All, Distinct, sort, arith,
}
use mathlib.Core.List.{Perm}
use mathlib.Core.List.Perm
use seqlane.Plan.Nodes.{PlanNode, depends_on_of}
use seqlane.Validation.Accepted.{ids_of, HasGoodDependencies}
use seqlane.Validation.WellFormed.{IsGraph}
use seqlane.PlanOrdering.Order.{
  node_before, tabulate, without_dependencies, order_fuel, order_all, ordered,
  order_parsed_plan_nodes,
}
use seqlane.PlanOrdering.Tables.{dependents_at-tabulate}
use seqlane.PlanOrdering.Counts.{IsExecutable}
use seqlane.PlanOrdering.Loop.{IsConsistent, order_loop-IsConsistent}
use seqlane.PlanOrdering.Picked.{nodes-IsRest}
use seqlane.PlanOrdering.Start.{no_tables, graph-IsRegular, start-IsConsistent}

-- What the loop returns for a plan.
pub order_all-IsConsistent :
    (ns result : List PlanNode)
    → IsGraph ns
    → order_all ns ≡ some result
    → (left : List (String × ℕ)) × IsConsistent ns left [] result
unfolding order_all
order_all-IsConsistent ns result h e =
    let regular = graph-IsRegular ns h in
    let t = tabulate ns no_tables in
    order_loop-IsConsistent ns regular t.dependents
      (λ id. dependents_at-tabulate ns no_tables id (each (ids_of ns) ns h.dependencies))
      (order_fuel ns) t.remaining (sort node_before (without_dependencies t.remaining ns)) [] result
      (start-IsConsistent ns regular) e
  where
    each :
        (ids : List String)
        → (ns : List PlanNode) → All (HasGoodDependencies ids) ns
        → All (λ n. Distinct (depends_on_of n)) ns
    each ids [] q = tt
    each ids (n ∷ ns) q = (q.0.distinct, each ids ns q.1)

-- All nodes of the list, each behind its dependencies.
pub record IsExecutionOrder (ns result : List PlanNode) : Type 0 where
  pub all : Perm ns result
  pub executable : IsExecutable [] result

append_nil_perm : (xs ys : List PlanNode) → ys ≡ [] → Perm (xs ++ ys) xs
append_nil_perm xs ys e =
    subst (λ (l : List PlanNode). Perm l xs)
      (sym (append-nil xs) ∙ ap (λ (l : List PlanNode). xs ++ l) (sym e)) Perm.rfl

pub length-zero : (xs : List PlanNode) → length xs ≡ 0 → xs ≡ []
length-zero [] e = refl
length-zero (x ∷ xs) e = absurd (omega arith)

pub full-IsExecutionOrder :
    (ns result : List PlanNode) (left : List (String × ℕ))
    → IsConsistent ns left [] result
    → length result ≡ length ns
    → IsExecutionOrder ns result
full-IsExecutionOrder ns result left h e =
    let (rest, r) = nodes-IsRest result ns h.distinct_ordered h.ordered_of_plan in
    record {
      all =
          Perm.trans r.perm
            (append_nil_perm result rest (length-zero rest (omega (arith, r.size, e))));
      executable = h.executable;
    }

-- In a plan with distinct ids and good dependencies, the nodes that `orderParsedPlanNodes` returns are those of the plan, each
-- once and behind all of its dependencies.
pub ordered-IsExecutionOrder :
    (ns result : List PlanNode)
    → IsGraph ns
    → order_parsed_plan_nodes ns ≡ ordered result
    → IsExecutionOrder ns result
unfolding order_parsed_plan_nodes
ordered-IsExecutionOrder ns result h e = elim (Option-cases (order_all ns)) [
  | inl f ↦ absurd (ground (arith, f, e))
  | inr (xs, f) ↦ elim (Bool-cases (num_eq (length xs) (length ns))) [
    | inl full ↦
        let same : xs ≡ result = ground (arith, f, full, e) in
        let (left, consistent) = order_all-IsConsistent ns xs h f in
        subst (IsExecutionOrder ns) same
          (full-IsExecutionOrder ns xs left consistent (ground (arith, full)))
    | inr other ↦ absurd (ground (arith, f, other, e))
  ]
]
