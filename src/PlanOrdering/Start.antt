-- ===== src/PlanOrdering/Start.antt =====
-- The state in which the `while` loop of plan-ordering.ts starts.
use seqlane.Prelude.{
  ℕ, String, ◌≡◌, refl, inl, inr, Bool, true, false, ◌&&◌, ◌||◌, Option, none, some, List, [], ◌∷◌,
  length, num_eq, Bool-cases, Option-cases, lookup, has, Distinct, All, sort, sort-All, ◌==◌,
  eq_iff, arith, subst, sym, ◌⊎◌,
}
use seqlane.Plan.Nodes.{PlanNode, node_id_of, depends_on_of}
use seqlane.Validation.Cycle.{node_dependencies}
use seqlane.Validation.Accepted.{ids_of, HasGoodDependencies}
use seqlane.Validation.WellFormed.{IsGraph}
use seqlane.Validation.Acyclic.{node_at, All-node_at}
use seqlane.PlanOrdering.Order.{node_before, Tables, remaining_at, tabulate, without_dependencies}
use seqlane.PlanOrdering.Tables.{IsOfPlan, dependencies_in, lookup-tabulate}
use seqlane.PlanOrdering.Counts.{open_count}
use seqlane.PlanOrdering.Ids.{has-sort, Distinct-sort}
use seqlane.PlanOrdering.Loop.{IsRegular, IsConsistent}
use seqlane.PlanOrdering.Picked.{Distinct-IsOfPlan}

pub graph-IsRegular : (ns : List PlanNode) → IsGraph ns → IsRegular ns
graph-IsRegular ns h = record {
  ids = h.distinct;
  of_plan = Distinct-IsOfPlan ns h.distinct;
  dependencies = λ id.
      of_node (node_at id ns)
        (λ n e. (All-node_at (HasGoodDependencies (ids_of ns)) ns id n h.dependencies e).distinct);
}
  where
    of_node :
        (o : Option PlanNode)
        → ((n : PlanNode) → o ≡ some n → Distinct (depends_on_of n))
        → Distinct (node_dependencies o)
    of_node none f = tt
    of_node (some n) f = f n refl

-- The node has a count, which is 0.
abbrev has_none : String → List (String × ℕ) → Bool
has_none id remaining = elim (lookup id remaining) [ none ↦ false | some count ↦ num_eq count 0 ]

has-without_dependencies :
    (remaining : List (String × ℕ)) (ns : List PlanNode) (id : String)
    → has id (ids_of (without_dependencies remaining ns))
      ≡ (has id (ids_of ns) && has_none id remaining)
unfolding without_dependencies has
has-without_dependencies remaining [] id = refl
has-without_dependencies remaining (n ∷ ns) id =
    let ih = has-without_dependencies remaining ns id in
    elim (Option-cases (lookup (node_id_of n) remaining)) [
      | inl e ↦ ground (arith, e, ih, eq_iff (node_id_of n) id)
      | inr (m, e) ↦ ground (arith, e, ih, eq_iff (node_id_of n) id)
    ]

-- A node stays or goes.
without_dependencies-cases :
    (remaining : List (String × ℕ)) (n : PlanNode) (ns : List PlanNode)
    → (without_dependencies remaining (n ∷ ns) ≡ n ∷ without_dependencies remaining ns)
      ⊎ (without_dependencies remaining (n ∷ ns) ≡ without_dependencies remaining ns)
unfolding without_dependencies
without_dependencies-cases remaining n ns = elim (Option-cases (lookup (node_id_of n) remaining)) [
  | inl e ↦ inr (ground (arith, e))
  | inr (m, e) ↦ elim (Bool-cases (num_eq m 0)) [
    | inl z ↦ inl (ground (arith, e, z))
    | inr z ↦ inr (ground (arith, e, z))
  ]
]

without_dependencies-Distinct :
    (remaining : List (String × ℕ)) (ns : List PlanNode)
    → Distinct (ids_of ns)
    → Distinct (ids_of (without_dependencies remaining ns))
unfolding without_dependencies
without_dependencies-Distinct remaining [] h = tt
without_dependencies-Distinct remaining (n ∷ ns) h =
    let ih = without_dependencies-Distinct remaining ns h.1 in
    elim (without_dependencies-cases remaining n ns) [
      | inl e ↦
          subst (λ (xs : List PlanNode). Distinct (ids_of xs)) (sym e)
            (ground (arith, h.0, has-without_dependencies remaining ns (node_id_of n)), ih)
      | inr e ↦ subst (λ (xs : List PlanNode). Distinct (ids_of xs)) (sym e) ih
    ]

without_dependencies-All :
    (P : PlanNode → Type 0) (remaining : List (String × ℕ)) (ns : List PlanNode)
    → All P ns
    → All P (without_dependencies remaining ns)
unfolding without_dependencies
without_dependencies-All P remaining [] h = tt
without_dependencies-All P remaining (n ∷ ns) h =
    let ih = without_dependencies-All P remaining ns h.1 in
    elim (without_dependencies-cases remaining n ns) [
      | inl e ↦ subst (All P) (sym e) (h.0, ih)
      | inr e ↦ subst (All P) (sym e) ih
    ]

open_count-nil : (ds : List String) → open_count [] ds ≡ length ds
unfolding open_count has
open_count-nil [] = refl
open_count-nil (d ∷ ds) = omega (arith, open_count-nil ds)

pub node_at-some :
    (ns : List PlanNode) (id : String)
    → has id (ids_of ns) ≡ true
    → (n : PlanNode) × (node_at id ns ≡ some n)
unfolding has
node_at-some [] id m = absurd (ground arith)
node_at-some (n ∷ ns) id m = elim (Bool-cases (node_id_of n == id)) [
  | inl e ↦ (n, ground (arith, e))
  | inr e ↦ let (k, f) = node_at-some ns id (ground (arith, m, e)) in (k, ground (arith, e, f))
]

abbrev pub no_tables : Tables
no_tables = record { dependents = []; remaining = [] }

module _ (ns : List PlanNode) (regular : IsRegular ns) where
  abbrev start : Tables
  start = tabulate ns no_tables

  start-counts :
      (id : String) → remaining_at id start.remaining ≡ open_count [] (dependencies_in ns id)
  unfolding lookup
  start-counts id = elim (Option-cases (node_at id ns)) [
    | inl e ↦ ground (
      arith,
      e,
      lookup-tabulate ns no_tables id regular.ids,
      open_count-nil (dependencies_in ns id),
    )
    | inr (n, e) ↦ ground (
      arith,
      e,
      lookup-tabulate ns no_tables id regular.ids,
      open_count-nil (dependencies_in ns id),
    )
  ]

  start-due :
      (id : String)
      → (has id (ids_of (sort node_before (without_dependencies start.remaining ns))) || false)
        ≡ (has id (ids_of ns) && num_eq (remaining_at id start.remaining) 0)
  unfolding lookup
  start-due id =
      let sorted = has-sort node_before id (without_dependencies start.remaining ns) in
      let filtered = has-without_dependencies start.remaining ns id in
      elim (Bool-cases (has id (ids_of ns))) [
        | inl m ↦
            let (n, e) = node_at-some ns id m in
            ground (arith, m, e, sorted, filtered, lookup-tabulate ns no_tables id regular.ids)
        | inr m ↦ ground (arith, m, sorted, filtered)
      ]

  pub start-IsConsistent :
      IsConsistent ns start.remaining
        (sort node_before (without_dependencies start.remaining ns))
        []
  unfolding has
  start-IsConsistent = record {
    counts = start-counts;
    due = start-due;
    apart = λ id m. refl;
    distinct_ready =
        Distinct-sort node_before (without_dependencies start.remaining ns)
          (without_dependencies-Distinct start.remaining ns regular.ids);
    distinct_ordered = tt;
    ready_of_plan =
        sort-All node_before (IsOfPlan ns) (without_dependencies start.remaining ns)
          (without_dependencies-All (IsOfPlan ns) start.remaining ns regular.of_plan);
    ordered_of_plan = tt;
    executable = tt;
  }
