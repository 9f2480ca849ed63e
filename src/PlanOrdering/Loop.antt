-- ===== src/PlanOrdering/Loop.antt =====
-- The invariant of the `while` loop of plan-ordering.ts.
use seqlane.Prelude.{
  ℕ, zero, suc, ◌-◌, String, ◌≡◌, sym, ◌∙◌, subst, inl, inr, true, false, ◌&&◌, ◌||◌, some, List,
  [], ◌∷◌, ◌++◌, if◌then◌else◌, num_eq, Bool-cases, has, Distinct, All, eq_iff, arith,
}
use seqlane.Plan.Nodes.{PlanNode, node_id_of}
use seqlane.Validation.Cycle.{node_dependencies}
use seqlane.Validation.Accepted.{ids_of}
use seqlane.PlanOrdering.Order.{dependents_at, remaining_at, Front, release_all, order_loop}
use seqlane.PlanOrdering.Tables.{
  dependents_of, has-dependents_of, dependents_of-Distinct, dependents_of-All, has-dependent,
  IsOfPlan, dependencies_in,
}
use seqlane.PlanOrdering.Counts.{
  open_count, open_count-snoc, open_count-zero, IsExecutable, IsExecutable-snoc,
}
use seqlane.PlanOrdering.Ids.{ids-snoc, has-ids_snoc, Distinct-snoc, All-snoc}
use seqlane.PlanOrdering.Release.{
  IsFresh, remaining_at-release_all, has-release_all, release_all-IsFresh, release_all-All,
}

-- What holds before each round, for the nodes `ns` of the plan.
pub record IsConsistent (ns : List PlanNode) (remaining : List (String × ℕ))
    (ready ordered : List PlanNode) : Type 0 where
  pub counts :
      (id : String)
      → remaining_at id remaining ≡ open_count (ids_of ordered) (dependencies_in ns id)
  pub due :
      (id : String)
      → (has id (ids_of ready) || has id (ids_of ordered))
        ≡ (has id (ids_of ns) && num_eq (remaining_at id remaining) 0)
  pub apart : (id : String) → has id (ids_of ready) ≡ true → has id (ids_of ordered) ≡ false
  pub distinct_ready : Distinct (ids_of ready)
  pub distinct_ordered : Distinct (ids_of ordered)
  pub ready_of_plan : All (IsOfPlan ns) ready
  pub ordered_of_plan : All (IsOfPlan ns) ordered
  pub executable : IsExecutable [] ordered

-- What is known of the plan: its ids are distinct, and so are the dependencies of each node.
pub record IsRegular (ns : List PlanNode) : Type 0 where
  pub ids : Distinct (ids_of ns)
  pub of_plan : All (IsOfPlan ns) ns
  pub dependencies : (id : String) → Distinct (dependencies_in ns id)

module _ (ns : List PlanNode) (regular : IsRegular ns) where
  module _ (remaining : List (String × ℕ)) (n : PlanNode) (ready ordered : List PlanNode)
      (h : IsConsistent ns remaining (n ∷ ready) ordered) where
    next : Front
    next =
        release_all (dependents_of (node_id_of n) ns)
          (record { remaining = remaining; ready = ready })

    first_counts :
        (remaining_at (node_id_of n) remaining ≡ 0) × (has (node_id_of n) (ids_of ordered) ≡ false)
    unfolding has
    first_counts =
        let self = eq_iff (node_id_of n) (node_id_of n) in
        let due = h.due (node_id_of n) in
        (ground (arith, due, self), h.apart (node_id_of n) (ground (arith, self)))

    next-remaining :
        (id : String)
        → remaining_at id next.remaining ≡ (
            if has (node_id_of n) (dependencies_in ns id)
            then remaining_at id remaining - 1
            else remaining_at id remaining)
    unfolding next
    next-remaining id = ground (
      arith,
      remaining_at-release_all (dependents_of (node_id_of n) ns)
          (record { remaining = remaining; ready = ready }) id
          (dependents_of-Distinct (node_id_of n) ns regular.ids),
      has-dependents_of ns (node_id_of n) id regular.ids,
    )

    has-next :
        (id : String)
        → has id (ids_of next.ready) ≡ (
            has id (ids_of ready)
            || (has (node_id_of n) (dependencies_in ns id) && num_eq (remaining_at id remaining) 1))
    unfolding next
    has-next id = ground (
      arith,
      has-release_all (dependents_of (node_id_of n) ns)
          (record { remaining = remaining; ready = ready }) id
          (dependents_of-Distinct (node_id_of n) ns regular.ids),
      has-dependents_of ns (node_id_of n) id regular.ids,
    )

    next-counts :
        (id : String)
        → remaining_at id next.remaining
          ≡ open_count (ids_of (ordered ++ n ∷ [])) (dependencies_in ns id)
    next-counts id = ground (
      arith,
      next-remaining id,
      h.counts id,
      ids-snoc ordered n,
      open_count-snoc (ids_of ordered) (dependencies_in ns id) (node_id_of n)
          (regular.dependencies id) first_counts.1,
    )

    next-due :
        (id : String)
        → (has id (ids_of next.ready) || has id (ids_of (ordered ++ n ∷ [])))
          ≡ (has id (ids_of ns) && num_eq (remaining_at id next.remaining) 0)
    unfolding has
    next-due id = elim (Bool-cases (has (node_id_of n) (dependencies_in ns id))) [
      | inl e ↦ ground (
        arith,
        e,
        has-dependent ns id (node_id_of n) e,
        has-next id,
        has-ids_snoc id ordered n,
        next-remaining id,
        h.due id,
        h.counts id,
        open_count-snoc (ids_of ordered) (dependencies_in ns id) (node_id_of n)
            (regular.dependencies id) first_counts.1,
      )
      | inr e ↦
          ground (arith, e, has-next id, has-ids_snoc id ordered n, next-remaining id, h.due id)
    ]

    next-apart :
        (id : String)
        → has id (ids_of next.ready) ≡ true
        → has id (ids_of (ordered ++ n ∷ [])) ≡ false
    unfolding has
    next-apart id m = elim (Bool-cases (has id (ids_of ready))) [
      | inl e ↦ ground (
        arith,
        e,
        has-ids_snoc id ordered n,
        h.apart id (ground (arith, e)),
        h.distinct_ready.0,
        eq_iff (node_id_of n) id,
      )
      | inr e ↦ ground (arith, e, m, has-next id, has-ids_snoc id ordered n, h.due id)
    ]

    next-IsFresh : IsFresh next
    unfolding next has
    next-IsFresh =
        release_all-IsFresh (dependents_of (node_id_of n) ns)
          (record { remaining = remaining; ready = ready })
          (record { distinct = h.distinct_ready.1; done = λ id m. ground (arith, m, h.due id) })

    next-IsConsistent : IsConsistent ns next.remaining next.ready (ordered ++ n ∷ [])
    unfolding next has
    next-IsConsistent = record {
      counts = next-counts;
      due = next-due;
      apart = next-apart;
      distinct_ready = next-IsFresh.distinct;
      distinct_ordered = Distinct-snoc ordered n h.distinct_ordered first_counts.1;
      ready_of_plan =
          release_all-All (IsOfPlan ns) (dependents_of (node_id_of n) ns)
            (record { remaining = remaining; ready = ready })
            (dependents_of-All (IsOfPlan ns) (node_id_of n) ns regular.of_plan) h.ready_of_plan.1;
      ordered_of_plan = All-snoc (IsOfPlan ns) ordered n h.ordered_of_plan h.ready_of_plan.0;
      executable = IsExecutable-snoc [] ordered n h.executable (
          subst (λ o. All (λ d. (false || has d (ids_of ordered)) ≡ true) (node_dependencies o))
            h.ready_of_plan.0
            (open_count-zero (ids_of ordered) (dependencies_in ns (node_id_of n))
              (sym (h.counts (node_id_of n)) ∙ first_counts.0)));
    }

  -- What the loop returns is consistent, with no node left in the queue.
  pub order_loop-IsConsistent :
      (dependents : List (String × List PlanNode))
      (at_table : (id : String) → dependents_at id dependents ≡ dependents_of id ns) (fuel : ℕ)
      (remaining : List (String × ℕ)) (ready ordered result : List PlanNode)
      → IsConsistent ns remaining ready ordered
      → order_loop fuel dependents remaining ready ordered ≡ some result
      → (left : List (String × ℕ)) × IsConsistent ns left [] result
  unfolding order_loop next
  order_loop-IsConsistent dependents at_table zero remaining ready ordered result h e = absurd (cc)
  order_loop-IsConsistent dependents at_table (suc fuel) remaining [] ordered result h e =
      let same : ordered ≡ result = ground (arith, e) in
      (remaining, subst (IsConsistent ns remaining []) same h)
  order_loop-IsConsistent dependents at_table (suc fuel) remaining (n ∷ ready) ordered result h e =
      order_loop-IsConsistent dependents at_table fuel (next remaining n ready ordered h).remaining
        (next remaining n ready ordered h).ready (ordered ++ n ∷ []) result
        (next-IsConsistent remaining n ready ordered h)
        (subst
          (λ (ds : List PlanNode).
            order_loop fuel dependents
              (release_all ds (record { remaining = remaining; ready = ready })).remaining
              (release_all ds (record { remaining = remaining; ready = ready })).ready
              (ordered ++ n ∷ [])
            ≡ some result)
          (at_table (node_id_of n)) e)
