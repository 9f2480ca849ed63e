-- ===== src/Constraints/Answers.antt =====
-- `lowerWorkspaceOrdering` of workspace-ordering.ts keeps a plan executable and orders its conflicts.
use seqlane.Prelude.{
  has-append, String, ◌≡◌, ◌⊎◌, refl, sym, ◌∙◌, subst, inl, inr, true, Option, none, some, List, [],
  ◌∷◌, ◌++◌, map, is_some, length, num_eq, Bool-cases, lookup, has, Distinct, arith,
}
use seqlane.Plan.Nodes.{PlanNode}
use seqlane.Validation.Plan.{index_nodes}
use seqlane.Validation.Accepted.{ids_of}
use seqlane.Validation.WellFormed.{IsGraph}
use seqlane.Validation.Grounded.{IsGrounded}
use seqlane.Validation.Acyclic.{graph_of, grounded-acyclic}
use seqlane.PlanOrdering.Order.{order_all, ordered, order_parsed_plan_nodes}
use seqlane.PlanOrdering.Counts.{IsExecutable}
use seqlane.PlanOrdering.Picked.{Distinct-IsOfPlan}
use seqlane.PlanOrdering.Complete.{grounded-order}
use seqlane.PlanOrdering.Cycles.{executable-AreGrounded}
use seqlane.Constraints.Search.{Dependencies, dependencies_at}
use seqlane.Constraints.Paths.{DependencyPath, edge, via}
use seqlane.Constraints.Lowering.{Placed, any_conflict, initial_dependencies, constrain_all}
use seqlane.Constraints.Serialized.{IsOrdered, conflicting-IsOrdered}
use seqlane.Constraints.Accesses.{
  WorkspaceResourceRegistry, Placement, misplaced, placed, place_nodes,
}
use seqlane.Constraints.Cycle.{assert_acyclic}
use seqlane.Constraints.Lower.{
  lower_dependencies, bad_identity, lowered, checked, lower_workspace_ordering,
}
use seqlane.Constraints.Simulated.{visited_count-order_all}
use seqlane.Constraints.Extended.{IsExtended, constrain_all-IsExtended}
use seqlane.Constraints.Initial.{initial-IsExtended, initial-entries}
use seqlane.Constraints.Lowered.{ids-lower, lower-IsGraph, graph-lower, lower-IsGrounded}
use seqlane.Constraints.Placing.{place-ids, apart_of, in_list}

-- `assertAcyclic` returns for a plan without cycles.
grounded-checked :
    (ns : List PlanNode)
    → IsGraph ns
    → ((id : String) → IsGrounded (index_nodes ns []) id)
    → checked ns ≡ lowered ns
unfolding checked assert_acyclic order_parsed_plan_nodes
grounded-checked ns h g =
    let (result, e, order) = grounded-order ns h (λ id m. g id) in by_order (order_all ns) refl e
  where
    by_order :
        {result : List PlanNode}
        → (o : Option (List PlanNode)) → order_all ns ≡ o
        → order_parsed_plan_nodes ns ≡ ordered result
        → checked ns ≡ lowered ns
    by_order none f e = absurd (ground (arith, f, e))
    by_order (some xs) f e = elim (Bool-cases (num_eq (length xs) (length ns))) [
      | inl full ↦ ground (arith, f, full, visited_count-order_all ns h)
      | inr other ↦ absurd (ground (arith, f, other, e))
    ]

module _ (ns : List PlanNode) (registry : WorkspaceResourceRegistry) where
  -- The map of dependencies after the loop over the pairs of nodes.
  abbrev constrained : List Placed → Dependencies
  constrained ps = constrain_all (initial_dependencies ns []) ps

  constrained-IsExtended :
      (ps : List Placed)
      → IsGraph ns
      → IsExecutable [] ns
      → place_nodes ns registry ≡ placed ps
      → IsExtended (ids_of ns) (graph_of ns) (constrained ps)
  unfolding has
  constrained-IsExtended ps h run e =
      let same = place-ids ns registry ps e in
      constrain_all-IsExtended (ids_of ns) (graph_of ns) ps (initial_dependencies ns [])
        (initial-IsExtended ns h (λ id m.
          executable-AreGrounded ns ns [] id run (Distinct-IsOfPlan ns h.distinct)
            (λ d k. absurd (ground (arith, k))) m))
        (apart_of (ids_of ns) ps (λ id m. subst (λ is. has id is ≡ true) same m)
          (subst (λ is. Distinct is) (sym same) h.distinct))

  -- The plan with more dependencies, and no cycle.
  pub record IsLoweredPlan (result : List PlanNode) : Type 0 where
    pub ids : ids_of result ≡ ids_of ns
    pub graph : IsGraph result
    pub kept :
        (a d : String)
        → has d (dependencies_at (graph_of ns) a) ≡ true
        → has d (dependencies_at (graph_of result) a) ≡ true
    pub acyclic : (id : String) → ¬ DependencyPath (graph_of result) id id

  -- The result of a lowering, or the error for a node without a valid resource.
  abbrev pub IsLoweredOrRejected : Type 0
  IsLoweredOrRejected =
      ((id : String) × (place_nodes ns registry ≡ misplaced id)
        × (lower_workspace_ordering ns registry ≡ bad_identity id))
      ⊎ (result : List PlanNode) × (lower_workspace_ordering ns registry ≡ lowered result)
        × IsLoweredPlan result

  constrained-IsLoweredPlan :
      (ps : List Placed)
      → IsGraph ns
      → IsExecutable [] ns
      → place_nodes ns registry ≡ placed ps
      → IsLoweredPlan (map (lower_dependencies (constrained ps)) ns)
  constrained-IsLoweredPlan ps h run e =
      let deps = constrained ps in
      let x = constrained-IsExtended ps h run e in
      let graph = lower-IsGraph ns deps x h in
      record {
        ids = ids-lower deps ns;
        graph = graph;
        kept = λ a d m.
            let (more, f) = x.more a in
            subst (λ ds. has d ds ≡ true) (sym (graph-lower ns deps x a h ∙ f))
              (ground (arith, m, has-append d (dependencies_at (graph_of ns) a) more));
        acyclic = λ id.
            grounded-acyclic (map (lower_dependencies deps) ns) id graph
              (lower-IsGrounded ns deps x id h);
      }

  lowered_of :
      (ps : List Placed)
      → IsGraph ns
      → IsExecutable [] ns
      → place_nodes ns registry ≡ placed ps
      → lower_workspace_ordering ns registry
        ≡ lowered (map (lower_dependencies (constrained ps)) ns)
  unfolding lower_workspace_ordering
  lowered_of ps h run e =
      let deps = constrained ps in
      let x = constrained-IsExtended ps h run e in
      ground (
        arith,
        e,
        grounded-checked (map (lower_dependencies deps) ns) (lower-IsGraph ns deps x h)
            (λ id. lower-IsGrounded ns deps x id h),
      )

  -- Of nodes in an executable order, with distinct ids and good dependencies, `lowerWorkspaceOrdering`
  -- returns the nodes by the same ids with all their dependencies and maybe more, and without a
  -- cycle. It throws only where a node has no valid resource identity, and never for a cycle.
  pub lower_workspace_ordering-IsLoweredOrRejected :
      IsGraph ns → IsExecutable [] ns → IsLoweredOrRejected
  unfolding lower_workspace_ordering
  lower_workspace_ordering-IsLoweredOrRejected h run = by_place (place_nodes ns registry) refl
    where
      by_place : (p : Placement) → place_nodes ns registry ≡ p → IsLoweredOrRejected
      by_place (misplaced id) e = inl (id, e, ground (arith, e))
      by_place (placed ps) e = inr (
        map (lower_dependencies (constrained ps)) ns,
        lowered_of ps h run e,
        constrained-IsLoweredPlan ps h run e,
      )

  same_path :
      (old new : Dependencies) (a b : String)
      → ((c : String) → dependencies_at new c ≡ dependencies_at old c)
      → DependencyPath old a b
      → DependencyPath new a b
  same_path old new a b same (edge m) = edge (subst (λ ds. has b ds ≡ true) (sym (same a)) m)
  same_path old new a b same (via {d = d} m p) =
      via (subst (λ ds. has d ds ≡ true) (sym (same a)) m) (same_path old new d b same p)

  -- Two nodes of such a plan whose accesses conflict are ordered in what `lowerWorkspaceOrdering`
  -- returns: one of them depends on the other, at once or by way of others.
  pub conflicts-IsOrdered :
      (before : List Placed) (left : Placed) (between : List Placed) (right : Placed)
      (rest : List Placed) (result : List PlanNode)
      → IsGraph ns
      → IsExecutable [] ns
      → place_nodes ns registry ≡ placed (before ++ left ∷ between ++ right ∷ rest)
      → any_conflict left.accesses right.accesses ≡ true
      → lower_workspace_ordering ns registry ≡ lowered result
      → IsOrdered (graph_of result) left right
  conflicts-IsOrdered before left between right rest result h run e conflict f =
      let ps = before ++ left ∷ between ++ right ∷ rest in
      let deps = constrained ps in
      let x = constrained-IsExtended ps h run e in
      let same : map (lower_dependencies deps) ns ≡ result =
        injective (sym (lowered_of ps h run e) ∙ f) in
      let known : is_some (lookup right.node_id (initial_dependencies ns [])) ≡ true =
        initial-entries ns right.node_id h
        ∙ subst (λ is. has right.node_id is ≡ true) (place-ids ns registry ps e)
            (in_list before left between right rest) in
      subst (λ (ms : List PlanNode). IsOrdered (graph_of ms) left right) same
        (moved deps (graph_of (map (lower_dependencies deps) ns)) left right
          (λ c. graph-lower ns deps x c h)
          (conflicting-IsOrdered before left between right rest (initial_dependencies ns [])
            conflict known))
    where
      injective : {a b : List PlanNode} → lowered a ≡ lowered b → a ≡ b
      injective e = cc

      moved :
          (old new : Dependencies) (l r : Placed)
          → ((c : String) → dependencies_at new c ≡ dependencies_at old c)
          → IsOrdered old l r
          → IsOrdered new l r
      moved old new l r same (inl p) = inl (same_path old new l.node_id r.node_id same p)
      moved old new l r same (inr p) = inr (same_path old new r.node_id l.node_id same p)
