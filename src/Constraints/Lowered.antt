-- ===== src/Constraints/Lowered.antt =====
-- What `lowerWorkspaceOrdering` of workspace-ordering.ts returns.
use seqlane.Prelude.{
  String, ◌≡◌, ◌⊎◌, refl, sym, ap, ◌∙◌, subst, inl, inr, true, false, List, [], ◌∷◌, ◌++◌, map,
  Bool-cases, lookup, has, Distinct, All, ◌==◌, eq_iff, arith,
}
use seqlane.Plan.Nodes.{PlanNode, node_id_of, depends_on_of}
use seqlane.Validation.Cycle.{node_dependencies}
use seqlane.Validation.Plan.{index_nodes}
use seqlane.Validation.Accepted.{ids_of, HasGoodDependencies}
use seqlane.Validation.WellFormed.{IsGraph}
use seqlane.Validation.Grounded.{IsGrounded, grounded}
use seqlane.Validation.Acyclic.{graph_of, graph-index, lookup-graph, node_at}
use seqlane.PlanOrdering.Tables.{IsOfPlan}
use seqlane.PlanOrdering.Picked.{Distinct-IsOfPlan}
use seqlane.Constraints.Search.{Dependencies, dependencies_at}
use seqlane.Constraints.Paths.{edge}
use seqlane.Constraints.Lower.{lower_dependencies}
use seqlane.Constraints.Added.{Ends, ends, Ends-acyclic}
use seqlane.Constraints.Extended.{IsExtended}
use seqlane.Constraints.Renewed.{node_id-lower_dependencies, depends_on-lower_dependencies}

pub ids-lower :
    (deps : Dependencies) (ns : List PlanNode)
    → ids_of (map (lower_dependencies deps) ns) ≡ ids_of ns
ids-lower deps [] = refl
ids-lower deps (n ∷ ns) = ground (arith, node_id-lower_dependencies deps n, ids-lower deps ns)

module _ (all : List PlanNode) (deps : Dependencies)
    (h : IsExtended (ids_of all) (graph_of all) deps) where
  own-depends_on :
      (n : PlanNode)
      → IsOfPlan all n
      → depends_on_of (lower_dependencies deps n) ≡ dependencies_at deps (node_id_of n)
  own-depends_on n own =
      let (more, e) = h.more (node_id_of n) in
      depends_on-lower_dependencies deps n more (
        e
        ∙ ap (λ (ds : List String). ds ++ more)
            (lookup-graph all (node_id_of n) ∙ ap node_dependencies own))

  lower-HasGoodDependencies :
      (ids : List String) (n : PlanNode)
      → ids ≡ ids_of all
      → IsOfPlan all n
      → HasGoodDependencies ids (lower_dependencies deps n)
  unfolding has
  lower-HasGoodDependencies ids n same own =
      let e = own-depends_on n own in
      record {
        distinct = subst (λ ds. Distinct ds) (sym e) (h.distinct (node_id_of n));
        known =
            subst
              (λ (ds : List String).
                All
                  (λ d.
                    (has d ids ≡ true) × ((d == node_id_of (lower_dependencies deps n)) ≡ false))
                  ds)
              (sym e)
              (each (dependencies_at deps (node_id_of n)) (λ d m. (
                subst (λ is. has d is ≡ true) (sym same) (h.known (node_id_of n) d m),
                apart d m (Bool-cases (d == node_id_of (lower_dependencies deps n))),
              )));
      }
    where
      each :
          {P : String → Type 0}
          → (ds : List String) → ((d : String) → has d ds ≡ true → P d)
          → All P ds
      each [] f = tt
      each (d ∷ ds) f = (f d (ground (arith, eq_iff d d)), each ds (λ c m. f c (ground (arith, m))))

      apart :
          (d : String)
          → has d (dependencies_at deps (node_id_of n)) ≡ true
          → ((d == node_id_of (lower_dependencies deps n)) ≡ true)
            ⊎ ((d == node_id_of (lower_dependencies deps n)) ≡ false)
          → (d == node_id_of (lower_dependencies deps n)) ≡ false
      apart d m (inr e) = e
      apart d m (inl e) =
          let is =
            (eq_iff d (node_id_of (lower_dependencies deps n))).0 e
            ∙ node_id-lower_dependencies deps n in
          absurd (
            Ends-acyclic deps (node_id_of n) (h.all_end (node_id_of n))
              (edge (subst (λ z. has z (dependencies_at deps (node_id_of n)) ≡ true) is m)))

  lower-All :
      (ids : List String) (ns : List PlanNode)
      → ids ≡ ids_of all
      → All (IsOfPlan all) ns
      → All (HasGoodDependencies ids) (map (lower_dependencies deps) ns)
  lower-All ids [] same own = tt
  lower-All ids (n ∷ ns) same own =
      (lower-HasGoodDependencies ids n same own.0, lower-All ids ns same own.1)

  pub lower-IsGraph : IsGraph all → IsGraph (map (lower_dependencies deps) all)
  lower-IsGraph g = record {
    distinct = subst (λ is. Distinct is) (sym (ids-lower deps all)) g.distinct;
    dependencies =
        lower-All (ids_of (map (lower_dependencies deps) all)) all (ids-lower deps all)
          (Distinct-IsOfPlan all g.distinct);
  }

  node_at-lower :
      (id : String) (ns : List PlanNode)
      → All (IsOfPlan all) ns
      → (has id (ids_of ns) ≡ true)
      → node_dependencies (node_at id (map (lower_dependencies deps) ns)) ≡ dependencies_at deps id
  unfolding has
  node_at-lower id [] own m = absurd (ground arith)
  node_at-lower id (n ∷ ns) own m = elim (Bool-cases (node_id_of n == id)) [
    | inl e ↦ ground (
      arith,
      e,
      node_id-lower_dependencies deps n,
      own-depends_on n own.0,
      (eq_iff (node_id_of n) id).0 e,
    )
    | inr e ↦ ground (
      arith,
      e,
      node_id-lower_dependencies deps n,
      node_at-lower id ns own.1 (ground (arith, m, e)),
    )
  ]

  absent-lower :
      (id : String) (ns : List PlanNode)
      → has id (ids_of ns) ≡ false
      → node_dependencies (node_at id (map (lower_dependencies deps) ns)) ≡ []
  unfolding has
  absent-lower id [] m = refl
  absent-lower id (n ∷ ns) m =
      ground (arith, m, node_id-lower_dependencies deps n, absent-lower id ns (ground (arith, m)))

  -- The lowered nodes have the dependencies of the map.
  pub graph-lower :
      (id : String)
      → IsGraph all
      → dependencies_at (graph_of (map (lower_dependencies deps) all)) id ≡ dependencies_at deps id
  unfolding lookup
  graph-lower id g = elim (Bool-cases (has id (ids_of all))) [
    | inl m ↦
        lookup-graph (map (lower_dependencies deps) all) id
        ∙ node_at-lower id all (Distinct-IsOfPlan all g.distinct) m
    | inr m ↦ ground (
      arith,
      lookup-graph (map (lower_dependencies deps) all) id,
      absent-lower id all m,
      m,
      h.entries id,
    )
  ]

  Ends-IsGrounded :
      (id : String)
      → IsGraph all
      → Ends deps id
      → IsGrounded (index_nodes (map (lower_dependencies deps) all) []) id
  Ends-IsGrounded id g (ends self f) = grounded id (λ d m k. Ends-IsGrounded d g (
      f d (
        subst (λ ds. has d ds ≡ true)
          (sym (graph-index (map (lower_dependencies deps) all) id) ∙ graph-lower id g) m)))

  pub lower-IsGrounded :
      (id : String)
      → IsGraph all
      → IsGrounded (index_nodes (map (lower_dependencies deps) all) []) id
  lower-IsGrounded id g = Ends-IsGrounded id g (h.all_end id)
