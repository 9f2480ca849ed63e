-- ===== src/Constraints/Simulated.antt =====
-- `assertAcyclic` of workspace-ordering.ts counts what plan-ordering.ts orders.
use seqlane.Prelude.{
  ℕ, zero, suc, String, ◌≡◌, refl, ap, ◌∙◌, subst, inl, inr, ◌⊎◌, true, false, ◌||◌, Option, none,
  some, List, [], ◌∷◌, ◌++◌, length, length-append, Bool-cases, has, has-add, add, add-grows,
  add_all, All, sort, ◌==◌, eq_iff, arith,
}
use seqlane.Plan.Nodes.{PlanNode, node_id_of, depends_on_of}
use seqlane.Validation.Accepted.{ids_of, HasGoodDependencies}
use seqlane.Validation.WellFormed.{IsGraph}
use seqlane.PlanOrdering.Order.{
  node_before, insert_ready_node, dependents_at, tabulate, without_dependencies, Front, release,
  release_all, order_loop, order_fuel, order_all,
}
use seqlane.PlanOrdering.Ids.{ids-snoc}
use seqlane.PlanOrdering.Start.{no_tables}
use seqlane.Constraints.Cycle.{IdFront, release_id, release_ids, count_visited, visited_count}
use seqlane.Constraints.Keyed.{
  ids-sort, keyed, children-keyed, AreKnown, known_counts-tabulate, add_children-tabulate,
  ids-without_dependencies,
}

-- The front by the ids of its nodes.
abbrev front_ids : Front → IdFront
front_ids f = record { remaining = f.remaining; ready = ids_of f.ready }

release_id-front :
    (n : PlanNode) (f : Front) → release_id (node_id_of n) (front_ids f) ≡ front_ids (release n f)
unfolding release_id release insert_ready_node
release_id-front n f = ground (arith, ids-sort (f.ready ++ n ∷ []), ids-snoc f.ready n)

release_ids-front :
    (ns : List PlanNode) (f : Front)
    → release_ids (ids_of ns) (front_ids f) ≡ front_ids (release_all ns f)
unfolding release_ids release_all
release_ids-front [] f = refl
release_ids-front (n ∷ ns) f =
    ap (release_ids (ids_of ns)) (release_id-front n f) ∙ release_ids-front ns (release n f)

-- The number of nodes that were ordered.
abbrev pub count_of : Option (List PlanNode) → Option ℕ
count_of none = none
count_of (some ns) = some (length ns)

count_visited-order_loop :
    (fuel : ℕ) (dependents : List (String × List PlanNode)) (remaining : List (String × ℕ))
    (ready ordered : List PlanNode)
    → count_visited fuel (keyed dependents) remaining (ids_of ready) (length ordered)
      ≡ count_of (order_loop fuel dependents remaining ready ordered)
unfolding count_visited order_loop
count_visited-order_loop zero dependents remaining ready ordered = refl
count_visited-order_loop (suc fuel) dependents remaining [] ordered = refl
count_visited-order_loop (suc fuel) dependents remaining (n ∷ ready) ordered =
    let front =
      release_all (dependents_at (node_id_of n) dependents)
        (record { remaining = remaining; ready = ready }) in
    ground (
      arith,
      children-keyed (node_id_of n) dependents,
      release_ids-front (dependents_at (node_id_of n) dependents)
          (record { remaining = remaining; ready = ready }),
      count_visited-order_loop fuel dependents front.remaining front.ready (ordered ++ n ∷ []),
      length-append ordered (n ∷ []),
    )

has-add_all :
    (d : String) (xs keys : List String)
    → (has d keys || has d xs) ≡ true
    → has d (add_all xs keys) ≡ true
unfolding add_all has
has-add_all d [] keys h = ground (arith, h)
has-add_all d (x ∷ xs) keys h =
    has-add_all d xs (add x keys) (by_key (Bool-cases (has d keys)) (Bool-cases (x == d)))
  where
    by_key :
        (has d keys ≡ true) ⊎ (has d keys ≡ false)
        → ((x == d) ≡ true) ⊎ ((x == d) ≡ false)
        → (has d (add x keys) || has d xs) ≡ true
    by_key (inl e) o = ground (arith, add-grows x d keys e)
    by_key (inr e) (inl s) =
        ground (arith, subst (λ z. has z (add x keys) ≡ true) ((eq_iff x d).0 s) (has-add x keys))
    by_key (inr e) (inr s) = ground (arith, h, e, s)

good-AreKnown :
    (ns all : List PlanNode)
    → All (HasGoodDependencies (ids_of all)) ns
    → AreKnown (add_all (ids_of all) []) ns
good-AreKnown [] all h = tt
good-AreKnown (n ∷ ns) all h =
    (each (depends_on_of n) (node_id_of n) h.0.known, good-AreKnown ns all h.1)
  where
    each :
        (ds : List String) (id : String)
        → All (λ d. (has d (ids_of all) ≡ true) × ((d == id) ≡ false)) ds
        → All (λ d. has d (add_all (ids_of all) []) ≡ true) ds
    each [] id q = tt
    each (d ∷ ds) id q = (has-add_all d (ids_of all) [] (ground (arith, q.0.0)), each ds id q.1)

-- For a plan with distinct ids and good dependencies, `assertAcyclic` visits as many nodes as
-- `orderParsedPlanNodes` orders.
pub visited_count-order_all :
    (ns : List PlanNode) → IsGraph ns → visited_count ns ≡ count_of (order_all ns)
unfolding visited_count order_all keyed
visited_count-order_all ns h =
    let known = good-AreKnown ns ns h.dependencies in
    let node_ids = add_all (ids_of ns) [] in
    let t = tabulate ns no_tables in
    ground (
      arith,
      known_counts-tabulate node_ids ns no_tables known,
      add_children-tabulate node_ids ns no_tables known,
      ids-without_dependencies t.remaining ns,
      ids-sort (without_dependencies t.remaining ns),
      count_visited-order_loop (order_fuel ns) t.dependents t.remaining
          (sort node_before (without_dependencies t.remaining ns)) [],
    )
