-- ===== src/PlanOrdering/Ends.antt =====
-- The `while` loop of plan-ordering.ts ends within its fuel.
use seqlane.Prelude.{
  ℕ, zero, suc, ◌+◌, ◌≤◌, ◌<◌, String, ◌≡◌, ◌≢◌, refl, inl, inr, Bool, none, List, [], ◌∷◌, ◌++◌,
  length, length-append, Bool-cases, Option-cases, lookup, insert, sort_insert, sort, ◌==◌, arith,
}
use seqlane.Plan.Nodes.{PlanNode, node_id_of, depends_on_of}
use seqlane.PlanOrdering.Order.{
  node_before, insert_ready_node, Tables, dependents_at, remaining_at, add_dependent, tabulate,
  without_dependencies, Front, release, release_all, order_loop, order_fuel, order_all, starved,
  order_parsed_plan_nodes,
}

length-sort_insert :
    (before : PlanNode → PlanNode → Bool) (x : PlanNode) (ys : List PlanNode)
    → length (sort_insert before x ys) ≡ suc (length ys)
unfolding sort_insert
length-sort_insert before x [] = refl
length-sort_insert before x (y ∷ ys) = ground (arith, length-sort_insert before x ys)

pub length-sort :
    (before : PlanNode → PlanNode → Bool) (xs : List PlanNode) → length (sort before xs) ≡ length xs
unfolding sort
length-sort before [] = refl
length-sort before (x ∷ xs) =
    omega (arith, length-sort before xs, length-sort_insert before x (sort before xs))

abbrev positive : ℕ → ℕ
positive zero = 0
positive (suc n) = 1

-- The nodes that wait for dependencies.
positives : List (String × ℕ) → ℕ
positives [] = 0
positives ((id, n) ∷ rest) = positive n + positives rest

positives-insert :
    (id : String) (n : ℕ) (remaining : List (String × ℕ))
    → positives (insert id n remaining) + positive (remaining_at id remaining)
      ≡ positives remaining + positive n
unfolding positives insert lookup
positives-insert id n [] = omega arith
positives-insert id n ((key, m) ∷ rest) = elim (Bool-cases (key == id)) [
  | inl e ↦ ground (arith, e)
  | inr e ↦ ground (arith, e, positives-insert id n rest)
]

-- The nodes that were not ordered.
abbrev waiting : List (String × ℕ) → List PlanNode → ℕ
waiting remaining ready = length ready + positives remaining

release-fewer :
    (n : PlanNode) (f : Front)
    → waiting (release n f).remaining (release n f).ready ≤ waiting f.remaining f.ready
unfolding release insert_ready_node
release-fewer n f = by_count (remaining_at (node_id_of n) f.remaining) refl
  where
    by_count :
        (m : ℕ)
        → remaining_at (node_id_of n) f.remaining ≡ m
        → waiting (release n f).remaining (release n f).ready ≤ waiting f.remaining f.ready
    by_count zero e = ground (arith, e, positives-insert (node_id_of n) 0 f.remaining)
    by_count (suc zero) e = ground (
      arith,
      e,
      positives-insert (node_id_of n) 0 f.remaining,
      length-sort node_before (f.ready ++ n ∷ []),
      length-append f.ready (n ∷ []),
    )
    by_count (suc (suc m)) e =
        ground (arith, e, positives-insert (node_id_of n) (suc m) f.remaining)

release_all-fewer :
    (ns : List PlanNode) (f : Front)
    → waiting (release_all ns f).remaining (release_all ns f).ready ≤ waiting f.remaining f.ready
unfolding release_all
release_all-fewer [] f = omega arith
release_all-fewer (n ∷ ns) f = omega (arith, release_all-fewer ns (release n f), release-fewer n f)

order_loop-ends :
    (fuel : ℕ) (dependents : List (String × List PlanNode)) (remaining : List (String × ℕ))
    (ready ordered : List PlanNode)
    → waiting remaining ready < fuel
    → order_loop fuel dependents remaining ready ordered ≢ none
unfolding order_loop
order_loop-ends zero dependents remaining ready ordered h = absurd (omega arith)
order_loop-ends (suc fuel) dependents remaining [] ordered h = λ e. cc
order_loop-ends (suc fuel) dependents remaining (n ∷ ready) ordered h =
    let front =
      release_all (dependents_at (node_id_of n) dependents)
        (record { remaining = remaining; ready = ready }) in
    order_loop-ends fuel dependents front.remaining front.ready (ordered ++ n ∷ []) (
      omega (
        arith,
        release_all-fewer (dependents_at (node_id_of n) dependents)
            (record { remaining = remaining; ready = ready }),
      ))

length-insert :
    (id : String) (n : ℕ) (remaining : List (String × ℕ))
    → length (insert id n remaining) ≤ suc (length remaining)
unfolding insert
length-insert id n [] = omega arith
length-insert id n ((key, m) ∷ rest) = ground (arith, length-insert id n rest)

length-tabulate :
    (ns : List PlanNode) (t : Tables)
    → length (tabulate ns t).remaining ≤ length ns + length t.remaining
unfolding tabulate
length-tabulate [] t = omega arith
length-tabulate (n ∷ ns) t = omega (
  arith,
  length-tabulate ns (record {
    dependents = add_dependent n (depends_on_of n) t.dependents;
    remaining = insert (node_id_of n) (length (depends_on_of n)) t.remaining;
  }),
  length-insert (node_id_of n) (length (depends_on_of n)) t.remaining,
)

positives-length : (remaining : List (String × ℕ)) → positives remaining ≤ length remaining
unfolding positives
positives-length [] = omega arith
positives-length ((id, zero) ∷ rest) = omega (arith, positives-length rest)
positives-length ((id, suc n) ∷ rest) = omega (arith, positives-length rest)

length-without_dependencies :
    (remaining : List (String × ℕ)) (ns : List PlanNode)
    → length (without_dependencies remaining ns) ≤ length ns
unfolding without_dependencies
length-without_dependencies remaining [] = omega arith
length-without_dependencies remaining (n ∷ ns) =
    elim (Option-cases (lookup (node_id_of n) remaining)) [
      | inl e ↦ ground (arith, e, length-without_dependencies remaining ns)
      | inr (m, e) ↦ ground (arith, e, length-without_dependencies remaining ns)
    ]

pub order_all-ends : (ns : List PlanNode) → order_all ns ≢ none
unfolding order_all order_fuel
order_all-ends ns =
    let t = tabulate ns (record { dependents = []; remaining = [] }) in
    order_loop-ends (order_fuel ns) t.dependents t.remaining
      (sort node_before (without_dependencies t.remaining ns)) []
      (omega (
        arith,
        length-sort node_before (without_dependencies t.remaining ns),
        length-without_dependencies t.remaining ns,
        positives-length t.remaining,
        length-tabulate ns (record { dependents = []; remaining = [] }),
      ))

-- On any list of nodes, one with cycles or equal ids included, the loop of `orderParsedPlanNodes`
-- ends: its rounds are fewer than twice the number of nodes and one more.
pub order_parsed_plan_nodes-ends : (ns : List PlanNode) → order_parsed_plan_nodes ns ≢ starved
unfolding order_parsed_plan_nodes
order_parsed_plan_nodes-ends ns = elim (Option-cases (order_all ns)) [
  | inl e ↦ absurd (order_all-ends ns e)
  | inr (xs, e) ↦ ground (arith, e)
]
