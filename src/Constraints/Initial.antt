-- ===== src/Constraints/Initial.antt =====
-- The map of dependencies that workspace-ordering.ts starts with.
use seqlane.Prelude.{
  append-nil, append_assoc, String, ◌≡◌, refl, sym, ◌∙◌, subst, inl, inr, true, false, Option, none,
  some, List, [], ◌∷◌, ◌++◌, or_option, is_some, Bool-cases, Option-cases, lookup, insert,
  lookup-insert, has, has-snoc, add, add_all, Distinct, All, ◌==◌, eq_iff, arith,
}
use seqlane.Plan.Nodes.{PlanNode, node_id_of, depends_on_of}
use seqlane.Validation.Cycle.{node_dependencies}
use seqlane.Validation.Plan.{index_nodes}
use seqlane.Validation.References.{is_known}
use seqlane.Validation.Accepted.{ids_of, is_known-index, HasGoodDependencies}
use seqlane.Validation.WellFormed.{IsGraph}
use seqlane.Validation.Grounded.{IsGrounded, grounded}
use seqlane.Validation.Acyclic.{
  graph_of, graph-index, lookup-graph, dependency-has, node_at, All-node_at,
}
use seqlane.PlanOrdering.Tables.{node_at-has}
use seqlane.Constraints.Search.{Dependencies, dependencies_at}
use seqlane.Constraints.Lowering.{initial_dependencies}
use seqlane.Constraints.Added.{Ends, ends}
use seqlane.Constraints.Extended.{IsExtended}

add_all-distinct :
    (ds keys : List String)
    → Distinct ds
    → ((d : String) → has d ds ≡ true → has d keys ≡ false)
    → add_all ds keys ≡ keys ++ ds
unfolding add_all add has
add_all-distinct [] keys h new = sym (append-nil keys)
add_all-distinct (d ∷ ds) keys h new = ground (
  arith,
  new d (ground (arith, eq_iff d d)),
  add_all-distinct ds (keys ++ d ∷ []) h.1
      (λ c m. ground (arith, m, h.0, new c (ground (arith, m)), has-snoc c d keys, eq_iff d c)),
  append_assoc keys (d ∷ []) ds,
)

-- The dependencies of a node, if it is there.
abbrev entry_of : Option PlanNode → Option (List String)
entry_of none = none
entry_of (some n) = some (depends_on_of n)

lookup-initial_dependencies :
    (ns : List PlanNode) (deps : Dependencies) (id : String)
    → Distinct (ids_of ns)
    → All (λ n. Distinct (depends_on_of n)) ns
    → lookup id (initial_dependencies ns deps)
      ≡ or_option (entry_of (node_at id ns)) (lookup id deps)
unfolding initial_dependencies has
lookup-initial_dependencies [] deps id h q = refl
lookup-initial_dependencies (n ∷ ns) deps id h q =
    let same = add_all-distinct (depends_on_of n) [] q.0 (λ d m. refl) in
    let ih =
      lookup-initial_dependencies ns (insert (node_id_of n) (add_all (depends_on_of n) []) deps) id
        h.1 q.1 in
    let set = lookup-insert (node_id_of n) id (add_all (depends_on_of n) []) deps in
    elim (Bool-cases (node_id_of n == id)) [
      | inl e ↦ ground (
        arith,
        e,
        ih,
        set,
        same,
        node_at-has id ns (ground (arith, h.0, (eq_iff (node_id_of n) id).0 e)),
      )
      | inr e ↦ ground (arith, e, ih, set)
    ]

distinct_each :
    (ids : List String) (ns : List PlanNode)
    → All (HasGoodDependencies ids) ns
    → All (λ n. Distinct (depends_on_of n)) ns
distinct_each ids [] q = tt
distinct_each ids (n ∷ ns) q = (q.0.distinct, distinct_each ids ns q.1)

initial-graph :
    (ns : List PlanNode) (id : String)
    → IsGraph ns
    → dependencies_at (initial_dependencies ns []) id ≡ dependencies_at (graph_of ns) id
unfolding lookup
initial-graph ns id h = elim (Option-cases (node_at id ns)) [
  | inl e ↦ ground (
    arith,
    e,
    lookup-graph ns id,
    lookup-initial_dependencies ns [] id h.distinct (distinct_each (ids_of ns) ns h.dependencies),
  )
  | inr (n, e) ↦ ground (
    arith,
    e,
    lookup-graph ns id,
    lookup-initial_dependencies ns [] id h.distinct (distinct_each (ids_of ns) ns h.dependencies),
  )
]

has-node_at : (ns : List PlanNode) (id : String) → is_some (node_at id ns) ≡ has id (ids_of ns)
unfolding has
has-node_at [] id = refl
has-node_at (n ∷ ns) id = ground (arith, has-node_at ns id)

pub initial-entries :
    (ns : List PlanNode) (id : String)
    → IsGraph ns
    → is_some (lookup id (initial_dependencies ns [])) ≡ has id (ids_of ns)
unfolding lookup
initial-entries ns id h = elim (Option-cases (node_at id ns)) [
  | inl e ↦ ground (
    arith,
    e,
    has-node_at ns id,
    lookup-initial_dependencies ns [] id h.distinct (distinct_each (ids_of ns) ns h.dependencies),
  )
  | inr (n, e) ↦ ground (
    arith,
    e,
    has-node_at ns id,
    lookup-initial_dependencies ns [] id h.distinct (distinct_each (ids_of ns) ns h.dependencies),
  )
]

grounded-Ends :
    (ns : List PlanNode) (deps : Dependencies) (id : String)
    → IsGraph ns
    → ((a : String) → dependencies_at deps a ≡ dependencies_at (graph_of ns) a)
    → IsGrounded (index_nodes ns []) id
    → Ends deps id
unfolding is_known lookup
grounded-Ends ns deps id h same (grounded self f) = ends id (λ d m.
    let there = subst (λ ds. has d ds ≡ true) (same id) m in
    grounded-Ends ns deps d h same (
      f d (subst (λ ds. has d ds ≡ true) (graph-index ns id) there)
        (ground (arith, is_known-index ns [] d, dependency-has ns id d h there))))

absent-Ends :
    (ns : List PlanNode) (deps : Dependencies) (id : String)
    → ((a : String) → dependencies_at deps a ≡ dependencies_at (graph_of ns) a)
    → has id (ids_of ns) ≡ false
    → Ends deps id
unfolding has
absent-Ends ns deps id same h = ends id (λ d m. absurd (
    ground
      (arith, subst (λ ds. has d ds ≡ true) (same id ∙ lookup-graph ns id) m, node_at-has id ns h)))

pub initial-IsExtended :
    (ns : List PlanNode)
    → IsGraph ns
    → ((id : String) → has id (ids_of ns) ≡ true → IsGrounded (index_nodes ns []) id)
    → IsExtended (ids_of ns) (graph_of ns) (initial_dependencies ns [])
initial-IsExtended ns h g = record {
  entries = λ a. initial-entries ns a h;
  more = λ a. ([], initial-graph ns a h ∙ sym (append-nil (dependencies_at (graph_of ns) a)));
  distinct = λ a.
      subst (λ ds. Distinct ds) (sym (initial-graph ns a h ∙ lookup-graph ns a))
        (of_node (node_at a ns) (λ n e.
          (All-node_at (HasGoodDependencies (ids_of ns)) ns a n h.dependencies e).distinct));
  known = λ a d m. dependency-has ns a d h (subst (λ ds. has d ds ≡ true) (initial-graph ns a h) m);
  all_end = λ a. elim (Bool-cases (has a (ids_of ns))) [
    | inl m ↦ grounded-Ends ns (initial_dependencies ns []) a h (λ b. initial-graph ns b h) (g a m)
    | inr m ↦ absent-Ends ns (initial_dependencies ns []) a (λ b. initial-graph ns b h) m
  ];
}
  where
    of_node :
        (o : Option PlanNode)
        → ((n : PlanNode) → o ≡ some n → Distinct (depends_on_of n))
        → Distinct (node_dependencies o)
    of_node none f = tt
    of_node (some n) f = f n refl
