-- ===== src/Validation/Acyclic.antt =====
-- A plan that plan-validation.ts accepts has no cycle of dependencies.
use seqlane.Prelude.{
  has-All, String, ◌≡◌, refl, sym, ap, ◌∙◌, subst, inl, inr, true, false, Option, none, some, List,
  [], ◌∷◌, map, or_option, if◌then◌else◌, Bool-cases, Option-cases, lookup, insert, lookup-insert,
  has, All, ◌==◌, eq_iff, arith,
}
use seqlane.Plan.Nodes.{PlanNode, node_id_of, depends_on_of}
use seqlane.Constraints.Search.{Dependencies, dependencies_at}
use seqlane.Constraints.Paths.{DependencyPath, edge, via, path-snoc}
use seqlane.Validation.References.{NodesById, is_known}
use seqlane.Validation.Nodes.{Definitions}
use seqlane.Validation.Cycle.{
  Walk, Visit, starved, cycle, passed, node_dependencies, dependency_cycle,
}
use seqlane.Validation.Plan.{Plan, index_nodes, cycle_issues, validate_parsed_plan}
use seqlane.Validation.Accepted.{ids_of, is_known-index, HasGoodDependencies}
use seqlane.Validation.WellFormed.{
  IsGraph, well_formed-IsGraph, accepted-IsWellFormed, accepted-semantic,
}
use seqlane.Validation.Grounded.{known_dependencies, IsGrounded, grounded, passed-AreGrounded}
use seqlane.Validation.Fed.{dependency_cycle-ends}

-- The dependencies of the nodes of a plan.
abbrev pub graph_of : List PlanNode → Dependencies
graph_of ns = map (λ n. (node_id_of n, depends_on_of n)) ns

-- The first node of an id.
abbrev pub node_at : String → List PlanNode → Option PlanNode
node_at id [] = none
node_at id (n ∷ ns) = if node_id_of n == id then some n else node_at id ns

lookup-index :
    (ns : List PlanNode) (nodes : NodesById) (id : String)
    → lookup id (index_nodes ns nodes) ≡ or_option (lookup id nodes) (node_at id ns)
unfolding index_nodes is_known
lookup-index [] nodes id = or_none (lookup id nodes)
  where
    or_none : (o : Option PlanNode) → o ≡ or_option o none
    or_none none = refl
    or_none (some n) = refl
lookup-index (n ∷ ns) nodes id = elim (Option-cases (lookup (node_id_of n) nodes)) [
  | inl e ↦ ground (
    arith,
    e,
    lookup-index ns (insert (node_id_of n) n nodes) id,
    lookup-insert (node_id_of n) id n nodes,
    eq_iff (node_id_of n) id,
  )
  | inr (m, e) ↦ ground (arith, e, lookup-index ns nodes id, eq_iff (node_id_of n) id)
]

pub lookup-graph :
    (ns : List PlanNode) (id : String)
    → dependencies_at (graph_of ns) id ≡ node_dependencies (node_at id ns)
unfolding lookup
lookup-graph [] id = refl
lookup-graph (n ∷ ns) id = elim (Bool-cases (node_id_of n == id)) [
  | inl e ↦ ground (arith, e)
  | inr e ↦ ground (arith, e, lookup-graph ns id)
]

pub graph-index :
    (ns : List PlanNode) (id : String)
    → dependencies_at (graph_of ns) id ≡ known_dependencies (index_nodes ns []) id
unfolding lookup
graph-index ns id = lookup-graph ns id ∙ ap node_dependencies (sym (lookup-index ns [] id))

pub All-node_at :
    (P : PlanNode → Type 0) (ns : List PlanNode) (id : String) (n : PlanNode)
    → All P ns
    → node_at id ns ≡ some n
    → P n
All-node_at P [] id n h e = absurd (cc)
All-node_at P (m ∷ ns) id n h e = elim (Bool-cases (node_id_of m == id)) [
  | inl same ↦ let is : m ≡ n = ground (arith, same, e) in subst P is h.0
  | inr other ↦ All-node_at P ns id n h.1 (ground (arith, other, e))
]

pub node_at-id :
    (ns : List PlanNode) (id : String) (n : PlanNode) → node_at id ns ≡ some n → node_id_of n ≡ id
node_at-id [] id n e = absurd (cc)
node_at-id (m ∷ ns) id n e = elim (Bool-cases (node_id_of m == id)) [
  | inl same ↦
      let is : m ≡ n = ground (arith, same, e) in
      subst (λ z. node_id_of z ≡ id) is ((eq_iff (node_id_of m) id).0 same)
  | inr other ↦ node_at-id ns id n (ground (arith, other, e))
]

-- The dependencies of a well-formed plan are its nodes.
pub dependency-has :
    (ns : List PlanNode) (id d : String)
    → IsGraph ns
    → has d (dependencies_at (graph_of ns) id) ≡ true
    → has d (ids_of ns) ≡ true
unfolding has
dependency-has ns id d h m =
    by_node (node_at id ns) refl (subst (λ ds. has d ds ≡ true) (lookup-graph ns id) m)
  where
    by_node :
        (o : Option PlanNode)
        → node_at id ns ≡ o
        → has d (node_dependencies o) ≡ true
        → has d (ids_of ns) ≡ true
    by_node none e k = absurd (ground (arith, k))
    by_node (some n) e k =
        (has-All (λ c. (has c (ids_of ns) ≡ true) × ((c == node_id_of n) ≡ false)) d
          (depends_on_of n) k
          (All-node_at (HasGoodDependencies (ids_of ns)) ns id n h.dependencies e).known).0

pub grounded-acyclic :
    (ns : List PlanNode) (id : String)
    → IsGraph ns
    → IsGrounded (index_nodes ns []) id
    → ¬ DependencyPath (graph_of ns) id id
unfolding is_known lookup
grounded-acyclic ns id h (grounded self f) (edge m) =
    grounded-acyclic ns id h
      (f id (subst (λ ds. has id ds ≡ true) (graph-index ns id) m)
        (ground (arith, is_known-index ns [] id, dependency-has ns id id h m)))
      (edge m)
grounded-acyclic ns id h (grounded self f) (via {d = d} m p) =
    grounded-acyclic ns d h
      (f d (subst (λ ds. has d ds ≡ true) (graph-index ns id) m)
        (ground (arith, is_known-index ns [] d, dependency-has ns id d h m)))
      (path-snoc p m)

pub ids-All :
    (P : String → Type 0) (ns : List PlanNode) (id : String)
    → All (λ n. P (node_id_of n)) ns
    → has id (ids_of ns) ≡ true
    → P id
unfolding has
ids-All P [] id h m = absurd (ground arith)
ids-All P (n ∷ ns) id h m = elim (Bool-cases (node_id_of n == id)) [
  | inl same ↦ subst P ((eq_iff (node_id_of n) id).0 same) h.0
  | inr other ↦ ids-All P ns id h.1 (ground (arith, m, other))
]

pub last_of :
    (deps : Dependencies) (a b : String)
    → DependencyPath deps a b
    → (c : String) × (has b (dependencies_at deps c) ≡ true)
last_of deps a b (edge m) = (a, m)
last_of deps a b (via {d = d} m p) = last_of deps d b p

module _ {D : Type 0} (defs : Definitions D) where
  -- The search passes an accepted plan.
  pub accepted-passed :
      (plan : Plan)
      → validate_parsed_plan defs plan ≡ []
      → (w : Walk) × (dependency_cycle plan.nodes (index_nodes plan.nodes []) ≡ passed w)
  unfolding validate_parsed_plan
  accepted-passed plan e =
      by_visit (dependency_cycle plan.nodes (index_nodes plan.nodes [])) refl
        (ground (arith, e, accepted-semantic defs plan e))
    where
      by_visit :
          (v : Visit)
          → dependency_cycle plan.nodes (index_nodes plan.nodes []) ≡ v
          → cycle_issues v ≡ []
          → (w : Walk) × (dependency_cycle plan.nodes (index_nodes plan.nodes []) ≡ passed w)
      by_visit starved f g = absurd (dependency_cycle-ends plan.nodes f)
      by_visit (cycle c) f g = absurd (cc)
      by_visit (passed w) f g = (w, f)

  pub accepted-IsGrounded :
      (plan : Plan) (id : String)
      → validate_parsed_plan defs plan ≡ []
      → has id (ids_of plan.nodes) ≡ true
      → IsGrounded (index_nodes plan.nodes []) id
  accepted-IsGrounded plan id e m =
      let (w, ran) = accepted-passed plan e in
      ids-All (IsGrounded (index_nodes plan.nodes [])) plan.nodes id
        (passed-AreGrounded plan.nodes (index_nodes plan.nodes []) w ran) m

  -- In a plan that is accepted, no node depends on itself, at once or by way of other nodes.
  pub accepted-acyclic :
      (plan : Plan) (id : String)
      → validate_parsed_plan defs plan ≡ []
      → ¬ DependencyPath (graph_of plan.nodes) id id
  accepted-acyclic plan id e p =
      let h = well_formed-IsGraph plan.nodes (accepted-IsWellFormed defs plan e) in
      let (c, m) = last_of (graph_of plan.nodes) id id p in
      grounded-acyclic plan.nodes id h
        (accepted-IsGrounded plan id e (dependency-has plan.nodes c id h m)) p
