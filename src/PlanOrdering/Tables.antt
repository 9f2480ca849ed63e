-- ===== src/PlanOrdering/Tables.antt =====
-- What the tables of plan-ordering.ts hold of a plan: the dependents of each node, and how many
-- dependencies it has.
use seqlane.Prelude.{
  append-nil, append_assoc, ℕ, String, ◌≡◌, refl, inl, inr, true, false, Option, none, some, List,
  [], ◌∷◌, ◌++◌, if◌then◌else◌, or_option, length, Bool-cases, lookup, insert, lookup-insert, has,
  Distinct, All, ◌==◌, eq_iff, arith,
}
use seqlane.Plan.Nodes.{PlanNode, node_id_of, depends_on_of}
use seqlane.Validation.Cycle.{node_dependencies}
use seqlane.Validation.Accepted.{ids_of}
use seqlane.Validation.Acyclic.{node_at}
use seqlane.PlanOrdering.Order.{Tables, dependents_at, add_dependent, tabulate}

-- The nodes that list a node as a dependency.
unfoldable pub dependents_of : String → List PlanNode → List PlanNode
unfolding has
dependents_of id [] = []
dependents_of id (n ∷ ns) =
    if has id (depends_on_of n) then n ∷ dependents_of id ns else dependents_of id ns

dependents_at-add :
    (n : PlanNode) (ds : List String) (table : List (String × List PlanNode)) (id : String)
    → Distinct ds
    → dependents_at id (add_dependent n ds table)
      ≡ (if has id ds then dependents_at id table ++ n ∷ [] else dependents_at id table)
unfolding add_dependent has
dependents_at-add n [] table id h = refl
dependents_at-add n (d ∷ ds) table id h = ground (
  arith,
  h.0,
  dependents_at-add n ds (insert d (dependents_at d table ++ n ∷ []) table) id h.1,
  lookup-insert d id (dependents_at d table ++ n ∷ []) table,
  eq_iff d id,
)

pub dependents_at-tabulate :
    (ns : List PlanNode) (t : Tables) (id : String)
    → All (λ n. Distinct (depends_on_of n)) ns
    → dependents_at id (tabulate ns t).dependents
      ≡ dependents_at id t.dependents ++ dependents_of id ns
unfolding tabulate dependents_of
dependents_at-tabulate [] t id h = ground (arith, append-nil (dependents_at id t.dependents))
dependents_at-tabulate (n ∷ ns) t id h = ground (
  arith,
  dependents_at-tabulate ns
      (record {
        dependents = add_dependent n (depends_on_of n) t.dependents;
        remaining = insert (node_id_of n) (length (depends_on_of n)) t.remaining;
      })
      id h.1,
  dependents_at-add n (depends_on_of n) t.dependents id h.0,
  append_assoc (dependents_at id t.dependents) (n ∷ []) (dependents_of id ns),
)

-- The number of dependencies of a node, if it is there.
abbrev pub dependency_count : Option PlanNode → Option ℕ
dependency_count none = none
dependency_count (some n) = some (length (depends_on_of n))

pub node_at-has :
    (id : String) (ns : List PlanNode) → has id (ids_of ns) ≡ false → node_at id ns ≡ none
unfolding has
node_at-has id [] h = refl
node_at-has id (n ∷ ns) h = ground (arith, h, node_at-has id ns (ground (arith, h)))

pub lookup-tabulate :
    (ns : List PlanNode) (t : Tables) (id : String)
    → Distinct (ids_of ns)
    → lookup id (tabulate ns t).remaining
      ≡ or_option (dependency_count (node_at id ns)) (lookup id t.remaining)
unfolding tabulate has
lookup-tabulate [] t id h = refl
lookup-tabulate (n ∷ ns) t id h =
    let ih =
      lookup-tabulate ns
        (record {
          dependents = add_dependent n (depends_on_of n) t.dependents;
          remaining = insert (node_id_of n) (length (depends_on_of n)) t.remaining;
        })
        id h.1 in
    let set = lookup-insert (node_id_of n) id (length (depends_on_of n)) t.remaining in
    elim (Bool-cases (node_id_of n == id)) [
      | inl e ↦ ground (
        arith,
        e,
        ih,
        set,
        node_at-has id ns (ground (arith, h.0, (eq_iff (node_id_of n) id).0 e)),
      )
      | inr e ↦ ground (arith, e, ih, set)
    ]

-- The nodes that depend on a node, by their ids.
pub has-dependents_of :
    (ns : List PlanNode) (d id : String)
    → Distinct (ids_of ns)
    → has id (ids_of (dependents_of d ns)) ≡ has d (node_dependencies (node_at id ns))
unfolding dependents_of has
has-dependents_of [] d id h = refl
has-dependents_of (n ∷ ns) d id h =
    let ih = has-dependents_of ns d id h.1 in
    elim (Bool-cases (node_id_of n == id)) [
      | inl e ↦
          ground
            (arith, e, ih, node_at-has id ns (ground (arith, h.0, (eq_iff (node_id_of n) id).0 e)))
      | inr e ↦ ground (arith, e, ih)
    ]

-- The node of the plan that has the id.
abbrev pub IsOfPlan : List PlanNode → PlanNode → Type 0
IsOfPlan ns n = node_at (node_id_of n) ns ≡ some n

abbrev pub dependencies_in : List PlanNode → String → List String
dependencies_in ns id = node_dependencies (node_at id ns)

-- A node with dependencies is one of the plan.
pub has-dependent :
    (ns : List PlanNode) (id d : String)
    → has d (dependencies_in ns id) ≡ true
    → has id (ids_of ns) ≡ true
unfolding has
has-dependent [] id d m = absurd (ground (arith, m))
has-dependent (n ∷ ns) id d m = elim (Bool-cases (node_id_of n == id)) [
  | inl e ↦ ground (arith, e)
  | inr e ↦ ground (arith, e, has-dependent ns id d (ground (arith, e, m)))
]

pub dependents_of-All :
    (P : PlanNode → Type 0) (d : String) (ns : List PlanNode)
    → All P ns
    → All P (dependents_of d ns)
unfolding dependents_of
dependents_of-All P d [] h = tt
dependents_of-All P d (n ∷ ns) h = elim (Bool-cases (has d (depends_on_of n))) [
  | inl e ↦ rw e (h.0, dependents_of-All P d ns h.1)
  | inr e ↦ rw e (dependents_of-All P d ns h.1)
]

has-dependents_of_absent :
    (d id : String) (ns : List PlanNode)
    → has id (ids_of ns) ≡ false
    → has id (ids_of (dependents_of d ns)) ≡ false
unfolding dependents_of has
has-dependents_of_absent d id [] h = refl
has-dependents_of_absent d id (n ∷ ns) h =
    ground (arith, has-dependents_of_absent d id ns (ground (arith, h)), h)

pub dependents_of-Distinct :
    (d : String) (ns : List PlanNode)
    → Distinct (ids_of ns)
    → Distinct (ids_of (dependents_of d ns))
unfolding dependents_of
dependents_of-Distinct d [] h = tt
dependents_of-Distinct d (n ∷ ns) h = elim (Bool-cases (has d (depends_on_of n))) [
  | inl e ↦ rw e (has-dependents_of_absent d (node_id_of n) ns h.0, dependents_of-Distinct d ns h.1)
  | inr e ↦ rw e (dependents_of-Distinct d ns h.1)
]
