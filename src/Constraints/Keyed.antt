-- ===== src/Constraints/Keyed.antt =====
-- The tables of plan-ordering.ts by ids, as workspace-ordering.ts has them.
use seqlane.Prelude.{
  ℕ, String, ◌≡◌, refl, ap, ◌∙◌, inl, inr, true, List, [], ◌∷◌, ◌++◌, length, Bool-cases,
  Option-cases, lookup, insert, has, All, sort_insert, sort, arith,
}
use seqlane.Plan.Nodes.{PlanNode, node_id_of, depends_on_of}
use seqlane.Validation.Accepted.{ids_of}
use seqlane.PlanOrdering.Text.{text_lt}
use seqlane.PlanOrdering.Order.{
  node_before, Tables, dependents_at, add_dependent, tabulate, without_dependencies,
}
use seqlane.PlanOrdering.Ids.{ids-snoc}
use seqlane.Constraints.Cycle.{
  id_before, known_count, known_counts, children_at, add_child, add_children, free_ids,
}

ids-sort_insert :
    (x : PlanNode) (ys : List PlanNode)
    → ids_of (sort_insert node_before x ys) ≡ sort_insert id_before (node_id_of x) (ids_of ys)
unfolding sort_insert node_before id_before
ids-sort_insert x [] = refl
ids-sort_insert x (y ∷ ys) = elim (Bool-cases (text_lt (node_id_of y) (node_id_of x))) [
  | inl e ↦ ground (arith, e, ids-sort_insert x ys)
  | inr e ↦ ground (arith, e)
]

pub ids-sort : (xs : List PlanNode) → ids_of (sort node_before xs) ≡ sort id_before (ids_of xs)
unfolding sort
ids-sort [] = refl
ids-sort (x ∷ xs) =
    ids-sort_insert x (sort node_before xs)
    ∙ ap (sort_insert id_before (node_id_of x)) (ids-sort xs)

-- The table of dependents by their ids.
unfoldable pub keyed : List (String × List PlanNode) → List (String × List String)
keyed [] = []
keyed ((key, ns) ∷ rest) = (key, ids_of ns) ∷ keyed rest

keyed-insert :
    (key : String) (ns : List PlanNode) (table : List (String × List PlanNode))
    → keyed (insert key ns table) ≡ insert key (ids_of ns) (keyed table)
unfolding keyed insert
keyed-insert key ns [] = refl
keyed-insert key ns ((k, ms) ∷ rest) = ground (arith, keyed-insert key ns rest)

pub children-keyed :
    (key : String) (table : List (String × List PlanNode))
    → children_at key (keyed table) ≡ ids_of (dependents_at key table)
unfolding keyed lookup
children-keyed key [] = refl
children-keyed key ((k, ms) ∷ rest) = ground (arith, children-keyed key rest)

add_child-keyed :
    (node_ids : List String) (n : PlanNode) (ds : List String)
    (table : List (String × List PlanNode))
    → All (λ d. has d node_ids ≡ true) ds
    → add_child node_ids (node_id_of n) ds (keyed table) ≡ keyed (add_dependent n ds table)
unfolding add_child add_dependent
add_child-keyed node_ids n [] table h = refl
add_child-keyed node_ids n (d ∷ ds) table h = ground (
  arith,
  h.0,
  add_child-keyed node_ids n ds (insert d (dependents_at d table ++ n ∷ []) table) h.1,
  keyed-insert d (dependents_at d table ++ n ∷ []) table,
  children-keyed d table,
  ids-snoc (dependents_at d table) n,
)

known_count-length :
    (node_ids ds : List String)
    → All (λ d. has d node_ids ≡ true) ds
    → known_count node_ids ds ≡ length ds
unfolding known_count
known_count-length node_ids [] h = refl
known_count-length node_ids (d ∷ ds) h = ground (arith, h.0, known_count-length node_ids ds h.1)

-- The dependencies of the nodes are known.
abbrev pub AreKnown : List String → List PlanNode → Type 0
AreKnown node_ids ns = All (λ n. All (λ d. has d node_ids ≡ true) (depends_on_of n)) ns

pub known_counts-tabulate :
    (node_ids : List String) (ns : List PlanNode) (t : Tables)
    → AreKnown node_ids ns
    → known_counts node_ids ns t.remaining ≡ (tabulate ns t).remaining
unfolding known_counts tabulate
known_counts-tabulate node_ids [] t h = refl
known_counts-tabulate node_ids (n ∷ ns) t h = ground (
  arith,
  known_count-length node_ids (depends_on_of n) h.0,
  known_counts-tabulate node_ids ns
      (record {
        dependents = add_dependent n (depends_on_of n) t.dependents;
        remaining = insert (node_id_of n) (length (depends_on_of n)) t.remaining;
      })
      h.1,
)

pub add_children-tabulate :
    (node_ids : List String) (ns : List PlanNode) (t : Tables)
    → AreKnown node_ids ns
    → add_children node_ids ns (keyed t.dependents) ≡ keyed (tabulate ns t).dependents
unfolding add_children tabulate
add_children-tabulate node_ids [] t h = refl
add_children-tabulate node_ids (n ∷ ns) t h = ground (
  arith,
  add_child-keyed node_ids n (depends_on_of n) t.dependents h.0,
  add_children-tabulate node_ids ns
      (record {
        dependents = add_dependent n (depends_on_of n) t.dependents;
        remaining = insert (node_id_of n) (length (depends_on_of n)) t.remaining;
      })
      h.1,
)

pub ids-without_dependencies :
    (remaining : List (String × ℕ)) (ns : List PlanNode)
    → free_ids remaining ns ≡ ids_of (without_dependencies remaining ns)
unfolding free_ids without_dependencies
ids-without_dependencies remaining [] = refl
ids-without_dependencies remaining (n ∷ ns) =
    elim (Option-cases (lookup (node_id_of n) remaining)) [
      | inl e ↦ ground (arith, e, ids-without_dependencies remaining ns)
      | inr (m, e) ↦ ground (arith, e, ids-without_dependencies remaining ns)
    ]
