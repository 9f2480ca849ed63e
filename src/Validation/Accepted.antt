-- ===== src/Validation/Accepted.antt =====
-- What a plan without issues is like.
use seqlane.Prelude.{
  String, ◌≡◌, ◌≢◌, refl, subst, Bool, true, false, ◌||◌, Option, some, List, [], ◌∷◌, map,
  if◌then◌else◌, insert, lookup-insert, has, add, add-grows, has-add, Distinct, All,
  append-nil_parts, ◌==◌, eq_iff, arith,
}
use seqlane.Plan.Nodes.{PlanNode, node_id_of, depends_on_of}
use seqlane.Validation.Issues.{issue_if}
use seqlane.Validation.References.{NodesById, is_known}
use seqlane.Validation.Nodes.{Definitions}
use seqlane.Validation.Plan.{
  index_nodes, id_issues, dependency_issues, input_of, binding_issues, kind_issues, node_issues,
}

abbrev pub ids_of : List PlanNode → List String
ids_of ns = map node_id_of ns

pub issue_if-nil : (b : Bool) (c : _) (id : Option String) → issue_if b c id ≡ [] → b ≡ false
issue_if-nil true c id e = absurd (cc)
issue_if-nil false c id e = refl

is_known-insert :
    (nodes : NodesById) (n : PlanNode) (id : String)
    → is_known (if is_known nodes (node_id_of n) then nodes else insert (node_id_of n) n nodes) id
      ≡ (node_id_of n == id || is_known nodes id)
unfolding is_known
is_known-insert nodes n id =
    ground (arith, lookup-insert (node_id_of n) id n nodes, eq_iff (node_id_of n) id)

-- The nodes of the map are those of the list.
pub is_known-index :
    (ns : List PlanNode) (nodes : NodesById) (id : String)
    → is_known (index_nodes ns nodes) id ≡ (has id (ids_of ns) || is_known nodes id)
unfolding index_nodes has
is_known-index [] nodes id = refl
is_known-index (n ∷ ns) nodes id = ground (
  arith,
  is_known-index ns (if is_known nodes (node_id_of n) then nodes else insert (node_id_of n) n nodes)
      id,
  is_known-insert nodes n id,
)

-- The ids of nodes, against those that are known already.
abbrev pub AreNew : NodesById → List PlanNode → Type 0
AreNew nodes [] = Unit
AreNew nodes (n ∷ ns) = (is_known nodes (node_id_of n) ≡ false) × AreNew nodes ns

AreNew-back :
    (nodes : NodesById) (n : PlanNode) (ns : List PlanNode)
    → AreNew (if is_known nodes (node_id_of n) then nodes else insert (node_id_of n) n nodes) ns
    → (has (node_id_of n) (ids_of ns) ≡ false) × AreNew nodes ns
unfolding has
AreNew-back nodes n [] h = (refl, tt)
AreNew-back nodes n (m ∷ ns) h =
    let (rest, old) = AreNew-back nodes n ns h.1 in
    let e = is_known-insert nodes n (node_id_of m) in
    (
      ground (
        arith,
        h.0,
        e,
        rest,
        eq_iff (node_id_of n) (node_id_of m),
        eq_iff (node_id_of m) (node_id_of n),
      ),
      (ground (arith, h.0, e), old),
    )

pub id_issues-nil :
    (ns : List PlanNode) (nodes : NodesById)
    → id_issues ns nodes ≡ []
    → All (λ n. (node_id_of n == "") ≡ false) ns × Distinct (ids_of ns) × AreNew nodes ns
unfolding id_issues
id_issues-nil [] nodes e = (tt, tt, tt)
id_issues-nil (n ∷ ns) nodes e =
    let (both, rest) = append-nil_parts _ _ e in
    let (named, fresh) = append-nil_parts _ _ both in
    let (all, distinct, new) =
      id_issues-nil ns
        (if is_known nodes (node_id_of n) then nodes else insert (node_id_of n) n nodes) rest in
    let (apart, old) = AreNew-back nodes n ns new in
    (
      (issue_if-nil (node_id_of n == "") _ _ named, all),
      (apart, distinct),
      (issue_if-nil (is_known nodes (node_id_of n)) _ _ fresh, old),
    )

-- The dependencies of a node: distinct, of the plan, and not the node itself.
pub record HasGoodDependencies (ids : List String) (n : PlanNode) : Type 0 where
  pub distinct : Distinct (depends_on_of n)
  pub known : All (λ d. (has d ids ≡ true) × ((d == node_id_of n) ≡ false)) (depends_on_of n)

-- The texts of the list are not in the set.
abbrev pub AreUnseen : List String → List String → Type 0
AreUnseen seen [] = Unit
AreUnseen seen (d ∷ ds) = (has d seen ≡ false) × AreUnseen seen ds

has-add_or :
    (k d : String) (keys : List String)
    → has k (add d keys) ≡ false
    → (has k keys ≡ false) × ((d == k) ≡ false)
has-add_or k d keys h = (
  not-true (has k keys) (λ e. ground (arith, h, add-grows d k keys e)),
  not-true (d == k) (λ e.
      let same : d ≡ k = (eq_iff d k).0 e in
      ground (arith, h, subst (λ z. has z (add d keys) ≡ true) same (has-add d keys))),
)
  where
    not-true : (b : Bool) → b ≢ true → b ≡ false
    not-true true f = absurd (f refl)
    not-true false f = refl

AreUnseen-back :
    (d : String) (seen ds : List String)
    → AreUnseen (add d seen) ds
    → (has d ds ≡ false) × AreUnseen seen ds
unfolding has
AreUnseen-back d seen [] h = (refl, tt)
AreUnseen-back d seen (c ∷ ds) h =
    let (apart, old) = AreUnseen-back d seen ds h.1 in
    let (fresh, differs) = has-add_or c d seen h.0 in
    (ground (arith, apart, differs, eq_iff c d, eq_iff d c), (fresh, old))

pub dependency_issues-nil :
    (id : String) (nodes : NodesById) (seen ds : List String)
    → dependency_issues id nodes seen ds ≡ []
    → AreUnseen seen ds
      × Distinct ds
      × All (λ d. (is_known nodes d ≡ true) × ((d == id) ≡ false)) ds
unfolding dependency_issues
dependency_issues-nil id nodes seen [] e = (tt, tt, tt)
dependency_issues-nil id nodes seen (d ∷ ds) e =
    let (both, rest) = append-nil_parts _ _ e in
    let (fresh, here) = append-nil_parts _ _ both in
    let (unseen, distinct, known) = dependency_issues-nil id nodes (add d seen) ds rest in
    let (apart, old) = AreUnseen-back d seen ds unseen in
    (
      (issue_if-nil (has d seen) _ _ fresh, old),
      (apart, distinct),
      ((ground (arith, here), ground (arith, here)), known),
    )

module _ {D : Type 0} (defs : Definitions D) where
  -- The issues of one node are none.
  abbrev pub IsQuiet : NodesById → PlanNode → Type 0
  IsQuiet nodes n =
      (dependency_issues (node_id_of n) nodes [] (depends_on_of n) ≡ [])
      × (binding_issues (some n) nodes (input_of n) ≡ [])
      × (kind_issues defs n nodes ≡ [])

  pub node_issues-nil :
      (ns : List PlanNode) (nodes : NodesById)
      → node_issues defs ns nodes ≡ []
      → All (IsQuiet nodes) ns
  unfolding node_issues
  node_issues-nil [] nodes e = tt
  node_issues-nil (n ∷ ns) nodes e =
      let (three, rest) = append-nil_parts _ _ e in
      let (both, kind) = append-nil_parts _ _ three in
      let (deps, binding) = append-nil_parts _ _ both in
      ((deps, binding, kind), node_issues-nil ns nodes rest)
