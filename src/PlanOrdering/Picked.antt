-- ===== src/PlanOrdering/Picked.antt =====
-- Distinct nodes of a plan are a part of it, and all of it if they are as many.
use seqlane.Prelude.{
  suc, ◌+◌, String, ◌≡◌, refl, ◌∙◌, subst, inl, inr, false, ◌||◌, some, List, [], ◌∷◌, ◌++◌,
  if◌then◌else◌, length, Bool-cases, has, Distinct, All, ◌==◌, eq_iff, arith,
}
use mathlib.Core.List.{Perm}
use mathlib.Core.List.Perm
use seqlane.Plan.Nodes.{PlanNode, node_id_of}
use seqlane.Validation.Accepted.{ids_of}
use seqlane.Validation.Acyclic.{node_at}
use seqlane.PlanOrdering.Tables.{IsOfPlan}

-- The list without its first node of the id.
remove : String → List PlanNode → List PlanNode
remove id [] = []
remove id (n ∷ ns) = if node_id_of n == id then ns else n ∷ remove id ns

remove-perm :
    (id : String) (ns : List PlanNode) (n : PlanNode)
    → node_at id ns ≡ some n
    → Perm ns (n ∷ remove id ns) × (length ns ≡ suc (length (remove id ns)))
unfolding remove
remove-perm id [] n e = absurd (cc)
remove-perm id (m ∷ ns) n e = elim (Bool-cases (node_id_of m == id)) [
  | inl same ↦
      let is : m ≡ n = ground (arith, same, e) in
      rw same (subst (λ k. Perm (m ∷ ns) (k ∷ ns)) is Perm.rfl, refl)
  | inr other ↦
      let (p, q) = remove-perm id ns n (ground (arith, other, e)) in
      rw other (Perm.trans (Perm.cons m p) (Perm.swap n m (remove id ns)), omega (arith, q))
]

node_at-remove :
    (id key : String) (ns : List PlanNode)
    → (key == id) ≡ false
    → node_at key (remove id ns) ≡ node_at key ns
unfolding remove
node_at-remove id key [] h = refl
node_at-remove id key (n ∷ ns) h = ground (
  arith,
  h,
  node_at-remove id key ns h,
  eq_iff (node_id_of n) id,
  eq_iff (node_id_of n) key,
  eq_iff key id,
)

remove-All :
    (id : String) (ns xs : List PlanNode)
    → has id (ids_of xs) ≡ false
    → All (IsOfPlan ns) xs
    → All (IsOfPlan (remove id ns)) xs
unfolding has
remove-All id ns [] new h = tt
remove-All id ns (x ∷ xs) new h = (
  node_at-remove id (node_id_of x) ns (ground (arith, new)) ∙ h.0,
  remove-All id ns xs (ground (arith, new)) h.1,
)

has-remove :
    (id key : String) (ns : List PlanNode) (n : PlanNode)
    → node_at id ns ≡ some n
    → has key (ids_of ns) ≡ (id == key || has key (ids_of (remove id ns)))
unfolding remove has
has-remove id key [] n e = absurd (cc)
has-remove id key (m ∷ ns) n e = elim (Bool-cases (node_id_of m == id)) [
  | inl same ↦ ground (arith, same, (eq_iff (node_id_of m) id).0 same)
  | inr other ↦ ground (arith, other, has-remove id key ns n (ground (arith, other, e)))
]

-- The nodes of a plan that are not in the list, with the list's own.
pub record IsRest (xs ns rest : List PlanNode) : Type 0 where
  pub perm : Perm ns (xs ++ rest)
  pub size : length ns ≡ length xs + length rest
  pub ids : (id : String) → has id (ids_of ns) ≡ (has id (ids_of xs) || has id (ids_of rest))

pub nodes-IsRest :
    (xs ns : List PlanNode)
    → Distinct (ids_of xs)
    → All (IsOfPlan ns) xs
    → (rest : List PlanNode) × IsRest xs ns rest
unfolding has
nodes-IsRest [] ns h p = (ns, record { perm = Perm.rfl; size = omega arith; ids = λ id. refl })
nodes-IsRest (x ∷ xs) ns h p =
    let (perm, size) = remove-perm (node_id_of x) ns x p.0 in
    let (rest, r) =
      nodes-IsRest xs (remove (node_id_of x) ns) h.1 (remove-All (node_id_of x) ns xs h.0 p.1) in
    (
      rest,
      record {
        perm = Perm.trans perm (Perm.cons x r.perm);
        size = omega (arith, size, r.size);
        ids = λ id. ground (arith, has-remove (node_id_of x) id ns x p.0, r.ids id);
      },
    )

-- Nodes of distinct ids are each the one of its id.
pub Distinct-IsOfPlan : (ns : List PlanNode) → Distinct (ids_of ns) → All (IsOfPlan ns) ns
unfolding has
Distinct-IsOfPlan [] h = tt
Distinct-IsOfPlan (n ∷ ns) h = (
  ground (arith, eq_iff (node_id_of n) (node_id_of n)),
  behind n ns ns h.0 (Distinct-IsOfPlan ns h.1),
)
  where
    behind :
        (n : PlanNode) (ns xs : List PlanNode)
        → has (node_id_of n) (ids_of xs) ≡ false
        → All (IsOfPlan ns) xs
        → All (IsOfPlan (n ∷ ns)) xs
    behind n ns [] new q = tt
    behind n ns (x ∷ xs) new q = (
      ground (arith, new, q.0, eq_iff (node_id_of n) (node_id_of x)),
      behind n ns xs (ground (arith, new)) q.1,
    )
