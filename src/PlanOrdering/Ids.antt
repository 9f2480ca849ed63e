-- ===== src/PlanOrdering/Ids.antt =====
-- The ids of lists of nodes that plan-ordering.ts appends to and sorts.
use seqlane.Prelude.{
  String, ◌≡◌, refl, inl, inr, false, ◌||◌, Bool, List, [], ◌∷◌, ◌++◌, Bool-cases, has, Distinct,
  All, sort_insert, sort, ◌==◌, eq_iff, arith,
}
use seqlane.Plan.Nodes.{PlanNode, node_id_of}
use seqlane.Validation.Accepted.{ids_of}

pub ids-snoc :
    (xs : List PlanNode) (n : PlanNode) → ids_of (xs ++ n ∷ []) ≡ ids_of xs ++ node_id_of n ∷ []
ids-snoc [] n = refl
ids-snoc (x ∷ xs) n = ground (arith, ids-snoc xs n)

pub has-ids_snoc :
    (id : String) (xs : List PlanNode) (n : PlanNode)
    → has id (ids_of (xs ++ n ∷ [])) ≡ (has id (ids_of xs) || node_id_of n == id)
unfolding has
has-ids_snoc id [] n = ground arith
has-ids_snoc id (x ∷ xs) n = ground (arith, has-ids_snoc id xs n)

pub Distinct-snoc :
    (xs : List PlanNode) (n : PlanNode)
    → Distinct (ids_of xs)
    → has (node_id_of n) (ids_of xs) ≡ false
    → Distinct (ids_of (xs ++ n ∷ []))
unfolding has
Distinct-snoc [] n h new = (refl, tt)
Distinct-snoc (x ∷ xs) n h new = (
  ground (
    arith,
    h.0,
    new,
    has-ids_snoc (node_id_of x) xs n,
    eq_iff (node_id_of n) (node_id_of x),
    eq_iff (node_id_of x) (node_id_of n),
  ),
  Distinct-snoc xs n h.1 (ground (arith, new)),
)

pub All-snoc :
    (P : PlanNode → Type 0) (xs : List PlanNode) (n : PlanNode)
    → All P xs
    → P n
    → All P (xs ++ n ∷ [])
All-snoc P [] n h p = (p, tt)
All-snoc P (x ∷ xs) n h p = (h.0, All-snoc P xs n h.1 p)

module _ (before : PlanNode → PlanNode → Bool) where
  has-sort_insert :
      (id : String) (x : PlanNode) (ys : List PlanNode)
      → has id (ids_of (sort_insert before x ys)) ≡ (node_id_of x == id || has id (ids_of ys))
  unfolding has sort_insert
  has-sort_insert id x [] = refl
  has-sort_insert id x (y ∷ ys) = ground (arith, has-sort_insert id x ys)

  pub has-sort :
      (id : String) (xs : List PlanNode) → has id (ids_of (sort before xs)) ≡ has id (ids_of xs)
  unfolding has sort
  has-sort id [] = refl
  has-sort id (x ∷ xs) = ground (arith, has-sort id xs, has-sort_insert id x (sort before xs))

  Distinct-sort_insert :
      (x : PlanNode) (ys : List PlanNode)
      → has (node_id_of x) (ids_of ys) ≡ false
      → Distinct (ids_of ys)
      → Distinct (ids_of (sort_insert before x ys))
  unfolding has sort_insert
  Distinct-sort_insert x [] new h = (refl, tt)
  Distinct-sort_insert x (y ∷ ys) new h = elim (Bool-cases (before x y)) [
    | inl e ↦ rw e (new, h)
    | inr e ↦ rw e (
      ground (
        arith,
        new,
        h.0,
        has-sort_insert (node_id_of y) x ys,
        eq_iff (node_id_of x) (node_id_of y),
        eq_iff (node_id_of y) (node_id_of x),
      ),
      Distinct-sort_insert x ys (ground (arith, new)) h.1,
    )
  ]

  pub Distinct-sort :
      (xs : List PlanNode) → Distinct (ids_of xs) → Distinct (ids_of (sort before xs))
  unfolding sort
  Distinct-sort [] h = tt
  Distinct-sort (x ∷ xs) h =
      Distinct-sort_insert x (sort before xs) (ground (arith, h.0, has-sort (node_id_of x) xs))
        (Distinct-sort xs h.1)
