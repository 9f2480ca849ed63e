-- ===== src/PlanOrdering/Counts.antt =====
-- The dependencies that are not done while plan-ordering.ts orders a plan, and the order it makes.
use seqlane.Prelude.{
  ℕ, ◌+◌, String, ◌≡◌, refl, true, false, ◌||◌, List, [], ◌∷◌, ◌++◌, if◌then◌else◌, has, has-snoc,
  Distinct, All, ◌==◌, eq_iff, arith,
}
use seqlane.Plan.Nodes.{PlanNode, node_id_of, depends_on_of}
use seqlane.Validation.Accepted.{ids_of}

-- The dependencies that are not done.
unfoldable pub open_count : List String → List String → ℕ
unfolding has
open_count done [] = 0
open_count done (d ∷ ds) = (if has d done then 0 else 1) + open_count done ds

pub open_count-snoc :
    (done ds : List String) (id : String)
    → Distinct ds
    → has id done ≡ false
    → open_count (done ++ id ∷ []) ds + (if has id ds then 1 else 0) ≡ open_count done ds
unfolding open_count has
open_count-snoc done [] id h new = refl
open_count-snoc done (d ∷ ds) id h new = ground (
  arith,
  h.0,
  new,
  open_count-snoc done ds id h.1 new,
  has-snoc d id done,
  eq_iff d id,
  eq_iff id d,
)

pub open_count-zero :
    (done ds : List String) → open_count done ds ≡ 0 → All (λ d. (false || has d done) ≡ true) ds
unfolding open_count
open_count-zero done [] e = tt
open_count-zero done (d ∷ ds) e = (ground (arith, e), open_count-zero done ds (ground (arith, e)))

pub open_count-done :
    (done ds : List String)
    → ((d : String) → has d ds ≡ true → has d done ≡ true)
    → open_count done ds ≡ 0
unfolding open_count has
open_count-done done [] h = refl
open_count-done done (d ∷ ds) h = ground (
  arith,
  h d (ground (arith, eq_iff d d)),
  open_count-done done ds (λ c m. h c (ground (arith, m))),
)

-- Each node stands behind its dependencies; `done` are the ids before the list.
abbrev pub IsExecutable : List String → List PlanNode → Type 0
IsExecutable done [] = Unit
IsExecutable done (n ∷ ns) =
    All (λ d. has d done ≡ true) (depends_on_of n) × IsExecutable (node_id_of n ∷ done) ns

pub IsExecutable-snoc :
    (done : List String) (ns : List PlanNode) (n : PlanNode)
    → IsExecutable done ns
    → All (λ d. (has d done || has d (ids_of ns)) ≡ true) (depends_on_of n)
    → IsExecutable done (ns ++ n ∷ [])
unfolding has
IsExecutable-snoc done [] n h p = (each (depends_on_of n) p, tt)
  where
    each :
        (ds : List String)
        → All (λ d. (has d done || false) ≡ true) ds
        → All (λ d. has d done ≡ true) ds
    each [] q = tt
    each (d ∷ ds) q = (ground (arith, q.0), each ds q.1)
IsExecutable-snoc done (m ∷ ns) n h p =
    (h.0, IsExecutable-snoc (node_id_of m ∷ done) ns n h.1 (each (depends_on_of n) p))
  where
    each :
        (ds : List String)
        → All (λ d. (has d done || (node_id_of m == d || has d (ids_of ns))) ≡ true) ds
        → All (λ d. ((node_id_of m == d || has d done) || has d (ids_of ns)) ≡ true) ds
    each [] q = tt
    each (d ∷ ds) q = (ground (arith, q.0), each ds q.1)
