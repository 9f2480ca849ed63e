-- ===== src/PlanOrdering/Release.antt =====
-- What the loop over the dependents of a node in plan-ordering.ts does to the counts and the queue.
use seqlane.Prelude.{
  ◌-◌, String, ◌≡◌, ◌⊎◌, refl, inl, inr, true, false, ◌&&◌, ◌||◌, List, [], ◌∷◌, ◌++◌,
  if◌then◌else◌, num_eq, Bool-cases, lookup-insert, has, Distinct, All, sort-All, ◌==◌, eq_iff,
  arith,
}
use seqlane.Plan.Nodes.{PlanNode, node_id_of}
use seqlane.Validation.Accepted.{ids_of}
use seqlane.PlanOrdering.Order.{
  node_before, insert_ready_node, remaining_at, Front, release, release_all,
}
use seqlane.PlanOrdering.Ids.{has-ids_snoc, Distinct-snoc, All-snoc, has-sort, Distinct-sort}

has-insert_ready_node :
    (id : String) (queue : List PlanNode) (n : PlanNode)
    → has id (ids_of (insert_ready_node queue n)) ≡ (has id (ids_of queue) || node_id_of n == id)
unfolding insert_ready_node
has-insert_ready_node id queue n =
    ground (arith, has-sort node_before id (queue ++ n ∷ []), has-ids_snoc id queue n)

-- The ids in the queue are distinct, and their counts are 0.
pub record IsFresh (f : Front) : Type 0 where
  pub distinct : Distinct (ids_of f.ready)
  pub done : (id : String) → has id (ids_of f.ready) ≡ true → remaining_at id f.remaining ≡ 0

remaining_at-release :
    (n : PlanNode) (f : Front) (id : String)
    → remaining_at id (release n f).remaining ≡ (
        if node_id_of n == id then remaining_at id f.remaining - 1 else remaining_at id f.remaining)
unfolding release
remaining_at-release n f id = ground (
  arith,
  lookup-insert (node_id_of n) id (remaining_at (node_id_of n) f.remaining - 1) f.remaining,
  eq_iff (node_id_of n) id,
)

has-release :
    (n : PlanNode) (f : Front) (id : String)
    → has id (ids_of (release n f).ready)
      ≡ (has id (ids_of f.ready) || (node_id_of n == id && num_eq (remaining_at id f.remaining) 1))
unfolding release
has-release n f id = ground (arith, has-insert_ready_node id f.ready n, eq_iff (node_id_of n) id)

release-IsFresh : (n : PlanNode) (f : Front) → IsFresh f → IsFresh (release n f)
unfolding release insert_ready_node
release-IsFresh n f h = record {
  distinct = by_count (Bool-cases (num_eq (remaining_at (node_id_of n) f.remaining) 1));
  done = λ id m. ground (
    arith,
    h.done id,
    m,
    has-release n f id,
    remaining_at-release n f id,
    eq_iff (node_id_of n) id,
  );
}
  where
    by_count :
        (num_eq (remaining_at (node_id_of n) f.remaining) 1 ≡ true)
          ⊎ (num_eq (remaining_at (node_id_of n) f.remaining) 1 ≡ false)
        → Distinct (ids_of (release n f).ready)
    by_count (inl e) = rw e (
        Distinct-sort node_before (f.ready ++ n ∷ []) (
          Distinct-snoc f.ready n h.distinct
            (absent (Bool-cases (has (node_id_of n) (ids_of f.ready))))))
      where
        absent :
            (has (node_id_of n) (ids_of f.ready) ≡ true)
              ⊎ (has (node_id_of n) (ids_of f.ready) ≡ false)
            → has (node_id_of n) (ids_of f.ready) ≡ false
        absent (inl m) = absurd (ground (arith, e, h.done (node_id_of n) m))
        absent (inr m) = m
    by_count (inr e) = rw e h.distinct

release-All :
    (P : PlanNode → Type 0) (n : PlanNode) (f : Front)
    → P n
    → All P f.ready
    → All P (release n f).ready
unfolding release insert_ready_node
release-All P n f p h = elim (Bool-cases (num_eq (remaining_at (node_id_of n) f.remaining) 1)) [
  | inl e ↦ rw e (sort-All node_before P (f.ready ++ n ∷ []) (All-snoc P f.ready n h p))
  | inr e ↦ rw e h
]

-- Each dependent's count is one less.
pub remaining_at-release_all :
    (ns : List PlanNode) (f : Front) (id : String)
    → Distinct (ids_of ns)
    → remaining_at id (release_all ns f).remaining ≡ (
        if has id (ids_of ns) then remaining_at id f.remaining - 1 else remaining_at id f.remaining)
unfolding release_all has
remaining_at-release_all [] f id h = refl
remaining_at-release_all (n ∷ ns) f id h = ground (
  arith,
  h.0,
  remaining_at-release_all ns (release n f) id h.1,
  remaining_at-release n f id,
  eq_iff (node_id_of n) id,
)

-- The dependents whose count was 1 are ready.
pub has-release_all :
    (ns : List PlanNode) (f : Front) (id : String)
    → Distinct (ids_of ns)
    → has id (ids_of (release_all ns f).ready)
      ≡ (has id (ids_of f.ready) || (has id (ids_of ns) && num_eq (remaining_at id f.remaining) 1))
unfolding release_all has
has-release_all [] f id h = ground arith
has-release_all (n ∷ ns) f id h = ground (
  arith,
  h.0,
  has-release_all ns (release n f) id h.1,
  has-release n f id,
  remaining_at-release n f id,
  eq_iff (node_id_of n) id,
)

pub release_all-IsFresh : (ns : List PlanNode) (f : Front) → IsFresh f → IsFresh (release_all ns f)
unfolding release_all
release_all-IsFresh [] f h = h
release_all-IsFresh (n ∷ ns) f h = release_all-IsFresh ns (release n f) (release-IsFresh n f h)

pub release_all-All :
    (P : PlanNode → Type 0) (ns : List PlanNode) (f : Front)
    → All P ns
    → All P f.ready
    → All P (release_all ns f).ready
unfolding release_all
release_all-All P [] f p h = h
release_all-All P (n ∷ ns) f p h = release_all-All P ns (release n f) p.1 (release-All P n f p.0 h)
