-- ===== src/Constraints/Serialized.antt =====
-- Conflicting nodes are ordered by the edges of workspace-ordering.ts.
use seqlane.Prelude.{
  String, ◌≡◌, inl, inr, ◌⊎◌, true, ◌||◌, not, List, [], ◌∷◌, ◌++◌, if_elim, is_some, option_elim,
  lookup, lookup-insert, has, add, add-grows, has-add, Bool-cases, eq_iff, arith,
}
use seqlane.Constraints.Search.{Dependencies, dependencies_at, has_dependency_path}
use seqlane.Constraints.Paths.{DependencyPath, edge, via, has_dependency_path_correct}
use seqlane.Constraints.Lowering.{
  Placed, any_conflict, add_edge, constrain_pair, constrain_later, constrain_all,
}

-- No dependency and no node is lost.
record Grows (old new : Dependencies) : Type 0 where
  pub edges :
      (a d : String) → has d (dependencies_at old a) ≡ true → has d (dependencies_at new a) ≡ true
  pub nodes : (a : String) → is_some (lookup a old) ≡ true → is_some (lookup a new) ≡ true

Grows-refl : (deps : Dependencies) → Grows deps deps
Grows-refl deps = record { edges = λ a d h. h; nodes = λ a h. h }

Grows-trans : {a b c : Dependencies} → Grows a b → Grows b c → Grows a c
Grows-trans f g = record {
  edges = λ n d h. g.edges n d (f.edges n d h);
  nodes = λ n h. g.nodes n (f.nodes n h);
}

path-Grows :
    {old new : Dependencies} {a b : String}
    → Grows old new
    → DependencyPath old a b
    → DependencyPath new a b
path-Grows g (edge h) = edge (g.edges _ _ h)
path-Grows g (via h p) = via (g.edges _ _ h) (path-Grows g p)

add_edge-Grows : (deps : Dependencies) (right left : String) → Grows deps (add_edge deps right left)
unfolding add_edge
add_edge-Grows deps right left =
    option_elim (λ new. Grows deps new) (lookup right deps) deps _ (λ e. Grows-refl deps)
      (λ ds e. record {
        edges = λ a d h. ground (
          arith,
          e,
          h,
          lookup-insert right a (add left ds) deps,
          add-grows left d ds,
          eq_iff right a,
        );
        nodes = λ a h. ground (arith, e, h, lookup-insert right a (add left ds) deps);
      })

add_edge-path :
    (deps : Dependencies) (right left : String)
    → is_some (lookup right deps) ≡ true
    → DependencyPath (add_edge deps right left) right left
unfolding add_edge
add_edge-path deps right left known = edge (
    option_elim (λ new. has left (dependencies_at new right) ≡ true) (lookup right deps) deps _
      (λ e. absurd (ground (arith, e, known)))
      (λ ds e.
        ground (
          arith,
          lookup-insert right right (add left ds) deps,
          has-add left ds,
          eq_iff right right,
        )))

constrain_pair-Grows :
    (deps : Dependencies) (left right : Placed) → Grows deps (constrain_pair deps left right)
unfolding constrain_pair
constrain_pair-Grows deps left right =
    if_elim (Grows deps) (not (any_conflict left.accesses right.accesses)) _ _
      (λ e. Grows-refl deps)
      (λ e.
        if_elim (Grows deps)
          (has_dependency_path deps left.node_id right.node_id
            || has_dependency_path deps right.node_id left.node_id)
          _ _ (λ f. Grows-refl deps) (λ f. add_edge-Grows deps right.node_id left.node_id))

-- One of the two nodes depends on the other.
abbrev pub IsOrdered : Dependencies → Placed → Placed → Type 0
IsOrdered deps left right =
    DependencyPath deps left.node_id right.node_id ⊎ DependencyPath deps right.node_id left.node_id

IsOrdered-Grows :
    {old new : Dependencies} (left right : Placed)
    → Grows old new
    → IsOrdered old left right
    → IsOrdered new left right
IsOrdered-Grows left right g (inl p) = inl (path-Grows g p)
IsOrdered-Grows left right g (inr p) = inr (path-Grows g p)

found-IsOrdered :
    (deps : Dependencies) (left right : Placed)
    → (has_dependency_path deps left.node_id right.node_id
        || has_dependency_path deps right.node_id left.node_id)
      ≡ true
    → IsOrdered deps left right
found-IsOrdered deps left right h =
    elim (Bool-cases (has_dependency_path deps left.node_id right.node_id)) [
      | inl e ↦ inl ((has_dependency_path_correct deps left.node_id right.node_id).0 e)
      | inr e ↦
          inr
            ((has_dependency_path_correct deps right.node_id left.node_id).0 (ground (arith, h, e)))
    ]

constrain_pair-IsOrdered :
    (deps : Dependencies) (left right : Placed)
    → any_conflict left.accesses right.accesses ≡ true
    → is_some (lookup right.node_id deps) ≡ true
    → IsOrdered (constrain_pair deps left right) left right
unfolding constrain_pair
constrain_pair-IsOrdered deps left right conflict known =
    if_elim (λ new. IsOrdered new left right) (not (any_conflict left.accesses right.accesses)) _ _
      (λ e. absurd (ground (arith, e, conflict)))
      (λ e.
        if_elim (λ new. IsOrdered new left right)
          (has_dependency_path deps left.node_id right.node_id
            || has_dependency_path deps right.node_id left.node_id)
          _ _ (λ f. found-IsOrdered deps left right f)
          (λ f. inr (add_edge-path deps right.node_id left.node_id known)))

constrain_later-Grows :
    (rest : List Placed) (deps : Dependencies) (left : Placed)
    → Grows deps (constrain_later deps left rest)
unfolding constrain_later
constrain_later-Grows [] deps left = Grows-refl deps
constrain_later-Grows (right ∷ rest) deps left =
    Grows-trans (constrain_pair-Grows deps left right)
      (constrain_later-Grows rest (constrain_pair deps left right) left)

constrain_all-Grows : (ps : List Placed) (deps : Dependencies) → Grows deps (constrain_all deps ps)
unfolding constrain_all
constrain_all-Grows [] deps = Grows-refl deps
constrain_all-Grows (left ∷ rest) deps =
    Grows-trans (constrain_later-Grows rest deps left)
      (constrain_all-Grows rest (constrain_later deps left rest))

constrain_later-IsOrdered :
    (between : List Placed) (right : Placed) (rest : List Placed) (deps : Dependencies)
    (left : Placed)
    → any_conflict left.accesses right.accesses ≡ true
    → is_some (lookup right.node_id deps) ≡ true
    → IsOrdered (constrain_later deps left (between ++ right ∷ rest)) left right
unfolding constrain_later
constrain_later-IsOrdered [] right rest deps left conflict known =
    IsOrdered-Grows left right (constrain_later-Grows rest (constrain_pair deps left right) left)
      (constrain_pair-IsOrdered deps left right conflict known)
constrain_later-IsOrdered (p ∷ between) right rest deps left conflict known =
    constrain_later-IsOrdered between right rest (constrain_pair deps left p) left conflict
      ((constrain_pair-Grows deps left p).nodes right.node_id known)

-- Where the accesses of two nodes of the list conflict and the later one is a node of the map, the
-- loop leaves a map in which one of the two depends on the other, at once or by way of others.
pub conflicting-IsOrdered :
    (before : List Placed) (left : Placed) (between : List Placed) (right : Placed)
    (rest : List Placed) (deps : Dependencies)
    → any_conflict left.accesses right.accesses ≡ true
    → is_some (lookup right.node_id deps) ≡ true
    → IsOrdered (constrain_all deps (before ++ left ∷ between ++ right ∷ rest)) left right
unfolding constrain_all
conflicting-IsOrdered [] left between right rest deps conflict known =
    IsOrdered-Grows left right
      (constrain_all-Grows (between ++ right ∷ rest)
        (constrain_later deps left (between ++ right ∷ rest)))
      (constrain_later-IsOrdered between right rest deps left conflict known)
conflicting-IsOrdered (p ∷ before) left between right rest deps conflict known =
    conflicting-IsOrdered before left between right rest
      (constrain_later deps p (before ++ left ∷ between ++ right ∷ rest)) conflict
      ((constrain_later-Grows (before ++ left ∷ between ++ right ∷ rest) deps p).nodes right.node_id
        known)
