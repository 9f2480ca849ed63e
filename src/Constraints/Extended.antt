-- ===== src/Constraints/Extended.antt =====
-- The edges that workspace-ordering.ts adds make no cycle.
use seqlane.Prelude.{
  append_assoc, String, ◌≡◌, ◌≢◌, refl, sym, ◌∙◌, subst, inl, inr, true, false, ◌||◌, not, List, [],
  ◌∷◌, ◌++◌, map, if_elim, is_some, Bool-cases, Option-cases, lookup, lookup-insert, has, has-snoc,
  add, Distinct, ◌==◌, eq_iff, arith,
}
use seqlane.Constraints.Search.{Dependencies, dependencies_at, has_dependency_path}
use seqlane.Constraints.Paths.{DependencyPath, has_dependency_path_correct}
use seqlane.Constraints.Lowering.{
  Placed, any_conflict, add_edge, constrain_pair, constrain_later, constrain_all,
}
use seqlane.Constraints.Added.{Ends, IsAdded, has-add_cases, added-Ends}

-- The ids that have an entry, whose dependencies are among them.
pub record IsExtended (ids : List String) (old new : Dependencies) : Type 0 where
  pub entries : (a : String) → is_some (lookup a new) ≡ has a ids
  pub more :
      (a : String) → (ds : List String) × (dependencies_at new a ≡ dependencies_at old a ++ ds)
  pub distinct : (a : String) → Distinct (dependencies_at new a)
  pub known : (a d : String) → has d (dependencies_at new a) ≡ true → has d ids ≡ true
  pub all_end : (a : String) → Ends new a

add_edge-IsAdded :
    (deps : Dependencies) (right left : String)
    → is_some (lookup right deps) ≡ true
    → IsAdded deps (add_edge deps right left) right left
unfolding add_edge
add_edge-IsAdded deps right left known = elim (Option-cases (lookup right deps)) [
  | inl e ↦ absurd (ground (arith, known, e))
  | inr (ds, e) ↦ record {
    others = λ a differs.
        ground (arith, e, differs, lookup-insert right a (add left ds) deps, eq_iff right a);
    target = ground (arith, e, lookup-insert right right (add left ds) deps, eq_iff right right);
  }
]

add_edge-entries :
    (deps : Dependencies) (right left a : String)
    → is_some (lookup a (add_edge deps right left)) ≡ is_some (lookup a deps)
unfolding add_edge
add_edge-entries deps right left a = elim (Option-cases (lookup right deps)) [
  | inl e ↦ ground (arith, e)
  | inr (ds, e) ↦ ground (arith, e, lookup-insert right a (add left ds) deps, eq_iff right a)
]

add-more :
    (left : String) (ds base more : List String)
    → ds ≡ base ++ more
    → (more' : List String) × (add left ds ≡ base ++ more')
unfolding add
add-more left ds base more e = elim (Bool-cases (has left ds)) [
  | inl m ↦ (more, ground (arith, m, e))
  | inr m ↦ (more ++ left ∷ [], ground (arith, m, e, append_assoc base more (left ∷ [])))
]

Distinct-snoc :
    (xs : List String) (x : String) → Distinct xs → has x xs ≡ false → Distinct (xs ++ x ∷ [])
unfolding has
Distinct-snoc [] x h new = (refl, tt)
Distinct-snoc (y ∷ xs) x h new = (
  ground (arith, h.0, new, has-snoc y x xs, eq_iff x y, eq_iff y x),
  Distinct-snoc xs x h.1 (ground (arith, new)),
)

add-Distinct : (left : String) (ds : List String) → Distinct ds → Distinct (add left ds)
unfolding add
add-Distinct left ds h =
    if_elim (λ (xs : List String). Distinct xs) (has left ds) _ _ (λ e. h)
      (λ e. Distinct-snoc ds left h e)

at_right :
    (P : String → List String → Type 0) (old new : Dependencies) (right left : String)
    → IsAdded old new right left
    → ((a : String) → P a (dependencies_at old a))
    → P right (add left (dependencies_at old right))
    → (a : String) → P a (dependencies_at new a)
at_right P old new right left added h p a = elim (Bool-cases (a == right)) [
  | inl e ↦
      let same = (eq_iff a right).0 e in
      subst (λ z. P z (dependencies_at new z)) (sym same) (subst (P right) (sym added.target) p)
  | inr e ↦ subst (P a) (sym (added.others a (λ q. ground (arith, e, (eq_iff a right).1 q)))) (h a)
]

add_edge-IsExtended :
    (ids : List String) (old deps : Dependencies) (right left : String)
    → IsExtended ids old deps
    → has left ids ≡ true
    → has right ids ≡ true
    → left ≢ right
    → ¬ DependencyPath deps left right
    → IsExtended ids old (add_edge deps right left)
add_edge-IsExtended ids old deps right left h l r differs free =
    let new = add_edge deps right left in
    let added = add_edge-IsAdded deps right left (h.entries right ∙ r) in
    record {
      entries = λ a. add_edge-entries deps right left a ∙ h.entries a;
      more =
          at_right (λ a ds. (more : List String) × (ds ≡ dependencies_at old a ++ more)) deps new
            right left added h.more
            (let (more, e) = h.more right in
              add-more left (dependencies_at deps right) (dependencies_at old right) more e);
      distinct =
          at_right (λ a ds. Distinct ds) deps new right left added h.distinct
            (add-Distinct left (dependencies_at deps right) (h.distinct right));
      known =
          at_right (λ a ds. (d : String) → has d ds ≡ true → has d ids ≡ true) deps new right left
            added h.known
            (λ d m. elim (has-add_cases d left (dependencies_at deps right) m) [
              | inl e ↦ subst (λ z. has z ids ≡ true) (sym e) l
              | inr was ↦ h.known right d was
            ]);
      all_end =
          λ a. added-Ends deps new right left added a differs free (h.all_end left) (h.all_end a);
    }

-- The nodes of the list are among the ids, and none of them is there twice.
abbrev pub AreApart : List String → List Placed → Type 0
AreApart ids [] = Unit
AreApart ids (p ∷ ps) =
    (has p.node_id ids ≡ true) × (has p.node_id (map (λ q. q.node_id) ps) ≡ false) × AreApart ids ps

constrain_pair-IsExtended :
    (ids : List String) (old deps : Dependencies) (left right : Placed)
    → IsExtended ids old deps
    → has left.node_id ids ≡ true
    → has right.node_id ids ≡ true
    → left.node_id ≢ right.node_id
    → IsExtended ids old (constrain_pair deps left right)
unfolding constrain_pair
constrain_pair-IsExtended ids old deps left right h l r differs =
    if_elim (IsExtended ids old) (not (any_conflict left.accesses right.accesses)) _ _ (λ e. h)
      (λ e.
        if_elim (IsExtended ids old)
          (has_dependency_path deps left.node_id right.node_id
            || has_dependency_path deps right.node_id left.node_id)
          _ _ (λ f. h)
          (λ f. add_edge-IsExtended ids old deps right.node_id left.node_id h l r differs (λ p.
            ground (arith, f, (has_dependency_path_correct deps left.node_id right.node_id).1 p))))

constrain_later-IsExtended :
    (ids : List String) (old : Dependencies) (rest : List Placed) (deps : Dependencies)
    (left : Placed)
    → IsExtended ids old deps
    → has left.node_id ids ≡ true
    → has left.node_id (map (λ q. q.node_id) rest) ≡ false
    → AreApart ids rest
    → IsExtended ids old (constrain_later deps left rest)
unfolding constrain_later has
constrain_later-IsExtended ids old [] deps left h l new apart = h
constrain_later-IsExtended ids old (right ∷ rest) deps left h l new apart =
    constrain_later-IsExtended ids old rest (constrain_pair deps left right) left
      (constrain_pair-IsExtended ids old deps left right h l apart.0
        (λ e. ground (arith, new, eq_iff right.node_id left.node_id, e)))
      l (ground (arith, new)) apart.2

pub constrain_all-IsExtended :
    (ids : List String) (old : Dependencies) (ps : List Placed) (deps : Dependencies)
    → IsExtended ids old deps
    → AreApart ids ps
    → IsExtended ids old (constrain_all deps ps)
unfolding constrain_all
constrain_all-IsExtended ids old [] deps h apart = h
constrain_all-IsExtended ids old (left ∷ rest) deps h apart =
    constrain_all-IsExtended ids old rest (constrain_later deps left rest)
      (constrain_later-IsExtended ids old rest deps left h apart.0 apart.1 apart.2) apart.2
