-- ===== src/Constraints/Added.antt =====
-- An edge more makes no cycle, where its end does not depend on its start.
use seqlane.Prelude.{
  String, ◌≡◌, ◌≢◌, ◌⊎◌, sym, subst, inl, inr, true, List, Bool-cases, has, has-snoc, add, ◌==◌,
  eq_iff, arith,
}
use seqlane.Constraints.Search.{Dependencies, dependencies_at}
use seqlane.Constraints.Paths.{DependencyPath, edge, via, path-snoc}

-- Every chain of dependencies from the node ends.
pub data Ends (deps : Dependencies) : String → Type 0 where
  ends :
      (id : String)
      → ((d : String) → has d (dependencies_at deps id) ≡ true → Ends deps d)
      → Ends deps id

pub Ends-acyclic : (deps : Dependencies) (id : String) → Ends deps id → ¬ DependencyPath deps id id
Ends-acyclic deps id (ends self f) (edge m) = Ends-acyclic deps id (f id m) (edge m)
Ends-acyclic deps id (ends self f) (via {d = d} m p) = Ends-acyclic deps d (f d m) (path-snoc p m)

-- The map has an edge more, from `right` to `left`.
pub record IsAdded (old new : Dependencies) (right left : String) : Type 0 where
  pub others : (a : String) → a ≢ right → dependencies_at new a ≡ dependencies_at old a
  pub target : dependencies_at new right ≡ add left (dependencies_at old right)

pub has-add_cases :
    (d left : String) (ds : List String)
    → has d (add left ds) ≡ true
    → (d ≡ left) ⊎ (has d ds ≡ true)
unfolding add
has-add_cases d left ds m = elim (Bool-cases (has d ds)) [
  | inl e ↦ inr e
  | inr e ↦ inl (ground (arith, m, e, has-snoc d left ds, eq_iff left d))
]

module _ (old new : Dependencies) (right left : String) (added : IsAdded old new right left) where
  apart-Ends : (a : String) → Ends old a → a ≢ right → ¬ DependencyPath old a right → Ends new a
  apart-Ends a (ends self f) differs free = ends a (λ d m.
      let was = subst (λ ds. has d ds ≡ true) (added.others a differs) m in
      apart-Ends d (f d was)
        (λ e. free (edge (subst (λ z. has z (dependencies_at old a) ≡ true) e was)))
        (λ p. free (via was p)))

  right-Ends :
      left ≢ right
      → ¬ DependencyPath old left right
      → Ends old left
      → Ends old right
      → Ends new right
  right-Ends differs free l r = ends right (λ d m.
      elim (has-add_cases d left (dependencies_at old right)
        (subst (λ ds. has d ds ≡ true) added.target m)) [
          | inl e ↦ subst (Ends new) (sym e) (apart-Ends left l differs free)
          | inr was ↦
              apart-Ends d (next r d was)
                (λ e.
                  Ends-acyclic old right r
                    (edge (subst (λ z. has z (dependencies_at old right) ≡ true) e was)))
                (λ p. Ends-acyclic old right r (via was p))
        ])
    where
      next : Ends old right → (d : String) → has d (dependencies_at old right) ≡ true → Ends old d
      next (ends self f) d was = f d was

  pub added-Ends :
      (a : String)
      → left ≢ right
      → ¬ DependencyPath old left right
      → Ends old left
      → Ends old a
      → Ends new a
  added-Ends a differs free l (ends self f) = elim (Bool-cases (a == right)) [
    | inl e ↦
        let same = (eq_iff a right).0 e in
        subst (Ends new) (sym same) (right-Ends differs free l (subst (Ends old) same (ends a f)))
    | inr e ↦ ends a (λ d m. added-Ends d differs free l (
        f d (
          subst (λ ds. has d ds ≡ true)
            (added.others a (λ p. ground (arith, e, (eq_iff a right).1 p))) m)))
  ]
