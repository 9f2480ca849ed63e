-- ===== src/Constraints/Paths.antt =====
-- What the answer of `hasDependencyPath` means.
use seqlane.Prelude.{
  ℕ, zero, suc, String, ◌≡◌, refl, sym, inl, inr, ◌⊎◌, ◌↔◌, subst, Bool, true, false, ◌||◌, some,
  List, [], ◌∷◌, has, All, Bool-cases, ◌==◌, eq_iff, arith,
}
use seqlane.Constraints.Search.{
  Dependencies, dependencies_at, push_all, search, search_fuel, has_dependency_path,
}
use seqlane.Constraints.Ends.{search-answers}

-- A node depends on another one, at once or by way of others.
pub data DependencyPath (deps : Dependencies) : String → String → Type 0 where
  edge : {a d : String} → has d (dependencies_at deps a) ≡ true → DependencyPath deps a d
  via :
      {a d e : String}
      → has d (dependencies_at deps a) ≡ true
      → DependencyPath deps d e
      → DependencyPath deps a e

pub path-snoc :
    {deps : Dependencies} {a b c : String}
    → DependencyPath deps a b
    → has c (dependencies_at deps b) ≡ true
    → DependencyPath deps a c
path-snoc (edge h) last = via h (edge last)
path-snoc (via h p) last = via h (path-snoc p last)

-- The node is the start of the search, or the start depends on it.
abbrev Reached : Dependencies → String → String → Type 0
Reached deps start node = (node ≡ start) ⊎ DependencyPath deps start node

Reached-step :
    (deps : Dependencies) (start node d : String)
    → Reached deps start node
    → has d (dependencies_at deps node) ≡ true
    → DependencyPath deps start d
Reached-step deps start node d (inl e) h =
    edge (subst (λ n. has d (dependencies_at deps n) ≡ true) e h)
Reached-step deps start node d (inr p) h = path-snoc p h

All-push_all :
    (P : String → Type 0) (ds pending : List String)
    → ((d : String) → has d ds ≡ true → P d)
    → All P pending
    → All P (push_all ds pending)
unfolding has
All-push_all P [] pending each h = h
All-push_all P (d ∷ ds) pending each h =
    All-push_all P ds (d ∷ pending) (λ c m. each c (ground (arith, m)))
      (each d (ground (arith, eq_iff d d)), h)

search-finds :
    (fuel : ℕ) (deps : Dependencies) (start target : String) (visited pending : List String)
    → All (Reached deps start) pending
    → search fuel deps target visited pending ≡ some true
    → DependencyPath deps start target
unfolding search
search-finds zero deps start target visited pending h e = absurd (cc)
search-finds (suc fuel) deps start target visited [] h e = absurd (ground arith)
search-finds (suc fuel) deps start target visited (current ∷ pending) h e =
    elim (Bool-cases (has current visited)) [
      | inl seen ↦ search-finds fuel deps start target visited pending h.1 (ground (arith, seen, e))
      | inr fresh ↦ elim (Bool-cases (has target (dependencies_at deps current))) [
        | inl found ↦ Reached-step deps start current target h.0 found
        | inr other ↦
            search-finds fuel deps start target (current ∷ visited)
              (push_all (dependencies_at deps current) pending)
              (All-push_all (Reached deps start) (dependencies_at deps current) pending
                (λ d m. inr (Reached-step deps start current d h.0 m)) h.1)
              (ground (arith, fresh, other, e))
      ]
    ]

has-push_all :
    (key : String) (ds pending : List String)
    → has key (push_all ds pending) ≡ (has key ds || has key pending)
unfolding has
has-push_all key [] pending = refl
has-push_all key (d ∷ ds) pending = ground (arith, has-push_all key ds (d ∷ pending))

-- No dependency of a visited node is the target, and all of them are visited or pending.
abbrev IsExplored : Dependencies → String → List String → List String → Type 0
IsExplored deps target visited pending =
    (v : String)
    → has v visited ≡ true
    → (has target (dependencies_at deps v) ≡ false)
      × ((d : String)
          → has d (dependencies_at deps v) ≡ true
          → (has d visited || has d pending) ≡ true)

explored-no_path :
    (deps : Dependencies) (target : String) (visited : List String) (a : String)
    → IsExplored deps target visited []
    → has a visited ≡ true
    → ¬ DependencyPath deps a target
unfolding has
explored-no_path deps target visited a h seen (edge m) = ground (arith, (h a seen).0, m)
explored-no_path deps target visited a h seen (via {d = d} m p) =
    explored-no_path deps target visited d h (ground (arith, (h a seen).1 d m)) p

search-misses :
    (fuel : ℕ) (deps : Dependencies) (target : String) (visited pending : List String) (a : String)
    → IsExplored deps target visited pending
    → (has a visited || has a pending) ≡ true
    → search fuel deps target visited pending ≡ some false
    → ¬ DependencyPath deps a target
unfolding search has
search-misses zero deps target visited pending a h at_a e = absurd (cc)
search-misses (suc fuel) deps target visited [] a h at_a e =
    explored-no_path deps target visited a h (ground (arith, at_a))
search-misses (suc fuel) deps target visited (current ∷ pending) a h at_a e =
    elim (Bool-cases (has current visited)) [
      | inl seen ↦
          search-misses fuel deps target visited pending a
            (λ v m. ((h v m).0, λ d n. ground (arith, (h v m).1 d n, seen, eq_iff current d)))
            (ground (arith, at_a, seen, eq_iff current a)) (ground (arith, seen, e))
      | inr fresh ↦ elim (Bool-cases (has target (dependencies_at deps current))) [
        | inl found ↦ absurd (ground (arith, fresh, found, e))
        | inr other ↦
            search-misses fuel deps target (current ∷ visited)
              (push_all (dependencies_at deps current) pending) a
              (λ v m. elim (Bool-cases (current == v)) [
                | inl same ↦
                    let is : current ≡ v = (eq_iff current v).0 same in
                    (
                      subst (λ n. has target (dependencies_at deps n) ≡ false) is other,
                      λ d n. ground (
                        arith,
                        has-push_all d (dependencies_at deps current) pending,
                        subst (λ c. has d (dependencies_at deps c) ≡ true) (sym is) n,
                      ),
                    )
                | inr differs ↦
                    let old : has v visited ≡ true = ground (arith, m, differs) in
                    (
                      (h v old).0,
                      λ d n. ground (
                        arith,
                        has-push_all d (dependencies_at deps current) pending,
                        (h v old).1 d n,
                      ),
                    )
              ])
              (ground (arith, at_a, has-push_all a (dependencies_at deps current) pending))
              (ground (arith, fresh, other, e))
      ]
    ]

-- `hasDependencyPath` answers true exactly where the first node depends on the second one, at once or
-- by way of others.
pub has_dependency_path_correct :
    (deps : Dependencies) (start target : String)
    → (has_dependency_path deps start target ≡ true) ↔ DependencyPath deps start target
unfolding has_dependency_path has
has_dependency_path_correct deps start target =
    let (answer, e) = search-answers deps start target in by_answer answer e
  where
    by_answer :
        (answer : Bool)
        → search (search_fuel deps) deps target [] (start ∷ []) ≡ some answer
        → (has_dependency_path deps start target ≡ true) ↔ DependencyPath deps start target
    by_answer true e = (
      λ yes. search-finds (search_fuel deps) deps start target [] (start ∷ []) (inl refl, tt) e,
      λ p. ground (arith, e),
    )
    by_answer false e = (
      λ yes. absurd (ground (arith, e, yes)),
      λ p. absurd (
          search-misses (search_fuel deps) deps target [] (start ∷ []) start
            (λ v m. absurd (ground (arith, m))) (ground (arith, eq_iff start start)) e p),
    )
