-- ===== src/Constraints/Ends.antt =====
-- The loop of `hasDependencyPath` ends within its fuel, and what it finds is a path.
use seqlane.Prelude.{
  ℕ, zero, suc, ◌+◌, ◌≤◌, ◌<◌, String, ◌≡◌, ◌≢◌, refl, inl, inr, Bool, false, Option, none, some,
  List, [], ◌∷◌, if◌then◌else◌, length, lookup, has, Bool-cases, eq_iff, arith,
}
use seqlane.Constraints.Search.{
  Dependencies, dependencies_at, push_all, search, edge_count, search_fuel,
}

-- The entries of the nodes that were not visited.
unvisited : List String → Dependencies → ℕ
unvisited visited [] = 0
unvisited visited ((node, ds) ∷ deps) =
    (if has node visited then 0 else length ds) + unvisited visited deps

length-push_all :
    (ds pending : List String) → length (push_all ds pending) ≡ length ds + length pending
length-push_all [] pending = omega arith
length-push_all (d ∷ ds) pending = omega (arith, length-push_all ds (d ∷ pending))

unvisited-cons :
    (deps : Dependencies) (current : String) (visited : List String)
    → unvisited (current ∷ visited) deps ≤ unvisited visited deps
unfolding unvisited has
unvisited-cons [] current visited = omega arith
unvisited-cons ((node, ds) ∷ deps) current visited =
    ground (arith, unvisited-cons deps current visited)

unvisited-visit :
    (deps : Dependencies) (current : String) (visited : List String)
    → has current visited ≡ false
    → length (dependencies_at deps current) + unvisited (current ∷ visited) deps
      ≤ unvisited visited deps
unfolding unvisited has lookup
unvisited-visit [] current visited fresh = omega arith
unvisited-visit ((node, ds) ∷ deps) current visited fresh = ground (
  arith,
  fresh,
  unvisited-visit deps current visited fresh,
  unvisited-cons deps current visited,
  eq_iff node current,
  eq_iff current node,
)

search-ends :
    (fuel : ℕ) (deps : Dependencies) (target : String) (visited pending : List String)
    → length pending + unvisited visited deps < fuel
    → search fuel deps target visited pending ≢ none
unfolding search
search-ends zero deps target visited pending h = absurd (omega arith)
search-ends (suc fuel) deps target visited [] h = λ e. cc
search-ends (suc fuel) deps target visited (current ∷ pending) h =
    elim (Bool-cases (has current visited)) [
      | inl seen ↦ rw (seen, search) (search-ends fuel deps target visited pending (omega arith))
      | inr fresh ↦ elim (Bool-cases (has target (dependencies_at deps current))) [
        | inl found ↦ rw (fresh, search) (rw (found, search) (λ e. cc))
        | inr other ↦
            rw (fresh, search)
              (rw (other, search)
                (search-ends fuel deps target (current ∷ visited)
                  (push_all (dependencies_at deps current) pending)
                  (omega (
                    arith,
                    length-push_all (dependencies_at deps current) pending,
                    unvisited-visit deps current visited fresh,
                  ))))
      ]
    ]

unvisited-nil : (deps : Dependencies) → unvisited [] deps ≡ edge_count deps
unfolding unvisited has edge_count
unvisited-nil [] = refl
unvisited-nil ((node, ds) ∷ deps) = omega (arith, unvisited-nil deps)

-- From any node to any other, in any map of dependencies, one with cycles included, the loop of the
-- search answers on its fuel, two rounds more than the map has entries.
pub search-answers :
    (deps : Dependencies) (start target : String)
    → (answer : Bool) × (search (search_fuel deps) deps target [] (start ∷ []) ≡ some answer)
unfolding search_fuel
search-answers deps start target = answer_of _ (
    search-ends (suc (suc (edge_count deps))) deps target [] (start ∷ [])
      (omega (arith, unvisited-nil deps)))
  where
    answer_of : (o : Option Bool) → o ≢ none → (b : Bool) × (o ≡ some b)
    answer_of none h = absurd (h refl)
    answer_of (some b) h = (b, refl)
