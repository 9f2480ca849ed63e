-- ===== src/Constraints/Renewed.antt =====
-- A node of workspace-ordering.ts with the dependencies of the map.
use seqlane.Prelude.{
  append-nil, String, ◌≡◌, refl, sym, ap, ◌∙◌, List, [], ◌∷◌, ◌++◌, if_elim, length, length-append,
  num_eq, arith,
}
use seqlane.Plan.Nodes.{
  PlanNode, task, workflow, validation_check, validation_gate, repeat, choice, node_id_of,
  depends_on_of,
}
use seqlane.Constraints.Search.{Dependencies, dependencies_at}
use seqlane.Constraints.Lower.{with_depends_on, lower_dependencies}

node_id-with_depends_on :
    (ds : List String) (n : PlanNode) → node_id_of (with_depends_on ds n) ≡ node_id_of n
node_id-with_depends_on ds (task n) = refl
node_id-with_depends_on ds (workflow n) = refl
node_id-with_depends_on ds (validation_check n) = refl
node_id-with_depends_on ds (validation_gate n) = refl
node_id-with_depends_on ds (repeat n) = refl
node_id-with_depends_on ds (choice n) = refl

depends_on-with_depends_on :
    (ds : List String) (n : PlanNode) → depends_on_of (with_depends_on ds n) ≡ ds
depends_on-with_depends_on ds (task n) = refl
depends_on-with_depends_on ds (workflow n) = refl
depends_on-with_depends_on ds (validation_check n) = refl
depends_on-with_depends_on ds (validation_gate n) = refl
depends_on-with_depends_on ds (repeat n) = refl
depends_on-with_depends_on ds (choice n) = refl

pub node_id-lower_dependencies :
    (deps : Dependencies) (n : PlanNode) → node_id_of (lower_dependencies deps n) ≡ node_id_of n
unfolding lower_dependencies
node_id-lower_dependencies deps n =
    if_elim (λ (m : PlanNode). node_id_of m ≡ node_id_of n)
      (num_eq (length (dependencies_at deps (node_id_of n))) (length (depends_on_of n))) _ _
      (λ e. refl) (λ e. node_id-with_depends_on (dependencies_at deps (node_id_of n)) n)

append_shorter : (xs ds more : List String) → ds ≡ xs ++ more → length ds ≡ length xs → ds ≡ xs
append_shorter xs ds [] e f = e ∙ append-nil xs
append_shorter xs ds (d ∷ more) e f =
    absurd (omega (arith, ap (λ (l : List String). length l) e, f, length-append xs (d ∷ more)))

pub depends_on-lower_dependencies :
    (deps : Dependencies) (n : PlanNode) (more : List String)
    → dependencies_at deps (node_id_of n) ≡ depends_on_of n ++ more
    → depends_on_of (lower_dependencies deps n) ≡ dependencies_at deps (node_id_of n)
unfolding lower_dependencies
depends_on-lower_dependencies deps n more e =
    if_elim (λ (m : PlanNode). depends_on_of m ≡ dependencies_at deps (node_id_of n))
      (num_eq (length (dependencies_at deps (node_id_of n))) (length (depends_on_of n))) _ _
      (λ f. sym (
        append_shorter (depends_on_of n) (dependencies_at deps (node_id_of n)) more e
          (ground (arith, f))))
      (λ f. depends_on-with_depends_on (dependencies_at deps (node_id_of n)) n)
