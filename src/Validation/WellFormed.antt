-- ===== src/Validation/WellFormed.antt =====
-- The plans that `validateParsedPlan` accepts.
use seqlane.Prelude.{
  ◌≡◌, false, Option, none, some, List, [], ◌∷◌, List-cases, inl, inr, lookup, Distinct, All,
  append-nil_parts, ◌==◌, arith,
}
use seqlane.Binding.Json.{Json, ValueRef}
use seqlane.Binding.References.{references}
use seqlane.Plan.Nodes.{PlanNode, node_id_of, depends_on_of}
use seqlane.Validation.References.{NodesById, is_known}
use seqlane.Validation.Nodes.{Definitions}
use seqlane.Validation.Plan.{
  Plan, index_nodes, input_of, binding_issues, semantic_issues, validate_parsed_plan,
}
use seqlane.Validation.Accepted.{
  ids_of, is_known-index, id_issues-nil, dependency_issues-nil, HasGoodDependencies, IsQuiet,
  node_issues-nil,
}
use seqlane.Validation.Referenced.{IsDeclared, validated-IsDeclared}

-- The references of the input of a node.
abbrev pub input_references : Option Json → List ValueRef
input_references none = []
input_references (some b) = references b

-- What the validation guarantees of the graph of a plan.
pub record IsWellFormed (ns : List PlanNode) : Type 0 where
  pub named : All (λ n. (node_id_of n == "") ≡ false) ns
  pub distinct : Distinct (ids_of ns)
  pub dependencies : All (HasGoodDependencies (ids_of ns)) ns
  pub declared : All (λ n. All (IsDeclared (depends_on_of n)) (input_references (input_of n))) ns

-- What the order of the nodes needs.
pub record IsGraph (ns : List PlanNode) : Type 0 where
  pub distinct : Distinct (ids_of ns)
  pub dependencies : All (HasGoodDependencies (ids_of ns)) ns

pub well_formed-IsGraph : (ns : List PlanNode) → IsWellFormed ns → IsGraph ns
well_formed-IsGraph ns h = record { distinct = h.distinct; dependencies = h.dependencies }

All-map :
    {A : Type 0} (P Q : A → Type 0) (xs : List A) → ((a : A) → P a → Q a) → All P xs → All Q xs
All-map P Q [] f h = tt
All-map P Q (x ∷ xs) f h = (f x h.0, All-map P Q xs f h.1)

module _ {D : Type 0} (defs : Definitions D) where
  quiet-good :
      (ns : List PlanNode) (n : PlanNode)
      → IsQuiet defs (index_nodes ns []) n
      → HasGoodDependencies (ids_of ns) n
  unfolding is_known lookup
  quiet-good ns n quiet =
      let (unseen, distinct, known) =
        dependency_issues-nil (node_id_of n) (index_nodes ns []) [] (depends_on_of n) quiet.0 in
      record {
        distinct = distinct;
        known =
            All-map _ _ (depends_on_of n)
              (λ d h. (ground (arith, h.0, is_known-index ns [] d), h.1)) known;
      }

  quiet-IsDeclared :
      (nodes : NodesById) (n : PlanNode)
      → IsQuiet defs nodes n
      → All (IsDeclared (depends_on_of n)) (input_references (input_of n))
  quiet-IsDeclared nodes n quiet = by_input (input_of n) quiet.1
    where
      by_input :
          (input : Option Json)
          → binding_issues (some n) nodes input ≡ []
          → All (IsDeclared (depends_on_of n)) (input_references input)
      by_input none e = tt
      by_input (some b) e = validated-IsDeclared nodes n b e

  pub accepted-semantic :
      (plan : Plan) → validate_parsed_plan defs plan ≡ [] → semantic_issues defs plan ≡ []
  unfolding validate_parsed_plan
  accepted-semantic plan e = elim (List-cases (semantic_issues defs plan)) [
    | inl none_there ↦ none_there
    | inr (x, rest, f) ↦ absurd (ground (arith, e, f))
  ]

  -- In a plan that is accepted, ids are not empty and distinct; the dependencies of each node are
  -- distinct ids of other nodes of the plan; and each reference in the input of a node reads the
  -- workflow input or a dependency that the node lists.
  pub accepted-IsWellFormed :
      (plan : Plan) → validate_parsed_plan defs plan ≡ [] → IsWellFormed plan.nodes
  unfolding semantic_issues
  accepted-IsWellFormed plan e =
      let (three, output) = append-nil_parts _ _ (accepted-semantic plan e) in
      let (two, sessions) = append-nil_parts _ _ three in
      let (ids, nodes) = append-nil_parts _ _ two in
      let (named, distinct, new) = id_issues-nil plan.nodes [] ids in
      let quiet = node_issues-nil defs plan.nodes (index_nodes plan.nodes []) nodes in
      record {
        named = named;
        distinct = distinct;
        dependencies = All-map _ _ plan.nodes (quiet-good plan.nodes) quiet;
        declared = All-map _ _ plan.nodes (quiet-IsDeclared (index_nodes plan.nodes [])) quiet;
      }
