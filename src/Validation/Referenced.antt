-- ===== src/Validation/Referenced.antt =====
-- The references of a binding without issues, and their resolution.
use seqlane.Prelude.{
  String, ◌≡◌, ◌≢◌, sym, subst, ◌⊎◌, inl, inr, true, none, some, List, [], ◌∷◌, ◌++◌, is_some,
  if_elim, option_elim, Bool-cases, Option-cases, lookup, has, All, append-nil_parts, ◌==◌, arith,
}
use seqlane.Binding.Json.{
  Json, undefined, null, boolean, number, string, array, object, Elements, last, element, Entries,
  empty, entry, ValueRef, parse_ref, own_property,
}
use seqlane.Binding.Resolve.{
  Resolution, throws, no_result, missing_path, workflow_input_node_id, traverse, traverse_path,
  result_path, resolve_reference, resolve_binding,
}
use seqlane.Binding.References.{references, references_of_elements, references_of_entries}
use seqlane.Binding.Faults.{fault, first_fault, resolve_binding-fault}
use seqlane.Plan.Nodes.{PlanNode, depends_on_of}
use seqlane.Validation.Issues.{unknown_value_ref_target}
use seqlane.Validation.References.{
  NodesById, lacks_dependency, Scope, reference_issues, validate_references, validate_elements,
  validate_entries,
}

-- The reference reads the workflow input or a dependency of the node.
abbrev pub IsDeclared : List String → ValueRef → Type 0
IsDeclared deps r = ((r.node_id == workflow_input_node_id) ≡ true) ⊎ (has r.node_id deps ≡ true)

-- The scope of the bindings of a node.
abbrev pub scope_of : NodesById → PlanNode → Scope
scope_of nodes n = record {
  owner = some n;
  nodes = nodes;
  allowed_node_ids = [];
  allow_workflow_input = true;
  unknown_reference_code = unknown_value_ref_target;
}

reference-IsDeclared :
    (nodes : NodesById) (n : PlanNode) (r : ValueRef)
    → reference_issues (scope_of nodes n) r ≡ []
    → IsDeclared (depends_on_of n) r
unfolding reference_issues lacks_dependency has
reference-IsDeclared nodes n r e = elim (Bool-cases (r.node_id == workflow_input_node_id)) [
  | inl input ↦ inl input
  | inr other ↦ inr (ground (arith, e, other))
]

All-append :
    (P : ValueRef → Type 0) (rs ss : List ValueRef) → All P rs → All P ss → All P (rs ++ ss)
All-append P [] ss h g = g
All-append P (r ∷ rs) ss h g = (h.0, All-append P rs ss h.1 g)

untagged-nil :
    (s : Scope) (es : Entries)
    → parse_ref es ≡ none
    → validate_references s (object es) ≡ []
    → validate_entries s es ≡ []
unfolding validate_references
untagged-nil s es f e = ground (arith, f, e)

reference-nil :
    (s : Scope) (es : Entries) (r : ValueRef)
    → parse_ref es ≡ some r
    → validate_references s (object es) ≡ []
    → reference_issues s r ≡ []
unfolding validate_references
reference-nil s es r f e = ground (arith, f, e)

mutual
  unfolding validate_references references

  binding-IsDeclared :
      (nodes : NodesById) (n : PlanNode) (b : Json)
      → validate_references (scope_of nodes n) b ≡ []
      → All (IsDeclared (depends_on_of n)) (references b)
  binding-IsDeclared nodes n (object es) e = elim (Option-cases (parse_ref es)) [
    | inl f ↦
        let same : references (object es) ≡ references_of_entries es = ground (arith, f) in
        subst (All (IsDeclared (depends_on_of n))) (sym same)
          (entries-IsDeclared nodes n es (untagged-nil (scope_of nodes n) es f e))
    | inr (r, f) ↦
        let same : references (object es) ≡ r ∷ [] = ground (arith, f) in
        subst (All (IsDeclared (depends_on_of n))) (sym same)
          (reference-IsDeclared nodes n r (reference-nil (scope_of nodes n) es r f e), tt)
  ]
  binding-IsDeclared nodes n (array vs) e = elements-IsDeclared nodes n vs e
  binding-IsDeclared nodes n undefined e = tt
  binding-IsDeclared nodes n null e = tt
  binding-IsDeclared nodes n (boolean b) e = tt
  binding-IsDeclared nodes n (number k) e = tt
  binding-IsDeclared nodes n (string s) e = tt

  elements-IsDeclared :
      (nodes : NodesById) (n : PlanNode) (vs : Elements)
      → validate_elements (scope_of nodes n) vs ≡ []
      → All (IsDeclared (depends_on_of n)) (references_of_elements vs)
  elements-IsDeclared nodes n last e = tt
  elements-IsDeclared nodes n (element v vs) e =
      let (here, later) = append-nil_parts _ _ e in
      All-append _ _ _ (binding-IsDeclared nodes n v here) (elements-IsDeclared nodes n vs later)

  entries-IsDeclared :
      (nodes : NodesById) (n : PlanNode) (es : Entries)
      → validate_entries (scope_of nodes n) es ≡ []
      → All (IsDeclared (depends_on_of n)) (references_of_entries es)
  entries-IsDeclared nodes n empty e = tt
  entries-IsDeclared nodes n (entry key v rest) e =
      let (here, later) = append-nil_parts _ _ e in
      All-append _ _ _ (binding-IsDeclared nodes n v here) (entries-IsDeclared nodes n rest later)

pub validated-IsDeclared :
    (nodes : NodesById) (n : PlanNode) (b : Json)
    → validate_references (scope_of nodes n) b ≡ []
    → All (IsDeclared (depends_on_of n)) (references b)
validated-IsDeclared nodes n b e = binding-IsDeclared nodes n b e

traverse-no_result :
    (path whole : List String) (v : Json) (id missing : String)
    → fault (traverse v path whole id) ≢ some (no_result missing)
unfolding traverse
traverse-no_result [] whole v id missing = λ e. cc
traverse-no_result (segment ∷ rest) whole v id missing =
    option_elim (λ (z : Resolution Json). fault z ≢ some (no_result missing))
      (own_property v segment) (throws (missing_path whole id))
      (λ next. traverse next rest whole id) (λ f e. cc)
      (λ next f. traverse-no_result rest whole next id missing)

-- A reference to the input or to a result that is there.
reference-no_result :
    (r : ValueRef) (i : Json) (m : List (String × Json)) (missing : String)
    → ((r.node_id == workflow_input_node_id) ≡ true) ⊎ (is_some (lookup r.node_id m) ≡ true)
    → fault (resolve_reference r i m) ≢ some (no_result missing)
unfolding resolve_reference traverse_path
reference-no_result r i m missing there =
    if_elim (λ (z : Resolution Json). fault z ≢ some (no_result missing))
      (r.node_id == workflow_input_node_id) _ _
      (λ f. traverse-no_result r.path r.path i r.node_id missing)
      (λ f.
        option_elim (λ (z : Resolution Json). fault z ≢ some (no_result missing))
          (lookup r.node_id m) (throws (no_result r.node_id))
          (λ result. traverse_path result (result_path result r.path) r.node_id)
          (λ none_there e. ground (arith, there, f, none_there))
          (λ result g.
            traverse-no_result (result_path result r.path) (result_path result r.path) result
              r.node_id missing))

first_fault-no_result :
    (rs : List ValueRef) (deps : List String) (i : Json) (m : List (String × Json))
    (missing : String)
    → All (IsDeclared deps) rs
    → ((d : String) → has d deps ≡ true → is_some (lookup d m) ≡ true)
    → first_fault i m rs ≢ some (no_result missing)
first_fault-no_result [] deps i m missing h done = λ e. cc
first_fault-no_result (r ∷ rs) deps i m missing h done = λ e. ground (
  arith,
  e,
  reference-no_result r i m missing (there h.0),
  first_fault-no_result rs deps i m missing h.1 done,
)
  where
    there :
        IsDeclared deps r
        → ((r.node_id == workflow_input_node_id) ≡ true) ⊎ (is_some (lookup r.node_id m) ≡ true)
    there (inl input) = inl input
    there (inr dep) = inr (done r.node_id dep)

pub declared-no_result :
    (b : Json) (deps : List String) (i : Json) (m : List (String × Json)) (missing : String)
    → All (IsDeclared deps) (references b)
    → ((d : String) → has d deps ≡ true → is_some (lookup d m) ≡ true)
    → fault (resolve_binding b i m) ≢ some (no_result missing)
declared-no_result b deps i m missing h done =
    rw (resolve_binding-fault b i m) (first_fault-no_result (references b) deps i m missing h done)
