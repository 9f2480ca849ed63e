-- ===== src/Binding/Resolve.antt =====
-- libs/runtime/src/runtime/plan/binding-resolution.ts.
use seqlane.Prelude.{
  String, Bool, true, ◌&&◌, not, none, some, List, [], ◌∷◌, if◌then◌else◌, is_some, lookup, add,
  ◌==◌,
}
use seqlane.Binding.Json.{
  Json, undefined, null, boolean, number, string, array, object, Elements, last, element, Entries,
  empty, entry, ValueRef, own_property, parse_ref,
}

-- The two messages of the error.
pub data BindingResolutionError : Type 0 where
  no_result : (node_id : String) → BindingResolutionError
  missing_path : (path : List String) (node_id : String) → BindingResolutionError

pub data Resolution {ℓ} (A : Type ℓ) : Type ℓ where
  throws : BindingResolutionError → Resolution A
  returns : A → Resolution A

abbrev pub and_then {ℓ κ} :
    {A : Type ℓ} {B : Type κ} → Resolution A → (A → Resolution B) → Resolution B
and_then (throws e) f = throws e
and_then (returns a) f = f a

abbrev pub workflow_input_node_id : String
workflow_input_node_id = "__seqlane_input"

-- The loop of `traversePath`; `path` and `node_id` are those of the message.
unfoldable pub traverse : Json → List String → List String → String → Resolution Json
unfolding own_property
traverse current [] path node_id = returns current
traverse current (segment ∷ rest) path node_id = elim (own_property current segment) [
  | none ↦ throws (missing_path path node_id)
  | some next ↦ traverse next rest path node_id
]

unfoldable pub traverse_path : Json → List String → String → Resolution Json
unfolding traverse
traverse_path value path node_id = traverse value path path node_id

-- `typeof result !== "object" || result === null || !hasOwnProperty.call(result, "output")`
unfoldable pub lacks_output : Json → Bool
unfolding own_property
lacks_output (array vs) = not (is_some (own_property (array vs) "output"))
lacks_output (object es) = not (is_some (own_property (object es) "output"))
lacks_output _ = true

-- A path from `output` on starts after it where the result has no envelope.
unfoldable pub result_path : Json → List String → List String
unfolding lacks_output
result_path result [] = []
result_path result (segment ∷ rest) =
    if segment == "output" && lacks_output result then rest else segment ∷ rest

unfoldable pub resolve_reference : ValueRef → Json → List (String × Json) → Resolution Json
unfolding traverse_path result_path
resolve_reference reference workflow_input results =
    if reference.node_id == workflow_input_node_id
    then traverse_path workflow_input reference.path reference.node_id
    else elim (lookup reference.node_id results) [
      | none ↦ throws (no_result reference.node_id)
      | some result ↦ traverse_path result (result_path result reference.path) reference.node_id
    ]

-- `resolveBinding`, which stops at the first error.
unfoldable mutual
  unfolding parse_ref resolve_reference

  pub resolve_binding : Json → Json → List (String × Json) → Resolution Json
  resolve_binding (object es) workflow_input results = elim (parse_ref es) [
    | some reference ↦ resolve_reference reference workflow_input results
    | none ↦ and_then (resolve_entries es workflow_input results) (λ es'. returns (object es'))
  ]
  resolve_binding (array vs) workflow_input results =
      and_then (resolve_elements vs workflow_input results) (λ vs'. returns (array vs'))
  resolve_binding undefined workflow_input results = returns undefined
  resolve_binding null workflow_input results = returns null
  resolve_binding (boolean b) workflow_input results = returns (boolean b)
  resolve_binding (number n) workflow_input results = returns (number n)
  resolve_binding (string s) workflow_input results = returns (string s)

  pub resolve_elements : Elements → Json → List (String × Json) → Resolution Elements
  resolve_elements last workflow_input results = returns last
  resolve_elements (element v vs) workflow_input results =
      and_then (resolve_binding v workflow_input results) (λ v'.
        and_then (resolve_elements vs workflow_input results) (λ vs'. returns (element v' vs')))

  pub resolve_entries : Entries → Json → List (String × Json) → Resolution Entries
  resolve_entries empty workflow_input results = returns empty
  resolve_entries (entry key v rest) workflow_input results =
      and_then (resolve_binding v workflow_input results) (λ v'.
        and_then (resolve_entries rest workflow_input results)
          (λ rest'. returns (entry key v' rest')))

-- `collectReferenceNodeIds`, which adds to the set `node_ids`.
unfoldable mutual
  unfolding parse_ref add

  pub collect_reference_node_ids : Json → List String → List String
  collect_reference_node_ids (object es) node_ids = elim (parse_ref es) [
    | some reference ↦ add reference.node_id node_ids
    | none ↦ collect_from_entries es node_ids
  ]
  collect_reference_node_ids (array vs) node_ids = collect_from_elements vs node_ids
  collect_reference_node_ids _ node_ids = node_ids

  pub collect_from_elements : Elements → List String → List String
  collect_from_elements last node_ids = node_ids
  collect_from_elements (element v vs) node_ids =
      collect_from_elements vs (collect_reference_node_ids v node_ids)

  pub collect_from_entries : Entries → List String → List String
  collect_from_entries empty node_ids = node_ids
  collect_from_entries (entry key v rest) node_ids =
      collect_from_entries rest (collect_reference_node_ids v node_ids)

unfoldable pub referenced_node_ids : Json → List String
unfolding collect_reference_node_ids
referenced_node_ids binding = collect_reference_node_ids binding []
