-- ===== src/Binding/Tests.antt =====
-- Bindings at concrete values, and the theorems at them.
use seqlane.Prelude.{decimal, String, ◌≡◌, refl, true, List, [], ◌∷◌, lookup, All}
use seqlane.Binding.Json.{
  Json, null, boolean, number, string, array, object, last, element, empty, entry,
}
use seqlane.Binding.Resolve.{
  throws, returns, no_result, missing_path, resolve_binding, referenced_node_ids,
}
use seqlane.Binding.References.{references, node_ids}
use seqlane.Binding.Faults.{fault, first_fault, resolve_binding-fault, resolve_binding_closed}
use seqlane.Binding.Serialize.{ref_entries, serialize_binding, collect_dependencies}
use seqlane.Binding.Roundtrip.{serialize_binding_roundtrip}
use seqlane.Binding.Agreement.{collect_dependencies_lem, resolve_binding_agree, task_ids}
use seqlane.Binding.References.{referenced_node_ids_lem}
use seqlane.Prelude.{add_all}

abbrev ref : String → List String → Json
ref node path = object (ref_entries (record { node_id = node; path = path }))

-- `{ name: ref(input).name, first: [ref(build).output.files.0, null] }`
abbrev binding : Json
binding = object (
    entry "name" (ref "__seqlane_input" ("name" ∷ [])) (
      entry "first"
        (array (element (ref "build" ("output" ∷ "files" ∷ "0" ∷ [])) (element null last))) empty))

abbrev input : Json
input = object (entry "name" (string "seqlane") empty)

abbrev built : Json
built = object (entry "files" (array (element (string "a.ts") last)) empty)

abbrev results : List (String × Json)
results = ("build", built) ∷ []

binding_resolved :
    resolve_binding binding input results
    ≡ returns (
        object (
          entry "name"
            (string "seqlane")
            (entry "first" (array (element (string "a.ts") (element null last))) empty)))
unfolding resolve_binding lookup decimal
binding_resolved = refl

no_build : resolve_binding binding input [] ≡ throws (no_result "build")
unfolding resolve_binding lookup decimal
no_build = refl

no_name :
    resolve_binding binding null results ≡ throws (missing_path ("name" ∷ []) "__seqlane_input")
unfolding resolve_binding lookup decimal
no_name = refl

-- A reference with an empty node id is data.
abbrev unnamed : Json
unnamed = ref "" []

unnamed_is_data : resolve_binding unnamed input results ≡ returns unnamed
unfolding resolve_binding lookup decimal
unnamed_is_data = refl

binding_ids : referenced_node_ids binding ≡ "__seqlane_input" ∷ "build" ∷ []
unfolding referenced_node_ids
binding_ids = refl

binding_dependencies : collect_dependencies binding [] ≡ "build" ∷ []
unfolding collect_dependencies
binding_dependencies = refl

resolve_binding-fault_example :
    fault (resolve_binding binding input []) ≡ first_fault input [] (references binding)
resolve_binding-fault_example = resolve_binding-fault binding input []

abbrev plain : Json
plain = array (element (number "3") (element (boolean true) last))

plain_closed : references plain ≡ []
unfolding references
plain_closed = refl

resolve_binding_closed_example : resolve_binding plain input results ≡ returns plain
resolve_binding_closed_example = resolve_binding_closed plain input results plain_closed

serialize_binding_roundtrip_example :
    (resolve_binding (serialize_binding binding) input results
      ≡ resolve_binding binding input results)
    × (references (serialize_binding binding) ≡ references binding)
    × (serialize_binding (serialize_binding binding) ≡ serialize_binding binding)
serialize_binding_roundtrip_example = serialize_binding_roundtrip binding input results

abbrev more_results : List (String × Json)
more_results = ("other", null) ∷ ("build", built) ∷ []

binding_agrees :
    All (λ id. lookup id results ≡ lookup id more_results) (collect_dependencies binding [])
unfolding collect_dependencies lookup
binding_agrees = (refl, tt)

resolve_binding_agree_example :
    resolve_binding binding input results ≡ resolve_binding binding input more_results
resolve_binding_agree_example =
    resolve_binding_agree binding input results more_results binding_agrees

collect_dependencies_lem_example :
    collect_dependencies binding ("lint" ∷ [])
    ≡ add_all (task_ids (references binding)) ("lint" ∷ [])
collect_dependencies_lem_example = collect_dependencies_lem binding ("lint" ∷ [])

referenced_node_ids_lem_example :
    referenced_node_ids binding ≡ add_all (node_ids (references binding)) []
referenced_node_ids_lem_example = referenced_node_ids_lem binding
