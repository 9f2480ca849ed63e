-- ===== src/Binding/Serialize.antt =====
-- `serializeBinding` and `collectDependencies` of libs/core/src/bindings.ts.
use seqlane.Prelude.{String, none, some, List, [], ◌∷◌, if◌then◌else◌, add, ◌==◌}
use seqlane.Binding.Json.{
  Json, undefined, null, boolean, number, string, array, object, Elements, last, element, Entries,
  empty, entry, ValueRef, parse_ref,
}
use seqlane.Binding.Resolve.{workflow_input_node_id}

abbrev pub path_elements : List String → Elements
path_elements [] = last
path_elements (segment ∷ rest) = element (string segment) (path_elements rest)

-- `{ type: "ref", nodeId, path: [...path] }`
abbrev pub ref_entries : ValueRef → Entries
ref_entries r =
    entry "type" (string "ref")
      (entry "nodeId" (string r.node_id) (entry "path" (array (path_elements r.path)) empty))

unfoldable mutual
  unfolding parse_ref

  pub serialize_binding : Json → Json
  serialize_binding (object es) = elim (parse_ref es) [
    | some reference ↦ object (ref_entries reference)
    | none ↦ object (serialize_entries es)
  ]
  serialize_binding (array vs) = array (serialize_elements vs)
  serialize_binding undefined = undefined
  serialize_binding null = null
  serialize_binding (boolean b) = boolean b
  serialize_binding (number n) = number n
  serialize_binding (string s) = string s

  pub serialize_elements : Elements → Elements
  serialize_elements last = last
  serialize_elements (element v vs) = element (serialize_binding v) (serialize_elements vs)

  pub serialize_entries : Entries → Entries
  serialize_entries empty = empty
  serialize_entries (entry key v rest) = entry key (serialize_binding v) (serialize_entries rest)

-- The dependency that a reference stands for; the workflow input is not one.
unfoldable pub add_dependency : ValueRef → List String → List String
unfolding add
add_dependency r dependencies =
    if r.node_id == workflow_input_node_id then dependencies else add r.node_id dependencies

unfoldable mutual
  unfolding parse_ref add_dependency

  pub collect_dependencies : Json → List String → List String
  collect_dependencies (object es) dependencies = elim (parse_ref es) [
    | some reference ↦ add_dependency reference dependencies
    | none ↦ dependencies_of_entries es dependencies
  ]
  collect_dependencies (array vs) dependencies = dependencies_of_elements vs dependencies
  collect_dependencies _ dependencies = dependencies

  pub dependencies_of_elements : Elements → List String → List String
  dependencies_of_elements last dependencies = dependencies
  dependencies_of_elements (element v vs) dependencies =
      dependencies_of_elements vs (collect_dependencies v dependencies)

  pub dependencies_of_entries : Entries → List String → List String
  dependencies_of_entries empty dependencies = dependencies
  dependencies_of_entries (entry key v rest) dependencies =
      dependencies_of_entries rest (collect_dependencies v dependencies)
