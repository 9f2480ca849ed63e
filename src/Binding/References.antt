-- ===== src/Binding/References.antt =====
-- The references of a binding in reading order, as a description of what the functions of
-- binding-resolution.ts visit.
use seqlane.Prelude.{
  String, ◌≡◌, refl, ap, ◌∙◌, sym, inl, inr, none, some, List, [], ◌∷◌, ◌++◌, map, Option-cases,
  add_all, add_all-append, arith,
}
use seqlane.Binding.Json.{
  Json, undefined, null, boolean, number, string, array, object, Elements, last, element, Entries,
  empty, entry, ValueRef, parse_ref,
}
use seqlane.Binding.Resolve.{
  collect_reference_node_ids, collect_from_elements, collect_from_entries, referenced_node_ids,
}

unfoldable mutual
  pub references : Json → List ValueRef
  references (object es) = elim (parse_ref es) [
    | some reference ↦ reference ∷ []
    | none ↦ references_of_entries es
  ]
  references (array vs) = references_of_elements vs
  references _ = []

  pub references_of_elements : Elements → List ValueRef
  references_of_elements last = []
  references_of_elements (element v vs) = references v ++ references_of_elements vs

  pub references_of_entries : Entries → List ValueRef
  references_of_entries empty = []
  references_of_entries (entry key v rest) = references v ++ references_of_entries rest

abbrev pub node_ids : List ValueRef → List String
node_ids rs = map (λ r. r.node_id) rs

pub node_ids-append : (rs ss : List ValueRef) → node_ids (rs ++ ss) ≡ node_ids rs ++ node_ids ss
node_ids-append [] ss = refl
node_ids-append (r ∷ rs) ss = ap (λ ids. r.node_id ∷ ids) (node_ids-append rs ss)

pub add_all-node_ids :
    (rs ss : List ValueRef) (ids : List String)
    → add_all (node_ids (rs ++ ss)) ids ≡ add_all (node_ids ss) (add_all (node_ids rs) ids)
add_all-node_ids rs ss ids =
    rw (node_ids-append rs ss) (add_all-append (node_ids rs) (node_ids ss) ids)

mutual
  unfolding collect_reference_node_ids references add_all

  collect-references :
      (b : Json) (ids : List String)
      → collect_reference_node_ids b ids ≡ add_all (node_ids (references b)) ids
  collect-references (object es) ids = elim (Option-cases (parse_ref es)) [
    | inl e ↦ ground (arith, e, collect-references_of_entries es ids)
    | inr (r, e) ↦ ground (arith, e)
  ]
  collect-references (array vs) ids = collect-references_of_elements vs ids
  collect-references undefined ids = refl
  collect-references null ids = refl
  collect-references (boolean b) ids = refl
  collect-references (number n) ids = refl
  collect-references (string s) ids = refl

  collect-references_of_elements :
      (vs : Elements) (ids : List String)
      → collect_from_elements vs ids ≡ add_all (node_ids (references_of_elements vs)) ids
  collect-references_of_elements last ids = refl
  collect-references_of_elements (element v vs) ids =
      ap (collect_from_elements vs) (collect-references v ids)
      ∙ collect-references_of_elements vs (add_all (node_ids (references v)) ids)
      ∙ sym (add_all-node_ids (references v) (references_of_elements vs) ids)

  collect-references_of_entries :
      (es : Entries) (ids : List String)
      → collect_from_entries es ids ≡ add_all (node_ids (references_of_entries es)) ids
  collect-references_of_entries empty ids = refl
  collect-references_of_entries (entry key v rest) ids =
      ap (collect_from_entries rest) (collect-references v ids)
      ∙ collect-references_of_entries rest (add_all (node_ids (references v)) ids)
      ∙ sym (add_all-node_ids (references v) (references_of_entries rest) ids)

-- The node ids of a binding are those of its references in reading order, each once.
pub referenced_node_ids_lem :
    (b : Json) → referenced_node_ids b ≡ add_all (node_ids (references b)) []
unfolding referenced_node_ids
referenced_node_ids_lem b = collect-references b []
