-- ===== src/Binding/Agreement.antt =====
-- `collectDependencies` gives all the nodes whose results the resolution of a binding reads.
use seqlane.Prelude.{
  String, ◌≡◌, refl, ap, ◌∙◌, sym, subst, inl, inr, true, List, [], ◌∷◌, ◌++◌, Option-cases,
  Bool-cases, lookup, without, add_all, add_all-append, add_all-All, All, ◌==◌, arith,
}
use seqlane.Binding.Json.{
  Json, undefined, null, boolean, number, string, array, object, Elements, last, element, Entries,
  empty, entry, ValueRef, parse_ref,
}
use seqlane.Binding.Resolve.{
  workflow_input_node_id, resolve_reference, resolve_binding, resolve_elements, resolve_entries,
}
use seqlane.Binding.References.{
  references, references_of_elements, references_of_entries, node_ids, node_ids-append,
}
use seqlane.Binding.Serialize.{
  add_dependency, collect_dependencies, dependencies_of_elements, dependencies_of_entries,
}

-- The nodes of references that are not the workflow input.
abbrev pub task_ids : List ValueRef → List String
task_ids rs = without workflow_input_node_id (node_ids rs)

without-append :
    (key : String) (xs ys : List String) → without key (xs ++ ys) ≡ without key xs ++ without key ys
unfolding without
without-append key [] ys = refl
without-append key (x ∷ xs) ys = ground (arith, without-append key xs ys)

add_all-task_ids :
    (rs ss : List ValueRef) (ids : List String)
    → add_all (task_ids (rs ++ ss)) ids ≡ add_all (task_ids ss) (add_all (task_ids rs) ids)
add_all-task_ids rs ss ids =
    rw (node_ids-append rs ss, without-append workflow_input_node_id (node_ids rs) (node_ids ss))
      (add_all-append (task_ids rs) (task_ids ss) ids)

mutual
  unfolding collect_dependencies references add_dependency add_all without

  dependencies-references :
      (b : Json) (ids : List String)
      → collect_dependencies b ids ≡ add_all (task_ids (references b)) ids
  dependencies-references (object es) ids = elim (Option-cases (parse_ref es)) [
    | inl e ↦ ground (arith, e, dependencies-references_of_entries es ids)
    | inr (r, e) ↦ ground (arith, e)
  ]
  dependencies-references (array vs) ids = dependencies-references_of_elements vs ids
  dependencies-references undefined ids = refl
  dependencies-references null ids = refl
  dependencies-references (boolean b) ids = refl
  dependencies-references (number n) ids = refl
  dependencies-references (string s) ids = refl

  dependencies-references_of_elements :
      (vs : Elements) (ids : List String)
      → dependencies_of_elements vs ids ≡ add_all (task_ids (references_of_elements vs)) ids
  dependencies-references_of_elements last ids = refl
  dependencies-references_of_elements (element v vs) ids =
      ap (dependencies_of_elements vs) (dependencies-references v ids)
      ∙ dependencies-references_of_elements vs (add_all (task_ids (references v)) ids)
      ∙ sym (add_all-task_ids (references v) (references_of_elements vs) ids)

  dependencies-references_of_entries :
      (es : Entries) (ids : List String)
      → dependencies_of_entries es ids ≡ add_all (task_ids (references_of_entries es)) ids
  dependencies-references_of_entries empty ids = refl
  dependencies-references_of_entries (entry key v rest) ids =
      ap (dependencies_of_entries rest) (dependencies-references v ids)
      ∙ dependencies-references_of_entries rest (add_all (task_ids (references v)) ids)
      ∙ sym (add_all-task_ids (references v) (references_of_entries rest) ids)

-- The dependencies of a binding are added to the set in reading order, each once, and the workflow
-- input is not one of them.
pub collect_dependencies_lem :
    (b : Json) (dependencies : List String)
    → collect_dependencies b dependencies
      ≡ add_all (without workflow_input_node_id (node_ids (references b))) dependencies
collect_dependencies_lem b dependencies = dependencies-references b dependencies

module _ (i : Json) (m m' : List (String × Json)) where
  abbrev Agrees : ValueRef → Type 0
  Agrees r = resolve_reference r i m ≡ resolve_reference r i m'

  reference-Agrees : (r : ValueRef) → lookup r.node_id m ≡ lookup r.node_id m' → Agrees r
  unfolding resolve_reference
  reference-Agrees r same = rw same refl

  input-Agrees : (r : ValueRef) → (r.node_id == workflow_input_node_id) ≡ true → Agrees r
  unfolding resolve_reference
  input-Agrees r e = rw e refl

  task_ids-Agrees :
      (rs : List ValueRef) → All (λ id. lookup id m ≡ lookup id m') (task_ids rs) → All Agrees rs
  unfolding without
  task_ids-Agrees [] h = tt
  task_ids-Agrees (r ∷ rs) h = elim (Bool-cases (r.node_id == workflow_input_node_id)) [
    | inl e ↦
        let skip : task_ids (r ∷ rs) ≡ task_ids rs = ground (arith, e) in
        (
          input-Agrees r e,
          task_ids-Agrees rs (subst (All (λ id. lookup id m ≡ lookup id m')) skip h),
        )
    | inr e ↦
        let keep : task_ids (r ∷ rs) ≡ r.node_id ∷ task_ids rs = ground (arith, e) in
        let (here, later) = subst (All (λ id. lookup id m ≡ lookup id m')) keep h in
        (reference-Agrees r here, task_ids-Agrees rs later)
  ]

All-split : (P : ValueRef → Type 0) (rs ss : List ValueRef) → All P (rs ++ ss) → All P rs × All P ss
All-split P [] ss h = (tt, h)
All-split P (r ∷ rs) ss h = let (here, later) = All-split P rs ss h.1 in ((h.0, here), later)

mutual
  unfolding resolve_binding references

  agreeing-binding :
      (b i : Json) (m m' : List (String × Json))
      → All (Agrees i m m') (references b)
      → resolve_binding b i m ≡ resolve_binding b i m'
  agreeing-binding (object es) i m m' h = elim (Option-cases (parse_ref es)) [
    | inl e ↦
        let same : references (object es) ≡ references_of_entries es = ground (arith, e) in
        ground (arith, e, agreeing-entries es i m m' (subst (All (Agrees i m m')) same h))
    | inr (r, e) ↦
        let same : references (object es) ≡ r ∷ [] = ground (arith, e) in
        ground (arith, e, (subst (All (Agrees i m m')) same h).0)
  ]
  agreeing-binding (array vs) i m m' h = rw (agreeing-elements vs i m m' h) refl
  agreeing-binding undefined i m m' h = refl
  agreeing-binding null i m m' h = refl
  agreeing-binding (boolean b) i m m' h = refl
  agreeing-binding (number n) i m m' h = refl
  agreeing-binding (string s) i m m' h = refl

  agreeing-elements :
      (vs : Elements) (i : Json) (m m' : List (String × Json))
      → All (Agrees i m m') (references_of_elements vs)
      → resolve_elements vs i m ≡ resolve_elements vs i m'
  agreeing-elements last i m m' h = refl
  agreeing-elements (element v vs) i m m' h =
      let (here, later) = All-split (Agrees i m m') (references v) (references_of_elements vs) h in
      rw (agreeing-binding v i m m' here, agreeing-elements vs i m m' later) refl

  agreeing-entries :
      (es : Entries) (i : Json) (m m' : List (String × Json))
      → All (Agrees i m m') (references_of_entries es)
      → resolve_entries es i m ≡ resolve_entries es i m'
  agreeing-entries empty i m m' h = refl
  agreeing-entries (entry key v rest) i m m' h =
      let (here, later) = All-split (Agrees i m m') (references v) (references_of_entries rest) h in
      rw (agreeing-binding v i m m' here, agreeing-entries rest i m m' later) refl

-- Two maps of results that agree on the dependencies collected from a binding give it the same
-- resolution, errors included: no other result is read.
pub resolve_binding_agree :
    (b workflow_input : Json) (results results' : List (String × Json))
    → All (λ id. lookup id results ≡ lookup id results') (collect_dependencies b [])
    → resolve_binding b workflow_input results ≡ resolve_binding b workflow_input results'
resolve_binding_agree b workflow_input results results' h =
    let same = dependencies-references b [] in
    let known = subst (All (λ id. lookup id results ≡ lookup id results')) same h in
    agreeing-binding b workflow_input results results' (
      task_ids-Agrees workflow_input results results' (references b)
        (add_all-All (λ id. lookup id results ≡ lookup id results') (task_ids (references b)) []
          known).1)
